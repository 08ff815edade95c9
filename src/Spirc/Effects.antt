-- ===== src/Spirc/Effects.antt =====
-- What a frame does to the task of src/spirc.rs.
use spotify_connect_scrobble.Prelude.{
  ◌+◌, ◌%◌, ◌^◌, ◌≡◌, ◌≢◌, ◌⊎◌, inl, inr, refl, sym, ap, ◌∙◌, List, [], ◌∷◌, Option, none, some,
  Bool, true, false, not, ◌++◌, subst, returns, returns-injective, >>=-eq-returns, unwrap, ◌==◌,
  if◌then◌else◌, get_elem?, arith, Bool-cases,
}
use spotify_connect_scrobble.Prelude.Words.{Bytes, Overflow}
use spotify_connect_scrobble.Prelude.Eq.{bytes_eq}
use spotify_connect_scrobble.Crates.{ByteOrder}
use spotify_connect_scrobble.Util.SpotifyId.{SpotifyId, from_raw}
use spotify_connect_scrobble.Scrobbler.{update_current_track}
use spotify_connect_scrobble.Scrobbler.Services.{Env}
use spotify_connect_scrobble.Spirc.Messages.{MessageType, hello, notify, TrackRef, Frame, get_state}
use spotify_connect_scrobble.Spirc.Sending.{sent-Built}
use spotify_connect_scrobble.Spirc.{
  SpircTask, Round, contains, is_elsewhere, is_foreign, send_notify, track_state, handle_state,
  handle_message, handle_frame,
}

-- The frame is from another device, and for all devices or for this one among others.
abbrev pub IsForMe : Bytes → Frame → Type 0
IsForMe me frame =
    (frame.ident ≢ me) × ((frame.recipient ≡ []) ⊎ (contains frame.recipient me ≡ true))

-- A greeting for this device.
abbrev pub IsGreeting : Bytes → Frame → Type 0
IsGreeting me frame = IsForMe me frame × (frame.typ ≡ hello)

-- A notification for this device, from an active one that has tracks.
abbrev pub IsReport : Bytes → Frame → Type 0
IsReport me frame =
    IsForMe me frame
    × (frame.typ ≡ notify)
    × (frame.device_state.is_active ≡ true)
    × ((get_state frame.state).track ≢ [])

elsewhere :
    (me : Bytes) (rs : List Bytes)
    → is_elsewhere rs me ≡ false
    → (rs ≡ []) ⊎ (contains rs me ≡ true)
elsewhere me [] e = inl refl
elsewhere me (r ∷ rs) e = inr (ground arith)

unwrap-some : {A : Type 0} (o : Option A) (a : A) → unwrap o ≡ returns a → o ≡ some a
unwrap-some none a e = cc
unwrap-some (some b) a e = ap some (returns-injective b a e)

is_foreign-IsForMe : (me : Bytes) (frame : Frame) → is_foreign me frame ≡ false → IsForMe me frame
is_foreign-IsForMe me frame e = (
  λ h. ground (arith, (bytes_eq.beq_iff frame.ident me).1 h),
  elsewhere me frame.recipient (ground arith),
)

elsewhere_not :
    (me : Bytes) (rs : List Bytes)
    → is_elsewhere rs me ≡ true
    → (rs ≡ []) ⊎ (contains rs me ≡ true)
    → ⊥
elsewhere_not me [] e h = cc
elsewhere_not me (r ∷ rs) e (inl h) = cc
elsewhere_not me (r ∷ rs) e (inr h) = ground arith

IsForMe-is_foreign :
    (me : Bytes) (frame : Frame) → is_foreign me frame ≡ true → IsForMe me frame → ⊥
IsForMe-is_foreign me frame e (other, mine) = elim (Bool-cases (bytes_eq.beq frame.ident me)) [
  | inl k ↦ other ((bytes_eq.beq_iff frame.ident me).0 k)
  | inr k ↦ elsewhere_not me frame.recipient (ground (arith, k, e)) mine
]

module _ (E : Env) ⦃order : ByteOrder⦄ where
  -- The one way in which a frame changes the task.
  pub data Effect (r : Round) (frame : Frame) (t : SpircTask E) : SpircTask E → Type 0 where
    ignored : (IsGreeting t.ident frame → ⊥) → (IsReport t.ident frame → ⊥) → Effect r frame t t
    greeted :
        (u : SpircTask E) (answer : Frame)
        → IsForMe t.ident frame
        → frame.typ ≡ hello
        → answer.typ ≡ notify
        → answer.ident ≡ t.ident
        → answer.recipient ≡ frame.ident ∷ []
        → answer.seq_nr ≡ t.sequence.value
        → u.sequence.value ≡ (t.sequence.value + 1) % 2 ^ 32
        → u ≡ record t { sequence = u.sequence; sent = answer ∷ t.sent }
        → Effect r frame t u
    tracked :
        (playing : TrackRef) (id : SpotifyId)
        → IsForMe t.ident frame
        → frame.typ ≡ notify
        → frame.device_state.is_active ≡ true
        → get_elem? (get_state frame.state).track (get_state frame.state).playing_track_index
          ≡ some playing
        → from_raw playing.gid ≡ returns id
        → Effect r frame t (record t {
          scrobbler =
              update_current_track E r.tested r.set id
                ((get_state frame.state).position_ms == 0)
                t.scrobbler;
        })

  notify-Effect :
      (mode : Overflow) (r : Round) (frame : Frame) (t u : SpircTask E)
      → IsForMe t.ident frame
      → frame.typ ≡ hello
      → send_notify E mode r.wall (some frame.ident) t ≡ returns u
      → Effect r frame t u
  unfolding send_notify
  notify-Effect mode r frame t u h k e =
      let (f, t', g, built, same, after) =
        sent-Built E mode r.wall notify (some frame.ident) t u e in
      greeted u g h k (same.typ ∙ built.of_typ) (same.ident ∙ built.from_me)
        (same.recipient ∙ ap (λ rs. rs ++ frame.ident ∷ []) built.to_all)
        (same.seq_nr ∙ built.numbered) (ap (λ x. x.sequence.value) after ∙ built.stepped)
        (after
          ∙ ap (λ x. record t { sequence = x; sent = g ∷ t.sent })
              (sym (ap (λ x. x.sequence) after)))

  track-Effect :
      (r : Round) (frame : Frame) (t u : SpircTask E)
      → IsForMe t.ident frame
      → frame.typ ≡ notify
      → frame.device_state.is_active ≡ true
      → track_state E r (get_state frame.state) t ≡ returns u
      → Effect r frame t u
  unfolding track_state
  track-Effect r frame t u h k a e =
      let state = get_state frame.state in
      let (playing, e1, e2) =
        >>=-eq-returns (unwrap (get_elem? state.track state.playing_track_index)) _ e in
      let (id, e3, e4) = >>=-eq-returns (from_raw playing.gid) _ e2 in
      subst (Effect r frame t) (returns-injective _ u e4)
        (tracked playing id h k a (unwrap-some _ playing e1) e3)

  state-Effect :
      (r : Round) (frame : Frame) (t u : SpircTask E) (tracks : List TrackRef)
      → IsForMe t.ident frame
      → frame.typ ≡ notify
      → frame.device_state.is_active ≡ true
      → (get_state frame.state).track ≡ tracks
      → handle_state E r (get_state frame.state) tracks t ≡ returns u
      → Effect r frame t u
  state-Effect r frame t u [] h k a n e =
      subst (Effect r frame t) (returns-injective t u e) (ignored (λ g. cc (g.1, k)) (λ g. g.3 n))
  state-Effect r frame t u (x ∷ xs) h k a n e = track-Effect r frame t u h k a e

  active-Effect :
      (r : Round) (frame : Frame) (t u : SpircTask E) (active : Bool)
      → IsForMe t.ident frame
      → frame.typ ≡ notify
      → frame.device_state.is_active ≡ active
      → (if not active
          then returns t
          else handle_state E r (get_state frame.state) (get_state frame.state).track t)
        ≡ returns u
      → Effect r frame t u
  active-Effect r frame t u true h k a e = state-Effect r frame t u _ h k a refl e
  active-Effect r frame t u false h k a e =
      subst (Effect r frame t) (returns-injective t u e)
        (ignored (λ g. cc (g.1, k)) (λ g. cc (g.2, a)))

  message-Effect :
      (mode : Overflow) (r : Round) (typ : MessageType) (frame : Frame) (t u : SpircTask E)
      → IsForMe t.ident frame
      → frame.typ ≡ typ
      → handle_message E mode r typ frame t ≡ returns u
      → Effect r frame t u
  message-Effect mode r hello frame t u h k e = notify-Effect mode r frame t u h k e
  message-Effect mode r notify frame t u h k e = active-Effect r frame t u _ h k refl e
  message-Effect mode r typ frame t u h k e =
      subst (Effect r frame t) (returns-injective t u e)
        (ignored (λ g. cc (g.1, k)) (λ g. cc (g.1, k)))

  -- A frame that is handled without a panic has the effect of its kind. A greeting for this device
  -- is answered by one notification to its sender alone, with the next sequence number, and never
  -- ignored. A notification for this device, from an active one with tracks, hands the id of the
  -- playing one to the scrobbler, forced at position 0, and is never ignored. Any other frame
  -- changes nothing. A frame is for this device if another one sent it to all or to this one among
  -- others.
  pub handle_frame-Effect :
      (mode : Overflow) (r : Round) (frame : Frame) (t u : SpircTask E)
      → handle_frame E mode r frame t ≡ returns u
      → Effect r frame t u
  unfolding handle_frame
  handle_frame-Effect mode r frame t u e = elim (Bool-cases (is_foreign t.ident frame)) [
    | inl k ↦
        let other = IsForMe-is_foreign t.ident frame k in
        subst (Effect r frame t) (returns-injective t u (foreign k))
          (ignored (λ g. other g.0) (λ g. other g.0))
    | inr k ↦
        message-Effect mode r frame.typ frame t u (is_foreign-IsForMe t.ident frame k) refl (mine k)
  ]
    where
      foreign : is_foreign t.ident frame ≡ true → returns t ≡ returns u
      foreign k =
          sym (ap (λ b. if b then returns t else handle_message E mode r frame.typ frame t) k) ∙ e

      mine :
          is_foreign t.ident frame ≡ false → handle_message E mode r frame.typ frame t ≡ returns u
      mine k =
          sym (ap (λ b. if b then returns t else handle_message E mode r frame.typ frame t) k) ∙ e
