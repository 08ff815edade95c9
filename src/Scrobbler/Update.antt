-- ===== src/Scrobbler/Update.antt =====
-- `update_current_track` and `start_scrobble` of src/scrobbler.rs, on every branch.
use spotify_connect_scrobble.Prelude.{
  ℕ, ◌-◌, ◌<◌, ◌≡◌, ◌↔◌, ◌⊎◌, inl, inr, refl, List, ◌∷◌, Option, none, some, Bool, true, false,
  arith, if◌then◌else◌, Bool-cases, Option-cases, ◌≢◌,
}
use spotify_connect_scrobble.Scrobbler.{
  Scrobbler, same_id, least_play_time, can_scrobble_track, start_scrobble, answered, set_new_track,
  update_current_track, is_current, send_scrobble,
}
use spotify_connect_scrobble.Scrobbler.Services.{Env, Call, scrobble}
use spotify_connect_scrobble.Util.SpotifyId.{SpotifyId}

pub same_id_iff : (a b : SpotifyId) → (same_id a b ≡ true) ↔ (a ≡ b)
unfolding same_id
same_id_iff a b = ground arith

is_current_iff :
    (current : Option SpotifyId) (id : SpotifyId)
    → (is_current current id ≡ true) ↔ (current ≡ some id)
is_current_iff none id = ground arith
is_current_iff (some current) id = ground (arith, same_id_iff current id)

module _ (E : Env) where
  open E use {Scrobble}

  -- What a play that may be scrobbled has: nothing sent for it yet, and more than twenty seconds.
  pub record IsDue (now : ℕ) (s : Scrobbler E) : Type 0 where
    pub unsent : s.current_track_scrobbled ≡ false
    pub idle : s.scrobble_future ≡ none
    pub start : ℕ
    pub started : s.current_track_start ≡ some start
    pub long : least_play_time < now - start

  -- `can_scrobble_track` decides it.
  pub can_scrobble_track_iff :
      (now : ℕ) (s : Scrobbler E) → (can_scrobble_track E now s ≡ true) ↔ IsDue now s
  unfolding can_scrobble_track
  can_scrobble_track_iff now s = (
    λ h. elim (Option-cases s.current_track_start) [
      | inl e ↦ absurd (ground (arith, e))
      | inr (begun, e) ↦ record {
        unsent = ground arith;
        idle = ground arith;
        start = begun;
        started = e;
        long = ground arith;
      }
    ],
    λ d. ground (arith, d.unsent, d.idle, d.started, d.long),
  )

  -- The state after a request for the metadata has been sent.
  abbrev pub sent : Scrobble → Scrobbler E → Scrobbler E
  sent m s = record s {
    calls = scrobble m ∷ s.calls;
    scrobble_future = some (answered E (E.accepts s.calls (scrobble m)));
  }

  pub start_scrobble-none :
      (s : Scrobbler E)
      → s.current_track_meta ≡ none
      → start_scrobble E s ≡ record s { scrobble_future = none }
  unfolding start_scrobble send_scrobble
  start_scrobble-none s e = ground arith

  pub start_scrobble-some :
      (s : Scrobbler E) (m : Scrobble)
      → s.current_track_meta ≡ some m
      → start_scrobble E s ≡ sent m s
  unfolding start_scrobble send_scrobble
  start_scrobble-some s m e = ground arith

  -- What an operation has asked of Last.fm about the play that went before it: the scrobble of its
  -- metadata if it was due and its metadata known, and nothing otherwise.
  abbrev pub Reported : ℕ → Scrobbler E → List (Call Scrobble) → Type 0
  Reported now s calls =
      ((m : Scrobble) × IsDue now s
        × (s.current_track_meta ≡ some m)
        × (calls ≡ scrobble m ∷ s.calls))
      ⊎ ((¬ IsDue now s ⊎ (s.current_track_meta ≡ none)) × (calls ≡ s.calls))

  pub start_scrobble-Reported :
      (now : ℕ) (s : Scrobbler E)
      → Reported now s (if can_scrobble_track E now s then start_scrobble E s else s).calls
  start_scrobble-Reported now s = elim (Bool-cases (can_scrobble_track E now s)) [
    | inr e ↦ rw e (inr (inl (λ d. cc ((can_scrobble_track_iff now s).1 d, e)), refl))
    | inl e ↦ rw e (elim (Option-cases s.current_track_meta) [
      | inl n ↦ rw (start_scrobble-none s n) (inr (inr n, refl))
      | inr (m, k) ↦
          rw (start_scrobble-some s m k) (inl (m, (can_scrobble_track_iff now s).0 e, k, refl))
    ])
  ]

  pub update-new :
      (test now : ℕ) (id : SpotifyId) (force : Bool) (s : Scrobbler E)
      → (s.current_track_id ≢ some id) ⊎ (force ≡ true)
      → update_current_track E test now id force s
        ≡ set_new_track E now id (if can_scrobble_track E test s then start_scrobble E s else s)
  unfolding update_current_track
  update-new test now id force s h = ground (arith, is_current_iff s.current_track_id id)

  update_current_track_cases :
      (test now : ℕ) (id : SpotifyId) (force : Bool) (s : Scrobbler E)
      → let t = update_current_track E test now id force s in
        (s.current_track_id ≡ some id → force ≡ false → t ≡ s)
        × ((s.current_track_id ≢ some id) ⊎ (force ≡ true)
            → (t.current_track_id ≡ some id)
              × (t.current_track_start ≡ some now)
              × (t.current_track_meta ≡ none)
              × (t.current_track_scrobbled ≡ false)
              × (t.new_track_future ≡ E.ok Unit tt)
              × Reported test s t.calls)
  update_current_track_cases test now id force s = (
    λ e k. unfold update_current_track in ground (arith, is_current_iff s.current_track_id id),
    λ h.
        rw (update-new test now id force s h)
          (unfold set_new_track in (refl, refl, refl, refl, refl, start_scrobble-Reported test s)),
  )

  -- An update with the current id that is not forced changes nothing. Any other update makes the id
  -- the current one from `now` on, with no metadata, not scrobbled and its fetch asked for; and it
  -- reports the play that went before to Last.fm exactly if that play is due at `test` and its
  -- metadata is known.
  pub update_current_track_lem :
      (test now : ℕ) (id : SpotifyId) (force : Bool) (s : Scrobbler E)
      → let t = update_current_track E test now id force s in
        ((s.current_track_id ≡ some id) × (force ≡ false) × (t ≡ s))
        ⊎ (((s.current_track_id ≢ some id) ⊎ (force ≡ true))
            × (t.current_track_id ≡ some id)
            × (t.current_track_start ≡ some now)
            × (t.current_track_meta ≡ none)
            × (t.current_track_scrobbled ≡ false)
            × (t.new_track_future ≡ E.ok Unit tt)
            × Reported test s t.calls)
  update_current_track_lem test now id force s = elim (Bool-cases force) [
    | inl f ↦ inr (renewed (inr f))
    | inr f ↦ elim (Bool-cases (is_current s.current_track_id id)) [
      | inl e ↦
          let same = (is_current_iff s.current_track_id id).0 e in
          inl (same, f, (update_current_track_cases test now id force s).0 same f)
      | inr e ↦
          let other : s.current_track_id ≢ some id =
            λ h. cc ((is_current_iff s.current_track_id id).1 h, e) in
          inr (renewed (inl other))
    ]
  ]
    where
      renewed :
          (s.current_track_id ≢ some id) ⊎ (force ≡ true)
          → let t = update_current_track E test now id force s in
            ((s.current_track_id ≢ some id) ⊎ (force ≡ true))
            × (t.current_track_id ≡ some id)
            × (t.current_track_start ≡ some now)
            × (t.current_track_meta ≡ none)
            × (t.current_track_scrobbled ≡ false)
            × (t.new_track_future ≡ E.ok Unit tt)
            × Reported test s t.calls
      renewed h =
          let (a, b, c, d, e, f) = (update_current_track_cases test now id force s).1 h in
          (h, a, b, c, d, e, f)
