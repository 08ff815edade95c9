-- ===== src/Spirc/Sending.antt =====
-- The frames that `CommandSender` of src/spirc.rs builds and sends.
use spotify_connect_scrobble.Prelude.{
  ℕ, ◌+◌, ◌%◌, ◌^◌, ◌≡◌, inl, inr, refl, sym, ap, ◌∙◌, [], ◌∷◌, Option, some, not, ◌&&◌, returns,
  returns-injective, subst, ◌>>=◌, >>=-eq-returns, arith, Bool-cases,
}
use spotify_connect_scrobble.Prelude.Words.{Bytes, Overflow, checked, wrapping}
use spotify_connect_scrobble.Util.Seq
use spotify_connect_scrobble.Util.Seq.{SeqGenerator}
use spotify_connect_scrobble.Scrobbler.Services.{Env}
use spotify_connect_scrobble.Spirc.Messages.{MessageType, Frame}
use spotify_connect_scrobble.Spirc.{SpircTask, command_frame, has_state, send, addressed}

-- The two frames differ at most in the state that they carry.
pub record SameCommand (f g : Frame) : Type 0 where
  pub typ : g.typ ≡ f.typ
  pub ident : g.ident ≡ f.ident
  pub recipient : g.recipient ≡ f.recipient
  pub seq_nr : g.seq_nr ≡ f.seq_nr

-- A value that a generator returned is the one it had, and the next one is one more.
pub get-returns :
    (mode : Overflow) (s s' : SeqGenerator) (v : ℕ)
    → Seq.get mode 32 s ≡ returns (v, s')
    → (v ≡ s.value) × (s'.value ≡ (s.value + 1) % 2 ^ 32)
unfolding Seq.get
get-returns checked s s' v e = ground arith
get-returns wrapping s s' v e = ground arith

module _ (E : Env) where
  pub send_lem :
      (f : Frame) (t : SpircTask E)
      → (g : Frame) × SameCommand f g × (send E f t ≡ record t { sent = g ∷ t.sent })
  unfolding send
  send_lem f t = elim (Bool-cases (not (has_state f.state) && t.device.is_active)) [
    | inl e ↦ rw e (
      record f { state = some t.state },
      record { typ = refl; ident = refl; recipient = refl; seq_nr = refl },
      refl,
    )
    | inr e ↦ rw e (f, record { typ = refl; ident = refl; recipient = refl; seq_nr = refl }, refl)
  ]

  -- A frame that `CommandSender` built, and the task after it.
  pub record Built (typ : MessageType) (t t' : SpircTask E) (f : Frame) : Type 0 where
    pub of_typ : f.typ ≡ typ
    pub from_me : f.ident ≡ t.ident
    pub to_all : f.recipient ≡ []
    pub numbered : f.seq_nr ≡ t.sequence.value
    pub stepped : t'.sequence.value ≡ (t.sequence.value + 1) % 2 ^ 32
    pub rest : t' ≡ record t { sequence = t'.sequence }

  pub command_frame-Built :
      (mode : Overflow) (wall : ℕ) (typ : MessageType) (t t' : SpircTask E) (f : Frame)
      → command_frame E mode wall typ t ≡ returns (f, t')
      → Built typ t t' f
  unfolding command_frame
  command_frame-Built mode wall typ t t' f e =
      let ((v, s), e1, e2) = >>=-eq-returns (Seq.get mode 32 t.sequence) _ e in
      let (same, next) = get-returns mode t.sequence s v e1 in
      subst (λ p. Built typ t p.1 p.0) (returns-injective _ (f, t') e2)
        (record {
          of_typ = refl;
          from_me = refl;
          to_all = refl;
          numbered = same;
          stepped = next;
          rest = refl;
        })

  -- A command that was sent: built, addressed, and put on the outbox.
  pub sent-Built :
      (mode : Overflow) (wall : ℕ) (typ : MessageType) (to : Option Bytes) (t u : SpircTask E)
      → (command_frame E mode wall typ t >>= λ r. returns (send E (addressed to r.0) r.1))
        ≡ returns u
      → (f : Frame) × (t' : SpircTask E) × (g : Frame) × Built typ t t' f
        × SameCommand (addressed to f) g
        × (u ≡ record t { sequence = t'.sequence; sent = g ∷ t.sent })
  sent-Built mode wall typ to t u e =
      let ((f, t'), e1, e2) = >>=-eq-returns (command_frame E mode wall typ t) _ e in
      let (g, same, e3) = send_lem (addressed to f) t' in
      let built = command_frame-Built mode wall typ t t' f e1 in
      (
        f,
        t',
        g,
        built,
        same,
        sym (returns-injective _ u e2)
            ∙ e3
            ∙ ap {A = SpircTask E} (λ x. record x { sent = g ∷ x.sent }) built.rest,
      )
