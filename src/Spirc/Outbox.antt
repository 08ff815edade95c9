-- ===== src/Spirc/Outbox.antt =====
-- The frames that the task of src/spirc.rs has sent: their numbers, and the last of them.
use spotify_connect_scrobble.Prelude.{
  ℕ, ◌+◌, ◌%◌, ◌^◌, ◌≡◌, ◌⊎◌, inl, inr, refl, sym, ap, ◌∙◌, subst, List, [], ◌∷◌, length, Option,
  none, some, Bool, true, false, ◌&&◌, ◌||◌, Run, returns, returns-injective, ◌>>=◌, >>=-eq-returns,
  if◌then◌else◌, arith,
}
use spotify_connect_scrobble.Prelude.Words.{Bytes, Overflow}
use spotify_connect_scrobble.Crates.{ByteOrder}
use spotify_connect_scrobble.Scrobbler.{Scrobbler, ScrobblerConfig}
use spotify_connect_scrobble.Scrobbler.Services.{Env, Poll, ready, not_ready, failed, aborts}
use spotify_connect_scrobble.Scrobbler.Polling
use spotify_connect_scrobble.Spirc.Messages.{MessageType, goodbye, hello, Frame}
use spotify_connect_scrobble.Spirc.{
  SpircTask, SpircCommand, shut_down, Round, command_frame, send, send_hello, handle_command,
  handle_frame, take_frame, take_command, took_scrobbler, poll_streams, poll_open, is_flushed, poll,
  new,
}
use spotify_connect_scrobble.Config.{ConnectConfig}
use spotify_connect_scrobble.Spirc.Sending.{Built, sent-Built}
use spotify_connect_scrobble.Spirc.Effects.{Effect, ignored, greeted, tracked, handle_frame-Effect}

-- Frames, newest first, that were sent by one device under the numbers from 1 on, modulo 2^32.
abbrev pub Numbered : Bytes → List Frame → Type 0
Numbered me [] = Unit
Numbered me (f ∷ fs) = (f.seq_nr ≡ (length fs + 1) % 2 ^ 32) × (f.ident ≡ me) × Numbered me fs

-- The newest frame is the goodbye of a task that shuts down.
abbrev pub EndsInGoodbye : List Frame → Type 0
EndsInGoodbye fs = (f : Frame) × (rest : List Frame) × (fs ≡ f ∷ rest) × (f.typ ≡ goodbye)

module _ (E : Env) where
  -- The outbox is numbered, and the generator stands at the next number.
  abbrev pub IsNumbered : SpircTask E → Type 0
  IsNumbered t = Numbered t.ident t.sent × (t.sequence.value ≡ (length t.sent + 1) % 2 ^ 32)

  sent-IsNumbered :
      (typ : MessageType) (t t' : SpircTask E) (f g : Frame)
      → Built E typ t t' f
      → g.seq_nr ≡ f.seq_nr
      → g.ident ≡ f.ident
      → IsNumbered t
      → IsNumbered (record t { sequence = t'.sequence; sent = g ∷ t.sent })
  sent-IsNumbered typ t t' f g b n i (h, v) =
      ((n ∙ (b.numbered ∙ v), i ∙ b.from_me, h), b.stepped ∙ omega (arith, v))

  sent-numbers :
      (mode : Overflow) (wall : ℕ) (typ : MessageType) (t u : SpircTask E)
      → (command_frame E mode wall typ t >>= λ r. returns (send E r.0 r.1)) ≡ returns u
      → IsNumbered t
      → IsNumbered u
        × ((f : Frame) × (u.sent ≡ f ∷ t.sent) × (f.typ ≡ typ))
        × (u.shutdown ≡ t.shutdown)
  sent-numbers mode wall typ t u e h =
      let (f, t', g, built, same, after) = sent-Built E mode wall typ none t u e in
      (
        subst IsNumbered (sym after) (sent-IsNumbered typ t t' f g built same.seq_nr same.ident h),
        (g, ap (λ x. x.sent) after, same.typ ∙ built.of_typ),
        ap (λ x. x.shutdown) after,
      )

  -- What every round keeps: the numbers, and a goodbye at the end of a task that shuts down.
  abbrev pub IsOrderly : SpircTask E → Type 0
  IsOrderly t = IsNumbered t × ((t.shutdown ≡ false) ⊎ ((t.shutdown ≡ true) × EndsInGoodbye t.sent))

  -- A new task has greeted all devices under number 1.
  pub new-IsOrderly :
      (mode : Overflow) (wall : ℕ) (version device_id : Bytes) (config : ConnectConfig)
      (scrobbler_config : ScrobblerConfig) (t : SpircTask E)
      → new E mode wall version device_id config scrobbler_config ≡ returns t
      → IsOrderly t × (length t.sent ≡ 1)
  unfolding new send_hello
  new-IsOrderly mode wall version device_id config scrobbler_config t e =
      let (numbers, (f, sent, typ), open_) = sent-numbers mode wall hello _ t e (tt, refl) in
      ((numbers, inl open_), ap length sent)

  command-IsOrderly :
      (mode : Overflow) (wall : ℕ) (c : SpircCommand) (t u : SpircTask E)
      → handle_command E mode wall c t ≡ returns u
      → IsNumbered t
      → IsNumbered u × (u.shutdown ≡ true) × EndsInGoodbye u.sent
  unfolding handle_command
  command-IsOrderly mode wall shut_down t u e h =
      let (p, e1, e2) = >>=-eq-returns (command_frame E mode wall goodbye t) _ e in
      let closed : SpircTask E → SpircTask E =
        λ x. record x { shutdown = true; commands_closed = true } in
      let (numbers, (f, sent, typ), same) =
        sent-numbers mode wall goodbye t (send E p.0 p.1)
          (ap (λ m. m >>= λ r. returns (send E r.0 r.1)) e1) h in
      subst (λ x. IsNumbered x × (x.shutdown ≡ true) × EndsInGoodbye x.sent)
        (returns-injective (closed (send E p.0 p.1)) u e2) (numbers, refl, (f, t.sent, sent, typ))

  abbrev task_of : SpircTask E → Option (Poll Unit × SpircTask E) → SpircTask E
  task_of other none = other
  task_of other (some (a, x)) = x

  ended :
      (t u : SpircTask E) (a b : Poll Unit)
      → ◌≡◌ {A = Option (Poll Unit × SpircTask E)} (some (a, t)) (some (b, u))
      → t ≡ u
  ended t u a b e = ap (task_of t) e

  module _ ⦃order : ByteOrder⦄ where
    Effect-IsNumbered :
        (r : Round) (f : Frame) (t u : SpircTask E)
        → Effect E r f t u
        → IsNumbered t
        → IsNumbered u × (u.shutdown ≡ t.shutdown)
    Effect-IsNumbered r f t _ (ignored _ _) h = (h, refl)
    Effect-IsNumbered r f t _ (greeted u a me k typ ident to nr next same) (h, v) = (
      subst (λ x. Numbered x.ident x.sent × (u.sequence.value ≡ (length x.sent + 1) % 2 ^ 32))
          (sym same) ((nr ∙ v, ident, h), next ∙ omega (arith, v)),
      ap (λ x. x.shutdown) same,
    )
    Effect-IsNumbered r f t _ (tracked playing id me k active p q) h = (h, refl)

    take_frame-IsNumbered :
        (mode : Overflow) (r : Round) (p : Poll (Option Frame)) (t u : SpircTask E) (b : Bool)
        → take_frame E mode r p t ≡ returns (b, u)
        → IsNumbered t
        → IsNumbered u × (u.shutdown ≡ t.shutdown)
    take_frame-IsNumbered mode r (ready (some f)) t u b e h =
        let (u', e1, e2) = >>=-eq-returns (handle_frame E mode r f t) _ e in
        subst (λ x. IsNumbered x × (x.shutdown ≡ t.shutdown))
          (ap (λ x. x.1) (returns-injective (true, u') (b, u) e2))
          (Effect-IsNumbered r f t u' (handle_frame-Effect E mode r f t u' e1) h)
    take_frame-IsNumbered mode r (ready none) t u b e h = cc
    take_frame-IsNumbered mode r not_ready t u b e h =
        subst (λ x. IsNumbered x × (x.shutdown ≡ t.shutdown))
          (ap (λ x. x.1) (returns-injective (false, t) (b, u) e)) (h, refl)
    take_frame-IsNumbered mode r failed t u b e h = cc
    take_frame-IsNumbered mode r aborts t u b e h = cc

    take_command-IsOrderly :
        (mode : Overflow) (wall : ℕ) (p : Poll (Option SpircCommand)) (t u : SpircTask E) (b : Bool)
        → take_command E mode wall p t ≡ returns (b, u)
        → IsNumbered t
        → t.shutdown ≡ false
        → IsOrderly u
    take_command-IsOrderly mode wall (ready (some c)) t u b e h k =
        let (u', e1, e2) = >>=-eq-returns (handle_command E mode wall c t) _ e in
        let (numbers, closed, last) = command-IsOrderly mode wall c t u' e1 h in
        subst IsOrderly (ap (λ x. x.1) (returns-injective (true, u') (b, u) e2))
          (numbers, inr (closed, last))
    take_command-IsOrderly mode wall (ready none) t u b e h k =
        subst IsOrderly (ap (λ x. x.1) (returns-injective (false, t) (b, u) e)) (h, inl k)
    take_command-IsOrderly mode wall not_ready t u b e h k =
        subst IsOrderly (ap (λ x. x.1) (returns-injective (false, t) (b, u) e)) (h, inl k)
    take_command-IsOrderly mode wall failed t u b e h k = cc
    take_command-IsOrderly mode wall aborts t u b e h k = cc

    took_scrobbler-IsOrderly :
        (p : Poll Unit × Scrobbler E) (t u : SpircTask E) (b : Bool)
        → took_scrobbler E p t ≡ returns (b, u)
        → IsOrderly t
        → IsOrderly u
    took_scrobbler-IsOrderly (ready done, s) t u b e h =
        subst IsOrderly
          (ap (λ x. x.1) (returns-injective (true, record t { scrobbler = s }) (b, u) e)) h
    took_scrobbler-IsOrderly (not_ready, s) t u b e h =
        subst IsOrderly
          (ap (λ x. x.1) (returns-injective (false, record t { scrobbler = s }) (b, u) e)) h
    took_scrobbler-IsOrderly (failed, s) t u b e h =
        subst IsOrderly
          (ap (λ x. x.1) (returns-injective (false, record t { scrobbler = s }) (b, u) e)) h
    took_scrobbler-IsOrderly (aborts, s) t u b e h = cc

    streams-IsOrderly :
        (mode : Overflow) (r : Round) (t u : SpircTask E) (b : Bool)
        → poll_streams E mode r t ≡ returns (b, u)
        → IsNumbered t
        → t.shutdown ≡ false
        → IsOrderly u
    unfolding poll_streams
    streams-IsOrderly mode r t u b e h k =
        let ((b1, t1), e1, f1) = >>=-eq-returns (take_frame E mode r r.frame t) _ e in
        let ((b2, t2), e2, f2) = >>=-eq-returns (take_command E mode r.wall r.command t1) _ f1 in
        let ((b3, t3), e3, f3) =
          >>=-eq-returns (took_scrobbler E (Polling.poll E r.polled t2.scrobbler) t2) _ f2 in
        let (numbers, same) = take_frame-IsNumbered mode r r.frame t t1 b1 e1 h in
        let commanded =
          take_command-IsOrderly mode r.wall r.command t1 t2 b2 e2 numbers (same ∙ k) in
        subst IsOrderly (ap (λ x. x.1) (returns-injective (b1 || b2 || b3, t3) (b, u) f3))
          (took_scrobbler-IsOrderly _ t2 t3 b3 e3 commanded)

    open-IsOrderly :
        (closed : Bool) (mode : Overflow) (r : Round) (t u : SpircTask E) (b : Bool)
        → poll_open E closed mode r t ≡ returns (b, u)
        → t.shutdown ≡ closed
        → IsOrderly t
        → IsOrderly u
    open-IsOrderly true mode r t u b e k h =
        subst IsOrderly (ap (λ x. x.1) (returns-injective (false, t) (b, u) e)) h
    open-IsOrderly false mode r t u b e k h = streams-IsOrderly mode r t u b e h.0 k

    settle :
        (over progress : Bool) (rest : Run (Option (Poll Unit × SpircTask E))) (t u : SpircTask E)
        (answer : Poll Unit)
        → (if over
            then returns (some (ready tt, t))
            else (if progress then rest else returns (some (not_ready, t))))
          ≡ returns (some (answer, u))
        → IsOrderly t
        → (rest ≡ returns (some (answer, u)) → IsOrderly u)
        → IsOrderly u
    settle true progress rest t u answer e h again =
        subst IsOrderly (ended t u (ready tt) answer (returns-injective _ _ e)) h
    settle false true rest t u answer e h again = again e
    settle false false rest t u answer e h again =
        subst IsOrderly (ended t u not_ready answer (returns-injective _ _ e)) h

    -- However often the task goes round, if its poll ends without a panic then all frames that it
    -- has ever sent bear its name and the numbers from 1 on, modulo 2^32 and in order, and a task
    -- that shuts down has sent its goodbye, and no frame after it.
    pub poll-IsOrderly :
        (mode : Overflow) (rounds : List Round) (t u : SpircTask E) (answer : Poll Unit)
        → IsOrderly t
        → poll E mode rounds t ≡ returns (some (answer, u))
        → IsOrderly u
    unfolding poll
    poll-IsOrderly mode [] t u answer h e = cc (returns-injective _ _ e)
    poll-IsOrderly mode (r ∷ rounds) t u answer h e =
        let ((b, t'), e1, f1) = >>=-eq-returns (poll_open E t.shutdown mode r t) _ e in
        let (flushed, e2, f2) = >>=-eq-returns (is_flushed r.flush) _ f1 in
        let kept = open-IsOrderly t.shutdown mode r t t' b e1 refl h in
        settle (t'.shutdown && flushed) b (poll E mode rounds t') t' u answer f2 kept
          (poll-IsOrderly mode rounds t' u answer kept)
