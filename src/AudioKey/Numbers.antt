-- ===== src/AudioKey/Numbers.antt =====
-- core/src/audio_key.rs: the numbers of the requests, as long as they fit 32 bits.
use spotify_connect_scrobble.Prelude.{
  ℕ, ◌+◌, ◌^◌, ◌≤◌, ◌<◌, ◌≡◌, ◌⊎◌, inl, inr, refl, sym, ap, ◌∙◌, subst, List, [], ◌∷◌, ◌++◌, length,
  Option, none, some, returns, ◌>>=◌, >>=-eq-returns, returns-injective, ◌==◌, if◌then◌else◌, arith,
}
use spotify_connect_scrobble.Prelude.Words.{Bytes, Overflow, be_bytes}
use spotify_connect_scrobble.Prelude.Eq.{nat_eq}
use spotify_connect_scrobble.Prelude.Dict
use spotify_connect_scrobble.Prelude.Dict.{Dict}
use spotify_connect_scrobble.Crates.{ByteOrder, EasyBuf}
use spotify_connect_scrobble.Util.SpotifyId.{SpotifyId, FileId}
use spotify_connect_scrobble.AudioKey.{
  AudioKeyManager, ready, not_ready, audio_key_error, new, resolve, answer, request, dispatch, poll,
}
use spotify_connect_scrobble.AudioKey.Waiting.{get-remove_other, get-insert_cases}
use spotify_connect_scrobble.AudioKey.Exchange.{
  asked, request_lem, key_request, polls_after, request-answers,
}
use spotify_connect_scrobble.AudioKey.Trace.{Event, asks, packet, step, run, run-Follows}
use spotify_connect_scrobble.AudioKey.Follows.{answer_cases, new-IsManager}

-- At most `n` numbers were given out, and only those wait.
IsNumbered : ℕ → AudioKeyManager → Type 0
IsNumbered n m =
    (m.sequence.value ≤ n)
    × ((seq c : ℕ) → Dict.get seq m.pending ≡ some c → seq < m.sequence.value)

answer-IsNumbered :
    (n cmd : ℕ) (rest : Bytes) (o : Option ℕ) (m m' : AudioKeyManager)
    → IsNumbered n m
    → answer cmd rest o m ≡ returns m'
    → IsNumbered n m'
unfolding IsNumbered
answer-IsNumbered n cmd rest none m m' w h = subst (IsNumbered n) (returns-injective m m' h) w
answer-IsNumbered n cmd rest (some c) m m' w h = elim (answer_cases cmd rest c m) [
  | inl p ↦ cc (p, h)
  | inr (r, _, p) ↦
      subst (IsNumbered n) (returns-injective (resolve c r m) m' (sym p ∙ h)) (w.0, w.1)
]

option_cases : (o : Option ℕ) → (o ≡ none) ⊎ ((c : ℕ) × (o ≡ some c))
option_cases none = inl refl
option_cases (some c) = inr (c, refl)

below : {n : ℕ} → n < n → ⊥
below h = omega (arith, h)

-- The next number is free.
IsNumbered-free :
    (n : ℕ) (m : AudioKeyManager) → IsNumbered n m → Dict.get m.sequence.value m.pending ≡ none
unfolding IsNumbered
IsNumbered-free n m w = elim (option_cases (Dict.get m.sequence.value m.pending)) [
  | inl e ↦ e
  | inr (c, e) ↦ absurd (below (w.1 m.sequence.value c e))
]

module _ ⦃order : ByteOrder⦄ ⦃buffer : EasyBuf⦄ where
  step-IsNumbered :
      (mode : Overflow) (n : ℕ) (e : Event) (m m' : AudioKeyManager)
      → n + 1 < 2 ^ 32
      → IsNumbered n m
      → step mode e m ≡ returns m'
      → IsNumbered (n + 1) m'
  unfolding step dispatch IsNumbered
  step-IsNumbered mode n (asks track file) m m' l w h =
      let v : ℕ = m.sequence.value in
      let asks_for = request_lem mode track file m (omega (arith, w.0)) (IsNumbered-free n m w) in
      let w1 : IsNumbered (n + 1) (asked track file m) = (
        omega (arith, w.0),
        λ seq c k. elim (get-insert_cases v seq m.next_channel c m.pending k) [
          | inl (e, _) ↦ omega (arith, e)
          | inr k ↦ omega (arith, w.1 seq c k)
        ],
      ) in
      subst (IsNumbered (n + 1))
        (returns-injective (asked track file m) m'
          (sym (ap (λ r. r >>= λ q. returns q.1) asks_for) ∙ h))
        w1
  step-IsNumbered mode n (packet cmd bytes) m m' l w h =
      let ((front, rest), _, h1) = >>=-eq-returns (buffer.drain_to 4 bytes) _ h in
      let (seq, _, h2) = >>=-eq-returns (order.read_u32 front) _ h1 in
      let m1 : AudioKeyManager = record m { pending = Dict.remove seq m.pending } in
      let w1 : IsNumbered n m1 = (w.0, λ i c k. w.1 i c (get-remove_other seq i c m.pending k).1) in
      let w2 = answer-IsNumbered n cmd rest (Dict.get seq m.pending) m1 m' w1 h2 in
      (omega (arith, w2.0), w2.1)

  run-IsNumbered :
      (mode : Overflow) (n : ℕ) (es : List Event) (m m' : AudioKeyManager)
      → n + length es < 2 ^ 32
      → IsNumbered n m
      → run mode es m ≡ returns m'
      → IsNumbered (n + length es) m'
  unfolding run IsNumbered
  run-IsNumbered mode n [] m m' l w h =
      let w' = subst (IsNumbered n) (returns-injective m m' h) w in (omega (arith, w'.0), w'.1)
  run-IsNumbered mode n (e ∷ es) m m' l w h =
      let (m1, h1, h2) = >>=-eq-returns (step mode e m) _ h in
      let w1 = step-IsNumbered mode n e m m1 (omega arith) w h1 in
      let w' = run-IsNumbered mode (n + 1) es m1 m' (omega arith) w1 h2 in
      (omega (arith, w'.0), w'.1)

  -- After any run of fewer than 2 ^ 32 - 1 requests and packets, so long as nothing has panicked, a
  -- request sends one packet, with the file, the track and a number, and its future is not ready; a
  -- packet 0xd under that number with sixteen bytes makes this future ready with them, a packet 0xe
  -- with two bytes or more makes it an error, and both leave every other future as it was.
  pub run-request-answers :
      (mode : Overflow) (es : List Event) (m : AudioKeyManager) (track : SpotifyId) (file : FileId)
      (key code : Bytes)
      → length es + 1 < 2 ^ 32
      → run mode es new ≡ returns m
      → length key ≡ 16
      → 1 < length code
      → let seq = be_bytes 4 m.sequence.value in
        let future = m.next_channel in
        (m1 : AudioKeyManager) × (request mode track file m ≡ returns (future, m1))
        × (m1.packets ≡ (0xc, key_request m.sequence.value track file) ∷ m.packets)
        × (poll future m1 ≡ not_ready)
        × (polls_after 0xd (seq ++ key) m1
            ≡ returns (λ c. if future == c then ready (record { bytes = key }) else poll c m1))
        × (polls_after 0xe (seq ++ code) m1
            ≡ returns (λ c. if future == c then audio_key_error else poll c m1))
  unfolding IsNumbered Dict.get
  run-request-answers mode es m track file key code l h k j =
      let none_given : IsNumbered 0 new = (omega arith, λ seq c e. absurd (cc e)) in
      let w : IsNumbered (0 + length es) m =
        run-IsNumbered mode 0 es new m (omega arith) none_given h in
      let next_is_free = (run-Follows mode es new m new-IsManager h).manager.fresh m.next_channel in
      request-answers mode track file m key code (omega (arith, w.0))
        (IsNumbered-free (0 + length es) m w) (next_is_free (omega arith)) k j
