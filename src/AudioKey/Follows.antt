-- ===== src/AudioKey/Follows.antt =====
-- core/src/audio_key.rs: what a request and a packet leave of the futures.
use spotify_connect_scrobble.Prelude.{
  ℕ, ◌+◌, ◌≡◌, ◌≢◌, ◌⊎◌, inl, inr, refl, sym, ap, ◌∙◌, subst, ◌∷◌, length, Option, none, some,
  Bool-cases, ◌==◌, ltb, returns, panics, >>=-eq-returns, returns-injective, arith,
}
use spotify_connect_scrobble.Prelude.Words.{Bytes, Overflow}
use spotify_connect_scrobble.Prelude.Eq.{nat_eq}
use spotify_connect_scrobble.Prelude.Dict
use spotify_connect_scrobble.Prelude.Dict.{Dict, insert-remove}
use spotify_connect_scrobble.Crates.{ByteOrder, EasyBuf}
use spotify_connect_scrobble.Util.Seq
use spotify_connect_scrobble.Util.Seq.{SeqGenerator}
use spotify_connect_scrobble.Util.SpotifyId.{SpotifyId, FileId}
use spotify_connect_scrobble.AudioKey.{
  AudioKeyManager, not_ready, Received, ok, err, waiting, canceled, new, resolve, drop_sender,
  answer, send_key_request, request, dispatch, poll, poll_received,
}
use spotify_connect_scrobble.AudioKey.Waiting.{
  IsWaiting, IsResult, get-resolved, forget-IsWaiting, settle-IsWaiting, issue-IsWaiting,
}

abbrev pub IsManager : AudioKeyManager → Type 0
IsManager m = IsWaiting m.pending m.next_channel m.completed

-- One manager follows another: what was answered stays as it is.
pub record Follows (m m' : AudioKeyManager) : Type 0 where
  pub manager : IsManager m'
  pub final : (c : ℕ) → poll c m ≢ not_ready → poll c m' ≡ poll c m

pub new-IsManager : IsManager new
unfolding Dict.get
new-IsManager = record {
  held = λ seq c h. absurd (cc h);
  distinct = λ i j c h k. absurd (cc h);
  fresh = λ c h. refl;
  results = λ c r h. absurd (cc h);
  accounted = λ c h. absurd (omega (arith, h));
}

pub Follows-Follows : {a b c : AudioKeyManager} → Follows a b → Follows b c → Follows a c
Follows-Follows f g = record {
  manager = g.manager;
  final = λ c n. g.final c (λ e. n (sym (f.final c n) ∙ e)) ∙ f.final c n;
}

-- Only the three fields matter that the futures depend on.
pub same-Follows :
    (m m' : AudioKeyManager) → IsManager m' → m'.completed ≡ m.completed → Follows m m'
unfolding poll
same-Follows m m' w e = record { manager = w; final = λ c n. rw e refl }

settle-Follows :
    (m : AudioKeyManager) (seq c : ℕ) (r : Received)
    → IsManager m
    → Dict.get seq m.pending ≡ some c
    → IsResult r
    → Follows m (resolve c r (record m { pending = Dict.remove seq m.pending }))
unfolding poll
settle-Follows m seq c r w e h = record {
  manager = settle-IsWaiting w seq c r e h;
  final = λ d n. elim (get-resolved c d r m.completed) [
    | inl (q, _) ↦
        absurd (n (rw (subst (λ d. Dict.get d m.completed ≡ none) q (w.held seq c e).1) refl))
    | inr (_, q) ↦ rw q refl
  ];
}

-- A packet for a request that waits is a panic or a result.
pub answer_cases :
    (cmd : ℕ) (rest : Bytes) (c : ℕ) (m : AudioKeyManager)
    → (answer cmd rest (some c) m ≡ panics)
      ⊎ ((r : Received) × IsResult r × (answer cmd rest (some c) m ≡ returns (resolve c r m)))
answer_cases cmd rest c m = elim (Bool-cases (cmd == 0xd)) [
  | inl d ↦ elim (Bool-cases (length rest == 16)) [
    | inl e ↦ inr (ok (record { bytes = rest }), tt, rw (d, e) refl)
    | inr e ↦ inl (rw (d, e) refl)
  ]
  | inr d ↦ elim (Bool-cases (cmd == 0xe)) [
    | inl k ↦ elim (Bool-cases (ltb 1 (length rest))) [
      | inl e ↦ inr (err, tt, rw (d, k, e) refl)
      | inr e ↦ inl (rw (d, k, e) refl)
    ]
    | inr k ↦ inr (canceled, tt, rw (d, k) refl)
  ]
]

answer-Follows :
    (cmd seq : ℕ) (rest : Bytes) (o : Option ℕ) (m m' : AudioKeyManager)
    → IsManager m
    → Dict.get seq m.pending ≡ o
    → answer cmd rest o (record m { pending = Dict.remove seq m.pending }) ≡ returns m'
    → Follows m m'
answer-Follows cmd seq rest none m m' w e h =
    let m1 : AudioKeyManager = record m { pending = Dict.remove seq m.pending } in
    subst (Follows m) (returns-injective m1 m' h)
      (same-Follows m m1 (forget-IsWaiting w seq e) refl)
answer-Follows cmd seq rest (some c) m m' w e h =
    let m1 : AudioKeyManager = record m { pending = Dict.remove seq m.pending } in
    elim (answer_cases cmd rest c m1) [
      | inl p ↦ cc (p, h)
      | inr (r, i, p) ↦
          subst (Follows m) (returns-injective (resolve c r m1) m' (sym p ∙ h))
            (settle-Follows m seq c r w e i)
    ]

pub IsResult-answered : (r : Received) → IsResult r → poll_received r ≢ not_ready
IsResult-answered waiting h e = h
IsResult-answered (ok key) h e = cc e
IsResult-answered err h e = cc e
IsResult-answered canceled h e = cc e

module _ ⦃order : ByteOrder⦄ ⦃buffer : EasyBuf⦄ where
  pub dispatch-Follows :
      (cmd : ℕ) (bytes : Bytes) (m m' : AudioKeyManager)
      → IsManager m
      → dispatch cmd bytes m ≡ returns m'
      → Follows m m'
  unfolding dispatch
  dispatch-Follows cmd bytes m m' w h =
      let ((front, rest), _, h1) = >>=-eq-returns (buffer.drain_to 4 bytes) _ h in
      let (seq, _, h2) = >>=-eq-returns (order.read_u32 front) _ h1 in
      answer-Follows cmd seq rest (Dict.get seq m.pending) m m' w refl h2

  -- What a request leaves, under its number and with its channel, whoever waited under the number.
  issued : ℕ → Option ℕ → SeqGenerator → SpotifyId → FileId → AudioKeyManager → AudioKeyManager
  issued seq o sequence track file m = send_key_request seq track file (
      drop_sender o (record m {
        sequence = sequence;
        pending = Dict.insert seq m.next_channel m.pending;
        next_channel = m.next_channel + 1;
      }))

  issued-Follows :
      (seq : ℕ) (o : Option ℕ) (sequence : SeqGenerator) (track : SpotifyId) (file : FileId)
      (m : AudioKeyManager)
      → IsManager m
      → Dict.get seq m.pending ≡ o
      → Follows m (issued seq o sequence track file m)
  unfolding issued send_key_request
  issued-Follows seq none sequence track file m w e =
      same-Follows m _ (issue-IsWaiting w seq e) refl
  issued-Follows seq (some c) sequence track file m w e =
      let settled = settle-Follows m seq c canceled w e tt in
      Follows-Follows settled (
        same-Follows _ _
          (subst (λ p. IsWaiting p (m.next_channel + 1) ((c, canceled) ∷ m.completed))
            (insert-remove seq m.next_channel m.pending)
            (issue-IsWaiting settled.manager seq (Dict.get-remove_same seq m.pending)))
          refl)

  pub request-Follows :
      (mode : Overflow) (track : SpotifyId) (file : FileId) (m : AudioKeyManager) (future : ℕ)
      (m' : AudioKeyManager)
      → IsManager m
      → request mode track file m ≡ returns (future, m')
      → Follows m m'
  unfolding request issued
  request-Follows mode track file m future m' w h =
      let ((seq, sequence), _, h1) = >>=-eq-returns (Seq.get mode 32 m.sequence) _ h in
      let o : Option ℕ = Dict.get seq m.pending in
      let same : issued seq o sequence track file m ≡ m' =
        ap (λ r. r.1)
          (returns-injective (m.next_channel, issued seq o sequence track file m) (future, m')
            h1) in
      subst (Follows m) same (issued-Follows seq o sequence track file m w refl)

  issued-held :
      (seq : ℕ) (o : Option ℕ) (sequence : SeqGenerator) (track : SpotifyId) (file : FileId)
      (m : AudioKeyManager)
      → Dict.get seq (issued seq o sequence track file m).pending ≡ some m.next_channel
  unfolding issued send_key_request
  issued-held seq none sequence track file m = Dict.get-insert_same seq m.next_channel m.pending
  issued-held seq (some c) sequence track file m = Dict.get-insert_same seq m.next_channel m.pending

  -- The future of a request waits under its number.
  pub request-held :
      (mode : Overflow) (track : SpotifyId) (file : FileId) (m : AudioKeyManager) (future : ℕ)
      (m' : AudioKeyManager)
      → request mode track file m ≡ returns (future, m')
      → Dict.get m.sequence.value m'.pending ≡ some future
  unfolding request issued
  request-held mode track file m future m' h =
      let ((seq, sequence), hs, h1) = >>=-eq-returns (Seq.get mode 32 m.sequence) _ h in
      let o : Option ℕ = Dict.get seq m.pending in
      let same : (m.next_channel, issued seq o sequence track file m) ≡ (future, m') =
        returns-injective (m.next_channel, issued seq o sequence track file m) (future, m') h1 in
      let here : seq ≡ m.sequence.value = Seq.get_value mode 32 seq m.sequence sequence hs in
      subst (λ r. Dict.get m.sequence.value r.1.pending ≡ some r.0) same
        (subst (λ v. Dict.get v (issued seq o sequence track file m).pending ≡ some m.next_channel)
          here (issued-held seq o sequence track file m))
