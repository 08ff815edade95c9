-- ===== src/Mercury/Callbacks.antt =====
-- core/src/mercury/mod.rs: a request is answered once, whatever packets come.
use spotify_connect_scrobble.Prelude.{
  ℕ, zero, suc, ◌+◌, ◌≤◌, ◌<◌, ◌≡◌, ◌≢◌, ◌⊎◌, inl, inr, refl, sym, ap, ◌∙◌, subst, ◌∷◌, Option,
  none, some, Bool, true, false, Bool-cases, ◌==◌, returns, >>=-eq-returns, returns-injective,
  unwrap, arith,
}
use spotify_connect_scrobble.Prelude.Words.{Bytes}
use spotify_connect_scrobble.Prelude.Eq.{nat_eq, bytes_eq}
use spotify_connect_scrobble.Prelude.Dict
use spotify_connect_scrobble.Prelude.Dict.{Dict}
use spotify_connect_scrobble.Prelude.Int.{at_least}
use spotify_connect_scrobble.Crates.{ByteOrder, EasyBuf}
use spotify_connect_scrobble.Mercury.{
  MercuryManager, MercuryPending, ChannelId, Completion, response, mercury_error, complete, answer,
  add_part, parse_part, read_parts, finish_packet, complete_request, first_part, continue,
}
use spotify_connect_scrobble.Mercury.Types.{MercuryResponse, Protobuf}
use spotify_connect_scrobble.Mercury.Waiting.{IsWaiting, IsTaken, insert-IsWaiting}

abbrev pub IsManager : MercuryManager → Type 0
IsManager m = IsWaiting m.pending m.next_channel m.completed

-- One manager follows another: the results that are there stay.
pub record Keeps (m m' : MercuryManager) : Type 0 where
  pub manager : IsManager m'
  pub kept :
      (c : ChannelId) (r : Completion)
      → Dict.get c m.completed ≡ some r
      → Dict.get c m'.completed ≡ some r

pub Keeps-Keeps : {a b c : MercuryManager} → Keeps a b → Keeps b c → Keeps a c
Keeps-Keeps f g = record { manager = g.manager; kept = λ c r h. g.kept c r (f.kept c r h) }

-- The log of the results, behind one more.
get-completed :
    (c d : ChannelId) (r : Completion) (done : Dict ChannelId Completion)
    → ((c ≡ d) × (Dict.get d ((c, r) ∷ done) ≡ some r))
      ⊎ ((c ≢ d) × (Dict.get d ((c, r) ∷ done) ≡ Dict.get d done))
unfolding Dict.get
get-completed c d r done = elim (Bool-cases (c == d)) [
  | inl e ↦ inl (ground arith, ground arith)
  | inr n ↦ inr (ground arith, ground arith)
]

complete-Keeps :
    (callback : Option ChannelId) (result : Completion) (m : MercuryManager)
    → IsTaken callback m.pending m.next_channel m.completed
    → Keeps m (complete callback result m)
complete-Keeps none result m t = record { manager = t.waiting; kept = λ c r h. h }
complete-Keeps (some c) result m t = record {
  manager = record {
    held = λ s p d h k. elim (get-completed c d result m.completed) [
      | inl (q, _) ↦ absurd (t.apart s p d h k (ap some q))
      | inr (_, q) ↦ let (l, u) = t.waiting.held s p d h k in (l, q ∙ u)
    ];
    distinct = t.waiting.distinct;
    fresh = λ d h. elim (get-completed c d result m.completed) [
      | inl (q, _) ↦ absurd (below (t.open_callback c refl).0 h q)
      | inr (_, q) ↦ q ∙ t.waiting.fresh d h
    ];
  };
  kept = λ d r h. elim (get-completed c d result m.completed) [
    | inl (q, _) ↦
        absurd (cc (subst (λ d. Dict.get d m.completed ≡ none) q (t.open_callback c refl).1, h))
    | inr (_, q) ↦ q ∙ h
  ];
}
  where
    below : {a b n : ℕ} → a < n → n ≤ b → a ≢ b
    below h k e = omega (arith, h, k, e)

answer-Keeps :
    (alive : ChannelId → Bool) (cmd : ℕ) (callback : Option ChannelId) (r : MercuryResponse)
    (m : MercuryManager)
    → IsTaken callback m.pending m.next_channel m.completed
    → Keeps m (answer alive cmd callback r m)
answer-Keeps alive cmd callback r m t = elim (Bool-cases (at_least 400 r.status_code)) [
  | inl e ↦ rw e (complete-Keeps callback mercury_error m t)
  | inr e ↦ elim (Bool-cases (cmd == 0xb5)) [
    | inl k ↦ rw (e, k) (record { manager = t.waiting; kept = λ c r h. h })
    | inr k ↦ rw (e, k) (complete-Keeps callback (response r) m t)
  ]
]

module _ ⦃order : ByteOrder⦄ ⦃buffer : EasyBuf⦄ where
  add_part-callback :
      (last : Bool) (part : Bytes) (p : MercuryPending)
      → (add_part last part p).callback ≡ p.callback
  add_part-callback true part p = refl
  add_part-callback false part p = refl

  read_parts-callback :
      (rounds i count flags : ℕ) (bytes : Bytes) (p p' : MercuryPending)
      → read_parts rounds i count flags bytes p ≡ returns p'
      → p'.callback ≡ p.callback
  unfolding read_parts
  read_parts-callback zero i count flags bytes p p' h =
      ap (λ p. p.callback) (sym (returns-injective p p' h))
  read_parts-callback (suc rounds) i count flags bytes p p' h =
      let ((part, rest), _, h1) = >>=-eq-returns (parse_part bytes) _ h in
      read_parts-callback rounds (i + 1) count flags rest _ p' h1 ∙ add_part-callback _ part p

  module _ (proto : Protobuf) (alive : ChannelId → Bool) where
    finish_packet-Keeps :
        (cmd flags : ℕ) (seq : Bytes) (p : MercuryPending) (m m' : MercuryManager)
        → IsTaken p.callback m.pending m.next_channel m.completed
        → finish_packet proto alive cmd flags seq p m ≡ returns m'
        → Keeps m m'
    unfolding complete_request
    finish_packet-Keeps cmd flags seq p m m' t h = elim (Bool-cases (flags == 1)) [
      | inl e ↦
          let ((header_data, payload), _, h1) = >>=-eq-returns (first_part p.parts) _ (rw e at h) in
          let (header, _, h2) = >>=-eq-returns (unwrap (proto.parse_header header_data)) _ h1 in
          let r : MercuryResponse = record {
            uri = header.uri;
            status_code = header.status_code;
            payload = payload;
          } in
          subst (Keeps m) (returns-injective (answer alive cmd p.callback r m) m' h2)
            (answer-Keeps alive cmd p.callback r m t)
      | inr e ↦
          subst (Keeps m)
            (returns-injective (record m { pending = Dict.insert seq p m.pending }) m' (rw e at h))
            (record { manager = insert-IsWaiting seq p t; kept = λ c r h. h })
    ]

    pub continue-Keeps :
        (cmd flags count : ℕ) (seq bytes : Bytes) (o : Option MercuryPending)
        (m m' : MercuryManager)
        → IsManager m
        → ((p : MercuryPending)
            → o ≡ some p
            → IsTaken p.callback m.pending m.next_channel m.completed)
        → continue proto alive cmd flags count seq bytes o m ≡ returns m'
        → Keeps m m'
    continue-Keeps cmd flags count seq bytes none m m' w f h =
        subst (Keeps m) (returns-injective m m' h) (record { manager = w; kept = λ c r h. h })
    continue-Keeps cmd flags count seq bytes (some p) m m' w f h =
        let (p', h1, h2) = >>=-eq-returns (read_parts count 0 count flags bytes p) _ h in
        finish_packet-Keeps cmd flags seq p' m m'
          (subst (λ c. IsTaken c m.pending m.next_channel m.completed)
            (sym (read_parts-callback count 0 count flags bytes p p' h1)) (f p refl))
          h2
