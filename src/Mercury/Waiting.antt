-- ===== src/Mercury/Waiting.antt =====
-- core/src/mercury/mod.rs: the callbacks of requests, along requests, packets and subscriptions.
use spotify_connect_scrobble.Prelude.{
  ℕ, ◌≤◌, ◌<◌, ◌≡◌, ◌≢◌, ◌⊎◌, inl, inr, sym, ap, ◌∙◌, Option, none, some, Bool-cases, arith,
}
use spotify_connect_scrobble.Prelude.Words.{Bytes}
use spotify_connect_scrobble.Prelude.Eq.{nat_eq, bytes_eq, bytes_beq, bytes_beq_iff}
use spotify_connect_scrobble.Prelude.Dict
use spotify_connect_scrobble.Prelude.Dict.{Dict, get-remove, get-insert}
use spotify_connect_scrobble.Mercury.{MercuryPending, ChannelId, Completion}

-- A callback waits under one number at most, and is then without a result, as are the channels that
-- are to come.
pub record IsWaiting (pending : Dict Bytes MercuryPending) (next : ℕ)
    (completed : Dict ChannelId Completion) : Type 0 where
  pub held :
      (seq : Bytes) (p : MercuryPending) (c : ChannelId)
      → Dict.get seq pending ≡ some p
      → p.callback ≡ some c
      → (c < next) × (Dict.get c completed ≡ none)
  pub distinct :
      (i j : Bytes) (p q : MercuryPending) (c : ChannelId)
      → Dict.get i pending ≡ some p
      → Dict.get j pending ≡ some q
      → p.callback ≡ some c
      → q.callback ≡ some c
      → i ≡ j
  pub fresh : (c : ChannelId) → next ≤ c → Dict.get c completed ≡ none

-- What is taken out of the table: its channel waits nowhere else.
pub record IsTaken (p : Option ChannelId) (pending : Dict Bytes MercuryPending) (next : ℕ)
    (completed : Dict ChannelId Completion) : Type 0 where
  pub waiting : IsWaiting pending next completed
  pub open_callback : (c : ChannelId) → p ≡ some c → (c < next) × (Dict.get c completed ≡ none)
  pub apart :
      (seq : Bytes) (q : MercuryPending) (c : ChannelId)
      → Dict.get seq pending ≡ some q
      → q.callback ≡ some c
      → p ≢ some c

get-remove_other :
    (i j : Bytes) (q : MercuryPending) (p : Dict Bytes MercuryPending)
    → Dict.get j (Dict.remove i p) ≡ some q
    → (j ≢ i) × (Dict.get j p ≡ some q)
get-remove_other i j q p h = ground (arith, get-remove i j p, bytes_beq_iff i j)

bytes_cases : (i j : Bytes) → (i ≡ j) ⊎ (i ≢ j)
bytes_cases i j = elim (Bool-cases (bytes_beq i j)) [
  | inl e ↦ inl (ground (arith, bytes_beq_iff i j))
  | inr e ↦ inr (ground (arith, bytes_beq_iff i j))
]

get-insert_cases :
    (i j : Bytes) (v q : MercuryPending) (p : Dict Bytes MercuryPending)
    → Dict.get j (Dict.insert i v p) ≡ some q
    → ((j ≡ i) × (v ≡ q)) ⊎ (Dict.get j p ≡ some q)
get-insert_cases i j v q p h = elim (bytes_cases j i) [
  | inl e ↦ inl (e, ground (arith, get-insert i j v p, bytes_beq_iff i j))
  | inr n ↦ inr (ground (arith, get-insert i j v p, bytes_beq_iff i j))
]

module _ {pending : Dict Bytes MercuryPending} {next : ℕ} {done : Dict ChannelId Completion} where
  -- `pending.remove(&seq)`.
  pub remove-IsWaiting :
      (seq : Bytes) → IsWaiting pending next done → IsWaiting (Dict.remove seq pending) next done
  remove-IsWaiting seq w = record {
    held = λ s p c h. w.held s p c (get-remove_other seq s p pending h).1;
    distinct = λ i j p q c h k.
        w.distinct i j p q c (get-remove_other seq i p pending h).1
          (get-remove_other seq j q pending k).1;
    fresh = w.fresh;
  }

  pub remove-IsTaken :
      (seq : Bytes) (p : MercuryPending)
      → IsWaiting pending next done
      → Dict.get seq pending ≡ some p
      → IsTaken p.callback (Dict.remove seq pending) next done
  remove-IsTaken seq p w e = record {
    waiting = remove-IsWaiting seq w;
    open_callback = λ c h. w.held seq p c e h;
    apart = λ s q c h k l.
        let (n, h') = get-remove_other seq s q pending h in n (w.distinct s seq q p c h' e k l);
  }

  -- It is put back, perhaps under another number and with other parts.
  pub insert-IsWaiting :
      (seq : Bytes) (p : MercuryPending)
      → IsTaken p.callback pending next done
      → IsWaiting (Dict.insert seq p pending) next done
  insert-IsWaiting seq p t = record {
    held = λ s q c h k. elim (get-insert_cases seq s p q pending h) [
      | inl (_, e) ↦ t.open_callback c (ap (λ p. p.callback) e ∙ k)
      | inr h' ↦ t.waiting.held s q c h' k
    ];
    distinct = λ i j q r c h k hq hr. elim (get-insert_cases seq i p q pending h) [
      | inl (a, e) ↦ elim (get-insert_cases seq j p r pending k) [
        | inl (b, _) ↦ a ∙ sym b
        | inr k' ↦ absurd (t.apart j r c k' hr (ap (λ p. p.callback) e ∙ hq))
      ]
      | inr h' ↦ elim (get-insert_cases seq j p r pending k) [
        | inl (_, e) ↦ absurd (t.apart i q c h' hq (ap (λ p. p.callback) e ∙ hr))
        | inr k' ↦ t.waiting.distinct i j q r c h' k' hq hr
      ]
    ];
    fresh = t.waiting.fresh;
  }
