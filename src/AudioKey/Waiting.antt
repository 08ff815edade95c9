-- ===== src/AudioKey/Waiting.antt =====
-- The futures of core/src/audio_key.rs along any run of requests and packets.
use spotify_connect_scrobble.Prelude.{
  ℕ, ◌+◌, ◌≤◌, ◌<◌, ◌≡◌, ◌≢◌, ◌⊎◌, inl, inr, refl, sym, ap, ◌∙◌, subst, ◌∷◌, none, some, Bool-cases,
  ◌==◌, arith,
}
use spotify_connect_scrobble.Prelude.Eq.{nat_eq}
use spotify_connect_scrobble.Prelude.Dict
use spotify_connect_scrobble.Prelude.Dict.{Dict, get-remove, get-insert, remove-remove}
use mathlib.Core.Option.{some-injective}
use spotify_connect_scrobble.AudioKey.{Received, ok, err, waiting, canceled}

-- A sender gives a result or is dropped.
abbrev pub IsResult : Received → Type 0
IsResult waiting = ⊥
IsResult (ok key) = Unit
IsResult err = Unit
IsResult canceled = Unit

-- Of the requests' numbers with their channels, of the next channel, and of what was sent: a channel
-- waits under one number at most, and is then without a result; the channels that are to come have
-- none; and every channel that was handed out waits or has its result.
pub record IsWaiting (pending : Dict ℕ ℕ) (next : ℕ) (completed : Dict ℕ Received) : Type 0 where
  pub held :
      (seq c : ℕ) → Dict.get seq pending ≡ some c → (c < next) × (Dict.get c completed ≡ none)
  pub distinct : (i j c : ℕ) → Dict.get i pending ≡ some c → Dict.get j pending ≡ some c → i ≡ j
  pub fresh : (c : ℕ) → next ≤ c → Dict.get c completed ≡ none
  pub results : (c : ℕ) (r : Received) → Dict.get c completed ≡ some r → IsResult r
  pub accounted :
      (c : ℕ)
      → c < next
      → ((seq : ℕ) × (Dict.get seq pending ≡ some c))
        ⊎ ((r : Received) × (Dict.get c completed ≡ some r))

pub get-remove_other :
    (i j c : ℕ) (p : Dict ℕ ℕ)
    → Dict.get j (Dict.remove i p) ≡ some c
    → (j ≢ i) × (Dict.get j p ≡ some c)
get-remove_other i j c p h = ground (arith, get-remove i j p)

get-remove_kept :
    (i j c : ℕ) (p : Dict ℕ ℕ)
    → j ≢ i
    → Dict.get j p ≡ some c
    → Dict.get j (Dict.remove i p) ≡ some c
get-remove_kept i j c p n h = ground (arith, get-remove i j p)

pub eq_cases : (m n : ℕ) → (m ≡ n) ⊎ (m ≢ n)
eq_cases m n = elim (Bool-cases (m == n)) [
  | inl e ↦ inl (ground arith)
  | inr e ↦ inr (ground arith)
]

pub get-insert_cases :
    (i j v c : ℕ) (p : Dict ℕ ℕ)
    → Dict.get j (Dict.insert i v p) ≡ some c
    → ((j ≡ i) × (v ≡ c)) ⊎ (Dict.get j p ≡ some c)
get-insert_cases i j v c p h = elim (eq_cases j i) [
  | inl e ↦ inl (e, ground (arith, get-insert i j v p))
  | inr n ↦ inr (ground (arith, get-insert i j v p))
]

get-insert_kept :
    (i j v c : ℕ) (p : Dict ℕ ℕ)
    → Dict.get i p ≡ none
    → Dict.get j p ≡ some c
    → Dict.get j (Dict.insert i v p) ≡ some c
get-insert_kept i j v c p e h = elim (eq_cases i j) [
  | inl k ↦ absurd (cc (e, h, k))
  | inr n ↦ ground (arith, get-insert i j v p)
]

below : {a b n : ℕ} → a < n → n ≤ b → a ≢ b
below h k e = omega (arith, h, k, e)

-- The log of the results, behind one more.
pub get-resolved :
    (c d : ℕ) (r : Received) (done : Dict ℕ Received)
    → ((c ≡ d) × (Dict.get d ((c, r) ∷ done) ≡ some r))
      ⊎ ((c ≢ d) × (Dict.get d ((c, r) ∷ done) ≡ Dict.get d done))
unfolding Dict.get
get-resolved c d r done = elim (eq_cases c d) [
  | inl e ↦ inl (e, ground arith)
  | inr n ↦ inr (n, ground arith)
]

module _ {p : Dict ℕ ℕ} {next : ℕ} {done : Dict ℕ Received} (w : IsWaiting p next done) where
  -- A number is given up that has no channel.
  pub forget-IsWaiting : (seq : ℕ) → Dict.get seq p ≡ none → IsWaiting (Dict.remove seq p) next done
  forget-IsWaiting seq e = record {
    held = λ s c h. w.held s c (get-remove_other seq s c p h).1;
    distinct = λ i j c h k.
        w.distinct i j c (get-remove_other seq i c p h).1 (get-remove_other seq j c p k).1;
    fresh = w.fresh;
    results = w.results;
    accounted = λ c h. elim (w.accounted c h) [
      | inl (s, k) ↦ inl (s, get-remove_kept seq s c p (λ q. cc (e, k, q)) k)
      | inr r ↦ inr r
    ];
  }

  -- The channel of a number gets its result.
  pub settle-IsWaiting :
      (seq c : ℕ) (r : Received)
      → Dict.get seq p ≡ some c
      → IsResult r
      → IsWaiting (Dict.remove seq p) next ((c, r) ∷ done)
  settle-IsWaiting seq c r e h = record {
    held = λ s d k.
        let (n, k') = get-remove_other seq s d p k in
        let (l, u) = w.held s d k' in
        (
          l,
          elim (get-resolved c d r done) [
            | inl (q, _) ↦ absurd (n (w.distinct s seq d k' (e ∙ ap some q)))
            | inr (_, q) ↦ q ∙ u
          ],
        );
    distinct = λ i j d h k.
        w.distinct i j d (get-remove_other seq i d p h).1 (get-remove_other seq j d p k).1;
    fresh = λ d h. elim (get-resolved c d r done) [
      | inl (q, _) ↦ absurd (below (w.held seq c e).0 h q)
      | inr (_, q) ↦ q ∙ w.fresh d h
    ];
    results = λ d x k. elim (get-resolved c d r done) [
      | inl (_, q) ↦ subst IsResult (some-injective r x (sym q ∙ k)) h
      | inr (_, q) ↦ w.results d x (sym q ∙ k)
    ];
    accounted = λ d k. elim (get-resolved c d r done) [
      | inl (_, q) ↦ inr (r, q)
      | inr (n, q) ↦ elim (w.accounted d k) [
        | inl (s, u) ↦ inl (
          s,
          get-remove_kept seq s d p
              (λ v. n (some-injective c d (sym e ∙ ap (λ x. Dict.get x p) (sym v) ∙ u))) u,
        )
        | inr (x, u) ↦ inr (x, q ∙ u)
      ]
    ];
  }

  -- A number that has no channel gets the next one.
  pub issue-IsWaiting :
      (seq : ℕ) → Dict.get seq p ≡ none → IsWaiting (Dict.insert seq next p) (next + 1) done
  issue-IsWaiting seq e = record {
    held = λ s c h. elim (get-insert_cases seq s next c p h) [
      | inl (_, q) ↦ (omega (arith, q), w.fresh c (omega (arith, q)))
      | inr k ↦ let (l, u) = w.held s c k in (omega (arith, l), u)
    ];
    distinct = λ i j c h k. elim (get-insert_cases seq i next c p h) [
      | inl (a, q) ↦ elim (get-insert_cases seq j next c p k) [
        | inl (b, _) ↦ a ∙ sym b
        | inr v ↦ absurd (below (w.held j c v).0 (omega (arith, q)) refl)
      ]
      | inr u ↦ elim (get-insert_cases seq j next c p k) [
        | inl (_, q) ↦ absurd (below (w.held i c u).0 (omega (arith, q)) refl)
        | inr v ↦ w.distinct i j c u v
      ]
    ];
    fresh = λ c h. w.fresh c (omega arith);
    results = w.results;
    accounted = λ c h. elim (eq_cases c next) [
      | inl q ↦ inl (seq, Dict.get-insert_same seq next p ∙ ap some (sym q))
      | inr n ↦ elim (w.accounted c (omega (arith, n))) [
        | inl (s, u) ↦ inl (s, get-insert_kept seq s next c p e u)
        | inr u ↦ inr u
      ]
    ];
  }
