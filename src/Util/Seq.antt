-- ===== src/Util/Seq.antt =====
-- `SeqGenerator` of core/src/util/mod.rs, at a type of `w` bits.
use spotify_connect_scrobble.Prelude.{
  ℕ, zero, suc, ◌+◌, ◌^◌, ◌<◌, ◌≡◌, ap, List, [], ◌∷◌, Run, returns, ◌>>=◌, arith, sym,
  >>=-eq-returns, returns-injective,
}
use native.Mathlib.Nat.{mod-eq_of_lt}
use spotify_connect_scrobble.Prelude.Words.{Overflow, checked, wrapping, add_word}

pub record SeqGenerator : Type 0 where
  pub value : ℕ

-- `Seq::next`: `*self + 1`.
abbrev pub next : Overflow → ℕ → ℕ → Run ℕ
next mode w n = add_word mode w n 1

-- `get` returns the present value and stores the next one.
unfoldable pub get : Overflow → ℕ → SeqGenerator → Run (ℕ × SeqGenerator)
get mode w s = do value ← next mode w s.value; returns (s.value, record { value = value })

pub get_lem :
    (mode : Overflow) (w v : ℕ)
    → v + 1 < 2 ^ w
    → get mode w (record { value = v }) ≡ returns (v, record { value = v + 1 })
unfolding get
get_lem checked w v h = ground arith
get_lem wrapping w v h = rw (mod-eq_of_lt h)

pub get_value :
    (mode : Overflow) (w v : ℕ) (s t : SeqGenerator) → get mode w s ≡ returns (v, t) → v ≡ s.value
unfolding get
get_value mode w v s t h =
    let (n, _, h1) = >>=-eq-returns (next mode w s.value) _ h in
    ap (λ r. r.0) (sym (returns-injective (s.value, record { value = n }) (v, t) h1))

-- The values of `n` calls in a row.
unfoldable pub take_values : Overflow → ℕ → ℕ → SeqGenerator → Run (List ℕ × SeqGenerator)
take_values mode w zero s = returns ([], s)
take_values mode w (suc n) s = do
  (v, s') ← get mode w s
  (vs, t) ← take_values mode w n s'
  returns (v ∷ vs, t)

abbrev pub count_up : ℕ → ℕ → List ℕ
count_up zero v = []
count_up (suc n) v = v ∷ count_up n (v + 1)

-- As long as the numbers fit their type, the calls return the numbers in order, each once, in
-- both build profiles.
pub take_values-count_up :
    (mode : Overflow) (w n v : ℕ)
    → v + n < 2 ^ w
    → take_values mode w n (record { value = v }) ≡ returns (count_up n v, record { value = v + n })
unfolding take_values
take_values-count_up mode w zero v h = ap (λ n. returns ([], record { value = n })) (omega arith)
take_values-count_up mode w (suc n) v h =
    rw (get_lem mode w v (omega arith), take_values-count_up mode w n (v + 1) (omega arith))
      (ap (λ m. returns (v ∷ count_up n (v + 1), record { value = m })) (omega arith))
