-- ===== src/Util/Int128/Mul.antt =====
-- Multiplication of the 128-bit integers of core/src/util/int128.rs.
mod Rows
use Rows.{
  weights, weights_lem, rows_detected, IsDetected, rows_value, rows_total, sum_values,
  sum_from_value,
}
use spotify_connect_scrobble.Prelude.{
  ℕ, ◌+◌, ◌*◌, ◌/◌, ◌%◌, ◌^◌, ◌≤◌, ◌<◌, ◌≡◌, refl, sym, ap, ◌∙◌, List, [], ◌∷◌, Run, returns,
  panics, >>=-eq-returns, arith, All,
}
use spotify_connect_scrobble.Prelude.Words.{wrapping}
use spotify_connect_scrobble.Util.Int128.{
  U128, IsU128, value, zero128, from_parts, limbs, rows, row_order, sum_from, mul,
}

limbs_fit : (a : U128) → IsU128 a → All (λ t. t < 2 ^ 32) (limbs a)
limbs_fit a h = omega arith

value-limbs :
    (a : U128)
    → a.high / 2 ^ 32 * 2 ^ 96 + a.high % 2 ^ 32 * 2 ^ 64 + a.low / 2 ^ 32 * 2 ^ 32 + a.low % 2 ^ 32
      ≡ value a
value-limbs a = omega arith

weights-limbs : (a b : U128) → weights (limbs a) (limbs b) row_order ≡ value a * value b
weights-limbs a b = weights_lem _ _ _ _ _ _ _ _ ∙ rw (value-limbs a, value-limbs b)

-- In a release build a product that returns is the product of the numbers modulo 2 ^ 128.
pub mul-wrapping :
    (a b r : U128)
    → IsU128 a
    → IsU128 b
    → mul wrapping a b ≡ returns r
    → IsU128 r × (value r ≡ value a * value b % 2 ^ 128)
unfolding mul
mul-wrapping a b r ha hb e =
    let (rs, made, summed) = >>=-eq-returns (rows wrapping (limbs a) (limbs b) row_order) _ e in
    let (all_fit, products) =
      rows_value (limbs a) (limbs b) refl refl (limbs_fit a ha) (limbs_fit b hb) row_order rs
        made in
    let (r', summed', fits, total) = sum_from_value zero128 rs (omega arith) all_fit in
    let same : r ≡ r' = cc in rw same (fits, omega (arith, weights-limbs a b))

-- In a release build the product of two 128-bit integers returns whenever it fits 128 bits, and
-- is then exact.
pub mul-wrapping_exact :
    (a b : U128)
    → IsU128 a
    → IsU128 b
    → value a * value b < 2 ^ 128
    → (r : U128) × (mul wrapping a b ≡ returns r) × IsU128 r × (value r ≡ value a * value b)
unfolding mul
mul-wrapping_exact a b ha hb small =
    let (rs, made) =
      rows_total (limbs a) (limbs b) refl refl (limbs_fit a ha) (limbs_fit b hb) row_order
        (rw weights-limbs small) in
    let (all_fit, products) =
      rows_value (limbs a) (limbs b) refl refl (limbs_fit a ha) (limbs_fit b hb) row_order rs
        made in
    let (r, summed, fits, total) = sum_from_value zero128 rs (omega arith) all_fit in
    (r, rw (made, summed), fits, omega (arith, weights-limbs a b))

digit_places :
    (a : U128) (b : ℕ) → b < 2 ^ 32 → All (IsDetected (limbs a) (limbs (from_parts 0 b))) row_order
digit_places a b h =
    let none_above : b / 2 ^ 32 ≡ 0 = omega arith in
    omega (
      arith,
      ap (λ (t : ℕ). a.high / 2 ^ 32 * t) none_above,
      ap (λ (t : ℕ). a.high % 2 ^ 32 * t) none_above,
      ap (λ (t : ℕ). a.low / 2 ^ 32 * t) none_above,
      ap (λ (t : ℕ). a.low % 2 ^ 32 * t) none_above,
    )

-- A product by one 32-bit digit never panics in a release build: where it does not fit 128 bits
-- it is cut to its remainder modulo 2 ^ 128.
pub mul-wrapping_digit :
    (a : U128) (b : ℕ)
    → IsU128 a
    → b < 2 ^ 32
    → (r : U128) × (mul wrapping a (from_parts 0 b) ≡ returns r)
      × IsU128 r
      × (value r ≡ value a * b % 2 ^ 128)
unfolding mul
mul-wrapping_digit a b ha hb =
    let digit = from_parts 0 b in
    let (rs, made) =
      rows_detected (limbs a) (limbs digit) refl refl (limbs_fit a ha)
        (limbs_fit digit (omega arith)) row_order (digit_places a b hb) in
    let (all_fit, products) =
      rows_value (limbs a) (limbs digit) refl refl (limbs_fit a ha) (limbs_fit digit (omega arith))
        row_order rs made in
    let (r, summed, fits, total) = sum_from_value zero128 rs (omega arith) all_fit in
    (r, rw (made, summed), fits, omega (arith, weights-limbs a digit))
