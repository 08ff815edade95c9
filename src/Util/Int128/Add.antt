-- ===== src/Util/Int128/Add.antt =====
-- Addition of the 128-bit integers of core/src/util/int128.rs, in both build profiles.
use spotify_connect_scrobble.Prelude.{
  ◌+◌, ◌/◌, ◌%◌, ◌^◌, ◌≤◌, ◌<◌, ◌≡◌, ◌↔◌, ◌⊎◌, inl, inr, refl, ℕ, returns, panics, arith,
}
use spotify_connect_scrobble.Prelude.Words.{checked, wrapping}
use spotify_connect_scrobble.Util.Int128.{U128, IsU128, value, from_parts, add}

-- The sum that the release build returns.
abbrev pub sum_of : U128 → U128 → U128
sum_of a b =
    from_parts (((a.high + b.high) % 2 ^ 64 + (a.low + b.low) / 2 ^ 64) % 2 ^ 64)
      ((a.low + b.low) % 2 ^ 64)

pub add-wrapping : (a b : U128) → IsU128 a → IsU128 b → add wrapping a b ≡ returns (sum_of a b)
unfolding add
add-wrapping a b ha hb = ground arith

pub value-sum_of : (a b : U128) → value (sum_of a b) ≡ (value a + value b) % 2 ^ 128
value-sum_of a b = omega arith

pub sum_of-IsU128 : (a b : U128) → IsU128 (sum_of a b)
sum_of-IsU128 a b = omega arith

-- In a release build (wrapping arithmetic) the sum of two 128-bit integers always returns: it is
-- an integer r of two 64-bit halves, and the number of r is the sum of the numbers modulo 2 ^ 128.
pub add-wrapping_value :
    (a b : U128)
    → IsU128 a
    → IsU128 b
    → (r : U128) × (add wrapping a b ≡ returns r)
      × IsU128 r
      × (value r ≡ (value a + value b) % 2 ^ 128)
add-wrapping_value a b ha hb =
    (sum_of a b, add-wrapping a b ha hb, sum_of-IsU128 a b, value-sum_of a b)

-- In a debug build (checked arithmetic) the sum returns exactly if both halves can be added
-- without a carry, and what it returns is then the exact sum.
pub add-checked :
    (a b r : U128)
    → IsU128 a
    → IsU128 b
    → (add checked a b ≡ returns r) ↔ (
        (a.low + b.low < 2 ^ 64)
        × (a.high + b.high < 2 ^ 64)
        × (r.low ≡ a.low + b.low)
        × (r.high ≡ a.high + b.high))
unfolding add
add-checked a b r ha hb = ground arith

add-checked_carry :
    (a b : U128) → IsU128 a → IsU128 b → 2 ^ 64 ≤ a.low + b.low → add checked a b ≡ panics
unfolding add
add-checked_carry a b ha hb h = ground arith

add-checked_overflow :
    (a b : U128) → IsU128 a → IsU128 b → 2 ^ 64 ≤ a.high + b.high → add checked a b ≡ panics
unfolding add
add-checked_overflow a b ha hb h = ground arith

<-cases : (n m : ℕ) → (n < m) ⊎ (m ≤ n)
<-cases n m = ground arith

-- Where both halves can be added without a carry, the sum of two 128-bit integers returns the exact
-- sum in a debug build (checked arithmetic). Where a half carries, the debug build panics, and the
-- release build (wrapping arithmetic) returns the sum modulo 2 ^ 128, which is exact if it fits.
pub add-checked_value :
    (a b : U128)
    → IsU128 a
    → IsU128 b
    → ((a.low + b.low < 2 ^ 64)
        × (a.high + b.high < 2 ^ 64)
        × (r : U128) × (add checked a b ≡ returns r)
        × IsU128 r
        × (value r ≡ value a + value b))
      ⊎ (((2 ^ 64 ≤ a.low + b.low) ⊎ (2 ^ 64 ≤ a.high + b.high))
          × (add checked a b ≡ panics)
          × (r : U128) × (add wrapping a b ≡ returns r)
          × IsU128 r
          × (value r ≡ (value a + value b) % 2 ^ 128))
add-checked_value a b ha hb =
    let (w, sums, fits, exact) = add-wrapping_value a b ha hb in
    elim (<-cases (a.low + b.low) (2 ^ 64)) [
      | inr l ↦ inr (inl l, add-checked_carry a b ha hb l, w, sums, fits, exact)
      | inl l ↦ elim (<-cases (a.high + b.high) (2 ^ 64)) [
        | inr h ↦ inr (inr h, add-checked_overflow a b ha hb h, w, sums, fits, exact)
        | inl h ↦
            let r = from_parts (a.high + b.high) (a.low + b.low) in
            inl (
              l,
              h,
              r,
              (add-checked a b r ha hb).1 (l, h, refl, refl),
              record { high_fits = h; low_fits = l },
              omega arith,
            )
      ]
    ]
