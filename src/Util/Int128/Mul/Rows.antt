-- ===== src/Util/Int128/Mul/Rows.antt =====
-- The sixteen rows of a multiplication in core/src/util/int128.rs, and their sum.
use spotify_connect_scrobble.Prelude.{
  ℕ, zero, suc, ◌+◌, ◌-◌, ◌*◌, ◌%◌, ◌^◌, ◌≤◌, ◌<◌, ◌≡◌, ◌⊎◌, refl, ap, List, [], ◌∷◌, length, All,
  get_elem?, some, returns, >>=-eq-returns, arith,
}
use spotify_connect_scrobble.Prelude.Words.{wrapping}
use spotify_connect_scrobble.Util.Int128.{
  U128, IsU128, value, from_parts, row_order, place, row, rows, sum_from,
}
use spotify_connect_scrobble.Util.Int128.Add.{sum_of, add-wrapping, value-sum_of, sum_of-IsU128}
use native.Mathlib.Nat.{pow-le-pow_right, mod-eq_of_lt}

abbrev pub nth : List ℕ → ℕ → ℕ
nth [] i = 0
nth (x ∷ xs) zero = x
nth (x ∷ xs) (suc i) = nth xs i

get_elem?-nth : (xs : List ℕ) (i : ℕ) → i < length xs → get_elem? xs i ≡ some (nth xs i)
get_elem?-nth [] i h = absurd (omega arith)
get_elem?-nth (x ∷ xs) zero h = refl
get_elem?-nth (x ∷ xs) (suc i) h = get_elem?-nth xs i (omega arith)

nth-lt : (k : ℕ) (xs : List ℕ) (i : ℕ) → 0 < k → All (λ x. x < k) xs → nth xs i < k
nth-lt k [] i p h = p
nth-lt k (x ∷ xs) zero p h = h.0
nth-lt k (x ∷ xs) (suc i) p h = nth-lt k xs i p h.1

-- What the rows at these places should add up to.
pub weights : List ℕ → List ℕ → List (ℕ × ℕ) → ℕ
weights top bottom [] = 0
weights top bottom ((i, j) ∷ rest) =
    nth top (3 - i) * nth bottom (3 - j) * 2 ^ (32 * (i + j)) + weights top bottom rest

-- Sixteen products of limbs are the product.
pub weights_lem :
    (t u v w p q r s : ℕ)
    → weights (t ∷ u ∷ v ∷ w ∷ []) (p ∷ q ∷ r ∷ s ∷ []) row_order
      ≡ (t * 2 ^ 96 + u * 2 ^ 64 + v * 2 ^ 32 + w) * (p * 2 ^ 96 + q * 2 ^ 64 + r * 2 ^ 32 + s)
unfolding weights
weights_lem t u v w p q r s = omega arith

pub sum_values : List U128 → ℕ
sum_values [] = 0
sum_values (r ∷ rs) = value r + sum_values rs

place_value :
    (s p : ℕ) (r : U128)
    → p < 2 ^ 64
    → place s p ≡ returns r
    → IsU128 r × (value r % 2 ^ 128 ≡ p * 2 ^ (32 * s) % 2 ^ 128)
unfolding place
place_value zero p r h e = ground arith
place_value (suc zero) p r h e = ground arith
place_value (suc (suc zero)) p r h e = ground arith
place_value (suc (suc (suc zero))) p r h e = ground arith
place_value (suc (suc (suc (suc s)))) p r h e = ground arith

big_weight : (s : ℕ) → 2 ^ 128 ≤ 2 ^ (32 * suc (suc (suc (suc s))))
big_weight s = pow-le-pow_right {n = 2} (omega arith) {i = 128} (omega arith)

small_factor : (p w : ℕ) → 2 ^ 128 ≤ w → p * w < 2 ^ 128 → p ≡ 0
small_factor zero w h k = refl
small_factor (suc p) w h k = absurd (grind arith)

place_total : (s p : ℕ) → p * 2 ^ (32 * s) < 2 ^ 128 → (r : U128) × (place s p ≡ returns r)
unfolding place
place_total zero p h = (_, refl)
place_total (suc zero) p h = (_, refl)
place_total (suc (suc zero)) p h = (_, refl)
place_total (suc (suc (suc zero))) p h = (_, refl)
place_total (suc (suc (suc (suc s)))) p h = (
  from_parts 0 0,
  ground (arith, big_weight s, small_factor p (2 ^ (32 * suc (suc (suc (suc s)))))),
)

place_detected : (s p : ℕ) → (s < 4) ⊎ (p ≡ 0) → (r : U128) × (place s p ≡ returns r)
unfolding place
place_detected zero p h = (_, refl)
place_detected (suc zero) p h = (_, refl)
place_detected (suc (suc zero)) p h = (_, refl)
place_detected (suc (suc (suc zero))) p h = (_, refl)
place_detected (suc (suc (suc (suc s)))) p h = (from_parts 0 0, ground arith)

-- The place of this row is one of the four that the result has, or the row is empty.
abbrev pub IsDetected : List ℕ → List ℕ → ℕ × ℕ → Type 0
IsDetected top bottom (i, j) = (i + j < 4) ⊎ (nth top (3 - i) * nth bottom (3 - j) ≡ 0)

limb_product : (t b : ℕ) → t < 2 ^ 32 → b < 2 ^ 32 → t * b < 2 ^ 64
limb_product t b h k = grind arith

module _ (top bottom : List ℕ) (four : length top ≡ 4) (four' : length bottom ≡ 4)
    (fit : All (λ t. t < 2 ^ 32) top) (fit' : All (λ t. t < 2 ^ 32) bottom) where
  row_fits : (i j : ℕ) → nth top (3 - i) * nth bottom (3 - j) < 2 ^ 64
  row_fits i j =
      limb_product _ _ (nth-lt (2 ^ 32) top (3 - i) (omega arith) fit)
        (nth-lt (2 ^ 32) bottom (3 - j) (omega arith) fit')

  row-place :
      (i j : ℕ) → row wrapping top bottom i j ≡ place (i + j) (nth top (3 - i) * nth bottom (3 - j))
  unfolding row
  row-place i j =
      rw (get_elem?-nth top (3 - i) (omega arith), get_elem?-nth bottom (3 - j) (omega arith))
        (ap (place (i + j)) (mod-eq_of_lt (row_fits i j)))

  pub rows_value :
      (order : List (ℕ × ℕ)) (rs : List U128)
      → rows wrapping top bottom order ≡ returns rs
      → All IsU128 rs × (sum_values rs % 2 ^ 128 ≡ weights top bottom order % 2 ^ 128)
  unfolding rows weights sum_values
  rows_value [] rs e = ground arith
  rows_value ((i, j) ∷ rest) rs e =
      let (r, made, e') = >>=-eq-returns (row wrapping top bottom i j) _ e in
      let (rs', made', e'') = >>=-eq-returns (rows wrapping top bottom rest) _ e' in
      let here = place_value (i + j) _ r (row_fits i j) (rw (← row-place i j) made) in
      let there = rows_value rest rs' made' in ground (arith, here, there)

  pub rows_detected :
      (order : List (ℕ × ℕ))
      → All (IsDetected top bottom) order
      → (rs : List U128) × (rows wrapping top bottom order ≡ returns rs)
  unfolding rows
  rows_detected [] h = ([], refl)
  rows_detected ((i, j) ∷ rest) h =
      let (r, e) = place_detected (i + j) (nth top (3 - i) * nth bottom (3 - j)) h.0 in
      let (rs, e') = rows_detected rest h.1 in (r ∷ rs, rw (row-place i j, e, e'))

  pub rows_total :
      (order : List (ℕ × ℕ))
      → weights top bottom order < 2 ^ 128
      → (rs : List U128) × (rows wrapping top bottom order ≡ returns rs)
  unfolding rows weights
  rows_total [] h = ([], refl)
  rows_total ((i, j) ∷ rest) h =
      let (r, e) = place_total (i + j) (nth top (3 - i) * nth bottom (3 - j)) (omega arith) in
      let (rs, e') = rows_total rest (omega arith) in (r ∷ rs, rw (row-place i j, e, e'))

pub sum_from_value :
    (acc : U128) (rs : List U128)
    → IsU128 acc
    → All IsU128 rs
    → (r : U128) × (sum_from wrapping acc rs ≡ returns r)
      × IsU128 r
      × (value r ≡ (value acc + sum_values rs) % 2 ^ 128)
unfolding sum_from sum_values
sum_from_value acc [] h hs = (acc, refl, h, omega arith)
sum_from_value acc (x ∷ rs) h hs =
    let (r, e, fits, total) = sum_from_value (sum_of acc x) rs (sum_of-IsU128 acc x) hs.1 in
    (r, rw (add-wrapping acc x h hs.0) e, fits, omega (arith, value-sum_of acc x))
