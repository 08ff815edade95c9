-- ===== src/Prelude/Words/Digits.antt =====
-- Numbers and their digits are the same thing, in every base and at every width.
use spotify_connect_scrobble.Prelude.Lists.{length, All}
use spotify_connect_scrobble.Prelude.Words.{be_value, be_bytes, number_from, digits_of}
use Prim.Native.Nat.{ℕ, zero, suc, ◌+◌, ◌*◌, ◌/◌, ◌%◌, ◌^◌, ◌<◌}
use mathlib.Core.Path.{◌≡◌, refl, ap, ap₂, ◌∙◌}
use mathlib.Core.List.{List, [], ◌∷◌, ◌++◌}
use native.Mathlib.Nat.{
  pow-suc, pow-zero, add-zero, div-div-eq-div-mul, div-add-mod, mod-lt, mod-one, one-le-pow,
  mul-add-div_right, div-eq_of_lt, mul-add-mod_self_right, mod-eq_of_lt,
}
use native.Mathlib.Omega.{arith}

module _ (base : ℕ) where
  pub length-digits_of : (w v : ℕ) → length (digits_of base w v) ≡ w
  length-digits_of zero v = refl
  length-digits_of (suc w) v = ap suc (length-digits_of w v)

  pub digits_of-lt : (w v : ℕ) → 0 < base → All (λ d. d < base) (digits_of base w v)
  digits_of-lt zero v h = tt
  digits_of-lt (suc w) v h = (mod-lt _ h, digits_of-lt w v h)

  pub number_from-append :
      (acc : ℕ) (ds es : List ℕ)
      → number_from base acc (ds ++ es) ≡ number_from base (number_from base acc ds) es
  number_from-append acc [] es = refl
  number_from-append acc (d ∷ ds) es = number_from-append (acc * base + d) ds es

  number_from-acc :
      (acc : ℕ) (ds : List ℕ)
      → number_from base acc ds ≡ acc * base ^ length ds + number_from base 0 ds
  number_from-acc acc [] = rw pow-zero (omega arith)
  number_from-acc acc (d ∷ ds) =
      number_from-acc (acc * base + d) ds
      ∙ rw (number_from-acc (0 * base + d) ds)
          (omega (arith, ap (λ (t : ℕ). acc * t) (pow-suc base (length ds))))

  pub number_from-lt :
      (ds : List ℕ) → All (λ d. d < base) ds → number_from base 0 ds < base ^ length ds
  number_from-lt [] h = rw pow-zero (omega arith)
  number_from-lt (d ∷ ds) h =
      rw (number_from-acc (0 * base + d) ds)
        (grind (arith, number_from-lt ds h.1, pow-suc base (length ds)))

  low_part : (w v : ℕ) → v % base ^ suc w ≡ v / base ^ w % base * base ^ w + v % base ^ w
  low_part w v = grind (
    arith,
    pow-suc base w,
    div-add-mod v (base ^ suc w),
    div-add-mod v (base ^ w),
    ap (λ (t : ℕ). base ^ w * t) (div-add-mod (v / base ^ w) base),
    div-div-eq-div-mul v (base ^ w) base,
    ap (λ (t : ℕ). t * (v / base ^ suc w)) (pow-suc base w),
  )

  -- The last `w` digits of a number write its remainder by the `w`-th power of the base.
  pub number_from-digits_of :
      (w acc v : ℕ) → number_from base acc (digits_of base w v) ≡ acc * base ^ w + v % base ^ w
  number_from-digits_of zero acc v = rw pow-zero (omega (arith, mod-one v))
  number_from-digits_of (suc w) acc v =
      number_from-digits_of w (acc * base + v / base ^ w % base) v
      ∙ omega (arith, low_part w v, ap (λ (t : ℕ). acc * t) (pow-suc base w))

  first_digit :
      (acc d : ℕ) (ds : List ℕ)
      → All (λ d. d < base) (d ∷ ds)
      → number_from base (acc * base + d) ds / base ^ length ds % base ≡ d
  first_digit acc d ds h =
      rw
        (
          number_from-acc (acc * base + d) ds,
          mul-add-div_right {m = base ^ length ds}
              (one-le-pow (length ds) base (omega (arith, h.0))),
          div-eq_of_lt (number_from-lt ds h.1),
          add-zero,
          mul-add-mod_self_right,
        )
        (mod-eq_of_lt h.0)

  -- Digits are the digits of the number that they write.
  pub digits_of-number_from :
      (acc : ℕ) (ds : List ℕ)
      → All (λ d. d < base) ds
      → digits_of base (length ds) (number_from base acc ds) ≡ ds
  digits_of-number_from acc [] h = refl
  digits_of-number_from acc (d ∷ ds) h =
      ap₂ ◌∷◌ (first_digit acc d ds h) (digits_of-number_from (acc * base + d) ds h.1)

-- The bytes of a number that fits their width write that number.
pub be_value-be_bytes : (w v : ℕ) → v < 256 ^ w → be_value (be_bytes w v) ≡ v
be_value-be_bytes w v h = omega (arith, number_from-digits_of 256 w 0 v, mod-eq_of_lt h)
