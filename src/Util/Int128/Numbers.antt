-- ===== src/Util/Int128/Numbers.antt =====
-- The 128-bit integers of core/src/util/int128.rs are the numbers below 2 ^ 128.
use std.Equiv.{Iso}
use std.Univalence.{iso_to_path, ua-β}
use std.Equiv.{iso_to_equiv}
use std.Path.{transport}
use std.HLevel.{Σ_prop_path}
use native.Mathlib.Bridge.{le_prop}
use spotify_connect_scrobble.Prelude.{
  ℕ, ◌+◌, ◌/◌, ◌%◌, ◌^◌, ◌<◌, ◌≡◌, sym, ap, ap₂, ◌∙◌, returns, arith,
}
use spotify_connect_scrobble.Prelude.Words.{wrapping}
use spotify_connect_scrobble.Util.Int128.{U128, IsU128, value, from_parts, add}
use spotify_connect_scrobble.Util.Int128.Add.{sum_of, add-wrapping, value-sum_of, sum_of-IsU128}

-- The integers whose halves fit 64 bits, and the numbers below 2 ^ 128.
abbrev pub Halves : Type 0
Halves = (n : U128) × IsU128 n

abbrev pub Below : Type 0
Below = (n : ℕ) × (n < 2 ^ 128)

IsU128-prop : (n : U128) → IsProp (IsU128 n)
IsU128-prop n = hlevel le_prop

halves_of : ℕ → U128
halves_of n = from_parts (n / 2 ^ 64) (n % 2 ^ 64)

value-halves_of : (n : ℕ) → value (halves_of n) ≡ n
unfolding halves_of
value-halves_of n = omega arith

halves_of-value : (n : U128) → IsU128 n → halves_of (value n) ≡ n
unfolding halves_of
halves_of-value n h =
    ap₂ from_parts (omega (arith, h.high_fits, h.low_fits)) (omega (arith, h.high_fits, h.low_fits))

halves_of-IsU128 : (n : ℕ) → n < 2 ^ 128 → IsU128 (halves_of n)
unfolding halves_of
halves_of-IsU128 n h = record { high_fits = omega (arith, h); low_fits = omega (arith, h) }

value-fits : (n : U128) → IsU128 n → value n < 2 ^ 128
value-fits n h = omega (arith, h.high_fits, h.low_fits)

abbrev number : Halves → Below
number h = (value h.0, value-fits h.0 h.1)

halves_iso : Iso Halves Below
halves_iso = record {
  fun = number;
  inv = λ b. (halves_of b.0, halves_of-IsU128 b.0 b.1);
  rinv = λ b. Σ_prop_path (λ n. le_prop) (value-halves_of b.0);
  linv = λ h. Σ_prop_path IsU128-prop (halves_of-value h.0 h.1);
}

-- Addition modulo 2 ^ 128.
abbrev pub sum_below : Below → Below → Below
sum_below a b = ((a.0 + b.0) % 2 ^ 128, omega arith)

abbrev summed : Halves → Halves → Halves
summed a b = (sum_of a.0 b.0, sum_of-IsU128 a.0 b.0)

number-summed : (a b : Halves) → number (summed a b) ≡ sum_below (number a) (number b)
number-summed a b = Σ_prop_path (λ n. le_prop) (value-sum_of a.0 b.0)

-- The type of the integers of two 64-bit halves is the type of the numbers below 2 ^ 128, by the
-- path of types that takes an integer to its number; along it the sum of the release build, which
-- never panics, is addition modulo 2 ^ 128.
pub Halves-Below :
    (p : Halves ≡ Below) × ((n : Halves) → (transport p n).0 ≡ value n.0)
    × ((a b : Halves)
        → (r : Halves) × (add wrapping a.0 b.0 ≡ returns r.0)
          × (transport p r ≡ sum_below (transport p a) (transport p b)))
unfolding halves_iso
Halves-Below =
    let p : Halves ≡ Below = iso_to_path halves_iso in
    let to : (n : Halves) → transport p n ≡ number n = ua-β (iso_to_equiv halves_iso) in
    (
      p,
      λ n. ap (λ b. b.0) (to n),
      λ a b. (
        summed a b,
        add-wrapping a.0 b.0 a.1 b.1,
        to (summed a b) ∙ number-summed a b ∙ sym (ap₂ sum_below (to a) (to b)),
      ),
    )
