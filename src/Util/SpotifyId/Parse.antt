-- ===== src/Util/SpotifyId/Parse.antt =====
-- Reading an id from text (core/src/util/spotify_id.rs), against the number that the text writes.
use spotify_connect_scrobble.Prelude.{
  ℕ, zero, suc, ◌+◌, ◌*◌, ◌%◌, ◌^◌, ◌≤◌, ◌<◌, ◌≡◌, refl, ap, [], ◌∷◌, length, All, Option, none,
  some, Option-cases, true, Run, returns, panics, arith, inl, inr,
}
use spotify_connect_scrobble.Prelude.Words.{Bytes, wrapping}
use spotify_connect_scrobble.Util.Int128.{U128, IsU128, value, zero128, from_u8}
use spotify_connect_scrobble.Util.Int128.Add.{add-wrapping_value}
use spotify_connect_scrobble.Util.Int128.Mul.{mul-wrapping_digit}
use spotify_connect_scrobble.Util.SpotifyId.{
  SpotifyId, position, is_ascii, base16_digits, base62_digits, read_digits, from_base16,
  from_base62,
}
use native.Mathlib.Nat.{div-add-mod}

-- The number that a text writes, of any size; `none` if a character is no digit.
unfoldable pub numeral : Bytes → ℕ → ℕ → Bytes → Option ℕ
numeral digits base acc [] = some acc
numeral digits base acc (c ∷ cs) = elim (position c digits) [
  | none ↦ none
  | some d ↦ numeral digits base (acc * base + d) cs
]

position-lt : (c : ℕ) (digits : Bytes) (d : ℕ) → position c digits ≡ some d → d < length digits
unfolding position
position-lt c [] d e = cc
position-lt c (x ∷ digits) zero e = omega arith
position-lt c (x ∷ digits) (suc d) e = ground (arith, position-lt c digits d)

position-All :
    (c : ℕ) (digits : Bytes) (d : ℕ)
    → All (λ x. x < 128) digits
    → position c digits ≡ some d
    → c < 128
unfolding position
position-All c [] d h e = cc
position-All c (x ∷ digits) zero h e = ground (arith, position-All c digits)
position-All c (x ∷ digits) (suc d) h e = ground (arith, position-All c digits d h.1)

numeral-is_ascii :
    (digits : Bytes) (base acc : ℕ) (s : Bytes) (v : ℕ)
    → All (λ x. x < 128) digits
    → numeral digits base acc s ≡ some v
    → is_ascii s ≡ true
unfolding numeral
numeral-is_ascii digits base acc [] v h e = refl
numeral-is_ascii digits base acc (c ∷ cs) v h e = elim (Option-cases (position c digits)) [
  | inl p ↦ ground (arith, p)
  | inr (d, p) ↦
      ground (
        arith,
        p,
        position-All c digits d h p,
        numeral-is_ascii digits base (acc * base + d) cs v h,
      )
]

module _ (digits : Bytes) (base : ℕ) (few : length digits ≤ 2 ^ 32) (small : base < 2 ^ 32) where
  next_value :
      (acc n d : ℕ)
      → n ≡ acc % 2 ^ 128
      → (n * base % 2 ^ 128 + d) % 2 ^ 128 ≡ (acc * base + d) % 2 ^ 128
  next_value acc n d e =
      omega
        (arith, ap (λ (t : ℕ). t * base) (div-add-mod acc (2 ^ 128)), ap (λ (t : ℕ). t * base) e)

  read_digits-numeral :
      (n : U128) (acc : ℕ) (s : Bytes) (v : ℕ)
      → IsU128 n
      → value n ≡ acc % 2 ^ 128
      → numeral digits base acc s ≡ some v
      → (r : U128) × (read_digits wrapping digits base n s ≡ returns r)
        × IsU128 r
        × (value r ≡ v % 2 ^ 128)
  unfolding numeral read_digits
  read_digits-numeral n acc [] v h e p = (n, refl, h, ground arith)
  read_digits-numeral n acc (c ∷ cs) v h e p = elim (Option-cases (position c digits)) [
    | inl q ↦ absurd (cc (p, q))
    | inr (d, q) ↦
        let (m, scaled, m_fits, m_value) = mul-wrapping_digit n base h small in
        let d_fits = position-lt c digits d q in
        let (n', added, n'_fits, n'_value) =
          add-wrapping_value m (from_u8 d) m_fits (omega arith) in
        let (r, read, fits, total) =
          read_digits-numeral n' (acc * base + d) cs v n'_fits
            (omega (arith, next_value acc (value n) d e)) (rw (q, numeral) at p) in
        (r, rw (q, scaled, added) read, fits, total)
  ]

  read_digits-none :
      (n : U128) (acc : ℕ) (s : Bytes)
      → IsU128 n
      → numeral digits base acc s ≡ none
      → read_digits wrapping digits base n s ≡ panics
  unfolding numeral read_digits
  read_digits-none n acc [] h p = cc
  read_digits-none n acc (c ∷ cs) h p = elim (Option-cases (position c digits)) [
    | inl q ↦ rw q
    | inr (d, q) ↦
        let (m, scaled, m_fits, m_value) = mul-wrapping_digit n base h small in
        let d_fits = position-lt c digits d q in
        let (n', added, n'_fits, n'_value) =
          add-wrapping_value m (from_u8 d) m_fits (omega arith) in
        rw (q, scaled, added)
          (read_digits-none n' (acc * base + d) cs n'_fits (rw (q, numeral) at p))
  ]

-- What reading gives for the number that a text writes, if it writes one.
abbrev pub Reads : Option ℕ → Run SpotifyId → Type 0
Reads none read = read ≡ panics
Reads (some v) read =
    (id : SpotifyId) × (read ≡ returns id) × IsU128 id.number × (value id.number ≡ v % 2 ^ 128)

from_base62_cases :
    (s : Bytes)
    → ((v : ℕ)
        → numeral base62_digits 62 0 s ≡ some v
        → (r : SpotifyId) × (from_base62 wrapping s ≡ returns r)
          × IsU128 r.number
          × (value r.number ≡ v % 2 ^ 128))
      × (numeral base62_digits 62 0 s ≡ none → from_base62 wrapping s ≡ panics)
unfolding from_base62
from_base62_cases s = (
  λ v p.
      let (n, read, fits, total) =
        read_digits-numeral base62_digits 62 (omega arith) (omega arith) zero128 0 s v (omega arith)
          (omega arith) p in
      (
        record { number = n },
        rw (numeral-is_ascii base62_digits 62 0 s v (omega arith) p, read),
        fits,
        total,
      ),
  λ p. ground (
    arith,
    read_digits-none base62_digits 62 (omega arith) (omega arith) zero128 0 s (omega arith) p,
  ),
)

-- In a release build `from_base62` returns exactly on the texts of base-62 digits: a text that
-- writes the number v gives the id of v modulo 2 ^ 128, and any other text panics.
pub from_base62_value : (s : Bytes) → Reads (numeral base62_digits 62 0 s) (from_base62 wrapping s)
from_base62_value s = elim (Option-cases (numeral base62_digits 62 0 s)) [
  | inl p ↦ rw p ((from_base62_cases s).1 p)
  | inr (v, p) ↦ rw p ((from_base62_cases s).0 v p)
]

from_base16_cases :
    (s : Bytes)
    → ((v : ℕ)
        → numeral base16_digits 16 0 s ≡ some v
        → (r : SpotifyId) × (from_base16 wrapping s ≡ returns r)
          × IsU128 r.number
          × (value r.number ≡ v % 2 ^ 128))
      × (numeral base16_digits 16 0 s ≡ none → from_base16 wrapping s ≡ panics)
unfolding from_base16
from_base16_cases s = (
  λ v p.
      let (n, read, fits, total) =
        read_digits-numeral base16_digits 16 (omega arith) (omega arith) zero128 0 s v (omega arith)
          (omega arith) p in
      (
        record { number = n },
        rw (numeral-is_ascii base16_digits 16 0 s v (omega arith) p, read),
        fits,
        total,
      ),
  λ p. ground (
    arith,
    read_digits-none base16_digits 16 (omega arith) (omega arith) zero128 0 s (omega arith) p,
  ),
)

-- In a release build `from_base16` returns exactly on the texts of lower-case hexadecimal digits:
-- a text that writes the number v gives the id of v modulo 2 ^ 128, and any other text panics.
pub from_base16_value : (s : Bytes) → Reads (numeral base16_digits 16 0 s) (from_base16 wrapping s)
from_base16_value s = elim (Option-cases (numeral base16_digits 16 0 s)) [
  | inl p ↦ rw p ((from_base16_cases s).1 p)
  | inr (v, p) ↦ rw p ((from_base16_cases s).0 v p)
]
