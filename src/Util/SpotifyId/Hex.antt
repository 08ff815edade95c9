-- ===== src/Util/SpotifyId/Hex.antt =====
-- The base-16 text of an id (core/src/util/spotify_id.rs): it reads back, and it is the text of the
-- raw bytes.
use spotify_connect_scrobble.Prelude.{
  ℕ, zero, suc, ◌+◌, ◌-◌, ◌*◌, ◌/◌, ◌%◌, ◌^◌, ◌<◌, ◌≡◌, refl, sym, ap, ap₂, ◌∙◌, List, [], ◌∷◌,
  ◌++◌, length, All, map, get_elem?, get_elem?-lt, set_elem?-set, length-set, set, replicate,
  Option, none, some, Bool, true, false, ◌==◌, ==_iff, all_below, all_below_sound, returns, arith,
}
use spotify_connect_scrobble.Prelude.Words.{
  Bytes, IsByte, wrapping, be_bytes, digits_of, number_from,
}
use spotify_connect_scrobble.Prelude.Words.Digits.{number_from-digits_of, number_from-append}
use native.Mathlib.Nat.{pow-suc, div-div-eq-div-mul}
use spotify_connect_scrobble.Crates.{ByteOrder}
use spotify_connect_scrobble.Util.Int128.{U128, IsU128, value, from_parts}
use spotify_connect_scrobble.Util.SpotifyId.{
  SpotifyId, base16_digits, position, write_nibbles, to_base16, from_base16, to_raw, hex_bytes,
  file_to_base16,
}
use spotify_connect_scrobble.Util.SpotifyId.Parse.{numeral, from_base16_value}
use spotify_connect_scrobble.Util.SpotifyId.Raw.{to_raw-be_bytes}

-- The character of a digit.
hex_digit : ℕ → ℕ
hex_digit d = elim (get_elem? base16_digits d) [ none ↦ 0 | some c ↦ c ]

get_elem?-hex_digit : (d : ℕ) → d < 16 → get_elem? base16_digits d ≡ some (hex_digit d)
unfolding hex_digit
get_elem?-hex_digit d h = let in_range = get_elem?-lt base16_digits d h in ground (arith, in_range)

abbrev holds : Option ℕ → ℕ → Bool
holds none d = false
holds (some e) d = e == d

eq_of_holds : (o : Option ℕ) (d : ℕ) → holds o d ≡ true → o ≡ some d
eq_of_holds none d h = cc
eq_of_holds (some e) d h = ap some ((==_iff e d).0 h)

digit_table : all_below (λ d. holds (position (hex_digit d) base16_digits) d) 16 ≡ true
unfolding all_below hex_digit position
digit_table = refl

position-hex_digit : (d : ℕ) → d < 16 → position (hex_digit d) base16_digits ≡ some d
position-hex_digit d h = eq_of_holds _ d (all_below_sound d _ 16 h digit_table)

-- The text of a list of digits writes their number.
numeral-hex_digits :
    (acc : ℕ) (ds : List ℕ)
    → All (λ d. d < 16) ds
    → numeral base16_digits 16 acc (map hex_digit ds) ≡ some (number_from 16 acc ds)
unfolding numeral
numeral-hex_digits acc [] h = refl
numeral-hex_digits acc (d ∷ ds) h =
    rw (numeral, position-hex_digit d h.0) (numeral-hex_digits (acc * 16 + d) ds h.1)

-- What the loop of `to_base16` leaves in the buffer.
written : ℕ → ℕ → ℕ → ℕ → Bytes → Bytes
written zero i last word buffer = buffer
written (suc rounds) i last word buffer =
    written rounds (i + 1) last word
      (set buffer (last - i) (hex_digit (word / 2 ^ (4 * i % 64) % 16)))

write_nibbles-written :
    (rounds i last word : ℕ) (buffer : Bytes)
    → last < length buffer
    → write_nibbles rounds i last word buffer ≡ returns (written rounds i last word buffer)
unfolding write_nibbles written
write_nibbles-written zero i last word buffer h = refl
write_nibbles-written (suc rounds) i last word buffer h =
    let nibble = word / 2 ^ (4 * i % 64) % 16 in
    rw
      (
        get_elem?-hex_digit nibble (omega arith),
        set_elem?-set buffer (last - i) (hex_digit nibble) (omega arith),
      )
      (write_nibbles-written rounds (i + 1) last word (set buffer (last - i) (hex_digit nibble))
        (omega (arith, length-set buffer (last - i) (hex_digit nibble))))

-- The digits of an id, most significant first.
abbrev id_digits : SpotifyId → List ℕ
id_digits id = digits_of 16 16 id.number.high ++ digits_of 16 16 id.number.low

to_base16_digits : (id : SpotifyId) → to_base16 id ≡ returns (map hex_digit (id_digits id))
unfolding to_base16 written
to_base16_digits id =
    let lower = written 16 0 31 id.number.low (replicate 32 0) in
    rw
      (
        write_nibbles-written 16 0 31 id.number.low (replicate 32 0) (omega arith),
        write_nibbles-written 16 0 15 id.number.high lower (omega arith),
      )
      refl

id_digits-lt : (id : SpotifyId) → All (λ d. d < 16) (id_digits id)
id_digits-lt id = omega arith

number_from-id_digits :
    (id : SpotifyId) → IsU128 id.number → number_from 16 0 (id_digits id) ≡ value id.number
number_from-id_digits id h =
    number_from-append 16 0 (digits_of 16 16 id.number.high) (digits_of 16 16 id.number.low)
    ∙ number_from-digits_of 16 16 _ id.number.low
    ∙ omega (arith, number_from-digits_of 16 16 0 id.number.high, h.high_fits, h.low_fits)

eq_of_value : (a b : U128) → IsU128 a → IsU128 b → value a ≡ value b → a ≡ b
eq_of_value a b h k e = omega_halves
  where
    high : a.high ≡ b.high
    high = omega (arith, h.low_fits, k.low_fits, e)

    low : a.low ≡ b.low
    low = omega (arith, high, e)

    omega_halves : a ≡ b
    omega_halves = ap₂ from_parts high low

-- The text of an id in range has 32 characters, and in a release build it is read back as the id.
pub from_base16-to_base16 :
    (id : SpotifyId)
    → IsU128 id.number
    → (s : Bytes) × (to_base16 id ≡ returns s)
      × (length s ≡ 32)
      × (from_base16 wrapping s ≡ returns id)
from_base16-to_base16 id h =
    let s = map hex_digit (id_digits id) in
    let written_number : numeral base16_digits 16 0 s ≡ some (value id.number) =
      numeral-hex_digits 0 (id_digits id) (id_digits-lt id)
      ∙ ap some (number_from-id_digits id h) in
    let (r, read, fits, total) = rw written_number at (from_base16_value s) in
    let same = eq_of_value r.number id.number fits h (omega (arith, h.high_fits, h.low_fits)) in
    (s, to_base16_digits id, refl, read ∙ ap (λ n. returns (record { number = n })) same)

nibbles : Bytes → List ℕ
nibbles [] = []
nibbles (b ∷ bs) = (b / 16) ∷ (b % 16) ∷ nibbles bs

hex_bytes-nibbles :
    (bs : Bytes) → All IsByte bs → hex_bytes bs ≡ returns (map hex_digit (nibbles bs))
unfolding hex_bytes nibbles
hex_bytes-nibbles [] h = refl
hex_bytes-nibbles (b ∷ bs) h = rw (
  get_elem?-hex_digit (b / 16) (omega (arith, h.0)),
  get_elem?-hex_digit (b % 16) (omega arith),
  hex_bytes-nibbles bs h.1,
)

double : ℕ → ℕ
double zero = zero
double (suc w) = suc (suc (double w))

pow-double : (w : ℕ) → 16 ^ double w ≡ 256 ^ w
unfolding double
pow-double zero = refl
pow-double (suc w) =
    omega (arith, pow-suc 16 (suc (double w)), pow-suc 16 (double w), pow-suc 256 w, pow-double w)

top_nibble : (w v : ℕ) → v / 256 ^ w % 256 / 16 ≡ v / 16 ^ suc (double w) % 16
top_nibble w v = rw (pow-suc 16 (double w), ← div-div-eq-div-mul, pow-double w) (omega arith)

low_nibble : (w v : ℕ) → v / 256 ^ w % 256 % 16 ≡ v / 16 ^ double w % 16
low_nibble w v = rw (pow-double w) (omega arith)

nibbles-digits_of : (w v : ℕ) → nibbles (digits_of 256 w v) ≡ digits_of 16 (double w) v
unfolding nibbles double
nibbles-digits_of zero v = refl
nibbles-digits_of (suc w) v =
    ap₂ ◌∷◌ (top_nibble w v) (ap₂ ◌∷◌ (low_nibble w v) (nibbles-digits_of w v))

-- The text of an id is the text that a file id of the same raw bytes has.
pub to_base16-to_raw :
    ⦃order : ByteOrder⦄
    → (id : SpotifyId) → IsU128 id.number
    → to_base16 id ≡ file_to_base16 (record { bytes = to_raw id })
unfolding file_to_base16 nibbles double
to_base16-to_raw id h =
    let raw = be_bytes 8 id.number.high ++ be_bytes 8 id.number.low in
    to_base16_digits id
    ∙ ap (λ ds. returns (map hex_digit ds))
        (sym (ap₂ ◌++◌ (nibbles-digits_of 8 id.number.high) (nibbles-digits_of 8 id.number.low)))
    ∙ sym (hex_bytes-nibbles raw (omega arith))
    ∙ ap hex_bytes (sym (to_raw-be_bytes id h))
