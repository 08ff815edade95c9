-- ===== src/Util/Tests.antt =====
-- Runs of the theorems on core/src/util at concrete inputs.
use spotify_connect_scrobble.Prelude.{
  ℕ, ◌+◌, ◌-◌, ◌*◌, ◌<◌, ◌≤◌, ◌⊎◌, ◌%◌, ◌^◌, ◌≡◌, refl, [], ◌∷◌, length, returns, panics, arith,
}
use spotify_connect_scrobble.Prelude.Words.{Bytes, checked, wrapping}
use spotify_connect_scrobble.Crates.Reference.{byte_order}
use spotify_connect_scrobble.Util.Int128.{
  U128, IsU128, value, from_parts, add, mul, rows, row, place, sum_from,
}
use spotify_connect_scrobble.Util.Int128.Add.{add-checked_value}
use spotify_connect_scrobble.Util.Int128.Mul.{mul-wrapping_exact, mul-wrapping_digit}
use spotify_connect_scrobble.Util.Powm.{powm, powm_lem}
use spotify_connect_scrobble.Util.SpotifyId.{
  SpotifyId, codes, base62_digits, from_base62, from_base16, to_base16,
}
use spotify_connect_scrobble.Util.SpotifyId.Parse.{numeral, Reads, from_base62_value}
use spotify_connect_scrobble.Util.SpotifyId.Hex.{from_base16-to_base16}

abbrev most : ℕ
most = 18446744073709551615

abbrev big : U128
big = from_parts 7 most

abbrev little : U128
little = from_parts 0 1000

abbrev track_id : SpotifyId
track_id = record { number = from_parts 81985529216486895 1147797409030816545 }

abbrev raw_bytes : Bytes
raw_bytes =
    1 ∷ 35 ∷ 69 ∷ 103 ∷ 137 ∷ 171 ∷ 205 ∷ 239 ∷ 15 ∷ 237 ∷ 203 ∷ 169 ∷ 135 ∷ 101 ∷ 67 ∷ 33 ∷ []

add-checked_value_example :
    ((most + 1000 < 2 ^ 64)
      × (7 + 0 < 2 ^ 64)
      × (r : U128) × (add checked big little ≡ returns r)
      × IsU128 r
      × (value r ≡ value big + value little))
    ⊎ (((2 ^ 64 ≤ most + 1000) ⊎ (2 ^ 64 ≤ 7 + 0))
        × (add checked big little ≡ panics)
        × (r : U128) × (add wrapping big little ≡ returns r)
        × IsU128 r
        × (value r ≡ (value big + value little) % 2 ^ 128))
add-checked_value_example = add-checked_value big little (omega arith) (omega arith)

big_product : mul wrapping big little ≡ returns (from_parts 7999 (2 ^ 64 - 1000))
unfolding mul rows row place sum_from add
big_product = refl

mul-wrapping_exact_example :
    (r : U128) × (mul wrapping big little ≡ returns r)
    × IsU128 r
    × (value r ≡ value big * value little)
mul-wrapping_exact_example = mul-wrapping_exact big little (omega arith) (omega arith) (omega arith)

mul-wrapping_digit_example :
    (r : U128) × (mul wrapping (from_parts most most) (from_parts 0 62) ≡ returns r)
    × IsU128 r
    × (value r ≡ value (from_parts most most) * 62 % 2 ^ 128)
mul-wrapping_digit_example =
    mul-wrapping_digit (from_parts most most) 62 (omega arith) (omega arith)

from_base62_value_example :
    Reads (numeral base62_digits 62 0 (codes "4pmxlA6")) (from_base62 wrapping (codes "4pmxlA6"))
from_base62_value_example = from_base62_value (codes "4pmxlA6")

from_base16-to_base16_example :
    (s : Bytes) × (to_base16 track_id ≡ returns s)
    × (length s ≡ 32)
    × (from_base16 wrapping s ≡ returns track_id)
from_base16-to_base16_example = from_base16-to_base16 track_id (omega arith)

powm_lem_example : powm 7 45 1000 ≡ returns (7 ^ 45 % 1000)
powm_lem_example = powm_lem 7 45 1000 (omega arith)
