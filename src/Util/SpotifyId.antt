-- ===== src/Util/SpotifyId.antt =====
-- core/src/util/spotify_id.rs: 128-bit ids of tracks, artists and albums, and 160-bit file ids.
-- A string is its bytes.
pub mod Hex
pub mod Parse
pub mod Raw
use spotify_connect_scrobble.Prelude.{
  ℕ, zero, suc, ◌+◌, ◌-◌, ◌*◌, ◌/◌, ◌%◌, ◌^◌, List, [], ◌∷◌, ◌++◌, length, get_elem?, set_elem?,
  replicate, take, drop, Option, none, some, Bool, true, ◌&&◌, Run, returns, ◌>>=◌, ◌>>◌, unwrap,
  assert, ltb, ◌==◌, if◌then◌else◌,
}
use spotify_connect_scrobble.Prelude.Words.{Bytes, Overflow}
use spotify_connect_scrobble.Crates.{ByteOrder}
use spotify_connect_scrobble.Util.Int128.{U128, from_parts, zero128, from_u8, add, mul}
use Prim.Native.Char.{code}
use Prim.Native.String.{String}

pub record SpotifyId : Type 0 where
  pub number : U128

abbrev pub codes : String → Bytes
codes String.[] = []
codes (String.◌∷◌ c s) = code c ∷ codes s

abbrev pub base62_digits : Bytes
base62_digits = codes "0123456789abcdefghijklmnopqrstuvwxyzABCDEFGHIJKLMNOPQRSTUVWXYZ"

abbrev pub base16_digits : Bytes
base16_digits = codes "0123456789abcdef"

abbrev pub is_ascii : Bytes → Bool
is_ascii [] = true
is_ascii (c ∷ cs) = ltb c 128 && is_ascii cs

-- `DIGITS.iter().position(|e| e == c)`
unfoldable pub position : ℕ → Bytes → Option ℕ
position c [] = none
position c (e ∷ es) =
    if e == c then some 0 else elim (position c es) [ none ↦ none | some i ↦ some (suc i) ]

-- The loop of `from_base16` and of `from_base62`.
unfoldable pub read_digits : Overflow → Bytes → ℕ → U128 → Bytes → Run U128
read_digits mode digits base n [] = returns n
read_digits mode digits base n (c ∷ cs) = do
  d ← unwrap (position c digits)
  scaled ← mul mode n (from_u8 base)
  n' ← add mode scaled (from_u8 d)
  read_digits mode digits base n' cs

unfoldable pub from_base16 : Overflow → Bytes → Run SpotifyId
from_base16 mode id = do
  assert (is_ascii id)
  n ← read_digits mode base16_digits 16 zero128 id
  returns (record { number = n })

unfoldable pub from_base62 : Overflow → Bytes → Run SpotifyId
from_base62 mode id = do
  assert (is_ascii id)
  n ← read_digits mode base62_digits 62 zero128 id
  returns (record { number = n })

-- `for i in 0..16 { data[last - i] = BASE16_DIGITS[(word.wrapping_shr(4 * i) & 0xF)] }`, from round
-- `i` on; a shift wraps at 64 bits.
unfoldable pub write_nibbles : ℕ → ℕ → ℕ → ℕ → Bytes → Run Bytes
write_nibbles zero i last word buffer = returns buffer
write_nibbles (suc rounds) i last word buffer = do
  digit ← unwrap (get_elem? base16_digits (word / 2 ^ (4 * i % 64) % 16))
  buffer' ← unwrap (set_elem? buffer (last - i) digit)
  write_nibbles rounds (i + 1) last word buffer'

-- The digits are ASCII, so that the `unwrap` of `from_utf8` returns.
unfoldable pub to_base16 : SpotifyId → Run Bytes
to_base16 id = do
  lower ← write_nibbles 16 0 31 id.number.low (replicate 32 0)
  write_nibbles 16 0 15 id.number.high lower

module _ ⦃order : ByteOrder⦄ where
  unfoldable pub from_raw : Bytes → Run SpotifyId
  from_raw raw = do
    assert (length raw == 16)
    high ← order.read_u64 (take 8 raw)
    low ← order.read_u64 (take 8 (drop 8 raw))
    returns (record { number = from_parts high low })

  unfoldable pub to_raw : SpotifyId → Bytes
  to_raw id = order.write_u64 id.number.high ++ order.write_u64 id.number.low

pub record FileId : Type 0 where
  pub bytes : Bytes

-- `format!("{:02x}", b)`
abbrev pub hex_byte : ℕ → Run Bytes
hex_byte b = do
  first ← unwrap (get_elem? base16_digits (b / 16))
  second ← unwrap (get_elem? base16_digits (b % 16))
  returns (first ∷ second ∷ [])

unfoldable pub hex_bytes : Bytes → Run Bytes
hex_bytes [] = returns []
hex_bytes (b ∷ bs) = do front ← hex_byte b; rest ← hex_bytes bs; returns (front ++ rest)

unfoldable pub file_to_base16 : FileId → Run Bytes
unfolding hex_bytes
file_to_base16 file = hex_bytes file.bytes
