-- ===== src/Authentication.antt =====
-- core/src/authentication.rs: the credentials of a user. Strings are their bytes.
pub mod Types
pub mod Json
pub mod Blob
pub mod Tests
use spotify_connect_scrobble.Prelude.{
  ℕ, zero, suc, ◌+◌, ◌-◌, ◌*◌, ◌%◌, ◌^◌, List, [], ◌∷◌, ◌++◌, length, take, drop, get_elem?,
  set_elem?, Option, none, some, Run, returns, ◌>>=◌, ◌>>◌, assert, unwrap, leb, ◌==◌,
  if◌then◌else◌,
}
use spotify_connect_scrobble.Prelude.Words.{Bytes}
use spotify_connect_scrobble.Prelude.Eq.{bytes_beq}
use spotify_connect_scrobble.Crates.{ByteOrder}
use spotify_connect_scrobble.Prelude.Int.{as_i32}
use Types.{AuthenticationType, authentication_user_pass, from_i32}
use Prim.Native.Nat.{bit_and, bit_or, bit_xor}

-- The crates `base64` and `crypto`: SHA-1, PBKDF2 over HMAC-SHA-1 with its number of rounds and of
-- bytes, and AES-192 in the mode ECB without padding, which fails on half blocks.
pub record Crypto : Type 0 where
  pub base64_decode : Bytes → Option Bytes
  pub sha1 : Bytes → Bytes
  pub pbkdf2 : Bytes → Bytes → ℕ → ℕ → Bytes
  pub aes_ecb_decrypt : Bytes → Bytes → Option Bytes

pub record Credentials : Type 0 where
  pub username : Bytes
  pub auth_type : AuthenticationType
  pub auth_data : Bytes

abbrev pub with_password : Bytes → Bytes → Credentials
with_password username password = record {
  username = username;
  auth_type = authentication_user_pass;
  auth_data = password;
}

-- The readers of `with_blob` over what the cursor has left; `none` is an error of `read_exact`.
abbrev pub read_u8 : Bytes → Option (ℕ × Bytes)
read_u8 [] = none
read_u8 (b ∷ bs) = some (b, bs)

-- `lo & 0x7f | hi << 7`
abbrev pub second_byte : ℕ → Option (ℕ × Bytes) → Option (ℕ × Bytes)
second_byte lo none = none
second_byte lo (some (hi, rest)) = some (bit_or (bit_and lo 0x7f) (hi * 2 ^ 7 % 2 ^ 32), rest)

abbrev pub first_byte : Option (ℕ × Bytes) → Option (ℕ × Bytes)
first_byte none = none
first_byte (some (lo, rest)) =
    if bit_and lo 0x80 == 0 then some (lo, rest) else second_byte lo (read_u8 rest)

unfoldable pub read_int : Bytes → Option (ℕ × Bytes)
read_int bs = first_byte (read_u8 bs)

abbrev pub read_exact : ℕ → Bytes → Option (Bytes × Bytes)
read_exact n bs = if leb n (length bs) then some (take n bs, drop n bs) else none

abbrev pub sized : Option (ℕ × Bytes) → Option (Bytes × Bytes)
sized none = none
sized (some (n, rest)) = read_exact n rest

unfoldable pub read_bytes : Bytes → Option (Bytes × Bytes)
read_bytes bs = sized (read_int bs)

-- `for i in 0..l - 0x10 { data[l - i - 1] ^= data[l - i - 0x11] }`, from round `i` on.
unfoldable pub unchain : ℕ → ℕ → ℕ → Bytes → Run Bytes
unchain zero i l bytes = returns bytes
unchain (suc rounds) i l bytes = do
  x ← unwrap (get_elem? bytes (l - i - 1))
  y ← unwrap (get_elem? bytes (l - i - 0x11))
  bytes' ← unwrap (set_elem? bytes (l - i - 1) (bit_xor x y))
  unchain rounds (i + 1) l bytes'

-- Below sixteen bytes `l - 0x10` overflows, or the first index does: the loop panics in both
-- build profiles.
unfoldable pub decrypted : ℕ → Bytes → Run Bytes
decrypted l bytes = assert (leb 0x10 l) >> unchain (l - 0x10) 0 l bytes

module _ ⦃order : ByteOrder⦄ (C : Crypto) where
  -- The key is the hash of twenty derived bytes, with their number behind it.
  unfoldable pub blob_key : Bytes → Bytes → Bytes
  blob_key username device_id =
      C.sha1 (C.pbkdf2 (C.sha1 device_id) username 0x100 20) ++ order.write_u32 20

  unfoldable pub parse_blob : Bytes → Bytes → Run Credentials
  parse_blob username blob = do
    (skipped, rest1) ← unwrap (read_u8 blob)
    (name, rest2) ← unwrap (read_bytes rest1)
    (mark, rest3) ← unwrap (read_u8 rest2)
    (number, rest4) ← unwrap (read_int rest3)
    auth_type ← unwrap (from_i32 (as_i32 number))
    (mark2, rest5) ← unwrap (read_u8 rest4)
    (auth_data, rest6) ← unwrap (read_bytes rest5)
    returns (record { username = username; auth_type = auth_type; auth_data = auth_data })

  unfoldable pub with_blob : Bytes → Bytes → Bytes → Run Credentials
  with_blob username encrypted_blob device_id = do
    encrypted ← unwrap (C.base64_decode encrypted_blob)
    bytes ← unwrap (C.aes_ecb_decrypt (blob_key username device_id) encrypted)
    blob ← decrypted (length encrypted) bytes
    parse_blob username blob

-- `get_credentials`, with what the user would type at the prompt, if the terminal gives it.
unfoldable pub ask_password : Bytes → Option Bytes → Run (Option Credentials)
ask_password username typed = do
  password ← unwrap typed
  returns (some (with_password username password))

unfoldable pub get_credentials :
    Option Bytes → Option Bytes → Option Credentials → Option Bytes → Run (Option Credentials)
get_credentials (some username) (some password) cached typed =
    returns (some (with_password username password))
get_credentials (some username) none (some credentials) typed =
    let asked = ask_password username typed in
    if bytes_beq username credentials.username then returns (some credentials) else asked
get_credentials (some username) none none typed = ask_password username typed
get_credentials none password (some credentials) typed = returns (some credentials)
get_credentials none password none typed = returns none
