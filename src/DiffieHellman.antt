-- ===== src/DiffieHellman.antt =====
-- core/src/diffie_hellman.rs, with `rand_vec` of core/src/util/mod.rs: the exchange of keys.
pub mod Agreement
pub mod Reference
pub mod Tests
use spotify_connect_scrobble.Prelude.{ℕ, zero, suc, ◌≡◌, ◌<◌, List, [], ◌∷◌, Run, returns, ◌>>=◌}
use spotify_connect_scrobble.Prelude.Words.{Bytes, be_value}
use spotify_connect_scrobble.Util.Powm.{powm}

-- `num_bigint::BigUint`, a natural number here: its reading and writing of big-endian bytes.
pub record BigUint : Type 0 where
  pub from_bytes_be : Bytes → ℕ
  pub to_bytes_be : ℕ → Bytes
  pub from_bytes_be_value : (bs : Bytes) → from_bytes_be bs ≡ be_value bs
  pub from_bytes_be-to_bytes_be : (n : ℕ) → from_bytes_be (to_bytes_be n) ≡ n

-- `rand::Rng` at bytes: a draw and the generator after it.
pub record Rng : Type 1 where
  pub State : Type 0
  pub gen : State → ℕ × State

unfoldable pub rand_vec : (G : Rng) → ℕ → G.State → Bytes × G.State
rand_vec G zero s = ([], s)
rand_vec G (suc size) s = let (b, s1) = G.gen s in let (bs, s2) = rand_vec G size s1 in (b ∷ bs, s2)

abbrev pub dh_generator : ℕ
dh_generator = 2

abbrev pub prime_bytes : Bytes
prime_bytes =
    255 ∷ 255 ∷ 255 ∷ 255 ∷ 255 ∷ 255 ∷ 255 ∷ 255 ∷ 201 ∷ 15 ∷ 218 ∷ 162 ∷ 33 ∷ 104 ∷ 194 ∷ 52 ∷ 196
    ∷ 198 ∷ 98 ∷ 139 ∷ 128 ∷ 220 ∷ 28 ∷ 209 ∷ 41 ∷ 2 ∷ 78 ∷ 8 ∷ 138 ∷ 103 ∷ 204 ∷ 116 ∷ 2 ∷ 11 ∷ 190
    ∷ 166 ∷ 59 ∷ 19 ∷ 155 ∷ 34 ∷ 81 ∷ 74 ∷ 8 ∷ 121 ∷ 142 ∷ 52 ∷ 4 ∷ 221 ∷ 239 ∷ 149 ∷ 25 ∷ 179 ∷ 205
    ∷ 58 ∷ 67 ∷ 27 ∷ 48 ∷ 43 ∷ 10 ∷ 109 ∷ 242 ∷ 95 ∷ 20 ∷ 55 ∷ 79 ∷ 225 ∷ 53 ∷ 109 ∷ 109 ∷ 81 ∷ 194
    ∷ 69 ∷ 228 ∷ 133 ∷ 181 ∷ 118 ∷ 98 ∷ 94 ∷ 126 ∷ 198 ∷ 244 ∷ 76 ∷ 66 ∷ 233 ∷ 166 ∷ 58 ∷ 54 ∷ 32
    ∷ 255 ∷ 255 ∷ 255 ∷ 255 ∷ 255 ∷ 255 ∷ 255 ∷ 255 ∷ []

pub record DhLocalKeys : Type 0 where
  pub private_key : ℕ
  pub public_key : ℕ

module _ ⦃big : BigUint⦄ where
  unfoldable pub dh_prime : ℕ
  dh_prime = big.from_bytes_be prime_bytes

  abbrev pub keys_from : Bytes → Run DhLocalKeys
  keys_from key_data = do
    let private_key = big.from_bytes_be key_data
    public_key ← powm dh_generator private_key dh_prime
    returns (record { private_key = private_key; public_key = public_key })

  unfoldable pub random : (G : Rng) → G.State → Run (DhLocalKeys × G.State)
  random G s = do
    let (key_data, s') = rand_vec G 95 s
    keys ← keys_from key_data
    returns (keys, s')

  abbrev pub public_key : DhLocalKeys → Bytes
  public_key keys = big.to_bytes_be keys.public_key

  unfoldable pub shared_secret : DhLocalKeys → Bytes → Run Bytes
  shared_secret keys remote_key = do
    shared_key ← powm (big.from_bytes_be remote_key) keys.private_key dh_prime
    returns (big.to_bytes_be shared_key)
