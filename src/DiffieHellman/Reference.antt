-- ===== src/DiffieHellman/Reference.antt =====
-- A plain function for the bytes of a big number, for evaluating core/src/diffie_hellman.rs.
use spotify_connect_scrobble.Prelude.{ℕ, zero, suc, ◌^◌, ◌<◌, refl, arith}
use spotify_connect_scrobble.Prelude.Words.{be_value, be_bytes}
use spotify_connect_scrobble.Prelude.Words.Digits.{be_value-be_bytes}
use spotify_connect_scrobble.DiffieHellman.{BigUint}
use native.Mathlib.Nat.{pow-zero, pow-suc}

pub below_power : (n : ℕ) → n < 256 ^ n
below_power zero = rw (pow-zero 256) (omega arith)
below_power (suc n) = rw (pow-suc 256 n) (omega (arith, below_power n))

instance abbrev pub big_uint : BigUint
big_uint = record {
  from_bytes_be = be_value;
  to_bytes_be = λ n. be_bytes n n;
  from_bytes_be_value = λ bs. refl;
  from_bytes_be-to_bytes_be = λ n. be_value-be_bytes n n (below_power n);
}
