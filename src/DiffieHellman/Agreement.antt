-- ===== src/DiffieHellman/Agreement.antt =====
-- The keys of core/src/diffie_hellman.rs give both sides of an exchange the same secret.
use spotify_connect_scrobble.Prelude.{
  ℕ, ◌^◌, ◌%◌, ◌≡◌, ◌<◌, refl, ap, ◌∙◌, ltb→lt, Run, returns, ◌>>=◌,
}
use spotify_connect_scrobble.Prelude.Modular.{pow_congr, pow_pow_comm}
use spotify_connect_scrobble.Prelude.Words.{Bytes, be_value}
use spotify_connect_scrobble.Util.Powm.{powm_lem}
use spotify_connect_scrobble.DiffieHellman.{
  BigUint, Rng, rand_vec, dh_generator, prime_bytes, DhLocalKeys, dh_prime, random, public_key,
  shared_secret,
}
use native.Mathlib.Nat.{mod-mod}

prime-above_one : 1 < be_value prime_bytes
prime-above_one = ltb→lt 1 (be_value prime_bytes) refl

module _ ⦃big : BigUint⦄ where
  dh_prime-above_one : 1 < dh_prime
  unfolding dh_prime
  dh_prime-above_one = rw (big.from_bytes_be_value prime_bytes) prime-above_one

  -- The keys that some random bytes give.
  abbrev pub drawn : Bytes → DhLocalKeys
  drawn key_data = record {
    private_key = big.from_bytes_be key_data;
    public_key = dh_generator ^ big.from_bytes_be key_data % dh_prime;
  }

  pub random_lem :
      (G : Rng) (s : G.State)
      → random G s ≡ returns (drawn (rand_vec G 95 s).0, (rand_vec G 95 s).1)
  unfolding random
  random_lem G s =
      rw (powm_lem dh_generator (big.from_bytes_be (rand_vec G 95 s).0) dh_prime dh_prime-above_one)

  -- The secret of two drawn keys is the generator to the product of the private keys.
  abbrev pub secret_of : ℕ → ℕ → Bytes
  secret_of a b = big.to_bytes_be ((dh_generator ^ b) ^ a % dh_prime)

  pub shared_secret_lem :
      (a b : Bytes)
      → shared_secret (drawn a) (public_key (drawn b))
        ≡ returns (secret_of (big.from_bytes_be a) (big.from_bytes_be b))
  unfolding shared_secret
  shared_secret_lem a b =
      let x : ℕ = big.from_bytes_be a in
      let y : ℕ = big.from_bytes_be b in
      rw
        (
          big.from_bytes_be-to_bytes_be (dh_generator ^ y % dh_prime),
          powm_lem (dh_generator ^ y % dh_prime) x dh_prime dh_prime-above_one,
        )
        (ap (λ (t : ℕ). returns (big.to_bytes_be t))
          (pow_congr dh_prime (dh_generator ^ y % dh_prime) (dh_generator ^ y) x
            (mod-mod (dh_generator ^ y) dh_prime)))

  pub secret_of_comm : (a b : ℕ) → secret_of a b ≡ secret_of b a
  secret_of_comm a b =
      ap (λ (t : ℕ). big.to_bytes_be (t % dh_prime)) (pow_pow_comm dh_generator b a)

  -- What one side does: it draws its keys, and takes the public key of the other side, which
  -- draws from another generator.
  abbrev pub exchange : (G H : Rng) → G.State → H.State → Run Bytes
  exchange G H s t = do
    (mine, _) ← random G s
    (theirs, _) ← random H t
    shared_secret mine (public_key theirs)

  exchange_lem :
      (G H : Rng) (s : G.State) (t : H.State)
      → exchange G H s t
        ≡ returns (
            secret_of
              (big.from_bytes_be (rand_vec G 95 s).0)
              (big.from_bytes_be (rand_vec H 95 t).0))
  exchange_lem G H s t =
      rw (random_lem G s, random_lem H t)
        (shared_secret_lem (rand_vec G 95 s).0 (rand_vec H 95 t).0)

  -- Two sides that draw their keys from any generators both compute a secret without a panic,
  -- and it is the same secret.
  pub exchange-agrees :
      (G H : Rng) (s : G.State) (t : H.State)
      → (secret : Bytes) × (exchange G H s t ≡ returns secret) × (exchange H G t s ≡ returns secret)
  exchange-agrees G H s t =
      let x : ℕ = big.from_bytes_be (rand_vec G 95 s).0 in
      let y : ℕ = big.from_bytes_be (rand_vec H 95 t).0 in
      (secret_of x y, exchange_lem G H s t, exchange_lem H G t s ∙ ap returns (secret_of_comm y x))
