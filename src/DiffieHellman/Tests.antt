-- ===== src/DiffieHellman/Tests.antt =====
-- A run of the theorem on core/src/diffie_hellman.rs with counting generators.
use spotify_connect_scrobble.Prelude.{ℕ, ◌+◌, ◌%◌, ◌≡◌, returns}
use spotify_connect_scrobble.Prelude.Words.{Bytes}
use spotify_connect_scrobble.DiffieHellman.{Rng}
use spotify_connect_scrobble.DiffieHellman.Reference.{big_uint}
use spotify_connect_scrobble.DiffieHellman.Agreement.{exchange, exchange-agrees}

-- The generator that counts up in steps of some size.
abbrev counter : ℕ → Rng
counter step = record { State = ℕ; gen = λ s. (s % 256, s + step) }

exchange-agrees_example :
    (secret : Bytes) × (exchange (counter 1) (counter 7) 3 5 ≡ returns secret)
    × (exchange (counter 7) (counter 1) 5 3 ≡ returns secret)
exchange-agrees_example = exchange-agrees (counter 1) (counter 7) 3 5
