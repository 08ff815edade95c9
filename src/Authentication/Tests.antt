-- ===== src/Authentication/Tests.antt =====
-- A run of the theorem on core/src/authentication.rs at concrete inputs.
use spotify_connect_scrobble.Prelude.{ℕ, ◌≡◌, ◌++◌, length, get_elem?, replicate, returns, arith}
use spotify_connect_scrobble.Prelude.Words.{Bytes}
use spotify_connect_scrobble.Authentication.{decrypted}
use spotify_connect_scrobble.Authentication.Blob.{combined_from, decrypted_lem}

abbrev two_blocks : Bytes
two_blocks = replicate 16 5 ++ replicate 16 3

decrypted_lem_example :
    (out : Bytes) × (decrypted (length two_blocks) two_blocks ≡ returns out)
    × (length out ≡ length two_blocks)
    × ((k : ℕ) → get_elem? out k ≡ combined_from 16 two_blocks k)
decrypted_lem_example = decrypted_lem two_blocks (omega arith)
