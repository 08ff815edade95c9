-- ===== src/Crates.antt =====
-- The third-party crates that the program calls, as interfaces: the operations that it uses, and
-- what their documentation promises of them. Nothing here is a definition of the crates' code.
pub mod Reference
pub mod Drain
use spotify_connect_scrobble.Prelude.{
  ℕ, ◌+◌, ◌^◌, ◌≤◌, ◌<◌, ◌≡◌, List, ◌++◌, length, All, Run, returns, panics,
}
use spotify_connect_scrobble.Prelude.Words.{Bytes, IsByte, be_value, be_bytes}

-- `byteorder::BigEndian`: a read takes the bytes at the front of a slice, and panics if there are
-- too few; a write gives the bytes of a number in network order.
pub record ByteOrder : Type 0 where
  pub read_u16 : Bytes → Run ℕ
  pub read_u32 : Bytes → Run ℕ
  pub read_u64 : Bytes → Run ℕ
  pub write_u16 : ℕ → Bytes
  pub write_u32 : ℕ → Bytes
  pub write_u64 : ℕ → Bytes
  pub read_u16_be :
      (bs rest : Bytes) → length bs ≡ 2 → read_u16 (bs ++ rest) ≡ returns (be_value bs)
  pub read_u32_be :
      (bs rest : Bytes) → length bs ≡ 4 → read_u32 (bs ++ rest) ≡ returns (be_value bs)
  pub read_u64_be :
      (bs rest : Bytes) → length bs ≡ 8 → read_u64 (bs ++ rest) ≡ returns (be_value bs)
  pub read_u16_short : (bs : Bytes) → length bs < 2 → read_u16 bs ≡ panics
  pub read_u32_short : (bs : Bytes) → length bs < 4 → read_u32 bs ≡ panics
  pub write_u16_be : (v : ℕ) → v < 2 ^ 16 → write_u16 v ≡ be_bytes 2 v
  pub write_u32_be : (v : ℕ) → v < 2 ^ 32 → write_u32 v ≡ be_bytes 4 v
  pub write_u64_be : (v : ℕ) → v < 2 ^ 64 → write_u64 v ≡ be_bytes 8 v

-- `tokio_core::io::EasyBuf`, a byte buffer, here by its bytes: `drain_to n` splits the first `n`
-- bytes off, and panics if there are fewer.
pub record EasyBuf : Type 0 where
  pub drain_to : ℕ → Bytes → Run (Bytes × Bytes)
  pub drain_to_front :
      (front rest : Bytes) → drain_to (length front) (front ++ rest) ≡ returns (front, rest)
  pub drain_to_short : (n : ℕ) (bs : Bytes) → length bs < n → drain_to n bs ≡ panics
