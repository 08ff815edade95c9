-- ===== src/Util.antt =====
-- core/src/util: 128-bit integers, Spotify ids and sequence numbers.
pub mod Int128
pub mod Seq
pub mod Chunks
pub mod Powm
pub mod Clock
pub mod SpotifyId
pub mod Subfile
pub mod Tests
