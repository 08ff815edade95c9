-- ===== src/Connection.antt =====
-- core/src/connection: the encrypted connection to the access point.
pub mod Authenticate
pub mod Codec
pub mod Handshake
pub mod Shift
pub mod Tests
