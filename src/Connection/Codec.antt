-- ===== src/Connection/Codec.antt =====
-- core/src/connection/codec.rs: packets behind a header of three bytes, encrypted, with a check sum.
pub mod Resume
pub mod RoundTrip
use spotify_connect_scrobble.Prelude.{
  ℕ, ◌+◌, ◌%◌, ◌^◌, ◌≡◌, ◌≤◌, List, [], ◌∷◌, ◌++◌, length, take, drop, Bool, true, false,
  if◌then◌else◌, leb, Run, returns, panics, ◌>>=◌,
}
use spotify_connect_scrobble.Prelude.Words.{Bytes, Overflow, add_word}
use spotify_connect_scrobble.Crates.{ByteOrder, EasyBuf}

-- The cipher of the `shannon` crate. `encrypt` and `decrypt` work in place and keep a running check
-- sum, `finish` gives the sum in four bytes, and `check_mac` compares it.
pub record Shannon : Type 1 where
  pub Cipher : Type 0
  pub new : Bytes → Cipher
  pub nonce_u32 : ℕ → Cipher → Cipher
  pub encrypt : Bytes → Cipher → Bytes × Cipher
  pub decrypt : Bytes → Cipher → Bytes × Cipher
  pub finish : Cipher → Bytes × Cipher
  pub check_mac : Bytes → Cipher → Bool × Cipher

-- `HEADER_SIZE` and `MAC_SIZE`
abbrev pub header_size : ℕ
header_size = 3

abbrev pub mac_size : ℕ
mac_size = 4

pub data DecodeState : Type 0 where
  in_header : DecodeState
  in_payload : ℕ → ℕ → DecodeState

-- `io::Result<Option<(u8, EasyBuf)>>`
pub data Decoded : Type 0 where
  waits : Decoded
  packet : ℕ → Bytes → Decoded
  bad_mac : Decoded

abbrev pub header_bytes : Bytes → Run (ℕ × Bytes)
header_bytes [] = panics
header_bytes (cmd ∷ size) = returns (cmd, size)

module _ (S : Shannon) where
  pub record ApCodec : Type 0 where
    pub encode_nonce : ℕ
    pub encode_cipher : S.Cipher
    pub decode_nonce : ℕ
    pub decode_cipher : S.Cipher
    pub decode_state : DecodeState

  unfoldable pub new : Bytes → Bytes → ApCodec
  new send_key recv_key = record {
    encode_nonce = 0;
    encode_cipher = S.new send_key;
    decode_nonce = 0;
    decode_cipher = S.new recv_key;
    decode_state = in_header;
  }

  module _ ⦃order : ByteOrder⦄ where
    -- The packet before it is encrypted; `as u16` cuts the length off at 16 bits.
    abbrev pub plain : ℕ → Bytes → Bytes
    plain cmd payload = cmd ∷ (order.write_u16 (length payload % 2 ^ 16) ++ payload)

    -- What is appended to the buffer is encrypted in place, and the check sum put behind it.
    unfoldable pub encode : Overflow → ℕ → Bytes → Bytes → ApCodec → Run (Bytes × ApCodec)
    encode mode cmd payload buf s = do
      encode_nonce ← add_word mode 32 s.encode_nonce 1
      let (text, cipher) =
          S.encrypt (plain cmd payload) (S.nonce_u32 s.encode_nonce s.encode_cipher)
      let (mac, finished) = S.finish cipher
      returns
          (buf ++ (text ++ mac), record s { encode_nonce = encode_nonce; encode_cipher = finished })

    -- A header of three bytes is decrypted under the next nonce.
    unfoldable pub take_header : Overflow → Bytes → ApCodec → Run ApCodec
    take_header mode header s = do
      decode_nonce ← add_word mode 32 s.decode_nonce 1
      let (text, cipher) = S.decrypt header (S.nonce_u32 s.decode_nonce s.decode_cipher)
      (cmd, size_bytes) ← header_bytes text
      size ← order.read_u16 size_bytes
      returns (record s {
        decode_nonce = decode_nonce;
        decode_cipher = cipher;
        decode_state = in_payload cmd size;
      })

    abbrev pub checked : ℕ → Bytes → Bytes → Bool × S.Cipher → ApCodec → Decoded × Bytes × ApCodec
    checked cmd text rest (true, cipher) s =
        (packet cmd text, rest, record s { decode_cipher = cipher })
    checked cmd text rest (false, cipher) s = (bad_mac, rest, record s { decode_cipher = cipher })

    unfoldable pub take_payload : ℕ → ℕ → Bytes → Bytes → ApCodec → Decoded × Bytes × ApCodec
    take_payload cmd size payload rest s =
        let (text, cipher) = S.decrypt (take size payload) s.decode_cipher in
        checked cmd text rest (S.check_mac (drop size payload) cipher)
          (record s { decode_state = in_header })

    module _ ⦃buffer : EasyBuf⦄ where
      unfoldable pub read_header : Overflow → Bytes → ApCodec → Run (Bytes × ApCodec)
      read_header mode buf s = do
        (header, rest) ← buffer.drain_to header_size buf
        s' ← take_header mode header s
        returns (rest, s')

      -- The first `if let` of `decode`.
      abbrev pub decode_header : Overflow → DecodeState → Bytes → ApCodec → Run (Bytes × ApCodec)
      decode_header mode in_header buf s =
          if leb header_size (length buf) then read_header mode buf s else returns (buf, s)
      decode_header mode (in_payload cmd size) buf s = returns (buf, s)

      unfoldable pub read_payload : ℕ → ℕ → Bytes → ApCodec → Run (Decoded × Bytes × ApCodec)
      read_payload cmd size buf s = do
        (payload, rest) ← buffer.drain_to (size + mac_size) buf
        returns (take_payload cmd size payload rest s)

      -- The second one.
      abbrev pub decode_payload : DecodeState → Bytes → ApCodec → Run (Decoded × Bytes × ApCodec)
      decode_payload in_header buf s = returns (waits, buf, s)
      decode_payload (in_payload cmd size) buf s =
          if leb (size + mac_size) (length buf)
          then read_payload cmd size buf s
          else returns (waits, buf, s)

      unfoldable pub decode : Overflow → Bytes → ApCodec → Run (Decoded × Bytes × ApCodec)
      decode mode buf s = do
        (buf', s') ← decode_header mode s.decode_state buf s
        decode_payload s'.decode_state buf' s'
