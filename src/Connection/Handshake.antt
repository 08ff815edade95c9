-- ===== src/Connection/Handshake.antt =====
-- core/src/connection/handshake.rs: the exchange of keys in front of the encrypted packets.
pub mod Agreement
use spotify_connect_scrobble.Prelude.{
  ℕ, zero, suc, ◌+◌, ◌-◌, ◌≡◌, [], ◌∷◌, ◌++◌, length, take, drop, Option, leb, Run, returns, ◌>>=◌,
  ◌>>◌, assert, unwrap,
}
use spotify_connect_scrobble.Prelude.Words.{Bytes, Overflow, add_word}
use spotify_connect_scrobble.Crates.{ByteOrder}
use spotify_connect_scrobble.DiffieHellman.{
  BigUint, Rng, rand_vec, DhLocalKeys, random, public_key, shared_secret,
}
use spotify_connect_scrobble.Connection.Codec.{Shannon, ApCodec}
use spotify_connect_scrobble.Connection.Codec

-- `Poll<A, io::Error>`
pub data IoPoll (A : Type 0) : Type 0 where
  ready : A → IoPoll A
  not_ready io_error : IoPoll A

-- The stream under the connection with tokio's `write_all` and `read_exact` on it: what polling them
-- gives, and the stream after it, which also remembers how far they have come.
pub record Stream : Type 1 where
  pub State : Type 0
  pub write_all : Bytes → State → IoPoll (Unit {0}) × State
  pub read_exact : ℕ → State → IoPoll Bytes × State

-- The generated messages: `ClientHello` of a public key and a nonce, the server's public key in an
-- `APResponseMessage`, and `ClientResponsePlaintext` of a challenge.
pub record Messages : Type 0 where
  pub write_hello : Bytes → Bytes → Bytes
  pub parse_response : Bytes → Option Bytes
  pub write_response : Bytes → Bytes

-- `Hmac` with `Sha1`, of a key and a text.
pub record Hmac : Type 0 where
  pub code : Bytes → Bytes → Bytes
  pub length-code : (key text : Bytes) → length (code key text) ≡ 20

module _ (H : Hmac) where
  -- The loop `for i in 1..6`, with the rounds that are left.
  abbrev pub key_data : ℕ → ℕ → Bytes → Bytes → Bytes
  key_data zero i secret packets = []
  key_data (suc rounds) i secret packets =
      H.code secret (packets ++ i ∷ []) ++ key_data rounds (i + 1) secret packets

  -- The challenge, the key to send with and the key to receive with.
  unfoldable pub compute_keys : Bytes → Bytes → Run (Bytes × Bytes × Bytes)
  compute_keys secret packets =
      let bytes = key_data 5 1 secret packets in
      assert (leb 0x54 (length bytes))
      >> returns (
        H.code (take 0x14 bytes) packets,
        take 0x20 (drop 0x14 bytes),
        take 0x20 (drop 0x34 bytes),
      )

module _ ⦃order : ByteOrder⦄ (P : Messages) where
  -- The bytes that are sent; the size in front counts everything.
  abbrev pub client_hello : Overflow → Bytes → Bytes → Run Bytes
  client_hello mode gc nonce = do
    let packet = P.write_hello gc nonce
    size ← add_word mode 32 6 (length packet)
    returns (0 ∷ 4 ∷ (order.write_u32 size ++ packet))

  abbrev pub client_response : Overflow → Bytes → Run Bytes
  client_response mode challenge = do
    let packet = P.write_response challenge
    size ← add_word mode 32 4 (length packet)
    returns (order.write_u32 size ++ packet)

-- The states, with what was sent and received before: a write of bytes, the two parts of
-- `RecvPacket`, and the write of the response.
module _ (S : Shannon) where
  pub data HandshakeState : Type 0 where
    hello : Bytes → HandshakeState
    response_header : Bytes → HandshakeState
    response_body : ℕ → Bytes → HandshakeState
    answer : ApCodec S → Bytes → HandshakeState

  pub record Handshake : Type 0 where
    pub keys : DhLocalKeys
    pub state : HandshakeState

  module _ ⦃order : ByteOrder⦄ ⦃big : BigUint⦄ (P : Messages) (H : Hmac) (T : Stream)
      (mode : Overflow) where
    -- `handshake`: new keys, and a nonce from the same generator.
    unfoldable pub handshake : (G : Rng) → G.State → Run (Handshake × G.State)
    handshake G s = do
      (local_keys, s1) ← random G s
      let (nonce, s2) = rand_vec G 0x10 s1
      bytes ← client_hello P mode (public_key local_keys) nonce
      returns (record { keys = local_keys; state = hello bytes }, s2)

    abbrev pub Outcome : Type 0
    Outcome = IoPoll (ApCodec S) × Handshake × T.State

    abbrev pub response_sent :
        DhLocalKeys → ApCodec S → Bytes → IoPoll (Unit {0}) × T.State → Run Outcome
    response_sent keys codec bytes (ready u, t) =
        returns (ready codec, record { keys = keys; state = answer codec bytes }, t)
    response_sent keys codec bytes (not_ready, t) =
        returns (not_ready, record { keys = keys; state = answer codec bytes }, t)
    response_sent keys codec bytes (io_error, t) =
        returns (io_error, record { keys = keys; state = answer codec bytes }, t)

    -- The last branch of `poll`; the codec is taken out once, at the end.
    unfoldable pub poll_answer : DhLocalKeys → ApCodec S → Bytes → T.State → Run Outcome
    poll_answer keys codec bytes t = response_sent keys codec bytes (T.write_all bytes t)

    -- What the server's message leads to: `packets` is all that was sent and received.
    unfoldable pub on_response : DhLocalKeys → Bytes → Bytes → T.State → Run Outcome
    on_response keys message packets t = do
      remote_key ← unwrap (P.parse_response message)
      secret ← shared_secret keys remote_key
      (challenge, send_key, recv_key) ← compute_keys H secret packets
      bytes ← client_response P mode challenge
      poll_answer keys (Codec.new S send_key recv_key) bytes t

    abbrev pub body_read : DhLocalKeys → ℕ → Bytes → IoPoll Bytes × T.State → Run Outcome
    body_read keys size acc (ready body, t) = on_response keys body (acc ++ body) t
    body_read keys size acc (not_ready, t) =
        returns (not_ready, record { keys = keys; state = response_body size acc }, t)
    body_read keys size acc (io_error, t) =
        returns (io_error, record { keys = keys; state = response_body size acc }, t)

    unfoldable pub poll_body : DhLocalKeys → ℕ → Bytes → T.State → Run Outcome
    poll_body keys size acc t = body_read keys size acc (T.read_exact size t)

    -- A size below that of the header itself panics: `size - 4` overflows, or the window starts
    -- behind the end of its bytes.
    abbrev pub header_read : DhLocalKeys → Bytes → IoPoll Bytes × T.State → Run Outcome
    header_read keys acc (ready header, t) = do
      size ← order.read_u32 header
      assert (leb 4 size)
      poll_body keys (size - 4) (acc ++ header) t
    header_read keys acc (not_ready, t) =
        returns (not_ready, record { keys = keys; state = response_header acc }, t)
    header_read keys acc (io_error, t) =
        returns (io_error, record { keys = keys; state = response_header acc }, t)

    unfoldable pub poll_header : DhLocalKeys → Bytes → T.State → Run Outcome
    poll_header keys acc t = header_read keys acc (T.read_exact 4 t)

    -- `write_all` gives its bytes back, and they start what is collected.
    abbrev pub hello_sent : DhLocalKeys → Bytes → IoPoll (Unit {0}) × T.State → Run Outcome
    hello_sent keys bytes (ready u, t) = poll_header keys bytes t
    hello_sent keys bytes (not_ready, t) =
        returns (not_ready, record { keys = keys; state = hello bytes }, t)
    hello_sent keys bytes (io_error, t) =
        returns (io_error, record { keys = keys; state = hello bytes }, t)

    abbrev pub poll_from : DhLocalKeys → HandshakeState → T.State → Run Outcome
    poll_from keys (hello bytes) t = hello_sent keys bytes (T.write_all bytes t)
    poll_from keys (response_header acc) t = poll_header keys acc t
    poll_from keys (response_body size acc) t = poll_body keys size acc t
    poll_from keys (answer codec bytes) t = poll_answer keys codec bytes t

    unfoldable pub poll : Handshake → T.State → Run Outcome
    poll h t = poll_from h.keys h.state t
