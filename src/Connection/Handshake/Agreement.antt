-- ===== src/Connection/Handshake/Agreement.antt =====
-- The handshake of core/src/connection/handshake.rs leaves both ends of a connection in step.
use spotify_connect_scrobble.Prelude.{
  ℕ, ◌+◌, ◌-◌, ◌^◌, ◌<◌, ◌≤◌, ◌≡◌, refl, [], ◌∷◌, ◌++◌, length, take, drop, some, leb, true, Run,
  returns, ◌>>=◌, arith, length-append,
}
use spotify_connect_scrobble.Prelude.Words.{Bytes, Overflow, add_word}
use spotify_connect_scrobble.Crates.{ByteOrder}
use spotify_connect_scrobble.DiffieHellman.{BigUint, DhLocalKeys, public_key, shared_secret}
use spotify_connect_scrobble.DiffieHellman.Agreement.{
  drawn, secret_of, secret_of_comm, shared_secret_lem,
}
use spotify_connect_scrobble.Connection.Codec.{Shannon, ApCodec}
use spotify_connect_scrobble.Connection.Codec
use spotify_connect_scrobble.Connection.Codec.RoundTrip.{IsLawful, AreSynced}
use spotify_connect_scrobble.Connection.Handshake.{
  ready, Stream, Messages, Hmac, key_data, compute_keys, client_response, Handshake, hello, answer,
  poll, poll_answer, poll_header, poll_body, on_response,
}
use native.Mathlib.Nat.{mod-eq_of_lt}

-- Five codes of twenty bytes are enough for the keys.
length-key_data : (H : Hmac) (secret packets : Bytes) → length (key_data H 5 1 secret packets) ≡ 100
length-key_data H secret packets = omega (
  arith,
  length-append (H.code secret (packets ++ 1 ∷ [])) (key_data H 4 2 secret packets),
  length-append (H.code secret (packets ++ 2 ∷ [])) (key_data H 3 3 secret packets),
  length-append (H.code secret (packets ++ 3 ∷ [])) (key_data H 2 4 secret packets),
  length-append (H.code secret (packets ++ 4 ∷ [])) (key_data H 1 5 secret packets),
  length-append (H.code secret (packets ++ 5 ∷ [])) (key_data H 0 6 secret packets),
  H.length-code secret (packets ++ 1 ∷ []),
  H.length-code secret (packets ++ 2 ∷ []),
  H.length-code secret (packets ++ 3 ∷ []),
  H.length-code secret (packets ++ 4 ∷ []),
  H.length-code secret (packets ++ 5 ∷ []),
)

-- The challenge and the two keys of a secret.
abbrev pub keys_of : Hmac → Bytes → Bytes → Bytes × Bytes × Bytes
keys_of H secret packets =
    let bytes = key_data H 5 1 secret packets in
    (H.code (take 0x14 bytes) packets, take 0x20 (drop 0x14 bytes), take 0x20 (drop 0x34 bytes))

compute_keys_lem :
    (H : Hmac) (secret packets : Bytes)
    → compute_keys H secret packets ≡ returns (keys_of H secret packets)
unfolding compute_keys
compute_keys_lem H secret packets =
    let enough : leb 0x54 (length (key_data H 5 1 secret packets)) ≡ true =
      ground (arith, length-key_data H secret packets) in
    rw enough refl

client_response_lem :
    ⦃order : ByteOrder⦄ (P : Messages) (mode : Overflow) (challenge : Bytes)
    → 4 + length (P.write_response challenge) < 2 ^ 32
    → client_response P mode challenge
      ≡ returns
          (order.write_u32 (4 + length (P.write_response challenge)) ++ P.write_response challenge)
client_response_lem ⦃order⦄ P mode challenge h = rw (fits mode) refl
  where
    fits :
        (mode : Overflow)
        → add_word mode 32 4 (length (P.write_response challenge))
          ≡ returns (4 + length (P.write_response challenge))
    fits Overflow.checked = ground arith
    fits Overflow.wrapping = rw (mod-eq_of_lt h)

-- The other end: it has the same bytes, and sends with the key that this end receives with.
abbrev pub server_codec :
    ⦃big : BigUint⦄ → (S : Shannon) → Hmac → DhLocalKeys → Bytes → Bytes → Run (ApCodec S)
server_codec S H keys gc packets = do
  secret ← shared_secret keys gc
  (challenge, recv_key, send_key) ← compute_keys H secret packets
  returns (Codec.new S send_key recv_key)

module _ ⦃order : ByteOrder⦄ ⦃big : BigUint⦄ (S : Shannon) (L : IsLawful S) (P : Messages)
    (H : Hmac) (T : Stream) where
  new-AreSynced :
      (one other : Bytes) → AreSynced S L (Codec.new S one other) (Codec.new S other one)
  unfolding Codec.new
  new-AreSynced one other = record { keys = refl; nonces = refl; between = refl }

  -- The handshake of a client whose keys come from the random bytes `a` with a server whose keys come
  -- from `b`. If the stream takes what is written and gives a header that announces the length of a
  -- message of the server with its public key, then one poll ends with a codec, and this codec and
  -- the one that the server computes from the same bytes are in step, in both directions: what
  -- either end encodes, the other can decode.
  pub poll-agrees :
      (mode : Overflow) (a b bytes header body : Bytes) (size : ℕ) (t0 t1 t2 t3 t4 : T.State)
      → T.write_all bytes t0 ≡ (ready tt, t1)
      → T.read_exact 4 t1 ≡ (ready header, t2)
      → order.read_u32 header ≡ returns size
      → 4 ≤ size
      → T.read_exact (size - 4) t2 ≡ (ready body, t3)
      → P.parse_response body ≡ some (public_key (drawn b))
      → ((challenge : Bytes) → 4 + length (P.write_response challenge) < 2 ^ 32)
      → ((reply : Bytes) → T.write_all reply t3 ≡ (ready tt, t4))
      → (codec : ApCodec S) × (h : Handshake S) × (server : ApCodec S) × (poll S P H T mode
            (record { keys = drawn a; state = hello bytes })
            t0
          ≡ returns (ready codec, h, t4))
        × (server_codec S H (drawn b) (public_key (drawn a)) (bytes ++ header ++ body)
            ≡ returns server)
        × AreSynced S L codec server
        × AreSynced S L server codec
  unfolding poll poll_header poll_body on_response poll_answer
  poll-agrees mode a b bytes header body size t0 t1 t2 t3 t4 w r hs hl rb hp fits wr =
      let x : ℕ = big.from_bytes_be a in
      let y : ℕ = big.from_bytes_be b in
      let packets : Bytes = bytes ++ header ++ body in
      let secret : Bytes = secret_of x y in
      let (challenge, send_key, recv_key) = keys_of H secret packets in
      let has_size : leb 4 size ≡ true = ground (arith, hl) in
      (
        Codec.new S send_key recv_key,
        record {
          keys = drawn a;
          state = answer (Codec.new S send_key recv_key) (
              order.write_u32 (4 + length (P.write_response challenge))
              ++ P.write_response challenge);
        },
        Codec.new S recv_key send_key,
        rw
            (
              w,
              r,
              hs,
              has_size,
              rb,
              hp,
              shared_secret_lem a b,
              compute_keys_lem H secret packets,
              client_response_lem P mode challenge (fits challenge),
              wr (
                  order.write_u32 (4 + length (P.write_response challenge))
                  ++ P.write_response challenge),
            )
            refl,
        rw (shared_secret_lem b a, secret_of_comm y x, compute_keys_lem H secret packets) refl,
        new-AreSynced send_key recv_key,
        new-AreSynced recv_key send_key,
      )
