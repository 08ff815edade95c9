-- ===== src/Connection/Codec/RoundTrip.antt =====
-- What one side of core/src/connection/codec.rs encodes, the other decodes.
use spotify_connect_scrobble.Prelude.{
  ℕ, ◌+◌, ◌^◌, ◌≡◌, ◌<◌, refl, sym, ap, ◌∙◌, subst, [], ◌∷◌, ◌++◌, length, take, drop, Bool, true,
  false, leb, returns, arith, append_assoc, length-append, take-length-append, drop-length-append,
}
use spotify_connect_scrobble.Prelude.Words.{Bytes, Overflow, add_word, be_bytes}
use spotify_connect_scrobble.Prelude.Words.Digits.{be_value-be_bytes}
use spotify_connect_scrobble.Crates.{ByteOrder, EasyBuf}
use spotify_connect_scrobble.Connection.Codec.{
  Shannon, ApCodec, in_header, in_payload, packet, header_size, mac_size, checked, take_header,
  take_payload, encode, read_header, read_payload, decode,
}
use native.Mathlib.Nat.{mod-eq_of_lt}

-- The documented behaviour of the cipher: its state depends on the key and on the nonce, and on what
-- went through it since; decryption undoes encryption from the same state and ends in the same state;
-- text may come in pieces; a check sum that was finished in a state is accepted in that state.
pub record IsLawful (S : Shannon) : Type 0 where
  pub key : S.Cipher → Bytes
  pub key-nonce_u32 : (n : ℕ) (c : S.Cipher) → key (S.nonce_u32 n c) ≡ key c
  pub key-encrypt : (text : Bytes) (c : S.Cipher) → key (S.encrypt text c).1 ≡ key c
  pub key-finish : (c : S.Cipher) → key (S.finish c).1 ≡ key c
  pub key-check_mac : (mac : Bytes) (c : S.Cipher) → key (S.check_mac mac c).1 ≡ key c
  pub nonce_u32_same : (n : ℕ) (c d : S.Cipher) → key c ≡ key d → S.nonce_u32 n c ≡ S.nonce_u32 n d
  pub length-encrypt : (text : Bytes) (c : S.Cipher) → length (S.encrypt text c).0 ≡ length text
  pub length-finish : (c : S.Cipher) → length (S.finish c).0 ≡ mac_size
  pub encrypt-append :
      (a b : Bytes) (c : S.Cipher)
      → S.encrypt (a ++ b) c ≡ (
        (S.encrypt a c).0 ++ (S.encrypt b (S.encrypt a c).1).0,
        (S.encrypt b (S.encrypt a c).1).1,
      )
  pub decrypt-encrypt :
      (text : Bytes) (c : S.Cipher)
      → S.decrypt (S.encrypt text c).0 c ≡ (text, (S.encrypt text c).1)
  pub check_mac-finish : (c : S.Cipher) → (S.check_mac (S.finish c).0 c).0 ≡ true

add_word_fits : (mode : Overflow) (n : ℕ) → n + 1 < 2 ^ 32 → add_word mode 32 n 1 ≡ returns (n + 1)
add_word_fits Overflow.checked n h = ground arith
add_word_fits Overflow.wrapping n h = rw (mod-eq_of_lt h)

module _ (S : Shannon) (L : IsLawful S) where
  -- The sending side and the receiving side of a connection, between two packets.
  pub record AreSynced (e d : ApCodec S) : Type 0 where
    pub keys : L.key e.encode_cipher ≡ L.key d.decode_cipher
    pub nonces : e.encode_nonce ≡ d.decode_nonce
    pub between : d.decode_state ≡ in_header

  check_passes :
      ⦃order : ByteOrder⦄ (cmd : ℕ) (text rest : Bytes) (r : Bool × S.Cipher) (s : ApCodec S)
      → r.0 ≡ true
      → checked S cmd text rest r s ≡ (packet cmd text, rest, record s { decode_cipher = r.1 })
  check_passes cmd text rest (true, c) s h = refl
  check_passes cmd text rest (false, c) s h = cc

  module _ ⦃order : ByteOrder⦄ ⦃buffer : EasyBuf⦄ where
    abbrev head : ℕ → Bytes → Bytes
    head cmd payload = cmd ∷ be_bytes 2 (length payload)

    header_lem :
        (mode : Overflow) (cmd : ℕ) (payload rest : Bytes) (d : ApCodec S) (c : S.Cipher)
        → length payload < 2 ^ 16
        → d.decode_nonce + 1 < 2 ^ 32
        → S.nonce_u32 d.decode_nonce d.decode_cipher ≡ c
        → let (text, c') = S.encrypt (head cmd payload) c in
          read_header S mode (text ++ rest) d
          ≡ returns (
            rest,
            record d {
              decode_nonce = d.decode_nonce + 1;
              decode_cipher = c';
              decode_state = in_payload cmd (length payload);
            },
          )
    unfolding read_header take_header
    header_lem mode cmd payload rest d c h hn e =
        let (text, c') = S.encrypt (head cmd payload) c in
        let size : length text ≡ 3 = L.length-encrypt (head cmd payload) c in
        let drained : buffer.drain_to header_size (text ++ rest) ≡ returns (text, rest) =
          subst (λ k. buffer.drain_to k (text ++ rest) ≡ returns (text, rest)) size
            (buffer.drain_to_front text rest) in
        rw (
          drained,
          add_word_fits mode d.decode_nonce hn,
          e,
          L.decrypt-encrypt (head cmd payload) c,
          order.read_u16_be (be_bytes 2 (length payload)) [] refl,
          be_value-be_bytes 2 (length payload) h,
        )

    payload_lem :
        (cmd : ℕ) (payload rest : Bytes) (d : ApCodec S)
        → let (text, c) = S.encrypt payload d.decode_cipher in
          let mac = (S.finish c).0 in
          read_payload S cmd (length payload) (text ++ (mac ++ rest)) d
          ≡ returns (
            packet cmd payload,
            rest,
            record d { decode_state = in_header; decode_cipher = (S.check_mac mac c).1 },
          )
    unfolding read_payload take_payload
    payload_lem cmd payload rest d =
        let (text, c) = S.encrypt payload d.decode_cipher in
        let mac = (S.finish c).0 in
        let size : length text ≡ length payload = L.length-encrypt payload d.decode_cipher in
        let whole : length (text ++ mac) ≡ length payload + mac_size =
          omega (arith, length-append text mac, size, L.length-finish c) in
        let drained : buffer.drain_to (length payload + mac_size) (text ++ (mac ++ rest))
            ≡ returns (text ++ mac, rest) =
          subst (λ k. buffer.drain_to k (text ++ (mac ++ rest)) ≡ returns (text ++ mac, rest)) whole
            (ap (buffer.drain_to (length (text ++ mac))) (sym (append_assoc text mac rest))
              ∙ buffer.drain_to_front (text ++ mac) rest) in
        let taken : take (length payload) (text ++ mac) ≡ text =
          subst (λ k. take k (text ++ mac) ≡ text) size (take-length-append text mac) in
        let left : drop (length payload) (text ++ mac) ≡ mac =
          subst (λ k. drop k (text ++ mac) ≡ mac) size (drop-length-append text mac) in
        rw (drained, taken, left, L.decrypt-encrypt payload d.decode_cipher)
          (ap returns (check_passes cmd payload rest (S.check_mac mac c) _ (L.check_mac-finish c)))

    -- The bytes of a packet, and the two sides after it.
    abbrev wire : ℕ → Bytes → S.Cipher → Bytes
    wire cmd payload c =
        let (front, c1) = S.encrypt (head cmd payload) c in
        let (back, c2) = S.encrypt payload c1 in front ++ (back ++ (S.finish c2).0)

    abbrev summed : ℕ → Bytes → S.Cipher → S.Cipher
    summed cmd payload c = (S.encrypt payload (S.encrypt (head cmd payload) c).1).1

    abbrev sent : ℕ → Bytes → ApCodec S → ApCodec S
    sent cmd payload e = record e {
      encode_nonce = e.encode_nonce + 1;
      encode_cipher =
          (S.finish (summed cmd payload (S.nonce_u32 e.encode_nonce e.encode_cipher))).1;
    }

    abbrev received : ℕ → Bytes → S.Cipher → ApCodec S → ApCodec S
    received cmd payload c d = record d {
      decode_nonce = d.decode_nonce + 1;
      decode_cipher = (S.check_mac (S.finish (summed cmd payload c)).0 (summed cmd payload c)).1;
      decode_state = in_header;
    }

    encode_lem :
        (mode : Overflow) (cmd : ℕ) (payload buf : Bytes) (e : ApCodec S)
        → length payload < 2 ^ 16
        → e.encode_nonce + 1 < 2 ^ 32
        → encode S mode cmd payload buf e
          ≡ returns (
            buf ++ wire cmd payload (S.nonce_u32 e.encode_nonce e.encode_cipher),
            sent cmd payload e,
          )
    unfolding encode
    encode_lem mode cmd payload buf e h hn =
        let c = S.nonce_u32 e.encode_nonce e.encode_cipher in
        let (front, c1) = S.encrypt (head cmd payload) c in
        let (back, c2) = S.encrypt payload c1 in
        rw (
          add_word_fits mode e.encode_nonce hn,
          mod-eq_of_lt h,
          order.write_u16_be (length payload) h,
          L.encrypt-append (head cmd payload) payload c,
          append_assoc front back (S.finish c2).0,
        )

    decode_lem :
        (mode : Overflow) (cmd : ℕ) (payload rest : Bytes) (d : ApCodec S) (c : S.Cipher)
        → length payload < 2 ^ 16
        → d.decode_nonce + 1 < 2 ^ 32
        → d.decode_state ≡ in_header
        → S.nonce_u32 d.decode_nonce d.decode_cipher ≡ c
        → decode S mode (wire cmd payload c ++ rest) d
          ≡ returns (packet cmd payload, rest, received cmd payload c d)
    unfolding decode read_header take_header
    decode_lem mode cmd payload rest d c h hn between e =
        let (front, c1) = S.encrypt (head cmd payload) c in
        let (back, c2) = S.encrypt payload c1 in
        let mac = (S.finish c2).0 in
        let behind = back ++ (mac ++ rest) in
        let regroup : wire cmd payload c ++ rest ≡ front ++ behind =
          append_assoc front (back ++ mac) rest
          ∙ ap (λ x. front ++ x) (append_assoc back mac rest) in
        let size : length front ≡ 3 = L.length-encrypt (head cmd payload) c in
        let has_header : leb header_size (length (front ++ behind)) ≡ true =
          ground (arith, length-append front behind, size) in
        let has_payload : leb (length payload + mac_size) (length behind) ≡ true = ground (
          arith,
          length-append back (mac ++ rest),
          length-append mac rest,
          L.length-encrypt payload c1,
          L.length-finish c2,
        ) in
        rw
          (regroup, between, has_header, header_lem mode cmd payload behind d c h hn e, has_payload)
          (payload_lem cmd payload rest _)

    -- From two sides with one key and in step, a packet that one of them encodes behind whatever is
    -- in its buffer is what the other one decodes from the front of its buffer, in one call, leaving
    -- what follows; and the two sides are in step again. The payload fits its length of 16 bits, and
    -- fewer than 2^32 - 1 packets have been sent.
    pub decode-encode :
        (mode : Overflow) (cmd : ℕ) (payload buf rest : Bytes) (e d : ApCodec S)
        → length payload < 2 ^ 16
        → e.encode_nonce + 1 < 2 ^ 32
        → AreSynced e d
        → (wire : Bytes) × (e' : ApCodec S) × (d' : ApCodec S) × (encode S mode cmd payload buf e
            ≡ returns (buf ++ wire, e'))
          × (decode S mode (wire ++ rest) d ≡ returns (packet cmd payload, rest, d'))
          × AreSynced e' d'
    decode-encode mode cmd payload buf rest e d h hn sync =
        let c = S.nonce_u32 e.encode_nonce e.encode_cipher in
        let one_cipher =
          L.nonce_u32_same e.encode_nonce e.encode_cipher d.decode_cipher sync.keys in
        let key_of_sum : L.key (summed cmd payload c) ≡ L.key e.encode_cipher =
          L.key-encrypt payload _ ∙ L.key-encrypt (head cmd payload) c ∙ L.key-nonce_u32 _ _ in
        (
          wire cmd payload c,
          sent cmd payload e,
          received cmd payload c d,
          encode_lem mode cmd payload buf e h hn,
          decode_lem mode cmd payload rest d c h (omega (arith, hn, sync.nonces)) sync.between
              (sym (ap (λ n. S.nonce_u32 n d.decode_cipher) sync.nonces) ∙ sym one_cipher),
          record {
            keys = L.key-finish _ ∙ sym (L.key-check_mac _ _);
            nonces = ap (λ n. n + 1) sync.nonces;
            between = refl;
          },
        )
