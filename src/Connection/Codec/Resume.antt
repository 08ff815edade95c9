-- ===== src/Connection/Codec/Resume.antt =====
-- However the bytes of the connection are cut, core/src/connection/codec.rs decodes the same packets.
use spotify_connect_scrobble.Prelude.{
  ℕ, ◌+◌, ◌≡◌, ◌≤◌, refl, sym, ap, ap₂, ◌∙◌, subst, ◌++◌, length, take, drop, Bool, true, false,
  leb, leb→le, returns, ◌>>=◌, arith, Bool-cases, length-append, >>=-eq-returns, returns-injective,
  inl, inr,
}
use spotify_connect_scrobble.Prelude.Words.{Bytes, Overflow, add_word}
use spotify_connect_scrobble.Crates.{ByteOrder, EasyBuf}
use spotify_connect_scrobble.Crates.Drain.{drain_to-append, drain_to_lem}
use spotify_connect_scrobble.Connection.Codec.{
  take_header, take_payload, Shannon, ApCodec, DecodeState, in_header, in_payload, waits,
  header_size, mac_size, header_bytes, read_header, decode_header, read_payload, decode_payload,
  decode, checked,
}

module _ (S : Shannon) ⦃order : ByteOrder⦄ where
  abbrev InPayload : ApCodec S → Type 0
  InPayload s = (cmd : ℕ) × (size : ℕ) × (s.decode_state ≡ in_payload cmd size)

  take_header-InPayload :
      (mode : Overflow) (header : Bytes) (s t : ApCodec S)
      → take_header S mode header s ≡ returns t
      → InPayload t
  unfolding take_header
  take_header-InPayload mode header s t e =
      let (n, e1, f1) = >>=-eq-returns (add_word mode 32 s.decode_nonce 1) _ e in
      let text = (S.decrypt header (S.nonce_u32 s.decode_nonce s.decode_cipher)).0 in
      let ((cmd, bytes), e2, f2) = >>=-eq-returns (header_bytes text) _ f1 in
      let (size, e3, f3) = >>=-eq-returns (order.read_u16 bytes) _ f2 in
      subst InPayload (returns-injective _ t f3) (cmd, size, refl)

  checked-ne-waits :
      (cmd : ℕ) (text rest buf : Bytes) (r : Bool × S.Cipher) (s t : ApCodec S)
      → checked S cmd text rest r s ≡ (waits, buf, t)
      → ⊥
  checked-ne-waits cmd text rest buf (true, c) s t e = cc (ap (λ x. x.0) e)
  checked-ne-waits cmd text rest buf (false, c) s t e = cc (ap (λ x. x.0) e)

  module _ ⦃buffer : EasyBuf⦄ where
    payload-waits :
        (st : DecodeState) (buf buf' : Bytes) (s s' : ApCodec S)
        → decode_payload S st buf s ≡ returns (waits, buf', s')
        → (buf ≡ buf') × (s ≡ s')
    unfolding read_payload take_payload
    payload-waits in_header buf buf' s s' e =
        let p = returns-injective (waits, buf, s) (waits, buf', s') e in
        (ap (λ x. x.1) p, ap (λ x. x.2) p)
    payload-waits (in_payload cmd size) buf buf' s s' e =
        elim (Bool-cases (leb (size + mac_size) (length buf))) [
          | inr short ↦
              let p = returns-injective (waits, buf, s) (waits, buf', s') (rw short at e) in
              (ap (λ x. x.1) p, ap (λ x. x.2) p)
          | inl enough ↦
              let ((payload, rest), e1, f1) =
                >>=-eq-returns (buffer.drain_to (size + mac_size) buf) _ (rw enough at e) in
              absurd (checked-ne-waits _ _ rest buf' _ _ s' (returns-injective _ _ f1))
        ]

    decode-InPayload :
        (mode : Overflow) (buf : Bytes) (s : ApCodec S)
        → InPayload s
        → decode S mode buf s ≡ decode_payload S s.decode_state buf s
    unfolding decode
    decode-InPayload mode buf s (cmd, size, e) = rw e

    unfolded :
        (mode : Overflow) (buf : Bytes) (s : ApCodec S) (st : DecodeState)
        → s.decode_state ≡ st
        → decode S mode buf s
          ≡ (decode_header S mode st buf s >>= λ r. decode_payload S r.1.decode_state r.0 r.1)
    unfolding decode
    unfolded mode buf s st e =
        ap (λ x. decode_header S mode x buf s >>= λ r. decode_payload S r.1.decode_state r.0 r.1) e

    read_header_lem :
        (mode : Overflow) (buf : Bytes) (s : ApCodec S) {r : Bytes × ApCodec S}
        → header_size ≤ length buf
        → read_header S mode buf s ≡ returns r
        → (t : ApCodec S) × (take_header S mode (take header_size buf) s ≡ returns t)
          × (returns (drop header_size buf, t) ≡ returns r)
    unfolding read_header
    read_header_lem mode buf s h e =
        >>=-eq-returns (take_header S mode (take header_size buf) s) _
          (rw (drain_to_lem header_size buf h) at e)

    -- Reading the header from the front of a buffer leaves what is behind it.
    header-append :
        (mode : Overflow) (st : DecodeState) (buf buf' more : Bytes) (s s' : ApCodec S)
        → s.decode_state ≡ st
        → decode_header S mode st buf s ≡ returns (buf', s')
        → decode S mode (buf ++ more) s ≡ decode S mode (buf' ++ more) s'
    unfolding read_header
    header-append mode (in_payload cmd size) buf buf' more s s' k e =
        let p = returns-injective (buf, s) (buf', s') e in
        ap₂ (λ b t. decode S mode (b ++ more) t) (ap (λ x. x.0) p) (ap (λ x. x.1) p)
    header-append mode in_header buf buf' more s s' k e =
        elim (Bool-cases (leb header_size (length buf))) [
          | inr short ↦
              let p = returns-injective (buf, s) (buf', s') (rw short at e) in
              ap₂ (λ b t. decode S mode (b ++ more) t) (ap (λ x. x.0) p) (ap (λ x. x.1) p)
          | inl enough ↦
              let fits = leb→le header_size (length buf) enough in
              let longer : leb header_size (length (buf ++ more)) ≡ true =
                ground (arith, length-append buf more) in
              let (rest, e1, f1) = read_header_lem mode buf s fits (rw enough at e) in
              let p = returns-injective (drop header_size buf, rest) (buf', s') f1 in
              let front : decode_header S mode in_header (buf ++ more) s
                  ≡ returns (drop header_size buf ++ more, rest) =
                rw (longer, drain_to-append header_size buf more fits, e1) in
              unfolded mode (buf ++ more) s in_header k
              ∙ ap (λ m. m >>= λ r. decode_payload S r.1.decode_state r.0 r.1) front
              ∙ sym (
                  decode-InPayload mode (drop header_size buf ++ more) rest
                    (take_header-InPayload mode _ s rest e1))
              ∙ ap₂ (λ b t. decode S mode (b ++ more) t) (ap (λ x. x.0) p) (ap (λ x. x.1) p)
        ]

    -- If a buffer is too short for a packet, then decoding the rest of it, with the state left and
    -- with whatever bytes come next, is decoding all the bytes at once.
    pub decode-append :
        (mode : Overflow) (buf buf' more : Bytes) (s s' : ApCodec S)
        → decode S mode buf s ≡ returns (waits, buf', s')
        → decode S mode (buf ++ more) s ≡ decode S mode (buf' ++ more) s'
    decode-append mode buf buf' more s s' e =
        let e' = sym (unfolded mode buf s s.decode_state refl) ∙ e in
        let ((b, t), e1, f1) = >>=-eq-returns (decode_header S mode s.decode_state buf s) _ e' in
        let (same_buf, same) = payload-waits t.decode_state b buf' t s' f1 in
        header-append mode s.decode_state buf b more s t refl e1
        ∙ ap₂ (λ b t. decode S mode (b ++ more) t) same_buf same
