-- ===== src/Mercury/Parts.antt =====
-- The wire format of core/src/mercury: a packet of parts, as `encode` writes it and `dispatch` reads.
use spotify_connect_scrobble.Prelude.{
  ℕ, suc, ◌+◌, ◌-◌, ◌%◌, ◌^◌, ◌<◌, ◌≡◌, refl, ap, ◌∙◌, List, [], ◌∷◌, ◌++◌, length, All, Option,
  none, some, Bool, true, false, ◌==◌, Run, returns, arith,
}
use spotify_connect_scrobble.Prelude.Words.{Bytes, Overflow, checked, wrapping, be_bytes, add_word}
use spotify_connect_scrobble.Prelude.Words.Digits.{be_value-be_bytes}
use spotify_connect_scrobble.Prelude.Eq.{bytes_eq}
use spotify_connect_scrobble.Prelude.Dict
use spotify_connect_scrobble.Crates.{ByteOrder, EasyBuf}
use spotify_connect_scrobble.Mercury.{
  MercuryManager, MercuryPending, ChannelId, add_part, parse_part, read_parts, pending_for,
  finish_packet, continue, dispatch,
}
use spotify_connect_scrobble.Mercury.Types.{
  MercuryRequest, Protobuf, write_parts, encode, to_string,
}
use native.Mathlib.Nat.{mod-eq_of_lt}

abbrev pub Fits : Bytes → Type 0
Fits part = length part < 2 ^ 16

-- Parts, each behind its length in two bytes, in front of other bytes.
unfoldable pub framed : List Bytes → Bytes → Bytes
framed [] rest = rest
framed (part ∷ parts) rest = be_bytes 2 (length part) ++ (part ++ framed parts rest)

-- A packet: the sequence number behind its length, the flags, the number of parts, the parts.
unfoldable pub frame : Bytes → ℕ → List Bytes → Bytes → Bytes
frame seq flags parts rest =
    be_bytes 2 (length seq) ++ (seq ++ (flags ∷ (be_bytes 2 (length parts) ++ framed parts rest)))

-- What a packet adds to a pending response: parts in order, the last of them kept open if `open`.
abbrev pub absorb : Bool → List Bytes → MercuryPending → MercuryPending
absorb unfinished [] p = p
absorb unfinished (part ∷ []) p = add_part unfinished part p
absorb unfinished (part ∷ next ∷ parts) p = absorb unfinished (next ∷ parts) (add_part false part p)

module _ ⦃order : ByteOrder⦄ ⦃buffer : EasyBuf⦄ where
  pub read_length : (n : ℕ) → n < 2 ^ 16 → order.read_u16 (be_bytes 2 n) ≡ returns n
  read_length n h = order.read_u16_be (be_bytes 2 n) [] refl ∙ ap returns (be_value-be_bytes 2 n h)

  parse_part-framed :
      (part rest : Bytes)
      → Fits part
      → parse_part (be_bytes 2 (length part) ++ (part ++ rest)) ≡ returns (part, rest)
  unfolding parse_part
  parse_part-framed part rest h = rw (
    buffer.drain_to_front (be_bytes 2 (length part)) (part ++ rest),
    read_length (length part) h,
    buffer.drain_to_front part rest,
  )

  last_round : (i count : ℕ) → i + 1 ≡ count → (i == count - 1) ≡ true
  last_round i count e = ground arith

  last_round_no : (i n count : ℕ) → i + suc (suc n) ≡ count → (i == count - 1) ≡ false
  last_round_no i n count e = ground arith

  read_parts-framed :
      (parts : List Bytes) (i count flags : ℕ) (rest : Bytes) (p : MercuryPending)
      → All Fits parts
      → i + length parts ≡ count
      → read_parts (length parts) i count flags (framed parts rest) p
        ≡ returns (absorb (flags == 2) parts p)
  unfolding read_parts framed
  read_parts-framed [] i count flags rest p h e = refl
  read_parts-framed (part ∷ []) i count flags rest p h e =
      rw (parse_part-framed part rest h.0, last_round i count e)
  read_parts-framed (part ∷ next ∷ parts) i count flags rest p h e =
      let more = framed (next ∷ parts) rest in
      rw (parse_part-framed part more h.0, last_round_no i (length parts) count e)
        (read_parts-framed (next ∷ parts) (i + 1) count flags rest (add_part false part p) h.1
          (omega (arith, e)))

  -- What a whole packet does to the manager.
  abbrev pub Absorbed :
      Protobuf
      → (ChannelId → Bool)
      → ℕ
      → ℕ
      → Bytes
      → List Bytes
      → Option MercuryPending
      → MercuryManager
      → Run MercuryManager
  Absorbed proto alive cmd flags seq parts none m = returns m
  Absorbed proto alive cmd flags seq parts (some p) m =
      finish_packet proto alive cmd flags seq (absorb (flags == 2) parts p) m

  -- `dispatch` on a packet in the wire format does not panic while it takes the packet apart, and
  -- does to the manager what the parts of the packet say: it takes the pending response out, adds
  -- the parts to it, and completes it or puts it back. Bytes behind the packet are ignored.
  pub dispatch-frame :
      (proto : Protobuf) (alive : ChannelId → Bool) (cmd flags : ℕ) (seq : Bytes)
      (parts : List Bytes) (rest : Bytes) (m : MercuryManager)
      → Fits seq
      → length parts < 2 ^ 16
      → All Fits parts
      → dispatch proto alive cmd (frame seq flags parts rest) m
        ≡ Absorbed proto alive cmd flags seq parts
            (pending_for cmd (Dict.get seq m.pending))
            (record m { pending = Dict.remove seq m.pending })
  unfolding dispatch frame
  dispatch-frame proto alive cmd flags seq parts rest m hs hn hp =
      let tail = framed parts rest in
      let counted = be_bytes 2 (length parts) ++ tail in
      rw
        (
          buffer.drain_to_front (be_bytes 2 (length seq)) (seq ++ (flags ∷ counted)),
          read_length (length seq) hs,
          buffer.drain_to_front seq (flags ∷ counted),
          buffer.drain_to_front (flags ∷ []) counted,
          buffer.drain_to_front (be_bytes 2 (length parts)) tail,
          read_length (length parts) hn,
        )
        (continue-framed (pending_for cmd (Dict.get seq m.pending)))
    where
      continue-framed :
          (o : Option MercuryPending)
          → continue proto alive cmd flags
              (length parts)
              seq
              (framed parts rest)
              o
              (record m { pending = Dict.remove seq m.pending })
            ≡ Absorbed proto alive cmd flags seq parts o
                (record m { pending = Dict.remove seq m.pending })
      continue-framed none = refl
      continue-framed (some p) =
          rw (read_parts-framed parts 0 (length parts) flags rest p hp (omega arith))

add_word_fits :
    (mode : Overflow) (w a b : ℕ) → b + a < 2 ^ w → add_word mode w a b ≡ returns (a + b)
add_word_fits checked w a b h = ground arith
add_word_fits wrapping w a b h = ap returns (mod-eq_of_lt (omega (arith, h)))

module _ ⦃order : ByteOrder⦄ where
  write_parts-framed : (parts : List Bytes) → All Fits parts → write_parts parts ≡ framed parts []
  unfolding write_parts framed
  write_parts-framed [] h = refl
  write_parts-framed (part ∷ parts) h =
      rw (mod-eq_of_lt h.0, order.write_u16_be (length part) h.0, write_parts-framed parts h.1)

  -- In both build profiles a request is encoded as a final packet of its header and its payload.
  pub encode-frame :
      (proto : Protobuf) (mode : Overflow) (req : MercuryRequest) (seq : Bytes)
      → let header = proto.write_header req.uri (to_string req.method) req.content_type in
        Fits seq
        → length req.payload + 1 < 2 ^ 16
        → Fits header
        → All Fits req.payload
        → encode proto mode req seq ≡ returns (frame seq 1 (header ∷ req.payload) [])
  unfolding encode frame framed
  encode-frame proto mode req seq hs hn hh hp =
      let n = length req.payload in
      let one_more : 1 + n ≡ suc n = omega arith in
      let count_mod : n % 2 ^ 16 ≡ n = omega (arith, hn) in
      let header = proto.write_header req.uri (to_string req.method) req.content_type in
      rw (
        count_mod,
        add_word_fits mode 16 1 n hn,
        mod-eq_of_lt hs,
        mod-eq_of_lt hh,
        order.write_u16_be (length seq) hs,
        order.write_u16_be (1 + n) (omega (arith, hn)),
        order.write_u16_be (length header) hh,
        write_parts-framed req.payload hp,
        one_more,
      )
