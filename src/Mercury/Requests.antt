-- ===== src/Mercury/Requests.antt =====
-- A request of core/src/mercury and the response to it: who gets the answer.
use spotify_connect_scrobble.Prelude.{
  ℕ, ◌+◌, ◌^◌, ◌<◌, ◌≡◌, refl, List, [], ◌∷◌, ◌++◌, length, All, Option, none, some, Bool, false,
  append-nil, append_assoc, ◌==◌, returns, ◌>>=◌, arith,
}
use spotify_connect_scrobble.Prelude.Words.{Bytes, Overflow, be_bytes}
use spotify_connect_scrobble.Prelude.Eq.{bytes_eq}
use spotify_connect_scrobble.Prelude.Int.{at_least}
use spotify_connect_scrobble.Prelude.Dict
use spotify_connect_scrobble.Crates.{ByteOrder, EasyBuf}
use spotify_connect_scrobble.Util.Seq
use spotify_connect_scrobble.Util.Seq.{SeqGenerator}
use spotify_connect_scrobble.Mercury.{
  MercuryManager, ChannelId, response, dispatch, no_parts, next_seq, request, complete_request,
}
use spotify_connect_scrobble.Mercury.Types.{MercuryRequest, Protobuf, Header, to_string, command}
use spotify_connect_scrobble.Mercury.Parts.{Fits, frame, absorb, dispatch-frame, encode-frame}

-- Parts on a pending response with no open part go behind those that are there.
pub absorb-append :
    (ps done : List Bytes) (callback : Option ChannelId)
    → absorb false ps (record { parts = done; partial = none; callback = callback })
      ≡ record { parts = done ++ ps; partial = none; callback = callback }
absorb-append [] done callback = rw (append-nil done)
absorb-append (a ∷ []) done callback = refl
absorb-append (a ∷ b ∷ ps) done callback =
    rw (absorb-append (b ∷ ps) (done ++ a ∷ []) callback, append_assoc done (a ∷ []) (b ∷ ps))

module _ ⦃order : ByteOrder⦄ ⦃buffer : EasyBuf⦄ (proto : Protobuf) where
  -- The request packet of number `v`.
  abbrev pub packet : MercuryRequest → ℕ → Bytes
  packet req v =
      frame (be_bytes 8 v) 1
        (proto.write_header req.uri (to_string req.method) req.content_type ∷ req.payload) []

  -- A request takes the next number, sends one packet with it and the header and payload of the
  -- request, and leaves one new pending response with a new callback: for a number, a header and a
  -- payload within their bounds, in both build profiles.
  pub request_lem :
      (mode : Overflow) (req : MercuryRequest) (m : MercuryManager)
      → let header = proto.write_header req.uri (to_string req.method) req.content_type in
        m.sequence.value + 1 < 2 ^ 64
        → length req.payload + 1 < 2 ^ 16
        → Fits header
        → All Fits req.payload
        → request proto mode req m
          ≡ returns (
            m.next_channel,
            record m {
              sequence = record { value = m.sequence.value + 1 };
              next_channel = m.next_channel + 1;
              pending =
                  Dict.insert
                    (be_bytes 8 m.sequence.value)
                    (no_parts (some m.next_channel))
                    m.pending;
              packets = (command req.method, packet req m.sequence.value) ∷ m.packets;
            },
          )
  unfolding request next_seq
  request_lem mode req m hv hn hh hp = rw (
    Seq.get_lem mode 64 m.sequence.value hv,
    order.write_u64_be m.sequence.value (omega (arith, hv)),
    encode-frame proto mode req (be_bytes 8 m.sequence.value) (omega arith) hn hh hp,
  )

  -- A request and a response to it meet: a final packet of any response command under the request's
  -- number, with a header that says success, completes the callback that the request returned, with
  -- the packet's URI, status and payload, and no other; the pending response is gone, and nothing
  -- else of the manager changes but what the request did.
  pub request-dispatch :
      (alive : ChannelId → Bool) (mode : Overflow) (req : MercuryRequest) (cmd : ℕ)
      (header_data : Bytes) (payload : List Bytes) (rest : Bytes) (header : Header)
      (m : MercuryManager)
      → let written = proto.write_header req.uri (to_string req.method) req.content_type in
        let seq = be_bytes 8 m.sequence.value in
        m.sequence.value + 1 < 2 ^ 64
        → length req.payload + 1 < 2 ^ 16
        → Fits written
        → All Fits req.payload
        → length payload + 1 < 2 ^ 16
        → All Fits (header_data ∷ payload)
        → proto.parse_header header_data ≡ some header
        → at_least 400 header.status_code ≡ false
        → (cmd == 0xb5) ≡ false
        → (request proto mode req m >>= λ r.
            dispatch proto alive cmd (frame seq 1 (header_data ∷ payload) rest) r.1)
          ≡ returns (record m {
            sequence = record { value = m.sequence.value + 1 };
            next_channel = m.next_channel + 1;
            pending = Dict.remove seq m.pending;
            packets = (command req.method, packet req m.sequence.value) ∷ m.packets;
            completed =
                (
                  m.next_channel,
                  response (record {
                    uri = header.uri;
                    status_code = header.status_code;
                    payload = payload;
                  }),
                )
                ∷ m.completed;
          })
  unfolding complete_request
  request-dispatch alive mode req cmd header_data payload rest header m hv hn hh hp hl hf e es ec =
      let seq = be_bytes 8 m.sequence.value in
      let p = no_parts (some m.next_channel) in
      let asked : MercuryManager = record m {
        sequence = record { value = m.sequence.value + 1 };
        next_channel = m.next_channel + 1;
        pending = Dict.insert seq p m.pending;
        packets = (command req.method, packet req m.sequence.value) ∷ m.packets;
      } in
      rw (
        request_lem mode req m hv hn hh hp,
        dispatch-frame proto alive cmd 1 seq (header_data ∷ payload) rest asked (omega arith)
            (omega (arith, hl)) hf,
        Dict.get-insert_same seq p m.pending,
        Dict.remove-insert seq p m.pending,
        absorb-append (header_data ∷ payload) [] (some m.next_channel),
        e,
        es,
        ec,
      )
