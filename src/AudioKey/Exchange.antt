-- ===== src/AudioKey/Exchange.antt =====
-- A request of core/src/audio_key.rs and the answers to it: who gets the key.
use spotify_connect_scrobble.Prelude.{
  ℕ, zero, suc, ◌+◌, ◌^◌, ◌<◌, ◌≡◌, refl, append-nil, sym, ap, ◌∙◌, [], ◌∷◌, ◌++◌, length, none,
  some, ◌==◌, lt→ltb, returns, Run, ◌>>=◌, arith, if◌then◌else◌,
}
use spotify_connect_scrobble.Prelude.Words.{Bytes, Overflow, be_bytes}
use spotify_connect_scrobble.Prelude.Words.Digits.{be_value-be_bytes}
use spotify_connect_scrobble.Prelude.Eq.{nat_eq}
use spotify_connect_scrobble.Prelude.Dict
use spotify_connect_scrobble.Prelude.Dict.{Dict}
use spotify_connect_scrobble.Crates.{ByteOrder, EasyBuf}
use spotify_connect_scrobble.Util.Seq
use spotify_connect_scrobble.Util.SpotifyId.{SpotifyId, FileId, to_raw}
use spotify_connect_scrobble.AudioKey.{
  AudioKey, AudioKeyManager, Answer, ready, not_ready, audio_key_error, ok, err, resolve, answer,
  send_key_request, request, dispatch, poll,
}

length-digits_of : (w v : ℕ) → length (be_bytes w v) ≡ w
length-digits_of zero v = refl
length-digits_of (suc w) v = omega (arith, length-digits_of w v)

module _ ⦃order : ByteOrder⦄ ⦃buffer : EasyBuf⦄ where
  -- A packet is for the request whose number stands in front.
  pub dispatch_lem :
      (cmd seq : ℕ) (rest : Bytes) (m : AudioKeyManager)
      → seq < 2 ^ 32
      → dispatch cmd (be_bytes 4 seq ++ rest) m
        ≡ answer cmd rest
            (Dict.get seq m.pending)
            (record m { pending = Dict.remove seq m.pending })
  unfolding dispatch
  dispatch_lem cmd seq rest m h =
      let front : Bytes = be_bytes 4 seq in
      let number : Run ℕ = order.read_u32 front in
      let read : order.read_u32 front ≡ returns seq =
        ap order.read_u32 (sym (append-nil front))
        ∙ order.read_u32_be front [] (length-digits_of 4 seq)
        ∙ ap returns (be_value-be_bytes 4 seq h) in
      rw (buffer.drain_to_front front rest, read)

  -- The packet that asks for a key.
  abbrev pub key_request : ℕ → SpotifyId → FileId → Bytes
  key_request seq track file = file.bytes ++ (to_raw track ++ (be_bytes 4 seq ++ be_bytes 2 0))

  -- The manager behind a request.
  abbrev pub asked : SpotifyId → FileId → AudioKeyManager → AudioKeyManager
  asked track file m = record {
    sequence = record { value = m.sequence.value + 1 };
    pending = Dict.insert m.sequence.value m.next_channel m.pending;
    next_channel = m.next_channel + 1;
    completed = m.completed;
    packets = (0xc, key_request m.sequence.value track file) ∷ m.packets;
  }

  pub request_lem :
      (mode : Overflow) (track : SpotifyId) (file : FileId) (m : AudioKeyManager)
      → m.sequence.value + 1 < 2 ^ 32
      → Dict.get m.sequence.value m.pending ≡ none
      → request mode track file m ≡ returns (m.next_channel, asked track file m)
  unfolding request send_key_request
  request_lem mode track file m h new = rw (
    Seq.get_lem mode 32 m.sequence.value h,
    new,
    order.write_u32_be m.sequence.value (omega arith),
    order.write_u16_be 0 (omega arith),
  )

  -- The key that answers a request of the number `seq`, for the future `channel`.
  pub key_packet_lem :
      (seq channel : ℕ) (key : Bytes) (m : AudioKeyManager)
      → seq < 2 ^ 32
      → length key ≡ 16
      → Dict.get seq m.pending ≡ some channel
      → dispatch 0xd (be_bytes 4 seq ++ key) m
        ≡ returns (
            resolve channel
              (ok (record { bytes = key }))
              (record m { pending = Dict.remove seq m.pending }))
  key_packet_lem seq channel key m h len e = rw (dispatch_lem 0xd seq key m h, e, len)

  pub poll-resolve :
      (c channel : ℕ) (key : AudioKey) (left : Dict ℕ ℕ) (m : AudioKeyManager)
      → poll c (resolve channel (ok key) (record m { pending = left }))
        ≡ (if channel == c then ready key else poll c m)
  unfolding poll Dict.get
  poll-resolve c channel key left m = ground arith

  poll-resolve_err :
      (c channel : ℕ) (left : Dict ℕ ℕ) (m : AudioKeyManager)
      → poll c (resolve channel err (record m { pending = left }))
        ≡ (if channel == c then audio_key_error else poll c m)
  unfolding poll Dict.get
  poll-resolve_err c channel left m = ground arith

  poll-waiting :
      (c : ℕ) (m : AudioKeyManager) → Dict.get c m.completed ≡ none → poll c m ≡ not_ready
  unfolding poll
  poll-waiting c m e = rw e

  -- What every future polls to after a packet.
  abbrev pub polls_after : ℕ → Bytes → AudioKeyManager → Run (ℕ → Answer)
  polls_after cmd bytes m = do m' ← dispatch cmd bytes m; returns (λ c. poll c m')

  -- A request under a number that no other request holds sends one packet, with the file, the track
  -- and its number, and its future is not ready; a packet 0xd under that number with sixteen bytes
  -- makes this future ready with them, a packet 0xe with two bytes or more makes it an error, and
  -- both leave every other future as it was.
  pub request-answers :
      (mode : Overflow) (track : SpotifyId) (file : FileId) (m : AudioKeyManager) (key code : Bytes)
      → m.sequence.value + 1 < 2 ^ 32
      → Dict.get m.sequence.value m.pending ≡ none
      → Dict.get m.next_channel m.completed ≡ none
      → length key ≡ 16
      → 1 < length code
      → let seq = be_bytes 4 m.sequence.value in
        let future = m.next_channel in
        (m1 : AudioKeyManager) × (request mode track file m ≡ returns (future, m1))
        × (m1.packets ≡ (0xc, key_request m.sequence.value track file) ∷ m.packets)
        × (poll future m1 ≡ not_ready)
        × (polls_after 0xd (seq ++ key) m1
            ≡ returns (λ c. if future == c then ready (record { bytes = key }) else poll c m1))
        × (polls_after 0xe (seq ++ code) m1
            ≡ returns (λ c. if future == c then audio_key_error else poll c m1))
  request-answers mode track file m key code h new fresh len long =
      let v : ℕ = m.sequence.value in
      let m1 : AudioKeyManager = asked track file m in
      let held : Dict.get v m1.pending ≡ some m.next_channel =
        Dict.get-insert_same v m.next_channel m.pending in
      (
        m1,
        request_lem mode track file m h new,
        refl,
        poll-waiting m.next_channel m1 fresh,
        rw (key_packet_lem v m.next_channel key m1 (omega arith) len held) (
            ap returns (λ i c.
              poll-resolve c m.next_channel (record { bytes = key }) (Dict.remove v m1.pending) m1
                i)),
        rw (dispatch_lem 0xe v code m1 (omega arith), held, lt→ltb 1 (length code) long)
            (ap returns (λ i c. poll-resolve_err c m.next_channel (Dict.remove v m1.pending) m1 i)),
      )
