-- ===== src/Channel/Events.antt =====
-- The events that a channel of core/src/channel.rs gives for packets in the wire format.
use spotify_connect_scrobble.Prelude.{
  ℕ, zero, suc, ◌+◌, ◌-◌, ◌^◌, ◌<◌, ◌≡◌, ◌≢◌, refl, List, [], ◌∷◌, ◌++◌, length, All, Option, none,
  some, true, false, Run, returns, panics, ◌>>=◌, ◌==◌, arith,
}
use spotify_connect_scrobble.Prelude.Words.{Bytes, be_bytes}
use spotify_connect_scrobble.Prelude.Words.Digits.{be_value-be_bytes}
use spotify_connect_scrobble.Crates.{ByteOrder, EasyBuf}
use spotify_connect_scrobble.Channel.{
  Channel, ChannelEvent, ChannelState, header, packet, in_header, in_data, Answer, ready, not_ready,
  channel_error, read_header, recv_packet, poll_data, poll,
}

-- Headers, each behind its length, and the length 0 after the last one.
pub header_bytes : List (ℕ × Bytes) → Bytes
header_bytes [] = be_bytes 2 0
header_bytes ((id, text) ∷ hs) = be_bytes 2 (1 + length text) ++ (id ∷ (text ++ header_bytes hs))

abbrev pub HeaderFits : ℕ × Bytes → Type 0
HeaderFits h = 1 + length h.1 < 2 ^ 16

module _ ⦃order : ByteOrder⦄ ⦃buffer : EasyBuf⦄ where
  -- The events of `n` polls in a row; a poll that is not ready, fails or ends stops them.
  abbrev pub next_events :
      Answer (Option ChannelEvent) × Channel
      → (Channel → Run (List ChannelEvent × Channel))
      → Run (List ChannelEvent × Channel)
  next_events (ready (some e), c) more = more c >>= λ r. returns (e ∷ r.0, r.1)
  next_events (ready none, c) more = panics
  next_events (not_ready, c) more = panics
  next_events (channel_error, c) more = panics

  unfoldable pub take_events : ℕ → Channel → Run (List ChannelEvent × Channel)
  take_events zero c = returns ([], c)
  take_events (suc n) c = poll c >>= λ r. next_events r (take_events n)

  read_header-event :
      (id : ℕ) (text : Bytes) (hs : List (ℕ × Bytes)) (c : Channel)
      → HeaderFits (id, text)
      → read_header (header_bytes ((id, text) ∷ hs)) c
        ≡ returns (ready (some (header id text)), record c { state = in_header (header_bytes hs) })
  unfolding read_header header_bytes
  read_header-event id text hs c h =
      let size = 1 + length text in
      let tail = text ++ header_bytes hs in
      let nonzero : (size == 0) ≡ false = ground arith in
      let same : size - 1 ≡ length text = omega arith in
      rw (
        buffer.drain_to_front (be_bytes 2 size) (id ∷ tail),
        order.read_u16_be (be_bytes 2 size) [] refl,
        be_value-be_bytes 2 size h,
        nonzero,
        buffer.drain_to_front (id ∷ []) tail,
        same,
        buffer.drain_to_front text (header_bytes hs),
      )

  abbrev pub header_events : List (ℕ × Bytes) → List ChannelEvent
  header_events [] = []
  header_events ((id, text) ∷ hs) = header id text ∷ header_events hs

  abbrev pub packet_events : List Bytes → List ChannelEvent
  packet_events [] = []
  packet_events (d ∷ ds) = packet d ∷ packet_events ds

  abbrev pub under : ℕ → List Bytes → List (ℕ × Bytes) → List (ℕ × Bytes)
  under cmd [] more = more
  under cmd (d ∷ ds) more = (cmd, d) ∷ under cmd ds more

  abbrev pub IsFilled : Bytes → Type 0
  IsFilled d = d ≢ []

  abbrev pub at : List (ℕ × Bytes) → ChannelState → Channel
  at waiting state = record { receiver = waiting; is_open = true; state = state }

  poll_data-packet :
      (cmd : ℕ) (d : Bytes) (more : List (ℕ × Bytes)) (s : ChannelState)
      → (cmd == 0xa) ≡ false
      → IsFilled d
      → poll_data (at ((cmd, d) ∷ more) s) ≡ returns (ready (some (packet d)), at more s)
  unfolding poll_data recv_packet
  poll_data-packet cmd [] more s h f = absurd (f refl)
  poll_data-packet cmd (b ∷ bs) more s h f = rw h

  -- The data packets of a channel come out in order.
  take_events-packets :
      (cmd : ℕ) (ds : List Bytes) (more : List (ℕ × Bytes))
      → (cmd == 0xa) ≡ false
      → All IsFilled ds
      → take_events (length (packet_events ds)) (at (under cmd ds more) in_data)
        ≡ returns (packet_events ds, at more in_data)
  unfolding take_events poll
  take_events-packets cmd [] more h f = refl
  take_events-packets cmd (d ∷ ds) more h f = rw (
    poll_data-packet cmd d (under cmd ds more) in_data h f.0,
    take_events-packets cmd ds more h f.1,
  )

  pub header_end-packet :
      (cmd : ℕ) (d : Bytes) (more : List (ℕ × Bytes))
      → (cmd == 0xa) ≡ false
      → IsFilled d
      → poll (at ((cmd, d) ∷ more) (in_header (header_bytes [])))
        ≡ returns (ready (some (packet d)), at more in_data)
  unfolding poll read_header header_bytes
  header_end-packet cmd d more h f = rw (
    buffer.drain_to_front (be_bytes 2 0) [],
    order.read_u16_be (be_bytes 2 0) [] refl,
    poll_data-packet cmd d more in_data h f,
  )

  pub poll-header :
      (id : ℕ) (text : Bytes) (hs : List (ℕ × Bytes)) (w : List (ℕ × Bytes))
      → HeaderFits (id, text)
      → poll (at w (in_header (header_bytes ((id, text) ∷ hs))))
        ≡ returns (ready (some (header id text)), at w (in_header (header_bytes hs)))
  unfolding poll header_bytes
  poll-header id text hs w fit = read_header-event id text hs (at w _) fit

  -- The first packet is what the headers are read from.
  pub first_poll :
      (cmd : ℕ) (hs : List (ℕ × Bytes)) (w : List (ℕ × Bytes))
      → (cmd == 0xa) ≡ false
      → poll (at ((cmd, header_bytes hs) ∷ w) (in_header []))
        ≡ poll (at w (in_header (header_bytes hs)))
  unfolding poll recv_packet header_bytes read_header
  first_poll cmd [] w h = rw h
  first_poll cmd ((id, text) ∷ hs) w h = rw h

  take_events-header_bytes :
      (cmd : ℕ) (hs : List (ℕ × Bytes)) (d : Bytes) (ds : List Bytes) (more : List (ℕ × Bytes))
      → (cmd == 0xa) ≡ false
      → All HeaderFits hs
      → All IsFilled (d ∷ ds)
      → take_events
          (length (header_events hs ++ packet_events (d ∷ ds)))
          (at (under cmd (d ∷ ds) more) (in_header (header_bytes hs)))
        ≡ returns (header_events hs ++ packet_events (d ∷ ds), at more in_data)
  unfolding take_events
  take_events-header_bytes cmd [] d ds more h fits f =
      rw (header_end-packet cmd d (under cmd ds more) h f.0, take_events-packets cmd ds more h f.1)
  take_events-header_bytes cmd ((id, text) ∷ hs) d ds more h fits f = rw (
    poll-header id text hs (under cmd (d ∷ ds) more) fits.0,
    take_events-header_bytes cmd hs d ds more h fits.1 f,
  )

  -- A channel whose first packet holds the headers in the wire format, and whose next packets, at
  -- least one, hold data, gives one event for each header and each data packet, in order, and keeps
  -- the packets behind them: no poll in between waits, fails or panics. The packets are not of the
  -- error command, the headers fit their lengths, and no data packet is empty.
  pub take_events-under :
      (cmd : ℕ) (hs : List (ℕ × Bytes)) (d : Bytes) (ds : List Bytes) (more : List (ℕ × Bytes))
      → (cmd == 0xa) ≡ false
      → All HeaderFits hs
      → All IsFilled (d ∷ ds)
      → let events = header_events hs ++ packet_events (d ∷ ds) in
        take_events
          (length events)
          (at ((cmd, header_bytes hs) ∷ under cmd (d ∷ ds) more) (in_header []))
        ≡ returns (events, at more in_data)
  unfolding take_events
  take_events-under cmd [] d ds more h fits f =
      rw (first_poll cmd [] (under cmd (d ∷ ds) more) h)
        (take_events-header_bytes cmd [] d ds more h fits f)
  take_events-under cmd (x ∷ hs) d ds more h fits f =
      rw (first_poll cmd (x ∷ hs) (under cmd (d ∷ ds) more) h)
        (take_events-header_bytes cmd (x ∷ hs) d ds more h fits f)
