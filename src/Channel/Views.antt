-- ===== src/Channel/Views.antt =====
-- The two views of a channel in core/src/channel.rs: its headers, and its data.
use spotify_connect_scrobble.Prelude.{
  ℕ, zero, suc, ◌≡◌, List, [], ◌∷◌, length, All, Option, none, some, Bool, true, false, Run,
  returns, ◌>>=◌, ◌==◌,
}
use spotify_connect_scrobble.Prelude.Words.{Bytes}
use spotify_connect_scrobble.Crates.{ByteOrder, EasyBuf}
use spotify_connect_scrobble.Channel.{
  Channel, ChannelEvent, header, packet, in_header, in_data, Answer, ready, not_ready,
  channel_error, poll,
}
use spotify_connect_scrobble.Channel.Events.{
  header_bytes, HeaderFits, IsFilled, at, first_poll, poll-header, header_end-packet,
}

-- The halves of a `BiLock` around the channel; they differ by their type only.
pub data ChannelHeaders : Type 0 where
  headers_of : Channel → ChannelHeaders

pub data ChannelData : Type 0 where
  data_of : Channel → ChannelData

abbrev pub split : Channel → ChannelHeaders × ChannelData
split c = (headers_of c, data_of c)

module _ ⦃order : ByteOrder⦄ ⦃buffer : EasyBuf⦄ where
  abbrev pub to_header :
      Answer (Option ChannelEvent) × Channel → Answer (Option (ℕ × Bytes)) × Channel
  to_header (ready (some (header id text)), c) = (ready (some (id, text)), c)
  to_header (ready (some (packet bytes)), c) = (ready none, c)
  to_header (ready none, c) = (ready none, c)
  to_header (not_ready, c) = (not_ready, c)
  to_header (channel_error, c) = (channel_error, c)

  -- `ChannelHeaders::poll`, with whether `poll_lock` gets the lock.
  unfoldable pub poll_headers : Bool → Channel → Run (Answer (Option (ℕ × Bytes)) × Channel)
  poll_headers false c = returns (not_ready, c)
  poll_headers true c = poll c >>= λ r. returns (to_header r)

  -- What the loop of the data view does with an event: a header goes round it.
  abbrev pub skip_header :
      (Channel → Run (Option (Answer (Option Bytes) × Channel)))
      → Answer (Option ChannelEvent) × Channel
      → Run (Option (Answer (Option Bytes) × Channel))
  skip_header more (ready (some (header id text)), c) = more c
  skip_header more (ready (some (packet bytes)), c) = returns (some (ready (some bytes), c))
  skip_header more (ready none, c) = returns (some (ready none, c))
  skip_header more (not_ready, c) = returns (some (not_ready, c))
  skip_header more (channel_error, c) = returns (some (channel_error, c))

  -- Its loop, in a number of rounds; `none` if they do not suffice.
  unfoldable pub next_packet : ℕ → Channel → Run (Option (Answer (Option Bytes) × Channel))
  next_packet zero c = returns none
  next_packet (suc rounds) c = poll c >>= skip_header (next_packet rounds)

  -- `ChannelData::poll`, with whether `poll_lock` gets the lock.
  unfoldable pub poll_packets : ℕ → Bool → Channel → Run (Option (Answer (Option Bytes) × Channel))
  poll_packets rounds false c = returns (some (not_ready, c))
  poll_packets rounds true c = next_packet rounds c

  next_packet-header_bytes :
      (cmd : ℕ) (hs : List (ℕ × Bytes)) (d : Bytes) (more : List (ℕ × Bytes))
      → (cmd == 0xa) ≡ false
      → All HeaderFits hs
      → IsFilled d
      → next_packet (suc (length hs)) (at ((cmd, d) ∷ more) (in_header (header_bytes hs)))
        ≡ returns (some (ready (some d), at more in_data))
  unfolding next_packet
  next_packet-header_bytes cmd [] d more h fits f = rw (header_end-packet cmd d more h f)
  next_packet-header_bytes cmd ((id, text) ∷ hs) d more h fits f =
      rw (poll-header id text hs ((cmd, d) ∷ more) fits.0)
        (next_packet-header_bytes cmd hs d more h fits.1 f)

  -- The data view of a channel passes over all of its headers to the first packet of data: with one
  -- round for each header and one more, for headers in the wire format that come in one packet.
  pub poll_packets-skips :
      (cmd : ℕ) (hs : List (ℕ × Bytes)) (d : Bytes) (more : List (ℕ × Bytes))
      → (cmd == 0xa) ≡ false
      → All HeaderFits hs
      → IsFilled d
      → poll_packets
          (suc (length hs))
          true
          (at ((cmd, header_bytes hs) ∷ (cmd, d) ∷ more) (in_header []))
        ≡ returns (some (ready (some d), at more in_data))
  unfolding poll_packets next_packet
  poll_packets-skips cmd hs d more h fits f =
      rw (first_poll cmd hs ((cmd, d) ∷ more) h) (next_packet-header_bytes cmd hs d more h fits f)
