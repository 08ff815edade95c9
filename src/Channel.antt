-- ===== src/Channel.antt =====
-- core/src/channel.rs: streams of packets under a number, headers first and then data.
pub mod Events
pub mod Views
pub mod Tests
use spotify_connect_scrobble.Prelude.{
  ℕ, ◌+◌, ◌-◌, List, [], ◌∷◌, ◌++◌, length, take, Option, none, some, Bool, true, false, Run,
  returns, panics, ◌>>=◌, ◌>>◌, assert, ◌==◌, if◌then◌else◌,
}
use spotify_connect_scrobble.Prelude.Words.{Bytes, Overflow}
use spotify_connect_scrobble.Prelude.Eq.{nat_eq}
use spotify_connect_scrobble.Prelude.Dict
use spotify_connect_scrobble.Prelude.Dict.{Dict}
use spotify_connect_scrobble.Crates.{ByteOrder, EasyBuf}
use spotify_connect_scrobble.Util.Seq
use spotify_connect_scrobble.Util.Seq.{SeqGenerator}

-- The two ends of a channel are known by a number; what was sent is logged, newest first.
pub record ChannelManager : Type 0 where
  pub sequence : SeqGenerator
  pub channels : Dict ℕ ℕ
  pub next_channel : ℕ
  pub sent : List (ℕ × (ℕ × Bytes))

abbrev pub new : ChannelManager
new = record { sequence = record { value = 0 }; channels = []; next_channel = 0; sent = [] }

pub data ChannelState : Type 0 where
  in_header : Bytes → ChannelState
  in_data closed : ChannelState

-- The receiver by the packets that wait in it, and whether its sender lives.
pub record Channel : Type 0 where
  pub receiver : List (ℕ × Bytes)
  pub is_open : Bool
  pub state : ChannelState

pub data ChannelEvent : Type 0 where
  header : ℕ → Bytes → ChannelEvent
  packet : Bytes → ChannelEvent

-- `Poll<A, ChannelError>`
pub data Answer (A : Type 0) : Type 0 where
  ready : A → Answer A
  not_ready channel_error : Answer A

unfoldable pub allocate : Overflow → ChannelManager → Run ((ℕ × ℕ × Channel) × ChannelManager)
allocate mode m = do
  (seq, sequence) ← Seq.get mode 16 m.sequence
  returns (
    (seq, m.next_channel, record { receiver = []; is_open = true; state = in_header [] }),
    record m {
      sequence = sequence;
      channels = Dict.insert seq m.next_channel m.channels;
      next_channel = m.next_channel + 1;
    },
  )

abbrev pub send_to : Option ℕ → ℕ × Bytes → ChannelManager → ChannelManager
send_to none p m = m
send_to (some channel) p m = record m { sent = (channel, p) ∷ m.sent }

abbrev pub first_byte : Bytes → Run ℕ
first_byte [] = panics
first_byte (b ∷ bs) = returns b

module _ ⦃order : ByteOrder⦄ ⦃buffer : EasyBuf⦄ where
  unfoldable pub dispatch : ℕ → Bytes → ChannelManager → Run ChannelManager
  dispatch cmd bytes m = do
    (front, rest) ← buffer.drain_to 2 bytes
    id ← order.read_u16 front
    returns (send_to (Dict.get id m.channels) (cmd, rest) m)

  -- A packet of the command 0xa is an error, whose code is only logged.
  abbrev pub checked_packet : ℕ → Bytes → Channel → Run (Answer Bytes × Channel)
  checked_packet cmd bytes c =
      if cmd == 0xa
      then (order.read_u16 (take 2 bytes) >>= λ code.
          returns (channel_error, record c { state = closed }))
      else returns (ready bytes, c)

  abbrev pub recv_from : List (ℕ × Bytes) → Channel → Run (Answer Bytes × Channel)
  recv_from [] c = if c.is_open then returns (not_ready, c) else panics
  recv_from ((cmd, bytes) ∷ more) c = checked_packet cmd bytes (record c { receiver = more })

  unfoldable pub recv_packet : Channel → Run (Answer Bytes × Channel)
  recv_packet c = recv_from c.receiver c

  -- The data branch of `poll`, with the packet that was received; `close` leaves what waits.
  abbrev pub on_data : Answer Bytes × Channel → Run (Answer (Option ChannelEvent) × Channel)
  on_data (not_ready, c) = returns (not_ready, c)
  on_data (channel_error, c) = returns (channel_error, c)
  on_data (ready [], c) = returns (ready none, record c { is_open = false; state = closed })
  on_data (ready (b ∷ bs), c) = returns (ready (some (packet (b ∷ bs))), c)

  unfoldable pub poll_data : Channel → Run (Answer (Option ChannelEvent) × Channel)
  poll_data c = recv_packet c >>= on_data

  -- The header branch of `poll`; a header of length 0 goes round the loop, into the data.
  abbrev pub header_end : Bytes → Channel → Run (Answer (Option ChannelEvent) × Channel)
  header_end rest c = do assert (length rest == 0); poll_data (record c { state = in_data })

  abbrev pub header_event : ℕ → Bytes → Channel → Run (Answer (Option ChannelEvent) × Channel)
  header_event size rest c = do
    (id_byte, rest1) ← buffer.drain_to 1 rest
    id ← first_byte id_byte
    (text, rest2) ← buffer.drain_to (size - 1) rest1
    returns (ready (some (header id text)), record c { state = in_header rest2 })

  unfoldable pub read_header : Bytes → Channel → Run (Answer (Option ChannelEvent) × Channel)
  read_header bytes c = do
    (front, rest) ← buffer.drain_to 2 bytes
    size ← order.read_u16 front
    if size == 0 then header_end rest c else header_event size rest c

  abbrev pub on_header : Answer Bytes × Channel → Run (Answer (Option ChannelEvent) × Channel)
  on_header (not_ready, c) = returns (not_ready, c)
  on_header (channel_error, c) = returns (channel_error, c)
  on_header (ready bytes, c) = read_header bytes c

  abbrev pub poll_state : ChannelState → Channel → Run (Answer (Option ChannelEvent) × Channel)
  poll_state closed c = panics
  poll_state (in_header []) c = recv_packet c >>= on_header
  poll_state (in_header (b ∷ bs)) c = read_header (b ∷ bs) c
  poll_state in_data c = poll_data c

  unfoldable pub poll : Channel → Run (Answer (Option ChannelEvent) × Channel)
  poll c = poll_state c.state c
