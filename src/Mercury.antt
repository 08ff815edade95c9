-- ===== src/Mercury.antt =====
-- core/src/mercury: requests, subscriptions and their responses over one connection. A callback, a
-- subscriber's channel and the packets for the session are logged, newest first.
pub mod Types
pub mod Parts
pub mod Reassembly
pub mod Requests
pub mod Events
pub mod Waiting
pub mod Callbacks
pub mod Trace
pub mod Sender
pub mod Tests
use Types.{MercuryRequest, get, sub, send, MercuryResponse, Header, command, encode}
use spotify_connect_scrobble.Prelude.{
  ℕ, zero, suc, ◌+◌, ◌-◌, List, [], ◌∷◌, ◌++◌, length, Option, none, some, Bool, true, false, ◌&&◌,
  Run, returns, panics, ◌>>=◌, unwrap, ltb, ◌==◌, if◌then◌else◌,
}
use spotify_connect_scrobble.Prelude.Words.{Bytes, Overflow}
use spotify_connect_scrobble.Prelude.Eq.{bytes_eq}
use spotify_connect_scrobble.Prelude.Dict
use spotify_connect_scrobble.Prelude.Dict.{Dict}
use spotify_connect_scrobble.Prelude.Int.{at_least}
use spotify_connect_scrobble.Crates.{ByteOrder, EasyBuf}
use spotify_connect_scrobble.Util.Seq
use spotify_connect_scrobble.Util.Seq.{SeqGenerator}
use spotify_connect_scrobble.Mercury.Types.{Protobuf}

-- The two ends of a channel are known by a number.
abbrev pub ChannelId : Type 0
ChannelId = ℕ

pub record MercuryPending : Type 0 where
  pub parts : List Bytes
  pub partial : Option Bytes
  pub callback : Option ChannelId

-- `Result<MercuryResponse, MercuryError>`
pub data Completion : Type 0 where
  response : MercuryResponse → Completion
  mercury_error : Completion

pub record MercuryManager : Type 0 where
  pub sequence : SeqGenerator
  pub pending : Dict Bytes MercuryPending
  pub subscriptions : List (Bytes × ChannelId)
  pub next_channel : ChannelId
  pub completed : List (ChannelId × Completion)
  pub delivered : List (ChannelId × MercuryResponse)
  pub packets : List (ℕ × Bytes)

abbrev pub new : MercuryManager
new = record {
  sequence = record { value = 0 };
  pending = [];
  subscriptions = [];
  next_channel = 0;
  completed = [];
  delivered = [];
  packets = [];
}

abbrev pub no_parts : Option ChannelId → MercuryPending
no_parts callback = record { parts = []; partial = none; callback = callback }

-- `mem::replace(&mut pending.partial, None)` in front of the new part.
abbrev pub join_partial : Option Bytes → Bytes → Bytes
join_partial none part = part
join_partial (some partial) part = partial ++ part

-- One round of the loop of `dispatch`; `last` is its test `i == count - 1 && (flags == 2)`.
abbrev pub add_part : Bool → Bytes → MercuryPending → MercuryPending
add_part true part p = record p { partial = some (join_partial p.partial part) }
add_part false part p = record p {
  parts = p.parts ++ join_partial p.partial part ∷ [];
  partial = none;
}

abbrev pub starts_with : Bytes → Bytes → Bool
starts_with text [] = true
starts_with [] (p ∷ prefix) = false
starts_with (c ∷ text) (p ∷ prefix) = c == p && starts_with text prefix

-- `complete` of an optional callback.
abbrev pub complete : Option ChannelId → Completion → MercuryManager → MercuryManager
complete none result m = m
complete (some channel) result m = record m { completed = (channel, result) ∷ m.completed }

-- `retain` over the subscriptions: a response goes to each subscription whose URI is a prefix, and
-- one whose receiver is gone is dropped. `alive` says which sends succeed.
unfoldable pub retain_alive :
    (ChannelId → Bool)
    → MercuryResponse
    → List (Bytes × ChannelId)
    → List (Bytes × ChannelId) × List (ChannelId × MercuryResponse)
retain_alive alive r [] = ([], [])
retain_alive alive r ((prefix, channel) ∷ subs) =
    let (kept, sent) = retain_alive alive r subs in
    if starts_with r.uri prefix
    then if alive channel then ((prefix, channel) ∷ kept, (channel, r) ∷ sent) else (kept, sent)
    else ((prefix, channel) ∷ kept, sent)

abbrev pub first_part : List Bytes → Run (Bytes × List Bytes)
first_part [] = panics
first_part (header ∷ payload) = returns (header, payload)

abbrev pub answer :
    (ChannelId → Bool) → ℕ → Option ChannelId → MercuryResponse → MercuryManager → MercuryManager
answer alive cmd callback r m =
    if at_least 400 r.status_code
    then complete callback mercury_error m
    else if cmd == 0xb5
    then (let (kept, sent) = retain_alive alive r m.subscriptions in
        record m { subscriptions = kept; delivered = sent ++ m.delivered })
    else complete callback (response r) m

-- `get` and `send`, the two requests that the program's other parts make.
abbrev pub get_request : Bytes → MercuryRequest
get_request uri = record { method = get; uri = uri; content_type = none; payload = [] }

abbrev pub send_request : Bytes → Bytes → MercuryRequest
send_request uri item = record {
  method = send;
  uri = uri;
  content_type = none;
  payload = item ∷ [];
}

abbrev pub sub_request : Bytes → MercuryRequest
sub_request uri = record { method = sub; uri = uri; content_type = none; payload = [] }

-- The state that a packet continues, or nothing for a response that no request waits for.
abbrev pub pending_for : ℕ → Option MercuryPending → Option MercuryPending
pending_for cmd (some p) = some p
pending_for cmd none = if cmd == 0xb5 then some (no_parts none) else none

abbrev pub head_byte : Bytes → Run ℕ
head_byte [] = panics
head_byte (b ∷ bs) = returns b

module _ ⦃order : ByteOrder⦄ ⦃buffer : EasyBuf⦄ where
  unfoldable pub parse_part : Bytes → Run (Bytes × Bytes)
  parse_part bytes = do
    (front, rest) ← buffer.drain_to 2 bytes
    size ← order.read_u16 front
    buffer.drain_to size rest

  -- Round `i` of `for i in 0..count`, `rounds` of which are left.
  unfoldable pub read_parts : ℕ → ℕ → ℕ → ℕ → Bytes → MercuryPending → Run MercuryPending
  read_parts zero i count flags bytes p = returns p
  read_parts (suc rounds) i count flags bytes p = do
    (part, rest) ← parse_part bytes
    read_parts rounds (i + 1) count flags rest (add_part (i == count - 1 && flags == 2) part p)

module _ ⦃order : ByteOrder⦄ ⦃buffer : EasyBuf⦄ (proto : Protobuf) where
  unfoldable pub next_seq : Overflow → MercuryManager → Run (Bytes × MercuryManager)
  next_seq mode m = do
    (seq, sequence) ← Seq.get mode 64 m.sequence
    returns (order.write_u64 seq, record m { sequence = sequence })

  -- `request` returns the receiving end of the callback that it stores.
  unfoldable pub request :
      Overflow → MercuryRequest → MercuryManager → Run (ChannelId × MercuryManager)
  request mode req m = do
    (seq, m') ← next_seq mode m
    packet ← encode proto mode req seq
    returns (
      m'.next_channel,
      record m' {
        next_channel = m'.next_channel + 1;
        pending = Dict.insert seq (no_parts (some m'.next_channel)) m'.pending;
        packets = (command req.method, packet) ∷ m'.packets;
      },
    )

  unfoldable pub complete_request :
      (ChannelId → Bool) → ℕ → MercuryPending → MercuryManager → Run MercuryManager
  complete_request alive cmd p m = do
    (header_data, payload) ← first_part p.parts
    header ← unwrap (proto.parse_header header_data)
    returns (
        answer alive cmd p.callback
          (record { uri = header.uri; status_code = header.status_code; payload = payload }) m)

  abbrev pub finish_packet :
      (ChannelId → Bool) → ℕ → ℕ → Bytes → MercuryPending → MercuryManager → Run MercuryManager
  finish_packet alive cmd flags seq p m =
      if flags == 1
      then complete_request alive cmd p m
      else returns (record m { pending = Dict.insert seq p m.pending })

  abbrev pub continue :
      (ChannelId → Bool)
      → ℕ
      → ℕ
      → ℕ
      → Bytes
      → Bytes
      → Option MercuryPending
      → MercuryManager
      → Run MercuryManager
  continue alive cmd flags count seq bytes none m = returns m
  continue alive cmd flags count seq bytes (some p) m = do
    p' ← read_parts count 0 count flags bytes p
    finish_packet alive cmd flags seq p' m

  unfoldable pub dispatch : (ChannelId → Bool) → ℕ → Bytes → MercuryManager → Run MercuryManager
  dispatch alive cmd bytes m = do
    (front, bytes1) ← buffer.drain_to 2 bytes
    seq_len ← order.read_u16 front
    (seq, bytes2) ← buffer.drain_to seq_len bytes1
    (flag_bytes, bytes3) ← buffer.drain_to 1 bytes2
    flags ← head_byte flag_bytes
    (count_bytes, bytes4) ← buffer.drain_to 2 bytes3
    count ← order.read_u16 count_bytes
    continue alive cmd flags count seq bytes4 (pending_for cmd (Dict.get seq m.pending))
        (record m { pending = Dict.remove seq m.pending })

  -- The subscriptions of a list of URIs, all with one channel.
  abbrev pub listed : ChannelId → List Bytes → Run (List (Bytes × ChannelId))
  listed channel [] = returns []
  listed channel (item ∷ items) = do
    uri ← unwrap (proto.parse_subscription item)
    subs ← listed channel items
    returns ((uri, channel) ∷ subs)

  -- What `subscribe` does with the response to its request: a new channel, registered for each URI
  -- that the response lists, or for the requested one if it lists none.
  unfoldable pub subscribed :
      Bytes → MercuryResponse → MercuryManager → Run (ChannelId × MercuryManager)
  subscribed uri r m = do
    subs ←
        (if ltb 0 (length r.payload)
          then listed m.next_channel r.payload
          else returns ((uri, m.next_channel) ∷ []))
    returns (
      m.next_channel,
      record m { next_channel = m.next_channel + 1; subscriptions = m.subscriptions ++ subs },
    )
