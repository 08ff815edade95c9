-- ===== src/Session.antt =====
-- core/src/session.rs: the packets of a connection go to the components of the program.
pub mod Connect
pub mod Routes
pub mod Keys
pub mod Delivery
pub mod Tests
use spotify_connect_scrobble.Prelude.{
  ℕ, ◌+◌, ◌%◌, ◌^◌, List, [], ◌∷◌, Option, none, some, Bool, true, false, ◌&&◌, ◌||◌, leb, ◌==◌,
  if◌then◌else◌, Run, returns, panics, ◌>>=◌, ◌>>◌, assert,
}
use spotify_connect_scrobble.Prelude.Words.{Bytes}
use spotify_connect_scrobble.Crates.{ByteOrder, EasyBuf}
use spotify_connect_scrobble.Cache.{Cache}
use spotify_connect_scrobble.Component
use spotify_connect_scrobble.Component.{Lazy}
use spotify_connect_scrobble.AudioKey
use spotify_connect_scrobble.AudioKey.{AudioKeyManager}
use spotify_connect_scrobble.Channel
use spotify_connect_scrobble.Channel.{ChannelManager}
use spotify_connect_scrobble.Mercury
use spotify_connect_scrobble.Mercury.{MercuryManager, ChannelId}
use spotify_connect_scrobble.Mercury.Types.{Protobuf}

pub record SessionConfig : Type 0 where
  pub user_agent : Bytes
  pub device_id : Bytes

pub record SessionData : Type 0 where
  pub country : Bytes
  pub canonical_username : Bytes

-- A component's state is behind its `Lazy`. What the session sends itself is logged, newest first;
-- a component logs what it sends.
pub record Session : Type 0 where
  pub config : SessionConfig
  pub session_data : SessionData
  pub packets : List (ℕ × Bytes)
  pub audio_key : Lazy AudioKeyManager
  pub channel : Lazy ChannelManager
  pub mercury : Lazy MercuryManager
  pub cache : Option Cache
  pub session_id : ℕ

-- `create`, with the counter of the sessions, which wraps.
unfoldable pub create : SessionConfig → Option Cache → Bytes → ℕ → Session × ℕ
create config cache username counter = (
  record {
    config = config;
    session_data = record { country = []; canonical_username = username };
    packets = [];
    audio_key = Component.new;
    channel = Component.new;
    mercury = Component.new;
    cache = cache;
    session_id = counter;
  },
  (counter + 1) % 2 ^ 64,
)

abbrev pub send_packet : ℕ → Bytes → Session → Session
send_packet cmd bytes s = record s { packets = (cmd, bytes) ∷ s.packets }

abbrev pub username : Session → Bytes
username s = s.session_data.canonical_username

abbrev pub country : Session → Bytes
country s = s.session_data.country

abbrev pub device_id : Session → Bytes
device_id s = s.config.device_id

-- The arms of the match of `dispatch`.
pub data Arm : Type 0 where
  ping pong_ack country_code to_channel to_audio_key to_mercury unknown : Arm

unfoldable pub arm : ℕ → Arm
arm cmd =
    if cmd == 0x4
    then ping
    else if cmd == 0x4a
    then pong_ack
    else if cmd == 0x1b
    then country_code
    else if (cmd == 0x9) || (cmd == 0xa)
    then to_channel
    else if (cmd == 0xd) || (cmd == 0xe)
    then to_audio_key
    else if leb 0xb2 cmd && leb cmd 0xb6
    then to_mercury
    else unknown

-- What the stream gives behind the packets that it has.
pub data Tail : Type 0 where
  waits ends fails : Tail

-- `Poll<(), S::Error>`
pub data Polled : Type 0 where
  done not_ready stream_error : Polled

-- `is_utf8` is the test of `String::from_utf8`, and `alive` says which subscribers' channels live.
module _ ⦃order : ByteOrder⦄ ⦃buffer : EasyBuf⦄ (proto : Protobuf) (is_utf8 : Bytes → Bool)
    (alive : ChannelId → Bool) where
  unfoldable pub set_country : Bytes → SessionData → Run SessionData
  set_country bytes d = assert (is_utf8 bytes) >> returns (record d { country = bytes })

  unfoldable pub dispatch_to : Arm → ℕ → Bytes → Session → Run Session
  dispatch_to ping cmd bytes s = returns (send_packet 0x49 bytes s)
  dispatch_to pong_ack cmd bytes s = returns s
  dispatch_to country_code cmd bytes s = do
    data' ← set_country bytes s.session_data
    returns (record s { session_data = data' })
  dispatch_to to_channel cmd bytes s = do
    (m, l) ← Component.get Channel.new s.channel
    m' ← Channel.dispatch cmd bytes m
    returns (record s { channel = Component.store m' l })
  dispatch_to to_audio_key cmd bytes s = do
    (m, l) ← Component.get AudioKey.new s.audio_key
    m' ← AudioKey.dispatch cmd bytes m
    returns (record s { audio_key = Component.store m' l })
  dispatch_to to_mercury cmd bytes s = do
    (m, l) ← Component.get Mercury.new s.mercury
    m' ← Mercury.dispatch proto alive cmd bytes m
    returns (record s { mercury = Component.store m' l })
  dispatch_to unknown cmd bytes s = returns s

  abbrev pub dispatch : ℕ → Bytes → Session → Run Session
  dispatch cmd bytes s = dispatch_to (arm cmd) cmd bytes s

  -- The loop of `DispatchTask::poll` over the packets that the stream has.
  unfoldable pub dispatch_all : List (ℕ × Bytes) → Session → Run Session
  dispatch_all [] s = returns s
  dispatch_all ((cmd, bytes) ∷ more) s = dispatch cmd bytes s >>= dispatch_all more

  -- `expect("connection closed")` at the end of the stream.
  abbrev pub poll_tail : Tail → Session → Run (Polled × Session)
  poll_tail waits s = returns (not_ready, s)
  poll_tail ends s = panics
  poll_tail fails s = returns (stream_error, s)

  -- `DispatchTask::poll`, with whether the weak reference to the session can be upgraded.
  unfoldable pub poll : Bool → List (ℕ × Bytes) → Tail → Session → Run (Polled × Session)
  poll false packets tail s = returns (done, s)
  poll true packets tail s = dispatch_all packets s >>= poll_tail tail
