-- ===== src/Lib.antt =====
-- spotify-connect-scrobbler: a Spotify Connect device that listens to what the user's other devices
-- play and reports it to Last.fm.
--
-- The parts and how they interact. A task (src/spirc.rs) holds the device's state. It gets frames of
-- the user's devices from a Mercury subscription, answers greetings over a Mercury sender, and hands
-- the id of the track that an active device plays to the scrobbler (src/scrobbler.rs). The scrobbler
-- fetches the metadata of that track (metadata/src/lib.rs), announces it to Last.fm, and scrobbles it
-- when it has played for more than twenty seconds. The session (core/src/session.rs) takes the packets
-- of the connection and hands each to the component of its command: Mercury (core/src/mercury), which
-- multiplexes requests, responses and subscriptions; channels (core/src/channel.rs), streams of headers
-- and data under a number; and audio keys (core/src/audio_key.rs). The connection
-- (core/src/connection) starts with a handshake, which agrees on keys by a Diffie-Hellman exchange
-- (core/src/diffie_hellman.rs), and encrypts every packet from then on. Ids of tracks are 128-bit
-- integers (core/src/util).
--
-- Which file models which part:
--   Util/Int128    core/src/util/int128.rs: `u128`, its `Add` and `Mul`.
--   Util/SpotifyId core/src/util/spotify_id.rs: `SpotifyId` and `FileId`, a text as its bytes.
--   Util/Seq       core/src/util/mod.rs: `SeqGenerator`.
--   Util/Powm      core/src/util/mod.rs: `powm`.
--   Util/Clock     core/src/util/mod.rs: `now_ms` and `run_program`.
--   Util/Chunks    core/src/util/mod.rs: `StrChunks`.
--   Util/Subfile   core/src/util/subfile.rs.
--   Scrobbler      src/scrobbler.rs: the state and the operations; Scrobbler/Polling has
--                  `Future::poll`, one function per `match` of a future, in order. Scrobbler/Services
--                  is what it calls: futures, the Last.fm client and the metadata lookups.
--   Mercury        core/src/mercury/mod.rs: `request`, `dispatch`, `complete_request`, `subscribe`;
--                  Mercury/Types has core/src/mercury/types.rs with `MercuryRequest::encode`,
--                  Mercury/Sender core/src/mercury/sender.rs and `MercuryFuture::poll`;
--                  Mercury/Trace has runs of requests, subscriptions and packets.
--   Spirc          src/spirc.rs: `Spirc::new`, `handle_frame`, `handle_command`, `CommandSender`
--                  and `SpircTask::poll`; Spirc/Messages has the messages of
--                  protocol/proto/spirc.proto, Spirc/Device what the device says of itself.
--   Channel        core/src/channel.rs: `ChannelManager` and `Channel::poll`; Channel/Views has
--                  `ChannelHeaders` and `ChannelData`.
--   AudioKey       core/src/audio_key.rs: `request`, `dispatch`, and the future; AudioKey/Trace has
--                  runs of requests and packets in any order.
--   Component      core/src/component.rs: `Lazy`.
--   Session        core/src/session.rs: `create`, `dispatch` and `DispatchTask::poll`;
--                  Session/Connect has `connect`, Session/Routes has the abstract session, its
--                  components side by side, Session/Delivery the way of a key through it.
--   Authentication core/src/authentication.rs: `Credentials` and `get_credentials`;
--                  Authentication/Json has their text, Authentication/Types `AuthenticationType` of
--                  protocol/src/authentication.rs.
--   ApResolve      core/src/apresolve.rs.
--   Keymaster      src/keymaster.rs.
--   Checksum       protocol/build.rs: `cksum` and its table.
--   Cache          core/src/cache/mod.rs over a disk of directories and files, where a path needs its
--                  parent; Cache/Paths has `mkdir_existing` of core/src/util/mod.rs.
--   Config         core/src/config.rs: `DeviceType` and `ConnectConfig`.
--   DiffieHellman  core/src/diffie_hellman.rs, with `rand_vec` of core/src/util/mod.rs.
--   Connection     Connection/Codec has core/src/connection/codec.rs, Connection/Handshake has
--                  core/src/connection/handshake.rs, Connection/Authenticate has `authenticate`
--                  of core/src/connection/mod.rs; Connection/Shift is a cipher to evaluate with.
--   Protocol       protocol/src: the messages `Header` of mercury.rs and `Subscription` of pubsub.rs,
--                  over the runtime of `protobuf`; Protocol/Client is Mercury's use of them.
--   Metadata       metadata/src/lib.rs and metadata/src/cover.rs; Metadata/Countries has
--                  `parse_restrictions` and `countrylist_contains`.
--   Main           src/main.rs: the future `Main` with its `poll`; Main/Setup has `setup`, from the
--                  arguments to the configuration, Main/Restart two starts with one cache.
--   Prelude        the monad `Run` of code that may panic, lists, maps, words.
--   Crates         `byteorder` and `EasyBuf` as interfaces with their documented laws, and
--                  Crates/Reference with functions that satisfy them.
--
-- How code becomes definitions. A panic is the value `panics` of `Run`; inside a future it is the
-- answer `aborts` of a poll. Mutable state is a record that an operation takes and returns. What the
-- code gives away (Last.fm requests, packets, callbacks, frames) is logged in the state, newest
-- first. Arithmetic at a machine width takes the build profile: `checked` panics on overflow, as the
-- debug build does, `wrapping` is the release build. Both are covered where the profile matters. The
-- clocks are arguments, one for each time that the code reads them, in nanoseconds for the scrobbler.
-- Rust evaluates only the branch that is taken; the definitions are pure, so that this makes no
-- difference.
--
-- Bounds and fuel. The loops run over lists or over a fixed count, by structural recursion. The loop
-- of `powm` runs by the accessibility of its exponent, which it halves. The loop over the pieces of a
-- country list has one round more than the list has bytes, and every round takes two of them. Three
-- rounds are enough for the loop of `Main::poll`, by `Main.Ending.poll-ends`. The loop
-- of `SpircTask::poll` runs over the rounds of answers that the streams give; the theorem
-- `Spirc.Loop.poll-returns` says when rounds suffice. Parts and sequence numbers of Mercury are
-- bounded by their two-byte lengths, which the theorems state.
--
-- Parameters. The cipher of the `shannon` crate, HMAC, big integers, random numbers, the stream under
-- the connection and the protobuf messages are records of operations with what their documentation
-- promises of them, as are `getopts`, `serde_json` and `base64`; the theorems hold for all of them.
--
-- Not modelled: the other generated protobuf messages, which are of the same form, with the cached
-- sizes and the reflection of all of them, the values of errors, which the code only logs, logging
-- itself, network and file access, how options are read, and waiting inside a chain of
-- futures: `connect` and `subscribe` are what they come to. The session
-- logs what it sends itself, and a component what it sends, so that the order of packets of two
-- components is not in the model.
pub mod Prelude
pub mod Crates
pub mod Util
pub mod Scrobbler
pub mod Mercury
pub mod Spirc
pub mod ApResolve
pub mod AudioKey
pub mod Authentication
pub mod Cache
pub mod Channel
pub mod Checksum
pub mod Component
pub mod Config
pub mod Connection
pub mod DiffieHellman
pub mod Keymaster
pub mod Main
pub mod Metadata
pub mod Protocol
pub mod Session
