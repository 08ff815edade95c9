-- ===== src/Spirc.antt =====
-- src/spirc.rs: the task that announces this device to the user's other devices, answers their
-- greetings, and tells the scrobbler what they play.
pub mod Messages
pub mod Device
pub mod Sending
pub mod Effects
pub mod Outbox
pub mod Loop
pub mod Tests
use spotify_connect_scrobble.Config.{ConnectConfig}
use Device.{initial_state, initial_device_state}
use Messages.{
  MessageType, hello, goodbye, notify, State, no_state, get_state, DeviceState, Capability, Frame,
  status_stop, can_be_player, device_type, gaia_eq_connect_id, supports_logout, is_observable,
  volume_steps, supported_contexts, supported_types,
}
use spotify_connect_scrobble.Prelude.{
  ℕ, List, [], ◌∷◌, ◌++◌, Option, none, some, Bool, true, false, not, ◌&&◌, ◌||◌, Run, returns,
  panics, ◌>>=◌, unwrap, ◌==◌, if◌then◌else◌, get_elem?,
}
use spotify_connect_scrobble.Prelude.Words.{Bytes, Overflow}
use spotify_connect_scrobble.Prelude.Eq.{bytes_eq}
use spotify_connect_scrobble.Crates.{ByteOrder}
use spotify_connect_scrobble.Util.Seq
use spotify_connect_scrobble.Util.Seq.{SeqGenerator}
use spotify_connect_scrobble.Util.SpotifyId.{codes, from_raw}
use spotify_connect_scrobble.Scrobbler
use spotify_connect_scrobble.Scrobbler.{Scrobbler, ScrobblerConfig, update_current_track}
use spotify_connect_scrobble.Scrobbler.Services.{Env, Poll, ready, not_ready, failed, aborts}
use spotify_connect_scrobble.Scrobbler.Polling

pub data SpircCommand : Type 0 where
  shut_down : SpircCommand

abbrev pub contains : List Bytes → Bytes → Bool
contains [] x = false
contains (y ∷ ys) x = bytes_eq.beq y x || contains ys x

abbrev pub is_elsewhere : List Bytes → Bytes → Bool
is_elsewhere [] me = false
is_elsewhere (r ∷ rs) me = not (contains (r ∷ rs) me)

-- The test of `handle_frame`: the frame is from this device, or for other devices only.
abbrev pub is_foreign : Bytes → Frame → Bool
is_foreign me frame = bytes_eq.beq frame.ident me || is_elsewhere frame.recipient me

-- `CommandSender::recipient`
abbrev pub add_recipient : Bytes → Frame → Frame
add_recipient recipient frame = record frame { recipient = frame.recipient ++ recipient ∷ [] }

abbrev pub has_state : Option State → Bool
has_state none = false
has_state (some state) = true

abbrev pub addressed : Option Bytes → Frame → Frame
addressed none frame = frame
addressed (some recipient) frame = add_recipient recipient frame

-- What the world gives one round of the task's loop: the streams' answers, whether the sink has
-- flushed, and the clocks: `wall` for `now_ms`, the others in nanoseconds for the scrobbler.
pub record Round : Type 0 where
  pub frame : Poll (Option Frame)
  pub command : Poll (Option SpircCommand)
  pub flush : Poll (Unit {0})
  pub wall : ℕ
  pub tested : ℕ
  pub set : ℕ
  pub polled : ℕ

-- `poll_complete().unwrap()`
abbrev pub is_flushed : Poll (Unit {0}) → Run Bool
is_flushed (ready done) = returns true
is_flushed not_ready = returns false
is_flushed failed = panics
is_flushed aborts = panics

-- `sender` stands by the frames that it was given, newest first.
module _ (E : Env) where
  pub record SpircTask : Type 0 where
    pub sequence : SeqGenerator
    pub ident : Bytes
    pub device : DeviceState
    pub state : State
    pub sent : List Frame
    pub commands_closed : Bool
    pub shutdown : Bool
    pub scrobbler : Scrobbler E

  -- `CommandSender::new`
  unfoldable pub command_frame : Overflow → ℕ → MessageType → SpircTask → Run (Frame × SpircTask)
  command_frame mode wall typ t = do
    (seq_nr, sequence) ← Seq.get mode 32 t.sequence
    returns (
      record {
        version = 1;
        ident = t.ident;
        protocol_version = codes "2.0.0";
        seq_nr = seq_nr;
        typ = typ;
        device_state = t.device;
        state = none;
        state_update_id = wall;
        recipient = [];
      },
      record t { sequence = sequence },
    )

  -- `CommandSender::send`; the sink over a `MercurySender` takes every frame.
  unfoldable pub send : Frame → SpircTask → SpircTask
  send frame t =
      let stated =
        if not (has_state frame.state) && t.device.is_active
        then record frame { state = some t.state }
        else frame in
      record t { sent = stated ∷ t.sent }

  unfoldable pub send_hello : Overflow → ℕ → SpircTask → Run SpircTask
  send_hello mode wall t = do (frame, t') ← command_frame mode wall hello t; returns (send frame t')

  unfoldable pub send_notify : Overflow → ℕ → Option Bytes → SpircTask → Run SpircTask
  send_notify mode wall recipient t = do
    (frame, t') ← command_frame mode wall notify t
    returns (send (addressed recipient frame) t')

  -- `Spirc::new`, for a session with a device id.
  unfoldable pub new :
      Overflow → ℕ → Bytes → Bytes → ConnectConfig → ScrobblerConfig → Run SpircTask
  new mode wall version device_id config scrobbler_config = send_hello mode wall (record {
    sequence = record { value = 1 };
    ident = device_id;
    device = initial_device_state version config 0xFFFF;
    state = initial_state;
    sent = [];
    commands_closed = false;
    shutdown = false;
    scrobbler = Scrobbler.new E scrobbler_config;
  })

  unfoldable pub handle_command : Overflow → ℕ → SpircCommand → SpircTask → Run SpircTask
  handle_command mode wall shut_down t = do
    (frame, t') ← command_frame mode wall goodbye t
    returns (record (send frame t') { shutdown = true; commands_closed = true })

  module _ ⦃order : ByteOrder⦄ where
    -- A state with tracks: the one that plays is the scrobbler's.
    unfoldable pub track_state : Round → State → SpircTask → Run SpircTask
    track_state r state t = do
      playing ← unwrap (get_elem? state.track state.playing_track_index)
      id ← from_raw playing.gid
      returns (record t {
        scrobbler = update_current_track E r.tested r.set id (state.position_ms == 0) t.scrobbler;
      })

    abbrev pub handle_state : Round → State → List Messages.TrackRef → SpircTask → Run SpircTask
    handle_state r state [] t = returns t
    handle_state r state (x ∷ xs) t = track_state r state t

    abbrev pub handle_message : Overflow → Round → MessageType → Frame → SpircTask → Run SpircTask
    handle_message mode r hello frame t = send_notify mode r.wall (some frame.ident) t
    handle_message mode r notify frame t =
        let state = get_state frame.state in
        if not frame.device_state.is_active then returns t else handle_state r state state.track t
    handle_message mode r typ frame t = returns t

    unfoldable pub handle_frame : Overflow → Round → Frame → SpircTask → Run SpircTask
    handle_frame mode r frame t =
        if is_foreign t.ident frame then returns t else handle_message mode r frame.typ frame t

    -- The three streams of a round, each with whether it made progress.
    abbrev pub take_frame :
        Overflow → Round → Poll (Option Frame) → SpircTask → Run (Bool × SpircTask)
    take_frame mode r (ready (some frame)) t = do
      t' ← handle_frame mode r frame t
      returns (true, t')
    take_frame mode r (ready none) t = panics
    take_frame mode r not_ready t = returns (false, t)
    take_frame mode r failed t = panics
    take_frame mode r aborts t = panics

    abbrev pub take_command :
        Overflow → ℕ → Poll (Option SpircCommand) → SpircTask → Run (Bool × SpircTask)
    take_command mode wall (ready (some command)) t = do
      t' ← handle_command mode wall command t
      returns (true, t')
    take_command mode wall (ready none) t = returns (false, t)
    take_command mode wall not_ready t = returns (false, t)
    take_command mode wall failed t = panics
    take_command mode wall aborts t = panics

    abbrev pub took_scrobbler : Poll Unit × Scrobbler E → SpircTask → Run (Bool × SpircTask)
    took_scrobbler (ready done, s) t = returns (true, record t { scrobbler = s })
    took_scrobbler (not_ready, s) t = returns (false, record t { scrobbler = s })
    took_scrobbler (failed, s) t = returns (false, record t { scrobbler = s })
    took_scrobbler (aborts, s) t = panics

    unfoldable pub poll_streams : Overflow → Round → SpircTask → Run (Bool × SpircTask)
    poll_streams mode r t = do
      (framed, t1) ← take_frame mode r r.frame t
      (commanded, t2) ← take_command mode r.wall r.command t1
      (scrobbled, t3) ← took_scrobbler (Polling.poll E r.polled t2.scrobbler) t2
      returns (framed || commanded || scrobbled, t3)

    abbrev pub poll_open : Bool → Overflow → Round → SpircTask → Run (Bool × SpircTask)
    poll_open true mode r t = returns (false, t)
    poll_open false mode r t = poll_streams mode r t

    -- `poll`, over the rounds that the world gives; `none` if they do not suffice.
    unfoldable pub poll :
        Overflow → List Round → SpircTask → Run (Option (Poll (Unit {0}) × SpircTask))
    poll mode [] t = returns none
    poll mode (r ∷ rounds) t = do
      (progress, t') ← poll_open t.shutdown mode r t
      flushed ← is_flushed r.flush
      let rest = poll mode rounds t'
      if t'.shutdown && flushed
          then returns (some (ready tt, t'))
          else (if progress then rest else returns (some (not_ready, t')))
