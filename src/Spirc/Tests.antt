-- ===== src/Spirc/Tests.antt =====
-- Runs of the theorems on src/spirc.rs at concrete inputs.
use spotify_connect_scrobble.Prelude.{
  ◌≡◌, ◌≢◌, inl, refl, List, [], ◌∷◌, ◌++◌, Option, none, some, true, false, returns,
}
use spotify_connect_scrobble.Prelude.Words.{Bytes, checked}
use spotify_connect_scrobble.Crates.Reference.{byte_order}
use spotify_connect_scrobble.Util.Seq
use spotify_connect_scrobble.Util.SpotifyId.{codes}
use spotify_connect_scrobble.Scrobbler
use spotify_connect_scrobble.Scrobbler.{
  Scrobbler, ScrobblerConfig, start_auth, auth, answered, update_current_track, set_new_track,
  can_scrobble_track, start_scrobble, same_id,
}
use spotify_connect_scrobble.Scrobbler.Services.{Env, Poll, ready, not_ready}
use spotify_connect_scrobble.Scrobbler.Polling
use spotify_connect_scrobble.Scrobbler.World.{world, song}
use spotify_connect_scrobble.Spirc.Messages.{Frame, MessageType, hello, notify, no_state}
use spotify_connect_scrobble.Spirc.{
  SpircTask, SpircCommand, shut_down, Round, command_frame, send, send_hello, send_notify,
  handle_frame, handle_command, poll_streams, poll, new,
}
use spotify_connect_scrobble.Config.{ConnectConfig, computer}
use spotify_connect_scrobble.Spirc.Device.{initial_device_state}
use spotify_connect_scrobble.Spirc.Effects.{Effect, handle_frame-Effect}
use spotify_connect_scrobble.Spirc.Outbox.{IsOrderly, poll-IsOrderly}
use spotify_connect_scrobble.Spirc.Loop.{poll-returns}

abbrev E : Env
E = world true song

abbrev connect : ConnectConfig
connect = record { name = codes "tests"; device_type = computer }

abbrev account : ScrobblerConfig
account = record { api_key = []; api_secret = []; username = codes "me"; password = [] }

abbrev me : Bytes
me = codes "me"

abbrev greeting : Frame
greeting = record {
  version = 1;
  ident = me;
  protocol_version = codes "2.0.0";
  seq_nr = 1;
  typ = hello;
  device_state = initial_device_state (codes "v") connect 0xFFFF;
  state = none;
  state_update_id = 9;
  recipient = [];
}

abbrev task : SpircTask E
task = record {
  sequence = record { value = 2 };
  ident = me;
  device = initial_device_state (codes "v") connect 0xFFFF;
  state = no_state;
  sent = greeting ∷ [];
  commands_closed = false;
  shutdown = false;
  scrobbler = Scrobbler.new E account;
}

abbrev other_greeting : Frame
other_greeting = record greeting { ident = codes "you" }

abbrev round : Poll (Option Frame) → Poll (Option SpircCommand) → Round
round frame command = record {
  frame = frame;
  command = command;
  flush = ready tt;
  wall = 9;
  tested = 0;
  set = 0;
  polled = 0;
}

abbrev quiet : Round
quiet = round not_ready not_ready

abbrev reply : Frame
reply = record greeting { seq_nr = 2; typ = notify; recipient = codes "you" ∷ [] }

abbrev replied : SpircTask E
replied = record task { sequence = record { value = 3 }; sent = reply ∷ greeting ∷ [] }

handled : handle_frame E checked quiet other_greeting task ≡ returns replied
unfolding handle_frame send_notify command_frame send Seq.get
handled = refl

handle_frame-Effect_example : Effect E quiet other_greeting task replied
handle_frame-Effect_example =
    handle_frame-Effect E checked quiet other_greeting task replied handled

created : new E checked 9 (codes "v") me connect account ≡ returns task
unfolding new send_hello command_frame send Seq.get
created = refl

abbrev rounds : List Round
rounds =
    round (ready (some other_greeting)) not_ready ∷ round not_ready (ready (some shut_down)) ∷ []

abbrev farewell : Frame
farewell = record reply { seq_nr = 3; typ = MessageType.goodbye; recipient = [] }

abbrev closed : SpircTask E
closed = record replied {
  sequence = record { value = 4 };
  sent = farewell ∷ reply ∷ greeting ∷ [];
  commands_closed = true;
  shutdown = true;
  scrobbler = (Polling.poll E 0 (Polling.poll E 0 (Scrobbler.new E account)).1).1;
}

polled : poll E checked rounds task ≡ returns (some (ready tt, closed))
unfolding poll poll_streams handle_frame handle_command send_notify command_frame send Seq.get
    Scrobbler.new start_auth auth answered Polling.poll Polling.poll_auth Polling.poll_scrobble
    Polling.maybe_scrobble Polling.poll_new_track Polling.poll_meta Polling.poll_now_playing
    can_scrobble_track
polled = refl

poll-IsOrderly_example : IsOrderly E closed
poll-IsOrderly_example =
    poll-IsOrderly E checked rounds task closed (ready tt) (((refl, refl, tt), refl), inl refl)
      polled

poll-returns_example : poll E checked (rounds ++ quiet ∷ []) task ≢ returns none
poll-returns_example = poll-returns E checked rounds [] quiet task refl refl
