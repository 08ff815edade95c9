-- ===== src/Spirc/Messages.antt =====
-- The messages of src/protocol/proto/spirc.proto, with the fields that src/spirc.rs reads or sets. A
-- field stands for what its getter gives, the default if it is not set; `state` of a frame tells.
use spotify_connect_scrobble.Prelude.{ℕ, List, [], Option, none, some, Bool, false}
use spotify_connect_scrobble.Prelude.Words.{Bytes}

pub data MessageType : Type 0 where
  hello goodbye probe notify load play pause play_pause seek prev next : MessageType
  volume shuffle repeat volume_down volume_up replace logout action rename update_metadata :
      MessageType

pub data PlayStatus : Type 0 where
  status_stop status_play status_pause status_loading : PlayStatus

pub data CapabilityType : Type 0 where
  supported_contexts can_be_player restrict_to_local device_type gaia_eq_connect_id : CapabilityType
  supports_logout is_observable volume_steps supported_types command_acks : CapabilityType
  supports_rename hidden : CapabilityType

pub record Capability : Type 0 where
  pub typ : CapabilityType
  pub int_value : List ℕ
  pub string_value : List Bytes

pub record DeviceState : Type 0 where
  pub sw_version : Bytes
  pub is_active : Bool
  pub can_play : Bool
  pub volume : ℕ
  pub name : Bytes
  pub capabilities : List Capability

pub record TrackRef : Type 0 where
  pub gid : Bytes

pub record State : Type 0 where
  pub position_ms : ℕ
  pub status : PlayStatus
  pub position_measured_at : ℕ
  pub shuffle : Bool
  pub repeat : Bool
  pub playing_track_index : ℕ
  pub track : List TrackRef

pub record Frame : Type 0 where
  pub version : ℕ
  pub ident : Bytes
  pub protocol_version : Bytes
  pub seq_nr : ℕ
  pub typ : MessageType
  pub device_state : DeviceState
  pub state : Option State
  pub state_update_id : ℕ
  pub recipient : List Bytes

-- `State::new`
abbrev pub no_state : State
no_state = record {
  position_ms = 0;
  status = status_stop;
  position_measured_at = 0;
  shuffle = false;
  repeat = false;
  playing_track_index = 0;
  track = [];
}

abbrev pub get_state : Option State → State
get_state none = no_state
get_state (some state) = state
