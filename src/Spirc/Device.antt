-- ===== src/Spirc/Device.antt =====
-- How src/spirc.rs describes this device to the others.
use spotify_connect_scrobble.Prelude.{ℕ, [], ◌∷◌, true, false}
use spotify_connect_scrobble.Prelude.Words.{Bytes}
use spotify_connect_scrobble.Util.SpotifyId.{codes}
use spotify_connect_scrobble.Config.{ConnectConfig, discriminant}
use spotify_connect_scrobble.Spirc.Messages.{
  CapabilityType, State, no_state, DeviceState, Capability, status_stop, can_be_player, device_type,
  gaia_eq_connect_id, supports_logout, is_observable, volume_steps, supported_contexts,
  supported_types,
}

abbrev pub initial_state : State
initial_state = record no_state {
  repeat = false;
  shuffle = false;
  status = status_stop;
  position_ms = 0;
  position_measured_at = 0;
}

abbrev pub number : CapabilityType → ℕ → Capability
number typ n = record { typ = typ; int_value = n ∷ []; string_value = [] }

abbrev pub initial_device_state : Bytes → ConnectConfig → ℕ → DeviceState
initial_device_state version config volume = record {
  sw_version = version;
  is_active = false;
  can_play = true;
  volume = volume;
  name = config.name;
  capabilities =
      number can_be_player 1
      ∷ number device_type (discriminant config.device_type)
      ∷ number gaia_eq_connect_id 1
      ∷ number supports_logout 0
      ∷ number is_observable 1
      ∷ number volume_steps 64
      ∷ record {
        typ = supported_contexts;
        int_value = [];
        string_value =
            codes "album"
            ∷ codes "playlist"
            ∷ codes "search"
            ∷ codes "inbox"
            ∷ codes "toplist"
            ∷ codes "starred"
            ∷ codes "publishedstarred"
            ∷ codes "track"
            ∷ [];
      }
      ∷ record {
        typ = supported_types;
        int_value = [];
        string_value =
            codes "audio/local" ∷ codes "audio/track" ∷ codes "local" ∷ codes "track" ∷ [];
      }
      ∷ [];
}
