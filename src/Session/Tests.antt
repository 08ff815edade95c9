-- ===== src/Session/Tests.antt =====
-- Runs of the theorems on core/src/session.rs at concrete inputs.
use spotify_connect_scrobble.Prelude.{
  ℕ, ◌≡◌, refl, List, [], ◌∷◌, ◌++◌, replicate, none, some, Bool, true, false, returns, ◌>>=◌, inl,
  inr, arith,
}
use spotify_connect_scrobble.Prelude.Words.{Bytes, be_bytes}
use spotify_connect_scrobble.Crates.Reference.{byte_order, easy_buf}
use spotify_connect_scrobble.Mercury.Types.{Protobuf}
use spotify_connect_scrobble.Util.SpotifyId.{codes}
use spotify_connect_scrobble.Session.{Session, dispatch_all}
use spotify_connect_scrobble.Session.Routes.{parts, is_audio_key, feed_all, dispatch_all-refines}
use spotify_connect_scrobble.Session.Delivery.{dispatch_all-request}
use spotify_connect_scrobble.Prelude.Dict
use spotify_connect_scrobble.Prelude.Eq.{nat_eq}
use spotify_connect_scrobble.Prelude.Words.{checked}
use spotify_connect_scrobble.Util.Seq
use spotify_connect_scrobble.Util.Int128.{from_parts}
use spotify_connect_scrobble.Util.SpotifyId.{SpotifyId, FileId}
use spotify_connect_scrobble.Component
use spotify_connect_scrobble.Component.{current}
use spotify_connect_scrobble.AudioKey
use spotify_connect_scrobble.AudioKey.{AudioKeyManager, request, send_key_request, ok, ready, poll}
use spotify_connect_scrobble.AudioKey.Exchange.{key_request}
use spotify_connect_scrobble.AudioKey.Follows.{new-IsManager}
use spotify_connect_scrobble.Session.{dispatch_to, arm, set_country}
use spotify_connect_scrobble.Prelude.Int.{pos}

abbrev proto : Protobuf
proto = record {
  parse_header = λ text. some (record { uri = text; status_code = pos 200 });
  write_header = λ uri name content_type. uri;
  parse_subscription = λ text. some text;
}

abbrev session : Session
session = record {
  config = record { user_agent = codes "librespot"; device_id = codes "0af3" };
  session_data = record { country = []; canonical_username = codes "user" };
  packets = [];
  audio_key = record { is_made = false; cell = none };
  channel = record { is_made = false; cell = none };
  mercury = record { is_made = false; cell = none };
  cache = none;
  session_id = 0;
}

-- The country, a ping, data for a channel that is closed, and a key that nobody asked for.
abbrev packets : List (ℕ × Bytes)
packets =
    (0x1b, codes "GB")
    ∷ (0x4, 1 ∷ 2 ∷ [])
    ∷ (0x9, 0 ∷ 3 ∷ 8 ∷ [])
    ∷ (0xd, be_bytes 4 7 ++ replicate 16 9)
    ∷ []

abbrev is_utf8 : Bytes → Bool
is_utf8 bytes = true

abbrev alive : ℕ → Bool
alive channel = true

dispatch_all-refines_example :
    (dispatch_all proto is_utf8 alive packets session >>= λ s'. returns (parts s'))
    ≡ feed_all proto is_utf8 alive packets (parts session)
dispatch_all-refines_example =
    dispatch_all-refines proto is_utf8 alive packets session (refl, refl, refl)

abbrev track : SpotifyId
track = record { number = from_parts 3 4 }

abbrev file_id : FileId
file_id = record { bytes = replicate 20 7 }

abbrev key : Bytes
key = replicate 16 200

-- A session that asked for one key, and the same one with the key.
abbrev asking : Session
asking = record session {
  audio_key = record {
    is_made = true;
    cell = some (record {
      sequence = record { value = 1 };
      pending = (0, 0) ∷ [];
      next_channel = 1;
      completed = [];
      packets = (0xc, key_request 0 track file_id) ∷ [];
    });
  };
}

abbrev answered : Session
answered = record asking {
  session_data = record { country = codes "GB"; canonical_username = codes "user" };
  audio_key = record {
    is_made = true;
    cell = some (record {
      sequence = record { value = 1 };
      pending = [];
      next_channel = 1;
      completed = (0, ok (record { bytes = key })) ∷ [];
      packets = (0xc, key_request 0 track file_id) ∷ [];
    });
  };
  packets = (0x49, 1 ∷ 2 ∷ []) ∷ [];
}

-- The country and a key that nobody asked for come before the key, and a ping behind it.
dispatch_all-request_example :
    poll 0 (current AudioKey.new answered.audio_key) ≡ ready (record { bytes = key })
unfolding dispatch_all dispatch_to arm is_audio_key set_country request send_key_request
    AudioKey.dispatch Dict.get Dict.insert Dict.remove Seq.get Component.get
dispatch_all-request_example =
    dispatch_all-request proto is_utf8 alive checked track file_id AudioKey.new
      (current AudioKey.new asking.audio_key) 0
      ((0x1b, codes "GB") ∷ (0xd, be_bytes 4 7 ++ replicate 16 9) ∷ []) ((0x4, 1 ∷ 2 ∷ []) ∷ []) key
      asking answered new-IsManager (omega arith) refl refl (refl, refl, refl)
      (inl refl, (inr (7, replicate 16 9, omega arith, omega arith, refl), tt)) refl refl
