-- ===== src/Main/StartTests.antt =====
-- A run of the theorem on src/main.rs and its cache at concrete inputs.
use spotify_connect_scrobble.Prelude.{
  ℕ, ◌≡◌, refl, inr, [], ◌∷◌, ◌++◌, length, take, drop, Option, none, some, Bool, true, false,
  returns, ◌==◌, if◌then◌else◌, take-length-append, drop-length-append,
}
use spotify_connect_scrobble.Prelude.Words.{Bytes}
use spotify_connect_scrobble.Prelude.Dict
use spotify_connect_scrobble.Prelude.Eq.{bytes_beq}
use spotify_connect_scrobble.Prelude.Int.{ℤ, pos, negsuc}
use spotify_connect_scrobble.Util.SpotifyId.{codes}
use spotify_connect_scrobble.ApResolve.{Reader}
use spotify_connect_scrobble.Authentication.{Credentials, with_password}
use spotify_connect_scrobble.Authentication.Types.{authentication_stored_spotify_credentials}
use spotify_connect_scrobble.Authentication.Json.{Fields, Serde}
use spotify_connect_scrobble.Cache
use spotify_connect_scrobble.Cache.{FilePath, Disk, Cache, mkdir_existing}
use spotify_connect_scrobble.Config.{speaker}
use spotify_connect_scrobble.Connection.Authenticate.{Login, Version}
use spotify_connect_scrobble.Session.{SessionConfig, username}
use spotify_connect_scrobble.Session.Connect.{Connected, connect}
use spotify_connect_scrobble.Main.Setup.{Matches, Libraries, System, Setup, ok, configure}
use spotify_connect_scrobble.Main.Login.{json, IsComplete}
use spotify_connect_scrobble.Main.Restart.{configure-connect}

-- A text format: the number, the length of the name, the name, and the data.
abbrev write_fields : Fields → Bytes
write_fields f = write_number f.auth_type (length f.username ∷ (f.username ++ f.auth_data))
  where
    write_number : ℤ → Bytes → Bytes
    write_number (pos n) rest = 0 ∷ n ∷ rest
    write_number (negsuc n) rest = 1 ∷ n ∷ rest

abbrev signed : ℕ → ℕ → ℤ
signed sign n = if sign == 0 then pos n else negsuc n

abbrev read_fields : Bytes → Option Fields
read_fields (sign ∷ n ∷ size ∷ rest) =
    some
      (record { username = take size rest; auth_type = signed sign n; auth_data = drop size rest })
read_fields _ = none

read_fields-write_fields : (f : Fields) → read_fields (write_fields f) ≡ some f
read_fields-write_fields f = with_number f.username f.auth_type f.auth_data
  where
    with_number :
        (username : Bytes) (n : ℤ) (bytes : Bytes)
        → read_fields
            (write_fields (record { username = username; auth_type = n; auth_data = bytes }))
          ≡ some (record { username = username; auth_type = n; auth_data = bytes })
    with_number username (pos n) bytes = rw (take-length-append, drop-length-append) refl
    with_number username (negsuc n) bytes = rw (take-length-append, drop-length-append) refl

abbrev serde : Serde
serde = record {
  to_string = write_fields;
  from_str = read_fields;
  base64_encode = λ bytes. bytes;
  base64_decode = λ bytes. some bytes;
  from_str-to_string = λ f h. read_fields-write_fields f;
  decode-encode = λ bytes. refl;
}

abbrev stored : Credentials
stored = record {
  username = codes "ana";
  auth_type = authentication_stored_spotify_credentials;
  auth_data = 7 ∷ 8 ∷ [];
}

abbrev login : Login
login = record { write_response = λ r. r.device_id; parse_welcome = λ bytes. some stored }

abbrev reader : Reader
reader = record { is_utf8 = λ bytes. true; parse_ap_list = λ bytes. none }

abbrev matches : Matches
matches = record {
  opt_present = λ name. false;
  opt_str = λ name.
      if bytes_beq name (codes "c")
      then some (codes "cache")
      else if bytes_beq name (codes "spotify-username")
      then some (codes "ana")
      else if bytes_beq name (codes "spotify-password")
      then none
      else if bytes_beq name (codes "device-type")
      then none
      else some (codes "last");
}

abbrev libraries : Libraries
libraries = record {
  parse = λ options args. ok matches;
  usage = λ options brief. brief;
  path_of = λ location. location ∷ [];
  sha1_hex = λ name. name;
}

abbrev version : Version
version = record {
  short_sha = codes "0f";
  build_id = codes "x";
  version_string = codes "librespot-0f";
}

abbrev allows : FilePath → Bool
allows path = true

abbrev empty_disk : Disk
empty_disk = record { directories = []; files = [] }

abbrev cache : Cache
cache = record { root = codes "cache" ∷ []; use_audio_cache = false }

abbrev opened_disk : Disk
opened_disk = record {
  directories = (codes "cache" ∷ codes "files" ∷ []) ∷ (codes "cache" ∷ []) ∷ [];
  files = [];
}

abbrev config : SessionConfig
config = record { user_agent = codes "librespot"; device_id = codes "0af3" }

abbrev complete : IsComplete matches
complete = record {
  key = codes "last";
  secret = codes "last";
  name = codes "last";
  password = codes "last";
  device = speaker;
  has_key = refl;
  has_secret = refl;
  has_name = refl;
  has_password = refl;
  has_device = refl;
}

abbrev reach : Bytes → Option (Option (ℕ × Bytes))
reach address = some (some (0xac, 1 ∷ []))

configure-connect_example :
    (out : Connected) × (connect login reader
        (json serde)
        allows
        version
        config
        (with_password (codes "ana") (codes "pw"))
        (some cache)
        none
        reach
        0
        opened_disk
      ≡ returns (some out))
    × (setup : Setup) × (s' : System) × (configure libraries
          (json serde)
          allows
          version
          matches
          (record { rust_log = none; typed = none; logger = none; disk = out.disk })
        ≡ returns (setup, s'))
    × (setup.credentials ≡ some stored)
    × (username out.session ≡ codes "ana")
unfolding Cache.new mkdir_existing Dict.get
configure-connect_example =
    configure-connect login reader serde libraries allows version (codes "cache") cache empty_disk
      opened_disk config (with_password (codes "ana") (codes "pw")) none reach 0 (1 ∷ []) stored
      matches none none refl refl refl refl refl refl complete (refl, inr refl)

-- The same options without the cache and the user.
abbrev anonymous : Matches
anonymous = record {
  opt_present = λ name. true;
  opt_str = λ name.
      if bytes_beq name (codes "c")
      then none
      else if bytes_beq name (codes "spotify-username")
      then none
      else matches.opt_str name;
}

abbrev system : System
system = record { rust_log = none; typed = none; logger = none; disk = empty_disk }
