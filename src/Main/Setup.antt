-- ===== src/Main/Setup.antt =====
-- `setup` of src/main.rs: from the program's arguments to its configuration.
use spotify_connect_scrobble.Prelude.{
  List, [], ◌∷◌, ◌++◌, Option, none, some, Bool, true, false, Run, returns, panics, ◌>>=◌, unwrap,
}
use spotify_connect_scrobble.Prelude.Words.{Bytes}
use spotify_connect_scrobble.Util.SpotifyId.{codes}
use spotify_connect_scrobble.Authentication.{Credentials, get_credentials}
use spotify_connect_scrobble.Cache
use spotify_connect_scrobble.Cache.{FilePath, Disk, Cache, Json}
use spotify_connect_scrobble.Config.{DeviceType, ConnectConfig, from_str, default}
use spotify_connect_scrobble.Connection.Authenticate.{Version}
use spotify_connect_scrobble.Scrobbler.{ScrobblerConfig}
use spotify_connect_scrobble.Session.{SessionConfig}

-- An option of the command line; the short or the long name may be empty.
pub record Opt : Type 0 where
  pub short_name : Bytes
  pub long_name : Bytes
  pub desc : Bytes
  pub hint : Bytes
  pub has_argument : Bool

-- `getopts::Matches`: an option is asked for by one of its names.
pub record Matches : Type 0 where
  pub opt_present : Bytes → Bool
  pub opt_str : Bytes → Option Bytes

-- `Result<Matches, Fail>`, a failure by its text.
pub data Parsed : Type 0 where
  ok : Matches → Parsed
  err : Bytes → Parsed

-- The libraries: `getopts`, the path of a text, and SHA-1 in hexadecimal digits.
pub record Libraries : Type 0 where
  pub parse : List Opt → List Bytes → Parsed
  pub usage : List Opt → Bytes → Bytes
  pub path_of : Bytes → FilePath
  pub sha1_hex : Bytes → Bytes

-- What the program finds: the variable `RUST_LOG`, what the user types at a prompt, if anything, the
-- filters of the logger, if there is one, and the disk.
pub record System : Type 0 where
  pub rust_log : Option Bytes
  pub typed : Option Bytes
  pub logger : Option Bytes
  pub disk : Disk

pub record Setup : Type 0 where
  pub cache : Option Cache
  pub session_config : SessionConfig
  pub connect_config : ConnectConfig
  pub credentials : Option Credentials
  pub scrobbler_config : ScrobblerConfig

-- `exited` behind a text on the standard error.
pub data Outcome : Type 0 where
  exited : Bytes → Outcome
  ready : Setup → System → Outcome

abbrev optopt : Bytes → Bytes → Bytes → Bytes → Opt
optopt short_name long_name desc hint = record {
  short_name = short_name;
  long_name = long_name;
  desc = desc;
  hint = hint;
  has_argument = true;
}

abbrev pub options : List Opt
options =
    optopt (codes "c") (codes "cache") (codes "Path to a directory where files will be cached.")
      (codes "CACHE")
    ∷ optopt (codes "n") (codes "name") (codes "Device name (defaults to Scrobbler)") (codes "NAME")
    ∷ optopt [] (codes "device-type") (codes "Displayed device type") (codes "DEVICE_TYPE")
    ∷ record {
      short_name = codes "v";
      long_name = codes "verbose";
      desc = codes "Enable verbose output";
      hint = [];
      has_argument = false;
    }
    ∷ optopt [] (codes "spotify-username") (codes "Username to sign in with") (codes "USERNAME")
    ∷ optopt [] (codes "spotify-password") (codes "Password") (codes "PASSWORD")
    ∷ optopt [] (codes "lastfm-username") (codes "Last.fm Username") (codes "LASTFM_USERNAME")
    ∷ optopt [] (codes "lastfm-password") (codes "Last.fm Password") (codes "LASTFM_PASSWORD")
    ∷ optopt [] (codes "lastfm-api-key") (codes "Last.fm API Key") (codes "API_KEY")
    ∷ optopt [] (codes "lastfm-api-secret") (codes "Last.fm API Secret") (codes "SECRET")
    ∷ []

-- `builder.init().unwrap()`: there may be one logger.
abbrev pub init : Bytes → Option Bytes → Run Bytes
init filters none = returns filters
init filters (some logger) = panics

abbrev pub default_filters : Bool → Bytes
default_filters true = codes "mdns=info,librespot=trace"
default_filters false = codes "mdns=info,librespot=info"

-- The warning about `--verbose` is a line of the log, and is left out.
unfoldable pub setup_logging : Option Bytes → Bool → Option Bytes → Run Bytes
setup_logging (some config) verbose logger = init config logger
setup_logging none verbose logger = init (default_filters verbose) logger

abbrev pub unwrap_or : Bytes → Option Bytes → Bytes
unwrap_or other none = other
unwrap_or other (some text) = text

abbrev pub device_type_of : Option Bytes → Run DeviceType
device_type_of none = returns default
device_type_of (some text) = unwrap (from_str text)

module _ (Lib : Libraries) (J : Json) (allows : FilePath → Bool) (v : Version) where
  unfoldable pub usage : Bytes → List Opt → Bytes
  usage program opts = Lib.usage opts (codes "Usage: " ++ (program ++ codes " [options]"))

  -- `device_id` of core/src/session.rs.
  abbrev pub device_id : Bytes → Bytes
  device_id name = Lib.sha1_hex name

  -- The audio cache is off.
  abbrev pub open_cache : Option Bytes → Disk → Run (Option Cache × Disk)
  open_cache none d = returns (none, d)
  open_cache (some location) d = do
    (cache, d') ← Cache.new allows (Lib.path_of location) false d
    returns (some cache, d')

  abbrev pub cached_credentials : Option Cache → Disk → Run (Option Credentials)
  cached_credentials none d = returns none
  cached_credentials (some cache) d = Cache.credentials allows J cache d

  abbrev pub scrobbler_config : Matches → Run ScrobblerConfig
  scrobbler_config matches = do
    api_key ← unwrap (matches.opt_str (codes "lastfm-api-key"))
    api_secret ← unwrap (matches.opt_str (codes "lastfm-api-secret"))
    username ← unwrap (matches.opt_str (codes "lastfm-username"))
    password ← unwrap (matches.opt_str (codes "lastfm-password"))
    returns (record {
      api_key = api_key;
      api_secret = api_secret;
      username = username;
      password = password;
    })

  -- `setup` behind the options.
  unfoldable pub configure : Matches → System → Run (Setup × System)
  configure matches s = do
    logger ← setup_logging s.rust_log (matches.opt_present (codes "verbose")) s.logger
    let name = unwrap_or (codes "Scrobbler") (matches.opt_str (codes "name"))
    (cache, disk) ← open_cache (matches.opt_str (codes "c")) s.disk
    cached ← cached_credentials cache disk
    credentials ←
        get_credentials (matches.opt_str (codes "spotify-username"))
          (matches.opt_str (codes "spotify-password")) cached s.typed
    scrobbler ← scrobbler_config matches
    device_type ← device_type_of (matches.opt_str (codes "device-type"))
    returns (
      record {
        cache = cache;
        session_config = record { user_agent = v.version_string; device_id = device_id name };
        connect_config = record { name = name; device_type = device_type };
        credentials = credentials;
        scrobbler_config = scrobbler;
      },
      record s { logger = some logger; disk = disk },
    )

  abbrev pub parsed : Bytes → Parsed → System → Run Outcome
  parsed program (ok matches) s = do (setup, s') ← configure matches s; returns (ready setup s')
  parsed program (err text) s =
      returns (exited (codes "error: " ++ (text ++ (10 ∷ (usage program options ++ 10 ∷ [])))))

  -- `&args[1..]` panics without a name of the program.
  unfoldable pub setup : List Bytes → System → Run Outcome
  setup [] s = panics
  setup (program ∷ args) s = parsed program (Lib.parse options args) s
