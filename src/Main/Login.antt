-- ===== src/Main/Login.antt =====
-- src/main.rs over the session and its cache: a login is kept for the next start of the program.
use spotify_connect_scrobble.Prelude.{
  ◌≡◌, ◌⊎◌, ◌↔◌, refl, inl, inr, sym, ap, [], ◌∷◌, ◌++◌, Option, none, some, Bool, true, false,
  Bool-cases, ◌||◌, returns, >>=-eq-returns, returns-injective, subst, arith,
}
use spotify_connect_scrobble.Prelude.Words.{Bytes}
use spotify_connect_scrobble.Prelude.Eq.{path_eq, bytes_beq_iff}
use spotify_connect_scrobble.Prelude.Dict
use spotify_connect_scrobble.Util.SpotifyId.{codes}
use spotify_connect_scrobble.Authentication.{Credentials, get_credentials}
use spotify_connect_scrobble.Authentication.Json.{Serde, to_text, from_text}
use spotify_connect_scrobble.Cache
use spotify_connect_scrobble.Cache.{
  FilePath, Disk, Cache, Json, has_directory, has_contents, parent, is_directory, is_file,
  may_create, mkdir_existing, create, save_credentials, credentials_path,
}
use spotify_connect_scrobble.Cache.Paths.{
  parent-join, Extends, mkdir_existing-IsMade, mkdir_existing_same,
}
use spotify_connect_scrobble.Connection.Authenticate.{Version}
use spotify_connect_scrobble.Config.{DeviceType, speaker}
use spotify_connect_scrobble.Config.Names.{IsType, from_str-Names}
use spotify_connect_scrobble.Main.Setup.{
  device_type_of, unwrap_or, Matches, Libraries, System, Setup, setup_logging, configure,
}

-- The text format of the program.
abbrev pub json : Serde → Json
json S = record { to_text = to_text S; from_text = from_text S }

is_file-insert :
    (p path : FilePath) (contents : Bytes) (d : Disk)
    → is_file p d ≡ true
    → is_file p (record d { files = Dict.insert path contents d.files }) ≡ true
is_file-insert p path contents d h = elim (Bool-cases (path_eq.beq path p)) [
  | inl e ↦ rw (Dict.get-insert path p contents d.files, e) refl
  | inr e ↦ rw (Dict.get-insert path p contents d.files, e) h
]

-- What is on disk, perhaps with other files too.
pub record Keeps (d d' : Disk) : Type 0 where
  pub same : d'.directories ≡ d.directories
  pub files : (p : FilePath) → is_file p d ≡ true → is_file p d' ≡ true

is_directory_same :
    (p : FilePath) (d d' : Disk)
    → d'.directories ≡ d.directories
    → is_directory p d ≡ true
    → is_directory p d' ≡ true
is_directory_same [] d d' e h = refl
is_directory_same (name ∷ names) d d' e h =
    subst (λ ds. has_directory (name ∷ names) ds ≡ true) (sym e) h

is_there-Keeps :
    (p : FilePath) (d d' : Disk)
    → Keeps d d'
    → (is_directory p d || is_file p d) ≡ true
    → (is_directory p d' || is_file p d') ≡ true
is_there-Keeps p d d' k h = elim (Bool-cases (is_directory p d)) [
  | inl e ↦ rw (is_directory_same p d d' k.same e) refl
  | inr e ↦ ground (arith, k.files p (rw e at h))
]

Extends-is_there :
    (p : FilePath) (d d' : Disk)
    → Extends d d'
    → (is_directory p d || is_file p d) ≡ true
    → (is_directory p d' || is_file p d') ≡ true
Extends-is_there p d d' x h = elim (Bool-cases (is_directory p d)) [
  | inl e ↦ rw (x.directories p e) refl
  | inr e ↦
      let held : is_file p d ≡ true = rw e at h in
      let kept : is_file p d' ≡ true =
        subst (λ fs. has_contents (Dict.get p fs) ≡ true) (sym x.same_files) held in
      ground (arith, kept)
]

module _ (allows : FilePath → Bool) where
  -- A cache that was opened has its directory.
  pub new-root :
      (location : FilePath) (audio : Bool) (c : Cache) (d d' : Disk)
      → Cache.new allows location audio d ≡ returns (c, d')
      → (c.root ≡ location) × (is_directory location d' ≡ true)
  unfolding Cache.new
  new-root location audio c d d' h =
      let (d1, h1, k1) = >>=-eq-returns (mkdir_existing allows location d) _ h in
      let (d2, h2, k2) =
        >>=-eq-returns (mkdir_existing allows (location ++ codes "files" ∷ []) d1) _ k1 in
      let made : Cache = record { root = location; use_audio_cache = audio } in
      let q = returns-injective (made, d2) (c, d') k2 in
      let files = mkdir_existing-IsMade allows (location ++ codes "files" ∷ []) d1 d2 h2 in
      (
        sym (ap (λ r. r.0.root) q),
        subst (λ x. is_directory location x ≡ true) (ap (λ r. r.1) q)
            (files.extends.directories location (
              subst (λ p. is_directory p d1 ≡ true) (parent-join location (codes "files"))
                files.stands)),
      )

  -- A cache that was opened is opened again, on any disk that keeps its directories and files, and
  -- changes nothing.
  pub new_again :
      (location : FilePath) (audio : Bool) (c : Cache) (d d' d'' : Disk)
      → Cache.new allows location audio d ≡ returns (c, d')
      → Keeps d' d''
      → Cache.new allows location audio d'' ≡ returns (c, d'')
  unfolding Cache.new
  new_again location audio c d d' d'' h keeps =
      let (d1, h1, k1) = >>=-eq-returns (mkdir_existing allows location d) _ h in
      let files_path : FilePath = location ++ codes "files" ∷ [] in
      let (d2, h2, k2) = >>=-eq-returns (mkdir_existing allows files_path d1) _ k1 in
      let made : Cache = record { root = location; use_audio_cache = audio } in
      let q = returns-injective (made, d2) (c, d') k2 in
      let kept : Keeps d2 d'' = subst (λ x. Keeps x d'') (sym (ap (λ r. r.1) q)) keeps in
      let root = mkdir_existing-IsMade allows location d d1 h1 in
      let files = mkdir_existing-IsMade allows files_path d1 d2 h2 in
      let stays : (p : FilePath) → is_directory p d1 ≡ true → is_directory p d'' ≡ true =
        λ p k. is_directory_same p d2 d'' kept.same (files.extends.directories p k) in
      rw
        (
          mkdir_existing_same allows location d''
              (stays (parent location) (root.extends.directories (parent location) root.stands))
              (is_there-Keeps location d2 d'' kept
                (Extends-is_there location d1 d2 files.extends root.is_there)),
          mkdir_existing_same allows files_path d'' (stays (parent files_path) files.stands)
              (is_there-Keeps files_path d2 d'' kept files.is_there),
        )
        (ap (λ r. returns (r.0, d'')) q)

  -- What saving credentials leaves on disk.
  pub save_credentials_lem :
      (J : Json) (user : Credentials) (c : Cache) (d : Disk)
      → may_create allows (credentials_path allows c) d ≡ true
      → J.from_text (J.to_text user) ≡ some user
      → (d' : Disk) × (save_credentials allows J user c d ≡ returns d')
        × Keeps d d'
        × (Cache.credentials allows J c d' ≡ returns (some user))
  unfolding save_credentials Cache.credentials create
  save_credentials_lem J user c d a h =
      let path : FilePath = credentials_path allows c in
      (
        record d { files = Dict.insert path (J.to_text user) d.files },
        rw a refl,
        record { same = refl; files = λ p k. is_file-insert p path (J.to_text user) d k },
        rw (Dict.get-insert_same path (J.to_text user) d.files, h) refl,
      )

-- The options of a start that can go on: Last.fm's four are given, and the type of the device is
-- named, or not given.
pub record IsComplete (m : Matches) : Type 0 where
  pub key : Bytes
  pub secret : Bytes
  pub name : Bytes
  pub password : Bytes
  pub device : DeviceType
  pub has_key : m.opt_str (codes "lastfm-api-key") ≡ some key
  pub has_secret : m.opt_str (codes "lastfm-api-secret") ≡ some secret
  pub has_name : m.opt_str (codes "lastfm-username") ≡ some name
  pub has_password : m.opt_str (codes "lastfm-password") ≡ some password
  pub has_device : IsType (m.opt_str (codes "device-type")) device

pub device_type_of-IsType :
    (o : Option Bytes) (d : DeviceType) → (device_type_of o ≡ returns d) ↔ IsType o d
device_type_of-IsType none d = (λ h. sym (returns-injective speaker d h), λ h. rw h refl)
device_type_of-IsType (some text) d = from_str-Names text d

-- Neither a password nor another user's name is given.
abbrev pub IsFor : Bytes → Matches → Type 0
IsFor user m =
    (m.opt_str (codes "spotify-password") ≡ none)
    × ((m.opt_str (codes "spotify-username") ≡ none)
        ⊎ (m.opt_str (codes "spotify-username") ≡ some user))

get_credentials_cached :
    (user : Credentials) (typed : Option Bytes) (m : Matches)
    → IsFor user.username m
    → get_credentials
        (m.opt_str (codes "spotify-username"))
        (m.opt_str (codes "spotify-password"))
        (some user)
        typed
      ≡ returns (some user)
unfolding get_credentials
get_credentials_cached user typed m (p, n) = elim n [
  | inl e ↦ rw (p, e) refl
  | inr e ↦ rw (p, e) (ground (arith, bytes_beq_iff user.username user.username))
]

pub setup_logging_first :
    (config : Option Bytes) (verbose : Bool)
    → (filters : Bytes) × (setup_logging config verbose none ≡ returns filters)
unfolding setup_logging
setup_logging_first (some config) verbose = (config, refl)
setup_logging_first none true = (codes "mdns=info,librespot=trace", refl)
setup_logging_first none false = (codes "mdns=info,librespot=info", refl)

module _ (Lib : Libraries) (allows : FilePath → Bool) (v : Version) where
  -- The configuration by options that are complete.
  abbrev pub configured : (m : Matches) → IsComplete m → Option Cache → Option Credentials → Setup
  configured m w cache credentials =
      let name = unwrap_or (codes "Scrobbler") (m.opt_str (codes "name")) in
      record {
        cache = cache;
        session_config = record { user_agent = v.version_string; device_id = Lib.sha1_hex name };
        connect_config = record { name = name; device_type = w.device };
        credentials = credentials;
        scrobbler_config = record {
          api_key = w.key;
          api_secret = w.secret;
          username = w.name;
          password = w.password;
        };
      }

  -- A start that finds credentials in its cache.
  pub configure_cached :
      (J : Json) (m : Matches) (s : System) (location : Bytes) (c : Cache) (user : Credentials)
      → m.opt_str (codes "c") ≡ some location
      → s.logger ≡ none
      → Cache.new allows (Lib.path_of location) false s.disk ≡ returns (c, s.disk)
      → Cache.credentials allows J c s.disk ≡ returns (some user)
      → IsComplete m
      → IsFor user.username m
      → (setup : Setup) × (s' : System) × (configure Lib J allows v m s ≡ returns (setup, s'))
        × (setup.credentials ≡ some user)
        × (setup.cache ≡ some c)
  unfolding configure
  configure_cached J m s location c user hc hl hn hr w u =
      let (filters, logged) = setup_logging_first s.rust_log (m.opt_present (codes "verbose")) in
      (
        configured m w (some c) (some user),
        record s { logger = some filters },
        rw
            (
              hl,
              logged,
              hc,
              hn,
              hr,
              get_credentials_cached user s.typed m u,
              w.has_key,
              w.has_secret,
              w.has_name,
              w.has_password,
              (device_type_of-IsType (m.opt_str (codes "device-type")) w.device).1 w.has_device,
            )
            refl,
        refl,
        refl,
      )
