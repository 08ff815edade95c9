-- ===== src/Main/Restart.antt =====
-- src/main.rs over core/src/session.rs and its cache: a login is kept for the next start.
use spotify_connect_scrobble.Prelude.{
  ℕ, ◌≡◌, refl, sym, ◌∙◌, subst, List, Option, none, some, Bool, true, false, returns,
}
use spotify_connect_scrobble.Prelude.Words.{Bytes}
use spotify_connect_scrobble.Util.SpotifyId.{codes}
use spotify_connect_scrobble.ApResolve.{Reader, apresolve_or_fallback}
use spotify_connect_scrobble.Authentication.{Credentials}
use spotify_connect_scrobble.Authentication.Json.{Serde, from_text-to_text}
use spotify_connect_scrobble.Cache
use spotify_connect_scrobble.Cache.{
  FilePath, Disk, Cache, parent, is_directory, may_create, credentials_path,
}
use spotify_connect_scrobble.Cache.Paths.{parent-join}
use spotify_connect_scrobble.Connection.Authenticate.{Login, Version, on_login, login_packet}
use spotify_connect_scrobble.Session.{SessionConfig, username, create}
use spotify_connect_scrobble.Session.Connect.{Connected, connect}
use spotify_connect_scrobble.Main.Setup.{Matches, Libraries, System, Setup, configure}
use spotify_connect_scrobble.Main.Login.{
  json, IsComplete, IsFor, new-root, new_again, save_credentials_lem, configure_cached,
}

module _ (L : Login) (R : Reader) (S : Serde) (Lib : Libraries) (allows : FilePath → Bool)
    (v : Version) where
  -- What comes of a connection that the access point welcomes.
  abbrev arrived :
      Cache → SessionConfig → Credentials → Credentials → Option (List Bytes) → ℕ → Disk → Connected
  arrived c config given user response counter d = record {
    address = apresolve_or_fallback R response;
    sent = login_packet L v given config.device_id;
    session = (create config (some c) user.username counter).0;
    disk = d;
    counter = (create config (some c) user.username counter).1;
  }

  -- A session of a program that opened its cache at `location` and may write the credentials there,
  -- with no directory in the place of their file, and that the access point welcomes, leaves the reusable credentials on disk: a later start with
  -- this location, with complete options and neither a password nor another user's name, has these
  -- credentials, whatever the user types, and their name is that of the session's user.
  pub configure-connect :
      (location : Bytes) (c : Cache) (d0 d : Disk) (config : SessionConfig) (given : Credentials)
      (response : Option (List Bytes)) (reach : Bytes → Option (Option (ℕ × Bytes))) (counter : ℕ)
      (welcome : Bytes) (user : Credentials) (m : Matches) (rust_log typed : Option Bytes)
      → Cache.new allows (Lib.path_of location) false d0 ≡ returns (c, d)
      → allows (credentials_path allows c) ≡ true
      → is_directory (credentials_path allows c) d ≡ false
      → reach (apresolve_or_fallback R response) ≡ some (some (0xac, welcome))
      → L.parse_welcome welcome ≡ some user
      → m.opt_str (codes "c") ≡ some location
      → IsComplete m
      → IsFor user.username m
      → (out : Connected) × (connect L R
            (json S)
            allows
            v
            config
            given
            (some c)
            response
            reach
            counter
            d
          ≡ returns (some out))
        × (setup : Setup) × (s' : System) × (configure Lib
              (json S)
              allows
              v
              m
              (record { rust_log = rust_log; typed = typed; logger = none; disk = out.disk })
            ≡ returns (setup, s'))
        × (setup.credentials ≡ some user)
        × (username out.session ≡ user.username)
  unfolding connect on_login create
  configure-connect location c d0 d config given response reach counter welcome user m rust_log
        typed opened allowed no_directory reached welcomed at_location complete for_user =
      let (at, stands) = new-root allows (Lib.path_of location) false c d0 d opened in
      let root : is_directory (parent (credentials_path allows c)) d ≡ true =
        subst (λ p. is_directory p d ≡ true)
          (sym (parent-join c.root (codes "credentials.json") ∙ at)) stands in
      let creates : may_create allows (credentials_path allows c) d ≡ true =
        rw (allowed, root, no_directory) refl in
      let (d', saved, same, kept) =
        save_credentials_lem allows (json S) user c d creates (from_text-to_text S user) in
      let later : System = record {
        rust_log = rust_log;
        typed = typed;
        logger = none;
        disk = d';
      } in
      let (setup, s', ran, has_user, _) =
        configure_cached Lib allows v (json S) m later location c user at_location refl
          (new_again allows (Lib.path_of location) false c d0 d d' opened same) kept complete
          for_user in
      (
        arrived c config given user response counter d',
        rw (reached, welcomed, saved) refl,
        setup,
        s',
        ran,
        has_user,
        refl,
      )
