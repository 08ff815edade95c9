-- ===== src/Session/Connect.antt =====
-- `Session::connect` of core/src/session.rs: from the credentials to a session.
use spotify_connect_scrobble.Prelude.{ℕ, List, Option, none, some, Bool, Run, returns, ◌>>=◌}
use spotify_connect_scrobble.Prelude.Words.{Bytes}
use spotify_connect_scrobble.ApResolve.{Reader, apresolve_or_fallback}
use spotify_connect_scrobble.Authentication.{Credentials}
use spotify_connect_scrobble.Cache.{FilePath, Disk, Cache, Json, save_credentials}
use spotify_connect_scrobble.Connection.Authenticate.{Login, Version, login_packet, on_login}
use spotify_connect_scrobble.Session.{Session, SessionConfig, create}

-- What came of a connection: its address, the packet that was sent over it, the session, the disk
-- with the cache on it, and the counter of sessions.
pub record Connected : Type 0 where
  pub address : Bytes
  pub sent : ℕ × Bytes
  pub session : Session
  pub disk : Disk
  pub counter : ℕ

-- `allows` says what the system lets the program write.
module _ (L : Login) (R : Reader) (J : Json) (allows : FilePath → Bool) (v : Version) where
  -- `cache.save_credentials`, if there is a cache.
  abbrev pub save : Option Cache → Credentials → Disk → Run Disk
  save none credentials d = returns d
  save (some cache) credentials d = save_credentials allows J credentials cache d

  abbrev pub logged_in :
      SessionConfig
      → Credentials
      → Option Cache
      → Bytes
      → ℕ
      → Disk
      → Option (Option (ℕ × Bytes))
      → Run (Option Connected)
  logged_in config credentials cache address counter d none = returns none
  logged_in config credentials cache address counter d (some answer) = do
    reusable ← on_login L answer
    d' ← save cache reusable d
    let (session, counter') = create config cache reusable.username counter
    returns (
        some (record {
          address = address;
          sent = login_packet L v credentials config.device_id;
          session = session;
          disk = d';
          counter = counter';
        }))

  -- `response` is that of the resolver, and `reach` gives, for an address, nothing when there is no
  -- connection, or the first packet after the login, if there is one.
  unfoldable pub connect :
      SessionConfig
      → Credentials
      → Option Cache
      → Option (List Bytes)
      → (Bytes → Option (Option (ℕ × Bytes)))
      → ℕ
      → Disk
      → Run (Option Connected)
  connect config credentials cache response reach counter d =
      let address = apresolve_or_fallback R response in
      logged_in config credentials cache address counter d (reach address)
