-- ===== src/Scrobbler.antt =====
-- src/scrobbler.rs: decides when the track that is playing is reported to Last.fm.
pub mod Services
pub mod Polling
pub mod Update
pub mod Stages
pub mod Tracking
pub mod Reports
pub mod Once
pub mod Failure
pub mod Play
pub mod World
pub mod Tests
use Services.{
  Env, Poll, ready, not_ready, failed, aborts, Track, Call, authenticate, now_playing, scrobble,
}
use spotify_connect_scrobble.Prelude.{
  ℕ, ◌-◌, ◌*◌, ◌^◌, List, [], ◌∷◌, Option, none, some, Bool, true, false, not, ◌&&◌, Run, returns,
  panics, ltb, ◌==◌, if◌then◌else◌,
}
use spotify_connect_scrobble.Prelude.Words.{Bytes}
use spotify_connect_scrobble.Util.SpotifyId.{SpotifyId}

pub record ScrobblerConfig : Type 0 where
  pub api_key : Bytes
  pub api_secret : Bytes
  pub username : Bytes
  pub password : Bytes

-- `PartialEq` of the ids.
unfoldable pub same_id : SpotifyId → SpotifyId → Bool
same_id a b = a.number.high == b.number.high && a.number.low == b.number.low

-- `Duration::new(20, 0)` in nanoseconds, the unit of the clock.
abbrev pub least_play_time : ℕ
least_play_time = 20 * 10 ^ 9

abbrev pub played_long : Option ℕ → ℕ → Bool
played_long none now = false
played_long (some start) now = ltb least_play_time (now - start)

abbrev pub is_current : Option SpotifyId → SpotifyId → Bool
is_current none id = false
is_current (some current) id = same_id current id

-- `track.artists.first().expect("No artists")`
abbrev pub first_artist : List SpotifyId → Run SpotifyId
first_artist [] = panics
first_artist (artist ∷ others) = returns artist

module _ (E : Env) where
  open E use {Future, Scrobble}

  -- `calls` stands for the Last.fm client: the requests made so far, newest first.
  pub record Scrobbler : Type 0 where
    pub config : ScrobblerConfig
    pub calls : List (Call Scrobble)
    pub current_track_id : Option SpotifyId
    pub current_track_start : Option ℕ
    pub current_track_meta : Option Scrobble
    pub current_track_scrobbled : Bool
    pub auth_future : Future Unit
    pub new_track_future : Future Unit
    pub now_playing_future : Future Unit
    pub meta_fetch_future : Future Scrobble
    pub scrobble_future : Option (Future Unit)

  -- The future of a request that has been answered.
  unfoldable pub answered : Bool → Future Unit
  answered true = E.ok Unit tt
  answered false = E.err Unit

  unfoldable pub auth : Scrobbler → Future Unit × Scrobbler
  auth s =
      let call = authenticate s.config.username s.config.password in
      (answered (E.accepts s.calls call), record s { calls = call ∷ s.calls })

  unfoldable pub start_auth : Scrobbler → Scrobbler
  unfolding auth
  start_auth s = let (future, s') = auth s in record s' { auth_future = future }

  unfoldable pub new : ScrobblerConfig → Scrobbler
  unfolding start_auth
  new config = start_auth (record {
    config = config;
    calls = [];
    current_track_id = none;
    current_track_start = none;
    current_track_meta = none;
    current_track_scrobbled = false;
    auth_future = E.empty Unit;
    new_track_future = E.empty Unit;
    now_playing_future = E.empty Unit;
    meta_fetch_future = E.empty Scrobble;
    scrobble_future = none;
  })

  abbrev pub with_album : Track → Bytes → Run (Future Scrobble)
  with_album track artist_name = returns (
      E.and_then Bytes Scrobble (E.get_album_name track.album)
        (λ album_name. returns (E.ok Scrobble (E.new_scrobble artist_name track.name album_name))))

  abbrev pub with_artist : Track → Run SpotifyId → Run (Future Scrobble)
  with_artist track (returns artist) =
      returns (E.and_then Bytes Scrobble (E.get_artist_name artist) (with_album track))
  with_artist track panics = panics

  unfoldable pub get_track_meta : SpotifyId → Future Scrobble
  get_track_meta id =
      E.and_then Track Scrobble (E.get_track id)
        (λ track. with_artist track (first_artist track.artists))

  unfoldable pub send_now_playing : Scrobble → Scrobbler → Future Unit × Scrobbler
  unfolding answered
  send_now_playing meta s =
      let call = now_playing meta in
      (answered (E.accepts s.calls call), record s { calls = call ∷ s.calls })

  unfoldable pub send_scrobble : Scrobble → Scrobbler → Future Unit × Scrobbler
  unfolding answered
  send_scrobble meta s =
      let call = scrobble meta in
      (answered (E.accepts s.calls call), record s { calls = call ∷ s.calls })

  abbrev pub scrobble_meta : Option Scrobble → Scrobbler → Scrobbler
  scrobble_meta none s = record s { scrobble_future = none }
  scrobble_meta (some meta) s =
      let (future, s') = send_scrobble meta s in record s' { scrobble_future = some future }

  unfoldable pub start_scrobble : Scrobbler → Scrobbler
  start_scrobble s = scrobble_meta s.current_track_meta s

  abbrev pub is_idle : Option (Future Unit) → Bool
  is_idle none = true
  is_idle (some future) = false

  unfoldable pub can_scrobble_track : ℕ → Scrobbler → Bool
  can_scrobble_track now s =
      if s.current_track_scrobbled
      then false
      else if is_idle s.scrobble_future
      then played_long s.current_track_start now
      else false

  unfoldable pub set_new_track : ℕ → SpotifyId → Scrobbler → Scrobbler
  set_new_track now id s = record s {
    current_track_id = some id;
    current_track_start = some now;
    current_track_meta = none;
    current_track_scrobbled = false;
    new_track_future = E.ok Unit tt;
  }

  -- The clock is read twice: at `test` by `can_scrobble_track`, at `now` by `set_new_track`.
  unfoldable pub update_current_track : ℕ → ℕ → SpotifyId → Bool → Scrobbler → Scrobbler
  update_current_track test now id force s =
      if not force && is_current s.current_track_id id
      then s
      else set_new_track now id (if can_scrobble_track test s then start_scrobble s else s)
