-- ===== src/Scrobbler/Tests.antt =====
-- Runs of the theorems on src/scrobbler.rs at concrete inputs.
use spotify_connect_scrobble.Prelude.{
  ℕ, ◌*◌, ◌^◌, ◌≡◌, ◌≢◌, ◌⊎◌, inl, refl, ◌∙◌, List, [], ◌∷◌, none, some, Bool, true, false, arith,
}
use spotify_connect_scrobble.Prelude.Words.{Bytes}
use spotify_connect_scrobble.Util.SpotifyId.{SpotifyId, codes}
use spotify_connect_scrobble.Util.Int128.{from_parts}
use spotify_connect_scrobble.Scrobbler.{
  Scrobbler, ScrobblerConfig, get_track_meta, can_scrobble_track, start_scrobble, send_scrobble,
  answered, update_current_track, set_new_track, new, same_id, send_now_playing,
}
use spotify_connect_scrobble.Scrobbler.Services.{
  Env, ready, not_ready, failed, aborts, now_playing, scrobble,
}
use spotify_connect_scrobble.Scrobbler.World.{done, pending, world, lawful, song, artist_id}
use spotify_connect_scrobble.Scrobbler.Polling.{
  poll, poll_auth, poll_scrobble, maybe_scrobble, poll_new_track, poll_meta, poll_now_playing,
}
use spotify_connect_scrobble.Scrobbler.Stages.{focus}
use spotify_connect_scrobble.Scrobbler.Tracking.{
  IsTracking, settled, Settled, started, MetaOf, poll-IsTracking, polled, updated, created,
}
use spotify_connect_scrobble.Scrobbler.Update.{IsDue, Reported, update_current_track_lem}
use spotify_connect_scrobble.Scrobbler.Reports.{reports, poll_reports}
use spotify_connect_scrobble.Scrobbler.Once.{IsSpent, none_yet, one_more, Polls-once}
use spotify_connect_scrobble.Scrobbler.Failure.{updates, refused_scrobble}
use spotify_connect_scrobble.Scrobbler.Play.{polls, play_is_reported}

abbrev kind : Env
kind = world true song

abbrev harsh : Env
harsh = world false song

abbrev song_id : SpotifyId
song_id = record { number = from_parts 1 2 }

abbrev meta : Bytes × Bytes × Bytes
meta = (codes "artist", codes "song", codes "album")

abbrev config : ScrobblerConfig
config = record { api_key = []; api_secret = []; username = codes "me"; password = [] }

-- A track that has just become current, at time 0.
abbrev begun : Bool → Scrobbler kind
begun scrobbled = record {
  config = config;
  calls = [];
  current_track_id = some song_id;
  current_track_start = some 0;
  current_track_meta = none;
  current_track_scrobbled = scrobbled;
  auth_future = pending;
  new_track_future = done tt;
  now_playing_future = pending;
  meta_fetch_future = pending;
  scrobble_future = none;
}

-- A track that plays, with its metadata known.
abbrev plays : (friendly : Bool) → Scrobbler (world friendly song)
plays friendly = record {
  config = config;
  calls = [];
  current_track_id = some song_id;
  current_track_start = some 0;
  current_track_meta = some meta;
  current_track_scrobbled = false;
  auth_future = pending;
  new_track_future = pending;
  now_playing_future = pending;
  meta_fetch_future = pending;
  scrobble_future = none;
}

abbrev minute : ℕ
minute = 60 * 10 ^ 9

song_meta : MetaOf kind song_id meta
unfolding get_track_meta
song_meta = (get_track_meta kind song_id, started _ refl, refl)

plays-Settled : Settled kind (focus kind (plays true))
plays-Settled = (refl, inl refl, λ m e. (song_id, refl, same_meta m e))
  where
    same_meta : (m : Bytes × Bytes × Bytes) → some meta ≡ some m → MetaOf kind song_id m
    same_meta m e = (song_meta.0, song_meta.1, song_meta.2 ∙ cc)

abbrev after : Scrobbler kind
after = (poll kind minute (plays true)).1

poll_minute : poll kind minute (plays true) ≡ (not_ready, after)
unfolding poll poll_auth poll_scrobble maybe_scrobble can_scrobble_track start_scrobble
    send_scrobble answered poll_new_track poll_meta poll_now_playing
poll_minute = refl

-- A new scrobbler that is told of the song, and polled at once.
abbrev told : Scrobbler kind
told = update_current_track kind 0 0 song_id false (new kind config)

abbrev playing : Scrobbler kind
playing = (poll kind 0 told).1

poll_told : poll kind 0 told ≡ (not_ready, playing)
unfolding poll poll_auth poll_scrobble maybe_scrobble can_scrobble_track start_scrobble
    send_scrobble answered poll_new_track poll_meta poll_now_playing update_current_track
    set_new_track new same_id get_track_meta send_now_playing
poll_told = refl

poll_reports_example :
    (reports kind (poll kind minute playing).1 ≡ reports kind playing)
    ⊎ ((m : Bytes × Bytes × Bytes) × (id : SpotifyId) × (reports kind (poll kind minute playing).1
          ≡ m ∷ reports kind playing)
        × (playing.current_track_id ≡ some id)
        × MetaOf kind id m
        × IsDue kind minute playing)
poll_reports_example = poll_reports kind (lawful true song) minute playing (
    polled 0 not_ready told playing (updated 0 0 song_id false (new kind config) (created config))
      poll_told (λ e. cc))

Polls-once_example :
    (reports kind after ≡ reports kind (plays true))
    ⊎ ((m : Bytes × Bytes × Bytes) × (reports kind after ≡ m ∷ reports kind (plays true))
        × ¬ IsSpent kind (plays true))
Polls-once_example =
    Polls-once kind (lawful true song) (plays true) after plays-Settled
      (one_more minute none_yet poll_minute)

poll-IsTracking_example : IsTracking kind after
poll-IsTracking_example =
    poll-IsTracking kind (lawful true song) minute (plays true) after not_ready poll_minute
      (λ e. cc) (settled plays-Settled)

update_current_track_lem_example :
    let t = update_current_track kind minute minute artist_id false (plays true) in
    ((some song_id ≡ some artist_id) × (false ≡ false) × (t ≡ plays true))
    ⊎ (((some song_id ≢ some artist_id) ⊎ (false ≡ true))
        × (t.current_track_id ≡ some artist_id)
        × (t.current_track_start ≡ some minute)
        × (t.current_track_meta ≡ none)
        × (t.current_track_scrobbled ≡ false)
        × (t.new_track_future ≡ done tt)
        × Reported kind minute (plays true) t.calls)
update_current_track_lem_example =
    update_current_track_lem kind minute minute artist_id false (plays true)

song_is_known : (kind.poll (Bytes × Bytes × Bytes) (get_track_meta kind song_id)).0 ≡ ready meta
unfolding get_track_meta
song_is_known = refl

play_is_reported_example :
    let t = polls kind (lawful true song) (0 ∷ 1000 ∷ 2000 ∷ []) (begun false) in
    let u = polls kind (lawful true song) (0 ∷ 1000 ∷ 2000 ∷ minute ∷ []) (begun false) in
    (t.0 ≡ not_ready)
    × (t.1.calls ≡ now_playing meta ∷ [])
    × (u.0 ≡ not_ready)
    × (u.1.calls ≡ scrobble meta ∷ now_playing meta ∷ [])
    × (u.1.current_track_scrobbled ≡ true)
play_is_reported_example =
    play_is_reported kind (lawful true song) 0 minute 0 (1000 ∷ 2000 ∷ []) (begun false) song_id
      meta refl refl refl refl refl refl song_is_known refl refl (omega arith, (omega arith, tt))
      (omega arith)

IsDue-refused : IsDue harsh minute (plays false)
IsDue-refused = record { unsent = refl; idle = refl; start = 0; started = refl; long = omega arith }

-- The song is told of once more, and another one, before the next poll.
abbrev news : List (ℕ × ℕ × SpotifyId × Bool)
news = (minute, minute, song_id, true) ∷ (minute, minute, artist_id, false) ∷ []

refused_scrobble_example :
    let t = updates harsh (lawful false song) news (poll harsh minute (plays false)).1 in
    ((poll harsh minute (plays false)).0 ≡ failed)
    × ((poll harsh (2 * minute) t).0 ≡ aborts)
    × (focus harsh (poll harsh (2 * minute) t).1 ≡ focus harsh t)
    × ((poll harsh (2 * minute) t).1.calls ≡ t.calls)
refused_scrobble_example =
    refused_scrobble harsh (lawful false song) minute (2 * minute) news (plays false) meta refl
      IsDue-refused refl refl refl
