-- ===== src/Scrobbler/Play.antt =====
-- One play of a track from its start to its scrobble, in src/scrobbler.rs.
use spotify_connect_scrobble.Prelude.{
  ℕ, ◌-◌, ◌<◌, ◌≤◌, ◌≡◌, refl, ap, ◌∙◌, List, [], ◌∷◌, ◌++◌, All, some, none, true, false, arith,
}
use spotify_connect_scrobble.Prelude.Words.{Bytes}
use spotify_connect_scrobble.Scrobbler.{
  Scrobbler, can_scrobble_track, start_scrobble, send_scrobble, send_now_playing, answered,
  get_track_meta, with_artist, first_artist, least_play_time,
}
use spotify_connect_scrobble.Scrobbler.Services.{
  Env, IsLawful, Poll, Track, now_playing, scrobble, ready, not_ready, aborts,
}
use spotify_connect_scrobble.Scrobbler.Polling.{
  poll_auth, maybe_scrobble, poll_scrobble, poll_new_track, poll_meta, poll_now_playing, poll,
}
use spotify_connect_scrobble.Scrobbler.Update.{IsDue, can_scrobble_track_iff}
use spotify_connect_scrobble.Util.SpotifyId.{SpotifyId}

module _ (E : Env) (lawful : IsLawful E) where
  open E use {Future, Scrobble}

  -- The metadata of a track whose lookups are answered is its name with the names of its first
  -- artist and of its album, ready at the first poll.
  pub get_track_meta-ready :
      (id : SpotifyId) (track : Track) (artist : SpotifyId) (others : List SpotifyId)
      (artist_name album_name : Bytes)
      → (E.poll Track (E.get_track id)).0 ≡ ready track
      → track.artists ≡ artist ∷ others
      → (E.poll Bytes (E.get_artist_name artist)).0 ≡ ready artist_name
      → (E.poll Bytes (E.get_album_name track.album)).0 ≡ ready album_name
      → (E.poll Scrobble (get_track_meta E id)).0
        ≡ ready (E.new_scrobble artist_name track.name album_name)
  unfolding get_track_meta
  get_track_meta-ready id track artist others artist_name album_name t a p q =
      lawful.and_then_ready _ _ _ _ track _ t (ap (λ xs. with_artist E track (first_artist xs)) a)
      ∙ lawful.and_then_ready _ _ _ _ artist_name _ p refl
      ∙ lawful.and_then_ready _ _ _ _ album_name _ q refl
      ∙ lawful.poll_ok Scrobble _

  -- A track without artists makes the fetch of its metadata panic.
  pub get_track_meta-aborts :
      (id : SpotifyId) (track : Track)
      → (E.poll Track (E.get_track id)).0 ≡ ready track
      → track.artists ≡ []
      → (E.poll Scrobble (get_track_meta E id)).0 ≡ aborts
  unfolding get_track_meta
  get_track_meta-aborts id track t a =
      lawful.and_then_aborts _ _ _ _ track t (ap (λ xs. with_artist E track (first_artist xs)) a)

  first_poll :
      (now : ℕ) (s : Scrobbler E) (id : SpotifyId) (m : Scrobble)
      → s.auth_future ≡ E.empty Unit
      → s.scrobble_future ≡ none
      → s.current_track_id ≡ some id
      → s.current_track_meta ≡ none
      → s.new_track_future ≡ E.ok Unit tt
      → (E.poll Scrobble (get_track_meta E id)).0 ≡ ready m
      → E.accepts s.calls (now_playing m) ≡ true
      → poll E now s ≡ (
        not_ready,
        record s {
          auth_future = E.empty Unit;
          calls = now_playing m ∷ s.calls;
          new_track_future = E.empty Unit;
          current_track_scrobbled = false;
          meta_fetch_future = E.empty Scrobble;
          current_track_meta = some m;
          now_playing_future = E.empty Unit;
        },
      )
  unfolding poll poll_auth poll_scrobble maybe_scrobble can_scrobble_track start_scrobble
      poll_new_track poll_meta poll_now_playing send_now_playing answered
  first_poll now s id m auth idle track known fresh fetched accepted =
      ground (arith, lawful.poll_empty Unit, lawful.poll_ok Unit tt)

  second_poll :
      (now : ℕ) (s : Scrobbler E) (m : Scrobble)
      → s.auth_future ≡ E.empty Unit
      → s.new_track_future ≡ E.empty Unit
      → s.meta_fetch_future ≡ E.empty Scrobble
      → s.now_playing_future ≡ E.empty Unit
      → IsDue E now s
      → s.current_track_meta ≡ some m
      → E.accepts s.calls (scrobble m) ≡ true
      → ((poll E now s).0 ≡ not_ready)
        × ((poll E now s).1.calls ≡ scrobble m ∷ s.calls)
        × ((poll E now s).1.current_track_scrobbled ≡ true)
  unfolding poll poll_auth poll_scrobble maybe_scrobble start_scrobble poll_new_track poll_meta
      poll_now_playing send_scrobble answered
  second_poll now s m auth idle fetched announced due known accepted = ground (
    arith,
    lawful.poll_empty Unit,
    lawful.poll_empty Scrobble,
    lawful.poll_ok Unit tt,
    (can_scrobble_track_iff E now s).1 due,
  )

  abbrev go_on : Poll Unit → Scrobbler E → Poll Unit × Scrobbler E → Poll Unit × Scrobbler E
  go_on not_ready t rest = rest
  go_on p t rest = (p, t)

  -- Polls at some times, until one of them does not answer `not_ready`.
  unfoldable pub polls : List ℕ → Scrobbler E → Poll Unit × Scrobbler E
  polls [] s = (not_ready, s)
  polls (now ∷ more) s = let (p, t) = poll E now s in let rest = polls more t in go_on p t rest

  -- The state between the announcement of a play and its scrobble.
  abbrev announced : Scrobble → Scrobbler E → Scrobbler E
  announced m s = record s {
    auth_future = E.empty Unit;
    calls = now_playing m ∷ s.calls;
    new_track_future = E.empty Unit;
    current_track_scrobbled = false;
    meta_fetch_future = E.empty Scrobble;
    current_track_meta = some m;
    now_playing_future = E.empty Unit;
  }

  quiet_poll :
      (now start : ℕ) (s : Scrobbler E) (m : Scrobble)
      → s.scrobble_future ≡ none
      → s.current_track_start ≡ some start
      → now - start ≤ least_play_time
      → poll E now (announced m s) ≡ (not_ready, announced m s)
  unfolding poll poll_auth poll_scrobble maybe_scrobble can_scrobble_track poll_new_track poll_meta
      poll_now_playing
  quiet_poll now start s m idle began early =
      ground (arith, lawful.poll_empty Unit, lawful.poll_empty Scrobble, idle, began, early)

  quiet_polls :
      (start : ℕ) (early : List ℕ) (s : Scrobbler E) (m : Scrobble)
      → s.scrobble_future ≡ none
      → s.current_track_start ≡ some start
      → All (λ now. now - start ≤ least_play_time) early
      → (more : List ℕ) → polls (early ++ more) (announced m s) ≡ polls more (announced m s)
  unfolding polls
  quiet_polls start [] s m idle began h more = refl
  quiet_polls start (now ∷ early) s m idle began h more =
      rw (quiet_poll now start s m idle began h.0) (quiet_polls start early s m idle began h.1 more)

  polls_quiet :
      (start : ℕ) (early : List ℕ) (s : Scrobbler E) (m : Scrobble)
      → s.scrobble_future ≡ none
      → s.current_track_start ≡ some start
      → All (λ now. now - start ≤ least_play_time) early
      → polls early (announced m s) ≡ (not_ready, announced m s)
  unfolding polls
  polls_quiet start [] s m idle began h = refl
  polls_quiet start (now ∷ early) s m idle began h =
      rw (quiet_poll now start s m idle began h.0) (polls_quiet start early s m idle began h.1)

  one_poll :
      (now : ℕ) (s : Scrobbler E)
      → (poll E now s).0 ≡ not_ready
      → polls (now ∷ []) s ≡ (not_ready, (poll E now s).1)
  unfolding polls
  one_poll now s h = rw h refl

  -- A track that has just become current (its fetch is asked for, nothing is known of it yet), with
  -- the authentication answered and taken up, no scrobble on its way, its metadata at hand, and its
  -- requests accepted by Last.fm: the first poll announces it, any number of polls up to twenty
  -- seconds after its start ask for nothing, and the next poll, more than twenty seconds after it,
  -- reports it to Last.fm and marks it as scrobbled. All these polls answer that they are not ready,
  -- and nothing else is asked of Last.fm. The futures of the library follow their laws.
  pub play_is_reported :
      (first second start : ℕ) (early : List ℕ) (s : Scrobbler E) (id : SpotifyId) (m : Scrobble)
      → s.auth_future ≡ E.empty Unit
      → s.scrobble_future ≡ none
      → s.current_track_id ≡ some id
      → s.current_track_start ≡ some start
      → s.current_track_meta ≡ none
      → s.new_track_future ≡ E.ok Unit tt
      → (E.poll Scrobble (get_track_meta E id)).0 ≡ ready m
      → E.accepts s.calls (now_playing m) ≡ true
      → E.accepts (now_playing m ∷ s.calls) (scrobble m) ≡ true
      → All (λ now. now - start ≤ least_play_time) early
      → least_play_time < second - start
      → let t = polls (first ∷ early) s in
        let u = polls (first ∷ early ++ second ∷ []) s in
        (t.0 ≡ not_ready)
        × (t.1.calls ≡ now_playing m ∷ s.calls)
        × (u.0 ≡ not_ready)
        × (u.1.calls ≡ scrobble m ∷ now_playing m ∷ s.calls)
        × (u.1.current_track_scrobbled ≡ true)
  unfolding polls
  play_is_reported first second start early s id m auth idle track began known fresh fetched acc
        acc' quiet long =
      let t = announced m s in
      let due : IsDue E second t = record {
        unsent = refl;
        idle = idle;
        start = start;
        started = began;
        long = long;
      } in
      let (answer, calls, scrobbled) = second_poll second t m refl refl refl refl due refl acc' in
      rw
        (
          first_poll first s id m auth idle track known fresh fetched acc,
          quiet_polls start early s m idle began quiet (second ∷ []),
          one_poll second t answer,
          polls_quiet start early s m idle began quiet,
        )
        (refl, refl, refl, calls, scrobbled)
