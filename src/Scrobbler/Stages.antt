-- ===== src/Scrobbler/Stages.antt =====
-- The stages of `Scrobbler::poll` (src/scrobbler.rs), one at a time: what each of them leaves alone.
use spotify_connect_scrobble.Prelude.{
  ℕ, ◌≡◌, ◌⊎◌, inl, inr, refl, arith, Option, none, some, Option-cases, Bool-cases,
}
use spotify_connect_scrobble.Scrobbler.{
  Scrobbler, can_scrobble_track, get_track_meta, send_now_playing,
}
use spotify_connect_scrobble.Scrobbler.Services.{Env, Poll, ready, not_ready, failed, aborts}
use spotify_connect_scrobble.Scrobbler.Polling.{
  goes_on, ends, finish, poll_auth, poll_scrobble, maybe_scrobble, poll_new_track, poll_meta,
  poll_now_playing, after_new_track, after_meta,
}
use spotify_connect_scrobble.Scrobbler.Update.{start_scrobble-none, start_scrobble-some}
use spotify_connect_scrobble.Util.SpotifyId.{SpotifyId}

module _ (E : Env) where
  open E use {Future, Scrobble}

  -- The part of the state that says which track is playing and what is known of it.
  pub record Focus : Type 0 where
    pub track : Option SpotifyId
    pub start : Option ℕ
    pub meta : Option Scrobble
    pub new_track : Future Unit
    pub fetch : Future Scrobble

  abbrev pub focus : Scrobbler E → Focus
  focus s = record {
    track = s.current_track_id;
    start = s.current_track_start;
    meta = s.current_track_meta;
    new_track = s.new_track_future;
    fetch = s.meta_fetch_future;
  }

  pub focus-poll_auth : (s t : Scrobbler E) → poll_auth E s ≡ goes_on t → focus t ≡ focus s
  unfolding poll_auth
  focus-poll_auth s t e = ground arith

  pub focus-poll_auth_ends :
      (s t : Scrobbler E) (p : Poll Unit) → poll_auth E s ≡ ends p t → focus t ≡ focus s
  unfolding poll_auth
  focus-poll_auth_ends s t p e = ground arith

  pub focus-maybe_scrobble : (now : ℕ) (s : Scrobbler E) → focus (maybe_scrobble E now s) ≡ focus s
  unfolding maybe_scrobble
  focus-maybe_scrobble now s = elim (Bool-cases (can_scrobble_track E now s)) [
    | inr e ↦ rw e
    | inl e ↦ rw e (elim (Option-cases s.current_track_meta) [
      | inl n ↦ rw (start_scrobble-none E s n)
      | inr (m, k) ↦ rw (start_scrobble-some E s m k)
    ])
  ]

  pub focus-poll_scrobble :
      (now : ℕ) (s t : Scrobbler E) → poll_scrobble E now s ≡ goes_on t → focus t ≡ focus s
  unfolding poll_scrobble
  focus-poll_scrobble now s t e = ground (arith, focus-maybe_scrobble now s)

  pub focus-poll_scrobble_ends :
      (now : ℕ) (s t : Scrobbler E) (p : Poll Unit)
      → poll_scrobble E now s ≡ ends p t
      → focus t ≡ focus s
  unfolding poll_scrobble
  focus-poll_scrobble_ends now s t p e = ground (arith, focus-maybe_scrobble now s)

  pub focus-poll_now_playing :
      (s t : Scrobbler E) → poll_now_playing E s ≡ goes_on t → focus t ≡ focus s
  unfolding poll_now_playing
  focus-poll_now_playing s t e = ground arith

  pub focus-finish_now_playing :
      (s t : Scrobbler E) (p : Poll Unit)
      → finish (poll_now_playing E s) ≡ (p, t)
      → focus t ≡ focus s
  unfolding poll_now_playing
  focus-finish_now_playing s t p e = ground arith

  -- The stage of the new track ends the poll if its future fails.
  pub poll_new_track_ends :
      (s t : Scrobbler E) (p : Poll Unit)
      → poll_new_track E s ≡ ends p t
      → ((E.poll Unit s.new_track_future).0 ≡ failed)
        ⊎ ((E.poll Unit s.new_track_future).0 ≡ aborts)
  unfolding poll_new_track
  poll_new_track_ends s t p e = ground arith

  -- The stage of the metadata ends the poll if the fetch fails, and the fetch stays where it is.
  pub poll_meta_ends :
      (s t : Scrobbler E) (p : Poll Unit)
      → poll_meta E s ≡ ends p t
      → ((E.poll Scrobble s.meta_fetch_future).0 ≡ failed)
          × (p ≡ failed)
          × (focus t ≡ record (focus s) { fetch = (E.poll Scrobble s.meta_fetch_future).1 })
        ⊎ (p ≡ aborts)
  unfolding poll_meta send_now_playing
  poll_meta_ends s t p e = ground arith

  -- The ways in which the stage of the new track goes on, by the answer of its future.
  abbrev pub NewTrack : Poll Unit × Future Unit → Scrobbler E → Scrobbler E → Type 0
  NewTrack p s t =
      (p.0 ≡ not_ready) × (focus t ≡ record (focus s) { new_track = p.1 })
      ⊎ (p.0 ≡ ready tt)
        × (s.current_track_id ≡ none)
        × (focus t ≡ record (focus s) { new_track = E.empty Unit })
      ⊎ ((id : SpotifyId) × (p.0 ≡ ready tt)
          × (s.current_track_id ≡ some id)
          × (focus t ≡ record (focus s) { new_track = E.empty Unit; fetch = get_track_meta E id }))

  after_new_track_cases :
      (p : Poll Unit × Future Unit) (s t : Scrobbler E)
      → after_new_track E p s ≡ goes_on t
      → NewTrack p s t
  after_new_track_cases (ready done, f) s t e = elim (Option-cases s.current_track_id) [
    | inl n ↦ inr (inl (refl, n, ground arith))
    | inr (id, k) ↦ inr (inr (id, refl, k, ground arith))
  ]
  after_new_track_cases (not_ready, f) s t e = inl (refl, ground arith)
  after_new_track_cases (failed, f) s t e = cc
  after_new_track_cases (aborts, f) s t e = cc

  pub poll_new_track_cases :
      (s t : Scrobbler E)
      → poll_new_track E s ≡ goes_on t
      → NewTrack (E.poll Unit s.new_track_future) s t
  unfolding poll_new_track
  poll_new_track_cases s t e = after_new_track_cases _ s t e

  -- The ways in which the stage of the metadata goes on.
  abbrev pub NewMeta : Poll Scrobble × Future Scrobble → Scrobbler E → Scrobbler E → Type 0
  NewMeta p s t =
      (p.0 ≡ not_ready) × (focus t ≡ record (focus s) { fetch = p.1 })
      ⊎ ((m : Scrobble) × (p.0 ≡ ready m)
          × (focus t ≡ record (focus s) { fetch = E.empty Scrobble; meta = some m }))

  after_meta_cases :
      (p : Poll Scrobble × Future Scrobble) (s t : Scrobbler E)
      → after_meta E p s ≡ goes_on t
      → NewMeta p s t
  unfolding send_now_playing
  after_meta_cases (ready m, f) s t e = inr (m, refl, ground arith)
  after_meta_cases (not_ready, f) s t e = inl (refl, ground arith)
  after_meta_cases (failed, f) s t e = cc
  after_meta_cases (aborts, f) s t e = cc

  pub poll_meta_cases :
      (s t : Scrobbler E)
      → poll_meta E s ≡ goes_on t
      → NewMeta (E.poll Scrobble s.meta_fetch_future) s t
  unfolding poll_meta
  poll_meta_cases s t e = after_meta_cases _ s t e
