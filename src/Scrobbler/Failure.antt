-- ===== src/Scrobbler/Failure.antt =====
-- A request that Last.fm refuses, in src/scrobbler.rs: the finished future stays where it is, and the
-- next poll polls it again.
use spotify_connect_scrobble.Prelude.{ℕ, ◌≡◌, refl, ◌∙◌, List, [], ◌∷◌, some, Bool, false, arith}
use spotify_connect_scrobble.Scrobbler.{
  Scrobbler, can_scrobble_track, answered, set_new_track, update_current_track,
}
use spotify_connect_scrobble.Scrobbler.Stages.{focus}
use spotify_connect_scrobble.Util.SpotifyId.{SpotifyId}
use spotify_connect_scrobble.Scrobbler.Services.{Env, IsLawful, scrobble, failed, aborts}
use spotify_connect_scrobble.Scrobbler.Polling.{
  goes_on, ends, poll_auth, maybe_scrobble, poll_scrobble, poll,
}
use spotify_connect_scrobble.Scrobbler.Update.{
  IsDue, sent, can_scrobble_track_iff, start_scrobble-some,
}

module _ (E : Env) (lawful : IsLawful E) where
  open E use {Future, Scrobble}

  -- Authentication has been answered and taken up.
  abbrev pub IsAuthenticated : Scrobbler E → Type 0
  IsAuthenticated s = s.auth_future ≡ E.empty Unit

  quiet_auth :
      (s : Scrobbler E)
      → IsAuthenticated s
      → poll_auth E s ≡ goes_on (record s { auth_future = E.empty Unit })
  unfolding poll_auth
  quiet_auth s h = rw h (ground (arith, lawful.poll_empty Unit))

  -- A due play whose scrobble Last.fm refuses.
  refused_stage :
      (now : ℕ) (s : Scrobbler E) (m : Scrobble)
      → IsDue E now s
      → s.current_track_meta ≡ some m
      → E.accepts s.calls (scrobble m) ≡ false
      → poll_scrobble E now s
        ≡ ends failed (record (sent E m s) { scrobble_future = some (E.poll Unit (E.err Unit)).1 })
  unfolding poll_scrobble maybe_scrobble answered
  refused_stage now s m due known refused =
      rw ((can_scrobble_track_iff E now s).1 due, start_scrobble-some E s m known, refused)
        (ground (arith, lawful.poll_err Unit))

  -- A state that holds a future which panics.
  aborting_stage :
      (now : ℕ) (s : Scrobbler E) (f : Future Unit)
      → s.scrobble_future ≡ some f
      → (E.poll Unit f).0 ≡ aborts
      → poll_scrobble E now s ≡ ends aborts (record s { scrobble_future = some (E.poll Unit f).1 })
  unfolding poll_scrobble maybe_scrobble can_scrobble_track
  aborting_stage now s f held spent = ground arith

  -- Tracks that the device tells of: when the old play is tested, when the new one starts, which
  -- one it is, and whether it is forced.
  unfoldable pub updates : List (ℕ × ℕ × SpotifyId × Bool) → Scrobbler E → Scrobbler E
  updates [] s = s
  updates ((test, now, id, force) ∷ us) s = updates us (update_current_track E test now id force s)

  -- A scrobble that is held and panics when it is polled.
  record IsStuck (s : Scrobbler E) : Type 0 where
    authenticated : IsAuthenticated s
    future : Future Unit
    held : s.scrobble_future ≡ some future
    spent : (E.poll Unit future).0 ≡ aborts

  update_keeps :
      (test now : ℕ) (id : SpotifyId) (force : Bool) (s : Scrobbler E) (f : Future Unit)
      → s.scrobble_future ≡ some f
      → let t = update_current_track E test now id force s in
        (t.scrobble_future ≡ some f) × (t.auth_future ≡ s.auth_future)
  unfolding update_current_track set_new_track can_scrobble_track
  update_keeps test now id force s f h = ground (arith, h)

  updates-IsStuck :
      (us : List (ℕ × ℕ × SpotifyId × Bool)) (s : Scrobbler E) → IsStuck s → IsStuck (updates us s)
  unfolding updates
  updates-IsStuck [] s h = h
  updates-IsStuck ((test, now, id, force) ∷ us) s h =
      let (held, auth) = update_keeps test now id force s h.future h.held in
      updates-IsStuck us (update_current_track E test now id force s) (record {
        authenticated = auth ∙ h.authenticated;
        future = h.future;
        held = held;
        spent = h.spent;
      })

  stuck_poll :
      (now : ℕ) (s : Scrobbler E)
      → IsStuck s
      → ((poll E now s).0 ≡ aborts)
        × (focus E (poll E now s).1 ≡ focus E s)
        × ((poll E now s).1.calls ≡ s.calls)
  unfolding poll
  stuck_poll now s h =
      rw
        (
          quiet_auth s h.authenticated,
          aborting_stage now (record s { auth_future = E.empty Unit }) h.future h.held h.spent,
        )
        (refl, refl, refl)

  refused_poll :
      (now : ℕ) (s : Scrobbler E) (m : Scrobble)
      → IsAuthenticated s
      → IsDue E now s
      → s.current_track_meta ≡ some m
      → E.accepts s.calls (scrobble m) ≡ false
      → (E.poll Unit (E.poll Unit (E.err Unit)).1).0 ≡ aborts
      → ((poll E now s).0 ≡ failed) × IsStuck (poll E now s).1
  unfolding poll
  refused_poll now s m auth due known refused spent =
      let quiet = record s { auth_future = E.empty Unit } in
      let stage = refused_stage now quiet m (quiet_due due) known refused in
      rw (quiet_auth s auth, stage)
        (
          refl,
          record {
            authenticated = refl;
            future = (E.poll Unit (E.err Unit)).1;
            held = refl;
            spent = spent;
          },
        )
    where
      quiet_due : IsDue E now s → IsDue E now (record s { auth_future = E.empty Unit })
      quiet_due d = record {
        unsent = d.unsent;
        idle = d.idle;
        start = d.start;
        started = d.started;
        long = d.long;
      }

  -- If Last.fm refuses the scrobble of a due play with known metadata, by an authenticated
  -- scrobbler, the poll that sent it fails. If a future that has failed panics when it is polled
  -- again, then the next poll panics, whenever it comes and whatever tracks the scrobbler was told
  -- of in between, and it has neither taken up the track that is current then nor asked Last.fm for
  -- anything. The
  -- futures of the library follow their laws.
  pub refused_scrobble :
      (now now' : ℕ) (us : List (ℕ × ℕ × SpotifyId × Bool)) (s : Scrobbler E) (m : Scrobble)
      → IsAuthenticated s
      → IsDue E now s
      → s.current_track_meta ≡ some m
      → E.accepts s.calls (scrobble m) ≡ false
      → (E.poll Unit (E.poll Unit (E.err Unit)).1).0 ≡ aborts
      → let t = updates us (poll E now s).1 in
        ((poll E now s).0 ≡ failed)
        × ((poll E now' t).0 ≡ aborts)
        × (focus E (poll E now' t).1 ≡ focus E t)
        × ((poll E now' t).1.calls ≡ t.calls)
  refused_scrobble now now' us s m auth due known refused spent =
      let (failing, stuck) = refused_poll now s m auth due known refused spent in
      let (panicking, same, silent) =
        stuck_poll now' (updates us (poll E now s).1) (updates-IsStuck us (poll E now s).1 stuck) in
      (failing, panicking, same, silent)
