-- ===== src/Spirc/Loop.antt =====
-- The loop of `SpircTask::poll` in src/spirc.rs ends.
use spotify_connect_scrobble.Prelude.{
  ◌≡◌, ◌≢◌, refl, sym, ap, ◌∙◌, List, [], ◌∷◌, ◌++◌, Option, none, some, Bool, true, false, ◌&&◌,
  Run, returns, returns-injective, ◌>>=◌, >>=-eq-returns, if◌then◌else◌, arith, ℕ,
}
use spotify_connect_scrobble.Prelude.Words.{Overflow}
use spotify_connect_scrobble.Crates.{ByteOrder}
use spotify_connect_scrobble.Scrobbler.{Scrobbler}
use spotify_connect_scrobble.Scrobbler.Services.{Env, Poll, ready, not_ready, failed, aborts}
use spotify_connect_scrobble.Scrobbler.Polling
use spotify_connect_scrobble.Scrobbler.Polling.{
  poll_auth, poll_scrobble, poll_new_track, poll_meta, poll_now_playing,
}
use spotify_connect_scrobble.Spirc.{
  SpircTask, Round, took_scrobbler, poll_streams, poll_open, is_flushed, poll,
}

module _ (E : Env) where
  -- The scrobbler's future never resolves.
  scrobbler_goes_on : (now : ℕ) (s : Scrobbler E) → (Polling.poll E now s).0 ≡ ready tt → ⊥
  unfolding Polling.poll poll_auth poll_scrobble poll_new_track poll_meta poll_now_playing
  scrobbler_goes_on now s e = ground arith

  module _ ⦃order : ByteOrder⦄ where
    took-unchanged :
        (p : Poll Unit × Scrobbler E) (t u : SpircTask E) (b : Bool)
        → (p.0 ≡ ready tt → ⊥)
        → took_scrobbler E p t ≡ returns (b, u)
        → b ≡ false
    took-unchanged (ready done, s) t u b h e = absurd (h refl)
    took-unchanged (not_ready, s) t u b h e =
        sym (ap (λ x. x.0) (returns-injective (false, record t { scrobbler = s }) (b, u) e))
    took-unchanged (failed, s) t u b h e =
        sym (ap (λ x. x.0) (returns-injective (false, record t { scrobbler = s }) (b, u) e))
    took-unchanged (aborts, s) t u b h e = cc

    quiet_streams :
        (mode : Overflow) (r : Round) (t u : SpircTask E) (b : Bool)
        → r.frame ≡ not_ready
        → r.command ≡ not_ready
        → poll_streams E mode r t ≡ returns (b, u)
        → b ≡ false
    unfolding poll_streams
    quiet_streams mode r t u b hf hc e =
        let scrobbled = Polling.poll E r.polled t.scrobbler in
        let streams : (took_scrobbler E scrobbled t >>= λ x. returns (x.0, x.1)) ≡ returns (b, u) =
          rw (hf, hc) at e in
        let ((c, t'), e1, e2) = >>=-eq-returns (took_scrobbler E scrobbled t) _ streams in
        sym (ap (λ x. x.0) (returns-injective (c, t') (b, u) e2))
        ∙ took-unchanged scrobbled t t' c (scrobbler_goes_on r.polled t.scrobbler) e1

    quiet_open :
        (closed : Bool) (mode : Overflow) (r : Round) (t u : SpircTask E) (b : Bool)
        → r.frame ≡ not_ready
        → r.command ≡ not_ready
        → poll_open E closed mode r t ≡ returns (b, u)
        → b ≡ false
    quiet_open true mode r t u b hf hc e =
        sym (ap (λ x. x.0) (returns-injective (false, t) (b, u) e))
    quiet_open false mode r t u b hf hc e = quiet_streams mode r t u b hf hc e

    settled :
        (over progress : Bool) (rest : Run (Option (Poll Unit × SpircTask E))) (t : SpircTask E)
        → (if over
            then returns (some (ready tt, t))
            else (if progress then rest else returns (some (not_ready, t))))
          ≡ returns none
        → (progress ≡ true) × (rest ≡ returns none)
    settled true progress rest t e = cc (returns-injective _ _ e)
    settled false true rest t e = (refl, e)
    settled false false rest t e = cc (returns-injective _ _ e)

    -- The loop ends, or panics, at the latest in the first round in which neither a frame nor a
    -- command is there: rounds that go up to such a one suffice for the poll.
    pub poll-returns :
        (mode : Overflow) (rounds more : List Round) (quiet : Round) (t : SpircTask E)
        → quiet.frame ≡ not_ready
        → quiet.command ≡ not_ready
        → poll E mode (rounds ++ quiet ∷ more) t ≢ returns none
    unfolding poll
    poll-returns mode [] more quiet t hf hc e =
        let ((b, t'), e1, f1) = >>=-eq-returns (poll_open E t.shutdown mode quiet t) _ e in
        let (flushed, e2, f2) = >>=-eq-returns (is_flushed quiet.flush) _ f1 in
        let (progress, rest) = settled (t'.shutdown && flushed) b (poll E mode more t') t' f2 in
        cc (quiet_open t.shutdown mode quiet t t' b hf hc e1, progress)
    poll-returns mode (r ∷ rounds) more quiet t hf hc e =
        let ((b, t'), e1, f1) = >>=-eq-returns (poll_open E t.shutdown mode r t) _ e in
        let (flushed, e2, f2) = >>=-eq-returns (is_flushed r.flush) _ f1 in
        let (progress, rest) =
          settled (t'.shutdown && flushed) b (poll E mode (rounds ++ quiet ∷ more) t') t' f2 in
        poll-returns mode rounds more quiet t' hf hc rest
