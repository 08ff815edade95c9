-- ===== src/Scrobbler/Reports.antt =====
-- What the scrobbler of src/scrobbler.rs reports to Last.fm: the right metadata, at the right time,
-- and once.
use spotify_connect_scrobble.Prelude.{
  ℕ, ◌-◌, ◌<◌, ◌≡◌, ◌⊎◌, inl, inr, refl, sym, ap, ◌∙◌, subst, List, [], ◌∷◌, Option, none, some,
  Bool, false, arith,
}
use spotify_connect_scrobble.Scrobbler.{Scrobbler, least_play_time, send_now_playing}
use spotify_connect_scrobble.Scrobbler.Services.{
  Env, IsLawful, Poll, Call, authenticate, now_playing, scrobble,
}
use spotify_connect_scrobble.Scrobbler.Polling.{
  Flow, goes_on, ends, ◌>>=◌, finish, poll_auth, maybe_scrobble, poll_scrobble, poll_new_track,
  poll_meta, poll_now_playing, poll,
}
use spotify_connect_scrobble.Scrobbler.Stages.{focus}
use spotify_connect_scrobble.Scrobbler.Update.{IsDue, start_scrobble-Reported}
use spotify_connect_scrobble.Scrobbler.Tracking.{
  MetaOf, IsTracking, fresh, settled, Reached, Reached-IsTracking,
}
use spotify_connect_scrobble.Util.SpotifyId.{SpotifyId}

abbrev pub state_of : {S : Type 0} → Flow S → S
state_of (goes_on s) = s
state_of (ends p s) = s

-- What later stages leave alone, the whole chain leaves alone.
Flow-cases :
    {S : Type 0} (m : Flow S)
    → ((u : S) × (m ≡ goes_on u)) ⊎ ((p : Poll Unit) × (u : S) × (m ≡ ends p u))
Flow-cases (goes_on s) = inl (s, refl)
Flow-cases (ends p s) = inr (p, s, refl)

finish-bind_keeps :
    {S X : Type 0} (g : S → X) (m : Flow S) (f : S → Flow S)
    → ((u : S) → g (finish (f u)).1 ≡ g u)
    → g (finish (m >>= f)).1 ≡ g (state_of m)
finish-bind_keeps g (goes_on s) f h = h s
finish-bind_keeps g (ends p s) f h = refl

finish-state_of : {S : Type 0} (m : Flow S) → (finish m).1 ≡ state_of m
finish-state_of (goes_on s) = refl
finish-state_of (ends p s) = refl

module _ (E : Env) where
  open E use {Future, Scrobble}

  -- The scrobbles among the requests, newest first.
  abbrev pub scrobbles_of : List (Call Scrobble) → List Scrobble
  scrobbles_of [] = []
  scrobbles_of (authenticate user password ∷ calls) = scrobbles_of calls
  scrobbles_of (now_playing m ∷ calls) = scrobbles_of calls
  scrobbles_of (scrobble m ∷ calls) = m ∷ scrobbles_of calls

  abbrev pub reports : Scrobbler E → List Scrobble
  reports s = scrobbles_of s.calls

  -- The part of the state that decides whether the current play may be reported.
  abbrev play :
      Scrobbler E → Option ℕ × Option Scrobble × Bool × Option (Future Unit) × List Scrobble
  play s = (
    s.current_track_start,
    s.current_track_meta,
    s.current_track_scrobbled,
    s.scrobble_future,
    reports s,
  )

  play-poll_auth : (s : Scrobbler E) → play (state_of (poll_auth E s)) ≡ play s
  unfolding poll_auth
  play-poll_auth s = ground arith

  focus-state_poll_auth : (s : Scrobbler E) → focus E (state_of (poll_auth E s)) ≡ focus E s
  unfolding poll_auth
  focus-state_poll_auth s = ground arith

  reports-poll_scrobble :
      (now : ℕ) (s : Scrobbler E)
      → reports (state_of (poll_scrobble E now s)) ≡ reports (maybe_scrobble E now s)
  unfolding poll_scrobble
  reports-poll_scrobble now s = ground arith

  reports-poll_new_track : (s : Scrobbler E) → reports (state_of (poll_new_track E s)) ≡ reports s
  unfolding poll_new_track
  reports-poll_new_track s = ground arith

  reports-poll_meta : (s : Scrobbler E) → reports (state_of (poll_meta E s)) ≡ reports s
  unfolding poll_meta send_now_playing
  reports-poll_meta s = ground arith

  reports-poll_now_playing :
      (s : Scrobbler E) → reports (state_of (poll_now_playing E s)) ≡ reports s
  unfolding poll_now_playing
  reports-poll_now_playing s = ground arith

  reports-after_auth :
      (now : ℕ) (u : Scrobbler E)
      → reports
          (finish do
            scrobbled ← poll_scrobble E now u
            renewed ← poll_new_track E scrobbled
            informed ← poll_meta E renewed
            poll_now_playing E informed).1
        ≡ reports (maybe_scrobble E now u)
  reports-after_auth now u =
      finish-bind_keeps reports (poll_scrobble E now u) _ (λ v.
        finish-bind_keeps reports (poll_new_track E v) _ (λ w.
          finish-bind_keeps reports (poll_meta E w) _
            (λ x. ap reports (finish-state_of (poll_now_playing E x)) ∙ reports-poll_now_playing x)
          ∙ reports-poll_meta w)
        ∙ reports-poll_new_track v)
      ∙ reports-poll_scrobble now u

  abbrev reports_of_play :
      Option ℕ × Option Scrobble × Bool × Option (Future Unit) × List Scrobble → List Scrobble
  reports_of_play p = p.4

  -- Behind the authentication, only the stage of the scrobble reports anything.
  reports-poll :
      (now : ℕ) (s : Scrobbler E)
      → (reports (poll E now s).1 ≡ reports s)
        ⊎ ((u : Scrobbler E) × (poll_auth E s ≡ goes_on u)
            × (reports (poll E now s).1 ≡ reports (maybe_scrobble E now u)))
  unfolding poll
  reports-poll now s = elim (Flow-cases (poll_auth E s)) [
    | inl (u, a) ↦ inr (u, a, rw a (reports-after_auth now u))
    | inr (p, u, a) ↦
        inl (rw a (ap reports_of_play (ap (λ m. play (state_of m)) (sym a) ∙ play-poll_auth s)))
  ]

  -- A request for the metadata of a play is made when the play is due.
  reports-maybe_scrobble :
      (now : ℕ) (s : Scrobbler E)
      → (reports (maybe_scrobble E now s) ≡ reports s)
        ⊎ ((m : Scrobble) × (reports (maybe_scrobble E now s) ≡ m ∷ reports s)
            × IsDue E now s
            × (s.current_track_meta ≡ some m))
  unfolding maybe_scrobble
  reports-maybe_scrobble now s = elim (start_scrobble-Reported E now s) [
    | inl (m, due, k, e) ↦ inr (m, ap scrobbles_of e, due, k)
    | inr (why, e) ↦ inl (ap scrobbles_of e)
  ]

  abbrev DueOfPlay :
      ℕ → Option ℕ × Option Scrobble × Bool × Option (Future Unit) × List Scrobble → Type 0
  DueOfPlay now p =
      (p.2 ≡ false)
      × (p.3 ≡ none)
      × ((start : ℕ) × (p.0 ≡ some start) × (least_play_time < now - start))

  IsDue-play : (now : ℕ) (s t : Scrobbler E) → play t ≡ play s → IsDue E now t → IsDue E now s
  IsDue-play now s t e d =
      let moved = subst (DueOfPlay now) e (d.unsent, d.idle, (d.start, d.started, d.long)) in
      record {
        unsent = moved.0;
        idle = moved.1;
        start = moved.2.0;
        started = moved.2.1;
        long = moved.2.2;
      }

  abbrev meta_of_play :
      Option ℕ × Option Scrobble × Bool × Option (Future Unit) × List Scrobble → Option Scrobble
  meta_of_play p = p.1

  known_meta :
      (s : Scrobbler E)
      → IsTracking E s
      → (m : Scrobble) → s.current_track_meta ≡ some m
      → (id : SpotifyId) × (s.current_track_id ≡ some id) × MetaOf E id m
  known_meta s (fresh id k f n) m e = absurd (cc (n, e))
  known_meta s (settled (f, g, known)) m e = known m e

  reports-IsTracking :
      (now : ℕ) (s : Scrobbler E)
      → IsTracking E s
      → (reports (poll E now s).1 ≡ reports s)
        ⊎ ((m : Scrobble) × (id : SpotifyId) × (reports (poll E now s).1 ≡ m ∷ reports s)
            × (s.current_track_id ≡ some id)
            × MetaOf E id m
            × IsDue E now s)
  reports-IsTracking now s h = elim (reports-poll now s) [
    | inl e ↦ inl e
    | inr (u, a, e) ↦
        let same = ap (λ m. play (state_of m)) (sym a) ∙ play-poll_auth s in
        elim (reports-maybe_scrobble now u) [
          | inl k ↦ inl (e ∙ k ∙ ap reports_of_play same)
          | inr (m, k, due, known) ↦
              let (id, current, fetched) = known_meta s h m (ap meta_of_play (sym same) ∙ known) in
              inr (
                m,
                id,
                e ∙ k ∙ ap (λ p. m ∷ reports_of_play p) same,
                current,
                fetched,
                IsDue-play now s u same due,
              )
        ]
  ]

  -- Any scrobbler that a program can come to, from a new one by tracks that it is told of and by
  -- polls, failed ones too, that do not panic: a poll of it sends nothing to report, or one scrobble.
  -- That scrobble has the metadata that a fetch for the current track has resolved to, and its play
  -- is due: nothing sent for it yet and more than twenty seconds after its start. The futures of the
  -- library follow their laws.
  pub poll_reports :
      (lawful : IsLawful E) (now : ℕ) (s : Scrobbler E)
      → Reached E s
      → (reports (poll E now s).1 ≡ reports s)
        ⊎ ((m : Scrobble) × (id : SpotifyId) × (reports (poll E now s).1 ≡ m ∷ reports s)
            × (s.current_track_id ≡ some id)
            × MetaOf E id m
            × IsDue E now s)
  poll_reports lawful now s r = reports-IsTracking now s (Reached-IsTracking E lawful s r)
