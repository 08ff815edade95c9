-- ===== src/Scrobbler/Polling.antt =====
-- `Scrobbler::poll` of src/scrobbler.rs, stage by stage. Each stage goes on to the next one or ends
-- the poll; what it has written stays written.
use spotify_connect_scrobble.Prelude.{
  ℕ, ◌≡◌, ◌⊎◌, inl, inr, refl, ap, arith, Option, none, some, true, false, if◌then◌else◌,
}
use spotify_connect_scrobble.Scrobbler.{
  Scrobbler, can_scrobble_track, start_scrobble, send_now_playing, get_track_meta,
}
use spotify_connect_scrobble.Scrobbler.Services.{Env, Poll, ready, not_ready, failed, aborts}
use spotify_connect_scrobble.Util.SpotifyId.{SpotifyId}

-- A stage in the middle of `poll`: on to the next stage, or the answer of the whole poll. The
-- answer `ready` stands for `Ok(Async::Ready(_))`, which no stage gives.
pub data Flow (S : Type 0) : Type 0 where
  goes_on : S → Flow S
  ends : Poll (Unit {0}) → S → Flow S

infixl 5 ◌>>=◌
abbrev pub ◌>>=◌ : {S : Type 0} → Flow S → (S → Flow S) → Flow S
goes_on s >>= f = f s
ends answer s >>= f = ends answer s

abbrev pub finish : {S : Type 0} → Flow S → Poll (Unit {0}) × S
finish (goes_on s) = (not_ready, s)
finish (ends answer s) = (answer, s)

finish-bind :
    {S : Type 0} (m : Flow S) (f : S → Flow S) {t : S}
    → finish (m >>= f) ≡ (not_ready, t)
    → ((u : S) × (m ≡ goes_on u) × (finish (f u) ≡ (not_ready, t))) ⊎ (m ≡ ends not_ready t)
finish-bind (goes_on s) f e = inl (s, refl, e)
finish-bind (ends p s) f e = inr (cc (ap (λ x. x.0) e, ap (λ x. x.1) e))

-- Whether the first stage of a chain goes on or ends it, for any answer of the whole.
pub finish-bind_any :
    {S : Type 0} (m : Flow S) (f : S → Flow S) {r : Poll Unit × S}
    → finish (m >>= f) ≡ r
    → ((u : S) × (m ≡ goes_on u) × (finish (f u) ≡ r))
      ⊎ ((p : Poll Unit) × (u : S) × (m ≡ ends p u) × ((p, u) ≡ r))
finish-bind_any (goes_on s) f e = inl (s, refl, e)
finish-bind_any (ends p s) f e = inr (p, s, refl, e)

module _ (E : Env) where
  open E use {Future, Scrobble}

  abbrev pub after_auth : Poll Unit × Future Unit → Scrobbler E → Flow (Scrobbler E)
  after_auth (ready done, f) s = goes_on (record s { auth_future = E.empty Unit })
  after_auth (not_ready, f) s = goes_on (record s { auth_future = f })
  after_auth (failed, f) s = ends failed (record s { auth_future = f })
  after_auth (aborts, f) s = ends aborts (record s { auth_future = f })

  unfoldable pub poll_auth : Scrobbler E → Flow (Scrobbler E)
  poll_auth s = after_auth (E.poll Unit s.auth_future) s

  abbrev pub after_scrobble : Poll Unit × Future Unit → Scrobbler E → Flow (Scrobbler E)
  after_scrobble (ready done, f) s =
      goes_on (record s { scrobble_future = none; current_track_scrobbled = true })
  after_scrobble (not_ready, f) s = ends not_ready (record s { scrobble_future = some f })
  after_scrobble (failed, f) s = ends failed (record s { scrobble_future = some f })
  after_scrobble (aborts, f) s = ends aborts (record s { scrobble_future = some f })

  abbrev pub await_scrobble : Option (Future Unit) → Scrobbler E → Flow (Scrobbler E)
  await_scrobble none s = goes_on s
  await_scrobble (some f) s = after_scrobble (E.poll Unit f) s

  unfoldable pub maybe_scrobble : ℕ → Scrobbler E → Scrobbler E
  maybe_scrobble now s = if can_scrobble_track E now s then start_scrobble E s else s

  unfoldable pub poll_scrobble : ℕ → Scrobbler E → Flow (Scrobbler E)
  poll_scrobble now s = let s' = maybe_scrobble now s in await_scrobble s'.scrobble_future s'

  abbrev pub fetch_meta : Option SpotifyId → Scrobbler E → Scrobbler E
  fetch_meta none s = s
  fetch_meta (some id) s = record s { meta_fetch_future = get_track_meta E id }

  abbrev pub after_new_track : Poll Unit × Future Unit → Scrobbler E → Flow (Scrobbler E)
  after_new_track (ready done, f) s = goes_on (
      fetch_meta s.current_track_id
        (record s { new_track_future = E.empty Unit; current_track_scrobbled = false }))
  after_new_track (not_ready, f) s = goes_on (record s { new_track_future = f })
  after_new_track (failed, f) s = ends failed (record s { new_track_future = f })
  after_new_track (aborts, f) s = ends aborts (record s { new_track_future = f })

  unfoldable pub poll_new_track : Scrobbler E → Flow (Scrobbler E)
  poll_new_track s = after_new_track (E.poll Unit s.new_track_future) s

  abbrev pub announce : Scrobble → Scrobbler E → Scrobbler E
  announce meta s =
      let (future, s') =
        send_now_playing E meta (record s { meta_fetch_future = E.empty Scrobble }) in
      record s' { now_playing_future = future; current_track_meta = some meta }

  abbrev pub after_meta : Poll Scrobble × Future Scrobble → Scrobbler E → Flow (Scrobbler E)
  after_meta (ready meta, f) s = goes_on (announce meta s)
  after_meta (not_ready, f) s = goes_on (record s { meta_fetch_future = f })
  after_meta (failed, f) s = ends failed (record s { meta_fetch_future = f })
  after_meta (aborts, f) s = ends aborts (record s { meta_fetch_future = f })

  unfoldable pub poll_meta : Scrobbler E → Flow (Scrobbler E)
  unfolding send_now_playing
  poll_meta s = after_meta (E.poll Scrobble s.meta_fetch_future) s

  abbrev pub after_now_playing : Poll Unit × Future Unit → Scrobbler E → Flow (Scrobbler E)
  after_now_playing (ready done, f) s = goes_on (record s { now_playing_future = E.empty Unit })
  after_now_playing (not_ready, f) s = goes_on (record s { now_playing_future = f })
  after_now_playing (failed, f) s = ends failed (record s { now_playing_future = f })
  after_now_playing (aborts, f) s = ends aborts (record s { now_playing_future = f })

  unfoldable pub poll_now_playing : Scrobbler E → Flow (Scrobbler E)
  poll_now_playing s = after_now_playing (E.poll Unit s.now_playing_future) s

  -- `now` is the clock when the poll tests the time that the track has played.
  unfoldable pub poll : ℕ → Scrobbler E → Poll (Unit {0}) × Scrobbler E
  poll now s = finish do
    authenticated ← poll_auth s
    scrobbled ← poll_scrobble now authenticated
    renewed ← poll_new_track scrobbled
    informed ← poll_meta renewed
    poll_now_playing informed

  -- The stages of a poll that went through all of them.
  pub record AllStages (now : ℕ) (s t : Scrobbler E) : Type 0 where
    pub authenticated : Scrobbler E
    pub scrobbled : Scrobbler E
    pub renewed : Scrobbler E
    pub informed : Scrobbler E
    pub first : poll_auth s ≡ goes_on authenticated
    pub second : poll_scrobble now authenticated ≡ goes_on scrobbled
    pub third : poll_new_track scrobbled ≡ goes_on renewed
    pub fourth : poll_meta renewed ≡ goes_on informed
    pub fifth : poll_now_playing informed ≡ goes_on t

  auth_goes_on : (s t : Scrobbler E) → poll_auth s ≡ ends not_ready t → ⊥
  unfolding poll_auth
  auth_goes_on s t e = ground arith

  new_track_goes_on : (s t : Scrobbler E) → poll_new_track s ≡ ends not_ready t → ⊥
  unfolding poll_new_track
  new_track_goes_on s t e = ground arith

  meta_goes_on : (s t : Scrobbler E) → poll_meta s ≡ ends not_ready t → ⊥
  unfolding poll_meta
  meta_goes_on s t e = ground arith

  now_playing_goes_on :
      (s t : Scrobbler E)
      → finish (poll_now_playing s) ≡ (not_ready, t)
      → poll_now_playing s ≡ goes_on t
  unfolding poll_now_playing
  now_playing_goes_on s t e = ground arith

  -- A poll that answers `not_ready` went through all stages, or stopped at a scrobble in flight.
  pub poll_cases :
      (now : ℕ) (s t : Scrobbler E)
      → poll now s ≡ (not_ready, t)
      → AllStages now s t
        ⊎ ((u : Scrobbler E) × (poll_auth s ≡ goes_on u) × (poll_scrobble now u ≡ ends not_ready t))
  unfolding poll
  poll_cases now s t e = elim (finish-bind (poll_auth s) _ e) [
    | inr k ↦ absurd (auth_goes_on s t k)
    | inl (u, a, e2) ↦ elim (finish-bind (poll_scrobble now u) _ e2) [
      | inr k ↦ inr (u, a, k)
      | inl (v, b, e3) ↦ elim (finish-bind (poll_new_track v) _ e3) [
        | inr k ↦ absurd (new_track_goes_on v t k)
        | inl (w, c, e4) ↦ elim (finish-bind (poll_meta w) _ e4) [
          | inr k ↦ absurd (meta_goes_on w t k)
          | inl (x, d, e5) ↦ inl (record {
            authenticated = u;
            scrobbled = v;
            renewed = w;
            informed = x;
            first = a;
            second = b;
            third = c;
            fourth = d;
            fifth = now_playing_goes_on x t e5;
          })
        ]
      ]
    ]
  ]
