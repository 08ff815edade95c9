-- ===== src/Scrobbler/Tracking.antt =====
-- The metadata that the scrobbler of src/scrobbler.rs keeps is that of the track that is playing.
use spotify_connect_scrobble.Prelude.{
  ℕ, ◌≡◌, ◌≢◌, ◌⊎◌, Bool, inl, inr, refl, sym, ap, ◌∙◌, subst, Option, none, some,
}
use spotify_connect_scrobble.Scrobbler.{
  Scrobbler, ScrobblerConfig, new, get_track_meta, set_new_track, update_current_track,
}
use spotify_connect_scrobble.Scrobbler.Services.{
  Env, IsLawful, Poll, ready, not_ready, failed, aborts,
}
use spotify_connect_scrobble.Scrobbler.Polling.{
  goes_on, ends, finish-bind_any, poll_auth, poll_scrobble, poll_new_track, poll_meta, poll,
  AllStages,
}
use spotify_connect_scrobble.Scrobbler.Stages.{
  Focus, focus, focus-poll_auth, focus-poll_scrobble, focus-poll_scrobble_ends,
  focus-poll_now_playing, poll_new_track_cases, poll_meta_cases, focus-poll_auth_ends,
  focus-finish_now_playing, poll_new_track_ends, poll_meta_ends,
}
use spotify_connect_scrobble.Scrobbler.Update.{update_current_track_lem}
use spotify_connect_scrobble.Util.SpotifyId.{SpotifyId}

module _ (E : Env) where
  open E use {Future, Scrobble}

  -- The futures that the fetch of a track's metadata goes through while it is polled.
  pub data FetchOf (id : SpotifyId) : Future Scrobble → Type 0 where
    started : (f : Future Scrobble) → f ≡ get_track_meta E id → FetchOf id f
    waiting :
        (f g : Future Scrobble)
        → FetchOf id g
        → (E.poll Scrobble g).0 ≡ not_ready
        → f ≡ (E.poll Scrobble g).1
        → FetchOf id f
    retried :
        (f g : Future Scrobble)
        → FetchOf id g
        → (E.poll Scrobble g).0 ≡ failed
        → f ≡ (E.poll Scrobble g).1
        → FetchOf id f

  -- `m` is what a fetch of the track's metadata has resolved to.
  abbrev pub MetaOf : SpotifyId → Scrobble → Type 0
  MetaOf id m = (f : Future Scrobble) × FetchOf id f × ((E.poll Scrobble f).0 ≡ ready m)

  abbrev pub FetchIsOf : Option SpotifyId → Future Scrobble → Type 0
  FetchIsOf track f = (f ≡ E.empty Scrobble) ⊎ ((id : SpotifyId) × (track ≡ some id) × FetchOf id f)

  abbrev pub MetaIsOf : Option SpotifyId → Option Scrobble → Type 0
  MetaIsOf track meta =
      (m : Scrobble) → meta ≡ some m → (id : SpotifyId) × (track ≡ some id) × MetaOf id m

  -- No new track waits to be fetched.
  abbrev pub Settled : Focus E → Type 0
  Settled x = (x.new_track ≡ E.empty Unit) × FetchIsOf x.track x.fetch × MetaIsOf x.track x.meta

  -- Either a new track waits to be fetched and nothing is known of it, or what is known and what is
  -- fetched belong to the current track.
  pub data Tracks (x : Focus E) : Type 0 where
    fresh :
        (id : SpotifyId) → x.track ≡ some id → x.new_track ≡ E.ok Unit tt → x.meta ≡ none → Tracks x
    settled : Settled x → Tracks x

  abbrev pub IsTracking : Scrobbler E → Type 0
  IsTracking s = Tracks (focus E s)

  pub new-IsTracking : (c : ScrobblerConfig) → IsTracking (new E c)
  unfolding new
  new-IsTracking c = settled (refl, inl refl, λ m e. cc)

  set_new_track-IsTracking :
      (now : ℕ) (id : SpotifyId) (s : Scrobbler E) → IsTracking (set_new_track E now id s)
  unfolding set_new_track
  set_new_track-IsTracking now id s = fresh id refl refl refl

  module _ (lawful : IsLawful E) where
    fresh_is_ready : (f : Future Unit) → f ≡ E.ok Unit tt → (E.poll Unit f).0 ≡ not_ready → ⊥
    fresh_is_ready f e h =
        cc (ap (λ (g : Future Unit). (E.poll Unit g).0) e, lawful.poll_ok Unit tt)

    pub idle_is_not_ready :
        (f : Future Unit) → f ≡ E.empty Unit → E.poll Unit f ≡ (not_ready, E.empty Unit)
    idle_is_not_ready f e = rw e (lawful.poll_empty Unit)

    pub new_track-Settled :
        (s t : Scrobbler E) → poll_new_track E s ≡ goes_on t → IsTracking s → Settled (focus E t)
    new_track-Settled s t e (fresh id k f n) = elim (poll_new_track_cases E s t e) [
      | inl (p, q) ↦ absurd (fresh_is_ready s.new_track_future f p)
      | inr (inl (p, q, r)) ↦ absurd (cc (k, q))
      | inr (inr (id', p, q, r)) ↦
          subst Settled (sym r) (refl, inr (id', q, started _ refl), λ m h. absurd (cc (h, n)))
    ]
    new_track-Settled s t e (settled (f, g, m)) =
        let idle = idle_is_not_ready s.new_track_future f in
        elim (poll_new_track_cases E s t e) [
          | inl (p, r) ↦ subst Settled (sym r) (ap (λ x. x.1) idle, g, m)
          | inr (inl (p, q, r)) ↦ absurd (cc (ap (λ x. x.0) idle, p))
          | inr (inr (id', p, q, r)) ↦ absurd (cc (ap (λ x. x.0) idle, p))
        ]

    polled_empty :
        (f : Future Scrobble)
        → f ≡ E.empty Scrobble
        → E.poll Scrobble f ≡ (not_ready, E.empty Scrobble)
    polled_empty f e = rw e (lawful.poll_empty Scrobble)

    meta-Settled :
        (s t : Scrobbler E) → poll_meta E s ≡ goes_on t → Settled (focus E s) → Settled (focus E t)
    meta-Settled s t e (f, inl none_fetched, m) =
        let idle = polled_empty s.meta_fetch_future none_fetched in
        elim (poll_meta_cases E s t e) [
          | inl (p, r) ↦ subst Settled (sym r) (f, inl (ap (λ x. x.1) idle), m)
          | inr (m', p, r) ↦ absurd (cc (ap (λ x. x.0) idle, p))
        ]
    meta-Settled s t e (f, inr (id, k, h), m) = elim (poll_meta_cases E s t e) [
      | inl (p, r) ↦ subst Settled (sym r) (f, inr (id, k, waiting _ _ h p refl), m)
      | inr (m', p, r) ↦
          subst Settled (sym r)
            (f, inl refl, λ n q. let same : m' ≡ n = cc in (id, k, (_, h, p ∙ ap ready same)))
    ]

    -- A poll that goes through all stages has taken up the new track, if there is one.
    pub AllStages-Settled :
        (now : ℕ) (s t : Scrobbler E) → AllStages E now s t → IsTracking s → Settled (focus E t)
    AllStages-Settled now s t st h =
        let before =
          subst Tracks
            (sym (focus-poll_scrobble E now _ _ st.second ∙ focus-poll_auth E _ _ st.first)) h in
        let renewed = new_track-Settled _ _ st.third before in
        let informed = meta-Settled _ _ st.fourth renewed in
        subst Settled (sym (focus-poll_now_playing E _ _ st.fifth)) informed

    new_track_goes_on :
        (s t : Scrobbler E) (p : Poll Unit) → poll_new_track E s ≡ ends p t → IsTracking s → ⊥
    new_track_goes_on s t p e (fresh id k f n) =
        let now : (E.poll Unit s.new_track_future).0 ≡ ready tt =
          ap (λ (g : Future Unit). (E.poll Unit g).0) f ∙ lawful.poll_ok Unit tt in
        elim (poll_new_track_ends E s t p e) [ inl q ↦ cc | inr q ↦ cc ]
    new_track_goes_on s t p e (settled (f, g, m)) =
        let idle : (E.poll Unit s.new_track_future).0 ≡ not_ready =
          ap (λ x. x.0) (idle_is_not_ready s.new_track_future f) in
        elim (poll_new_track_ends E s t p e) [ inl q ↦ cc | inr q ↦ cc ]

    meta_ends-Settled :
        (s t : Scrobbler E) (p : Poll Unit)
        → poll_meta E s ≡ ends p t
        → p ≢ aborts
        → Settled (focus E s)
        → Settled (focus E t)
    meta_ends-Settled s t p e live (f, inl none_fetched, m) =
        let idle = polled_empty s.meta_fetch_future none_fetched in
        elim (poll_meta_ends E s t p e) [
          | inl (q, r, u) ↦ absurd (cc (ap (λ x. x.0) idle, q))
          | inr q ↦ absurd (live q)
        ]
    meta_ends-Settled s t p e live (f, inr (id, k, h), m) = elim (poll_meta_ends E s t p e) [
      | inl (q, r, u) ↦ subst Settled (sym u) (f, inr (id, k, retried _ _ h q refl), m)
      | inr q ↦ absurd (live q)
    ]

    state_of-Tracks :
        (p answer : Poll Unit) (u t : Scrobbler E)
        → ◌≡◌ {A = Poll Unit × Scrobbler E} (p, u) (answer, t)
        → IsTracking u
        → IsTracking t
    state_of-Tracks p answer u t e h = subst IsTracking (ap (λ r. r.1) e) h

    -- Every poll that does not panic, failed or not, keeps what is known and what is fetched to the
    -- current track, over futures that follow their laws.
    pub poll-IsTracking :
        (now : ℕ) (s t : Scrobbler E) (answer : Poll Unit)
        → poll E now s ≡ (answer, t)
        → answer ≢ aborts
        → IsTracking s
        → IsTracking t
    unfolding poll
    poll-IsTracking now s t answer e live h = elim (finish-bind_any (poll_auth E s) _ e) [
      | inr (p, u, a, r) ↦
          state_of-Tracks p answer u t r (subst Tracks (sym (focus-poll_auth_ends E s u p a)) h)
      | inl (u, a, e2) ↦
          let h1 = subst Tracks (sym (focus-poll_auth E s u a)) h in
          elim (finish-bind_any (poll_scrobble E now u) _ e2) [
            | inr (p, v, b, r) ↦
                state_of-Tracks p answer v t r
                  (subst Tracks (sym (focus-poll_scrobble_ends E now u v p b)) h1)
            | inl (v, b, e3) ↦
                let h2 = subst Tracks (sym (focus-poll_scrobble E now u v b)) h1 in
                elim (finish-bind_any (poll_new_track E v) _ e3) [
                  | inr (p, w, c, r) ↦ absurd (new_track_goes_on v w p c h2)
                  | inl (w, c, e4) ↦
                      let h3 = new_track-Settled v w c h2 in
                      elim (finish-bind_any (poll_meta E w) _ e4) [
                        | inr (p, x, d, r) ↦
                            let same : p ≡ answer = ap (λ y. y.0) r in
                            state_of-Tracks p answer x t r
                              (settled (meta_ends-Settled w x p d (λ q. live (sym same ∙ q)) h3))
                        | inl (x, d, e5) ↦ settled (
                            subst Settled (sym (focus-finish_now_playing E x t answer e5))
                              (meta-Settled w x d h3))
                      ]
                ]
          ]
    ]

  update_current_track-IsTracking :
      (test now : ℕ) (id : SpotifyId) (force : Bool) (s : Scrobbler E)
      → IsTracking s
      → IsTracking (update_current_track E test now id force s)
  update_current_track-IsTracking test now id force s h =
      elim (update_current_track_lem E test now id force s) [
        | inl (k, f, e) ↦ subst IsTracking (sym e) h
        | inr (c, k, b, m, u, n, r) ↦ fresh id k n m
      ]

  -- The scrobblers that a program can come to: a new one, told of tracks at any time, and polled at
  -- any time, whatever the polls answer, as long as none of them panics.
  pub data Reached : Scrobbler E → Type 0 where
    created : (c : ScrobblerConfig) → Reached (new E c)
    updated :
        (test now : ℕ) (id : SpotifyId) (force : Bool) (s : Scrobbler E)
        → Reached s
        → Reached (update_current_track E test now id force s)
    polled :
        (now : ℕ) (answer : Poll Unit) (s t : Scrobbler E)
        → Reached s
        → poll E now s ≡ (answer, t)
        → answer ≢ aborts
        → Reached t

  pub Reached-IsTracking : IsLawful E → (s : Scrobbler E) → Reached s → IsTracking s
  Reached-IsTracking lawful _ (created c) = new-IsTracking c
  Reached-IsTracking lawful _ (updated test now id force s r) =
      update_current_track-IsTracking test now id force s (Reached-IsTracking lawful s r)
  Reached-IsTracking lawful _ (polled now answer s t r e live) =
      poll-IsTracking lawful now s t answer e live (Reached-IsTracking lawful s r)
