-- ===== src/Scrobbler/Once.antt =====
-- A play is reported once, however often the scrobbler of src/scrobbler.rs is polled.
use spotify_connect_scrobble.Prelude.{
  ℕ, ◌≡◌, ◌≢◌, ◌⊎◌, inl, inr, refl, sym, ap, ◌∙◌, subst, ◌∷◌, Option, none, some, true, false,
  arith, Bool-cases, Option-cases,
}
use spotify_connect_scrobble.Scrobbler.{Scrobbler, can_scrobble_track, send_now_playing}
use spotify_connect_scrobble.Scrobbler.Services.{Env, IsLawful, not_ready}
use spotify_connect_scrobble.Scrobbler.Polling.{
  goes_on, ends, poll_auth, maybe_scrobble, poll_scrobble, await_scrobble, poll_new_track,
  poll_meta, poll_now_playing, poll, poll_cases, AllStages,
}
use spotify_connect_scrobble.Scrobbler.Update.{
  can_scrobble_track_iff, start_scrobble-none, start_scrobble-some,
}
use spotify_connect_scrobble.Scrobbler.Stages.{
  focus, focus-poll_auth, focus-poll_scrobble, focus-poll_scrobble_ends,
}
use spotify_connect_scrobble.Scrobbler.Tracking.{
  Settled, settled, AllStages-Settled, idle_is_not_ready,
}
use spotify_connect_scrobble.Scrobbler.Reports.{reports}

module _ (E : Env) where
  open E use {Future, Scrobble}

  -- The current play has been reported, or its report is on the way.
  abbrev pub IsSpent : Scrobbler E → Type 0
  IsSpent s = (s.current_track_scrobbled ≡ true) ⊎ (s.scrobble_future ≢ none)

  -- How an operation changes the reports and whether the play is spent: it leaves both, or spends
  -- the play by one report.
  abbrev pub ReportsOnce : Scrobbler E → Scrobbler E → Type 0
  ReportsOnce s t =
      (reports E t ≡ reports E s) × (IsSpent s → IsSpent t)
      ⊎ ((m : Scrobble) × (reports E t ≡ m ∷ reports E s) × ¬ IsSpent s × IsSpent t)

  spent_or_due :
      (s : Scrobbler E)
      → IsSpent s
      → s.current_track_scrobbled ≡ false
      → s.scrobble_future ≡ none
      → ⊥
  spent_or_due s (inl h) e k = cc
  spent_or_due s (inr h) e k = h k

  ReportsOnce-trans : (s t u : Scrobbler E) → ReportsOnce s t → ReportsOnce t u → ReportsOnce s u
  ReportsOnce-trans s t u (inl (e, f)) (inl (k, g)) = inl (k ∙ e, λ h. g (f h))
  ReportsOnce-trans s t u (inl (e, f)) (inr (m, k, unspent, spent)) =
      inr (m, k ∙ ap (λ r. m ∷ r) e, (λ h. unspent (f h)), spent)
  ReportsOnce-trans s t u (inr (m, e, unspent, spent)) (inl (k, g)) =
      inr (m, k ∙ e, unspent, g spent)
  ReportsOnce-trans s t u (inr (m, e, unspent, spent)) (inr (n, k, unspent', spent')) =
      absurd (unspent' spent)

  -- What a stage leaves alone that neither reports nor changes what is spent.
  abbrev Leaves : Scrobbler E → Scrobbler E → Type 0
  Leaves s t =
      (t.current_track_scrobbled ≡ s.current_track_scrobbled)
      × (t.scrobble_future ≡ s.scrobble_future)
      × (reports E t ≡ reports E s)

  Leaves-once : (s t : Scrobbler E) → Leaves s t → ReportsOnce s t
  Leaves-once s t (e, k, r) = inl (r, λ h. IsSpent-Leaves h)
    where
      IsSpent-Leaves : IsSpent s → IsSpent t
      IsSpent-Leaves (inl h) = inl (e ∙ h)
      IsSpent-Leaves (inr h) = inr (λ n. h (sym k ∙ n))

  poll_auth-once : (s t : Scrobbler E) → poll_auth E s ≡ goes_on t → Leaves s t
  unfolding poll_auth
  poll_auth-once s t e = ground arith

  -- The clause of the new track that resets `current_track_scrobbled` is not reached.
  poll_new_track-once :
      (s t : Scrobbler E)
      → (E.poll Unit s.new_track_future).0 ≡ not_ready
      → poll_new_track E s ≡ goes_on t
      → Leaves s t
  unfolding poll_new_track
  poll_new_track-once s t h e = ground arith

  poll_meta-once : (s t : Scrobbler E) → poll_meta E s ≡ goes_on t → Leaves s t
  unfolding poll_meta send_now_playing
  poll_meta-once s t e = ground arith

  poll_now_playing-once : (s t : Scrobbler E) → poll_now_playing E s ≡ goes_on t → Leaves s t
  unfolding poll_now_playing
  poll_now_playing-once s t e = ground arith

  maybe_scrobble-once : (now : ℕ) (s : Scrobbler E) → ReportsOnce s (maybe_scrobble E now s)
  unfolding maybe_scrobble
  maybe_scrobble-once now s = elim (Bool-cases (can_scrobble_track E now s)) [
    | inr e ↦ rw e (inl (refl, λ h. h))
    | inl e ↦
        let due = (can_scrobble_track_iff E now s).0 e in
        let unspent : IsSpent s → ⊥ = λ h. spent_or_due s h due.unsent due.idle in
        rw e (elim (Option-cases s.current_track_meta) [
          | inl n ↦ rw (start_scrobble-none E s n) (inl (refl, λ h. absurd (unspent h)))
          | inr (m, k) ↦ rw (start_scrobble-some E s m k) (inr (m, refl, unspent, inr (λ p. cc)))
        ])
  ]

  await_scrobble-once :
      (o : Option (Future Unit)) (s t : Scrobbler E)
      → s.scrobble_future ≡ o
      → (await_scrobble E o s ≡ goes_on t) ⊎ (await_scrobble E o s ≡ ends not_ready t)
      → ReportsOnce s t
  await_scrobble-once none s t k (inl e) = Leaves-once s t (ground arith)
  await_scrobble-once none s t k (inr e) = cc
  await_scrobble-once (some f) s t k (inl e) = inl (ground arith, λ h. inl (ground arith))
  await_scrobble-once (some f) s t k (inr e) = inl (ground arith, λ h. inr (ground arith))

  poll_scrobble-once :
      (now : ℕ) (s t : Scrobbler E)
      → (poll_scrobble E now s ≡ goes_on t) ⊎ (poll_scrobble E now s ≡ ends not_ready t)
      → ReportsOnce s t
  unfolding poll_scrobble
  poll_scrobble-once now s t e =
      ReportsOnce-trans s (maybe_scrobble E now s) t (maybe_scrobble-once now s)
        (await_scrobble-once _ _ t refl e)

  module _ (lawful : IsLawful E) where
    poll-once :
        (now : ℕ) (s t : Scrobbler E)
        → Settled E (focus E s)
        → poll E now s ≡ (not_ready, t)
        → Settled E (focus E t) × ReportsOnce s t
    poll-once now s t h e = elim (poll_cases E now s t e) [
      | inl st ↦ (
        AllStages-Settled E lawful now s t st (settled h),
        ReportsOnce-trans s st.scrobbled t
            (ReportsOnce-trans s st.authenticated st.scrobbled
              (Leaves-once s st.authenticated (poll_auth-once _ _ st.first))
              (poll_scrobble-once now st.authenticated st.scrobbled (inl st.second)))
            (ReportsOnce-trans st.scrobbled st.informed t
              (ReportsOnce-trans st.scrobbled st.renewed st.informed
                (Leaves-once st.scrobbled st.renewed
                  (poll_new_track-once _ _ (still_idle st) st.third))
                (Leaves-once st.renewed st.informed (poll_meta-once _ _ st.fourth)))
              (Leaves-once st.informed t (poll_now_playing-once _ _ st.fifth))),
      )
      | inr (u, a, b) ↦ (
        subst (Settled E) (sym (focus-poll_scrobble_ends E now u t _ b ∙ focus-poll_auth E _ _ a))
            h,
        ReportsOnce-trans s u t (Leaves-once s u (poll_auth-once _ _ a))
            (poll_scrobble-once now u t (inr b)),
      )
    ]
      where
        still_idle :
            (st : AllStages E now s t) → (E.poll Unit st.scrobbled.new_track_future).0 ≡ not_ready
        still_idle st =
            let same = focus-poll_scrobble E now _ _ st.second ∙ focus-poll_auth E _ _ st.first in
            ap (λ r. r.0) (idle_is_not_ready E lawful _ (ap (λ x. x.new_track) same ∙ h.0))

    -- Any number of polls, each at its own time, none of which fails.
    pub data Polls (s : Scrobbler E) : Scrobbler E → Type 0 where
      none_yet : Polls s s
      one_more :
          {t u : Scrobbler E} (now : ℕ) → Polls s t → poll E now t ≡ (not_ready, u) → Polls s u

    Polls-ReportsOnce :
        {s t : Scrobbler E}
        → Settled E (focus E s)
        → Polls s t
        → Settled E (focus E t) × ReportsOnce s t
    Polls-ReportsOnce {s} h none_yet = (h, inl (refl, λ k. k))
    Polls-ReportsOnce {s} {t} h (one_more {t = u} now p e) =
        let (k, once) = Polls-ReportsOnce h p in
        let (l, again) = poll-once now u t k e in (l, ReportsOnce-trans s u t once again)

    -- Between two updates, once the new track has been taken up: polls that do not fail report the
    -- play at most once, however many they are, and not at all if it is spent.
    pub Polls-once :
        (s t : Scrobbler E)
        → Settled E (focus E s)
        → Polls s t
        → (reports E t ≡ reports E s)
          ⊎ ((m : Scrobble) × (reports E t ≡ m ∷ reports E s) × ¬ IsSpent s)
    Polls-once s t h p = elim (Polls-ReportsOnce h p).1 [
      | inl (e, keeps) ↦ inl e
      | inr (m, e, unspent, spent) ↦ inr (m, e, unspent)
    ]
