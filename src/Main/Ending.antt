-- ===== src/Main/Ending.antt =====
-- The loop of `Main::poll` in src/main.rs ends, and the program only after a signal.
use spotify_connect_scrobble.Prelude.{
  ℕ, ◌≡◌, ◌⊎◌, refl, sym, ap, ◌∙◌, inl, inr, Option, none, some, Bool, true, false, Run, returns,
  panics, ◌>>=◌, if◌then◌else◌, subst,
}
use spotify_connect_scrobble.Scrobbler.Services.{Poll, ready, not_ready, failed, aborts}
use spotify_connect_scrobble.Main.{
  World, Turn, ends, again, waits, Main, connected, poll_connection, on_signal, shut_down,
  signalled, poll_signal, task_polled, poll_task, after_signal, round, next_turn, poll,
}

-- What `poll` came to: an answer, which is ready behind a signal only.
Finished : (W : World) → Run (Option (Poll (Unit {0}) × Main W)) → Type 0
Finished W panics = Unit
Finished W (returns none) = ⊥
Finished W (returns (some (answer, m))) =
    (answer ≡ not_ready) ⊎ ((answer ≡ ready tt) × (m.shutdown ≡ true))

module _ (W : World) (P : W.Connect → Bool → Type 0) where
  -- A round that ends comes behind a signal, and one that goes on leaves the connection and the flag
  -- of the shutdown as `P` says.
  Leads : Run (Turn × Main W) → Type 0
  Leads panics = Unit
  Leads (returns (ends, m)) = m.shutdown ≡ true
  Leads (returns (waits, m)) = Unit
  Leads (returns (again, m)) = P m.connect m.shutdown

  task_polled-Leads :
      (p : Poll (Unit {0}) × W.SpircTask) (turn : Turn) (m : Main W)
      → Leads (returns (turn, m))
      → Leads (task_polled W p turn m)
  unfolding Leads
  task_polled-Leads (ready u, t) turn m h = ended m.shutdown refl
    where
      ended :
          (b : Bool)
          → m.shutdown ≡ b
          → Leads (if b then returns (ends, record m { spirc_task = some t }) else panics)
      ended true e = e
      ended false e = tt
  task_polled-Leads (not_ready, t) ends m h = h
  task_polled-Leads (not_ready, t) again m h = h
  task_polled-Leads (not_ready, t) waits m h = tt
  task_polled-Leads (failed, t) turn m h = tt
  task_polled-Leads (aborts, t) turn m h = tt

  poll_task-Leads :
      (o : Option W.SpircTask) (turn : Turn) (m : Main W)
      → Leads (returns (turn, m))
      → Leads (poll_task W o turn m)
  poll_task-Leads none turn m h = h
  poll_task-Leads (some task) turn m h = task_polled-Leads (W.poll_spirc task) turn m h

  on_signal-Leads :
      (b progress : Bool) (m : Main W)
      → m.shutdown ≡ b
      → (b ≡ false → P m.connect true)
      → Leads (after_signal W progress (on_signal W b m))
  unfolding Leads
  on_signal-Leads true progress m e f = e
  on_signal-Leads false progress m e f =
      let task : Option W.SpircTask = shut_down W m.has_spirc m.spirc_task in
      poll_task-Leads task again (record m { spirc_task = task; shutdown = true }) (f refl)

  -- The rest of a round behind the poll of the connection.
  signalled-Leads :
      (p : Poll (Option (Unit {0})) × W.Signals) (progress : Bool) (m : Main W)
      → (m.shutdown ≡ false → P m.connect true)
      → (progress ≡ true → P m.connect m.shutdown)
      → Leads (signalled W p m >>= after_signal W progress)
  unfolding Leads
  signalled-Leads (failed, s) progress m f g = tt
  signalled-Leads (aborts, s) progress m f g = tt
  signalled-Leads (ready none, s) true m f g =
      poll_task-Leads m.spirc_task again (record m { signals = s }) (g refl)
  signalled-Leads (ready none, s) false m f g =
      poll_task-Leads m.spirc_task waits (record m { signals = s }) tt
  signalled-Leads (not_ready, s) true m f g =
      poll_task-Leads m.spirc_task again (record m { signals = s }) (g refl)
  signalled-Leads (not_ready, s) false m f g =
      poll_task-Leads m.spirc_task waits (record m { signals = s }) tt
  signalled-Leads (ready (some u), s) progress m f g =
      on_signal-Leads m.shutdown progress (record m { signals = s }) refl f

  connected-Leads :
      (p : Poll W.Session × W.Connect) (m : Main W)
      → P W.empty m.shutdown
      → ((c : W.Connect) → m.shutdown ≡ false → P c true)
      → Leads (connected W p m >>= λ r. poll_signal W r.1 >>= after_signal W r.0)
  unfolding Leads poll_signal
  connected-Leads (failed, c) m h f = tt
  connected-Leads (aborts, c) m h f = tt
  connected-Leads (not_ready, c) m h f =
      signalled-Leads (W.poll_signals m.signals) false (record m { connect = c }) (f c)
        (λ e. absurd (cc e))
  connected-Leads (ready session, c) m h f = made (W.new_spirc session)
    where
      linked : W.SpircTask → Bool × Main W
      linked task = (true, record m { connect = W.empty; has_spirc = true; spirc_task = some task })

      made :
          (r : Run W.SpircTask)
          → Leads (
              r >>= (λ task. returns (linked task)) >>= λ r.
              poll_signal W r.1 >>= after_signal W r.0)
      made panics = tt
      made (returns task) =
          signalled-Leads (W.poll_signals m.signals) true
            (record m { connect = W.empty; has_spirc = true; spirc_task = some task }) (f W.empty)
            (λ e. h)

  round_any :
      (m : Main W)
      → P W.empty m.shutdown
      → ((c : W.Connect) → m.shutdown ≡ false → P c true)
      → Leads (round W m)
  unfolding round poll_connection
  round_any m h f = connected-Leads (W.poll_connect m.connect) m h f

  -- Without a connection to wait for, only a first signal goes on.
  round_quiet :
      (m : Main W) → m.connect ≡ W.empty → (m.shutdown ≡ false → P W.empty true) → Leads (round W m)
  unfolding round poll_connection Leads poll_signal
  round_quiet m e f =
      subst (λ p. Leads (connected W p m >>= λ r. poll_signal W r.1 >>= after_signal W r.0))
        (sym W.poll-empty ∙ ap W.poll_connect (sym e))
        (signalled-Leads (W.poll_signals m.signals) false (record m { connect = W.empty }) f
          (λ e. absurd (cc e)))

module _ (W : World) where
  next_turn-Finished :
      (P : W.Connect → Bool → Type 0) (n : ℕ) (r : Run (Turn × Main W))
      → Leads W P r
      → ((m : Main W) → P m.connect m.shutdown → Finished W (poll W n m))
      → Finished W (r >>= λ x. next_turn W x (poll W n))
  unfolding Leads Finished
  next_turn-Finished P n panics h f = tt
  next_turn-Finished P n (returns (ends, m)) h f = inr (refl, h)
  next_turn-Finished P n (returns (waits, m)) h f = inl refl
  next_turn-Finished P n (returns (again, m)) h f = f m h

  -- The rounds that are left: one for a signal, one for the connection, and the last.
  one_left : (m : Main W) → m.connect ≡ W.empty → m.shutdown ≡ true → Finished W (poll W 1 m)
  unfolding poll
  one_left m e d =
      next_turn-Finished (λ c b. ⊥) 0 (round W m) (round_quiet W (λ c b. ⊥) m e (λ k. cc (d, k)))
        (λ m h. absurd h)

  two_left : (m : Main W) → (m.connect ≡ W.empty) ⊎ (m.shutdown ≡ true) → Finished W (poll W 2 m)
  unfolding poll
  two_left m h =
      let P : W.Connect → Bool → Type 0 = λ c b. (c ≡ W.empty) × (b ≡ true) in
      next_turn-Finished P 1 (round W m)
        (elim h [
          | inl e ↦ round_quiet W P m e (λ k. (refl, refl))
          | inr d ↦ round_any W P m (refl, d) (λ c k. absurd (cc (d, k)))
        ])
        (λ m h. one_left m h.0 h.1)

  three_left : (m : Main W) → Finished W (poll W 3 m)
  unfolding poll
  three_left m =
      let P : W.Connect → Bool → Type 0 = λ c b. (c ≡ W.empty) ⊎ (b ≡ true) in
      next_turn-Finished P 2 (round W m) (round_any W P m (inl refl) (λ c k. inr refl)) two_left

  Finished-cases :
      (r : Run (Option (Poll (Unit {0}) × Main W)))
      → Finished W r
      → (r ≡ panics)
        ⊎ ((answer : Poll (Unit {0})) × (m' : Main W) × (r ≡ returns (some (answer, m')))
            × ((answer ≡ not_ready) ⊎ ((answer ≡ ready tt) × (m'.shutdown ≡ true))))
  unfolding Finished
  Finished-cases panics h = inl refl
  Finished-cases (returns none) h = absurd h
  Finished-cases (returns (some (answer, m))) h = inr (answer, m, refl, h)

  -- Three rounds are enough for every poll of the program, in any state and whatever the connection,
  -- the signals and the device's task answer: it panics, or it is not ready, or the program is over,
  -- and this comes behind a signal only.
  pub poll-ends :
      (m : Main W)
      → (poll W 3 m ≡ panics)
        ⊎ ((answer : Poll (Unit {0})) × (m' : Main W) × (poll W 3 m ≡ returns (some (answer, m')))
            × ((answer ≡ not_ready) ⊎ ((answer ≡ ready tt) × (m'.shutdown ≡ true))))
  poll-ends m = Finished-cases (poll W 3 m) (three_left m)
