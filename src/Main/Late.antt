-- ===== src/Main/Late.antt =====
-- `Main::poll` of src/main.rs: a signal that comes before the device is there.
use spotify_connect_scrobble.Prelude.{
  ℕ, zero, suc, ◌≡◌, ◌⊎◌, refl, inl, inr, ◌∙◌, Option, none, some, Bool, true, false, Run, returns,
  panics, ◌>>=◌, Bool-cases,
}
use spotify_connect_scrobble.Scrobbler.Services.{Poll, ready, not_ready, failed, aborts}
use spotify_connect_scrobble.Main.{
  World, Main, Turn, ends, again, waits, connected, poll_connection, poll_signal, task_polled,
  poll_task, after_signal, round, poll,
}

run_cases : {A : Type 0} (r : Run A) → (r ≡ panics) ⊎ ((a : A) × (r ≡ returns a))
run_cases panics = inl refl
run_cases (returns a) = inr (a, refl)

module _ (W : World) where
  -- The program with the shutdown noted, and nothing else changed.
  abbrev pub marked : Main W → Main W
  marked m = record m { shutdown = true }

  abbrev pub mark : Option (Poll (Unit {0}) × Main W) → Option (Poll (Unit {0}) × Main W)
  mark none = none
  mark (some (p, m)) = some (p, marked m)

  -- The streams of signals that give no more of them.
  abbrev pub IsSilent : W.Signals → Type 0
  IsSilent s = W.poll_signals s ≡ (not_ready, s)

  -- A run panics, or another one does the same, but for the mark.
  abbrev Alike : Main W → Run (Turn × Main W) → Run (Turn × Main W) → Type 0
  Alike m r r' =
      (r ≡ panics)
      ⊎ ((turn : Turn) × (m' : Main W) × (r ≡ returns (turn, m'))
          × (r' ≡ returns (turn, marked m'))
          × (m'.signals ≡ m.signals))

  task_polled-marked :
      (p : Poll (Unit {0}) × W.SpircTask) (turn : Turn) (m : Main W)
      → Alike m (task_polled W p turn m) (task_polled W p turn (marked m))
  task_polled-marked (ready u, t) turn m = elim (Bool-cases m.shutdown) [
    | inl e ↦ inr (ends, record m { spirc_task = some t }, rw e refl, refl, refl)
    | inr e ↦ inl (rw e refl)
  ]
  task_polled-marked (not_ready, t) turn m =
      inr (turn, record m { spirc_task = some t }, refl, refl, refl)
  task_polled-marked (failed, t) turn m = inl refl
  task_polled-marked (aborts, t) turn m = inl refl

  poll_task-marked :
      (o : Option W.SpircTask) (turn : Turn) (m : Main W)
      → Alike m (poll_task W o turn m) (poll_task W o turn (marked m))
  poll_task-marked none turn m = inr (turn, m, refl, refl, refl)
  poll_task-marked (some t) turn m = task_polled-marked (W.poll_spirc t) turn m

  after_connection :
      (progress : Bool) (m : Main W)
      → IsSilent m.signals
      → Alike m
          (poll_signal W m >>= after_signal W progress)
          (poll_signal W (marked m) >>= after_signal W progress)
  unfolding poll_signal
  after_connection true m h = rw h (poll_task-marked m.spirc_task again m)
  after_connection false m h = rw h (poll_task-marked m.spirc_task waits m)

  abbrev go_on : Bool × Main W → Run (Turn × Main W)
  go_on (progress, m) = poll_signal W m >>= after_signal W progress

  after_poll :
      (p : Poll W.Session × W.Connect) (m : Main W)
      → IsSilent m.signals
      → Alike m (connected W p m >>= go_on) (connected W p (marked m) >>= go_on)
  after_poll (ready session, c) m h = elim (run_cases (W.new_spirc session)) [
    | inl e ↦ inl (rw e refl)
    | inr (task, e) ↦ rw e (
        after_connection true
          (record m { connect = W.empty; has_spirc = true; spirc_task = some task }) h)
  ]
  after_poll (not_ready, c) m h = after_connection false (record m { connect = c }) h
  after_poll (failed, c) m h = inl refl
  after_poll (aborts, c) m h = inl refl

  round-marked : (m : Main W) → IsSilent m.signals → Alike m (round W m) (round W (marked m))
  unfolding round poll_connection
  round-marked m h = after_poll (W.poll_connect m.connect) m h

  -- Without further signals the mark is read only where a task that ended would make the program
  -- panic.
  poll-marked :
      (rounds : ℕ) (m : Main W)
      → IsSilent m.signals
      → (poll W rounds m ≡ panics)
        ⊎ (poll W rounds (marked m) ≡ (poll W rounds m >>= λ o. returns (mark o)))
  unfolding poll
  poll-marked zero m h = inr refl
  poll-marked (suc rounds) m h = elim (round-marked m h) [
    | inl e ↦ inl (rw e refl)
    | inr (ends, m', e, e', s) ↦ inr (rw (e, e') refl)
    | inr (waits, m', e, e', s) ↦ inr (rw (e, e') refl)
    | inr (again, m', e, e', s) ↦ rw (e, e') (poll-marked rounds m' (rw s h))
  ]

  -- If the first signal comes while the connection is waited for and no further one follows, the
  -- poll goes on exactly like that of a program without the signal, however many rounds it takes:
  -- the device is made and polled in the same way and not told to shut down, and the answer and the
  -- state are the same, but that the shutdown is noted. The one exception is where the program
  -- without the signal panics, as it does when the device's task ends.
  pub poll_late :
      (rounds : ℕ) (m : Main W) (c : W.Connect) (s : W.Signals)
      → m.has_spirc ≡ false
      → m.spirc_task ≡ none
      → m.shutdown ≡ false
      → W.poll_connect m.connect ≡ (not_ready, c)
      → W.poll_signals m.signals ≡ (ready (some tt), s)
      → W.poll_signals s ≡ (not_ready, s)
      → let m' = record m { connect = c; signals = s } in
        (poll W rounds m' ≡ panics)
        ⊎ (poll W (suc rounds) m ≡ (poll W rounds m' >>= λ o. returns (mark o)))
  unfolding poll round poll_connection poll_signal
  poll_late rounds m c s h1 h2 h3 waiting first silent =
      let m' = record m { connect = c; signals = s } in
      let marks : poll W (suc rounds) m ≡ poll W rounds (marked m') =
        rw (waiting, first, h1, h2, h3) refl in
      elim (poll-marked rounds m' silent) [ inl e ↦ inl e | inr e ↦ inr (marks ∙ e) ]
