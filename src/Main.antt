-- ===== src/Main.antt =====
-- src/main.rs: the future that the program runs: it connects, runs the device, and shuts it down on
-- a signal.
pub mod Setup
pub mod Login
pub mod Restart
pub mod Refusal
pub mod Ending
pub mod Late
pub mod Tests
pub mod StartTests
use spotify_connect_scrobble.Prelude.{
  ℕ, zero, suc, ◌≡◌, List, [], ◌∷◌, Option, none, some, Bool, true, false, not, ◌||◌, Run, returns,
  panics, ◌>>=◌, if◌then◌else◌,
}
use spotify_connect_scrobble.Scrobbler.Services.{Poll, ready, not_ready, failed, aborts}

-- What the program's future is made of: the connection of a session, by some credentials; the
-- stream of signals; and the task of the device, whose `Spirc` puts the command to shut down into
-- the task's channel.
pub record World : Type 1 where
  pub Credentials : Type 0
  pub Session : Type 0
  pub SpircTask : Type 0
  pub Connect : Type 0
  pub Signals : Type 0
  pub connect : Credentials → Connect
  pub empty : Connect
  pub poll_connect : Connect → Poll Session × Connect
  pub poll_signals : Signals → Poll (Option (Unit {0})) × Signals
  pub new_spirc : Session → Run SpircTask
  pub send_shutdown : SpircTask → SpircTask
  pub poll_spirc : SpircTask → Poll (Unit {0}) × SpircTask
  pub poll-empty : poll_connect empty ≡ (not_ready, empty)

-- What a round of the loop leads to.
pub data Turn : Type 0 where
  ends again waits : Turn

module _ (W : World) where
  -- `has_spirc` says whether the handle `spirc` is there; `spawned` are the tasks that were given to
  -- the reactor, newest first.
  pub record Main : Type 0 where
    pub connect : W.Connect
    pub signals : W.Signals
    pub has_spirc : Bool
    pub spirc_task : Option W.SpircTask
    pub shutdown : Bool
    pub spawned : List W.SpircTask

  abbrev pub spawn : Option W.SpircTask → List W.SpircTask → List W.SpircTask
  spawn none tasks = tasks
  spawn (some task) tasks = task ∷ tasks

  unfoldable pub credentials : W.Credentials → Main → Main
  credentials c m = record m {
    connect = W.connect c;
    has_spirc = false;
    spirc_task = none;
    spawned = spawn m.spirc_task m.spawned;
  }

  abbrev pub with_credentials : Option W.Credentials → Main → Main
  with_credentials none m = m
  with_credentials (some c) m = credentials c m

  unfoldable pub new : Option W.Credentials → W.Signals → Main
  new c signals = with_credentials c (record {
    connect = W.empty;
    signals = signals;
    has_spirc = false;
    spirc_task = none;
    shutdown = false;
    spawned = [];
  })

  -- The first `if let` of `poll`, with whether it made progress.
  abbrev pub connected : Poll W.Session × W.Connect → Main → Run (Bool × Main)
  connected (ready session, c) m = do
    task ← W.new_spirc session
    returns (true, record m { connect = W.empty; has_spirc = true; spirc_task = some task })
  connected (not_ready, c) m = returns (false, record m { connect = c })
  connected (failed, c) m = panics
  connected (aborts, c) m = panics

  unfoldable pub poll_connection : Main → Run (Bool × Main)
  poll_connection m = connected (W.poll_connect m.connect) m

  -- `spirc.shutdown()`, when there is a device.
  abbrev pub shut_down : Bool → Option W.SpircTask → Option W.SpircTask
  shut_down true (some task) = some (W.send_shutdown task)
  shut_down true none = none
  shut_down false task = task

  -- The second one: the first signal shuts the device down, the next one ends the program.
  abbrev pub on_signal : Bool → Main → Turn × Main
  on_signal true m = (ends, m)
  on_signal false m =
      (again, record m { spirc_task = shut_down m.has_spirc m.spirc_task; shutdown = true })

  abbrev pub signalled : Poll (Option (Unit {0})) × W.Signals → Main → Run (Turn × Main)
  signalled (ready (some u), s) m = returns (on_signal m.shutdown (record m { signals = s }))
  signalled (ready none, s) m = returns (waits, record m { signals = s })
  signalled (not_ready, s) m = returns (waits, record m { signals = s })
  signalled (failed, s) m = panics
  signalled (aborts, s) m = panics

  unfoldable pub poll_signal : Main → Run (Turn × Main)
  poll_signal m = signalled (W.poll_signals m.signals) m

  -- The third one: the task may end behind a signal only.
  abbrev pub task_polled : Poll (Unit {0}) × W.SpircTask → Turn → Main → Run (Turn × Main)
  task_polled (ready u, t) turn m =
      if m.shutdown then returns (ends, record m { spirc_task = some t }) else panics
  task_polled (not_ready, t) turn m = returns (turn, record m { spirc_task = some t })
  task_polled (failed, t) turn m = panics
  task_polled (aborts, t) turn m = panics

  abbrev pub poll_task : Option W.SpircTask → Turn → Main → Run (Turn × Main)
  poll_task none turn m = returns (turn, m)
  poll_task (some task) turn m = task_polled (W.poll_spirc task) turn m

  -- What follows the poll of the signals: a second one has returned from `poll`.
  abbrev pub after_signal : Bool → Turn × Main → Run (Turn × Main)
  after_signal progress (ends, m) = returns (ends, m)
  after_signal progress (again, m) = poll_task m.spirc_task again m
  after_signal progress (waits, m) = poll_task m.spirc_task (if progress then again else waits) m

  unfoldable pub round : Main → Run (Turn × Main)
  round m = do
    (progress, m1) ← poll_connection m
    signalled ← poll_signal m1
    after_signal progress signalled

  abbrev pub next_turn :
      Turn × Main
      → (Main → Run (Option (Poll (Unit {0}) × Main)))
      → Run (Option (Poll (Unit {0}) × Main))
  next_turn (ends, m) rest = returns (some (ready tt, m))
  next_turn (waits, m) rest = returns (some (not_ready, m))
  next_turn (again, m) rest = rest m

  -- `poll`, in a number of rounds; `none` if they do not suffice.
  unfoldable pub poll : ℕ → Main → Run (Option (Poll (Unit {0}) × Main))
  poll zero m = returns none
  poll (suc rounds) m = round m >>= λ r. next_turn r (poll rounds)
