-- ===== src/Main/Tests.antt =====
-- A run of the theorem on src/main.rs in a small world.
use spotify_connect_scrobble.Prelude.{
  ℕ, zero, suc, ◌≡◌, ◌⊎◌, refl, [], Option, none, some, Bool, true, false, returns, panics, ◌>>=◌,
}
use spotify_connect_scrobble.Scrobbler.Services.{Poll, ready, not_ready}
use spotify_connect_scrobble.Main.{World, Main, poll}
use spotify_connect_scrobble.Main.Ending.{poll-ends}
use spotify_connect_scrobble.Main.Late.{mark, poll_late}

abbrev poll_once : Bool → Poll (Unit {0}) × Bool
poll_once true = (ready tt, false)
poll_once false = (not_ready, false)

abbrev poll_counted : ℕ → Poll (Option (Unit {0})) × ℕ
poll_counted zero = (not_ready, zero)
poll_counted (suc n) = (ready (some tt), n)

-- A connection that is there at once, some signals, and a device that ends when it is told to.
abbrev small_world : World
small_world = record {
  Credentials = Unit {0};
  Session = Unit {0};
  SpircTask = Bool;
  Connect = Bool;
  Signals = ℕ;
  connect = λ c. true;
  empty = false;
  poll_connect = poll_once;
  poll_signals = poll_counted;
  new_spirc = λ s. returns false;
  send_shutdown = λ task. true;
  poll_spirc = poll_once;
  poll-empty = refl;
}

abbrev started : Main small_world
started = record {
  connect = true;
  signals = 1;
  has_spirc = false;
  spirc_task = none;
  shutdown = false;
  spawned = [];
}

poll-ends_example :
    (poll small_world 3 started ≡ panics)
    ⊎ ((answer : Poll (Unit {0})) × (m' : Main small_world) × (poll small_world 3 started
          ≡ returns (some (answer, m')))
        × ((answer ≡ not_ready) ⊎ ((answer ≡ ready tt) × (m'.shutdown ≡ true))))
poll-ends_example = poll-ends small_world started

-- A connection that is there at its second poll.
abbrev poll_slowly : ℕ → Poll (Unit {0}) × ℕ
poll_slowly zero = (not_ready, zero)
poll_slowly (suc zero) = (ready tt, 1)
poll_slowly (suc (suc n)) = (not_ready, 1)

abbrev slow_world : World
slow_world = record {
  Credentials = Unit {0};
  Session = Unit {0};
  SpircTask = Bool;
  Connect = ℕ;
  Signals = ℕ;
  connect = λ c. 2;
  empty = 0;
  poll_connect = poll_slowly;
  poll_signals = poll_counted;
  new_spirc = λ s. returns false;
  send_shutdown = λ task. true;
  poll_spirc = poll_once;
  poll-empty = refl;
}

abbrev connecting : Main slow_world
connecting = record {
  connect = 2;
  signals = 1;
  has_spirc = false;
  spirc_task = none;
  shutdown = false;
  spawned = [];
}

poll_late_example :
    (poll slow_world 3 (record connecting { connect = 1; signals = 0 }) ≡ panics)
    ⊎ (poll slow_world 4 connecting ≡ (
        poll slow_world 3 (record connecting { connect = 1; signals = 0 }) >>= λ o.
        returns (mark slow_world o)))
poll_late_example = poll_late slow_world 3 connecting 1 0 refl refl refl refl refl refl
