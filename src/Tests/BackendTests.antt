-- ===== src/Tests/BackendTests.antt =====
-- src/host/sunshine_backend.cpp: one child that is started, runs on for a while, and is stopped.
use arcade_launcher_stream_e.Base.{codes, [], ◌∷◌, ◌≡◌, refl, is_empty}
use arcade_launcher_stream_e.Host.Backend.Children.{
  Settled, Reachable, AccountsFor, state_after, do_start, stop-Settled, after,
  Reachable-AccountsFor, initial,
}
use arcade_launcher_stream_e.Host.Backend.{
  still_running, ended, Backend, System, stop, start, running, spawn, wait_loop, force,
}

abbrev idle : Backend
idle = record { apps_path = codes "/a/apps.json"; binary = codes "/e/sunshine"; pid = 0 }

abbrev fresh_system : System
fresh_system = record {
  polls = still_running ∷ still_running ∷ ended ∷ [];
  waits = [];
  forks = 41 ∷ [];
  spawned = [];
  reaped = [];
  lost = [];
  terminated = [];
  killed = [];
}

started_once :
    Reachable (state_after do_start idle fresh_system).0 (state_after do_start idle fresh_system).1
started_once = after do_start (initial refl refl refl refl)

Reachable-AccountsFor_example :
    AccountsFor
      (state_after do_start idle fresh_system).0
      (state_after do_start idle fresh_system).1
Reachable-AccountsFor_example = Reachable-AccountsFor started_once

stop-Settled_example :
    Settled
      (stop (start idle fresh_system).1 (start idle fresh_system).2).0
      (stop (start idle fresh_system).1 (start idle fresh_system).2).1
stop-Settled_example =
    stop-Settled (start idle fresh_system).1 (start idle fresh_system).2
      Reachable-AccountsFor_example

stopped : (stop (start idle fresh_system).1 (start idle fresh_system).2).1 ≡ record {
  polls = [];
  waits = [];
  forks = [];
  spawned = 41 ∷ [];
  reaped = 41 ∷ [];
  lost = [];
  terminated = 41 ∷ [];
  killed = [];
}
unfolding stop start running spawn wait_loop force is_empty
stopped = refl
