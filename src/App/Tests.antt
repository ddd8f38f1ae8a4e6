-- ===== src/App/Tests.antt =====
-- A TUN session that loses the network when its core is restarted.
use xray_runner.Prelude.{true, false, ◌≡◌, refl, none, some, [], ◌∷◌, implies}
use xray_runner.App.Lifecycle.{
  SessionConfig, routes_in, routes_failed, Attempt, new_life, set_up, set_up_online, after_start,
  release_session, CoreRun, run_cores, release_all,
}
use xray_runner.App.Protection.{wants_kill_switch}
use xray_runner.App.Steady.{is_steady, first_attempt_decides}
use xray_runner.App.Sessions.{run_cores-steady, connected_is_protected, release_cleans}

abbrev guarded : SessionConfig
guarded = record { kill_switch = true; split = false }

abbrev good : Attempt
good = record {
  bind_err = none;
  same_adapter = true;
  interface_up = true;
  server_ip = true;
  routes = routes_in;
  endpoints = true;
  kill_switch_up = true;
  cancelled_waiting = false;
}

abbrev offline : Attempt
offline = record good { routes = routes_failed true false }

abbrev first_core : CoreRun
first_core = record { attempts = good ∷ []; cancelled = false; stop_fails = true }

abbrev second_core : CoreRun
second_core = record {
  attempts = offline ∷ offline ∷ good ∷ [];
  cancelled = false;
  stop_fails = false;
}

run_cores-steady_example :
    is_steady guarded (run_cores guarded (first_core ∷ second_core ∷ []) new_life) ≡ true
run_cores-steady_example = run_cores-steady guarded (first_core ∷ second_core ∷ [])

connected_is_protected_example :
    ((after_start guarded second_core.attempts false
        (run_cores guarded (first_core ∷ []) new_life)).1.host_routes
      ≡ true)
    × ((after_start guarded second_core.attempts false
          (run_cores guarded (first_core ∷ []) new_life)).1.health
        ≡ some 2)
    × (implies
          (wants_kill_switch guarded)
          (after_start guarded second_core.attempts false
            (run_cores guarded (first_core ∷ []) new_life)).1.host_kill_switch
        ≡ true)
unfolding run_cores
connected_is_protected_example =
    connected_is_protected guarded (first_core ∷ []) second_core refl refl

-- between two cores the kill switch stays up
holds_between : (run_cores guarded (first_core ∷ second_core ∷ []) new_life).host_kill_switch ≡ true
unfolding run_cores
holds_between = refl

release_cleans_example :
    ((release_session false false (
        release_all
          ((true, true) ∷ [])
          (run_cores guarded (first_core ∷ second_core ∷ []) new_life))).host_routes
      ≡ false)
    × ((release_session false false (
          release_all
            ((true, true) ∷ [])
            (run_cores guarded (first_core ∷ second_core ∷ []) new_life))).host_kill_switch
        ≡ false)
release_cleans_example = release_cleans guarded (first_core ∷ second_core ∷ []) ((true, true) ∷ [])

-- offline at first is a failure at once
first_attempt_decides_example :
    set_up_online guarded (offline ∷ good ∷ []) new_life
    ≡ (some (set_up guarded offline new_life).0, (set_up guarded offline new_life).1)
first_attempt_decides_example = first_attempt_decides guarded offline (good ∷ []) new_life refl
