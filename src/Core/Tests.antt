-- ===== src/Core/Tests.antt =====
-- A core that crashes, and a screen that is late, as runs of the loop and of the health checks.
use xray_runner.Prelude.{
  ℕ, ◌*◌, ◌≡◌, true, false, none, some, List, [], ◌∷◌, arith, refl, All, length,
}
use xray_runner.Prelude.Int.{ℤ}
use xray_runner.Core.Runner.{backoff, Round, second, run_with_retry, generation, run_rounds}
use xray_runner.Core.Retry.{
  still_runs, IsBackoff, doubling, waits_bounded, IsCrash, crashes_give_up,
}
use xray_runner.Core.Health.{
  World, HealthEvent, core_started, checked, core_stopped, shown, health_run, health_update,
}
use xray_runner.Core.Views.{IsLive}
use xray_runner.Core.Freshness.{AllForward, new_world, no_stale_health}

-- the core ran for 30 seconds and exited with status 1
abbrev crash : Round ℕ
crash = record {
  process = record {
    start_err = none;
    setup_err = none;
    over = true;
    exit = some 1;
    stop_err = none;
  };
  cancelled = false;
  restart = false;
  age = 30 * second;
  age_later = 30 * second;
  cancelled_waiting = false;
}

abbrev crashes : List (Round ℕ)
crashes = crash ∷ crash ∷ crash ∷ []

abbrev closed_session : List (Round ℕ)
closed_session = crash ∷ record crash { cancelled_waiting = true } ∷ []

waits_double : (run_with_retry 3 crashes).delays ≡ doubling 0 3
unfolding run_rounds backoff
waits_double = refl

-- time.Duration is an int64
too_many_attempts : backoff 34 ≡ ℤ.negsuc 1_266_874_889_709_551_615
unfolding backoff
too_many_attempts = refl

crash-IsCrash : IsCrash crash
unfolding generation
crash-IsCrash = (refl, refl, refl, omega arith, omega arith, refl)

waits_bounded_example :
    All (IsBackoff 3) (run_with_retry 3 closed_session).delays
    × ((run_with_retry 3 crashes).delays ≡ doubling 0 3)
waits_bounded_example =
    waits_bounded 3 closed_session crashes (omega arith)
      (crash-IsCrash, (crash-IsCrash, (crash-IsCrash, tt))) (omega arith)

crashes_give_up_example :
    (still_runs (run_with_retry 3 crashes).end ≡ false)
    × (length (run_with_retry 3 crashes).delays ≡ 3)
    × ((run_with_retry 3 crashes).started ≡ 3)
crashes_give_up_example =
    crashes_give_up 3 crashes (crash-IsCrash, (crash-IsCrash, (crash-IsCrash, tt))) (omega arith)

-- core 1 answers, stops with its result still in the channel, and core 2 fails its check
abbrev reconnect : List HealthEvent
reconnect =
    core_started 1
    ∷ checked 1 true 40 100
    ∷ core_stopped 2
    ∷ checked 1 true 40 101
    ∷ core_started 2
    ∷ checked 2 false 0 102
    ∷ shown 103
    ∷ shown 104
    ∷ shown 105
    ∷ []

reconnect-AllForward : AllForward 3 reconnect (new_world [] 0)
unfolding AllForward
reconnect-AllForward =
    (omega arith, (tt, (omega arith, (tt, (omega arith, (tt, (tt, (tt, (tt, tt)))))))))

-- the screen has seen the reset and the failed check of core 2
abbrev reconnected : World
reconnected = record {
  health = record {
    health_gen = 2;
    last_check = some 102;
    last_check_ok = false;
    status_ch = some [];
  };
  screen = record {
    apps = [];
    started = none;
    last = some (health_update 2 false 0);
    note = "";
    gen = 2;
  };
  first_live = 2;
}

no_stale_health_example :
    (reconnected.screen.gen ≡ 2) × IsLive 2 reconnected.health.health_gen reconnected.screen.last
unfolding health_run
no_stale_health_example =
    no_stale_health 3 0 [] reconnect reconnected (omega arith) reconnect-AllForward refl refl
