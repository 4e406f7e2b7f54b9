-- ===== src/Watchdog/Tests.antt =====
-- A heartbeat that stands still, and one that is slow but alive; the theorem at them.
use labtether_agent.Common.{ℕ, ◌*◌, ◌≡◌, ◌↔◌, refl, true, false, none, some, List, [], ◌∷◌}
use labtether_agent.Watchdog.{
  Tick, WatchdogConfig, check_tick, effective_stuck_threshold, leak_warning, run_watchdog,
  watch_from, watchdog_exit_code, with_defaults,
}
use labtether_agent.Watchdog.Exit.{IsStuck, run_watchdog_iff}

run : Unit {0}
unfolding check_tick effective_stuck_threshold leak_warning run_watchdog watch_from with_defaults
run = tt

abbrev defaults : WatchdogConfig
defaults = record { check_interval = 0; stuck_threshold = 0 }

-- A tick at a minute of the clock, with an interval of the heartbeat in minutes.
abbrev tick_at : ℕ → ℕ → ℕ → Tick
tick_at minute counter interval = record {
  counter = counter;
  now = minute * 60000000000;
  heartbeat_interval = some (interval * 60000000000);
  goroutines = 40;
}

abbrev hangs : ℕ → List Tick
hangs interval =
    tick_at 1 5 interval ∷ tick_at 2 6 interval ∷ tick_at 5 6 interval ∷ tick_at 8 6 interval ∷ []

-- Six minutes of silence are too many for a heartbeat each minute, and few for one each ten minutes.
exits_or_waits :
    (run_watchdog defaults (tick_at 0 5 1) (hangs 1) ≡ some 11)
    × (run_watchdog defaults (tick_at 0 5 10) (hangs 10) ≡ none)
    × (leak_warning 400 601 ≡ true)
    × (leak_warning 400 600 ≡ false)
unfolding run
exits_or_waits = (refl, refl, refl, refl)

run_watchdog_iff_example :
    (run_watchdog defaults (tick_at 0 5 1) (hangs 1) ≡ some watchdog_exit_code)
    ↔ IsStuck (with_defaults defaults) (tick_at 0 5 1) (hangs 1)
run_watchdog_iff_example = run_watchdog_iff defaults (tick_at 0 5 1) (hangs 1)
