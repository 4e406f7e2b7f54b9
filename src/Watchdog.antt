-- ===== src/Watchdog.antt =====
-- internal/agentcore/watchdog.go: the watchdog on the heartbeat counter. `watch_from` is the loop over
-- the ticks of its timer, each with what the code reads at it.
pub mod Stuck
pub mod Exit
mod Tests
use labtether_agent.Common.{
  ℕ, zero, suc, ◌+◌, ◌-◌, ◌*◌, max, Bool, true, false, not, ◌&&◌, Option, none, some, List, [], ◌∷◌,
  if◌then◌else◌, ltb, ◌==◌,
}

-- Durations are nanoseconds.
abbrev pub default_watchdog_interval : ℕ
default_watchdog_interval = 60000000000

abbrev pub default_stuck_threshold : ℕ
default_stuck_threshold = 300000000000

abbrev pub goroutine_warning_threshold : ℕ
goroutine_warning_threshold = 500

abbrev pub watchdog_exit_code : ℕ
watchdog_exit_code = 11

-- `HeartbeatInterval` is read at each tick, and so it stands there.
pub record WatchdogConfig : Type 0 where
  pub check_interval : ℕ
  pub stuck_threshold : ℕ

-- The counter, the clock, the interval that the configuration reports, if it has the function, and
-- the number of goroutines.
pub record Tick : Type 0 where
  pub counter : ℕ
  pub now : ℕ
  pub heartbeat_interval : Option ℕ
  pub goroutines : ℕ

pub record Watch : Type 0 where
  pub last_value : ℕ
  pub last_change : ℕ
  pub last_goroutines : ℕ

abbrev scaled : Option ℕ → ℕ
scaled none = 0
scaled (some interval) = 3 * interval

unfoldable pub effective_stuck_threshold : WatchdogConfig → Option ℕ → ℕ
effective_stuck_threshold cfg interval =
    if ltb cfg.stuck_threshold (scaled interval) then scaled interval else cfg.stuck_threshold

unfoldable pub with_defaults : WatchdogConfig → WatchdogConfig
with_defaults cfg = record {
  check_interval =
      if cfg.check_interval == 0 then default_watchdog_interval else cfg.check_interval;
  stuck_threshold =
      if cfg.stuck_threshold == 0 then default_stuck_threshold else cfg.stuck_threshold;
}

-- The code only logs this warning: the growth is more than half of the last number.
unfoldable pub leak_warning : ℕ → ℕ → Bool
leak_warning last goroutines =
    ltb goroutine_warning_threshold goroutines && ltb 0 last && ltb last (2 * (goroutines - last))

-- What one tick does: the loop goes on, or the watchdog exits with a code.
pub data Verdict : Type 0 where
  goes_on : Watch → Verdict
  exits : ℕ → Verdict

unfoldable pub check_tick : WatchdogConfig → Tick → Watch → Verdict
check_tick cfg tick w =
    if not (tick.counter == w.last_value)
    then goes_on (record {
      last_value = tick.counter;
      last_change = tick.now;
      last_goroutines = tick.goroutines;
    })
    else if ltb (effective_stuck_threshold cfg tick.heartbeat_interval) (tick.now - w.last_change)
    then exits watchdog_exit_code
    else goes_on (record w { last_goroutines = tick.goroutines })

-- The loop: the code of the exit, if it exits before the ticks end.
unfoldable pub watch_from : WatchdogConfig → List Tick → Watch → Option ℕ
watch_from cfg [] w = none
watch_from cfg (tick ∷ ticks) w = elim (check_tick cfg tick w) [
  | exits code ↦ some code
  | goes_on next ↦ watch_from cfg ticks next
]

-- `RunWatchdog`, with the readings before the loop as the first tick
unfoldable pub run_watchdog : WatchdogConfig → Tick → List Tick → Option ℕ
run_watchdog cfg first ticks = watch_from (with_defaults cfg) ticks (record {
  last_value = first.counter;
  last_change = first.now;
  last_goroutines = first.goroutines;
})
