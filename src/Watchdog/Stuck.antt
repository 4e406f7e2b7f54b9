-- ===== src/Watchdog/Stuck.antt =====
-- When the watchdog exits: a description that looks back from a tick to the last change.
use labtether_agent.Common.{
  ℕ, ◌-◌, ◌*◌, ◌↔◌, Option, none, ◌<◌, ◌≡◌, ◌⊎◌, refl, sym, ap, ◌∙◌, true, false, inl, inr, ◌++◌,
  some, List, [], ◌∷◌, All, arith, Bool-cases, ltb, lt→ltb, ◌==◌, ==_iff,
}
use labtether_agent.Watchdog.{
  Tick, Watch, WatchdogConfig, check_tick, effective_stuck_threshold, exits, goes_on, watch_from,
  watchdog_exit_code,
}

-- The time is longer than the threshold and, if the interval of the heartbeat is known, than three
-- intervals.
abbrev pub Overdue : WatchdogConfig → Option ℕ → ℕ → Type 0
Overdue cfg interval time =
    (cfg.stuck_threshold < time) × ((n : ℕ) → interval ≡ some n → 3 * n < time)

pub effective_stuck_threshold_iff :
    (cfg : WatchdogConfig) (interval : Option ℕ) (time : ℕ)
    → (effective_stuck_threshold cfg interval < time) ↔ Overdue cfg interval time
unfolding effective_stuck_threshold
effective_stuck_threshold_iff cfg none time =
    (λ h. (ground arith, λ n e. cc), λ (low, each). ground arith)
effective_stuck_threshold_iff cfg (some m) time = (
  λ h. (ground arith, λ n e. ground (arith, h, e)),
  λ (low, each). let high = each m refl in ground (arith, low, high),
)

-- Between a reading and a tick the counter stood still, and the tick is later than the reading by
-- more than the threshold and than three heartbeat intervals, as they are at the tick.
abbrev pub StuckFrom : WatchdogConfig → Tick → List Tick → Tick → Type 0
StuckFrom cfg reading between tick =
    All (λ t. t.counter ≡ reading.counter) between
    × (tick.counter ≡ reading.counter)
    × Overdue cfg tick.heartbeat_interval (tick.now - reading.now)

abbrev pub from_reading : Tick → ℕ → Watch
from_reading reading goroutines = record {
  last_value = reading.counter;
  last_change = reading.now;
  last_goroutines = goroutines;
}

-- The three things that a tick can do.
pub tick_changed :
    (cfg : WatchdogConfig) (tick : Tick) (w : Watch)
    → (tick.counter == w.last_value) ≡ false
    → check_tick cfg tick w ≡ goes_on (from_reading tick tick.goroutines)
unfolding check_tick
tick_changed cfg tick w e = ground arith

pub tick_stuck :
    (cfg : WatchdogConfig) (tick : Tick) (w : Watch)
    → (tick.counter == w.last_value) ≡ true
    → ltb (effective_stuck_threshold cfg tick.heartbeat_interval) (tick.now - w.last_change) ≡ true
    → check_tick cfg tick w ≡ exits watchdog_exit_code
unfolding check_tick
tick_stuck cfg tick w e late = ground arith

pub tick_still :
    (cfg : WatchdogConfig) (tick : Tick) (w : Watch)
    → (tick.counter == w.last_value) ≡ true
    → ltb (effective_stuck_threshold cfg tick.heartbeat_interval) (tick.now - w.last_change) ≡ false
    → check_tick cfg tick w ≡ goes_on (record w { last_goroutines = tick.goroutines })
unfolding check_tick
tick_still cfg tick w e soon = ground arith

pub watch-step :
    (cfg : WatchdogConfig) (tick : Tick) (ticks : List Tick) (w next : Watch)
    → check_tick cfg tick w ≡ goes_on next
    → watch_from cfg (tick ∷ ticks) w ≡ watch_from cfg ticks next
unfolding watch_from
watch-step cfg tick ticks w next e = rw (e, watch_from) refl

pub watch-exit :
    (cfg : WatchdogConfig) (tick : Tick) (ticks : List Tick) (w : Watch) (code : ℕ)
    → check_tick cfg tick w ≡ exits code
    → watch_from cfg (tick ∷ ticks) w ≡ some code
unfolding watch_from
watch-exit cfg tick ticks w code e = rw (e, watch_from) refl

-- The heartbeat stops at a reading: the watchdog exits at the latest when a tick finds it stuck.
pub exits_when_stuck :
    (cfg : WatchdogConfig) (reading tick : Tick) (between later : List Tick) (goroutines : ℕ)
    → StuckFrom cfg reading between tick
    → watch_from cfg (between ++ (tick ∷ later)) (from_reading reading goroutines)
      ≡ some watchdog_exit_code
exits_when_stuck cfg reading tick [] later goroutines (still, same_count, late) =
    watch-exit cfg tick later _ _ (
      tick_stuck cfg tick (from_reading reading goroutines) ((==_iff _ _).1 same_count)
        (lt→ltb _ _ ((effective_stuck_threshold_iff cfg _ _).1 late)))
exits_when_stuck cfg reading tick (t ∷ between) later goroutines ((still, rest), same_count, late) =
    let w = from_reading reading goroutines in
    let at = (==_iff t.counter w.last_value).1 still in
    elim (Bool-cases
      (ltb (effective_stuck_threshold cfg t.heartbeat_interval) (t.now - w.last_change))) [
        | inl stuck ↦ watch-exit cfg t (between ++ (tick ∷ later)) w _ (tick_stuck cfg t w at stuck)
        | inr soon ↦
            watch-step cfg t (between ++ (tick ∷ later)) w _ (tick_still cfg t w at soon)
            ∙ exits_when_stuck cfg reading tick between later t.goroutines (rest, same_count, late)
      ]

-- The last reading of the counter, which the watchdog remembers.
abbrev pub last_counter : ℕ → List Tick → ℕ
last_counter n [] = n
last_counter n (t ∷ ticks) = last_counter t.counter ticks

-- Behind some ticks the watchdog has exited, or remembers the last counter.
pub watch-before :
    (cfg : WatchdogConfig) (before rest : List Tick) (w : Watch)
    → (watch_from cfg (before ++ rest) w ≡ some watchdog_exit_code)
      ⊎ ((next : Watch) × (watch_from cfg (before ++ rest) w ≡ watch_from cfg rest next)
          × (next.last_value ≡ last_counter w.last_value before))
watch-before cfg [] rest w = inr (w, refl, refl)
watch-before cfg (t ∷ before) rest w = elim (Bool-cases (t.counter == w.last_value)) [
  | inr changed ↦
      let here = watch-step cfg t (before ++ rest) w _ (tick_changed cfg t w changed) in
      elim (watch-before cfg before rest (from_reading t t.goroutines)) [
        | inl done ↦ inl (here ∙ done)
        | inr (next, e, value) ↦ inr (next, here ∙ e, value)
      ]
  | inl at ↦
      elim (Bool-cases
        (ltb (effective_stuck_threshold cfg t.heartbeat_interval) (t.now - w.last_change))) [
          | inl stuck ↦ inl (watch-exit cfg t (before ++ rest) w _ (tick_stuck cfg t w at stuck))
          | inr soon ↦
              let here = watch-step cfg t (before ++ rest) w _ (tick_still cfg t w at soon) in
              elim (watch-before cfg before rest (record w { last_goroutines = t.goroutines })) [
                | inl done ↦ inl (here ∙ done)
                | inr (next, e, value) ↦ inr (
                  next,
                  here ∙ e,
                  value ∙ ap (λ n. last_counter n before) (sym ((==_iff _ _).0 at)),
                )
              ]
        ]
]
