-- ===== src/Watchdog/Exit.antt =====
-- The watchdog exits exactly when the heartbeat is stuck.
use labtether_agent.Common.{
  ℕ, ◌-◌, ◌≡◌, ◌↔◌, ◌⊎◌, ◌≢◌, refl, sym, ap, ◌∙◌, append_assoc, All-append, false, inl, inr, ◌++◌,
  some, List, [], ◌∷◌, All, Bool-cases, ltb, ltb→lt, ◌==◌, ==_iff,
}
use labtether_agent.Watchdog.{
  Tick, Watch, WatchdogConfig, effective_stuck_threshold, run_watchdog, watch_from,
  watchdog_exit_code, with_defaults,
}
use labtether_agent.Watchdog.Stuck.{
  StuckFrom, effective_stuck_threshold_iff, from_reading, last_counter, tick_changed, tick_still,
  watch-step, exits_when_stuck, watch-before,
}

-- The reading is the first one, or a tick at which the counter had another value than before; the
-- rest are the ticks behind it.
abbrev pub IsChange : Tick → List Tick → Tick → List Tick → Type 0
IsChange first ticks reading rest =
    ((reading ≡ first) × (ticks ≡ rest))
    ⊎ ((before : List Tick) × (ticks ≡ before ++ (reading ∷ rest))
        × (reading.counter ≢ last_counter first.counter before))

-- A change of the counter is followed by a tick that finds it stuck.
abbrev pub IsStuck : WatchdogConfig → Tick → List Tick → Type 0
IsStuck cfg first ticks =
    (reading : Tick) × (between : List Tick) × (tick : Tick) × (later : List Tick) × IsChange first
      ticks reading (between ++ (tick ∷ later))
    × StuckFrom cfg reading between tick

changed_test : (t : Tick) (n : ℕ) → t.counter ≢ n → (t.counter == n) ≡ false
changed_test t n ne = elim (Bool-cases (t.counter == n)) [
  | inl e ↦ absurd (ne ((==_iff _ _).0 e))
  | inr e ↦ e
]

test_differs : (t : Tick) (n : ℕ) → (t.counter == n) ≡ false → t.counter ≢ n
test_differs t n e same_count = let seen = (==_iff t.counter n).1 same_count in cc

IsStuck-exit :
    (cfg : WatchdogConfig) (first : Tick) (ticks : List Tick)
    → IsStuck cfg first ticks
    → watch_from cfg ticks (from_reading first first.goroutines) ≡ some watchdog_exit_code
IsStuck-exit cfg first ticks (reading, between, tick, later, inl (e, rest), stuck) =
    ap (λ ts. watch_from cfg ts (from_reading first first.goroutines)) rest
    ∙ ap (λ r. watch_from cfg (between ++ (tick ∷ later)) (from_reading r r.goroutines)) (sym e)
    ∙ exits_when_stuck cfg reading tick between later reading.goroutines stuck
IsStuck-exit cfg first ticks (reading, between, tick, later, inr (before, parts, changed), stuck) =
    let rest = between ++ (tick ∷ later) in
    elim (watch-before cfg before (reading ∷ rest) (from_reading first first.goroutines)) [
      | inl done ↦ ap (λ ts. watch_from cfg ts (from_reading first first.goroutines)) parts ∙ done
      | inr (next, e, value) ↦
          let at =
            changed_test reading next.last_value (λ same_count. changed (same_count ∙ value)) in
          ap (λ ts. watch_from cfg ts (from_reading first first.goroutines)) parts
          ∙ e
          ∙ watch-step cfg reading rest next _ (tick_changed cfg reading next at)
          ∙ exits_when_stuck cfg reading tick between later reading.goroutines stuck
    ]

-- A change that is the reading itself, behind the ticks that were seen since, or that is to come.
abbrev FoundIn : WatchdogConfig → Tick → List Tick → List Tick → Type 0
FoundIn cfg reading seen ticks =
    (found : Tick) × (between : List Tick) × (tick : Tick) × (later : List Tick) × (((found
          ≡ reading)
        × (seen ++ ticks ≡ between ++ (tick ∷ later)))
      ⊎ ((before : List Tick) × (ticks ≡ before ++ (found ∷ (between ++ (tick ∷ later))))
          × (found.counter ≢ last_counter reading.counter before)))
    × StuckFrom cfg found between tick

after_change :
    (cfg : WatchdogConfig) (reading t : Tick) (seen ts : List Tick)
    → t.counter ≢ reading.counter
    → FoundIn cfg t [] ts
    → FoundIn cfg reading seen (t ∷ ts)
after_change cfg reading t seen ts ne (found, between, tick, later, inl (here, parts), stuck) = (
  found,
  between,
  tick,
  later,
  inr (
    [],
    ap (◌∷◌ t) parts ∙ ap (λ r. r ∷ (between ++ (tick ∷ later))) (sym here),
    λ e. ne (ap (λ r. r.counter) (sym here) ∙ e),
  ),
  stuck,
)
after_change cfg reading t seen ts ne
      (found, between, tick, later, inr (before, parts, differs), stuck) =
    (found, between, tick, later, inr (t ∷ before, ap (◌∷◌ t) parts, differs), stuck)

after_still :
    (cfg : WatchdogConfig) (reading t : Tick) (seen ts : List Tick)
    → t.counter ≡ reading.counter
    → FoundIn cfg reading (seen ++ (t ∷ [])) ts
    → FoundIn cfg reading seen (t ∷ ts)
after_still cfg reading t seen ts same_count
      (found, between, tick, later, inl (here, parts), stuck) =
    (found, between, tick, later, inl (here, sym (append_assoc seen (t ∷ []) ts) ∙ parts), stuck)
after_still cfg reading t seen ts same_count
      (found, between, tick, later, inr (before, parts, differs), stuck) =
    (
      found,
      between,
      tick,
      later,
      inr (
        t ∷ before,
        ap (◌∷◌ t) parts,
        λ e. differs (e ∙ ap (λ n. last_counter n before) same_count),
      ),
      stuck,
    )

no_ticks : (cfg : WatchdogConfig) (w : Watch) (code : ℕ) → watch_from cfg [] w ≡ some code → ⊥
unfolding watch_from
no_ticks cfg w code e = cc

-- The ticks that were seen since the reading showed the same counter.
exit-found :
    (cfg : WatchdogConfig) (reading : Tick) (seen ticks : List Tick) (goroutines code : ℕ)
    → All (λ t. t.counter ≡ reading.counter) seen
    → watch_from cfg ticks (from_reading reading goroutines) ≡ some code
    → FoundIn cfg reading seen ticks
exit-found cfg reading seen [] goroutines code still h = absurd (no_ticks cfg _ code h)
exit-found cfg reading seen (t ∷ ts) goroutines code still h =
    let w = from_reading reading goroutines in
    elim (Bool-cases (t.counter == w.last_value)) [
      | inr changed ↦
          after_change cfg reading t seen ts (λ e. test_differs t w.last_value changed e)
            (exit-found cfg t [] ts t.goroutines code tt
              (sym (watch-step cfg t ts w _ (tick_changed cfg t w changed)) ∙ h))
      | inl at ↦
          let same_count = (==_iff t.counter w.last_value).0 at in
          elim (Bool-cases
            (ltb (effective_stuck_threshold cfg t.heartbeat_interval) (t.now - w.last_change))) [
              | inl stuck ↦ (
                reading,
                seen,
                t,
                ts,
                inl (refl, refl),
                (still, same_count, (effective_stuck_threshold_iff cfg _ _).0 (ltb→lt _ _ stuck)),
              )
              | inr soon ↦ after_still cfg reading t seen ts same_count (
                  exit-found cfg reading (seen ++ (t ∷ [])) ts t.goroutines code
                    (All-append (λ u. u.counter ≡ reading.counter) seen (t ∷ []) still
                      (same_count, tt))
                    (sym (watch-step cfg t ts w _ (tick_still cfg t w at soon)) ∙ h))
            ]
    ]

-- The watchdog exits with its code exactly when a change of the heartbeat counter, or the first
-- reading, is followed by ticks at which the counter stands still, the last of them later than the
-- change by more than the threshold and by more than three intervals of the heartbeat, as they are
-- at that tick.
pub run_watchdog_iff :
    (cfg : WatchdogConfig) (first : Tick) (ticks : List Tick)
    → (run_watchdog cfg first ticks ≡ some watchdog_exit_code)
      ↔ IsStuck (with_defaults cfg) first ticks
unfolding run_watchdog
run_watchdog_iff cfg first ticks = (
  λ h. exit-found (with_defaults cfg) first [] ticks first.goroutines watchdog_exit_code tt h,
  IsStuck-exit (with_defaults cfg) first ticks,
)
