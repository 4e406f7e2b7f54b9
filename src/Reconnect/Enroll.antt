-- ===== src/Reconnect/Enroll.antt =====
-- How often the loop asks for new credentials.
use labtether_agent.Common.{
  ℕ, ◌+◌, ◌-◌, ◌<◌, ◌≡◌, refl, ap, false, inl, inr, Option, none, some, List, [], ◌∷◌, arith,
  Bool-cases, choose, Option-cases, ok, err, Result, leb,
}
use labtether_agent.Common.Text.{Text}
use labtether_agent.Reconnect.{
  ConnectErrorKind, Dialling, Link, Round, Turn, after_dial, after_failure, auth, auth_blocked,
  auth_failed, auth_failure_threshold, back_off, classify_connect_error, connected, connection_up,
  failed, happen, happen_all, Event, lost_at, given, rejected, mark_enrollment_rejected,
  mark_disconnected, none_kind, re_enroll_gap, re_enrolled, recent, record_failure, round, rounds,
  transient, turn, update_token, waiting_after_rejection,
}

-- Each call began more than ten minutes behind the end of the one before it.
abbrev pub Spaced : List (ℕ × ℕ) → Type 0
Spaced [] = Unit
Spaced (call ∷ []) = Unit
Spaced ((asked, done) ∷ (asked_before, done_before) ∷ calls) =
    (done_before + re_enroll_gap < asked) × Spaced ((asked_before, done_before) ∷ calls)

abbrev last_done : List (ℕ × ℕ) → Option ℕ
last_done [] = none
last_done ((asked, done) ∷ calls) = some done

-- The loop remembers when the last call ended.
abbrev pub IsSpaced : Link → Type 0
IsSpaced link = Spaced link.enrollments × (link.last_re_enroll_at ≡ last_done link.enrollments)

Spaced-cons :
    (r : Round) (calls : List (ℕ × ℕ)) (last : Option ℕ)
    → last ≡ last_done calls
    → recent r last ≡ false
    → Spaced calls
    → Spaced ((r.asked_at, r.re_enrolled_at) ∷ calls)
Spaced-cons r [] last e late h = tt
Spaced-cons r ((asked, done) ∷ calls) last e late h =
    let read = ap (recent r) e in
    let gap : re_enroll_gap < r.asked_at - done = ground (arith, read, late) in
    (omega (arith, gap), h)

re_enrolled-IsSpaced :
    (r : Round) (result : Result Text Text) (link : Link)
    → recent r link.last_re_enroll_at ≡ false
    → IsSpaced link
    → IsSpaced (re_enrolled r result link).0
unfolding update_token
re_enrolled-IsSpaced r (ok token) link late (spaced, last) =
    (Spaced-cons r link.enrollments link.last_re_enroll_at last late spaced, refl)
re_enrolled-IsSpaced r (err message) link late (spaced, last) =
    let next = Spaced-cons r link.enrollments link.last_re_enroll_at last late spaced in
    ground arith

auth_blocked-IsSpaced : (r : Round) (link : Link) → IsSpaced link → IsSpaced (auth_blocked r link).0
unfolding auth_blocked
auth_blocked-IsSpaced r link h = elim (Option-cases r.re_enroll) [
  | inl e ↦ ground arith
  | inr (result, e) ↦ elim (Bool-cases (recent r link.last_re_enroll_at)) [
    | inl soon ↦ ground arith
    | inr late ↦ let next = re_enrolled-IsSpaced r result link late h in ground (arith, next)
  ]
]

After : Link × Turn → Type 0
After out = IsSpaced out.0

auth_failed-IsSpaced : (r : Round) (link : Link) → IsSpaced link → IsSpaced (auth_failed r link).0
unfolding auth_failed back_off After
auth_failed-IsSpaced r link h =
    let counted : Link = record link { auth_failures = link.auth_failures + 1 } in
    choose After (leb auth_failure_threshold counted.auth_failures)
      (auth_blocked-IsSpaced r counted h) h

after_failure-IsSpaced :
    (kind : ConnectErrorKind) (reason : Text) (r : Round) (link : Link)
    → IsSpaced link
    → IsSpaced (after_failure kind reason r link).0
unfolding after_failure record_failure back_off
after_failure-IsSpaced auth reason r link h = auth_failed-IsSpaced r _ h
after_failure-IsSpaced none_kind reason r link h = h
after_failure-IsSpaced transient reason r link h = h

after_dial-IsSpaced :
    (dial : Dialling) (r : Round) (link : Link)
    → IsSpaced link
    → IsSpaced (after_dial dial r link).0
unfolding after_dial connection_up
after_dial-IsSpaced connected r link h = h
after_dial-IsSpaced (failed status reason) r link h =
    after_failure-IsSpaced (classify_connect_error (failed status reason)) reason r link h

happen-IsSpaced : (event : Event) (link : Link) → IsSpaced link → IsSpaced (happen event link)
unfolding happen mark_disconnected update_token mark_enrollment_rejected
happen-IsSpaced (lost_at now) link h = h
happen-IsSpaced (given token) link h = h
happen-IsSpaced (rejected reason) link h = h

happen_all-IsSpaced :
    (events : List Event) (link : Link) → IsSpaced link → IsSpaced (happen_all events link)
unfolding happen_all
happen_all-IsSpaced [] link h = h
happen_all-IsSpaced (event ∷ events) link h =
    happen_all-IsSpaced events (happen event link) (happen-IsSpaced event link h)

round-IsSpaced : (r : Round) (link : Link) → IsSpaced link → IsSpaced (round r link).0
unfolding round turn After
round-IsSpaced r link h =
    let met = happen_all r.events link in
    let kept = happen_all-IsSpaced r.events link h in
    choose After met.socket_open kept
      (choose After (waiting_after_rejection met) kept (after_dial-IsSpaced r.dial r met kept))

-- Whatever the hub answers, whatever the clock says and whatever happens between the turns, the loop
-- calls the re-enrollment only when more than ten minutes have passed since the last call ended, if
-- that is so at first.
pub rounds-IsSpaced : (rs : List Round) (link : Link) → IsSpaced link → IsSpaced (rounds rs link).0
unfolding rounds
rounds-IsSpaced [] link h = h
rounds-IsSpaced (r ∷ rs) link h = rounds-IsSpaced rs (round r link).0 (round-IsSpaced r link h)
