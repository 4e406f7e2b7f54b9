-- ===== src/Reconnect/Backoff.antt =====
-- How long the loop waits.
use labtether_agent.Common.{
  ℕ, ◌+◌, ◌*◌, ◌/◌, ◌≤◌, ◌<◌, ◌≡◌, ◌⊎◌, inl, inr, some, List, [], ◌∷◌, All, arith, Bool-cases,
  choose, Option-cases, leb, ok, err, Result,
}
use labtether_agent.Common.Text.{Text}
use labtether_agent.Reconnect.{
  Dialling, Link, auth_failure_threshold, recent, re_enrolled, happen, happen_all, Event, lost_at,
  given, rejected, mark_enrollment_rejected, Round, ConnectErrorKind, Turn, after_dial,
  after_failure, auth, auth_backoff, auth_blocked, auth_failed, back_off, classify_connect_error,
  connected, connection_up, failed, jitter_duration, mark_disconnected, max_backoff, none_kind,
  record_failure, retries, round, rounds, second, transient, turn, up, update_token, waits,
  waiting_after_rejection,
}

-- The backoff lies from one second to one minute.
abbrev pub IsValid : Link → Type 0
IsValid link = (second ≤ link.backoff) × (link.backoff ≤ max_backoff)

-- What crypto/rand documents: Int draws a number below its bound.
abbrev pub DrawsBelow : Round → Type 0
DrawsBelow r = (bound n : ℕ) → r.draw bound ≡ some n → n < bound

-- A wait takes at least a second, and less than 75 seconds or five minutes.
abbrev pub IsWait : Turn → Type 0
IsWait (waits w) = (second ≤ w) × ((w < 75 * second) ⊎ (w ≡ auth_backoff))
IsWait retries = Unit
IsWait up = Unit

abbrev Kept : Link × Turn → Type 0
Kept out = IsValid out.0 × IsWait out.1

jitter-lt :
    (r : Round) (bound : ℕ) → DrawsBelow r → 0 < bound → jitter_duration bound r.draw < bound
unfolding jitter_duration
jitter-lt r bound draws h = elim (Option-cases (r.draw bound)) [
  | inl e ↦ ground arith
  | inr (n, e) ↦ let below = draws bound n e in ground arith
]

back_off-Kept : (r : Round) (link : Link) → DrawsBelow r → IsValid link → Kept (back_off r link)
unfolding back_off
back_off-Kept r link draws (low, high) =
    let jitter = jitter-lt r (link.backoff / 4) draws (omega (arith, low)) in
    ((omega (arith, low), omega arith), (omega (arith, low), inl (omega (arith, jitter, high))))

re_enrolled-Kept :
    (r : Round) (result : Result Text Text) (link : Link)
    → IsValid link
    → Kept (re_enrolled r result link)
unfolding update_token
re_enrolled-Kept r (ok token) link valid = ((omega arith, omega arith), tt)
re_enrolled-Kept r (err message) link valid = ground arith

auth_blocked-Kept : (r : Round) (link : Link) → IsValid link → Kept (auth_blocked r link)
unfolding auth_blocked
auth_blocked-Kept r link valid = elim (Option-cases r.re_enroll) [
  | inl e ↦ ground arith
  | inr (result, e) ↦ elim (Bool-cases (recent r link.last_re_enroll_at)) [
    | inl soon ↦ ground arith
    | inr late ↦ let kept = re_enrolled-Kept r result link valid in ground (arith, kept)
  ]
]

auth_failed-Kept :
    (r : Round) (link : Link) → DrawsBelow r → IsValid link → Kept (auth_failed r link)
unfolding auth_failed
auth_failed-Kept r link draws valid =
    let counted : Link = record link { auth_failures = link.auth_failures + 1 } in
    choose Kept (leb auth_failure_threshold counted.auth_failures)
      (auth_blocked-Kept r counted valid) (back_off-Kept r counted draws valid)

after_failure-Kept :
    (kind : ConnectErrorKind) (reason : Text) (r : Round) (link : Link)
    → DrawsBelow r
    → IsValid link
    → Kept (after_failure kind reason r link)
unfolding after_failure record_failure
after_failure-Kept auth reason r link draws valid = auth_failed-Kept r _ draws valid
after_failure-Kept none_kind reason r link draws valid = back_off-Kept r _ draws valid
after_failure-Kept transient reason r link draws valid = back_off-Kept r _ draws valid

after_dial-Kept :
    (dial : Dialling) (r : Round) (link : Link)
    → DrawsBelow r
    → IsValid link
    → Kept (after_dial dial r link)
unfolding after_dial connection_up
after_dial-Kept connected r link draws valid = ((omega arith, omega arith), tt)
after_dial-Kept (failed status reason) r link draws valid =
    after_failure-Kept (classify_connect_error (failed status reason)) reason r link draws valid

turn-Kept : (r : Round) (link : Link) → DrawsBelow r → IsValid link → Kept (turn r link)
unfolding turn
turn-Kept r link draws valid =
    choose Kept link.socket_open (valid, (omega arith, inl (omega arith)))
      (choose Kept (waiting_after_rejection link) (valid, (omega arith, inl (omega arith)))
        (after_dial-Kept r.dial r link draws valid))

happen-IsValid : (event : Event) (link : Link) → IsValid link → IsValid (happen event link)
unfolding happen mark_disconnected update_token mark_enrollment_rejected
happen-IsValid (lost_at now) link valid = valid
happen-IsValid (given token) link valid = valid
happen-IsValid (rejected reason) link valid = valid

happen_all-IsValid :
    (events : List Event) (link : Link) → IsValid link → IsValid (happen_all events link)
unfolding happen_all
happen_all-IsValid [] link valid = valid
happen_all-IsValid (event ∷ events) link valid =
    happen_all-IsValid events (happen event link) (happen-IsValid event link valid)

round-Kept : (r : Round) (link : Link) → DrawsBelow r → IsValid link → Kept (round r link)
unfolding round
round-Kept r link draws valid =
    turn-Kept r (happen_all r.events link) draws (happen_all-IsValid r.events link valid)

-- If the random source draws below its bound and the backoff starts between one second and one
-- minute, it stays there, and every wait of the loop takes at least a second, and less than 75 seconds
-- or exactly five minutes, whatever the dials, the re-enrollments and the events in between are.
pub rounds-IsWait :
    (rs : List Round) (link : Link)
    → All DrawsBelow rs
    → IsValid link
    → IsValid (rounds rs link).0 × All IsWait (rounds rs link).1
unfolding rounds
rounds-IsWait [] link draws valid = (valid, tt)
rounds-IsWait (r ∷ rs) link (draw, draws) valid =
    let (next_valid, wait) = round-Kept r link draw valid in
    let (last, later) = rounds-IsWait rs (round r link).0 draws next_valid in (last, (wait, later))
