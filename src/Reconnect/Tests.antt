-- ===== src/Reconnect/Tests.antt =====
-- Turns of the loop against a hub that is away, and one that refuses the token; the theorems at
-- them.
use labtether_agent.Common.{
  ◌&◌, ℕ, ◌*◌, ◌^◌, min, ◌≡◌, refl, false, none, some, List, [], ◌∷◌, All, arith, ok, length,
  if◌then◌else◌, ltb,
}
use labtether_agent.Common.Text.{codes}
use labtether_agent.Common.Text.Space.{is_space, trim_left, trim_right, trim_space}
use labtether_agent.Reconnect.Backoff.{DrawsBelow, IsValid, IsWait, rounds-IsWait}
use labtether_agent.Reconnect.Doubling.{FailsToDial, IsDialling, rounds-doubles}
use labtether_agent.Reconnect.Enroll.{IsSpaced, rounds-IsSpaced}
use labtether_agent.Reconnect.Token.{normalize_issued_agent_token}
use labtether_agent.Reconnect.{
  happen, happen_all, mark_enrollment_rejected, rejected, Dialling, Link, Round, after_dial,
  after_failure, auth_blocked, auth_failed, back_off, classify_connect_error, connected,
  connection_up, failed, jitter_duration, mark_disconnected, max_backoff, record_failure, retries,
  round, rounds, second, turn, up, update_token, waiting_after_rejection, waits,
}

run : Unit {0}
unfolding normalize_issued_agent_token happen happen_all mark_enrollment_rejected is_space trim_left
    trim_right trim_space classify_connect_error jitter_duration update_token
    waiting_after_rejection back_off auth_blocked record_failure auth_failed connection_up
    after_failure after_dial mark_disconnected turn round rounds
run = tt

abbrev start : Link
start = record {
  backoff = second;
  socket_open = false;
  enrollment_rejected = false;
  token = codes "old";
  auth_failures = 0;
  last_error = [];
  last_error_reason = [];
  credential_error = [];
  last_error_at = none;
  disconnected_at = none;
  enrollment_refusal = [];
  last_re_enroll_at = none;
  reconnect_count = 0;
  enrollments = [];
}

-- A dial at a second of the clock; the random source draws zero, and a re-enrollment is granted.
abbrev dials : Dialling → ℕ → Round
dials dial at = record {
  events = [];
  dial = dial;
  now = at * second;
  asked_at = at * second;
  re_enroll = some (ok (codes "new"));
  re_enrolled_at = at * second;
  draw = λ bound. if ltb 0 bound then some 0 else none;
}

abbrev away : ℕ → Round
away = dials (failed none (codes "connection_refused"))

abbrev token_refused : Dialling
token_refused = failed (some 401) (codes "token_rejected")

abbrev refused : ℕ → Round
refused = dials token_refused

-- In between an administrator rejects the enrollment, which an agent with a token need not mind.
abbrev turns_away : List Round
turns_away = away 1 ∷ (record (away 2) { events = rejected (codes "no") ∷ [] }) ∷ away 4 ∷ []

abbrev turns_refused : List Round
turns_refused =
    refused 1 ∷ refused 2 ∷ refused 4 ∷ refused 5 ∷ refused 6 ∷ refused 8 ∷ dials connected 308 ∷ []

-- The third refusal asks for a new token at once; three more are too soon to ask again.
loops :
    ((rounds turns_away start).1 ≡ waits second ∷ waits (2 * second) ∷ waits (4 * second) ∷ [])
    × ((rounds turns_refused start).1
        ≡ waits second
          ∷ waits (2 * second)
          ∷ retries
          ∷ waits second
          ∷ waits (2 * second)
          ∷ waits (300 * second)
          ∷ up
          ∷ [])
    × ((rounds turns_refused start).0.enrollments ≡ (4 * second, 4 * second) ∷ [])
    × ((rounds turns_refused start).0.token ≡ codes "new")
    × (normalize_issued_agent_token (codes " a b ") ≡ none)
unfolding run
loops = (refl, refl, refl, refl, refl)

draws-zero : (dial : Dialling) (at : ℕ) → DrawsBelow (dials dial at)
draws-zero dial at bound n e = ground arith

rounds-IsWait_example :
    IsValid (rounds turns_refused start).0 × All IsWait (rounds turns_refused start).1
rounds-IsWait_example =
    rounds-IsWait turns_refused start
      (draws-zero token_refused 1
        & draws-zero token_refused 2
        & draws-zero token_refused 4
        & draws-zero token_refused 5
        & draws-zero token_refused 6
        & draws-zero token_refused 8
        & draws-zero connected 308
        & tt)
      (omega arith, omega arith)

rounds-IsSpaced_example : IsSpaced (rounds turns_refused start).0
rounds-IsSpaced_example = rounds-IsSpaced turns_refused start (tt, refl)

away-fails : All FailsToDial turns_away
unfolding run
away-fails = refl & refl & refl & tt

start-IsDialling : IsDialling start
start-IsDialling = (refl, refl)

rounds-doubles_example :
    (rounds turns_away start).0.backoff ≡ min (second * 2 ^ length turns_away) max_backoff
rounds-doubles_example = rounds-doubles turns_away start away-fails start-IsDialling (omega arith)
