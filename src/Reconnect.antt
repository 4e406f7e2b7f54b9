-- ===== src/Reconnect.antt =====
-- internal/agentcore/ws_reconnect.go, and of ws_transport.go what it uses: the loop that keeps the
-- agent connected to its hub. `round` is one turn of the loop up to its wait; what happens outside,
-- and the clock, are in `Round`.
pub mod Token
pub mod Backoff
pub mod Doubling
pub mod Enroll
mod Tests
use labtether_agent.Common.{
  ℕ, zero, suc, ◌+◌, ◌-◌, ◌*◌, ◌/◌, ◌<◌, min, Bool, true, false, not, ◌&&◌, ◌||◌, Option, none,
  some, List, [], ◌∷◌, if◌then◌else◌, ltb, leb, ◌==◌, Result, ok, err,
}
use labtether_agent.Common.Text.{Text, codes}
use labtether_agent.Reconnect.Token.{normalize_issued_agent_token}
use labtether_agent.Common.Text.Space.{is_blank, trim_space}

-- Durations are nanoseconds.
abbrev pub second : ℕ
second = 1000000000

abbrev pub max_backoff : ℕ
max_backoff = 60 * second

abbrev pub auth_backoff : ℕ
auth_backoff = 300 * second

abbrev pub auth_failure_threshold : ℕ
auth_failure_threshold = 3

-- The gap that the loop keeps between two re-enrollments.
abbrev pub re_enroll_gap : ℕ
re_enroll_gap = 600 * second

pub data ConnectErrorKind : Type 0 where
  none_kind auth transient : ConnectErrorKind

-- `String` of a kind, as it is kept in `lastError`
abbrev kind_text : ConnectErrorKind → Text
kind_text none_kind = codes "none"
kind_text auth = codes "auth_failed"
kind_text transient = codes "transient"

-- What a dial came to: a connection, or an error with the status of the response, if there was one,
-- and the reason that `classifyConnectReason` gives.
pub data Dialling : Type 0 where
  connected : Dialling
  failed : Option ℕ → Text → Dialling

unfoldable pub classify_connect_error : Dialling → ConnectErrorKind
classify_connect_error connected = none_kind
classify_connect_error (failed none reason) = transient
classify_connect_error (failed (some status) reason) =
    if status == 401 || status == 403 then auth else transient

-- The fields of the transport that the loop uses; a zero time is `none`. `backoff` is the loop's
-- own. `enrollments` is no field: the times before and behind each call of `reEnrollFn`, the last one
-- first.
pub record Link : Type 0 where
  pub backoff : ℕ
  pub socket_open : Bool
  pub enrollment_rejected : Bool
  pub token : Text
  pub auth_failures : ℕ
  pub last_error : Text
  pub last_error_reason : Text
  pub credential_error : Text
  pub last_error_at : Option ℕ
  pub disconnected_at : Option ℕ
  pub enrollment_refusal : Text
  pub last_re_enroll_at : Option ℕ
  pub reconnect_count : ℕ
  pub enrollments : List (ℕ × ℕ)

-- What other goroutines do to the transport: the connection is lost at a time, the agent gets a
-- token, or an administrator rejects its enrollment.
pub data Event : Type 0 where
  lost_at : ℕ → Event
  given rejected : Text → Event

-- What one turn meets: the events since the last one; the dial; the time behind it, and the times
-- before and behind a re-enrollment; `reEnrollFn`, if there is one, as the new token or the hub's
-- words; and cryptorand.Int, by its bound.
pub record Round : Type 0 where
  pub events : List Event
  pub dial : Dialling
  pub now : ℕ
  pub asked_at : ℕ
  pub re_enroll : Option (Result Text Text)
  pub re_enrolled_at : ℕ
  pub draw : ℕ → Option ℕ

-- How a turn ends: with a wait, with the next turn at once, or with an open connection.
pub data Turn : Type 0 where
  waits : ℕ → Turn
  retries up : Turn

unfoldable pub jitter_duration : ℕ → (ℕ → Option ℕ) → ℕ
jitter_duration bound draw = if bound == 0 then 0 else elim (draw bound) [ none ↦ 0 | some n ↦ n ]

-- `UpdateToken` of the identity: a token that is refused changes nothing.
abbrev pub adopted : Text → Option Text → Text
adopted current none = current
adopted current (some token) = token

unfoldable pub update_token : Text → Link → Link
update_token token link = record link {
  token = adopted link.token (normalize_issued_agent_token token);
  auth_failures = 0;
  last_error = [];
  last_error_reason = [];
  credential_error = [];
  enrollment_refusal = [];
  enrollment_rejected = false;
}

unfoldable pub mark_enrollment_rejected : Text → Link → Link
mark_enrollment_rejected reason link = record link {
  enrollment_rejected = true;
  enrollment_refusal = trim_space reason;
}

unfoldable pub waiting_after_rejection : Link → Bool
waiting_after_rejection link = link.enrollment_rejected && is_blank link.token

-- the wait that doubles
unfoldable pub back_off : Round → Link → Link × Turn
back_off r link = (
  record link { backoff = min (link.backoff * 2) max_backoff },
  waits (link.backoff + jitter_duration (link.backoff / 4) r.draw),
)

abbrev pub recent : Round → Option ℕ → Bool
recent r none = false
recent r (some last) = not (ltb re_enroll_gap (r.asked_at - last))

-- the message of a refusal is kept if there is one
abbrev pub refuse : Text → Link → Link
refuse message link =
    if is_blank message then link else record link { enrollment_refusal = trim_space message }

abbrev pub re_enrolled : Round → Result Text Text → Link → Link × Turn
re_enrolled r (ok token) link = (
  record (update_token token link) {
    last_re_enroll_at = some r.re_enrolled_at;
    enrollments = (r.asked_at, r.re_enrolled_at) ∷ link.enrollments;
    backoff = second;
  },
  retries,
)
re_enrolled r (err message) link = (
  record (refuse message link) {
    last_re_enroll_at = some r.re_enrolled_at;
    enrollments = (r.asked_at, r.re_enrolled_at) ∷ link.enrollments;
  },
  waits auth_backoff,
)

-- behind three failures of the credentials
unfoldable pub auth_blocked : Round → Link → Link × Turn
unfolding update_token
auth_blocked r link = elim r.re_enroll [
  | none ↦ (link, waits auth_backoff)
  | some result ↦
      if recent r link.last_re_enroll_at
      then (link, waits auth_backoff)
      else re_enrolled r result link
]

abbrev or_now : ℕ → Option ℕ → Option ℕ
or_now now none = some now
or_now now (some since) = some since

unfoldable pub record_failure : ConnectErrorKind → Text → ℕ → Link → Link
record_failure kind reason now link = record link {
  last_error = kind_text kind;
  last_error_reason = reason;
  last_error_at = some now;
  disconnected_at = or_now now link.disconnected_at;
}

unfoldable pub auth_failed : Round → Link → Link × Turn
auth_failed r link =
    let counted : Link = record link { auth_failures = link.auth_failures + 1 } in
    if leb auth_failure_threshold counted.auth_failures
    then auth_blocked r counted
    else back_off r counted

-- the fields that a dial that succeeded sets, in `connectWithResponse`
abbrev pub connect_succeeded : Link → Link
connect_succeeded link = record link {
  socket_open = true;
  auth_failures = 0;
  last_error = [];
  last_error_reason = [];
  disconnected_at = none;
}

-- what the loop does behind such a dial
unfoldable pub connection_up : Link → Link × Turn
connection_up link = (
  record (connect_succeeded link) { backoff = second; reconnect_count = link.reconnect_count + 1 },
  up,
)

unfoldable pub after_failure : ConnectErrorKind → Text → Round → Link → Link × Turn
after_failure auth reason r link = auth_failed r (record_failure auth reason r.now link)
after_failure none_kind reason r link = back_off r (record_failure none_kind reason r.now link)
after_failure transient reason r link = back_off r (record_failure transient reason r.now link)

unfoldable pub after_dial : Dialling → Round → Link → Link × Turn
after_dial connected r link = connection_up link
after_dial (failed status reason) r link =
    after_failure (classify_connect_error (failed status reason)) reason r link

-- `markDisconnected`
unfoldable pub mark_disconnected : ℕ → Link → Link
mark_disconnected now link = record link {
  socket_open = false;
  disconnected_at = or_now now link.disconnected_at;
}

unfoldable pub happen : Event → Link → Link
happen (lost_at now) link = mark_disconnected now link
happen (given token) link = update_token token link
happen (rejected reason) link = mark_enrollment_rejected reason link

unfoldable pub happen_all : List Event → Link → Link
happen_all [] link = link
happen_all (event ∷ events) link = happen_all events (happen event link)

unfoldable pub turn : Round → Link → Link × Turn
turn r link =
    if link.socket_open
    then (link, waits second)
    else if waiting_after_rejection link
    then (link, waits (5 * second))
    else after_dial r.dial r link

unfoldable pub round : Round → Link → Link × Turn
round r link = turn r (happen_all r.events link)

-- The turns of the loop, oldest first, with the state behind them.
unfoldable pub rounds : List Round → Link → Link × List Turn
rounds [] link = (link, [])
rounds (r ∷ rs) link =
    let (next_link, ending) = round r link in
    let (last_link, turns) = rounds rs next_link in (last_link, ending ∷ turns)
