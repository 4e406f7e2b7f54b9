-- ===== src/Reconnect/Doubling.antt =====
-- How the wait grows while the hub is away.
use labtether_agent.Common.{
  ℕ, suc, zero, ◌*◌, ◌≤◌, ◌^◌, min, ◌≡◌, ◌⊎◌, refl, ap, ◌∙◌, false, inl, inr, List, [], ◌∷◌, All,
  arith, Option-cases, length,
}
use labtether_agent.Common.Text.{Text}
use labtether_agent.Common.Text.Space.{is_blank}
use labtether_agent.Reconnect.Token.{
  normalize_issued_agent_token, normalize_issued_agent_token-is_blank,
}
use labtether_agent.Reconnect.{
  Dialling, Link, happen, happen_all, Event, lost_at, given, rejected, mark_enrollment_rejected,
  adopted, Round, ConnectErrorKind, after_dial, after_failure, auth, back_off,
  classify_connect_error, connected, failed, mark_disconnected, max_backoff, none_kind,
  record_failure, round, rounds, transient, turn, update_token, waiting_after_rejection,
}

-- A turn whose dial fails, but not for the credentials.
abbrev pub FailsToDial : Round → Type 0
FailsToDial r = classify_connect_error r.dial ≡ transient

-- The connection is closed, and the agent has a token.
abbrev pub IsDialling : Link → Type 0
IsDialling link = (link.socket_open ≡ false) × (is_blank link.token ≡ false)

after_failure-back_off :
    (kind : ConnectErrorKind) (reason : Text) (r : Round) (link : Link)
    → kind ≡ transient
    → ((after_failure kind reason r link).0.backoff ≡ min (link.backoff * 2) max_backoff)
      × (IsDialling link → IsDialling (after_failure kind reason r link).0)
unfolding after_failure record_failure back_off waiting_after_rejection
after_failure-back_off transient reason r link e = (refl, λ h. h)
after_failure-back_off auth reason r link e = cc
after_failure-back_off none_kind reason r link e = cc

after_dial-back_off :
    (dial : Dialling) (r : Round) (link : Link)
    → classify_connect_error dial ≡ transient
    → ((after_dial dial r link).0.backoff ≡ min (link.backoff * 2) max_backoff)
      × (IsDialling link → IsDialling (after_dial dial r link).0)
unfolding after_dial classify_connect_error
after_dial-back_off connected r link e = cc
after_dial-back_off (failed status reason) r link e = after_failure-back_off _ reason r link e

adopted-is_blank :
    (current raw : Text)
    → is_blank current ≡ false
    → is_blank (adopted current (normalize_issued_agent_token raw)) ≡ false
adopted-is_blank current raw h = elim (Option-cases (normalize_issued_agent_token raw)) [
  | inl e ↦ rw e h
  | inr (token, e) ↦ rw e (normalize_issued_agent_token-is_blank raw token e)
]

happen-IsDialling :
    (event : Event) (link : Link)
    → IsDialling link
    → IsDialling (happen event link) × ((happen event link).backoff ≡ link.backoff)
unfolding happen mark_disconnected update_token mark_enrollment_rejected
happen-IsDialling (lost_at now) link (closed, token) = ((refl, token), refl)
happen-IsDialling (given raw) link (closed, token) =
    ((closed, adopted-is_blank link.token raw token), refl)
happen-IsDialling (rejected reason) link h = (h, refl)

happen_all-IsDialling :
    (events : List Event) (link : Link)
    → IsDialling link
    → IsDialling (happen_all events link) × ((happen_all events link).backoff ≡ link.backoff)
unfolding happen_all
happen_all-IsDialling [] link h = (h, refl)
happen_all-IsDialling (event ∷ events) link h =
    let (next, same_next) = happen-IsDialling event link h in
    let (last, same_last) = happen_all-IsDialling events (happen event link) next in
    (last, same_last ∙ same_next)

waiting_after_rejection-token :
    (link : Link) → is_blank link.token ≡ false → waiting_after_rejection link ≡ false
unfolding waiting_after_rejection
waiting_after_rejection-token link h = ground arith

turn-dials : (r : Round) (link : Link) → IsDialling link → turn r link ≡ after_dial r.dial r link
unfolding turn
turn-dials r link (closed, token) =
    let free = waiting_after_rejection-token link token in simp (closed, free)

round-back_off :
    (r : Round) (link : Link)
    → FailsToDial r
    → IsDialling link
    → ((round r link).0.backoff ≡ min (link.backoff * 2) max_backoff) × IsDialling (round r link).0
unfolding round
round-back_off r link e h =
    let met = happen_all r.events link in
    let (dialling, same_backoff) = happen_all-IsDialling r.events link h in
    let (doubled, stays) = after_dial-back_off r.dial r met e in
    rw (turn-dials r met dialling)
      (doubled ∙ ap (λ b. min (b * 2) max_backoff) same_backoff, stays dialling)

at_least : (x p : ℕ) → 1 ≤ p → x ≤ x * p
at_least x zero h = absurd (omega arith)
at_least x (suc q) h = omega arith

le_total : (a b : ℕ) → (a ≤ b) ⊎ (b ≤ a)
le_total a b = omega arith

-- Doubling and the cap commute.
capped :
    (b p : ℕ)
    → 1 ≤ p
    → min (min (b * 2) max_backoff * p) max_backoff ≡ min (b * (2 * p)) max_backoff
capped b p h =
    let double = at_least (b * 2) p h in
    let most = at_least max_backoff p h in
    elim (le_total (b * 2) max_backoff) [
      | inl small ↦
          let e : min (b * 2) max_backoff ≡ b * 2 = omega (arith, small) in
          rw e (ap (λ x. min x max_backoff) (omega arith))
      | inr large ↦
          let e : min (b * 2) max_backoff ≡ max_backoff = omega (arith, large) in
          rw e (omega (arith, double, most, large))
    ]

power_pos : (n : ℕ) → 1 ≤ 2 ^ n
power_pos zero = omega arith
power_pos (suc n) = omega (arith, power_pos n)

power_suc : (n : ℕ) → 2 * 2 ^ n ≡ 2 ^ suc n
power_suc n = omega arith

-- While every dial fails, and not for the credentials, the backoff of an agent that has a token and
-- no connection doubles from turn to turn up to one minute, if it is not longer at first, whatever
-- else happens between the turns.
pub rounds-doubles :
    (rs : List Round) (link : Link)
    → All FailsToDial rs
    → IsDialling link
    → link.backoff ≤ max_backoff
    → (rounds rs link).0.backoff ≡ min (link.backoff * 2 ^ length rs) max_backoff
unfolding rounds
rounds-doubles [] link fails dialling h = omega (arith, h)
rounds-doubles (r ∷ rs) link (e, fails) dialling h =
    let (doubled, stays) = round-back_off r link e dialling in
    let rest = rounds-doubles rs (round r link).0 fails stays (rw doubled (omega arith)) in
    rest
    ∙ ap (λ b. min (b * 2 ^ length rs) max_backoff) doubled
    ∙ capped link.backoff (2 ^ length rs) (power_pos (length rs))
    ∙ ap (λ x. min (link.backoff * x) max_backoff) (power_suc (length rs))
