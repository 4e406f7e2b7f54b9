-- ===== src/Input/Prepared.antt =====
-- What the critical section of `inject` does.
use labtether_agent.Common.{
  ℕ, ◌≡◌, ◌⊎◌, refl, Bool, true, false, not, ◌&&◌, ◌||◌, inl, inr, Option, arith, Result, ok,
  outcome, Bool-cases, >>=-eq-ok,
}
use labtether_agent.Common.Text.{Text}
use labtether_agent.Common.Text.Space.{is_blank}
use labtether_agent.Input.Keys.{
  Kind, KeyTables, WebRtcInputEvent, held_input_key, is_down, is_up, keydown, keyup, mousedown,
  mouseup, other_kind,
}
use labtether_agent.Input.Maps.{has_key, put, remove_key}
use labtether_agent.Input.Target.{Target, at_owner, held_by_other, has_input_capacity}
use labtether_agent.Input.Inject.{
  Plan, prepare, reserve, unbind, begin_inject, has_other_binding, bind_event, release_of,
}

pub is_up-of_down : (kind : Kind) → is_down kind ≡ true → is_up kind ≡ false
is_up-of_down keydown h = refl
is_up-of_down mousedown h = refl
is_up-of_down keyup h = cc
is_up-of_down mouseup h = cc
is_up-of_down other_kind h = cc

-- Nothing changed; a press was recorded; a release that is not to be made was forgotten.
pub data Prepared (owner : ℕ) (t u : Target) (p : Plan) : Type 0 where
  quiet :
      u ≡ t
      → p.owner ≡ owner
      → (is_down p.kind ≡ true → is_blank p.key ≡ true)
      → (is_up p.kind ≡ true
          → p.skip ≡ false
          → is_blank p.key ≡ false
          → held_by_other p.key owner t ≡ false)
      → Prepared owner t u p
  reserved :
      (event : WebRtcInputEvent)
      → p.owner ≡ owner
      → is_down p.kind ≡ true
      → is_blank p.key ≡ false
      → has_input_capacity p.key t ≡ true
      → u.owners ≡ t.owners
      → u.held ≡ at_owner owner (put p.key event (t.held owner)) t.held
      → u.pending ≡ remove_key p.key t.pending
      → Prepared owner t u p
  unbound :
      p.owner ≡ owner
      → is_down p.kind ≡ false
      → p.skip ≡ true
      → u.owners ≡ t.owners
      → u.pending ≡ t.pending
      → (u.held ≡ t.held)
        ⊎ ((u.held ≡ at_owner owner (remove_key p.key (t.held owner)) t.held)
            × (held_by_other p.key owner t ≡ true))
      → Prepared owner t u p

module _ (tables : KeyTables) (wayland : Bool) {E : Type 0} where
  reserve-ok :
      (owner : ℕ) (logical : Text) (event : WebRtcInputEvent) (key : Text) (t u : Target)
      → reserve tables wayland {E = E} owner logical event key t ≡ ok u
      → (has_input_capacity key t ≡ true)
        × (u.owners ≡ t.owners)
        × (u.held ≡ at_owner owner (put key (release_of event) (t.held owner)) t.held)
        × (u.pending ≡ remove_key key t.pending)
  unfolding reserve
  reserve-ok owner logical event key t u h = elim (Bool-cases (has_input_capacity key t)) [
    | inr full ↦ absurd (ground arith)
    | inl room ↦ ground arith
  ]

  prepare-up :
      (owner : ℕ) (kind : Kind) (logical : Text) (event : WebRtcInputEvent) (t u : Target)
      (p : Plan)
      → is_blank (held_input_key tables wayland event) ≡ false
      → is_down kind ≡ false
      → is_up kind ≡ true
      → prepare tables wayland {E = E} owner kind logical event t ≡ ok (u, p)
      → Prepared owner t u p
  unfolding prepare unbind
  prepare-up owner kind logical event t u p named not_down up h =
      let key = held_input_key tables wayland event in
      let owns = has_key logical (t.bindings owner) in
      let another = has_other_binding tables wayland logical key (t.bindings owner) in
      elim (Bool-cases (not another && owns)) [
        | inr keeps ↦ elim (Bool-cases (not owns || another || held_by_other key owner t)) [
          | inl stays ↦
              unbound (ground arith) (ground arith) (ground arith) (ground arith) (ground arith)
                (inl (ground arith))
          | inr lifts ↦
              quiet (ground arith) (ground arith) (λ d. ground arith) (λ u s b. ground arith)
        ]
        | inl forgets ↦ elim (Bool-cases (held_by_other key owner t)) [
          | inl others ↦
              unbound (ground arith) (ground arith) (ground arith) (ground arith) (ground arith)
                (inr (ground arith, ground arith))
          | inr alone ↦
              quiet (ground arith) (ground arith) (λ d. ground arith) (λ u s b. ground arith)
        ]
      ]

  pub prepare-Prepared :
      (owner : ℕ) (kind : Kind) (logical : Text) (event : WebRtcInputEvent) (t u : Target)
      (p : Plan)
      → prepare tables wayland {E = E} owner kind logical event t ≡ ok (u, p)
      → Prepared owner t u p
  unfolding prepare unbind
  prepare-Prepared owner kind logical event t u p h =
      let key = held_input_key tables wayland event in
      elim (Bool-cases (is_blank key)) [
        | inl blank ↦
            quiet (ground arith) (ground arith) (λ d. ground arith) (λ u s b. ground arith)
        | inr named ↦ elim (Bool-cases (is_down kind)) [
          | inl down ↦ elim (outcome (reserve tables wayland {E = E} owner logical event key t)) [
            | inr (why, bad) ↦ absurd (ground arith)
            | inl (v, done) ↦
                let (room, owners, held, pending) = reserve-ok owner logical event key t v done in
                reserved (release_of event) (ground arith) (ground arith) (ground arith)
                  (ground arith) (ground arith) (ground arith) (ground arith)
          ]
          | inr not_down ↦ elim (Bool-cases (is_up kind)) [
            | inr not_up ↦
                quiet (ground arith) (ground arith) (λ d. ground arith) (λ u s b. ground arith)
            | inl up ↦ prepare-up owner kind logical event t u p named not_down up h
          ]
        ]
      ]

  pub begin_inject-Prepared :
      (resolver : Option (WebRtcInputEvent → Result E WebRtcInputEvent)) (owner : ℕ)
      (wire : WebRtcInputEvent) (t u : Target) (p : Plan)
      → begin_inject tables wayland resolver owner wire t ≡ ok (u, p)
      → Prepared owner t u p
  unfolding begin_inject
  begin_inject-Prepared resolver owner wire t u p h =
      let (event, bound, done) =
        >>=-eq-ok (bind_event tables wayland resolver (t.bindings owner) wire) _ h in
      prepare-Prepared owner wire.kind _ event t u p done
