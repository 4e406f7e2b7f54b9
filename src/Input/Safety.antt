-- ===== src/Input/Safety.antt =====
-- What holds of every key, whatever the controllers do.
use labtether_agent.Common.{
  ℕ, ◌≡◌, ◌⊎◌, refl, ap, subst, Bool, true, false, inl, inr, Option, none, some, List,
  if◌then◌else◌, arith,
}
use labtether_agent.Common.Text.{Text}
use labtether_agent.Common.Text.Compare.{same, same_iff}
use labtether_agent.Common.Text.Space.{is_blank}
use labtether_agent.Input.Effects.{held_any, held_any-other}
use labtether_agent.Input.Keys.{KeyTables, is_up}
use labtether_agent.Input.Maps.{has_key}
use labtether_agent.Input.Prepared.{begin_inject-Prepared}
use labtether_agent.Input.System.{
  Batch, Phase, Reach, Step, World, after_flush, here, injecting, leaving, lift, next, releasing,
  acquires, drains, ends_flush, enters, enters_to_flush, finishes, injects, lift_fails, lifts,
  prepares, presses, reads_batch, refuses, release_fails, releases, retires, unlocks,
}
use labtether_agent.Input.Target.{Target, end_flush, keys_of, held_by_other}
use labtether_agent.Input.Inject.{Plan}
use labtether_agent.Input.Kept.{prepare-keeps, finish-keeps, end_flush-keeps}
use labtether_agent.Input.Tracked.{
  InvAt, NextAt, PhaseAt, Tracked, PhaseAt-acquire, PhaseAt-retire, Tracked-acquire, Tracked-retire,
  initial-InvAt,
}

module _ (tables : KeyTables) (k : Text) where
  -- The facts of the phase that the gate is in.
  in_phase :
      {gate phase : Phase} (t : Target) (pressed : Text → Bool)
      → gate ≡ phase
      → PhaseAt k gate t pressed
      → PhaseAt k phase t pressed
  in_phase t pressed e h = subst (λ g. PhaseAt k g t pressed) e h

  Tracked-lift :
      (t : Target) (pressed gone : Text → Bool)
      → Tracked k t pressed
      → Tracked k t (lift gone pressed)
  Tracked-lift t pressed gone h = ground arith

  PhaseAt-after :
      (following : Option Plan) (attempted : ℕ) (keys : List Text) (t : Target)
      (pressed : Text → Bool)
      → NextAt k following t
      → PhaseAt k (after_flush following attempted) (end_flush keys t) pressed
  unfolding end_flush held_by_other
  PhaseAt-after none attempted keys t pressed h = tt
  PhaseAt-after (some p) attempted keys t pressed h =
      skips_or p.skip (end_flush keys t) pressed (λ goes. (h, goes))
    where
      skips_or :
          (skip : Bool) (u : Target) (down : Text → Bool)
          → (skip ≡ false → PhaseAt k (injecting p attempted) u down)
          → PhaseAt k (if skip then leaving attempted else injecting p attempted) u down
      skips_or true u down f = tt
      skips_or false u down f = f refl

  Step-InvAt : {v w : World} → Step tables v w → InvAt k v → InvAt k w
  Step-InvAt (acquires w owner fresh) (h, ph) = (
    Tracked-acquire k owner w.target w.pressed fresh h,
    PhaseAt-acquire k owner w.target w.gate w.pressed fresh ph,
  )
  Step-InvAt (retires w owner away) (h, ph) = (
    Tracked-retire k owner w.target w.pressed h,
    PhaseAt-retire k owner w.target w.gate w.pressed away ph,
  )
  Step-InvAt (enters_to_flush w e) (h, ph) = (h, tt)
  Step-InvAt (enters w owner e live) (h, ph) = (h, live)
  Step-InvAt (prepares w owner wayland resolver wire t p e done) (h, ph) =
      prepare-keeps k owner w.target t p w.pressed
        (begin_inject-Prepared tables wayland resolver owner wire w.target t p done)
        (in_phase w.target w.pressed e ph) h
  Step-InvAt (refuses w owner wayland resolver wire why e done) (h, ph) = (h, tt)
  Step-InvAt (reads_batch w following e) (h, ph) = (h, ((λ b. b), in_phase w.target w.pressed e ph))
  Step-InvAt (releases w batch following e) (h, ph) =
      let (batch_pending, rest) = in_phase w.target w.pressed e ph in
      (Tracked-lift w.target w.pressed (λ x. has_key x batch.events) h, (λ b. ground arith, rest))
  Step-InvAt (release_fails w batch following gone e some_of) (h, ph) =
      (Tracked-lift w.target w.pressed gone h, tt)
  Step-InvAt (ends_flush w batch following e) (h, ph) =
      let (gone, rest) = in_phase w.target w.pressed e ph in
      (
        end_flush-keeps k batch w.target w.pressed gone h,
        PhaseAt-after following batch.version (keys_of batch.events) w.target w.pressed rest,
      )
  Step-InvAt (presses w p attempted e down) (h, ph) =
      let ((live, held, up), unskipped) = in_phase w.target w.pressed e ph in
      let named : same k p.key ≡ true → is_blank k ≡ is_blank p.key =
        λ at. ap is_blank ((same_iff k p.key).0 at) in
      (ground (arith, h, held_any-other k p.owner w.target, live, held down, named), tt)
  Step-InvAt (lifts w p attempted e up) (h, ph) =
      let ((live, held, alone), unskipped) = in_phase w.target w.pressed e ph in
      (ground (arith, h), (live, λ at. ground arith))
  Step-InvAt (lift_fails w p attempted e up) (h, ph) = (ground (arith, h), tt)
  Step-InvAt (injects w p attempted e) (h, ph) = (h, tt)
  Step-InvAt (finishes w p attempted e) (h, ph) =
      let (live, gone) = in_phase w.target w.pressed e ph in
      (finish-keeps k p w.target w.pressed live gone h, tt)
  Step-InvAt (drains w attempted e more) (h, ph) = (h, tt)
  Step-InvAt (unlocks w attempted expired e done) (h, ph) = (h, tt)

  Reach-InvAt : {w : World} → Reach tables w → InvAt k w
  Reach-InvAt here = initial-InvAt k
  Reach-InvAt (next r step) = Step-InvAt step (Reach-InvAt r)

-- Whatever the controllers do and however their calls interleave: no release is pending for a key
-- that a live owner holds, and a key that may be down on the desktop is held by a live owner or has
-- a release pending.
pub Reach-Tracked :
    (tables : KeyTables) {w : World} (k : Text) → Reach tables w → Tracked k w.target w.pressed
Reach-Tracked tables k r = (Reach-InvAt tables k r).0

batch_unheld :
    (tables : KeyTables) {v : World} (k : Text) {batch : Batch} {following : Option Plan}
    → Reach tables v
    → v.gate ≡ releasing batch following
    → has_key k batch.events ≡ true
    → held_any k v.target ≡ false
batch_unheld tables {v} k r e b =
    let ((blank, pending, down), ph) = Reach-InvAt tables k r in
    pending ((in_phase tables k v.target v.pressed e ph).0 b)

alone_in_release :
    (tables : KeyTables) {v : World} (k : Text) {p : Plan} {attempted : ℕ}
    → Reach tables v
    → v.gate ≡ injecting p attempted
    → is_up p.kind ≡ true
    → v.pressed k ≡ true
    → same k p.key ≡ true
    → held_by_other k p.owner v.target ≡ false
alone_in_release tables {v} k {p} r e up down at =
    let ((blank, pending, tracked), ph) = Reach-InvAt tables k r in
    let ((live, held, alone), unskipped) = in_phase tables k v.target v.pressed e ph in
    let named : is_blank k ≡ is_blank p.key = ap is_blank ((same_iff k p.key).0 at) in
    alone up unskipped (ground (arith, blank, named, down)) at

same_pressed {ℓ} : {A : Type ℓ} {b : Bool} → b ≡ true → b ≡ false → A
same_pressed down gone = absurd (ground arith)

-- The steps of the code never lift a key of somebody else: when a step takes a key from down to up,
-- no live owner holds it, or the step is the release that one owner makes, and no other holds it.
pub Step-lifts_own :
    (tables : KeyTables) {v w : World} (k : Text)
    → Reach tables v
    → Step tables v w
    → v.pressed k ≡ true
    → w.pressed k ≡ false
    → (held_any k v.target ≡ false)
      ⊎ ((p : Plan) × (attempted : ℕ) × (v.gate ≡ injecting p attempted)
          × (is_up p.kind ≡ true)
          × (held_by_other k p.owner v.target ≡ false))
Step-lifts_own tables k r (acquires v owner fresh) down gone = same_pressed down gone
Step-lifts_own tables k r (retires v owner away) down gone = same_pressed down gone
Step-lifts_own tables k r (enters_to_flush v e) down gone = same_pressed down gone
Step-lifts_own tables k r (enters v owner e live) down gone = same_pressed down gone
Step-lifts_own tables k r (prepares v owner wayland resolver wire t p e done) down gone =
    same_pressed down gone
Step-lifts_own tables k r (refuses v owner wayland resolver wire why e done) down gone =
    same_pressed down gone
Step-lifts_own tables k r (reads_batch v following e) down gone = same_pressed down gone
Step-lifts_own tables k r (ends_flush v batch following e) down gone = same_pressed down gone
Step-lifts_own tables k r (injects v p attempted e) down gone = same_pressed down gone
Step-lifts_own tables k r (finishes v p attempted e) down gone = same_pressed down gone
Step-lifts_own tables k r (drains v attempted e more) down gone = same_pressed down gone
Step-lifts_own tables k r (unlocks v attempted expired e done) down gone = same_pressed down gone
Step-lifts_own tables k r (presses v p attempted e d) down gone = absurd (ground arith)
Step-lifts_own tables k r (releases v batch following e) down gone =
    inl (batch_unheld tables k r e (ground arith))
Step-lifts_own tables k r (release_fails v batch following lost e some_of) down gone =
    inl (batch_unheld tables k r e (some_of k (ground arith)))
Step-lifts_own tables k r (lifts v p attempted e up) down gone =
    inr (p, attempted, e, up, alone_in_release tables k r e up down (ground arith))
Step-lifts_own tables k r (lift_fails v p attempted e up) down gone =
    inr (p, attempted, e, up, alone_in_release tables k r e up down (ground arith))
