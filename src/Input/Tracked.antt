-- ===== src/Input/Tracked.antt =====
-- The invariant of one key, and that owners come and go without breaking it.
use labtether_agent.Common.{
  ℕ, ◌≡◌, ap, Bool, true, false, ◌||◌, inl, inr, Option, none, some, arith, ◌==◌, ==_iff,
  Bool-cases,
}
use labtether_agent.Common.Text.{Text}
use labtether_agent.Common.Text.Compare.{same}
use labtether_agent.Common.Text.Space.{is_blank}
use labtether_agent.Input.Effects.{
  held_any, held_any-other, held_any-acquire, held_any-retire, held_by_other-acquire,
  held_by_other-retire, has_key-retire, retire-maps,
}
use labtether_agent.Input.Keys.{is_down, is_up}
use labtether_agent.Input.Maps.{has_key, has_id, has_id-remove}
use labtether_agent.Input.System.{
  Phase, World, before_flush, entered, free, initial, injecting, is_injecting, leaving, lifted,
  plan_owner, released, releasing,
}
use labtether_agent.Input.Target.{Target, acquire, held_by_other, retire_owner}
use labtether_agent.Input.Inject.{Plan}

-- A planned press is held by its owner, and a planned release is of a key that no other owner holds.
abbrev pub NextAt : Text → Option Plan → Target → Type 0
NextAt k none t = Unit
NextAt k (some p) t =
    (has_id p.owner t.owners ≡ true)
    × (is_down p.kind ≡ true
        → is_blank p.key ≡ false
        → same k p.key ≡ true
        → has_key k (t.held p.owner) ≡ true)
    × (is_up p.kind ≡ true
        → p.skip ≡ false
        → is_blank p.key ≡ false
        → same k p.key ≡ true
        → held_by_other k p.owner t ≡ false)

abbrev pub PhaseAt : Text → Phase → Target → (Text → Bool) → Type 0
PhaseAt k (entered owner) t pressed = has_id owner t.owners ≡ true
PhaseAt k (before_flush following) t pressed = NextAt k following t
PhaseAt k (releasing batch following) t pressed =
    (has_key k batch.events ≡ true → has_key k t.pending ≡ true) × NextAt k following t
PhaseAt k (released batch following) t pressed =
    (has_key k batch.events ≡ true → pressed k ≡ false) × NextAt k following t
PhaseAt k (injecting p attempted) t pressed = NextAt k (some p) t × (p.skip ≡ false)
PhaseAt k (lifted p attempted) t pressed =
    (has_id p.owner t.owners ≡ true) × (same k p.key ≡ true → pressed k ≡ false)
PhaseAt k _ t pressed = Unit

-- No release is pending for a key that is held, and a key that may be down is held by a live owner
-- or has a release pending.
abbrev pub Tracked : Text → Target → (Text → Bool) → Type 0
Tracked k t pressed =
    (is_blank k ≡ true → pressed k ≡ false)
    × (has_key k t.pending ≡ true → held_any k t ≡ false)
    × (pressed k ≡ true → (has_key k t.pending || held_any k t) ≡ true)

abbrev pub InvAt : Text → World → Type 0
InvAt k w = Tracked k w.target w.pressed × PhaseAt k w.gate w.target w.pressed

pub initial-InvAt : (k : Text) → InvAt k initial
unfolding held_any
initial-InvAt k = ground arith

module _ (k : Text) (owner : ℕ) (t : Target) where
  NextAt-acquire :
      (following : Option Plan)
      → has_id owner t.owners ≡ false
      → NextAt k following t
      → NextAt k following (acquire owner t)
  unfolding acquire
  NextAt-acquire none fresh h = tt
  NextAt-acquire (some p) fresh (live, down, up) =
      let apart : (owner == p.owner) ≡ false = elim (Bool-cases (owner == p.owner)) [
        | inl e ↦
            let at_owner : has_id owner t.owners ≡ has_id p.owner t.owners =
              ap (λ i. has_id i t.owners) ((==_iff owner p.owner).0 e) in
            absurd (ground (arith, at_owner))
        | inr e ↦ e
      ] in
      let others = held_by_other-acquire k owner t fresh p.owner in
      (
        ground arith,
        (λ d b s. ground (arith, down d b s, apart)),
        λ u s b e. ground (arith, others, up u s b e),
      )

  NextAt-retire :
      (following : Option Plan)
      → plan_owner following owner ≡ false
      → NextAt k following t
      → NextAt k following (retire_owner owner t)
  NextAt-retire none away h = tt
  NextAt-retire (some p) away (live, down, up) =
      let (owners, held) = retire-maps k owner t in
      let there = has_id-remove p.owner owner t.owners in
      let others = held_by_other-retire k owner t p.owner in
      (
        ground (arith, owners, there, ==_iff p.owner owner, ==_iff owner p.owner),
        (λ d b s. rw held (down d b s)),
        λ u s b e. ground (arith, others, up u s b e),
      )

  pub Tracked-acquire :
      (pressed : Text → Bool)
      → has_id owner t.owners ≡ false
      → Tracked k t pressed
      → Tracked k (acquire owner t) pressed
  unfolding acquire
  Tracked-acquire pressed fresh h =
      let any = held_any-acquire k owner t fresh in ground (arith, any)

  pub Tracked-retire :
      (pressed : Text → Bool) → Tracked k t pressed → Tracked k (retire_owner owner t) pressed
  Tracked-retire pressed h =
      let any = held_any-retire k owner t in
      let before = held_any-other k owner t in
      let pending = has_key-retire k owner t in ground (arith, any, before, pending)

  pub PhaseAt-acquire :
      (gate : Phase) (pressed : Text → Bool)
      → has_id owner t.owners ≡ false
      → PhaseAt k gate t pressed
      → PhaseAt k gate (acquire owner t) pressed
  PhaseAt-acquire free pressed fresh h = tt
  PhaseAt-acquire (leaving attempted) pressed fresh h = tt
  PhaseAt-acquire (entered o) pressed fresh h = unfold acquire in ground arith
  PhaseAt-acquire (before_flush following) pressed fresh h = NextAt-acquire following fresh h
  PhaseAt-acquire (releasing batch following) pressed fresh h =
      (unfold acquire in h.0, NextAt-acquire following fresh h.1)
  PhaseAt-acquire (released batch following) pressed fresh h =
      (h.0, NextAt-acquire following fresh h.1)
  PhaseAt-acquire (injecting p attempted) pressed fresh h = (NextAt-acquire (some p) fresh h.0, h.1)
  PhaseAt-acquire (lifted p attempted) pressed fresh h = (unfold acquire in ground arith, h.1)

  has_id-retire :
      (o : ℕ)
      → (o == owner) ≡ false
      → has_id o t.owners ≡ true
      → has_id o (retire_owner owner t).owners ≡ true
  has_id-retire o away live =
      let (owners, held) = retire-maps k owner t in
      ground (arith, owners, has_id-remove o owner t.owners, ==_iff o owner, ==_iff owner o)

  pub PhaseAt-retire :
      (gate : Phase) (pressed : Text → Bool)
      → is_injecting gate owner ≡ false
      → PhaseAt k gate t pressed
      → PhaseAt k gate (retire_owner owner t) pressed
  PhaseAt-retire free pressed away h = tt
  PhaseAt-retire (leaving attempted) pressed away h = tt
  PhaseAt-retire (entered o) pressed away h = has_id-retire o away h
  PhaseAt-retire (before_flush following) pressed away h = NextAt-retire following away h
  PhaseAt-retire (releasing batch following) pressed away h =
      ((λ e. ground (arith, has_key-retire k owner t, h.0 e)), NextAt-retire following away h.1)
  PhaseAt-retire (released batch following) pressed away h = (h.0, NextAt-retire following away h.1)
  PhaseAt-retire (injecting p attempted) pressed away h = (NextAt-retire (some p) away h.0, h.1)
  PhaseAt-retire (lifted p attempted) pressed away h = (has_id-retire p.owner away h.0, h.1)
