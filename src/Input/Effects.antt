-- ===== src/Input/Effects.antt =====
-- What each critical section does to one key: whether a release is pending for it, and who holds it.
use labtether_agent.Common.{
  ℕ, ◌≡◌, ◌≢◌, refl, sym, ap, ◌∙◌, Bool, true, false, not, ◌&&◌, ◌||◌, inl, inr, [], ◌∷◌, any,
  arith, ◌==◌, ==_iff, Bool-cases,
}
use labtether_agent.Common.Text.{Text}
use labtether_agent.Common.Text.Compare.{same, same_iff}
use labtether_agent.Input.Keys.{WebRtcInputEvent}
use labtether_agent.Input.Maps.{
  has_key, remove_key, has_key-put, has_key-remove, has_id, remove_id, other, any-other,
  any-other_eq, any-remove_id, any-le, any-fresh,
}
use labtether_agent.Input.Target.{
  Inputs, Target, acquire, at_owner, forget_pending, held_by_other, holds, keys_of, owners_map,
  retire_held, retire_key, retire_owner,
}

-- Some live owner holds the key.
unfoldable pub held_any : Text → Target → Bool
held_any k t = any (holds k t) t.owners

pub held_any-other :
    (k : Text) (owner : ℕ) (t : Target)
    → held_any k t
      ≡ ((has_id owner t.owners && has_key k (t.held owner)) || held_by_other k owner t)
unfolding held_any held_by_other
held_any-other k owner t = any-other owner (holds k t) t.owners

module _ (k : Text) (owner : ℕ) (m : Inputs) (t : Target) where
  at_owner_there :
      (i : ℕ) → owner ≢ i → has_key k (at_owner owner m t.held i) ≡ has_key k (t.held i)
  at_owner_there i ne = elim (Bool-cases (owner == i)) [
    | inl e ↦ absurd (ne ((==_iff owner i).0 e))
    | inr e ↦ ground arith
  ]

  pub at_owner_here : at_owner owner m t.held owner ≡ m
  at_owner_here = ground (arith, ==_iff owner owner)

  -- An owner's map is replaced: what the others hold stays.
  pub held_by_other-at_owner :
      (u : Target)
      → u.owners ≡ t.owners
      → u.held ≡ at_owner owner m t.held
      → held_by_other k owner u ≡ held_by_other k owner t
  unfolding held_by_other
  held_by_other-at_owner u owners held =
      rw (owners, held) (any-other_eq owner _ _ at_owner_there t.owners)

  -- ... and some owner holds a key if it is in the new map of a live owner, or another holds it.
  pub held_any-at_owner :
      (u : Target)
      → u.owners ≡ t.owners
      → u.held ≡ at_owner owner m t.held
      → held_any k u ≡ ((has_id owner t.owners && has_key k m) || held_by_other k owner t)
  held_any-at_owner u owners held =
      let split = held_any-other k owner u in
      let others = held_by_other-at_owner u owners held in
      let here = at_owner_here in ground (arith, split, others, here, owners, held)

-- A new owner holds nothing.
module _ (k : Text) (owner : ℕ) (t : Target) (fresh : has_id owner t.owners ≡ false) where
  acquire_here : has_key k (at_owner owner [] t.held owner) ≡ false
  acquire_here = ap (has_key k) (at_owner_here k owner [] t)

  pub held_any-acquire : held_any k (acquire owner t) ≡ held_any k t
  unfolding held_any acquire
  held_any-acquire =
      let rest =
        any-fresh owner (λ i. has_key k (at_owner owner [] t.held i)) (holds k t)
          (at_owner_there k owner [] t) t.owners fresh in
      ground (arith, acquire_here, rest)

  pub held_by_other-acquire : (j : ℕ) → held_by_other k j (acquire owner t) ≡ held_by_other k j t
  unfolding held_by_other acquire
  held_by_other-acquire j =
      let rest =
        any-fresh owner (other j (λ i. has_key k (at_owner owner [] t.held i)))
          (other j (holds k t))
          (λ i ne. ap (λ b. not (j == i) && b) (at_owner_there k owner [] t i ne)) t.owners fresh in
      ground (arith, acquire_here, rest)

held_by_other-eq :
    (k : Text) (j : ℕ) (u t : Target)
    → u.owners ≡ t.owners
    → u.held ≡ t.held
    → held_by_other k j u ≡ held_by_other k j t
unfolding held_by_other
held_by_other-eq k j u t owners held = rw (owners, held) refl

-- Retirement changes the pending releases and the version only, and takes the owner out.
module _ (owner : ℕ) (key : Text) (event : WebRtcInputEvent) (t : Target) where
  retire_key-maps :
      ((retire_key owner key event t).owners ≡ t.owners)
      × ((retire_key owner key event t).held ≡ t.held)
  unfolding retire_key
  retire_key-maps = elim (Bool-cases (held_by_other key owner t)) [
    | inl others ↦ ground arith
    | inr alone ↦ ground arith
  ]

  retire_key-pending :
      (k : Text)
      → has_key k (retire_key owner key event t).pending
        ≡ (has_key k t.pending || (same k key && not (held_by_other k owner t)))
  unfolding retire_key
  retire_key-pending k =
      let e = same_iff k key in
      let p = has_key-put k key event t.pending in
      elim (Bool-cases (same k key)) [
        | inl here ↦
            let at_key : held_by_other key owner t ≡ held_by_other k owner t =
              ap (λ x. held_by_other x owner t) (sym (e.0 here)) in
            ground (arith, p, at_key, here)
        | inr there ↦ ground (arith, p)
      ]

retire_held-maps :
    (owner : ℕ) (m : Inputs) (t : Target)
    → ((retire_held owner m t).owners ≡ t.owners) × ((retire_held owner m t).held ≡ t.held)
unfolding retire_held
retire_held-maps owner [] t = (refl, refl)
retire_held-maps owner ((key, event) ∷ m) t =
    let (owners, held) = retire_key-maps owner key event t in
    let (later_owners, later_held) = retire_held-maps owner m (retire_key owner key event t) in
    (later_owners ∙ owners, later_held ∙ held)

retire_held-pending :
    (k : Text) (owner : ℕ) (m : Inputs) (t : Target)
    → has_key k (retire_held owner m t).pending
      ≡ (has_key k t.pending || (has_key k m && not (held_by_other k owner t)))
unfolding retire_held
retire_held-pending k owner [] t = ground arith
retire_held-pending k owner ((key, event) ∷ m) t =
    let first = retire_key-pending owner key event t k in
    let rest = retire_held-pending k owner m (retire_key owner key event t) in
    let (owners, held) = retire_key-maps owner key event t in
    let others = held_by_other-eq k owner (retire_key owner key event t) t owners held in
    ground (arith, first, rest, others)

module _ (k : Text) (owner : ℕ) (t : Target) where
  pub has_key-retire : has_key k (retire_owner owner t).pending ≡ (
      has_key k t.pending
      || (has_id owner t.owners && has_key k (t.held owner) && not (held_by_other k owner t)))
  unfolding retire_owner
  has_key-retire =
      let debt = retire_held-pending k owner (owners_map owner t) t in
      elim (Bool-cases (has_id owner t.owners)) [
        | inl live ↦ ground (arith, debt)
        | inr gone ↦ ground (arith, debt)
      ]

  pub retire-maps :
      ((retire_owner owner t).owners ≡ remove_id owner t.owners)
      × ((retire_owner owner t).held ≡ t.held)
  unfolding retire_owner
  retire-maps =
      let (owners, held) = retire_held-maps owner (owners_map owner t) t in
      (ap (remove_id owner) owners, held)

  pub held_any-retire : held_any k (retire_owner owner t) ≡ held_by_other k owner t
  unfolding held_any held_by_other
  held_any-retire =
      let (owners, held) = retire-maps in
      rw (owners, held) (any-remove_id owner (holds k t) t.owners)

  pub held_by_other-retire :
      (j : ℕ) → held_by_other k j (retire_owner owner t) ≡ true → held_by_other k j t ≡ true
  unfolding held_by_other
  held_by_other-retire j h =
      let (owners, held) = retire-maps in
      let remove = any-remove_id owner (other j (holds k t)) t.owners in
      let weaker =
        any-le (other owner (other j (holds k t))) (other j (holds k t)) (λ i h. ground arith)
          t.owners in
      let here : held_by_other k j (retire_owner owner t)
          ≡ any (other owner (other j (holds k t))) t.owners =
        rw (owners, held) remove in
      weaker (sym here ∙ h)

-- The end of a flush forgets exactly the keys of its batch.
pub has_key-forget :
    (k : Text) (batch m : Inputs)
    → has_key k (forget_pending (keys_of batch) m) ≡ (has_key k m && not (has_key k batch))
unfolding forget_pending
has_key-forget k [] m = ground arith
has_key-forget k ((key, event) ∷ batch) m =
    ground (arith, has_key-forget k batch (remove_key key m), has_key-remove k key m)
