-- ===== src/Input/Capacity.antt =====
-- How many physical inputs a target keeps track of.
use labtether_agent.Common.{
  ℕ, ◌≤◌, ◌*◌, ◌≡◌, ◌↔◌, ◌⊎◌, refl, sym, ap, subst, ◌∙◌, true, false, ◌||◌, inl, inr, ◌++◌, List,
  [], ◌∷◌, any, arith, Bool-cases, length, ltb→lt, ltb,
}
use labtether_agent.Common.Text.{Text}
use labtether_agent.Common.Text.Compare.{In, member, member-In, same, same_iff}
use labtether_agent.Common.Text.Distinct.{
  distinct, In-distinct, length-distinct_mono, length-distinct_more,
}
use labtether_agent.Input.Effects.{
  held_any, held_any-other, held_any-acquire, held_any-at_owner, held_any-retire, has_key-retire,
  has_key-forget,
}
use labtether_agent.Input.Kept.{held_any-eq}
use labtether_agent.Input.Keys.{KeyTables}
use labtether_agent.Input.Maps.{has_id, has_key, has_key-put, has_key-remove}
use labtether_agent.Input.Prepared.{Prepared, quiet, reserved, unbound, begin_inject-Prepared}
use labtether_agent.Input.System.{
  Reach, Step, World, here, next, acquires, drains, ends_flush, enters, enters_to_flush, finishes,
  injects, lift_fails, lifts, prepares, presses, reads_batch, refuses, release_fails, releases,
  retires, unlocks,
}
use labtether_agent.Input.Target.{
  Inputs, Target, acquire, end_flush, has_input_capacity, held_keys, holds, keys_of, retire_owner,
  tracked_keys, max_held_inputs, max_sessions,
}
use labtether_agent.Input.Inject.{Plan, finish_up}

In-append : (k : Text) (xs ys : List Text) → In k (xs ++ ys) ↔ (In k xs ⊎ In k ys)
In-append k [] ys = ground arith
In-append k (x ∷ xs) ys = ground (arith, In-append k xs ys)

In-keys_of : (k : Text) (m : Inputs) → In k (keys_of m) ↔ (has_key k m ≡ true)
In-keys_of k [] = ground arith
In-keys_of k ((key, event) ∷ m) = ground (arith, In-keys_of k m, same_iff k key)

In-held_keys :
    (k : Text) (t : Target) (ids : List ℕ) → In k (held_keys t ids) ↔ (any (holds k t) ids ≡ true)
In-held_keys k t [] = ground arith
In-held_keys k t (i ∷ ids) = ground (
  arith,
  In-append k (keys_of (t.held i)) (held_keys t ids),
  In-keys_of k (t.held i),
  In-held_keys k t ids,
)

-- A release is pending for the key, or an owner holds it.
abbrev IsTracked : Text → Target → Type 0
IsTracked k t = (has_key k t.pending || held_any k t) ≡ true

abbrev all_keys : Target → List Text
all_keys t = keys_of t.pending ++ held_keys t t.owners

In-all_keys : (k : Text) (t : Target) → In k (all_keys t) ↔ IsTracked k t
unfolding held_any
In-all_keys k t = ground (
  arith,
  In-append k (keys_of t.pending) (held_keys t t.owners),
  In-keys_of k t.pending,
  In-held_keys k t t.owners,
)

abbrev pub max_inputs : ℕ
max_inputs = max_held_inputs * max_sessions

abbrev IsBounded : Target → Type 0
IsBounded t = length (tracked_keys t) ≤ max_inputs

fewer : (t u : Target) → ((k : Text) → IsTracked k u → IsTracked k t) → IsBounded t → IsBounded u
unfolding tracked_keys
fewer t u sub h =
    let le =
      length-distinct_mono (all_keys u) (all_keys t)
        (λ k i. (In-all_keys k t).1 (sub k ((In-all_keys k u).0 i))) in
    omega (arith, le, h)

one_more :
    (key : Text) (t u : Target)
    → has_input_capacity key t ≡ true
    → ((k : Text) → IsTracked k u → (k ≡ key) ⊎ IsTracked k t)
    → IsBounded t
    → IsBounded u
unfolding tracked_keys has_input_capacity
one_more key t u room sub h = elim (Bool-cases (member key (tracked_keys t))) [
  | inl known ↦
      let there =
        (In-all_keys key t).0 ((In-distinct key (all_keys t)).0 (member-In key _ known)) in
      fewer t u
        (λ k i. elim (sub k i) [ inl e ↦ subst (λ x. IsTracked x t) (sym e) there | inr old ↦ old ])
        h
  | inr new ↦
      let free : ltb (length (tracked_keys t)) max_inputs ≡ true = ground arith in
      let le = length-distinct_more key (all_keys u) (all_keys t) (λ k i.
        elim (sub k ((In-all_keys k u).0 i)) [
          | inl e ↦ inl e
          | inr old ↦ inr ((In-all_keys k t).1 old)
        ]) in
      omega (arith, le, ltb→lt _ _ free)
]

prepare-IsBounded :
    (owner : ℕ) (t u : Target) (p : Plan) → Prepared owner t u p → IsBounded t → IsBounded u
prepare-IsBounded owner t u p (quiet e o d s) h = subst IsBounded (sym e) h
prepare-IsBounded owner t u p (reserved event o d b room owners held pending) h =
    one_more p.key t u room
      (λ k i.
        let any = held_any-at_owner k owner _ t u owners held in
        let before = held_any-other k owner t in
        let put_key = has_key-put k p.key event (t.held owner) in
        let removed = ap (has_key k) pending ∙ has_key-remove k p.key t.pending in
        elim (Bool-cases (same k p.key)) [
          | inl at ↦ inl ((same_iff k p.key).0 at)
          | inr away ↦ inr (ground (arith, any, before, put_key, removed))
        ])
      h
prepare-IsBounded owner t u p (unbound o d s owners pending (inl held)) h =
    fewer t u (λ k i. ground (arith, held_any-eq k u t owners held, ap (has_key k) pending)) h
prepare-IsBounded owner t u p (unbound o d s owners pending (inr (held, others))) h =
    fewer t u
      (λ k i. ground (
        arith,
        held_any-at_owner k owner _ t u owners held,
        held_any-other k owner t,
        has_key-remove k p.key (t.held owner),
        ap (has_key k) pending,
      ))
      h

finish-IsBounded : (p : Plan) (t : Target) → IsBounded t → IsBounded (finish_up p t)
unfolding finish_up
finish-IsBounded p t h =
    fewer t (finish_up p t)
      (λ k i. ground (
        arith,
        held_any-at_owner k p.owner _ t (finish_up p t) refl refl,
        held_any-other k p.owner t,
        has_key-remove k p.key (t.held p.owner),
      ))
      h

acquire-IsBounded :
    (owner : ℕ) (t : Target)
    → has_id owner t.owners ≡ false
    → IsBounded t
    → IsBounded (acquire owner t)
unfolding acquire
acquire-IsBounded owner t fresh h =
    fewer t (acquire owner t) (λ k i. ground (arith, held_any-acquire k owner t fresh)) h

retire-IsBounded : (owner : ℕ) (t : Target) → IsBounded t → IsBounded (retire_owner owner t)
retire-IsBounded owner t h =
    fewer t (retire_owner owner t)
      (λ k i.
        ground
          (arith, held_any-retire k owner t, held_any-other k owner t, has_key-retire k owner t))
      h

flush-IsBounded :
    (batch : Inputs) (t : Target) → IsBounded t → IsBounded (end_flush (keys_of batch) t)
unfolding end_flush held_any
flush-IsBounded batch t h =
    fewer t (end_flush (keys_of batch) t) (λ k i. ground (arith, has_key-forget k batch t.pending))
      h

Step-IsBounded :
    (tables : KeyTables) {v w : World} → Step tables v w → IsBounded v.target → IsBounded w.target
Step-IsBounded tables (acquires v owner fresh) h = acquire-IsBounded owner v.target fresh h
Step-IsBounded tables (retires v owner away) h = retire-IsBounded owner v.target h
Step-IsBounded tables (prepares v owner wayland resolver wire t p e done) h =
    prepare-IsBounded owner v.target t p
      (begin_inject-Prepared tables wayland resolver owner wire v.target t p done) h
Step-IsBounded tables (ends_flush v batch following e) h = flush-IsBounded batch.events v.target h
Step-IsBounded tables (finishes v p attempted e) h = finish-IsBounded p v.target h
Step-IsBounded tables (enters_to_flush v e) h = h
Step-IsBounded tables (enters v owner e live) h = h
Step-IsBounded tables (refuses v owner wayland resolver wire why e done) h = h
Step-IsBounded tables (reads_batch v following e) h = h
Step-IsBounded tables (releases v batch following e) h = h
Step-IsBounded tables (release_fails v batch following lost e some_of) h = h
Step-IsBounded tables (presses v p attempted e d) h = h
Step-IsBounded tables (lifts v p attempted e up) h = h
Step-IsBounded tables (lift_fails v p attempted e up) h = h
Step-IsBounded tables (injects v p attempted e) h = h
Step-IsBounded tables (drains v attempted e more) h = h
Step-IsBounded tables (unlocks v attempted expired e done) h = h

-- However many controllers come, press keys and go, a target never keeps track of more than 2560
-- different keys and buttons, counting those with a release pending.
pub Reach-IsBounded :
    (tables : KeyTables) {w : World} → Reach tables w → length (tracked_keys w.target) ≤ 2560
unfolding tracked_keys distinct
Reach-IsBounded tables here = omega arith
Reach-IsBounded tables (next r step) = Step-IsBounded tables step (Reach-IsBounded tables r)
