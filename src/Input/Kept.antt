-- ===== src/Input/Kept.antt =====
-- The critical sections of `inject` and `flush` keep the invariant of a key.
use labtether_agent.Common.{
  ℕ, ◌≡◌, refl, sym, ap, subst, ◌∙◌, Bool, true, false, inl, inr, some, arith,
}
use labtether_agent.Common.Text.{Text}
use labtether_agent.Common.Text.Compare.{same, same_iff}
use labtether_agent.Input.Effects.{
  held_any, held_any-other, held_any-at_owner, has_key-forget, at_owner_here,
}
use labtether_agent.Input.Maps.{has_key, has_id, put, has_key-put, has_key-remove}
use labtether_agent.Input.Prepared.{Prepared, quiet, reserved, unbound, is_up-of_down}
use labtether_agent.Input.System.{Batch}
use labtether_agent.Input.Target.{Target, at_owner, end_flush, held_by_other, keys_of}
use labtether_agent.Input.Inject.{Plan, finish_up}
use labtether_agent.Input.Tracked.{NextAt, Tracked}

pub held_any-eq :
    (k : Text) (u t : Target) → u.owners ≡ t.owners → u.held ≡ t.held → held_any k u ≡ held_any k t
unfolding held_any
held_any-eq k u t owners held = rw (owners, held) refl

module _ (k : Text) where
  pub prepare-keeps :
      (owner : ℕ) (t u : Target) (p : Plan) (pressed : Text → Bool)
      → Prepared owner t u p
      → has_id owner t.owners ≡ true
      → Tracked k t pressed
      → Tracked k u pressed × NextAt k (some p) u
  prepare-keeps owner t u p pressed (quiet e o d s) live h =
      subst (λ v. Tracked k v pressed × NextAt k (some p) v) (sym e)
        (
          h,
          (
            ap (λ i. has_id i t.owners) o ∙ live,
            (λ down named at. absurd (ground (arith, d down))),
            λ up unskipped named at.
                ap (λ i. held_by_other k i t) o
                ∙ ap (λ x. held_by_other x owner t) ((same_iff k p.key).0 at)
                ∙ s up unskipped named,
          ),
        )
  prepare-keeps owner t u p pressed (reserved event o d b room owners held pending) live h =
      let any = held_any-at_owner k owner _ t u owners held in
      let before = held_any-other k owner t in
      let put_key = has_key-put k p.key event (t.held owner) in
      let removed = ap (has_key k) pending ∙ has_key-remove k p.key t.pending in
      let here : u.held p.owner ≡ put p.key event (t.held owner) =
        ap (λ f. f p.owner) held ∙ ap (at_owner owner _ t.held) o ∙ at_owner_here k owner _ t in
      (
        ground (arith, any, before, put_key, removed, same_iff k p.key, h),
        (
          ap (λ i. has_id i u.owners) o ∙ ap (has_id owner) owners ∙ live,
          (λ down named at. ap (has_key k) here ∙ ground (arith, put_key)),
          λ up unskipped named at. absurd (ground (arith, is_up-of_down p.kind d)),
        ),
      )
  prepare-keeps owner t u p pressed (unbound o d s owners pending how) live h = (
    elim how [
      | inl held ↦
          let any = held_any-eq k u t owners held in
          let left = ap (has_key k) pending in ground (arith, any, left, h)
      | inr (held, others) ↦
          let any = held_any-at_owner k owner _ t u owners held in
          let before = held_any-other k owner t in
          let removed = has_key-remove k p.key (t.held owner) in
          let left = ap (has_key k) pending in
          let at : same k p.key ≡ true → held_by_other k owner t ≡ true =
            λ e. ap (λ x. held_by_other x owner t) ((same_iff k p.key).0 e) ∙ others in
          ground (arith, any, before, removed, left, at, h)
    ],
    (
      ap (λ i. has_id i u.owners) o ∙ ap (has_id owner) owners ∙ live,
      (λ down named at. absurd (ground (arith, d))),
      λ up unskipped named at. absurd (ground (arith, s)),
    ),
  )

  pub finish-keeps :
      (p : Plan) (t : Target) (pressed : Text → Bool)
      → has_id p.owner t.owners ≡ true
      → (same k p.key ≡ true → pressed k ≡ false)
      → Tracked k t pressed
      → Tracked k (finish_up p t) pressed
  unfolding finish_up
  finish-keeps p t pressed live up h =
      let any = held_any-at_owner k p.owner _ t (finish_up p t) refl refl in
      let before = held_any-other k p.owner t in
      let removed = has_key-remove k p.key (t.held p.owner) in ground (arith, any, before, removed)

  pub end_flush-keeps :
      (batch : Batch) (t : Target) (pressed : Text → Bool)
      → (has_key k batch.events ≡ true → pressed k ≡ false)
      → Tracked k t pressed
      → Tracked k (end_flush (keys_of batch.events) t) pressed
  unfolding end_flush held_any
  end_flush-keeps batch t pressed gone h =
      let left = has_key-forget k batch.events t.pending in ground (arith, left)
