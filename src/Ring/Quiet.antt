-- ===== src/Ring/Quiet.antt =====
-- A flush that no other goroutine disturbs: all is delivered in order, or all from the first failure
-- on is kept. The `cap` rounds of the loop are enough for every entry.
use labtether_agent.Common.{
  ℕ, zero, suc, ◌+◌, ◌≤◌, ◌≡◌, refl, sym, ap, ◌∙◌, subst, true, inl, inr, ◌⊎◌, List, [], ◌∷◌, ◌++◌,
  arith, length, Option, none, some,
}
use labtether_agent.Ring.{RingBuffer, Surroundings, Outcome, sent, discard, failed, finish, flush}
use labtether_agent.Ring.Queue.{others, evictions, deliver, round}
use labtether_agent.Ring.Valid.{IsValid}
use labtether_agent.Ring.Refine.{contents, length-contents}
use labtether_agent.Ring.Flush.{view, flush_refines}

-- Nothing else touches the buffer.
pub record IsQuiet {ℓ κ} {A : Type ℓ} {E : Type κ} (env : Surroundings A E) : Type ℓ where
  pub before_nil : (i : ℕ) → env.before i ≡ []
  pub during_nil : (i : ℕ) → env.during i ≡ []

module _ {ℓ κ} {A : Type ℓ} {E : Type κ} (env : Surroundings A E) where
  -- From round `i` on no send of these samples fails with an error that is not a discard.
  abbrev pub NoneFails : ℕ → List A → Type κ
  NoneFails i [] = Unit
  NoneFails i (x ∷ q) = ((e : E) → ¬ (env.send i x ≡ failed e)) × NoneFails (i + 1) q

  -- How a delivery of `q` that starts at round `i` may end.
  abbrev pub Delivered : ℕ → List A → Option E × List A × List A → Type (ℓ ⊔ κ)
  Delivered i q (e, tried, left) =
      ((e ≡ none) × (tried ≡ q) × (left ≡ []) × NoneFails i q)
      ⊎ ((before : List A) × (x : A) × (behind : List A) × (why : E) × (q ≡ before ++ (x ∷ behind))
          × (tried ≡ before ++ (x ∷ []))
          × (left ≡ x ∷ behind)
          × (e ≡ some why)
          × NoneFails i before
          × (env.send (i + length before) x ≡ failed why))

  Delivered-cons :
      (i : ℕ) (x : A) (q : List A) (r : Option E × List A × List A)
      → ((e : E) → ¬ (env.send i x ≡ failed e))
      → Delivered (i + 1) q r
      → Delivered i (x ∷ q) (r.0, x ∷ r.1, r.2)
  Delivered-cons i x q r h (inl (e, t, l, a)) = inl (e, ap (◌∷◌ x) t, l, (h, a))
  Delivered-cons i x q r h (inr (before, y, behind, why, split, t, l, e, a, f)) = inr (
    x ∷ before,
    y,
    behind,
    why,
    ap (◌∷◌ x) split,
    ap (◌∷◌ x) t,
    l,
    e,
    (h, a),
    ap (λ k. env.send k y) (omega arith) ∙ f,
  )

  Delivered-finish :
      (i : ℕ) (x : A) (q : List A) (r : Option E × List A × List A) (o : Outcome E)
      → env.send i x ≡ o
      → Delivered (i + 1) q r
      → Delivered i (x ∷ q) (finish o x (x ∷ q) r)
  Delivered-finish i x q r sent h d = Delivered-cons i x q r (λ e k. cc) d
  Delivered-finish i x q r (discard why) h d = Delivered-cons i x q r (λ e k. cc) d
  Delivered-finish i x q r (failed why) h d =
      inr ([], x, q, why, refl, refl, refl, refl, tt, ap (λ k. env.send k x) (omega arith) ∙ h)

  module _ (quiet : IsQuiet env) where
    deliver-Delivered :
        (cap n i : ℕ) (q : List A) → length q ≤ n → Delivered i q (deliver cap env n i q)
    unfolding deliver round others evictions
    deliver-Delivered cap zero i [] h = inl (refl, refl, refl, tt)
    deliver-Delivered cap (suc n) i [] h = rw (quiet.before_nil i) (inl (refl, refl, refl, tt))
    deliver-Delivered cap zero i (x ∷ q) h = absurd (omega arith)
    deliver-Delivered cap (suc n) i (x ∷ q) h =
        rw (quiet.before_nil i, quiet.during_nil i)
          (Delivered-finish i x q _ (env.send i x) refl
            (deliver-Delivered cap n (i + 1) q (omega arith)))

    -- With no other goroutine at work, `Flush` either sends every entry, oldest first, and empties
    -- the buffer without an error, no send having failed (discards do not count), or stops at the
    -- first send that fails, returns its error, and keeps that entry and all behind it, in order.
    pub flush-Delivered :
        (blank : A) (rb : RingBuffer A)
        → IsValid rb
        → Delivered 0 (contents blank rb) (view blank env (flush blank env true rb))
    flush-Delivered blank rb v =
        subst (Delivered 0 (contents blank rb))
          (sym (flush_refines blank env true rb v (λ j. rw (quiet.during_nil j) (omega arith))))
          (deliver-Delivered rb.cap rb.cap 0 (contents blank rb)
            (omega (arith, length-contents blank rb, v.size_in)))
