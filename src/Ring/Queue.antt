-- ===== src/Ring/Queue.antt =====
-- What a ring buffer promises: a queue of at most `cap` entries, oldest first, that drops its oldest
-- entry to make room. The queue has no array, no indices and no version counter.
use labtether_agent.Common.{
  ℕ, zero, suc, ◌+◌, Bool, true, false, Option, none, List, [], ◌∷◌, ◌++◌, ltb, ◌==◌, if◌then◌else◌,
  length,
}
use labtether_agent.Ring.{finish, Concurrent, produce, take_all, Surroundings}

module _ {ℓ} {A : Type ℓ} where
  abbrev pub without_first : List A → List A
  without_first [] = []
  without_first (x ∷ q) = q

  abbrev pub is_empty : List A → Bool
  is_empty [] = true
  is_empty (x ∷ q) = false

  module _ (cap : ℕ) where
    unfoldable pub offer : List A → A → List A
    offer q x = (if ltb (length q) cap then q else without_first q) ++ (x ∷ [])

    unfoldable pub others : List (Concurrent A) → List A → List A
    others [] q = q
    others (produce x ∷ ops) q = others ops (offer q x)
    others (take_all ∷ ops) q = others ops []

    -- How often the operations take away what stands first in the queue.
    unfoldable pub evictions : List (Concurrent A) → List A → ℕ
    evictions [] q = 0
    evictions (produce x ∷ ops) q =
        (if ltb (length q) cap then 0 else 1) + evictions ops (offer q x)
    evictions (take_all ∷ ops) q = (if is_empty q then 0 else 1) + evictions ops []

    -- One round of a delivery, `later` being the further rounds. A sample that others took away while
    -- it was being sent is not removed a second time, and one that could not be sent stays.
    unfoldable pub round {κ} :
        {E : Type κ}
        → Surroundings A E
        → ℕ
        → (List A → Option E × List A × List A)
        → List A
        → Option E × List A × List A
    round env i later [] = (none, [], [])
    round env i later (x ∷ behind) =
        let after = others (env.during i) (x ∷ behind) in
        let taken = evictions (env.during i) (x ∷ behind) in
        finish (env.send i x) x after (later (if taken == 0 then without_first after else after))

    -- Deliver from the front, one sample a round.
    unfoldable pub deliver {κ} :
        {E : Type κ} → Surroundings A E → ℕ → ℕ → List A → Option E × List A × List A
    deliver env zero i q = (none, [], q)
    deliver env (suc n) i q = round env i (deliver env n (i + 1)) (others (env.before i) q)
