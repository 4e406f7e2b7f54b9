-- ===== src/Ring/Refine.antt =====
-- A valid ring buffer behaves as the queue of the entries that it holds: `Push`, `Drain`, and the
-- operations of other goroutines.
use native.Mathlib.Nat.{mod-lt}
use labtether_agent.Common.{
  ℕ, zero, suc, ◌+◌, ◌-◌, ◌%◌, ◌^◌, ◌≤◌, ◌<◌, ◌≡◌, refl, sym, ap, ap₂, ◌∙◌, inl, inr, List, [], ◌∷◌,
  ◌++◌, arith, ltb, ltb→lt, if◌then◌else◌, Bool-cases, set, get_or, length, get_or-set_self,
}
use labtether_agent.Ring.{
  RingBuffer, push, drain_from, drain, Concurrent, produce, take_all, concurrent,
}
use labtether_agent.Ring.Queue.{offer, others, evictions, without_first, is_empty}
use labtether_agent.Ring.Valid.{IsValid, push-IsValid, drain-IsValid}
use labtether_agent.Ring.Window.{
  window, length-window, window_of_ne_zero, window_snoc, window_shift, window-set_before,
  window-set_behind,
}

module _ {ℓ} {A : Type ℓ} (blank : A) where
  -- The entries that the buffer holds, oldest first.
  abbrev pub contents : RingBuffer A → List A
  contents rb = window blank rb.entries rb.cap rb.head 0 rb.size

  pub length-contents : (rb : RingBuffer A) → length (contents rb) ≡ rb.size
  length-contents rb = length-window blank rb.entries rb.cap rb.head 0 rb.size

  -- A full ring: the write lands on the oldest entry, which becomes the newest.
  window_full :
      (xs : List A) (x : A) (cap head : ℕ)
      → head < cap
      → length xs ≡ cap
      → window blank (set xs ((head + cap) % cap) x) cap ((head + 1) % cap) 0 cap
        ≡ window blank xs cap head 1 (cap - 1) ++ (x ∷ [])
  window_full xs x cap head p l =
      let ys = set xs ((head + cap) % cap) x in
      let inside : (head + cap) % cap < length xs = rw l (mod-lt (head + cap) (omega arith)) in
      window_shift blank ys cap head 0 cap
      ∙ ap (window blank ys cap head 1) {y = suc (cap - 1)} (omega arith)
      ∙ window_snoc blank ys cap head 1 (cap - 1)
      ∙ ap₂ (λ q y. q ++ (y ∷ []))
          (window-set_behind blank xs x cap head cap 1 (cap - 1) p (omega arith) (omega arith)
            (omega arith))
          (ap (λ k. get_or ys ((head + k) % cap) blank) (omega arith)
            ∙ get_or-set_self xs ((head + cap) % cap) x blank inside)

  -- A ring with room: the write lands behind the newest entry.
  window_room :
      (xs : List A) (x : A) (cap head n : ℕ)
      → head < cap
      → length xs ≡ cap
      → n < cap
      → window blank (set xs ((head + n) % cap) x) cap head 0 (n + 1)
        ≡ window blank xs cap head 0 n ++ (x ∷ [])
  window_room xs x cap head n p l q =
      let ys = set xs ((head + n) % cap) x in
      let inside : (head + n) % cap < length xs = rw l (mod-lt (head + n) (omega arith)) in
      ap (window blank ys cap head 0) {y = suc n} (omega arith)
      ∙ window_snoc blank ys cap head 0 n
      ∙ ap₂ (λ r y. r ++ (y ∷ []))
          (window-set_behind blank xs x cap head n 0 n p (omega arith) (omega arith) (omega arith))
          (ap (λ k. get_or ys ((head + k) % cap) blank) (omega arith)
            ∙ get_or-set_self xs ((head + n) % cap) x blank inside)

  -- `Push` appends the item, and drops the oldest entry exactly when the buffer is full.
  pub push_refines :
      (rb : RingBuffer A) (x : A) → IsValid rb → contents (push rb x) ≡ offer rb.cap (contents rb) x
  unfolding push offer
  push_refines rb x v = elim (Bool-cases (ltb rb.size rb.cap)) [
    | inl room ↦
        rw (length-contents rb, room)
          (window_room rb.entries x rb.cap rb.head rb.size v.head_in v.storage (ltb→lt _ _ room))
    | inr full ↦
        let e : rb.size ≡ rb.cap = ground arith in
        rw (length-contents rb, full, e)
          (window_full rb.entries x rb.cap rb.head v.head_in v.storage
            ∙ ap (λ q. without_first q ++ (x ∷ []))
                (sym (window_of_ne_zero blank rb.entries rb.cap rb.head 0 rb.cap (omega arith))))
  ]

  drain_from-window :
      (head cap n i : ℕ) (xs : List A)
      → head < cap
      → i + n ≤ cap
      → (drain_from blank head cap n i xs).0 ≡ window blank xs cap head i n
  unfolding drain_from
  drain_from-window head cap zero i xs p q = refl
  drain_from-window head cap (suc n) i xs p q =
      let xs' = set xs ((head + i) % cap) blank in
      ap (◌∷◌ (get_or xs ((head + i) % cap) blank)) (
        drain_from-window head cap n (i + 1) xs' p (omega arith)
        ∙ window-set_before blank xs blank cap head i (i + 1) n p (omega arith) (omega arith)
            (omega arith))

  -- `Drain` returns all entries, oldest first, and leaves none.
  pub drain_refines :
      (rb : RingBuffer A)
      → IsValid rb
      → ((drain blank rb).0 ≡ contents rb) × (contents (drain blank rb).1 ≡ [])
  unfolding drain
  drain_refines rb v = ground (arith, drain_from-window rb.head rb.cap rb.size 0 rb.entries)

  pub cap-push : (rb : RingBuffer A) (x : A) → (push rb x).cap ≡ rb.cap
  unfolding push
  cap-push rb x = ground arith

  pub cap-drain : (rb : RingBuffer A) → (drain blank rb).1.cap ≡ rb.cap
  unfolding drain
  cap-drain rb = ground arith

  pub cap-concurrent :
      (ops : List (Concurrent A)) (rb : RingBuffer A) → (concurrent blank ops rb).cap ≡ rb.cap
  unfolding concurrent
  cap-concurrent [] rb = refl
  cap-concurrent (produce x ∷ ops) rb = cap-concurrent ops (push rb x) ∙ cap-push rb x
  cap-concurrent (take_all ∷ ops) rb = cap-concurrent ops (drain blank rb).1 ∙ cap-drain rb

  -- What other goroutines do is the same on the queue.
  pub concurrent_refines :
      (ops : List (Concurrent A)) (rb : RingBuffer A)
      → IsValid rb
      → contents (concurrent blank ops rb) ≡ others rb.cap ops (contents rb)
  unfolding concurrent others
  concurrent_refines [] rb v = refl
  concurrent_refines (produce x ∷ ops) rb v =
      concurrent_refines ops (push rb x) (push-IsValid rb x v)
      ∙ ap₂ (λ c q. others c ops q) (cap-push rb x) (push_refines rb x v)
  concurrent_refines (take_all ∷ ops) rb v =
      concurrent_refines ops (drain blank rb).1 (drain-IsValid blank rb v)
      ∙ ap₂ (λ c q. others c ops q) (cap-drain rb) (drain_refines rb v).1

  version-push :
      (rb : RingBuffer A) (x : A)
      → IsValid rb
      → (push rb x).head_version
        ≡ (rb.head_version + (if ltb (length (contents rb)) rb.cap then 0 else 1)) % 2 ^ 64
  unfolding push
  version-push rb x v = ground (arith, length-contents rb)

  version-drain :
      (rb : RingBuffer A)
      → IsValid rb
      → (drain blank rb).1.head_version
        ≡ (rb.head_version + (if is_empty (contents rb) then 0 else 1)) % 2 ^ 64
  unfolding drain
  version-drain rb v = ground (arith, window_of_ne_zero blank rb.entries rb.cap rb.head 0 rb.size)

  -- The version counts the evictions, modulo 2^64.
  pub version-concurrent :
      (ops : List (Concurrent A)) (rb : RingBuffer A)
      → IsValid rb
      → (concurrent blank ops rb).head_version
        ≡ (rb.head_version + evictions rb.cap ops (contents rb)) % 2 ^ 64
  unfolding concurrent evictions
  version-concurrent [] rb v = omega arith
  version-concurrent (produce x ∷ ops) rb v =
      let q = push_refines rb x v in
      version-concurrent ops (push rb x) (push-IsValid rb x v)
      ∙ ap₂ (λ w e. (w + e) % 2 ^ 64) (version-push rb x v)
          (ap₂ (λ c r. evictions c ops r) (cap-push rb x) q)
      ∙ omega arith
  version-concurrent (take_all ∷ ops) rb v =
      version-concurrent ops (drain blank rb).1 (drain-IsValid blank rb v)
      ∙ ap₂ (λ w e. (w + e) % 2 ^ 64) (version-drain rb v)
          (ap₂ (λ c r. evictions c ops r) (cap-drain rb) (drain_refines rb v).1)
      ∙ omega arith
