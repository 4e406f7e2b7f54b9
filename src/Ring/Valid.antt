-- ===== src/Ring/Valid.antt =====
-- The representation invariant of `RingBuffer`, and that every method keeps it.
use native.Mathlib.Nat.{mod-lt}
use labtether_agent.Common.{
  ℕ, zero, suc, ◌+◌, ◌%◌, ◌^◌, ◌≤◌, ◌<◌, ◌≡◌, refl, Bool, true, false, List, [], ◌∷◌, arith, set,
  length, length-set, length-replicate,
}
use labtether_agent.Common.Int.{ℤ, pos, negsuc}
use labtether_agent.Ring.{
  RingBuffer, push, new_ring_buffer, drain_from, drain, Concurrent, produce, take_all, concurrent,
  retire, Surroundings, Flushed, flush_round, flush_from, flush,
}

pub record IsValid {ℓ} {A : Type ℓ} (rb : RingBuffer A) : Type 0 where
  pub storage : length rb.entries ≡ rb.cap
  pub head_in : rb.head < rb.cap
  pub size_in : rb.size ≤ rb.cap
  pub version_in : rb.head_version < 2 ^ 64

module _ {ℓ} {A : Type ℓ} where
  pub push-IsValid : (rb : RingBuffer A) (x : A) → IsValid rb → IsValid (push rb x)
  unfolding push
  push-IsValid rb x v = ground (
    arith,
    length-set rb.entries ((rb.head + rb.size) % rb.cap) x,
    mod-lt (rb.head + 1) {m = rb.cap},
  )

module _ {ℓ} {A : Type ℓ} (blank : A) where
  pub new_ring_buffer-IsValid : (capacity : ℤ) → IsValid (new_ring_buffer blank capacity)
  unfolding new_ring_buffer
  new_ring_buffer-IsValid (pos n) =
      ground (arith, length-replicate n blank, length-replicate 60 blank)
  new_ring_buffer-IsValid (negsuc n) = omega arith

  pub length-drain_from :
      (head cap n i : ℕ) (xs : List A) → length (drain_from blank head cap n i xs).1 ≡ length xs
  unfolding drain_from
  length-drain_from head cap zero i xs = refl
  length-drain_from head cap (suc n) i xs = omega (
    arith,
    length-drain_from head cap n (i + 1) (set xs ((head + i) % cap) blank),
    length-set xs ((head + i) % cap) blank,
  )

  pub drain-IsValid : (rb : RingBuffer A) → IsValid rb → IsValid (drain blank rb).1
  unfolding drain
  drain-IsValid rb v = ground (arith, length-drain_from rb.head rb.cap rb.size 0 rb.entries)

  pub concurrent-IsValid :
      (ops : List (Concurrent A)) (rb : RingBuffer A)
      → IsValid rb
      → IsValid (concurrent blank ops rb)
  unfolding concurrent
  concurrent-IsValid [] rb v = v
  concurrent-IsValid (produce x ∷ ops) rb v =
      concurrent-IsValid ops (push rb x) (push-IsValid rb x v)
  concurrent-IsValid (take_all ∷ ops) rb v =
      concurrent-IsValid ops (drain blank rb).1 (drain-IsValid rb v)

  pub retire-IsValid :
      (version : ℕ) (rb : RingBuffer A) → IsValid rb → IsValid (retire blank version rb)
  unfolding retire
  retire-IsValid version rb v =
      ground (arith, length-set rb.entries rb.head blank, mod-lt (rb.head + 1) {m = rb.cap})

  module _ {κ} {E : Type κ} (env : Surroundings A E) where
    flush_round-IsValid :
        (i : ℕ) (later : RingBuffer A → Flushed A E)
        → ((rb : RingBuffer A) → IsValid rb → IsValid (later rb).2)
        → (rb : RingBuffer A) → IsValid rb
        → IsValid (flush_round blank env i later rb).2
    unfolding flush_round
    flush_round-IsValid i later h rb v =
        let a = concurrent-IsValid (env.during i) rb v in
        let r =
          h (retire blank rb.head_version (concurrent blank (env.during i) rb))
            (retire-IsValid rb.head_version _ a) in
        ground (arith, a, r)

    flush_from-IsValid :
        (n i : ℕ) (rb : RingBuffer A) → IsValid rb → IsValid (flush_from blank env n i rb).2
    unfolding flush_from
    flush_from-IsValid zero i rb v = v
    flush_from-IsValid (suc n) i rb v =
        flush_round-IsValid i (flush_from blank env n (i + 1)) (flush_from-IsValid n (i + 1)) _
          (concurrent-IsValid (env.before i) rb v)

    -- Flush keeps the invariant of a valid buffer, whether or not another flush runs, and whatever
    -- other goroutines do between and during the sends.
    pub flush-IsValid :
        (free : Bool) (rb : RingBuffer A) → IsValid rb → IsValid (flush blank env free rb).2
    unfolding flush
    flush-IsValid true rb v = flush_from-IsValid rb.cap 0 rb v
    flush-IsValid false rb v = v
