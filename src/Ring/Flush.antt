-- ===== src/Ring/Flush.antt =====
-- `Flush` delivers from the front of the queue, whatever other goroutines do while a sample is sent.
use labtether_agent.Common.{
  ℕ, zero, suc, ◌+◌, ◌-◌, ◌%◌, ◌^◌, ◌≤◌, ◌<◌, ◌≡◌, ◌≢◌, refl, sym, ap, ap₂, ◌∙◌, Bool, true, false,
  inl, inr, List, [], ◌∷◌, arith, ltb, tests, ◌==◌, if◌then◌else◌, Bool-cases, set, get_or, length,
  Option, none,
}
use labtether_agent.Ring.{
  RingBuffer, Concurrent, produce, take_all, concurrent, retire, Surroundings, Outcome, sent,
  discard, failed, flush_round, flush_from, flush, finish,
}
use labtether_agent.Ring.Queue.{others, evictions, without_first, deliver, offer, round}
use labtether_agent.Ring.Valid.{IsValid, concurrent-IsValid, retire-IsValid}
use labtether_agent.Ring.Window.{window, window_of_ne_zero, window_shift, window-set_before}
use labtether_agent.Ring.Refine.{contents, cap-concurrent, concurrent_refines, version-concurrent}
use native.Mathlib.Nat.{mod-eq_of_lt, add-zero}

module _ {ℓ} {A : Type ℓ} (blank : A) where
  evictions-le :
      (cap : ℕ) (ops : List (Concurrent A)) (q : List A) → evictions cap ops q ≤ length ops
  unfolding evictions
  evictions-le cap [] q = omega arith
  evictions-le cap (produce x ∷ ops) q = ground (arith, evictions-le cap ops (offer cap q x))
  evictions-le cap (take_all ∷ ops) [] = omega (arith, evictions-le cap ops [])
  evictions-le cap (take_all ∷ ops) (x ∷ q) = omega (arith, evictions-le cap ops [])

  -- Below 2^64 evictions the version is the old one exactly when nothing was evicted.
  version_test : (v e : ℕ) → v < 2 ^ 64 → e < 2 ^ 64 → ((v + e) % 2 ^ 64 == v) ≡ (e == 0)
  version_test v e p q = ground arith

  window-retire :
      (xs : List A) (cap head n : ℕ)
      → head < cap
      → n < cap
      → window blank (set xs head blank) cap ((head + 1) % cap) 0 n ≡ window blank xs cap head 1 n
  window-retire xs cap head n p q =
      window_shift blank (set xs head blank) cap head 0 n
      ∙ ap (λ k. window blank (set xs k blank) cap head 1 n) (sym (rw add-zero (mod-eq_of_lt p)))
      ∙ window-set_before blank xs blank cap head 0 1 n p (omega arith) (omega arith) (omega arith)

  contents_of_zero : (rb : RingBuffer A) → rb.size ≡ 0 → contents blank rb ≡ []
  contents_of_zero rb e = ap (window blank rb.entries rb.cap rb.head 0) e

  if_same {μ} : {B : Type μ} (b : Bool) (x : B) → (if b then x else x) ≡ x
  if_same true x = refl
  if_same false x = refl

  retire_refines :
      (version : ℕ) (rb : RingBuffer A)
      → IsValid rb
      → contents blank (retire blank version rb) ≡ (
          if rb.head_version == version
          then without_first (contents blank rb)
          else contents blank rb)
  unfolding retire
  retire_refines version rb v = elim (Bool-cases (ltb 0 rb.size)) [
    | inr empty ↦
        let e : contents blank rb ≡ [] = contents_of_zero rb (ground arith) in
        rw empty (
          e
          ∙ sym (
              ap (λ q. if rb.head_version == version then without_first q else q) e
              ∙ if_same (rb.head_version == version) []))
    | inl some_left ↦ elim (Bool-cases (rb.head_version == version)) [
      | inr other ↦ rw (some_left, other)
      | inl same ↦
          rw (some_left, same)
            (window-retire rb.entries rb.cap rb.head (rb.size - 1) v.head_in
                (omega (tests, v.size_in))
              ∙ ap without_first
                  (sym (window_of_ne_zero blank rb.entries rb.cap rb.head 0 rb.size (omega tests))))
    ]
  ]

  cap-retire : (version : ℕ) (rb : RingBuffer A) → (retire blank version rb).cap ≡ rb.cap
  unfolding retire
  cap-retire version rb = ground arith

  module _ {κ} {E : Type κ} (env : Surroundings A E) where
    -- One round: the read sample is retired exactly when nothing was evicted while it was sent.
    round_refines :
        (i : ℕ) (rb : RingBuffer A)
        → IsValid rb
        → length (env.during i) < 2 ^ 64
        → let after = concurrent blank (env.during i) rb in
          let q = others rb.cap (env.during i) (contents blank rb) in
          contents blank (retire blank rb.head_version after) ≡ (
            if evictions rb.cap (env.during i) (contents blank rb) == 0 then without_first q else q)
    round_refines i rb v h =
        let e = evictions-le rb.cap (env.during i) (contents blank rb) in
        let after = concurrent blank (env.during i) rb in
        retire_refines rb.head_version after (concurrent-IsValid blank (env.during i) rb v)
        ∙ ap₂ (λ b q. if b then without_first q else q)
            (ap (λ w. w == rb.head_version) (version-concurrent blank (env.during i) rb v)
              ∙ version_test rb.head_version (evictions rb.cap (env.during i) (contents blank rb))
                  v.version_in (omega arith))
            (concurrent_refines blank (env.during i) rb v)

    -- The same with the queue in place of the ring.
    abbrev pub view : Option E × List A × RingBuffer A → Option E × List A × List A
    view (e, tried, rb) = (e, tried, contents blank rb)

    view-finish :
        (o : Outcome E) (x : A) (rb : RingBuffer A) (rest : Option E × List A × RingBuffer A)
        → view (finish o x rb rest) ≡ finish o x (contents blank rb) (view rest)
    view-finish sent x rb rest = refl
    view-finish (discard e) x rb rest = refl
    view-finish (failed e) x rb rest = refl

    contents_of_some :
        (rb : RingBuffer A)
        → IsValid rb
        → rb.size ≢ 0
        → contents blank rb
          ≡ get_or rb.entries rb.head blank ∷ window blank rb.entries rb.cap rb.head 1 (rb.size - 1)
    contents_of_some rb v h =
        window_of_ne_zero blank rb.entries rb.cap rb.head 0 rb.size h
        ∙ ap
            (λ k.
              get_or rb.entries k blank ∷ window blank rb.entries rb.cap rb.head 1 (rb.size - 1))
            (rw add-zero (mod-eq_of_lt v.head_in))

    flush_round_refines :
        (i : ℕ) (later : RingBuffer A → Option E × List A × RingBuffer A)
        (later' : List A → Option E × List A × List A) (rb : RingBuffer A)
        → IsValid rb
        → length (env.during i) < 2 ^ 64
        → ((next : RingBuffer A)
            → IsValid next
            → next.cap ≡ rb.cap
            → view (later next) ≡ later' (contents blank next))
        → view (flush_round blank env i later rb) ≡ round rb.cap env i later' (contents blank rb)
    unfolding flush_round round
    flush_round_refines i later later' rb v h ih = elim (Bool-cases (rb.size == 0)) [
      | inl empty ↦
          let e = contents_of_zero rb (ground arith) in
          rw empty (ap (λ q. (none, [], q)) e ∙ ap (round rb.cap env i later') (sym e))
      | inr more ↦
          let x = get_or rb.entries rb.head blank in
          let c = contents_of_some rb v (ground arith) in
          let after = concurrent blank (env.during i) rb in
          let av = concurrent-IsValid blank (env.during i) rb v in
          let next = retire blank rb.head_version after in
          let same = cap-retire rb.head_version after ∙ cap-concurrent blank (env.during i) rb in
          rw more (
            view-finish (env.send i x) x after (later next)
            ∙ ap₂ (finish (env.send i x) x)
                (concurrent_refines blank (env.during i) rb v ∙ ap (others rb.cap (env.during i)) c)
                (ih next (retire-IsValid blank rb.head_version after av) same
                  ∙ ap later' (
                      round_refines i rb v h
                      ∙ ap
                          (λ q.
                            if evictions rb.cap (env.during i) q == 0
                            then without_first (others rb.cap (env.during i) q)
                            else others rb.cap (env.during i) q)
                          c))
            ∙ ap (round rb.cap env i later') (sym c))
    ]

    flush_from_refines :
        (n i : ℕ) (rb : RingBuffer A)
        → IsValid rb
        → ((j : ℕ) → length (env.during j) < 2 ^ 64)
        → view (flush_from blank env n i rb) ≡ deliver rb.cap env n i (contents blank rb)
    unfolding flush_from deliver
    flush_from_refines zero i rb v h = refl
    flush_from_refines (suc n) i rb v h =
        let current = concurrent blank (env.before i) rb in
        flush_round_refines i (flush_from blank env n (i + 1)) (deliver current.cap env n (i + 1))
          current (concurrent-IsValid blank (env.before i) rb v) (h i)
          (λ next w same.
            flush_from_refines n (i + 1) next w h
            ∙ ap (λ c. deliver c env n (i + 1) (contents blank next)) same)
        ∙ ap₂ (λ c q. round c env i (deliver c env n (i + 1)) q)
            (cap-concurrent blank (env.before i) rb) (concurrent_refines blank (env.before i) rb v)

    -- `Flush` on a ring is the delivery from its queue: the error, the samples tried, and what is
    -- left, whatever other goroutines push or drain between and during the sends. The assumption is
    -- that fewer than 2^64 operations run while one sample is sent. A flush that finds another one
    -- running does nothing.
    pub flush_refines :
        (free : Bool) (rb : RingBuffer A)
        → IsValid rb
        → ((j : ℕ) → length (env.during j) < 2 ^ 64)
        → view (flush blank env free rb) ≡ (
            if free
            then deliver rb.cap env rb.cap 0 (contents blank rb)
            else (none, [], contents blank rb))
    unfolding flush
    flush_refines true rb v h = flush_from_refines rb.cap 0 rb v h
    flush_refines false rb v h = refl
