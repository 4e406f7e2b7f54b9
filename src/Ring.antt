-- ===== src/Ring.antt =====
-- internal/agentcore/ring_buffer.go: the bounded buffer between the collectors and the connection.
-- The mutex `mu` makes each critical section one step, so a method is a function on the buffer, and
-- what other goroutines do between two critical sections of `Flush` is a list of operations.
pub mod Queue
pub mod Valid
pub mod Window
pub mod Refine
pub mod Flush
pub mod Quiet
mod Tests
use labtether_agent.Common.{
  ℕ, zero, suc, ◌+◌, ◌-◌, ◌%◌, ◌^◌, Bool, true, false, ◌&&◌, Option, none, some, List, [], ◌∷◌, ltb,
  ◌==◌, if◌then◌else◌, set, get_or, replicate,
}
use labtether_agent.Common.Int.{ℤ, nonpositive, pos_part}

-- `RingBuffer`; the field `data` is `entries`, and its length is the capacity.
pub record RingBuffer {ℓ} (A : Type ℓ) : Type ℓ where
  pub entries : List A
  pub head : ℕ
  pub size : ℕ
  pub cap : ℕ
  pub head_version : ℕ

-- `headVersion++` on a uint64
abbrev pub next_version : ℕ → ℕ
next_version v = (v + 1) % 2 ^ 64

abbrev pub effective_capacity : ℤ → ℕ
effective_capacity n = if nonpositive n then 60 else pos_part n

-- What `send` returned: nil, an error that wraps errDiscardBufferedItem, or any other error.
pub data Outcome {ℓ} (E : Type ℓ) : Type ℓ where
  sent : Outcome E
  discard : E → Outcome E
  failed : E → Outcome E

-- What another goroutine does while `Flush` does not hold `mu`.
pub data Concurrent {ℓ} (A : Type ℓ) : Type ℓ where
  produce : A → Concurrent A
  take_all : Concurrent A

-- The surroundings of a flush, by round: what others do before the round reads the head, what they
-- do while the sample is being sent, and what sending it returns.
pub record Surroundings {ℓ κ} (A : Type ℓ) (E : Type κ) : Type (ℓ ⊔ κ) where
  pub before : ℕ → List (Concurrent A)
  pub during : ℕ → List (Concurrent A)
  pub send : ℕ → A → Outcome E

-- The error of a flush, the samples that it tried to send, oldest first, and the buffer.
abbrev pub Flushed {ℓ κ} : Type ℓ → Type κ → Type (ℓ ⊔ κ)
Flushed A E = Option E × List A × RingBuffer A

-- What a round yields once the send has returned: the first error ends the loop, and otherwise the
-- later rounds decide.
abbrev pub finish {ℓ κ μ} :
    {A : Type ℓ} {E : Type κ} {S : Type μ}
    → Outcome E
    → A
    → S
    → Option E × List A × S
    → Option E × List A × S
finish (failed e) x s rest = (some e, x ∷ [], s)
finish sent x s rest = (rest.0, x ∷ rest.1, rest.2)
finish (discard e) x s rest = (rest.0, x ∷ rest.1, rest.2)

module _ {ℓ} {A : Type ℓ} where
  unfoldable pub push : RingBuffer A → A → RingBuffer A
  push rb item =
      let idx = (rb.head + rb.size) % rb.cap in
      if ltb rb.size rb.cap
      then record rb { entries = set rb.entries idx item; size = rb.size + 1 }
      else record rb {
        entries = set rb.entries idx item;
        head = (rb.head + 1) % rb.cap;
        head_version = next_version rb.head_version;
      }

  abbrev pub len : RingBuffer A → ℕ
  len rb = rb.size

-- `blank` is the zero value of the element type.
module _ {ℓ} {A : Type ℓ} (blank : A) where
  unfoldable pub new_ring_buffer : ℤ → RingBuffer A
  new_ring_buffer capacity = record {
    entries = replicate (effective_capacity capacity) blank;
    head = 0;
    size = 0;
    cap = effective_capacity capacity;
    head_version = 0;
  }

  -- the loop of `Drain`, with the rounds left and the index of the round
  unfoldable pub drain_from : ℕ → ℕ → ℕ → ℕ → List A → List A × List A
  drain_from head cap zero i entries = ([], entries)
  drain_from head cap (suc n) i entries =
      let idx = (head + i) % cap in
      let (out, rest) = drain_from head cap n (i + 1) (set entries idx blank) in
      (get_or entries idx blank ∷ out, rest)

  unfoldable pub drain : RingBuffer A → List A × RingBuffer A
  drain rb =
      let (out, cleared) = drain_from rb.head rb.cap rb.size 0 rb.entries in
      if rb.size == 0 then ([], rb) else (
        out,
        record rb {
          entries = cleared;
          head = 0;
          size = 0;
          head_version = next_version rb.head_version;
        },
      )

  unfoldable pub concurrent : List (Concurrent A) → RingBuffer A → RingBuffer A
  concurrent [] rb = rb
  concurrent (produce x ∷ ops) rb = concurrent ops (push rb x)
  concurrent (take_all ∷ ops) rb = concurrent ops (drain rb).1

  -- the second critical section of a round, which retires the sample read at `version`
  unfoldable pub retire : ℕ → RingBuffer A → RingBuffer A
  retire version rb =
      if ltb 0 rb.size && rb.head_version == version
      then record rb {
        entries = set rb.entries rb.head blank;
        head = (rb.head + 1) % rb.cap;
        size = rb.size - 1;
        head_version = next_version rb.head_version;
      }
      else rb

  module _ {κ} {E : Type κ} (env : Surroundings A E) where
    -- One round of the loop of `Flush`, `later` being the further rounds.
    unfoldable pub flush_round : ℕ → (RingBuffer A → Flushed A E) → RingBuffer A → Flushed A E
    flush_round i later current =
        let sample = get_or current.entries current.head blank in
        let after = concurrent (env.during i) current in
        let rest = later (retire current.head_version after) in
        if current.size == 0
        then (none, [], current)
        else finish (env.send i sample) sample after rest

    -- the loop, with the rounds left and the index of the round
    unfoldable pub flush_from : ℕ → ℕ → RingBuffer A → Flushed A E
    flush_from zero i rb = (none, [], rb)
    flush_from (suc n) i rb = flush_round i (flush_from n (i + 1)) (concurrent (env.before i) rb)

    -- `Flush`; the flag says that `flushMu` was free.
    unfoldable pub flush : Bool → RingBuffer A → Flushed A E
    flush free rb = if free then flush_from rb.cap 0 rb else (none, [], rb)
