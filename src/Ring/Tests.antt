-- ===== src/Ring/Tests.antt =====
-- Runs of the buffer, and the theorems at concrete buffers.
use labtether_agent.Common.{
  ℕ, ◌^◌, ◌<◌, ◌≡◌, refl, true, [], ◌∷◌, arith, ◌==◌, if◌then◌else◌, length, none,
}
use labtether_agent.Common.Int.{pos, negsuc}
use labtether_agent.Ring.{
  RingBuffer, Surroundings, sent, discard, failed, produce, push, drain, new_ring_buffer, flush,
  flush_from, flush_round, retire, concurrent,
}
use labtether_agent.Ring.Queue.{offer, deliver}
use labtether_agent.Ring.Valid.{IsValid, new_ring_buffer-IsValid, flush-IsValid}
use labtether_agent.Ring.Refine.{contents, push_refines, drain_refines}
use labtether_agent.Ring.Flush.{view, flush_refines}
use labtether_agent.Ring.Quiet.{Delivered, flush-Delivered}

-- 8, then 9, round the end of the array of three
abbrev wrapped : RingBuffer ℕ
wrapped = record { entries = 9 ∷ 0 ∷ 8 ∷ []; head = 2; size = 2; cap = 3; head_version = 5 }

abbrev crowded : RingBuffer ℕ
crowded = record { entries = 9 ∷ 7 ∷ 8 ∷ []; head = 1; size = 3; cap = 3; head_version = 0 }

wrapped-IsValid : IsValid wrapped
wrapped-IsValid = omega arith

crowded-IsValid : IsValid crowded
crowded-IsValid = omega arith

-- While 8 is being sent two producers push, so that the ring overwrites 8; then the send succeeds.
abbrev busy : Surroundings ℕ ℕ
busy = record {
  before = λ i. [];
  during = λ i. if i == 0 then produce 1 ∷ produce 2 ∷ [] else [];
  send = λ i x. if x == 2 then failed 40 else sent;
}

-- 8 is invalid and discarded, 9 cannot be sent.
abbrev still : Surroundings ℕ ℕ
still = record {
  before = λ i. [];
  during = λ i. [];
  send = λ i x. if x == 8 then discard 1 else failed 40;
}

push_overwrites : contents 0 (push crowded 4) ≡ 8 ∷ 9 ∷ 4 ∷ []
unfolding push
push_overwrites = refl

-- 8 was overwritten while it was in flight, so 9 is not removed in its place.
flush_keeps_replacement : view 0 busy (flush 0 busy true wrapped) ≡ (none, 8 ∷ 9 ∷ 1 ∷ [], 2 ∷ [])
unfolding flush flush_from flush_round retire concurrent push
flush_keeps_replacement = refl

default_capacity : (new_ring_buffer {A = ℕ} 0 (negsuc 3)).cap ≡ 60
unfolding new_ring_buffer
default_capacity = refl

new_ring_buffer-IsValid_example : IsValid (new_ring_buffer {A = ℕ} 0 (pos 7))
new_ring_buffer-IsValid_example = new_ring_buffer-IsValid 0 (pos 7)

push_refines_example : contents 0 (push crowded 4) ≡ offer 3 (7 ∷ 8 ∷ 9 ∷ []) 4
push_refines_example = push_refines 0 crowded 4 crowded-IsValid

drain_refines_example : ((drain 0 wrapped).0 ≡ 8 ∷ 9 ∷ []) × (contents 0 (drain 0 wrapped).1 ≡ [])
drain_refines_example = drain_refines 0 wrapped wrapped-IsValid

flush-IsValid_example : IsValid (flush 0 busy true wrapped).2
flush-IsValid_example = flush-IsValid 0 busy true wrapped wrapped-IsValid

during_small : (j : ℕ) → length (busy.during j) < 2 ^ 64
during_small j = ground arith

flush_refines_example : view 0 busy (flush 0 busy true wrapped) ≡ deliver 3 busy 3 0 (8 ∷ 9 ∷ [])
flush_refines_example = flush_refines 0 busy true wrapped wrapped-IsValid during_small

flush-Delivered_example : Delivered still 0 (8 ∷ 9 ∷ []) (view 0 still (flush 0 still true wrapped))
flush-Delivered_example =
    flush-Delivered still (record { before_nil = λ i. refl; during_nil = λ i. refl }) 0 wrapped
      wrapped-IsValid
