-- ===== src/Input/System.antt =====
-- webrtc_input_ownership.go: how the goroutines of the controllers interleave on one target. The gate
-- lets one of them press and release at a time; owners are added and retired at any moment. Each
-- step is a critical section or one call of a helper program. `pressed` are the keys and buttons that
-- may be down on the desktop: a press is counted as soon as it may have happened, and a release when
-- the helper reports it. A helper that fails may have done a part of its work.
use labtether_agent.Common.{
  ℕ, ◌≡◌, Bool, true, false, not, ◌&&◌, ◌||◌, Option, none, some, [], if◌then◌else◌, ok, err,
  Result, ◌==◌,
}
use labtether_agent.Common.Text.{Text}
use labtether_agent.Common.Text.Compare.{same}
use labtether_agent.Common.Text.Space.{is_blank}
use labtether_agent.Input.Keys.{KeyTables, WebRtcInputEvent, is_down, is_up}
use labtether_agent.Input.Maps.{has_key, has_id}
use labtether_agent.Input.Target.{
  Inputs, Target, acquire, end_flush, keys_of, may_unlock, retire_owner,
}
use labtether_agent.Input.Inject.{InputError, Plan, begin_inject, finish_up}

-- What `flush` reads in its first critical section.
pub record Batch : Type 0 where
  pub version : ℕ
  pub events : Inputs

abbrev pub batch_of : Target → Batch
batch_of t = record { version = t.version; events = t.pending }

-- Where the goroutine that has the gate stands; with no plan, `flush` was called to release only.
pub data Phase : Type 0 where
  free : Phase
  entered : ℕ → Phase
  before_flush : Option Plan → Phase
  releasing : Batch → Option Plan → Phase
  released : Batch → Option Plan → Phase
  injecting : Plan → ℕ → Phase
  lifted : Plan → ℕ → Phase
  leaving : ℕ → Phase

pub record World : Type 0 where
  pub target : Target
  pub pressed : Text → Bool
  pub gate : Phase

abbrev pub initial : World
initial = record {
  target = record { owners = []; held = λ i. []; bindings = λ i. []; pending = []; version = 0 };
  pressed = λ key. false;
  gate = free;
}

-- Behind a flush that released its batch.
abbrev pub after_flush : Option Plan → ℕ → Phase
after_flush none attempted = leaving attempted
after_flush (some p) attempted = if p.skip then leaving attempted else injecting p attempted

abbrev pub plan_owner : Option Plan → ℕ → Bool
plan_owner none id = false
plan_owner (some p) id = p.owner == id

-- The owner whose call of `inject` has the gate; it cannot retire meanwhile.
abbrev pub is_injecting : Phase → ℕ → Bool
is_injecting (entered owner) id = owner == id
is_injecting (before_flush next) id = plan_owner next id
is_injecting (releasing batch next) id = plan_owner next id
is_injecting (released batch next) id = plan_owner next id
is_injecting (injecting p n) id = p.owner == id
is_injecting (lifted p n) id = p.owner == id
is_injecting _ id = false

abbrev pub press : Text → (Text → Bool) → Text → Bool
press key pressed k = (not (is_blank key) && same k key) || pressed k

abbrev pub lift : (Text → Bool) → (Text → Bool) → Text → Bool
lift gone pressed k = pressed k && not (gone k)

module _ (tables : KeyTables) where
  pub data Step : World → World → Type 0 where
    acquires :
        (w : World) (owner : ℕ)
        → has_id owner w.target.owners ≡ false
        → Step w (record w { target = acquire owner w.target })
    retires :
        (w : World) (owner : ℕ)
        → is_injecting w.gate owner ≡ false
        → Step w (record w { target = retire_owner owner w.target })
    -- the lock of `retire`, whose owner is gone
    enters_to_flush : (w : World) → w.gate ≡ free → Step w (record w { gate = before_flush none })
    -- the lock of `inject`
    enters :
        (w : World) (owner : ℕ)
        → w.gate ≡ free
        → has_id owner w.target.owners ≡ true
        → Step w (record w { gate = entered owner })
    prepares :
        (w : World) (owner : ℕ) (wayland : Bool)
        (resolver : Option (WebRtcInputEvent → Result Text WebRtcInputEvent))
        (wire : WebRtcInputEvent) (t : Target) (p : Plan)
        → w.gate ≡ entered owner
        → begin_inject tables wayland resolver owner wire w.target ≡ ok (t, p)
        → Step w (record w { target = t; gate = before_flush (some p) })
    refuses :
        (w : World) (owner : ℕ) (wayland : Bool)
        (resolver : Option (WebRtcInputEvent → Result Text WebRtcInputEvent))
        (wire : WebRtcInputEvent) (why : InputError Text)
        → w.gate ≡ entered owner
        → begin_inject tables wayland resolver owner wire w.target ≡ err why
        → Step w (record w { gate = leaving 0 })
    reads_batch :
        (w : World) (next : Option Plan)
        → w.gate ≡ before_flush next
        → Step w (record w { gate = releasing (batch_of w.target) next })
    releases :
        (w : World) (batch : Batch) (next : Option Plan)
        → w.gate ≡ releasing batch next
        → Step w (record w {
          pressed = lift (λ k. has_key k batch.events) w.pressed;
          gate = released batch next;
        })
    release_fails :
        (w : World) (batch : Batch) (next : Option Plan) (gone : Text → Bool)
        → w.gate ≡ releasing batch next
        → ((k : Text) → gone k ≡ true → has_key k batch.events ≡ true)
        → Step w (record w { pressed = lift gone w.pressed; gate = leaving batch.version })
    ends_flush :
        (w : World) (batch : Batch) (next : Option Plan)
        → w.gate ≡ released batch next
        → Step w (record w {
          target = end_flush (keys_of batch.events) w.target;
          gate = after_flush next batch.version;
        })
    presses :
        (w : World) (p : Plan) (attempted : ℕ)
        → w.gate ≡ injecting p attempted
        → is_down p.kind ≡ true
        → Step w (record w { pressed = press p.key w.pressed; gate = leaving attempted })
    lifts :
        (w : World) (p : Plan) (attempted : ℕ)
        → w.gate ≡ injecting p attempted
        → is_up p.kind ≡ true
        → Step w
            (record w { pressed = lift (λ k. same k p.key) w.pressed; gate = lifted p attempted })
    lift_fails :
        (w : World) (p : Plan) (attempted : ℕ)
        → w.gate ≡ injecting p attempted
        → is_up p.kind ≡ true
        → Step w
            (record w { pressed = lift (λ k. same k p.key) w.pressed; gate = leaving attempted })
    -- an event of another kind, or a helper that failed before it did anything
    injects :
        (w : World) (p : Plan) (attempted : ℕ)
        → w.gate ≡ injecting p attempted
        → Step w (record w { gate = leaving attempted })
    finishes :
        (w : World) (p : Plan) (attempted : ℕ)
        → w.gate ≡ lifted p attempted
        → Step w (record w { target = finish_up p w.target; gate = leaving attempted })
    drains :
        (w : World) (attempted : ℕ)
        → w.gate ≡ leaving attempted
        → may_unlock attempted false w.target ≡ false
        → Step w (record w { gate = before_flush none })
    unlocks :
        (w : World) (attempted : ℕ) (expired : Bool)
        → w.gate ≡ leaving attempted
        → may_unlock attempted expired w.target ≡ true
        → Step w (record w { gate = free })

  pub data Reach : World → Type 0 where
    here : Reach initial
    next : {v w : World} → Reach v → Step v w → Reach w
