-- ===== src/Input/Tests.antt =====
-- Two controllers on one desktop: the first presses the key A and goes, and the flush that follows
-- releases the key.
use labtether_agent.Common.{
  ℕ, ◌≤◌, ◌≡◌, ◌⊎◌, refl, true, false, none, some, Option, [], length, ok, err, Result,
  if◌then◌else◌,
}
use labtether_agent.Common.Int.{pos}
use labtether_agent.Common.Text.{Text, codes}
use labtether_agent.Common.Text.Compare.{member, same}
use labtether_agent.Common.Text.Distinct.{distinct, without}
use labtether_agent.Common.Text.Number.{decimal, digits_before, itoa}
use labtether_agent.Common.Text.Space.{is_space, trim_left, trim_right, trim_space}
use labtether_agent.Input.Capacity.{Reach-IsBounded}
use labtether_agent.Input.Effects.{held_any}
use labtether_agent.Input.Keys.{
  KeyTables, Kind, WebRtcInputEvent, held_input_key, keydown, other_kind, x11_key_argument, is_up,
}
use labtether_agent.Input.Maps.{has_id, has_key, remove_id, remove_key}
use labtether_agent.Input.Safety.{Reach-Tracked, Step-lifts_own}
use labtether_agent.Input.System.{
  Reach, Step, World, drains, after_flush, batch_of, before_flush, entered, leaving, lift, press,
  released, releasing, acquires, ends_flush, enters, here, initial, injecting, next, prepares,
  presses, reads_batch, releases, retires,
}
use labtether_agent.Input.Target.{
  Target, acquire, end_flush, forget_pending, has_input_capacity, keys_of, held_by_other,
  may_unlock, retire_held, retire_key, retire_owner, tracked_keys,
}
use labtether_agent.Input.Inject.{
  Plan, begin_inject, bind_event, finish_up, has_other_binding, prepare, reserve, unbind,
  InputError,
}
use labtether_agent.Input.Tracked.{Tracked}

run : Unit {0}
unfolding same member without distinct digits_before decimal itoa is_space trim_left trim_right
    trim_space held_input_key x11_key_argument remove_id remove_key acquire has_other_binding
    bind_event held_by_other tracked_keys has_input_capacity reserve unbind prepare begin_inject
    retire_key retire_held retire_owner forget_pending end_flush finish_up may_unlock held_any
run = tt

abbrev tables : KeyTables
tables = record {
  linux_input_code = λ code. none;
  code_keysym = λ code. if same code (codes "KeyA") then some (codes "a") else none;
  key_keysym = λ key. none;
  hexadecimal = λ n. [];
}

abbrev key_event : Kind → WebRtcInputEvent
key_event kind = record {
  x11_keycode = 0;
  kind = kind;
  key_code = pos 65;
  code = codes "KeyA";
  key = codes "a";
  x = pos 0;
  y = pos 0;
  button = pos 0;
  delta_y = pos 0;
}

-- The display server has the code 38 for the key.
abbrev resolver : WebRtcInputEvent → Result Text WebRtcInputEvent
resolver event = ok (record event { x11_keycode = 38 })

abbrev key_a : Text
key_a = codes "x11-keycode:38"

abbrev sends : ℕ → Kind → Target → Result (InputError Text) (Target × Plan)
sends owner kind t = begin_inject tables false (some resolver) owner (key_event kind) t

abbrev no_plan : Plan
no_plan = record {
  owner = 0;
  kind = other_kind;
  event = key_event other_kind;
  logical = [];
  key = [];
  skip = true;
}

abbrev target_of : Target → Result (InputError Text) (Target × Plan) → Target
target_of t (ok (u, p)) = u
target_of t (err why) = t

abbrev plan_of : Result (InputError Text) (Target × Plan) → Plan
plan_of (ok (u, p)) = p
plan_of (err why) = no_plan

-- The worlds that follow one another when an owner sends an event and its helpers succeed.
abbrev inside : ℕ → World → World
inside owner w = record w { gate = entered owner }

abbrev prepared : ℕ → Kind → World → World
prepared owner kind w = record w {
  target = target_of w.target (sends owner kind w.target);
  gate = before_flush (some (plan_of (sends owner kind w.target)));
}

abbrev reading : Option Plan → World → World
reading following w = record w { gate = releasing (batch_of w.target) following }

abbrev first_plan : Plan
first_plan = plan_of (sends 1 keydown (acquire 2 (acquire 1 initial.target)))

abbrev w_two : World
w_two = record initial { target = acquire 2 (acquire 1 initial.target) }

abbrev w_inside : World
w_inside = inside 1 w_two

abbrev w_prepared : World
w_prepared = prepared 1 keydown w_inside

abbrev w_reading : World
w_reading = reading (some first_plan) w_prepared

abbrev w_flushed : World
w_flushed = record w_reading {
  pressed = lift (λ k. has_key k w_prepared.target.pending) w_reading.pressed;
  gate = released (batch_of w_prepared.target) (some first_plan);
}

abbrev w_cleared : World
w_cleared = record w_flushed {
  target = end_flush (keys_of w_prepared.target.pending) w_flushed.target;
  gate = after_flush (some first_plan) 0;
}

abbrev w_down : World
w_down = record w_cleared { pressed = press key_a w_cleared.pressed; gate = leaving 0 }

abbrev w_retired : World
w_retired = record w_down { target = retire_owner 1 w_down.target }

two-Reach : Reach tables w_two
two-Reach =
    next (next here (acquires initial 1 refl))
      (acquires (record initial { target = acquire 1 initial.target }) 2 fresh)
  where
    fresh : has_id 2 (acquire 1 initial.target).owners ≡ false
    fresh = unfold acquire in refl

prepared-Reach : Reach tables w_prepared
unfolding run
prepared-Reach = next (next two-Reach (enters w_two 1 refl refl)) (
    prepares w_inside 1 false (some resolver) (key_event keydown) w_prepared.target first_plan refl
      refl)

down-Reach : Reach tables w_down
unfolding run
down-Reach =
    next
      (next
        (next (next prepared-Reach (reads_batch w_prepared (some first_plan) refl))
          (releases w_reading (batch_of w_prepared.target) (some first_plan) refl))
        (ends_flush w_flushed (batch_of w_prepared.target) (some first_plan) refl))
      (presses w_cleared first_plan 0 refl refl)

retired-Reach : Reach tables w_retired
unfolding run
retired-Reach = next down-Reach (retires w_down 1 refl)

-- The first owner presses the key and goes: its release is pending.
retires_debt :
    (w_retired.pressed key_a ≡ true)
    × (has_key key_a w_retired.target.pending ≡ true)
    × (held_any key_a w_retired.target ≡ false)
    × (w_retired.target.version ≡ 1)
unfolding run
retires_debt = (refl, refl, refl, refl)

Reach-Tracked_example : Tracked key_a w_retired.target w_retired.pressed
Reach-Tracked_example = Reach-Tracked tables key_a retired-Reach

Reach-IsBounded_example : length (tracked_keys w_retired.target) ≤ 2560
Reach-IsBounded_example = Reach-IsBounded tables retired-Reach

abbrev w_draining : World
w_draining = record w_retired { gate = before_flush none }

abbrev w_batch : World
w_batch = reading none w_draining

abbrev w_released : World
w_released = record w_batch {
  pressed = lift (λ k. has_key k w_retired.target.pending) w_batch.pressed;
  gate = released (batch_of w_retired.target) none;
}

batch-Reach : Reach tables w_batch
unfolding run
batch-Reach =
    next (next retired-Reach (drains w_retired 0 refl refl)) (reads_batch w_draining none refl)

release-Step : Step tables w_batch w_released
release-Step = releases w_batch (batch_of w_retired.target) none refl

key-down : w_batch.pressed key_a ≡ true
unfolding run
key-down = refl

key-up : w_released.pressed key_a ≡ false
unfolding run
key-up = refl

Step-lifts_own_example :
    (held_any key_a w_batch.target ≡ false)
    ⊎ ((p : Plan) × (attempted : ℕ) × (w_batch.gate ≡ injecting p attempted)
        × (is_up p.kind ≡ true)
        × (held_by_other key_a p.owner w_batch.target ≡ false))
Step-lifts_own_example = Step-lifts_own tables key_a batch-Reach release-Step key-down key-up
