-- ===== src/Input/Inject.antt =====
-- webrtc_input_ownership.go: `inject` around its calls of flush and of the helper program.
use labtether_agent.Common.{
  ℕ, Bool, true, false, not, ◌&&◌, ◌||◌, [], ◌∷◌, Option, none, some, if◌then◌else◌, length, leb,
  Result, ok, err, ◌>>=◌,
}
use labtether_agent.Common.Text.{Text}
use labtether_agent.Common.Text.Compare.{same}
use labtether_agent.Common.Text.Space.{is_blank}
use labtether_agent.Input.Keys.{
  Kind, WebRtcInputEvent, KeyTables, held_input_key, is_down, is_up, release_kind,
}
use labtether_agent.Input.Maps.{has_key, lookup, put, remove_key}
use labtether_agent.Input.Target.{
  Inputs, Target, max_held_inputs, at_owner, held_by_other, has_input_capacity,
}

pub data InputError (E : Type 0) : Type 0 where
  too_many_held too_many_awaiting : InputError E
  unresolved_input : E → InputError E

-- What the critical section of `inject` leaves to do.
pub record Plan : Type 0 where
  pub owner : ℕ
  pub kind : Kind
  pub event : WebRtcInputEvent
  pub logical : Text
  pub key : Text
  pub skip : Bool

abbrev pub release_of : WebRtcInputEvent → WebRtcInputEvent
release_of event = record event { kind = release_kind event.kind }

-- a release that is not to be made forgets the binding
unfoldable pub unbind : ℕ → Text → Text → Bool → Target → Target
unbind owner logical key forget t = record t {
  held = if forget then at_owner owner (remove_key key (t.held owner)) t.held else t.held;
  bindings = at_owner owner (remove_key logical (t.bindings owner)) t.bindings;
}

abbrev plan : ℕ → Kind → WebRtcInputEvent → Text → Text → Bool → Plan
plan owner kind event logical key skip = record {
  owner = owner;
  kind = kind;
  event = event;
  logical = logical;
  key = key;
  skip = skip;
}

module _ (tables : KeyTables) (wayland : Bool) where
  unfoldable pub has_other_binding : Text → Text → Inputs → Bool
  has_other_binding logical physical [] = false
  has_other_binding logical physical ((key, event) ∷ m) =
      (not (same key logical) && same (held_input_key tables wayland event) physical)
      || has_other_binding logical physical m

  module _ {E : Type 0} where
    abbrev resolve :
        Option (WebRtcInputEvent → Result E WebRtcInputEvent)
        → WebRtcInputEvent
        → Result (InputError E) WebRtcInputEvent
    resolve none event = ok event
    resolve (some resolver) event = elim (resolver event) [
      | ok resolved ↦ ok resolved
      | err why ↦ err (unresolved_input why)
    ]

    -- The event with the code that the press was bound to, or as the resolver gives it.
    unfoldable pub bind_event :
        Option (WebRtcInputEvent → Result E WebRtcInputEvent)
        → Inputs
        → WebRtcInputEvent
        → Result (InputError E) WebRtcInputEvent
    bind_event resolver bindings event =
        let resolved = resolve resolver event in
        elim (lookup (held_input_key tables wayland event) bindings) [
          | some bound ↦
              if is_down event.kind || is_up event.kind
              then ok (record event { x11_keycode = bound.x11_keycode })
              else resolved
          | none ↦ if is_up event.kind then ok event else resolved
        ]

    -- the press is recorded before it is made
    unfoldable pub reserve :
        ℕ → Text → WebRtcInputEvent → Text → Target → Result (InputError E) Target
    reserve owner logical event key t =
        if not (has_key logical (t.bindings owner))
          && leb max_held_inputs (length (t.bindings owner))
        then err too_many_held
        else if not (has_input_capacity key t)
        then err too_many_awaiting
        else ok (record t {
          held = at_owner owner (put key (release_of event) (t.held owner)) t.held;
          bindings = at_owner owner (put logical (release_of event) (t.bindings owner)) t.bindings;
          pending = remove_key key t.pending;
        })

    abbrev with_plan : Plan → Result (InputError E) Target → Result (InputError E) (Target × Plan)
    with_plan p (ok t) = ok (t, p)
    with_plan p (err why) = err why

    -- the critical section of `inject`, for the event that `bind_event` gave; `logical` is the key
    -- and `kind` the kind of the event before
    unfoldable pub prepare :
        ℕ → Kind → Text → WebRtcInputEvent → Target → Result (InputError E) (Target × Plan)
    prepare owner kind logical event t =
        let key = held_input_key tables wayland event in
        let owns = has_key logical (t.bindings owner) in
        let skip = is_up kind && not owns in
        let another = has_other_binding logical key (t.bindings owner) in
        let stays = skip || another || held_by_other key owner t in
        if is_blank key
        then ok (t, plan owner kind event logical key skip)
        else if is_down kind
        then with_plan (plan owner kind event logical key skip) (reserve owner logical event key t)
        else if is_up kind
        then if stays
          then ok (
            unbind owner logical key (not another && owns) t,
            plan owner kind event logical key true,
          )
          else ok (t, plan owner kind event logical key false)
        else ok (t, plan owner kind event logical key skip)

-- behind a release that was made
unfoldable pub finish_up : Plan → Target → Target
finish_up p t = record t {
  held = at_owner p.owner (remove_key p.key (t.held p.owner)) t.held;
  bindings = at_owner p.owner (remove_key p.logical (t.bindings p.owner)) t.bindings;
}

-- `inject` from the lock up to the end of its critical section. What it reads before that section,
-- the bindings, only this owner changes.
unfoldable pub begin_inject :
    {E : Type 0}
    → KeyTables
    → Bool
    → Option (WebRtcInputEvent → Result E WebRtcInputEvent)
    → ℕ
    → WebRtcInputEvent
    → Target
    → Result (InputError E) (Target × Plan)
begin_inject tables wayland resolver owner wire t = do
  event ← bind_event tables wayland resolver (t.bindings owner) wire
  prepare tables wayland owner wire.kind (held_input_key tables wayland wire) event t
