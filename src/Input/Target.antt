-- ===== src/Input/Target.antt =====
-- webrtc_input_ownership.go: the state of one target and its critical sections. An owner is known by
-- a number where the code has its address; `owners` are the live ones, and `held` and `bindings` give
-- the maps of each.
use labtether_agent.Common.{
  ℕ, ◌+◌, ◌*◌, ◌%◌, ◌^◌, Bool, true, false, ◌||◌, ◌++◌, List, [], ◌∷◌, if◌then◌else◌, any, length,
  ltb, ◌==◌,
}
use labtether_agent.Common.Text.{Text}
use labtether_agent.Common.Text.Compare.{member}
use labtether_agent.Common.Text.Distinct.{distinct}
use labtether_agent.Input.Keys.{WebRtcInputEvent}
use labtether_agent.Input.Maps.{has_key, put, remove_key, has_id, remove_id, other}

abbrev pub Inputs : Type 0
Inputs = List (Text × WebRtcInputEvent)

pub record Target : Type 0 where
  pub owners : List ℕ
  pub held : ℕ → Inputs
  pub bindings : ℕ → Inputs
  pub pending : Inputs
  pub version : ℕ

abbrev pub max_held_inputs : ℕ
max_held_inputs = 256

abbrev pub max_sessions : ℕ
max_sessions = 10

-- The map of one owner is replaced.
abbrev pub at_owner : ℕ → Inputs → (ℕ → Inputs) → ℕ → Inputs
at_owner id inputs maps i = if id == i then inputs else maps i

abbrev pub holds : Text → Target → ℕ → Bool
holds key t i = has_key key (t.held i)

unfoldable pub held_by_other : Text → ℕ → Target → Bool
held_by_other key owner t = any (other owner (holds key t)) t.owners

abbrev pub keys_of : Inputs → List Text
keys_of [] = []
keys_of ((key, event) ∷ m) = key ∷ keys_of m

abbrev pub held_keys : Target → List ℕ → List Text
held_keys t [] = []
held_keys t (i ∷ ids) = keys_of (t.held i) ++ held_keys t ids

-- the set `keys`, as the list of its members
unfoldable pub tracked_keys : Target → List Text
tracked_keys t = distinct (keys_of t.pending ++ held_keys t t.owners)

unfoldable pub has_input_capacity : Text → Target → Bool
has_input_capacity key t =
    member key (tracked_keys t) || ltb (length (tracked_keys t)) (max_held_inputs * max_sessions)

-- `acquire`, from the new owner on
unfoldable pub acquire : ℕ → Target → Target
acquire owner t = record t {
  owners = owner ∷ t.owners;
  held = at_owner owner [] t.held;
  bindings = at_owner owner [] t.bindings;
}

-- one round of the loop of `retire`
unfoldable pub retire_key : ℕ → Text → WebRtcInputEvent → Target → Target
retire_key owner key event t =
    if held_by_other key owner t
    then t
    else record t { pending = put key event t.pending; version = (t.version + 1) % 2 ^ 64 }

-- the loop of `retire` over what the owner holds
unfoldable pub retire_held : ℕ → Inputs → Target → Target
retire_held owner [] t = t
retire_held owner ((key, event) ∷ m) t = retire_held owner m (retire_key owner key event t)

-- `t.owners[o]`, where nil has no entries
abbrev pub owners_map : ℕ → Target → Inputs
owners_map owner t = if has_id owner t.owners then t.held owner else []

unfoldable pub retire_owner : ℕ → Target → Target
retire_owner owner t =
    let debt = retire_held owner (owners_map owner t) t in
    record debt { owners = remove_id owner debt.owners }

-- the last critical section of `flush`
unfoldable pub forget_pending : List Text → Inputs → Inputs
forget_pending [] pending = pending
forget_pending (key ∷ keys) pending = forget_pending keys (remove_key key pending)

unfoldable pub end_flush : List Text → Target → Target
end_flush keys t = record t { pending = forget_pending keys t.pending }

abbrev pub no_inputs : Inputs → Bool
no_inputs [] = true
no_inputs (p ∷ m) = false

-- `unlock` ends its loop and opens the gate
unfoldable pub may_unlock : ℕ → Bool → Target → Bool
may_unlock attempted expired t = no_inputs t.pending || t.version == attempted || expired
