-- ===== src/Input/Keys.antt =====
-- webrtc_input.go and webrtc_input_lifecycle.go: events and the physical input that an event presses
-- or releases. The tables of webrtc_keymap.go are a parameter.
use labtether_agent.Common.{
  ℕ, Bool, true, false, not, ◌++◌, Option, none, some, [], if◌then◌else◌, ◌==◌, ltb,
}
use labtether_agent.Common.Int.{ℤ, pos, negsuc}
use labtether_agent.Common.Text.{Text, codes}
use labtether_agent.Common.Text.Number.{itoa, decimal}
use labtether_agent.Common.Text.Space.{trim_space}

-- `Type` of an event, in lower case; any other text is a move, a wheel step, or unknown.
pub data Kind : Type 0 where
  keydown keyup mousedown mouseup other_kind : Kind

pub record WebRtcInputEvent : Type 0 where
  pub x11_keycode : ℕ
  pub kind : Kind
  pub key_code : ℤ
  pub code : Text
  pub key : Text
  pub x : ℤ
  pub y : ℤ
  pub button : ℤ
  pub delta_y : ℤ

-- DomCodeToLinuxInputCode, DomCodeToX11Keysym and DomKeyToX11Keysym; `hexadecimal` is the verb %x.
pub record KeyTables : Type 0 where
  pub linux_input_code : Text → Option ℕ
  pub code_keysym : Text → Option Text
  pub key_keysym : Text → Option Text
  pub hexadecimal : ℕ → Text

abbrev pub is_down : Kind → Bool
is_down keydown = true
is_down mousedown = true
is_down _ = false

abbrev pub is_up : Kind → Bool
is_up keyup = true
is_up mouseup = true
is_up _ = false

-- The kind of event that undoes a press.
abbrev pub release_kind : Kind → Kind
release_kind keydown = keyup
release_kind _ = mouseup

module _ (tables : KeyTables) where
  abbrev numeric_key : ℤ → Option Text
  numeric_key (negsuc n) = none
  numeric_key (pos n) = if ltb 0 n then some (codes "0x" ++ tables.hexadecimal n) else none

  abbrev or_else : Option Text → Option Text → Option Text
  or_else none next = next
  or_else (some found) next = some found

  unfoldable pub x11_key_argument : WebRtcInputEvent → Option Text
  x11_key_argument evt =
      or_else (tables.code_keysym (trim_space evt.code))
        (or_else (tables.key_keysym (trim_space evt.key)) (numeric_key evt.key_code))

  abbrev named : Option Text → Text
  named none = []
  named (some key) = codes "key:" ++ key

  abbrev linux_name : Option ℕ → Option Text
  linux_name none = none
  linux_name (some code) = some (decimal code)

  abbrev key_name : Bool → WebRtcInputEvent → Text
  key_name wayland evt =
      if not (evt.x11_keycode == 0)
      then codes "x11-keycode:" ++ decimal evt.x11_keycode
      else if wayland
      then named (linux_name (tables.linux_input_code (trim_space evt.code)))
      else named (x11_key_argument evt)

  -- `webRTCHeldInputKey`; the first argument tells a Wayland session
  unfoldable pub held_input_key : Bool → WebRtcInputEvent → Text
  held_input_key wayland evt = elim evt.kind [
    | mousedown ↦ codes "button:" ++ itoa evt.button
    | mouseup ↦ codes "button:" ++ itoa evt.button
    | keydown ↦ key_name wayland evt
    | keyup ↦ key_name wayland evt
    | other_kind ↦ []
  ]
