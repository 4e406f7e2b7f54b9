-- ===== src/Settings/Running.antt =====
-- settings_runtime.go: the part of the runtime that the hub's settings change, and the forms of an
-- assignment.
use labtether_agent.Common.{ℕ, ◌-◌, ◌*◌, ◌%◌, ◌^◌, ltb, Bool, false, none, some, if◌then◌else◌}
use labtether_agent.Common.Int.{ℤ, pos, negsuc}
use labtether_agent.Common.Text.{Text}
use labtether_agent.Common.Text.Case.{CaseTables, equal_fold}
use labtether_agent.Common.Text.Compare.{same}
use labtether_agent.Common.Text.Number.{atoi}
use labtether_agent.Common.Text.Space.{trim_space}
use labtether_agent.Command.Env.{bool_or, parse_bool}
use labtether_agent.Settings.Reported.{ConfigSnapshot}

-- The fields of the runtime that the settings touch; `pinned` is `envPinnedSettings`.
pub record Running : Type 0 where
  pub cfg : ConfigSnapshot
  pub base_collect_interval : ℤ
  pub base_heartbeat_interval : ℤ
  pub collect_override : ℤ
  pub heartbeat_override : ℤ
  pub pinned : Text → Bool

-- `seconds, _ := strconv.Atoi(normalized)`: 0 on an error
abbrev pub int_value : Text → ℤ
int_value v = elim (atoi v) [ none ↦ pos 0 | some n ↦ n ]

-- `enabled, _ := strconv.ParseBool(normalized)`
abbrev pub bool_value : Text → Bool
bool_value v = bool_or (parse_bool v) false

-- A time.Duration is an int64: its bit pattern, and the number that a pattern stands for.
abbrev pub int64_bits : ℤ → ℕ
int64_bits (pos n) = n % 2 ^ 64
int64_bits (negsuc n) = 2 ^ 64 - 1 - n % 2 ^ 64

abbrev pub signed64 : ℕ → ℤ
signed64 w = if ltb w (2 ^ 63) then pos w else negsuc (2 ^ 64 - 1 - w)

-- time.Duration(seconds) * time.Second, which wraps
unfoldable pub seconds : ℤ → ℤ
seconds z = signed64 (int64_bits z * 1000000000 % 2 ^ 64)

-- An assignment under `if strings.TrimSpace(old) != normalized`.
unfoldable pub update_text : Text → Text → Text
update_text old v = if same (trim_space old) v then old else v

-- An assignment under `if !strings.EqualFold(strings.TrimSpace(old), normalized)`.
unfoldable pub update_enum : CaseTables → Text → Text → Text
update_enum tables old v = if equal_fold tables (trim_space old) v then old else v
