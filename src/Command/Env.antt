-- ===== src/Command/Env.antt =====
-- Settings of the policy: environment variables, and the overrides of the running agent, which come
-- first. The process environment is a parameter.
use labtether_agent.Common.{
  Bool, true, false, Option, none, some, List, [], ◌∷◌, map, if◌then◌else◌,
}
use labtether_agent.Common.Text.{Text, codes}
use labtether_agent.Common.Text.Compare.{same, member}
use labtether_agent.Common.Text.Space.{is_blank, trim_space}
use labtether_agent.Common.Text.Search.{split, is_some}

-- `runtimeEnvOverridesState.values`, nil as `none`, what os.LookupEnv finds, and what
-- os.Environ returns.
pub record Environment : Type 0 where
  pub overrides : Option (List (Text × Text))
  pub process : Text → Option Text
  pub entries : List Text

abbrev pub lookup_pair : Text → List (Text × Text) → Option Text
lookup_pair key [] = none
lookup_pair key ((k, v) ∷ pairs) = if same k key then some v else lookup_pair key pairs

-- the loop of `SetRuntimeEnvOverrides`; the later of two equal keys is found first
abbrev clone_from : List (Text × Text) → List (Text × Text) → List (Text × Text)
clone_from cloned [] = cloned
clone_from cloned ((k, v) ∷ values) =
    clone_from (if is_blank (trim_space k) then cloned else (trim_space k, trim_space v) ∷ cloned)
      values

abbrev non_nil : List (Text × Text) → Option (List (Text × Text))
non_nil [] = none
non_nil (p ∷ ps) = some (p ∷ ps)

unfoldable pub set_runtime_env_overrides : List (Text × Text) → Environment → Environment
set_runtime_env_overrides values env = record env { overrides = non_nil (clone_from [] values) }

abbrev or_process : Environment → Text → Option Text → Option Text
or_process env key none = env.process key
or_process env key (some v) = some v

abbrev overriding : Environment → Text → Option Text
overriding env key = elim env.overrides [ none ↦ none | some pairs ↦ lookup_pair key pairs ]

unfoldable pub lookup_env : Environment → Text → Option Text
lookup_env env key = or_process env key (overriding env key)

abbrev pub or_empty : Option Text → Text
or_empty none = []
or_empty (some v) = v

-- strconv.ParseBool
unfoldable pub parse_bool : Text → Option Bool
unfolding member
parse_bool s =
    if member s (map codes ("1" ∷ "t" ∷ "T" ∷ "true" ∷ "TRUE" ∷ "True" ∷ []))
    then some true
    else if member s (map codes ("0" ∷ "f" ∷ "F" ∷ "false" ∷ "FALSE" ∷ "False" ∷ []))
    then some false
    else none

abbrev pub bool_or : Option Bool → Bool → Bool
bool_or none fallback = fallback
bool_or (some b) fallback = b

unfoldable pub parse_bool_env : Environment → Text → Bool → Bool
unfolding lookup_env parse_bool
parse_bool_env env key fallback =
    let raw = trim_space (or_empty (lookup_env env key)) in
    if is_blank raw then fallback else bool_or (parse_bool raw) fallback

-- `parseBoolEnvWithPresence`: the value, and whether the variable decides it
unfoldable pub parse_bool_env_with_presence : Environment → Text → Bool → Bool × Bool
unfolding lookup_env parse_bool
parse_bool_env_with_presence env key fallback =
    let raw = trim_space (or_empty (lookup_env env key)) in
    if is_blank raw
    then (fallback, false)
    else (bool_or (parse_bool raw) fallback, is_some (lookup_env env key))

abbrev pub trimmed_parts : List Text → List Text
trimmed_parts [] = []
trimmed_parts (part ∷ parts) =
    let rest = trimmed_parts parts in
    if is_blank (trim_space part) then rest else trim_space part ∷ rest

abbrev list_or : List Text → List Text → List Text
list_or [] fallback = fallback
list_or (x ∷ xs) fallback = x ∷ xs

unfoldable pub parse_csv_env : Environment → Text → List Text → List Text
unfolding lookup_env
parse_csv_env env key fallback =
    let raw = trim_space (or_empty (lookup_env env key)) in
    if is_blank raw then fallback else list_or (trimmed_parts (split raw b',')) fallback
