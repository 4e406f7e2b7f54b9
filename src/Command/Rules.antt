-- ===== src/Command/Rules.antt =====
-- Allowlist rules: executable names, rule prefixes and the `cmd /c echo` probe of command_parse.go.
use labtether_agent.Common.{
  ℕ, Bool, true, false, not, ◌&&◌, ◌||◌, List, [], ◌∷◌, map, leb, ltb, ◌==◌, if◌then◌else◌, length,
  all, any, drop, get_or, Result, ok, err, ◌>>=◌,
}
use labtether_agent.Common.Text.{Text, codes}
use labtether_agent.Common.Text.Case.{CaseTables, to_lower, equal_fold}
use labtether_agent.Common.Text.Compare.{same, member}
use labtether_agent.Common.Text.FilePath.{base}
use labtether_agent.Common.Text.Space.{is_blank, trim_space, fields}
use labtether_agent.Common.Text.Search.{has_prefix, trim_prefix, trim_suffix, join}
use labtether_agent.Command.Parse.{parse_command_line}

-- strings.ReplaceAll(s, "\\", "/")
abbrev pub slashed : Text → Text
slashed s = map (λ c. if c == b'\\' then b'/' else c) s

abbrev pub exact_shell_rule_prefix : Text
exact_shell_rule_prefix = codes "="

abbrev pub interpreters : List Text
interpreters =
    map codes
      ("sh" ∷ "bash" ∷ "zsh" ∷ "dash" ∷ "ash" ∷ "cmd" ∷ "powershell" ∷ "pwsh" ∷ "osascript" ∷ [])

-- A character of an echo probe: an ASCII letter or digit, or one of ". _ - :".
abbrev pub is_probe_rune : ℕ → Bool
is_probe_rune c =
    (leb b'a' c && leb c b'z')
    || (leb b'A' c && leb c b'Z')
    || (leb b'0' c && leb c b'9')
    || c == b'.'
    || c == b'_'
    || c == b'-'
    || c == b':'

pub data ProbeError : Type 0 where
  not_echo empty_value bad_value : ProbeError

abbrev pub check_values : List Text → Result ProbeError (Unit {0})
check_values [] = ok tt
check_values (arg ∷ args) =
    if is_blank arg
    then err empty_value
    else if not (all is_probe_rune arg)
    then err bad_value
    else check_values args

-- whole-word search in a normalized command
unfoldable pub contains_command_token : Text → Text → Bool
contains_command_token normalized token = any (λ word. same word token) (fields normalized)

module _ (tables : CaseTables) where
  unfoldable pub normalize_executable_name : Text → Text
  normalize_executable_name name =
      let trimmed = trim_space name in
      let last = trim_space (base (slashed trimmed)) in
      let normalized = to_lower tables last in
      if is_blank trimmed
      then []
      else if is_blank last
      then []
      else trim_suffix normalized (codes ".exe")

  unfoldable pub normalize_shell_command : Text → Text
  normalize_shell_command raw = join (fields (to_lower tables (trim_space raw))) (codes " ")

  abbrev pub fold_prefix : List Text → List Text → Bool
  fold_prefix args [] = true
  fold_prefix [] (p ∷ prefix) = false
  fold_prefix (a ∷ args) (p ∷ prefix) = equal_fold tables a p && fold_prefix args prefix

  unfoldable pub command_args_have_prefix : List Text → List Text → Bool
  command_args_have_prefix args prefix =
      if length prefix == 0 || ltb (length args) (length prefix)
      then false
      else fold_prefix args prefix

  unfoldable pub is_command_interpreter : Text → Bool
  unfolding member
  is_command_interpreter program = member (normalize_executable_name program) interpreters

  -- `cmd`, `/c`, `echo`, the case of the last two ignored
  abbrev pub is_cmd_echo : List Text → Bool
  is_cmd_echo words =
      same (normalize_executable_name (get_or words 0 [])) (codes "cmd")
      && equal_fold tables (get_or words 1 []) (codes "/c")
      && equal_fold tables (get_or words 2 []) (codes "echo")

  unfoldable pub validate_windows_cmd_echo : List Text → Result ProbeError (Unit {0})
  validate_windows_cmd_echo args =
      if ltb (length args) 4 || not (is_cmd_echo args)
      then err not_echo
      else check_values (drop 3 args)

  -- The rule without its `=`, as an argument vector.
  unfoldable pub rule_args : Text → List Text
  rule_args rule =
      elim (parse_command_line (trim_prefix (trim_space rule) exact_shell_rule_prefix)) [
        | ok words ↦ words
        | err e ↦ []
      ]

  -- `shellRuleMatches`; a rule that does not parse has no arguments, which match nothing.
  unfoldable pub shell_rule_matches : List Text → Text → Result ProbeError Bool
  shell_rule_matches args rule =
      let exact = has_prefix (trim_space rule) exact_shell_rule_prefix in
      let words = rule_args rule in
      if not (command_args_have_prefix args words)
      then ok false
      else if not exact && leb 3 (length words) && is_cmd_echo words
      then (do _ ← validate_windows_cmd_echo args; ok true)
      else if not (length args == length words)
          && (exact || is_command_interpreter (get_or words 0 []))
      then ok false
      else ok true
