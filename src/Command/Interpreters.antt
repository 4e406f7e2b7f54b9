-- ===== src/Command/Interpreters.antt =====
-- A rule for an interpreter lets no argument through that it does not list.
use labtether_agent.Common.{
  ◌≡◌, ◌≤◌, ◌⊎◌, refl, Bool, true, false, not, ◌&&◌, ◌||◌, inl, inr, List, [], ◌∷◌, arith, ◌==◌,
  ==_iff, leb, ltb, if◌then◌else◌, Bool-cases, All, all, length, drop, get_or, Result, ok, err,
  ◌>>=◌, or-false,
}
use labtether_agent.Common.Text.{Text}
use labtether_agent.Common.Text.Case.{CaseTables}
use labtether_agent.Common.Text.Search.{has_prefix}
use labtether_agent.Common.Text.Space.{is_blank, trim_space}
use labtether_agent.Command.Rules.{
  ProbeError, check_values, command_args_have_prefix, exact_shell_rule_prefix, fold_prefix,
  is_cmd_echo, is_command_interpreter, is_probe_rune, rule_args, shell_rule_matches,
  validate_windows_cmd_echo,
}

-- The values of an echo probe: at least one character each, ASCII letters, digits and ". _ - :".
abbrev pub ProbeValues : List Text → Type 0
ProbeValues args = All (λ arg. (is_blank arg ≡ false) × (all is_probe_rune arg ≡ true)) args

check_values-ProbeValues : (args : List Text) → check_values args ≡ ok tt → ProbeValues args
check_values-ProbeValues [] h = tt
check_values-ProbeValues (arg ∷ args) h = elim (Bool-cases (is_blank arg)) [
  | inl b ↦ absurd (ground arith)
  | inr b ↦ elim (Bool-cases (all is_probe_rune arg)) [
    | inl v ↦ ((b, v), check_values-ProbeValues args (ground arith))
    | inr v ↦ absurd (ground arith)
  ]
]

long_enough : (args : List Text) → ltb (length args) 4 ≡ false → 4 ≤ length args
long_enough args h = ground arith

not-false : {b : Bool} → not b ≡ false → b ≡ true
not-false {b} h = ground arith

module _ (tables : CaseTables) where
  -- `cmd /c echo` and at least one value that may be echoed.
  abbrev pub IsEchoProbe : List Text → Type 0
  IsEchoProbe args =
      (4 ≤ length args) × (is_cmd_echo tables args ≡ true) × ProbeValues (drop 3 args)

  pub validate_windows_cmd_echo-IsEchoProbe :
      (args : List Text) → validate_windows_cmd_echo tables args ≡ ok tt → IsEchoProbe args
  unfolding validate_windows_cmd_echo
  validate_windows_cmd_echo-IsEchoProbe args h =
      elim (Bool-cases (ltb (length args) 4 || not (is_cmd_echo tables args))) [
        | inl short ↦ absurd (ground arith)
        | inr long ↦
            let (n, e) = or-false long in
            (long_enough args n, not-false e, check_values-ProbeValues (drop 3 args) (ground arith))
      ]

  command_args_have_prefix-fold :
      (args words : List Text)
      → command_args_have_prefix tables args words ≡ true
      → fold_prefix tables args words ≡ true
  unfolding command_args_have_prefix
  command_args_have_prefix-fold args words h = ground arith

  -- The branches of the match, the tests as Booleans.
  branches-true :
      (prefixed echo open_ended : Bool) (probe : Result ProbeError (Unit {0}))
      → (if not prefixed
          then ok false
          else if echo
          then (do _ ← probe; ok true)
          else if open_ended
          then ok false
          else ok true)
        ≡ ok true
      → (prefixed ≡ true) × ((probe ≡ ok tt) ⊎ (open_ended ≡ false))
  branches-true true echo open_ended (ok u) h = (refl, inl refl)
  branches-true true echo open_ended (err why) h = (refl, inr (ground arith))
  branches-true false echo open_ended probe h = cc

  closed :
      {same_length guarded : Bool}
      → (not same_length && guarded) ≡ false
      → (same_length ≡ true) ⊎ (guarded ≡ false)
  closed {same_length} {guarded} h = ground arith

  -- When a rule matches, the command begins with the rule's words, case ignored. If the rule is
  -- exact, or its program is an interpreter, then the command has no word more, except for an echo
  -- probe.
  pub shell_rule_matches-closed :
      (args : List Text) (rule : Text)
      → shell_rule_matches tables args rule ≡ ok true
      → (fold_prefix tables args (rule_args tables rule) ≡ true)
        × ((length args ≡ length (rule_args tables rule))
            ⊎ (((has_prefix (trim_space rule) exact_shell_rule_prefix
                    || is_command_interpreter tables (get_or (rule_args tables rule) 0 []))
                  ≡ false)
                ⊎ IsEchoProbe args))
  unfolding shell_rule_matches
  shell_rule_matches-closed args rule h =
      let words = rule_args tables rule in
      let exact = has_prefix (trim_space rule) exact_shell_rule_prefix in
      let open_ended =
        not (length args == length words)
        && (exact || is_command_interpreter tables (get_or words 0 [])) in
      let (p, r) =
        branches-true (command_args_have_prefix tables args words)
          (not exact && leb 3 (length words) && is_cmd_echo tables words) open_ended
          (validate_windows_cmd_echo tables args) h in
      (
        command_args_have_prefix-fold args (rule_args tables rule) p,
        elim r [
          | inl probe ↦ inr (inr (validate_windows_cmd_echo-IsEchoProbe args probe))
          | inr e ↦ elim (closed e) [
            | inl n ↦ inl ((==_iff (length args) (length (rule_args tables rule))).0 n)
            | inr g ↦ inr (inl g)
          ]
        ],
      )
