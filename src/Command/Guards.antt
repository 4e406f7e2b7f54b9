-- ===== src/Command/Guards.antt =====
-- What the policy guarantees of every command that it passes.
use labtether_agent.Common.{
  ◌≡◌, ◌↔◌, ◌⊎◌, refl, Bool, true, false, inl, inr, List, [], ◌∷◌, arith, any, All, ok, outcome,
  Bool-cases, or-false,
}
use labtether_agent.Common.Text.{Text, codes}
use labtether_agent.Common.Text.Case.{CaseTables}
use labtether_agent.Common.Text.Compare.{member}
use labtether_agent.Common.Text.Space.{is_blank}
use labtether_agent.Common.Text.Search.{join}
use labtether_agent.Command.Env.{Environment, parse_bool_env, parse_csv_env}
use labtether_agent.Command.ReadOnly.{Files, validate_read_only_command}
use labtether_agent.Command.Rules.{
  normalize_executable_name, normalize_shell_command, shell_rule_matches,
}
use labtether_agent.Command.Policy.{
  blocked_binaries, allowed_binaries, validate_exec_binary, substring_blocks, token_blocks,
  read_only_part, first_rule, check_args, default_shell_blocked_substrings,
  default_shell_blocked_tokens, default_shell_allowlist_prefixes, env_exec_allowlist_mode,
  env_exec_allowlist_accept_risk, env_shell_allowlist_mode, env_shell_allowlist_accept_risk,
  env_shell_allowlist_prefixes, env_shell_blocked_substrings,
}

-- No entry of the list passes the test.
abbrev pub NoneOf : (Text → Bool) → List Text → Type 0
NoneOf test xs = All (λ x. test x ≡ false) xs

pub NoneOf-any : (test : Text → Bool) (xs : List Text) → any test xs ≡ false → NoneOf test xs
NoneOf-any test [] h = tt
NoneOf-any test (x ∷ xs) h = let (a, b) = or-false h in (a, NoneOf-any test xs b)

NoneOf-of_any : (test : Text → Bool) (xs : List Text) → NoneOf test xs → any test xs ≡ false
NoneOf-of_any test [] h = refl
NoneOf-of_any test (x ∷ xs) (p, h) = let rest = NoneOf-of_any test xs h in ground arith

module _ (tables : CaseTables) (env : Environment) where
  -- A binary passes exactly when its normalized name is not empty and not blocked, and either it is
  -- allowed or the operator has switched the allowlist off and accepted the risk.
  pub validate_exec_binary-member_iff :
      (name : Text)
      → let normalized = normalize_executable_name tables name in
        let mode = parse_bool_env env env_exec_allowlist_mode true in
        let risk = parse_bool_env env env_exec_allowlist_accept_risk false in
        (validate_exec_binary tables env name ≡ ok tt) ↔ (
          (is_blank normalized ≡ false)
          × (member normalized (blocked_binaries tables env) ≡ false)
          × (((mode ≡ true) × (member normalized (allowed_binaries tables env) ≡ true))
              ⊎ ((mode ≡ false) × (risk ≡ true))))
  unfolding validate_exec_binary
  validate_exec_binary-member_iff name = ((λ h. ground arith), (λ h. ground arith))

  module _ (files : Files) where
    -- The first rule that matches lets the command through to the read-only checks, which it passes.
    pub data RuleAllows (args : List Text) : List Text → Type 0 where
      here :
          {rule : Text} {rules : List Text}
          → shell_rule_matches tables args rule ≡ ok true
          → validate_read_only_command tables files args ≡ ok tt
          → RuleAllows args (rule ∷ rules)
      later :
          {rule : Text} {rules : List Text}
          → shell_rule_matches tables args rule ≡ ok false
          → RuleAllows args rules
          → RuleAllows args (rule ∷ rules)

    read_only_part-ok :
        (args : List Text)
        → read_only_part tables env files args ≡ ok tt
        → validate_read_only_command tables files args ≡ ok tt
    unfolding read_only_part
    read_only_part-ok args h = ground arith

    first_rule-RuleAllows :
        (args rules : List Text)
        → first_rule tables env files args rules ≡ ok tt
        → RuleAllows args rules
    unfolding first_rule
    first_rule-RuleAllows args [] h = cc
    first_rule-RuleAllows args (rule ∷ rules) h =
        elim (outcome (shell_rule_matches tables args rule)) [
          | inr (why, m) ↦ absurd (ground arith)
          | inl (true, m) ↦ here m (read_only_part-ok args (ground arith))
          | inl (false, m) ↦ later m (first_rule-RuleAllows args rules (ground arith))
        ]

    RuleAllows-first_rule :
        (args : List Text) {rules : List Text}
        → RuleAllows args rules
        → first_rule tables env files args rules ≡ ok tt
    unfolding first_rule read_only_part
    RuleAllows-first_rule args (here m r) = ground arith
    RuleAllows-first_rule args (later m a) = let rest = RuleAllows-first_rule args a in ground arith

    -- What the policy asks of an argument vector.
    abbrev pub Passes : List Text → Type 0
    Passes args =
        let normalized = normalize_shell_command tables (join args (codes " ")) in
        let mode = parse_bool_env env env_shell_allowlist_mode true in
        let risk = parse_bool_env env env_shell_allowlist_accept_risk false in
        NoneOf (substring_blocks tables env normalized)
          (parse_csv_env env env_shell_blocked_substrings default_shell_blocked_substrings)
        × NoneOf (token_blocks tables env normalized) default_shell_blocked_tokens
        × (((mode ≡ true)
              × RuleAllows args
                  (parse_csv_env env env_shell_allowlist_prefixes default_shell_allowlist_prefixes))
            ⊎ ((mode ≡ false) × (risk ≡ true)))

    pub check_args-Passes :
        (args : List Text) → check_args tables env files args ≡ ok tt → Passes args
    unfolding check_args
    check_args-Passes args h =
        let normalized = normalize_shell_command tables (join args (codes " ")) in
        let substrings =
          parse_csv_env env env_shell_blocked_substrings default_shell_blocked_substrings in
        elim (Bool-cases (any (substring_blocks tables env normalized) substrings)) [
          | inl s ↦ absurd (ground arith)
          | inr s ↦
              elim (Bool-cases
                (any (token_blocks tables env normalized) default_shell_blocked_tokens)) [
                  | inl t ↦ absurd (ground arith)
                  | inr t ↦ (
                    NoneOf-any (substring_blocks tables env normalized) substrings s,
                    NoneOf-any (token_blocks tables env normalized) default_shell_blocked_tokens t,
                    elim (Bool-cases (parse_bool_env env env_shell_allowlist_mode true)) [
                      | inl on ↦ inl (on, first_rule-RuleAllows args _ (ground arith))
                      | inr off ↦ inr (off, ground arith)
                    ],
                  )
                ]
        ]

    pub Passes-check_args :
        (args : List Text) → Passes args → check_args tables env files args ≡ ok tt
    unfolding check_args
    Passes-check_args args (s, t, m) =
        let normalized = normalize_shell_command tables (join args (codes " ")) in
        let substrings =
          parse_csv_env env env_shell_blocked_substrings default_shell_blocked_substrings in
        let s' = NoneOf-of_any (substring_blocks tables env normalized) substrings s in
        let t' =
          NoneOf-of_any (token_blocks tables env normalized) default_shell_blocked_tokens t in
        elim m [
          | inl (on, a) ↦ let found = RuleAllows-first_rule args a in ground arith
          | inr (off, risk) ↦ ground arith
        ]
