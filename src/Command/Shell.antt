-- ===== src/Command/Shell.antt =====
-- What the policy guarantees of every shell command that it passes, and of what is then run.
use labtether_agent.Common.{
  ◌≡◌, ◌↔◌, refl, ap, subst, ◌∙◌, List, [], ◌∷◌, subst, arith, Result, ok, >>=-eq-ok,
}
use labtether_agent.Common.Text.{Text}
use labtether_agent.Common.Text.Case.{CaseTables}
use labtether_agent.Command.ChildEnv.{sanitized_child_env}
use labtether_agent.Command.Env.{Environment}
use labtether_agent.Command.Parse.{parse_command_line}
use labtether_agent.Command.ReadOnly.{Files}
use labtether_agent.Command.Policy.{
  Cmd, validate_exec_binary, new_command, make, check_args, parse_for_policy,
  validate_shell_command, new_validated_shell_command,
}
use labtether_agent.Command.Guards.{Passes, check_args-Passes, Passes-check_args}

module _ (tables : CaseTables) (env : Environment) where
  module _ (files : Files) where
    parse_for_policy-ok :
        (command : Text) {args : List Text}
        → parse_for_policy tables env files command ≡ ok args
        → parse_command_line command ≡ ok args
    unfolding parse_for_policy
    parse_for_policy-ok command h = ground arith

    ok-parse_for_policy :
        (command : Text) {args : List Text}
        → parse_command_line command ≡ ok args
        → parse_for_policy tables env files command ≡ ok args
    unfolding parse_for_policy
    ok-parse_for_policy command h = ground arith

    validate_shell_command-Passes :
        (command : Text)
        → validate_shell_command tables env files command ≡ ok tt
        → (args : List Text) × (parse_command_line command ≡ ok args) × Passes tables env files args
    unfolding validate_shell_command
    validate_shell_command-Passes command h =
        let (args, p, c) =
          >>=-eq-ok (parse_for_policy tables env files command) (check_args tables env files) h in
        (args, parse_for_policy-ok command p, check_args-Passes tables env files args c)

    Passes-validate_shell_command :
        (command : Text) (args : List Text)
        → parse_command_line command ≡ ok args
        → Passes tables env files args
        → validate_shell_command tables env files command ≡ ok tt
    unfolding validate_shell_command
    Passes-validate_shell_command command args p a =
        let p' = ok-parse_for_policy command p in
        let checked = Passes-check_args tables env files args a in ground arith

    -- A shell command passes exactly when it parses and its argument vector passes: no configured
    -- substring and no power token stands in the normalized vector, and either the first rule that
    -- matches leads to read-only checks that hold, or the operator has switched the allowlist off
    -- and accepted the risk.
    pub validate_shell_command_iff :
        (command : Text)
        → (validate_shell_command tables env files command ≡ ok tt) ↔ (
            (args : List Text) × (parse_command_line command ≡ ok args)
            × Passes tables env files args)
    validate_shell_command_iff command = (
      validate_shell_command-Passes command,
      (λ (args, p, a). Passes-validate_shell_command command args p a),
    )

    -- What `make` gives, field by field.
    make_iff :
        (args : List Text) (cmd : Cmd)
        → (make tables env files args ≡ ok cmd) ↔ (
            (args ≡ cmd.name ∷ cmd.args)
            × (validate_exec_binary tables env cmd.name ≡ ok tt)
            × (cmd.environ ≡ sanitized_child_env tables env.entries))
    unfolding new_command
    make_iff [] cmd = ((λ h. absurd (ground arith)), (λ h. absurd (ground arith)))
    make_iff (name ∷ args) cmd = ((λ h. ground arith), (λ h. ground arith))

    same_args :
        {E : Type 0} {parsed : Result E (List Text)} {args args' : List Text}
        → parsed ≡ ok args
        → parsed ≡ ok args'
        → args' ≡ args
    same_args p p' = cc

    new_validated-split :
        (command : Text) (cmd : Cmd)
        → new_validated_shell_command tables env files command ≡ ok cmd
        → (args : List Text) × (validate_shell_command tables env files command ≡ ok tt)
          × (parse_command_line command ≡ ok args)
          × (make tables env files args ≡ ok cmd)
    unfolding new_validated_shell_command
    new_validated-split command cmd h =
        let (u, v, rest) = >>=-eq-ok (validate_shell_command tables env files command) _ h in
        let (args, p, m) = >>=-eq-ok (parse_for_policy tables env files command) _ rest in
        (args, v, parse_for_policy-ok command p, m)

    split-new_validated :
        (command : Text) (cmd : Cmd) (args : List Text)
        → validate_shell_command tables env files command ≡ ok tt
        → parse_command_line command ≡ ok args
        → make tables env files args ≡ ok cmd
        → new_validated_shell_command tables env files command ≡ ok cmd
    unfolding new_validated_shell_command
    split-new_validated command cmd args v p m =
        let p' = ok-parse_for_policy command p in ground arith

    -- What is run is the vector that the policy passed: the command is made exactly when its
    -- vector, the program and its arguments, passes the policy and the program is a permitted
    -- binary; the child's environment is the sanitized one.
    pub new_validated_shell_command_iff :
        (command : Text) (cmd : Cmd)
        → (new_validated_shell_command tables env files command ≡ ok cmd) ↔ (
            (parse_command_line command ≡ ok (cmd.name ∷ cmd.args))
            × Passes tables env files (cmd.name ∷ cmd.args)
            × (validate_exec_binary tables env cmd.name ≡ ok tt)
            × (cmd.environ ≡ sanitized_child_env tables env.entries))
    new_validated_shell_command_iff command cmd = ((λ h. to h), (λ (p, a, b, e). back p a b e))
      where
        to :
            new_validated_shell_command tables env files command ≡ ok cmd
            → (parse_command_line command ≡ ok (cmd.name ∷ cmd.args))
              × Passes tables env files (cmd.name ∷ cmd.args)
              × (validate_exec_binary tables env cmd.name ≡ ok tt)
              × (cmd.environ ≡ sanitized_child_env tables env.entries)
        to h =
            let (args, v, p, m) = new_validated-split command cmd h in
            let (args', p', a) = (validate_shell_command_iff command).0 v in
            let (e, b, n) = (make_iff args cmd).0 m in
            (p ∙ ap ok e, subst (Passes tables env files) (same_args p p' ∙ e) a, b, n)

        back :
            parse_command_line command ≡ ok (cmd.name ∷ cmd.args)
            → Passes tables env files (cmd.name ∷ cmd.args)
            → validate_exec_binary tables env cmd.name ≡ ok tt
            → cmd.environ ≡ sanitized_child_env tables env.entries
            → new_validated_shell_command tables env files command ≡ ok cmd
        back p a b e =
            split-new_validated command cmd (cmd.name ∷ cmd.args)
              (Passes-validate_shell_command command (cmd.name ∷ cmd.args) p a) p
              ((make_iff (cmd.name ∷ cmd.args) cmd).1 (refl, b, e))
