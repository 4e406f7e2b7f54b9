-- ===== src/Command/Tests.antt =====
-- A policy, commands that it passes and refuses, and the theorems at one of them.
use labtether_agent.Common.{
  ◌≡◌, ◌≢◌, ◌⊎◌, refl, true, false, none, some, List, [], ◌∷◌, ◌++◌, All, inl, arith, ok, err,
  length, ◌||◌, get_or,
}
use labtether_agent.Common.Text.{Text, codes}
use labtether_agent.Common.Text.Case.{
  CaseTables, ascii_lower, ascii_upper, equal_fold, fold_rune, lower_rune, to_lower, to_upper,
  upper_rune,
}
use labtether_agent.Common.Text.Compare.{member, same, In}
use labtether_agent.Common.Text.FilePath.{base, clean, dir, join_paths}
use labtether_agent.Common.Text.Search.{
  contains, has_prefix, has_suffix, join, split, split_from, strip_prefix, trim_prefix, trim_suffix,
}
use labtether_agent.Common.Text.Space.{fields, fields_func, trim_space}
use labtether_agent.Command.ChildEnv.{is_allowed_child_env_key, sanitized_child_env}
use labtether_agent.Command.Env.{Environment, lookup_env, parse_bool, parse_bool_env, parse_csv_env}
use labtether_agent.Command.Guards.{Passes}
use labtether_agent.Command.Inherited.{
  SetsAllowed, sanitized_child_env-no_labtether, sanitized_child_env_iff,
}
use labtether_agent.Command.Interpreters.{IsEchoProbe, shell_rule_matches-closed}
use labtether_agent.Command.Parse.{
  finish_scan, multiline, operator, parse_command_line, required, scan, step, unterminated_quote,
}
use labtether_agent.Command.Parse.Plain.{parse-operator, parse_plain}
use labtether_agent.Command.Parse.Quoting.{parse-quote_line, quote_line}
use labtether_agent.Command.Parse.Runes.{IsNotNewline, parse-IsNotNewline, parse-args-IsNotNewline}
use labtether_agent.Command.Policy.{
  Cmd, bad_command, bad_read, blocked_by_policy, check_args, first_rule, new_command,
  new_validated_shell_command, not_in_allowlist, parse_for_policy, read_only_part,
  validate_exec_binary, validate_shell_command,
}
use labtether_agent.Command.ReadOnly.{
  Files, check_journalctl, check_reader, grep_arg_recurses, path_within, protected_path,
  read_path_protected, reader_path_candidates, recursive_grep, secret_path_by_name,
  short_flags_recurse, validate_read_only_command,
}
use labtether_agent.Command.Rules.{
  command_args_have_prefix, exact_shell_rule_prefix, fold_prefix, contains_command_token,
  is_command_interpreter, normalize_executable_name, normalize_shell_command, rule_args,
  shell_rule_matches, validate_windows_cmd_echo,
}
use labtether_agent.Command.Shell.{new_validated_shell_command_iff, validate_shell_command_iff}
use labtether_agent.Command.Binaries.{MayRun, Means, validate_exec_binary_iff}

run : Unit {0}
unfolding parse_command_line scan step finish_scan trim_space fields fields_func member same join
    split split_from strip_prefix has_prefix has_suffix trim_prefix trim_suffix contains ascii_lower
    ascii_upper lower_rune upper_rune fold_rune to_lower to_upper equal_fold base clean dir
    join_paths is_allowed_child_env_key sanitized_child_env lookup_env parse_bool parse_bool_env
    parse_csv_env normalize_executable_name normalize_shell_command contains_command_token
    command_args_have_prefix is_command_interpreter validate_windows_cmd_echo rule_args
    shell_rule_matches secret_path_by_name path_within read_path_protected reader_path_candidates
    short_flags_recurse grep_arg_recurses check_journalctl check_reader validate_read_only_command
    validate_exec_binary new_command read_only_part first_rule check_args parse_for_policy
    validate_shell_command new_validated_shell_command
run = tt

abbrev ascii : CaseTables
ascii = record { lower = λ c. c; upper = λ c. c; fold = λ c. c }

abbrev environment : Environment
environment = record {
  overrides = none;
  process = λ key. none;
  entries = codes "HOME=/root" ∷ codes "LABTETHER_API_TOKEN=s3cret" ∷ codes "Lc_all=C" ∷ [];
}

-- /tmp/link is a symbolic link to /etc/shadow.
abbrev file_system : Files
file_system = record {
  working_dir = some (codes "/var/log");
  resolve = λ path. elim (same path (codes "/tmp/link")) [
    | true ↦ some (codes "/etc/shadow")
    | false ↦ none
  ];
  protected = codes "/var/lib/labtether" ∷ [];
}

parses :
    (parse_command_line (codes "ls  -l 'a b' \"c\\\"d\"")
      ≡ ok (codes "ls" ∷ codes "-l" ∷ codes "a b" ∷ codes "c\"d" ∷ []))
    × (parse_command_line (codes "ls; id") ≡ err (operator b';'))
    × (parse_command_line (codes "ls\nid") ≡ err multiline)
    × (parse_command_line (codes "ls 'a") ≡ err unterminated_quote)
    × (parse_command_line (codes "  ") ≡ err required)
unfolding run
parses = (refl, refl, refl, refl, refl)

polices :
    (validate_shell_command ascii environment file_system (codes "df -h") ≡ ok tt)
    × (validate_shell_command ascii environment file_system (codes "df; reboot")
        ≡ err (bad_command (operator b';')))
    × (validate_shell_command ascii environment file_system (codes "echo reboot")
        ≡ err blocked_by_policy)
    × (validate_shell_command ascii environment file_system (codes "id") ≡ err not_in_allowlist)
    × (validate_shell_command ascii environment file_system (codes "ipconfig /flushdns")
        ≡ err not_in_allowlist)
    × (validate_shell_command ascii environment file_system (codes "cat /etc/../tmp/link")
        ≡ err (bad_read (protected_path (codes "/etc/../tmp/link"))))
    × (validate_shell_command ascii environment file_system (codes "grep -nr x /")
        ≡ err (bad_read recursive_grep))
    × (validate_shell_command ascii environment file_system (codes "cat ../lib/labtether/token")
        ≡ err (bad_read (protected_path (codes "../lib/labtether/token"))))
unfolding run
polices = (refl, refl, refl, refl, refl, refl, refl, refl)

abbrev line : Text
line = codes "cat /var/log/syslog"

abbrev words : List Text
words = codes "cat" ∷ codes "/var/log/syslog" ∷ []

line-ok : parse_command_line line ≡ ok words
unfolding run
line-ok = refl

parse-IsNotNewline_example : All IsNotNewline line
parse-IsNotNewline_example = parse-IsNotNewline line line-ok

abbrev odd_words : List Text
odd_words = codes "a b" ∷ codes "\"\\" ∷ []

parse-quote_line_example : parse_command_line (quote_line odd_words) ≡ ok odd_words
unfolding run
parse-quote_line_example =
    parse-quote_line odd_words (parse-args-IsNotNewline (codes "'a b' '\"\\'") refl) refl
      (omega arith) refl

parse_plain_example : parse_command_line line ≡ ok words
unfolding run
parse_plain_example = parse_plain line refl (omega arith) refl

parse-operator_example : parse_command_line (codes "ls | sh") ≡ err (operator b'|')
parse-operator_example =
    parse-operator (codes "ls ") b'|' (codes " sh") refl refl (omega arith) refl

validate_exec_binary_iff_example :
    (program : Text) × Means ascii (codes "/usr/bin/Docker.exe") program
    × MayRun ascii environment program
unfolding run
validate_exec_binary_iff_example =
    (validate_exec_binary_iff ascii environment (codes "/usr/bin/Docker.exe")).0 refl

validate_shell_command_iff_example :
    (args : List Text) × (parse_command_line line ≡ ok args)
    × Passes ascii environment file_system args
unfolding run
validate_shell_command_iff_example =
    (validate_shell_command_iff ascii environment file_system line).0 refl

abbrev child : Cmd
child = record {
  name = codes "cat";
  args = codes "/var/log/syslog" ∷ [];
  environ = codes "HOME=/root" ∷ codes "Lc_all=C" ∷ [];
}

new_validated_shell_command_iff_example :
    (parse_command_line line ≡ ok words)
    × Passes ascii environment file_system words
    × (validate_exec_binary ascii environment (codes "cat") ≡ ok tt)
    × (child.environ ≡ sanitized_child_env ascii environment.entries)
unfolding run
new_validated_shell_command_iff_example =
    (new_validated_shell_command_iff ascii environment file_system line child).0 refl

sanitized_child_env_iff_example :
    In (codes "HOME=/root") environment.entries × SetsAllowed ascii (codes "HOME=/root")
unfolding run
sanitized_child_env_iff_example =
    (sanitized_child_env_iff ascii environment.entries (codes "HOME=/root")).0 (inl refl)

sanitized_child_env-no_labtether_example :
    to_upper ascii (trim_space (codes "HOME")) ≢ codes "LABTETHER_" ++ codes "TOKEN"
unfolding run
sanitized_child_env-no_labtether_example =
    sanitized_child_env-no_labtether ascii environment.entries (codes "HOME=/root") (codes "HOME")
      (codes "TOKEN") (inl refl) ((ground arith), (codes "/root", refl))

abbrev probe : List Text
probe = codes "CMD" ∷ codes "/C" ∷ codes "echo" ∷ codes "ok" ∷ []

shell_rule_matches-closed_example :
    (fold_prefix ascii probe (rule_args ascii (codes "cmd /c echo")) ≡ true)
    × ((length probe ≡ length (rule_args ascii (codes "cmd /c echo")))
        ⊎ (((has_prefix (trim_space (codes "cmd /c echo")) exact_shell_rule_prefix
                || is_command_interpreter ascii
                    (get_or (rule_args ascii (codes "cmd /c echo")) 0 []))
              ≡ false)
            ⊎ IsEchoProbe ascii probe))
unfolding run
shell_rule_matches-closed_example = shell_rule_matches-closed ascii probe (codes "cmd /c echo") refl
