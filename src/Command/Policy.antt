-- ===== src/Command/Policy.antt =====
-- command.go: the binary allowlist and the shell-command policy, and how a command is made.
use labtether_agent.Common.{
  Bool, true, false, not, List, [], ◌∷◌, map, if◌then◌else◌, any, Result, ok, err, ◌>>=◌,
}
use labtether_agent.Common.Text.{Text, codes}
use labtether_agent.Common.Text.Case.{CaseTables, to_lower}
use labtether_agent.Common.Text.Compare.{member}
use labtether_agent.Common.Text.Space.{is_blank, trim_space}
use labtether_agent.Common.Text.Search.{contains, join}
use labtether_agent.Command.ChildEnv.{sanitized_child_env}
use labtether_agent.Command.Env.{Environment, parse_bool_env, parse_csv_env}
use labtether_agent.Command.Parse.{ParseError, parse_command_line}
use labtether_agent.Command.ReadOnly.{Files, ReadError, validate_read_only_command}
use labtether_agent.Command.Rules.{
  ProbeError, normalize_executable_name, normalize_shell_command, shell_rule_matches,
  contains_command_token,
}

abbrev pub default_allowed_exec_binaries : List Text
default_allowed_exec_binaries = map codes (
    "apk" ∷ "apt" ∷ "apt-get" ∷ "ash" ∷ "bash" ∷ "brew" ∷ "cat" ∷ "choco" ∷ "cmd" ∷ "dash"
    ∷ "defaults" ∷ "df" ∷ "dnf" ∷ "docker" ∷ "docker-compose" ∷ "dpkg-query" ∷ "dscl" ∷ "du"
    ∷ "ffmpeg" ∷ "free" ∷ "grep" ∷ "gst-inspect-1.0" ∷ "gst-launch-1.0" ∷ "head" ∷ "hostname"
    ∷ "ifconfig" ∷ "ip" ∷ "ipconfig" ∷ "istats" ∷ "journalctl" ∷ "launchctl" ∷ "loginctl" ∷ "log"
    ∷ "ls" ∷ "lscpu" ∷ "netplan" ∷ "netsh" ∷ "netstat" ∷ "networksetup" ∷ "needs-restarting"
    ∷ "nmcli" ∷ "osascript" ∷ "osx-cpu-temp" ∷ "pacman" ∷ "pbcopy" ∷ "pbpaste" ∷ "ping" ∷ "plutil"
    ∷ "powershell" ∷ "ps" ∷ "pwsh" ∷ "route" ∷ "rpm" ∷ "sc" ∷ "sensors" ∷ "sh" ∷ "sysctl"
    ∷ "systeminfo" ∷ "system_profiler" ∷ "systemctl" ∷ "schtasks" ∷ "tailscale" ∷ "tail"
    ∷ "tasklist" ∷ "tmux" ∷ "top" ∷ "uname" ∷ "uptime" ∷ "vncserver" ∷ "tvnserver" ∷ "wevtutil"
    ∷ "winget" ∷ "winvnc4" ∷ "who" ∷ "whoami" ∷ "wl-copy" ∷ "wl-paste" ∷ "xvfb" ∷ "x11vnc" ∷ "xauth"
    ∷ "xsetroot" ∷ "xterm" ∷ "yum" ∷ "xclip" ∷ "xdotool" ∷ "xmodmap" ∷ "labtether-x11-input"
    ∷ "ydotool" ∷ "xrandr" ∷ "xsel" ∷ "xset" ∷ "zsh" ∷ "zypper" ∷ [])

abbrev pub default_shell_allowlist_prefixes : List Text
default_shell_allowlist_prefixes = map codes (
    "cmd /c echo" ∷ "uptime" ∷ "uname" ∷ "df" ∷ "du" ∷ "free" ∷ "ps" ∷ "top" ∷ "journalctl"
    ∷ "systemctl status" ∷ "docker ps" ∷ "docker images" ∷ "ls" ∷ "cat" ∷ "grep" ∷ "tail" ∷ "head"
    ∷ "whoami" ∷ "=hostname" ∷ "=ipconfig" ∷ "=ipconfig /all" ∷ "systeminfo" ∷ "tasklist"
    ∷ "=cmd /c ver" ∷ "=powershell -Command Get-Date" ∷ [])

abbrev pub default_shell_blocked_substrings : List Text
default_shell_blocked_substrings = map codes (
    "rm -rf /" ∷ ":(){ :|:& };:" ∷ "mkfs" ∷ "systemctl poweroff" ∷ "systemctl reboot"
    ∷ "systemctl halt" ∷ [])

abbrev pub default_shell_blocked_tokens : List Text
default_shell_blocked_tokens = map codes ("shutdown" ∷ "reboot" ∷ "halt" ∷ "poweroff" ∷ "init" ∷ [])

abbrev pub env_exec_allowlist_mode : Text
env_exec_allowlist_mode = codes "LABTETHER_EXEC_ALLOWLIST_MODE"

abbrev pub env_exec_allowlist_accept_risk : Text
env_exec_allowlist_accept_risk = codes "LABTETHER_EXEC_ALLOWLIST_ACCEPT_RISK"

abbrev pub env_exec_allowed_binaries : Text
env_exec_allowed_binaries = codes "LABTETHER_EXEC_ALLOWED_BINARIES"

abbrev pub env_exec_blocked_binaries : Text
env_exec_blocked_binaries = codes "LABTETHER_EXEC_BLOCKED_BINARIES"

abbrev pub env_shell_allowlist_mode : Text
env_shell_allowlist_mode = codes "LABTETHER_SHELL_COMMAND_ALLOWLIST_MODE"

abbrev pub env_shell_allowlist_accept_risk : Text
env_shell_allowlist_accept_risk = codes "LABTETHER_SHELL_COMMAND_ALLOWLIST_ACCEPT_RISK"

abbrev pub env_shell_allowlist_prefixes : Text
env_shell_allowlist_prefixes = codes "LABTETHER_SHELL_COMMAND_ALLOWLIST_PREFIXES"

abbrev pub env_shell_blocked_substrings : Text
env_shell_blocked_substrings = codes "LABTETHER_SHELL_COMMAND_BLOCKED_SUBSTRINGS"

pub data PolicyError : Type 0 where
  command_required risk_not_accepted blocked_by_policy not_in_allowlist : PolicyError
  blocked_binary not_allowlisted : Text → PolicyError
  bad_command : ParseError → PolicyError
  bad_probe : ProbeError → PolicyError
  bad_read : ReadError → PolicyError

-- `toSet`: the normalized values that are not empty, as a list.
abbrev pub to_set : (Text → Text) → List Text → List Text
to_set normalize [] = []
to_set normalize (value ∷ values) =
    let rest = to_set normalize values in
    if is_blank (normalize value) then rest else normalize value ∷ rest

-- What `exec.Cmd` is given.
pub record Cmd : Type 0 where
  pub name : Text
  pub args : List Text
  pub environ : List Text

module _ (tables : CaseTables) (env : Environment) where
  abbrev pub blocked_binaries : List Text
  blocked_binaries =
      to_set (normalize_executable_name tables) (parse_csv_env env env_exec_blocked_binaries [])

  abbrev pub allowed_binaries : List Text
  allowed_binaries =
      to_set (normalize_executable_name tables)
        (parse_csv_env env env_exec_allowed_binaries default_allowed_exec_binaries)

  unfoldable pub validate_exec_binary : Text → Result PolicyError (Unit {0})
  validate_exec_binary name =
      let normalized = normalize_executable_name tables name in
      if is_blank normalized
      then err command_required
      else if member normalized blocked_binaries
      then err (blocked_binary normalized)
      else if not (parse_bool_env env env_exec_allowlist_mode true)
      then if not (parse_bool_env env env_exec_allowlist_accept_risk false)
        then err risk_not_accepted
        else ok tt
      else if member normalized allowed_binaries
      then ok tt
      else err (not_allowlisted normalized)

  -- a configured substring that stands in the normalized command
  abbrev pub substring_blocks : Text → Text → Bool
  substring_blocks normalized blocked =
      let token = normalize_shell_command tables blocked in
      if is_blank token then false else contains normalized token

  abbrev pub token_blocks : Text → Text → Bool
  token_blocks normalized tok =
      let word = to_lower tables (trim_space tok) in
      if is_blank word then false else contains_command_token normalized word

  unfoldable pub new_command : Text → List Text → Result PolicyError Cmd
  new_command name args = do
    _ ← validate_exec_binary name
    ok (record { name = name; args = args; environ = sanitized_child_env tables env.entries })

  module _ (files : Files) where
    -- what a matching rule leads to
    unfoldable pub read_only_part : List Text → Result PolicyError (Unit {0})
    read_only_part args = elim (validate_read_only_command tables files args) [
      | ok _ ↦ ok tt
      | err why ↦ err (bad_read why)
    ]

    -- the loop over the rules
    unfoldable pub first_rule : List Text → List Text → Result PolicyError (Unit {0})
    first_rule args [] = err not_in_allowlist
    first_rule args (rule ∷ rules) =
        let later = first_rule args rules in
        elim (shell_rule_matches tables args rule) [
          | err why ↦ err (bad_probe why)
          | ok matched ↦ if matched then read_only_part args else later
        ]

    -- the checks behind the parser
    unfoldable pub check_args : List Text → Result PolicyError (Unit {0})
    check_args args =
        let normalized = normalize_shell_command tables (join args (codes " ")) in
        if any (substring_blocks normalized)
          (parse_csv_env env env_shell_blocked_substrings default_shell_blocked_substrings)
        then err blocked_by_policy
        else if any (token_blocks normalized) default_shell_blocked_tokens
        then err blocked_by_policy
        else if not (parse_bool_env env env_shell_allowlist_mode true)
        then if not (parse_bool_env env env_shell_allowlist_accept_risk false)
          then err risk_not_accepted
          else ok tt
        else first_rule args
            (parse_csv_env env env_shell_allowlist_prefixes default_shell_allowlist_prefixes)

    unfoldable pub parse_for_policy : Text → Result PolicyError (List Text)
    parse_for_policy command = elim (parse_command_line command) [
      | ok args ↦ ok args
      | err why ↦ err (bad_command why)
    ]

    unfoldable pub validate_shell_command : Text → Result PolicyError (Unit {0})
    validate_shell_command command = do args ← parse_for_policy command; check_args args

    abbrev pub make : List Text → Result PolicyError Cmd
    make [] = err command_required
    make (name ∷ args) = new_command name args

    -- `NewValidatedShellCommandContext`; a parsed command has a first argument.
    unfoldable pub new_validated_shell_command : Text → Result PolicyError Cmd
    new_validated_shell_command command = do
      _ ← validate_shell_command command
      args ← parse_for_policy command
      make args
