-- ===== src/Command/ChildEnv.antt =====
-- child_env.go: the environment that a child process is given.
use labtether_agent.Common.{
  ℕ, Bool, false, ◌||◌, Option, none, some, List, [], ◌∷◌, map, ◌==◌, if◌then◌else◌,
}
use labtether_agent.Common.Text.{Text, codes}
use labtether_agent.Common.Text.Case.{CaseTables, to_upper}
use labtether_agent.Common.Text.Compare.{member}
use labtether_agent.Common.Text.Space.{trim_space}
use labtether_agent.Common.Text.Search.{has_prefix}

abbrev pub allowed_child_env : List Text
allowed_child_env = map codes (
    "ALLUSERSPROFILE" ∷ "APPDATA" ∷ "COLORTERM" ∷ "COMMONPROGRAMFILES" ∷ "COMMONPROGRAMFILES(X86)"
    ∷ "COMMONPROGRAMW6432" ∷ "COMPUTERNAME" ∷ "COMSPEC" ∷ "DBUS_SESSION_BUS_ADDRESS"
    ∷ "DESKTOP_SESSION" ∷ "DISPLAY" ∷ "HOME" ∷ "HOMEDRIVE" ∷ "HOMEPATH" ∷ "LANG" ∷ "LANGUAGE"
    ∷ "LOCALAPPDATA" ∷ "LOGNAME" ∷ "NO_COLOR" ∷ "NUMBER_OF_PROCESSORS" ∷ "OS" ∷ "PATH" ∷ "PATHEXT"
    ∷ "PROCESSOR_ARCHITECTURE" ∷ "PROCESSOR_IDENTIFIER" ∷ "PROCESSOR_LEVEL" ∷ "PROCESSOR_REVISION"
    ∷ "PROGRAMDATA" ∷ "PROGRAMFILES" ∷ "PROGRAMFILES(X86)" ∷ "PROGRAMW6432" ∷ "PUBLIC" ∷ "PWD"
    ∷ "SHELL" ∷ "SYSTEMDRIVE" ∷ "SYSTEMROOT" ∷ "TEMP" ∷ "TERM" ∷ "TMP" ∷ "TMPDIR" ∷ "TZ" ∷ "USER"
    ∷ "USERDOMAIN" ∷ "USERDOMAIN_ROAMINGPROFILE" ∷ "USERNAME" ∷ "USERPROFILE" ∷ "WAYLAND_DISPLAY"
    ∷ "WINDIR" ∷ "XAUTHORITY" ∷ "XDG_CURRENT_DESKTOP" ∷ "XDG_RUNTIME_DIR" ∷ "XDG_SESSION_TYPE" ∷ [])

-- strings.Cut(entry, "="): the key, if there is a "=".
abbrev pub add : ℕ → Option Text → Option Text
add c none = none
add c (some key) = some (c ∷ key)

abbrev pub cut_key : Text → Option Text
cut_key [] = none
cut_key (c ∷ s) = let rest = cut_key s in if c == b'=' then some [] else add c rest

module _ (tables : CaseTables) where
  unfoldable pub is_allowed_child_env_key : Text → Bool
  is_allowed_child_env_key key =
      let upper = to_upper tables (trim_space key) in
      member upper allowed_child_env || has_prefix upper (codes "LC_")

  abbrev pub is_kept : Option Text → Bool
  is_kept none = false
  is_kept (some key) = is_allowed_child_env_key key

  -- `SanitizedChildEnv` on what os.Environ returns
  unfoldable pub sanitized_child_env : List Text → List Text
  sanitized_child_env [] = []
  sanitized_child_env (entry ∷ env) =
      let rest = sanitized_child_env env in if is_kept (cut_key entry) then entry ∷ rest else rest
