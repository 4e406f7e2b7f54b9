-- ===== src/Command/ReadOnly.antt =====
-- command_readonly.go: the readers of the allowlist stay read-only and away from secrets. The
-- working directory and the resolution of symbolic links are parameters (os.Getwd,
-- filepath.EvalSymlinks); the paths are those of Unix.
use labtether_agent.Common.{
  ℕ, ◌+◌, Bool, true, false, not, ◌&&◌, ◌||◌, Option, none, some, List, [], ◌∷◌, ◌++◌, map, ltb,
  ◌==◌, if◌then◌else◌, any, drop, get_or, Result, ok, err, ◌>>=◌,
}
use labtether_agent.Common.Text.{Text, codes}
use labtether_agent.Common.Text.Case.{CaseTables, to_lower}
use labtether_agent.Common.Text.Compare.{same, member}
use labtether_agent.Common.Text.FilePath.{base, dir, clean, is_abs, join_paths}
use labtether_agent.Common.Text.Space.{is_blank, trim_space}
use labtether_agent.Common.Text.Search.{
  has_prefix, has_suffix, trim_prefix, trim_suffix, split, has_rune,
}
use labtether_agent.Command.Rules.{normalize_executable_name}

abbrev pub journalctl_changing_options : List Text
journalctl_changing_options = map codes (
    "--vacuum-size" ∷ "--vacuum-time" ∷ "--vacuum-files" ∷ "--rotate" ∷ "--flush" ∷ "--sync"
    ∷ "--relinquish-var" ∷ "--smart-relinquish-var" ∷ "--setup-keys" ∷ "--update-catalog"
    ∷ "--cursor-file" ∷ [])

abbrev pub builtin_protected_read_paths : List Text
builtin_protected_read_paths = map codes (
    "/etc/shadow" ∷ "/etc/shadow-" ∷ "/etc/gshadow" ∷ "/etc/gshadow-" ∷ "/etc/sudoers"
    ∷ "/etc/sudoers.d" ∷ "/etc/master.passwd" ∷ "/etc/spwd.db" ∷ [])

-- `SetProtectedReadPaths`
unfoldable pub set_protected_read_paths : List Text → List Text
set_protected_read_paths [] = []
set_protected_read_paths (path ∷ paths) =
    let trimmed = trim_space path in
    let rest = set_protected_read_paths paths in
    if not (is_blank trimmed) && is_abs trimmed then clean trimmed ∷ rest else rest

-- What the file system answers, and the paths that the agent protects.
pub record Files : Type 0 where
  pub working_dir : Option Text
  pub resolve : Text → Option Text
  pub protected : List Text

pub data ReadError : Type 0 where
  changes_logs : Text → ReadError
  recursive_grep : ReadError
  protected_path : Text → ReadError

-- `filepath.ToSlash` is the identity on Unix
unfoldable pub secret_path_by_name : Text → Bool
secret_path_by_name path =
    let name = base path in
    let parent = base (dir path) in
    (has_prefix path (codes "/proc/") && (same name (codes "environ") || same name (codes "mem")))
    || (has_prefix name (codes "ssh_host_") && has_suffix name (codes "_key"))
    || (same parent (codes ".ssh")
        && has_prefix name (codes "id_")
        && not (has_suffix name (codes ".pub")))

unfoldable pub path_within : Text → Text → Bool
path_within path root =
    same path root || has_prefix path (trim_suffix root (codes "/") ++ codes "/")

module _ (files : Files) where
  -- the path, and what it resolves to if that is another path
  abbrev pub with_resolved : Text → List Text
  with_resolved path = elim (files.resolve path) [
    | none ↦ path ∷ []
    | some resolved ↦ if same resolved path then path ∷ [] else path ∷ resolved ∷ []
  ]

  abbrev absolute : Text → Text
  absolute path =
      if is_abs path
      then path
      else elim files.working_dir [ none ↦ path | some wd ↦ join_paths wd path ]

  abbrev pub targets_of : Text → List Text
  targets_of candidate = with_resolved (clean (absolute candidate))

  unfoldable pub read_path_protected : Text → Bool
  read_path_protected candidate =
      let targets = targets_of candidate in
      let roots = builtin_protected_read_paths ++ files.protected in
      if is_blank candidate || same candidate (codes "-")
      then false
      else any (λ root. any (λ target. any (path_within target) (with_resolved root)) targets) roots
        || any secret_path_by_name targets

-- The rest of the text behind the first `c`, with the number of code points before it.
abbrev pub cut_at : ℕ → Text → ℕ → Option (ℕ × Text)
cut_at c [] i = none
cut_at c (d ∷ s) i = if d == c then some (i, s) else cut_at c s (i + 1)

abbrev grep_file : Text → Option (ℕ × Text) → List Text
grep_file arg none = []
grep_file arg (some (i, rest)) = if ltb 0 i && not (is_blank rest) then rest ∷ [] else []

unfoldable pub reader_path_candidates : Text → Text → List Text
reader_path_candidates name arg =
    if not (has_prefix arg (codes "-")) then arg ∷ [] else elim (cut_at b'=' arg 0) [
      | some (i, value) ↦ value ∷ []
      | none ↦
          if same name (codes "grep") && not (has_prefix arg (codes "--"))
          then grep_file arg (cut_at b'f' arg 0)
          else []
    ]

-- The flags whose value is the rest of the argument.
abbrev pub takes_value : ℕ → Bool
takes_value flag = has_rune (codes "efmABCD") flag

abbrev pub or_next : Text → List Text → Text
or_next [] later = get_or later 0 []
or_next (c ∷ s) later = c ∷ s

-- The loop over the letters behind the dash; `later` are the arguments behind this one.
unfoldable pub short_flags_recurse : Text → List Text → Bool
short_flags_recurse [] later = false
short_flags_recurse (flag ∷ flags) later =
    if flag == b'r' || flag == b'R'
    then true
    else if flag == b'd'
    then same (or_next flags later) (codes "recurse")
    else if takes_value flag
    then false
    else short_flags_recurse flags later

unfoldable pub grep_arg_recurses : Text → List Text → Bool
grep_arg_recurses arg later =
    let value = trim_prefix (trim_prefix arg (codes "--directories")) (codes "=") in
    if same arg (codes "--recursive") || same arg (codes "--dereference-recursive")
    then true
    else if has_prefix arg (codes "--directories")
    then same (or_next value later) (codes "recurse")
    else if has_prefix arg (codes "-") && not (has_prefix arg (codes "--"))
    then short_flags_recurse (drop 1 arg) later
    else false

abbrev first_part : List Text → Text
first_part [] = []
first_part (p ∷ ps) = p

module _ (tables : CaseTables) (files : Files) where
  unfoldable pub check_journalctl : List Text → Result ReadError (Unit {0})
  check_journalctl [] = ok tt
  check_journalctl (arg ∷ args) =
      let option = to_lower tables (first_part (split arg b'=')) in
      if member option journalctl_changing_options
      then err (changes_logs option)
      else check_journalctl args

  abbrev pub check_candidates : List Text → Result ReadError (Unit {0})
  check_candidates [] = ok tt
  check_candidates (candidate ∷ candidates) =
      if read_path_protected files candidate
      then err (protected_path candidate)
      else check_candidates candidates

  unfoldable pub check_reader : Text → List Text → Result ReadError (Unit {0})
  check_reader name [] = ok tt
  check_reader name (arg ∷ later) =
      let rest = check_reader name later in
      if same name (codes "grep") && grep_arg_recurses arg later
      then err recursive_grep
      else (do _ ← check_candidates (reader_path_candidates name arg); rest)

  abbrev pub is_reader : Text → Bool
  is_reader name = member name (map codes ("cat" ∷ "head" ∷ "tail" ∷ "grep" ∷ []))

  unfoldable pub validate_read_only_command : List Text → Result ReadError (Unit {0})
  validate_read_only_command [] = ok tt
  validate_read_only_command (program ∷ args) =
      let name = normalize_executable_name tables program in
      if same name (codes "journalctl")
      then check_journalctl args
      else if is_reader name
      then check_reader name args
      else ok tt
