-- ===== src/Command/Readers.antt =====
-- The readers of the allowlist (cat, head, tail, grep) and the protected paths.
use labtether_agent.Common.{
  ◌≡◌, ◌≢◌, ◌↔◌, ◌⊎◌, sym, true, false, inl, inr, List, [], ◌∷◌, ◌++◌, arith, All, subst,
  Bool-cases,
}
use labtether_agent.Common.Text.{Text, codes}
use labtether_agent.Common.Text.Case.{CaseTables}
use labtether_agent.Common.Text.Compare.{same, same_iff}
use labtether_agent.Common.Text.Search.{has_prefix, trim_suffix, has_prefix_self, has_prefix-split}
use labtether_agent.Common.Text.Space.{is_blank}
use labtether_agent.Command.Named.{Recurses}
use labtether_agent.Command.ReadOnly.{
  Files, builtin_protected_read_paths, grep_arg_recurses, path_within, reader_path_candidates,
  secret_path_by_name, targets_of, with_resolved,
}

-- The path is the root itself, or stands below it.
abbrev pub IsWithin : Text → Text → Type 0
IsWithin path root =
    (path ≡ root) ⊎ ((rest : Text) × (path ≡ (trim_suffix root (codes "/") ++ codes "/") ++ rest))

pub path_within_iff : (path root : Text) → (path_within path root ≡ true) ↔ IsWithin path root
unfolding path_within
path_within_iff path root = (to, back)
  where
    below : Text
    below = trim_suffix root (codes "/") ++ codes "/"

    to : path_within path root ≡ true → IsWithin path root
    to h = elim (Bool-cases (same path root)) [
      | inl e ↦ inl ((same_iff path root).0 e)
      | inr e ↦ inr (has_prefix-split path below (ground arith))
    ]

    back : IsWithin path root → path_within path root ≡ true
    back (inl e) = let h = (same_iff path root).1 e in ground arith
    back (inr (rest, e)) =
        let h = subst (λ p. has_prefix p below ≡ true) (sym e) (has_prefix_self below rest) in
        ground arith

module _ (tables : CaseTables) (files : Files) where
  -- No target of the path, absolute and cleaned or resolved, is at or below a protected root as it
  -- is written or as it resolves, and none is a secret by its name.
  abbrev pub IsOutside : Text → Type 0
  IsOutside candidate =
      All
        (λ root.
          All (λ target. All (λ r. ¬ IsWithin target r) (with_resolved files root))
            (targets_of files candidate))
        (builtin_protected_read_paths ++ files.protected)
      × All (λ target. secret_path_by_name target ≡ false) (targets_of files candidate)

  -- A candidate is empty, the standard input, or a path outside.
  abbrev pub IsReadable : Text → Type 0
  IsReadable candidate = (is_blank candidate ≡ true) ⊎ (candidate ≡ codes "-") ⊎ IsOutside candidate

  -- What the code checks of an argument, with the arguments behind it.
  abbrev Checked : Text → Text → List Text → Type 0
  Checked name arg later =
      All IsReadable (reader_path_candidates name arg)
      × ((name ≢ codes "grep") ⊎ (grep_arg_recurses arg later ≡ false))

  abbrev AllChecked : Text → List Text → Type 0
  AllChecked name [] = Unit
  AllChecked name (arg ∷ later) = Checked name arg later × AllChecked name later

  -- The file is readable, and the argument does not make grep recursive.
  abbrev pub StaysOut : Text → Text → List Text → Text → Type 0
  StaysOut name arg later file = IsReadable file × ¬ ((name ≡ codes "grep") × Recurses arg later)
