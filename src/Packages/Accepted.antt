-- ===== src/Packages/Accepted.antt =====
-- What `NormalizeAndValidate` accepts and returns.
use labtether_agent.Common.{
  ℕ, ◌+◌, ◌≤◌, ◌≡◌, ◌↔◌, refl, sym, ap, ◌∙◌, true, false, inl, inr, List, [], ◌∷◌, ◌++◌, map,
  append_assoc, append-nil, arith, Bool-cases, length, any, All, Result, ok, >>=-eq-ok, ltb, tests,
}
use labtether_agent.Common.Text.{Text}
use labtether_agent.Common.Text.Bytes.{byte_length}
use labtether_agent.Common.Text.Compare.{member}
use labtether_agent.Common.Text.Space.{is_blank, trim_space}
use labtether_agent.Common.Text.Search.{split}
use labtether_agent.Packages.{
  PackageError, is_control, characters_allowed, valid_package_name, starts_with_hyphen, check_entry,
  normalize_from, normalize_and_validate, is_ascii_alpha_numeric,
}
use labtether_agent.Common.Text.Distinct.{
  without, distinct, without-cons, without_known, without-nil,
}

-- An entry that a request may name: no control character anywhere, and within its spaces a name of
-- at most 128 bytes that `validPackageName` allows. Such a name is not empty and begins with no
-- hyphen.
abbrev pub IsAcceptable : Text → Type 0
IsAcceptable raw =
    (any is_control raw ≡ false)
    × (byte_length (trim_space raw) ≤ 128)
    × (valid_package_name (trim_space raw) ≡ true)

valid-not-blank : (name : Text) → valid_package_name name ≡ true → is_blank name ≡ false
unfolding valid_package_name characters_allowed split
valid-not-blank [] h = cc
valid-not-blank (c ∷ s) h = refl

valid-characters : (name : Text) → valid_package_name name ≡ true → characters_allowed name ≡ true
unfolding valid_package_name
valid-characters name h = ground arith

no_hyphen_of_allowed : (s : Text) → characters_allowed s ≡ true → starts_with_hyphen s ≡ false
unfolding characters_allowed is_ascii_alpha_numeric
no_hyphen_of_allowed [] h = refl
no_hyphen_of_allowed (c ∷ s) h = ground arith

pub valid-no_hyphen :
    (name : Text) → valid_package_name name ≡ true → starts_with_hyphen name ≡ false
valid-no_hyphen name h = no_hyphen_of_allowed name (valid-characters name h)

check_entry_ok :
    (position : ℕ) (raw : Text) → IsAcceptable raw → check_entry position raw ≡ ok (trim_space raw)
unfolding check_entry
check_entry_ok position raw (a, b, c) =
    let e = valid-not-blank (trim_space raw) c in
    let f = valid-no_hyphen (trim_space raw) c in ground (arith, e, f)

check_entry_inverse :
    (position : ℕ) (raw : Text) {name : Text}
    → check_entry position raw ≡ ok name
    → IsAcceptable raw × (name ≡ trim_space raw)
unfolding check_entry
check_entry_inverse position raw h = ground arith

module _ (packages : List Text) where
  abbrev pub trimmed : List Text
  trimmed = map trim_space packages

normalize_from_ok :
    (packages : List Text) (position : ℕ) (seen normalized : List Text)
    → All IsAcceptable packages
    → normalize_from position seen normalized packages
      ≡ ok (normalized ++ without seen (distinct (trimmed packages)))
unfolding normalize_from without distinct
normalize_from_ok [] position seen normalized h = ap ok (sym (append-nil normalized))
normalize_from_ok (raw ∷ packages) position seen normalized (h, hs) =
    let name = trim_space raw in
    let rest = distinct (trimmed packages) in
    rw (check_entry_ok position raw h) (elim (Bool-cases (member name seen)) [
      | inl known ↦ rw known (
          normalize_from_ok packages (position + 1) seen normalized hs
          ∙ ap (λ d. ok (normalized ++ d))
              (sym (without-cons name seen rest ∙ without_known name seen rest known)))
      | inr fresh ↦ rw fresh (
          normalize_from_ok packages (position + 1) (name ∷ seen) (normalized ++ (name ∷ [])) hs
          ∙ ap ok (
              append_assoc normalized (name ∷ []) (without (name ∷ seen) rest)
              ∙ ap (λ d. normalized ++ (name ∷ d)) (sym (without-cons name seen rest))))
    ])

normalize_from-IsAcceptable :
    (packages : List Text) (position : ℕ) (seen normalized : List Text) {names : List Text}
    → normalize_from position seen normalized packages ≡ ok names
    → All IsAcceptable packages
unfolding normalize_from
normalize_from-IsAcceptable [] position seen normalized h = tt
normalize_from-IsAcceptable (raw ∷ packages) position seen normalized h =
    let (name, checked, later) = >>=-eq-ok (check_entry position raw) _ h in
    (
      (check_entry_inverse position raw checked).0,
      normalize_from-IsAcceptable packages (position + 1) _ _ later,
    )

ok-injective : {x y : List Text} → ◌≡◌ {A = Result PackageError (List Text)} (ok x) (ok y) → x ≡ y
ok-injective h = cc

-- A request is accepted exactly when it has at most 128 entries and every entry is acceptable, and
-- what is returned is then the trimmed names, each at its first occurrence, in the order of the
-- request.
pub normalize_and_validate_iff :
    (packages names : List Text)
    → (normalize_and_validate packages ≡ ok names) ↔ (
        (length packages ≤ 128) × All IsAcceptable packages × (names ≡ distinct (trimmed packages)))
unfolding normalize_and_validate
normalize_and_validate_iff packages names = elim (Bool-cases (ltb 128 (length packages))) [
  | inl over ↦ rw over ((λ h. cc), (λ h. absurd (omega (tests, h.0))))
  | inr fits ↦
      let run = normalize_from_ok packages 1 [] [] in
      rw fits (
        (λ h.
            let a = normalize_from-IsAcceptable packages 1 [] [] h in
            (ground arith, a, ok-injective (sym h ∙ run a ∙ ap ok (without-nil _)))),
        (λ h. run h.1 ∙ ap ok (without-nil _ ∙ sym h.2)),
      )
]
