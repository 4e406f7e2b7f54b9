-- ===== src/Packages/Names.antt =====
-- What every accepted package name is free of, and that accepting twice changes nothing.
use labtether_agent.Common.{
  ℕ, suc, ◌≤◌, ◌<◌, ◌≡◌, refl, sym, ap, ap₂, ◌∙◌, Bool, true, false, not, ◌&&◌, ◌||◌, inl, inr,
  List, [], ◌∷◌, arith, Bool-cases, length, all, any, All, ok, ltb, ltb→lt, and-true,
}
use labtether_agent.Common.Table.{passes_below, passes_below_at}
use labtether_agent.Common.Text.{Text, codes}
use labtether_agent.Common.Text.Bytes.{byte_length}
use labtether_agent.Common.Text.Compare.{member}
use labtether_agent.Common.Text.Space.{is_blank, is_space, trim_space, trim_left, trim_right}
use labtether_agent.Common.Text.Search.{split, has_rune}
use labtether_agent.Packages.{
  is_control, characters_allowed, bad_segment, valid_package_name, starts_with_hyphen,
  normalize_and_validate, is_ascii_alpha_numeric,
}
use labtether_agent.Common.Text.Distinct.{
  without, distinct, Nodup, distinct-Nodup, distinct_of_Nodup, length-distinct-le,
}
use labtether_agent.Packages.Accepted.{
  IsAcceptable, trimmed, normalize_and_validate_iff, valid-no_hyphen,
}

-- Every character that a shell gives a meaning to.
abbrev pub metacharacters : Text
metacharacters = codes "$&;|<>`()[]{}*?!#\\'\"%^,"

-- A visible ASCII character with no meaning for a shell.
abbrev pub IsPlainRune : ℕ → Type 0
IsPlainRune c = (32 < c) × (c < 127) × (has_rune metacharacters c ≡ false)

abbrev pub IsSafeName : Text → Type 0
IsSafeName name =
    All IsPlainRune name
    × (is_blank name ≡ false)
    × (starts_with_hyphen name ≡ false)
    × (any bad_segment (split name b'/') ≡ false)
    × (byte_length name ≤ 128)

abbrev allowed : ℕ → Bool
allowed c = is_ascii_alpha_numeric c || has_rune (codes "@+._:/=~-") c

abbrev plain : ℕ → Bool
plain c = ltb 32 c && not (has_rune metacharacters c) && not (is_space c) && not (is_control c)

allowed_table : passes_below (λ c. not (allowed c) || plain c) 127 ≡ true
unfolding passes_below is_ascii_alpha_numeric is_space
allowed_table = refl

allowed-lt : (c : ℕ) → allowed c ≡ true → c < 127
unfolding is_ascii_alpha_numeric
allowed-lt c h = ground arith

plain_of_allowed : (c : ℕ) → allowed c ≡ true → plain c ≡ true
plain_of_allowed c h =
    let t =
      passes_below_at (λ d. not (allowed d) || plain d) 127 c allowed_table (allowed-lt c h) in
    rw h at t

rune_of_allowed :
    (c : ℕ) → allowed c ≡ true → IsPlainRune c × (is_space c ≡ false) × (is_control c ≡ false)
rune_of_allowed c h =
    let p = plain_of_allowed c h in
    let q = parts (ltb 32 c) (has_rune metacharacters c) (is_space c) (is_control c) p in
    ((ltb→lt 32 c q.0, allowed-lt c h, q.1), q.2, q.3)
  where
    parts :
        (a b d e : Bool)
        → (a && not b && not d && not e) ≡ true
        → (a ≡ true) × (b ≡ false) × (d ≡ false) × (e ≡ false)
    parts true false false false k = (refl, refl, refl, refl)
    parts true false false true k = absurd (ground arith)
    parts true false true e k = absurd (ground arith)
    parts true true d e k = absurd (ground arith)
    parts false b d e k = absurd (ground arith)

-- Facts of each character of a valid name.
abbrev Plain : ℕ → Type 0
Plain c = IsPlainRune c × (is_space c ≡ false) × (is_control c ≡ false)

All-Plain : (s : Text) → all allowed s ≡ true → All Plain s
All-Plain [] h = tt
All-Plain (c ∷ s) h = let (a, b) = and-true h in (rune_of_allowed c a, All-Plain s b)

characters_allowed-Plain : (s : Text) → characters_allowed s ≡ true → All Plain s
unfolding characters_allowed is_ascii_alpha_numeric
characters_allowed-Plain [] h = tt
characters_allowed-Plain (c ∷ s) h =
    let (a, b) = and-true h in (rune_of_allowed c (ground arith), All-Plain s b)

valid-Plain : (name : Text) → valid_package_name name ≡ true → All Plain name
unfolding valid_package_name
valid-Plain name h = characters_allowed-Plain name (ground arith)

trim_right_of_Plain : (s : Text) → All Plain s → trim_right is_space s ≡ s
unfolding trim_right
trim_right_of_Plain [] h = refl
trim_right_of_Plain (c ∷ s) ((_, a, _), h) = ground (arith, trim_right_of_Plain s h)

trim_space_of_Plain : (s : Text) → All Plain s → trim_space s ≡ s
unfolding trim_space trim_left trim_right
trim_space_of_Plain [] h = refl
trim_space_of_Plain (c ∷ s) ((p, a, b), h) =
    let e = trim_right_of_Plain (c ∷ s) ((p, a, b), h) in rw a e

no_control_of_Plain : (s : Text) → All Plain s → any is_control s ≡ false
no_control_of_Plain [] h = refl
no_control_of_Plain (c ∷ s) ((_, _, a), h) = rw a (no_control_of_Plain s h)

runes_of_Plain : (s : Text) → All Plain s → All IsPlainRune s
runes_of_Plain [] h = tt
runes_of_Plain (c ∷ s) ((a, _, _), h) = (a, runes_of_Plain s h)

not_blank_of_valid : (name : Text) → valid_package_name name ≡ true → is_blank name ≡ false
unfolding valid_package_name characters_allowed split
not_blank_of_valid [] h = cc
not_blank_of_valid (c ∷ s) h = refl

segments_of_valid :
    (name : Text) → valid_package_name name ≡ true → any bad_segment (split name b'/') ≡ false
unfolding valid_package_name
segments_of_valid name h = ground arith

IsSafeName-trim : (raw : Text) → IsAcceptable raw → IsSafeName (trim_space raw)
IsSafeName-trim raw (_, small, v) =
    let name = trim_space raw in
    (
      runes_of_Plain name (valid-Plain name v),
      not_blank_of_valid name v,
      valid-no_hyphen name v,
      segments_of_valid name v,
      small,
    )

module _ (P : Text → Type 0) where
  All-without : (set xs : List Text) → All P xs → All P (without set xs)
  unfolding without
  All-without set [] h = tt
  All-without set (x ∷ xs) (p, h) = elim (Bool-cases (member x set)) [
    | inl known ↦ rw known (All-without set xs h)
    | inr fresh ↦ rw fresh (p, All-without set xs h)
  ]

  All-distinct : (xs : List Text) → All P xs → All P (distinct xs)
  unfolding distinct
  All-distinct [] h = tt
  All-distinct (x ∷ xs) (p, h) = (p, All-without (x ∷ []) (distinct xs) (All-distinct xs h))

IsSafeName-trimmed :
    (packages : List Text) → All IsAcceptable packages → All IsSafeName (trimmed packages)
IsSafeName-trimmed [] h = tt
IsSafeName-trimmed (raw ∷ packages) (a, h) = (IsSafeName-trim raw a, IsSafeName-trimmed packages h)

-- Every name that `NormalizeAndValidate` returns is safe to hand to a package manager: it consists of
-- visible ASCII characters with no meaning for a shell, is not empty, does not begin with a hyphen,
-- has no part "", "." or ".." between slashes, and takes at most 128 bytes. There are at most 128
-- names, and no name twice.
pub normalize_and_validate-IsSafeName :
    (packages names : List Text)
    → normalize_and_validate packages ≡ ok names
    → All IsSafeName names × Nodup names × (length names ≤ 128)
normalize_and_validate-IsSafeName packages names h =
    let (count, good, e) = (normalize_and_validate_iff packages names).0 h in
    rw e (
      All-distinct IsSafeName (trimmed packages) (IsSafeName-trimmed packages good),
      distinct-Nodup (trimmed packages),
      omega (arith, length-distinct-le (trimmed packages), length-trimmed packages, count),
    )
  where
    length-trimmed : (ps : List Text) → length (trimmed ps) ≡ length ps
    length-trimmed [] = refl
    length-trimmed (p ∷ ps) = ap suc (length-trimmed ps)

-- A trimmed name that was accepted is acceptable again and is left alone by trimming.
abbrev IsStable : Text → Type 0
IsStable name = IsAcceptable name × (trim_space name ≡ name)

IsStable-trim : (raw : Text) → IsAcceptable raw → IsStable (trim_space raw)
IsStable-trim raw (_, small, v) =
    let name = trim_space raw in
    let p = valid-Plain name v in
    let e = trim_space_of_Plain name p in ((no_control_of_Plain name p, rw e small, rw e v), e)

IsStable-trimmed :
    (packages : List Text) → All IsAcceptable packages → All IsStable (trimmed packages)
IsStable-trimmed [] h = tt
IsStable-trimmed (raw ∷ packages) (a, h) = (IsStable-trim raw a, IsStable-trimmed packages h)

IsAcceptable-of_IsStable :
    (names : List Text) → All IsStable names → All IsAcceptable names × (trimmed names ≡ names)
IsAcceptable-of_IsStable [] h = (tt, refl)
IsAcceptable-of_IsStable (n ∷ names) ((a, e), h) =
    let (b, f) = IsAcceptable-of_IsStable names h in ((a, b), ap₂ ◌∷◌ e f)

-- What was returned is accepted again and comes back unchanged.
pub normalize_and_validate_idempotent :
    (packages names : List Text)
    → normalize_and_validate packages ≡ ok names
    → normalize_and_validate names ≡ ok names
normalize_and_validate_idempotent packages names h =
    let (count, good, e) = (normalize_and_validate_iff packages names).0 h in
    let (_, once, small) = normalize_and_validate-IsSafeName packages names h in
    let stable : All IsStable names =
      rw e (All-distinct IsStable (trimmed packages) (IsStable-trimmed packages good)) in
    let (a, f) = IsAcceptable-of_IsStable names stable in
    (normalize_and_validate_iff names names).1
      (small, a, sym (ap distinct f ∙ distinct_of_Nodup names once))
