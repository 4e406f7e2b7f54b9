-- ===== src/Common/Text/Search.antt =====
-- Prefixes, suffixes, substrings, splitting and joining.
use Prim.Native.Nat.{ℕ, ◌-◌}
use mathlib.Core.Bool.{Bool, true, false, ◌||◌}
use mathlib.Core.Option.{Option, none, some}
use mathlib.Core.Path.{◌≡◌, refl, ap}
use mathlib.Core.Logic.{◌↔◌, inl, inr}
use mathlib.Core.List.{List, [], ◌∷◌, ◌++◌, reverse}
use native.Mathlib.Omega.{arith}
use labtether_agent.Common.Tests.{◌==◌, if◌then◌else◌, Bool-cases, Option-cases}
use labtether_agent.Common.Lists.{length, take}

-- The text behind `prefix`, if `s` begins with it.
unfoldable pub strip_prefix : List ℕ → List ℕ → Option (List ℕ)
strip_prefix [] s = some s
strip_prefix (p ∷ ps) [] = none
strip_prefix (p ∷ ps) (c ∷ s) = if p == c then strip_prefix ps s else none

abbrev pub is_some {ℓ} : {A : Type ℓ} → Option A → Bool
is_some none = false
is_some (some a) = true

-- strings.HasPrefix, argument order as there
unfoldable pub has_prefix : List ℕ → List ℕ → Bool
unfolding strip_prefix
has_prefix s prefix = is_some (strip_prefix prefix s)

-- strings.TrimPrefix
unfoldable pub trim_prefix : List ℕ → List ℕ → List ℕ
unfolding strip_prefix
trim_prefix s prefix = elim (strip_prefix prefix s) [ some rest ↦ rest | none ↦ s ]

-- strings.HasSuffix
unfoldable pub has_suffix : List ℕ → List ℕ → Bool
unfolding has_prefix
has_suffix s suffix = has_prefix (reverse s) (reverse suffix)

-- strings.TrimSuffix
unfoldable pub trim_suffix : List ℕ → List ℕ → List ℕ
unfolding has_suffix
trim_suffix s suffix = if has_suffix s suffix then take (length s - length suffix) s else s

-- strings.Contains
unfoldable pub contains : List ℕ → List ℕ → Bool
unfolding has_prefix
contains [] t = has_prefix [] t
contains (c ∷ s) t = has_prefix (c ∷ s) t || contains s t

-- strings.ContainsRune
abbrev pub has_rune : List ℕ → ℕ → Bool
has_rune [] c = false
has_rune (d ∷ s) c = d == c || has_rune s c

-- strings.Split at one code point
unfoldable pub split_from : ℕ → List (List ℕ) → List ℕ → List ℕ → List (List ℕ)
split_from sep parts part [] = parts ++ (part ∷ [])
split_from sep parts part (c ∷ s) =
    let cut = split_from sep (parts ++ (part ∷ [])) [] s in
    let longer = split_from sep parts (part ++ (c ∷ [])) s in if c == sep then cut else longer

unfoldable pub split : List ℕ → ℕ → List (List ℕ)
unfolding split_from
split s sep = split_from sep [] [] s

-- strings.Join
unfoldable pub join : List (List ℕ) → List ℕ → List ℕ
join [] sep = []
join (p ∷ []) sep = p
join (p ∷ q ∷ ps) sep = p ++ (sep ++ join (q ∷ ps) sep)

-- `s` begins with `prefix` exactly when something follows it.
pub strip_prefix-append : (p s r : List ℕ) → (strip_prefix p s ≡ some r) ↔ (s ≡ p ++ r)
unfolding strip_prefix
strip_prefix-append [] s r = ground arith
strip_prefix-append (p ∷ ps) [] r = ground arith
strip_prefix-append (p ∷ ps) (c ∷ s) r = ground (arith, strip_prefix-append ps s r)

pub has_prefix_self : (p r : List ℕ) → has_prefix (p ++ r) p ≡ true
unfolding has_prefix
has_prefix_self p r = ap is_some ((strip_prefix-append p (p ++ r) r).1 refl)

-- `contains` finds exactly the substrings.
pub contains-append : (before t behind : List ℕ) → contains (before ++ (t ++ behind)) t ≡ true
unfolding contains
contains-append [] [] [] = refl
contains-append [] [] (c ∷ s) = refl
contains-append [] (c ∷ t) behind = let h = has_prefix_self (c ∷ t) behind in ground (arith, h)
contains-append (c ∷ s) t behind = ground (arith, contains-append s t behind)

pub has_prefix-split : (s p : List ℕ) → has_prefix s p ≡ true → (r : List ℕ) × (s ≡ p ++ r)
unfolding has_prefix
has_prefix-split s p h = elim (Option-cases (strip_prefix p s)) [
  | inl missing ↦ absurd (let e : false ≡ true = rw missing at h in cc)
  | inr (r, found) ↦ (r, (strip_prefix-append p s r).0 found)
]

pub contains-split :
    (s t : List ℕ)
    → contains s t ≡ true
    → (before : List ℕ) × (behind : List ℕ) × (s ≡ before ++ (t ++ behind))
unfolding contains
contains-split [] t h = let (r, e) = has_prefix-split [] t h in ([], r, e)
contains-split (c ∷ s) t h = elim (Bool-cases (has_prefix (c ∷ s) t)) [
  | inl here ↦ let (r, e) = has_prefix-split (c ∷ s) t here in ([], r, e)
  | inr later ↦
      let (before, behind, e) = contains-split s t (rw later at h) in
      (c ∷ before, behind, ap (◌∷◌ c) e)
]
