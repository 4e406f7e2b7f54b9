-- ===== src/Common/Text/Suffix.antt =====
-- strings.TrimSuffix takes exactly the suffix away.
use labtether_agent.Common.Tests.{Bool-cases, if◌then◌else◌}
use labtether_agent.Common.Lists.{length, length-append, take}
use labtether_agent.Common.Text.Search.{
  has_prefix, has_prefix-split, has_prefix_self, has_suffix, trim_suffix,
}
use Prim.Native.Nat.{ℕ, ◌-◌}
use mathlib.Core.Bool.{true}
use mathlib.Core.Path.{◌≡◌, refl, ap, sym, ◌∙◌}
use mathlib.Core.Logic.{◌⊎◌, inl, inr}
use mathlib.Core.List.{List, [], ◌∷◌, ◌++◌, reverse, reverse-append, reverse-reverse}
use native.Mathlib.Omega.{arith}

pub has_suffix-append : (r suffix : List ℕ) → has_suffix (r ++ suffix) suffix ≡ true
unfolding has_suffix
has_suffix-append r suffix =
    ap (λ s. has_prefix s (reverse suffix)) (reverse-append r suffix)
    ∙ has_prefix_self (reverse suffix) (reverse r)

pub has_suffix-split :
    (s suffix : List ℕ) → has_suffix s suffix ≡ true → (r : List ℕ) × (s ≡ r ++ suffix)
unfolding has_suffix
has_suffix-split s suffix h =
    let (r, e) = has_prefix-split (reverse s) (reverse suffix) h in
    (
      reverse r,
      sym (reverse-reverse s)
          ∙ ap reverse e
          ∙ reverse-append (reverse suffix) r
          ∙ ap (λ t. reverse r ++ t) (reverse-reverse suffix),
    )

take-before : (r suffix : List ℕ) → take (length r) (r ++ suffix) ≡ r
take-before [] suffix = refl
take-before (c ∷ r) suffix = ap (◌∷◌ c) (take-before r suffix)

pub trim_suffix-append : (r suffix : List ℕ) → trim_suffix (r ++ suffix) suffix ≡ r
unfolding trim_suffix
trim_suffix-append r suffix =
    let size : length (r ++ suffix) - length suffix ≡ length r =
      omega (arith, length-append r suffix) in
    ap (λ b. if b then take (length (r ++ suffix) - length suffix) (r ++ suffix) else r ++ suffix)
      (has_suffix-append r suffix)
    ∙ ap (λ n. take n (r ++ suffix)) size
    ∙ take-before r suffix

-- The text with the suffix, or the text itself if it does not end in the suffix.
abbrev pub HasStem : List ℕ → List ℕ → List ℕ → Type 0
HasStem s suffix stem = (s ≡ stem ++ suffix) ⊎ ((s ≡ stem) × ¬ ((r : List ℕ) × (s ≡ r ++ suffix)))

pub HasStem-trim_suffix : (s suffix : List ℕ) → HasStem s suffix (trim_suffix s suffix)
unfolding trim_suffix
HasStem-trim_suffix s suffix = elim (Bool-cases (has_suffix s suffix)) [
  | inl e ↦
      let (r, parts) = has_suffix-split s suffix e in
      inl (
        parts
        ∙ ap (λ t. t ++ suffix)
            (sym (ap (λ t. trim_suffix t suffix) parts ∙ trim_suffix-append r suffix)))
  | inr e ↦
      let kept : trim_suffix s suffix ≡ s =
        ap (λ b. if b then take (length s - length suffix) s else s) e in
      inr (
        sym kept,
        λ (r, parts).
            let found : has_suffix s suffix ≡ true =
              ap (λ t. has_suffix t suffix) parts ∙ has_suffix-append r suffix in
            absurd cc,
      )
]

pub trim_suffix-HasStem :
    (s suffix stem : List ℕ) → HasStem s suffix stem → trim_suffix s suffix ≡ stem
unfolding trim_suffix
trim_suffix-HasStem s suffix stem (inl e) =
    ap (λ t. trim_suffix t suffix) e ∙ trim_suffix-append stem suffix
trim_suffix-HasStem s suffix stem (inr (e, whole)) = elim (Bool-cases (has_suffix s suffix)) [
  | inl found ↦ absurd (whole (has_suffix-split s suffix found))
  | inr missing ↦ ap (λ b. if b then take (length s - length suffix) s else s) missing ∙ e
]
