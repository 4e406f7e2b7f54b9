-- ===== src/DockerLogs/Endings.antt =====
-- The carriage return that a line loses is the suffix that strings.TrimSuffix takes away.
use labtether_agent.Common.{
  ℕ, ◌≡◌, refl, sym, ap, ◌∙◌, false, inl, inr, List, [], ◌∷◌, ◌++◌, Bool-cases, ◌==◌, ==_iff,
  if◌then◌else◌,
}
use labtether_agent.Common.Text.Search.{trim_suffix}
use labtether_agent.Common.Text.Suffix.{HasStem, trim_suffix-HasStem}
use labtether_agent.DockerLogs.{trim_cr}

-- A text without the carriage return at its end, if it has one.
abbrev pub without_cr : List ℕ → List ℕ
without_cr bytes = trim_suffix bytes (13 ∷ [])

tail : List ℕ → List ℕ
tail [] = []
tail (b ∷ bytes) = bytes

head_or : ℕ → List ℕ → ℕ
head_or n [] = n
head_or n (b ∷ bytes) = b

empty_ends : (r : List ℕ) → ¬ ([] ≡ r ++ (13 ∷ []))
empty_ends [] e = cc
empty_ends (b ∷ r) e = cc

one_ends : (c : ℕ) (r : List ℕ) → (c == 13) ≡ false → ¬ (c ∷ [] ≡ r ++ (13 ∷ []))
unfolding tail head_or
one_ends c [] other e = let same_byte = (==_iff c 13).1 (ap (head_or c) e) in cc
one_ends c (b ∷ r) other e = empty_ends r (ap tail e)

more_ends :
    (c d : ℕ) (s r : List ℕ)
    → ¬ ((t : List ℕ) × (d ∷ s ≡ t ++ (13 ∷ [])))
    → ¬ (c ∷ d ∷ s ≡ r ++ (13 ∷ []))
unfolding tail
more_ends c d s [] whole e = let rest = ap tail e in cc
more_ends c d s (b ∷ r) whole e = whole (r, ap tail e)

trim_cr-HasStem : (bytes : List ℕ) → HasStem bytes (13 ∷ []) (trim_cr bytes)
unfolding trim_cr
trim_cr-HasStem [] = inr (refl, λ (r, e). empty_ends r e)
trim_cr-HasStem (c ∷ []) = elim (Bool-cases (c == 13)) [
  | inl cr ↦ inl (
      ap (λ b. b ∷ []) ((==_iff c 13).0 cr)
      ∙ ap (λ t. t ++ (13 ∷ [])) (sym (ap (λ b. if b then [] else c ∷ []) cr)))
  | inr other ↦ inr (sym (ap (λ b. if b then [] else c ∷ []) other), λ (r, e). one_ends c r other e)
]
trim_cr-HasStem (c ∷ d ∷ s) = elim (trim_cr-HasStem (d ∷ s)) [
  | inl e ↦ inl (ap (◌∷◌ c) e)
  | inr (e, whole) ↦ inr (ap (◌∷◌ c) e, λ (r, p). more_ends c d s r whole p)
]

pub trim_cr-without_cr : (bytes : List ℕ) → trim_cr bytes ≡ without_cr bytes
trim_cr-without_cr bytes =
    sym (trim_suffix-HasStem bytes (13 ∷ []) (trim_cr bytes) (trim_cr-HasStem bytes))
