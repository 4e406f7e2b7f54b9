-- ===== src/Common/Text/Words.antt =====
-- Text without space, and words joined and split again.
use labtether_agent.Common.Lists.{All, All-append}
use labtether_agent.Common.Tests.{if◌then◌else◌, Bool-cases}
use labtether_agent.Common.Text.Search.{join}
use labtether_agent.Common.Text.Space.{
  fields_from, fields_func, is_blank, is_space, trim_left, trim_right, trim_space,
}
use mathlib.Core.Bool.{Bool, true, false, ◌&&◌}
use mathlib.Core.Logic.{inl, inr}
use mathlib.Core.List.{List, [], ◌∷◌, ◌++◌, append-nil, append_assoc}
use mathlib.Core.Path.{◌≡◌, refl, sym, ap, subst, ◌∙◌}
use native.Mathlib.Omega.{arith}
use Prim.Native.Nat.{ℕ}

abbrev pub Unspaced : List ℕ → Type 0
Unspaced s = All (λ c. is_space c ≡ false) s

trim_right-Unspaced : (s : List ℕ) → Unspaced s → trim_right is_space s ≡ s
unfolding trim_right
trim_right-Unspaced [] h = refl
trim_right-Unspaced (c ∷ s) (n, h) = let rest = trim_right-Unspaced s h in ground arith

trim_left-Unspaced : (s : List ℕ) → Unspaced s → trim_left is_space s ≡ s
unfolding trim_left
trim_left-Unspaced [] h = refl
trim_left-Unspaced (c ∷ s) (n, h) = ground arith

pub trim_space-Unspaced : (s : List ℕ) → Unspaced s → trim_space s ≡ s
unfolding trim_space
trim_space-Unspaced s h =
    ap (trim_right is_space) (trim_left-Unspaced s h) ∙ trim_right-Unspaced s h

module _ (splits : ℕ → Bool) where
  -- A word that the splitter does not cut, and that is not empty.
  abbrev pub IsWord : List ℕ → Type 0
  IsWord w = (is_blank w ≡ false) × All (λ c. splits c ≡ false) w

  fields_from-word :
      (words : List (List ℕ)) (word p s : List ℕ)
      → All (λ c. splits c ≡ false) p
      → fields_from splits words word (p ++ s) ≡ fields_from splits words (word ++ p) s
  unfolding fields_from
  fields_from-word words word [] s h =
      ap (λ w. fields_from splits words w s) (sym (append-nil word))
  fields_from-word words word (c ∷ p) s (n, h) =
      let rest = fields_from-word words (word ++ (c ∷ [])) p s h in
      ap
        (λ b.
          if b
          then fields_from splits (if is_blank word then words else words ++ (word ∷ [])) []
              (p ++ s)
          else fields_from splits words (word ++ (c ∷ [])) (p ++ s))
        n
      ∙ rest
      ∙ ap (λ w. fields_from splits words w s) (append_assoc word (c ∷ []) p)

  fields_from-end :
      (words : List (List ℕ)) (p : List ℕ)
      → IsWord p
      → fields_from splits words [] p ≡ words ++ (p ∷ [])
  unfolding fields_from
  fields_from-end words p (b, h) =
      ap (fields_from splits words []) (sym (append-nil p))
      ∙ fields_from-word words [] p [] h
      ∙ ap (λ blank. if blank then words else words ++ (p ∷ [])) b

  fields_from-cut :
      (words : List (List ℕ)) (p : List ℕ) (c : ℕ) (s : List ℕ)
      → IsWord p
      → splits c ≡ true
      → fields_from splits words [] (p ++ (c ∷ s)) ≡ fields_from splits (words ++ (p ∷ [])) [] s
  unfolding fields_from
  fields_from-cut words p c s (b, h) y =
      fields_from-word words [] p (c ∷ s) h
      ∙ ap
          (λ t.
            if t
            then fields_from splits (if is_blank p then words else words ++ (p ∷ [])) [] s
            else fields_from splits words (p ++ (c ∷ [])) s)
          y
      ∙ ap (λ blank. fields_from splits (if blank then words else words ++ (p ∷ [])) [] s) b

  fields_from-join :
      (words parts : List (List ℕ)) (sep : ℕ)
      → All IsWord parts
      → splits sep ≡ true
      → fields_from splits words [] (join parts (sep ∷ [])) ≡ words ++ parts
  unfolding join fields_from
  fields_from-join words [] sep h y = sym (append-nil words)
  fields_from-join words (p ∷ []) sep (w, h) y = fields_from-end words p w
  fields_from-join words (p ∷ q ∷ parts) sep (w, h) y =
      fields_from-cut words p sep (join (q ∷ parts) (sep ∷ [])) w y
      ∙ fields_from-join (words ++ (p ∷ [])) (q ∷ parts) sep h y
      ∙ append_assoc words (p ∷ []) (q ∷ parts)

  -- Words joined by a separator split into the same words.
  pub fields_func-join :
      (parts : List (List ℕ)) (sep : ℕ)
      → All IsWord parts
      → splits sep ≡ true
      → fields_func splits (join parts (sep ∷ [])) ≡ parts
  unfolding fields_func
  fields_func-join parts sep h y = fields_from-join [] parts sep h y

-- A property of the characters of the parts and of the separator is one of the joined text.
pub join-All :
    (P : ℕ → Type 0) (parts : List (List ℕ)) (sep : ℕ)
    → All (All P) parts
    → P sep
    → All P (join parts (sep ∷ []))
unfolding join
join-All P [] sep h s = tt
join-All P (p ∷ []) sep (a, h) s = a
join-All P (p ∷ q ∷ parts) sep (a, h) s =
    All-append P p (sep ∷ join (q ∷ parts) (sep ∷ [])) a (s, join-All P (q ∷ parts) sep h s)

-- A text whose first character is no space.
trim_right-cons :
    (c : ℕ) (s : List ℕ)
    → is_space c ≡ false
    → trim_right is_space (c ∷ s) ≡ c ∷ trim_right is_space s
unfolding trim_right
trim_right-cons c s n = ground arith

trim_right-twice :
    (s : List ℕ) → trim_right is_space (trim_right is_space s) ≡ trim_right is_space s
unfolding trim_right
trim_right-twice [] = refl
trim_right-twice (c ∷ s) = elim (Bool-cases (is_blank (trim_right is_space s) && is_space c)) [
  | inl t ↦ subst twice (sym t) refl
  | inr t ↦ subst twice (sym t) (
      ap (λ r. if is_blank r && is_space c then [] else c ∷ r) (trim_right-twice s)
      ∙ ap (λ b. if b then [] else c ∷ trim_right is_space s) t)
]
  where
    twice : Bool → Type 0
    twice t =
        trim_right is_space (if t then [] else c ∷ trim_right is_space s)
        ≡ (if t then [] else c ∷ trim_right is_space s)

trim_left-right :
    (s : List ℕ)
    → trim_left is_space (trim_right is_space (trim_left is_space s))
      ≡ trim_right is_space (trim_left is_space s)
unfolding trim_left trim_right
trim_left-right [] = refl
trim_left-right (c ∷ s) = elim (Bool-cases (is_space c)) [
  | inl t ↦ subst kept (sym t) (trim_left-right s)
  | inr t ↦ subst kept (sym t) (
      ap (trim_left is_space) (trim_right-cons c s t)
      ∙ ap
          (λ b. if b then trim_left is_space (trim_right is_space s) else c ∷ trim_right is_space s)
          t
      ∙ sym (trim_right-cons c s t))
]
  where
    kept : Bool → Type 0
    kept t =
        trim_left is_space (trim_right is_space (if t then trim_left is_space s else c ∷ s))
        ≡ trim_right is_space (if t then trim_left is_space s else c ∷ s)

pub trim_space-twice : (s : List ℕ) → trim_space (trim_space s) ≡ trim_space s
unfolding trim_space
trim_space-twice s =
    ap (trim_right is_space) (trim_left-right s) ∙ trim_right-twice (trim_left is_space s)
