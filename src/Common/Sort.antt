-- ===== src/Common/Sort.antt =====
-- sort.Ints: insertion sort stands for it, since the result of sorting numbers is one list.
use labtether_agent.Common.Lists.{All, All-weaken}
use labtether_agent.Common.Tests.{leb, leb→le, if◌then◌else◌, Bool-cases}
use mathlib.Core.Bool.{Bool, true, false}
use mathlib.Core.List.{List, [], ◌∷◌}
use mathlib.Core.Logic.{◌≢◌, ◌⊎◌, ◌↔◌, inl, inr}
use mathlib.Core.Path.{◌≡◌, refl, sym, subst, ap, ◌∙◌}
use native.Mathlib.Omega.{arith}
use Prim.Native.Nat.{ℕ, ◌<◌}

unfoldable pub insert : ℕ → List ℕ → List ℕ
insert p [] = p ∷ []
insert p (x ∷ xs) = let rest = insert p xs in if leb p x then p ∷ x ∷ xs else x ∷ rest

unfoldable pub sort : List ℕ → List ℕ
sort [] = []
sort (x ∷ xs) = insert x (sort xs)

-- Strictly ascending.
abbrev pub Ascending : List ℕ → Type 0
Ascending [] = Unit
Ascending (x ∷ xs) = All (λ y. x < y) xs × Ascending xs

-- No entry twice.
abbrev pub Distinct : List ℕ → Type 0
Distinct [] = Unit
Distinct (x ∷ xs) = All (λ y. x ≢ y) xs × Distinct xs

pub insert-All : (P : ℕ → Type 0) (p : ℕ) (xs : List ℕ) → P p → All P xs → All P (insert p xs)
unfolding insert
insert-All P p [] h a = (h, tt)
insert-All P p (x ∷ xs) h (b, a) =
    elim (leb p x) as (λ t. All P (if t then p ∷ x ∷ xs else x ∷ insert p xs)) [
      | true ↦ (h, (b, a))
      | false ↦ (b, insert-All P p xs h a)
    ]

pub sort-All : (P : ℕ → Type 0) (xs : List ℕ) → All P xs → All P (sort xs)
unfolding sort
sort-All P [] a = tt
sort-All P (x ∷ xs) (h, a) = insert-All P x (sort xs) h (sort-All P xs a)

insert-Ascending :
    (p : ℕ) (xs : List ℕ) → All (λ y. p ≢ y) xs → Ascending xs → Ascending (insert p xs)
unfolding insert
insert-Ascending p [] n a = (tt, tt)
insert-Ascending p (x ∷ xs) (n, ns) (b, a) = elim (Bool-cases (leb p x)) [
  | inl t ↦
      let l : p < x = (let le = leb→le p x t in omega (arith, le, n)) in
      subst chosen (sym t) ((l, All-weaken (λ y m. omega (arith, l, m)) xs b), (b, a))
  | inr t ↦
      let g : x < p = ground arith in
      subst chosen (sym t) (insert-All (λ y. x < y) p xs g b, insert-Ascending p xs ns a)
]
  where
    chosen : Bool → Type 0
    chosen t = Ascending (if t then p ∷ x ∷ xs else x ∷ insert p xs)

pub sort-Ascending : (xs : List ℕ) → Distinct xs → Ascending (sort xs)
unfolding sort
sort-Ascending [] d = tt
sort-Ascending (x ∷ xs) (n, d) =
    insert-Ascending x (sort xs) (sort-All (λ y. x ≢ y) xs n) (sort-Ascending xs d)

insert_first : (x : ℕ) (xs : List ℕ) → All (λ y. x < y) xs → insert x xs ≡ x ∷ xs
unfolding insert
insert_first x [] a = refl
insert_first x (y ∷ ys) (h, a) = ground arith

-- A list that is strictly ascending is sorted already.
pub sort_of_Ascending : (xs : List ℕ) → Ascending xs → sort xs ≡ xs
unfolding sort
sort_of_Ascending [] a = refl
sort_of_Ascending (x ∷ xs) (h, a) = ap (insert x) (sort_of_Ascending xs a) ∙ insert_first x xs h

pub Distinct-of_Ascending : (xs : List ℕ) → Ascending xs → Distinct xs
Distinct-of_Ascending [] a = tt
Distinct-of_Ascending (x ∷ xs) (h, a) =
    (All-weaken (λ y l e. absurd (omega (arith, l, e))) xs h, Distinct-of_Ascending xs a)

-- The number stands in the list.
abbrev pub Has : ℕ → List ℕ → Type 0
Has p [] = ⊥
Has p (x ∷ xs) = (p ≡ x) ⊎ Has p xs

insert-Has : (q p : ℕ) (xs : List ℕ) → Has q (insert p xs) ↔ ((q ≡ p) ⊎ Has q xs)
unfolding insert
insert-Has q p [] = ((λ h. h), (λ h. h))
insert-Has q p (x ∷ xs) =
    elim (leb p x)
      as (λ t. Has q (if t then p ∷ x ∷ xs else x ∷ insert p xs) ↔ ((q ≡ p) ⊎ Has q (x ∷ xs))) [
        | true ↦ ((λ h. h), (λ h. h))
        | false ↦ let ih = insert-Has q p xs in ground (arith, ih)
      ]

-- Sorting keeps what stands in the list.
pub sort-Has : (q : ℕ) (xs : List ℕ) → Has q (sort xs) ↔ Has q xs
unfolding sort
sort-Has q [] = ((λ h. h), (λ h. h))
sort-Has q (x ∷ xs) =
    let ih = sort-Has q xs in let i = insert-Has q x (sort xs) in ground (arith, i, ih)
