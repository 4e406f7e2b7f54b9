-- ===== src/Common/Text/Distinct.antt =====
-- The first occurrences in a list of texts, in order, defined without an accumulator.
use Prim.Native.Nat.{ℕ, suc, ◌≤◌, ◌<◌}
use mathlib.Core.Bool.{true, false, ◌||◌}
use mathlib.Core.List.{List, [], ◌∷◌}
use mathlib.Core.Logic.{◌↔◌, ◌⊎◌, inl, inr}
use mathlib.Core.Path.{◌≡◌, refl, ap, subst, ◌∙◌}
use native.Mathlib.Omega.{arith}
use labtether_agent.Common.Lists.{length}
use labtether_agent.Common.Tests.{if◌then◌else◌, Bool-cases}
use labtether_agent.Common.Text.Compare.{same, same_iff, member, In}

abbrev Text : Type 0
Text = List ℕ

-- The texts of the list that the set lacks.
unfoldable pub without : List Text → List Text → List Text
without set [] = []
without set (x ∷ xs) = let rest = without set xs in if member x set then rest else x ∷ rest

unfoldable pub distinct : List Text → List Text
distinct [] = []
distinct (x ∷ xs) = x ∷ without (x ∷ []) (distinct xs)

abbrev pub Nodup : List Text → Type 0
Nodup [] = Unit
Nodup (x ∷ xs) = ¬ In x xs × Nodup xs

member-cons : (y x : Text) (set : List Text) → member y (x ∷ set) ≡ (same y x || member y set)
unfolding member
member-cons y x set = refl

pub without-cons :
    (x : Text) (set d : List Text) → without set (without (x ∷ []) d) ≡ without (x ∷ set) d
unfolding without member
without-cons x set [] = refl
without-cons x set (y ∷ d) = ground (arith, without-cons x set d)

pub without_known :
    (x : Text) (set d : List Text) → member x set ≡ true → without (x ∷ set) d ≡ without set d
unfolding without
without_known x set [] h = refl
without_known x set (y ∷ d) h = elim (Bool-cases (same y x)) [
  | inl e ↦ rw (member-cons, e, (same_iff y x).0 e, h) (without_known x set d h)
  | inr e ↦ rw (member-cons, e, without_known x set d h)
]

pub without-nil : (d : List Text) → without [] d ≡ d
unfolding without member
without-nil [] = refl
without-nil (x ∷ d) = ap (◌∷◌ x) (without-nil d)

In-without :
    (y : Text) (set xs : List Text) → In y (without set xs) → In y xs × (member y set ≡ false)
unfolding without
In-without y set [] h = absurd h
In-without y set (x ∷ xs) h = elim (Bool-cases (member x set)) [
  | inl known ↦ let (a, b) = In-without y set xs (rw known at h) in (inr a, b)
  | inr fresh ↦ elim (rw fresh at h) [
    | inl e ↦ (inl e, rw e fresh)
    | inr later ↦ let (a, b) = In-without y set xs later in (inr a, b)
  ]
]

Nodup-without : (set xs : List Text) → Nodup xs → Nodup (without set xs)
unfolding without
Nodup-without set [] h = tt
Nodup-without set (x ∷ xs) (h, k) = elim (Bool-cases (member x set)) [
  | inl known ↦ rw known (Nodup-without set xs k)
  | inr fresh ↦ rw fresh ((λ i. h (In-without x set xs i).0), Nodup-without set xs k)
]

pub distinct-Nodup : (xs : List Text) → Nodup (distinct xs)
unfolding distinct
distinct-Nodup [] = tt
distinct-Nodup (x ∷ xs) = (
  (λ i.
      let (_, e) = In-without x (x ∷ []) (distinct xs) i in
      let k : (same x x || false) ≡ false = unfold member in e in
      let t = (same_iff x x).1 refl in ground (arith, k, t)),
  Nodup-without (x ∷ []) (distinct xs) (distinct-Nodup xs),
)

without_absent : (x : Text) (xs : List Text) → ¬ In x xs → without (x ∷ []) xs ≡ xs
unfolding without member
without_absent x [] h = refl
without_absent x (y ∷ xs) h = ground (arith, same_iff y x, without_absent x xs (λ i. h (inr i)), h)

-- A list that repeats nothing is its own list of first occurrences.
pub distinct_of_Nodup : (xs : List Text) → Nodup xs → distinct xs ≡ xs
unfolding distinct
distinct_of_Nodup [] h = refl
distinct_of_Nodup (x ∷ xs) (h, k) =
    ap (λ r. x ∷ without (x ∷ []) r) (distinct_of_Nodup xs k) ∙ ap (◌∷◌ x) (without_absent x xs h)

length-without-le : (set xs : List Text) → length (without set xs) ≤ length xs
unfolding without
length-without-le set [] = omega arith
length-without-le set (x ∷ xs) = ground (arith, length-without-le set xs)

pub length-distinct-le : (xs : List Text) → length (distinct xs) ≤ length xs
unfolding distinct
length-distinct-le [] = omega arith
length-distinct-le (x ∷ xs) =
    omega (arith, length-without-le (x ∷ []) (distinct xs), length-distinct-le xs)

without-In :
    (y : Text) (set xs : List Text) → In y xs → member y set ≡ false → In y (without set xs)
unfolding without
without-In y set [] i h = absurd i
without-In y set (x ∷ xs) i h = elim (Bool-cases (member x set)) [
  | inl known ↦
      let k = without-In y set xs in
      let e : y ≡ x → member y set ≡ true = λ e. ap (λ z. member z set) e ∙ known in
      rw known (ground (arith, k, e))
  | inr fresh ↦ let k = without-In y set xs in rw fresh (ground (arith, k))
]

pub In-distinct : (y : Text) (xs : List Text) → In y (distinct xs) ↔ In y xs
unfolding distinct member
In-distinct y [] = ((λ i. i), λ i. i)
In-distinct y (x ∷ xs) =
    let rest = In-distinct y xs in
    let same_xy = same_iff y x in
    (
      (λ i. elim i [
        | inl e ↦ inl e
        | inr later ↦ inr (rest.0 (In-without y (x ∷ []) (distinct xs) later).0)
      ]),
      λ i. elim (Bool-cases (same y x)) [
        | inl e ↦ inl (same_xy.0 e)
        | inr ne ↦ elim i [
          | inl e ↦ absurd (ground (arith, same_xy.1 e, ne))
          | inr later ↦ inr (without-In y (x ∷ []) (distinct xs) (rest.1 later) (ground arith))
        ]
      ],
    )

length-without-lt : (x : Text) (ys : List Text) → In x ys → length (without (x ∷ []) ys) < length ys
unfolding without member
length-without-lt x [] i = absurd i
length-without-lt x (y ∷ ys) i =
    ground (arith, length-without-lt x ys, length-without-le (x ∷ []) ys, same_iff y x)

apart : (x y : Text) (xs : List Text) → ¬ In x xs → In y xs → member y (x ∷ []) ≡ false
unfolding member
apart x y xs new i = elim (Bool-cases (same y x)) [
  | inl e ↦ absurd (new (subst (λ z. In z xs) ((same_iff y x).0 e) i))
  | inr e ↦ ap (λ b. b || false) e
]

-- A list that repeats nothing is not longer than one that has its members.
length_of_Nodup :
    (xs ys : List Text) → Nodup xs → ((y : Text) → In y xs → In y ys) → length xs ≤ length ys
length_of_Nodup [] ys nodup sub = omega arith
length_of_Nodup (x ∷ xs) ys (new, nodup) sub =
    let rest =
      length_of_Nodup xs (without (x ∷ []) ys) nodup
        (λ y i. without-In y (x ∷ []) ys (sub y (inr i)) (apart x y xs new i)) in
    omega (arith, rest, length-without-lt x ys (sub x (inl refl)))

-- How many different texts a list has, when every text is in another list, or is one more.
pub length-distinct_mono :
    (xs ys : List Text)
    → ((y : Text) → In y xs → In y ys)
    → length (distinct xs) ≤ length (distinct ys)
length-distinct_mono xs ys sub =
    length_of_Nodup (distinct xs) (distinct ys) (distinct-Nodup xs)
      (λ y i. (In-distinct y ys).1 (sub y ((In-distinct y xs).0 i)))

pub length-distinct_more :
    (x : Text) (xs ys : List Text)
    → ((y : Text) → In y xs → (y ≡ x) ⊎ In y ys)
    → length (distinct xs) ≤ suc (length (distinct ys))
length-distinct_more x xs ys sub =
    length_of_Nodup (distinct xs) (x ∷ distinct ys) (distinct-Nodup xs) (λ y i.
      elim (sub y ((In-distinct y xs).0 i)) [
        | inl e ↦ inl e
        | inr known ↦ inr ((In-distinct y ys).1 known)
      ])
