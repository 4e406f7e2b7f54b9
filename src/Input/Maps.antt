-- ===== src/Input/Maps.antt =====
-- Maps from text as lists of pairs with one pair for a key, and tests over the live owners.
use labtether_agent.Common.{
  ℕ, ◌≡◌, refl, ap, Bool, true, false, not, ◌&&◌, ◌||◌, List, [], ◌∷◌, if◌then◌else◌, any, arith,
  ◌==◌, ==_iff, Option, some, none, Bool-cases, inl, inr, ◌≢◌,
}
use labtether_agent.Common.Text.{Text}
use labtether_agent.Common.Text.Compare.{same, same_iff}

module _ {ℓ} {A : Type ℓ} where
  abbrev pub has_key : Text → List (Text × A) → Bool
  has_key k [] = false
  has_key k ((j, a) ∷ m) = same k j || has_key k m

  abbrev pub lookup : Text → List (Text × A) → Option A
  lookup k [] = none
  lookup k ((j, a) ∷ m) = if same k j then some a else lookup k m

  unfoldable pub remove_key : Text → List (Text × A) → List (Text × A)
  remove_key k [] = []
  remove_key k ((j, a) ∷ m) = let rest = remove_key k m in if same k j then rest else (j, a) ∷ rest

  abbrev pub put : Text → A → List (Text × A) → List (Text × A)
  put k a m = (k, a) ∷ remove_key k m

  pub has_key-remove :
      (k j : Text) (m : List (Text × A))
      → has_key k (remove_key j m) ≡ (has_key k m && not (same k j))
  unfolding remove_key
  has_key-remove k j [] = refl
  has_key-remove k j ((i, a) ∷ m) =
      ground (arith, has_key-remove k j m, same_iff k i, same_iff j i, same_iff k j)

  pub has_key-put :
      (k j : Text) (a : A) (m : List (Text × A)) → has_key k (put j a m) ≡ (same k j || has_key k m)
  has_key-put k j a m = ground (arith, has_key-remove k j m)

abbrev pub has_id : ℕ → List ℕ → Bool
has_id i [] = false
has_id i (j ∷ ids) = i == j || has_id i ids

unfoldable pub remove_id : ℕ → List ℕ → List ℕ
remove_id i [] = []
remove_id i (j ∷ ids) = let rest = remove_id i ids in if i == j then rest else j ∷ rest

-- The test of every owner but one.
abbrev pub other : ℕ → (ℕ → Bool) → ℕ → Bool
other id f i = not (id == i) && f i

-- Some owner passes: this one, or another.
pub any-other :
    (id : ℕ) (f : ℕ → Bool) (ids : List ℕ)
    → any f ids ≡ ((has_id id ids && f id) || any (other id f) ids)
any-other id f [] = refl
any-other id f (i ∷ ids) =
    let rest = any-other id f ids in
    elim (Bool-cases (id == i)) [
      | inl here ↦ let e : id ≡ i = (==_iff id i).0 here in ground (arith, rest, ap f e)
      | inr there ↦ ground (arith, rest)
    ]

pub any-remove_id :
    (id : ℕ) (f : ℕ → Bool) (ids : List ℕ) → any f (remove_id id ids) ≡ any (other id f) ids
unfolding remove_id
any-remove_id id f [] = refl
any-remove_id id f (i ∷ ids) = ground (arith, any-remove_id id f ids)

pub any-other_eq :
    (id : ℕ) (f g : ℕ → Bool)
    → ((i : ℕ) → id ≢ i → f i ≡ g i)
    → (ids : List ℕ) → any (other id f) ids ≡ any (other id g) ids
any-other_eq id f g same_there [] = refl
any-other_eq id f g same_there (i ∷ ids) =
    let rest = any-other_eq id f g same_there ids in
    elim (Bool-cases (id == i)) [
      | inl here ↦ ground (arith, rest)
      | inr there ↦
          let e : f i ≡ g i = same_there i (λ (e : id ≡ i). ground (arith, ==_iff id i)) in
          ground (arith, rest)
    ]

pub any-le :
    (f g : ℕ → Bool)
    → ((i : ℕ) → f i ≡ true → g i ≡ true)
    → (ids : List ℕ) → any f ids ≡ true
    → any g ids ≡ true
any-le f g le [] h = h
any-le f g le (i ∷ ids) h = ground (arith, le i, any-le f g le ids)

-- An owner that is not among the live ones does not matter.
pub any-fresh :
    (id : ℕ) (f g : ℕ → Bool)
    → ((i : ℕ) → id ≢ i → f i ≡ g i)
    → (ids : List ℕ) → has_id id ids ≡ false
    → any f ids ≡ any g ids
any-fresh id f g same_there [] h = refl
any-fresh id f g same_there (i ∷ ids) h =
    let e : f i ≡ g i = same_there i (λ (e : id ≡ i). ground (arith, ==_iff id i)) in
    ground (arith, any-fresh id f g same_there ids)

pub has_id-remove :
    (j i : ℕ) (ids : List ℕ) → has_id j (remove_id i ids) ≡ (has_id j ids && not (i == j))
unfolding remove_id
has_id-remove j i [] = refl
has_id-remove j i (h ∷ ids) = ground (arith, has_id-remove j i ids)
