-- ===== src/Settings/Stable.antt =====
-- A normalized value is in the bounds of its setting, and is accepted again unchanged.
use labtether_agent.Common.{
  ℕ, ◌≤◌, ◌<◌, ◌≡◌, inl, inr, refl, sym, ap, subst, arith, Bool, true, false, Option, none, some,
  List, [], ◌∷◌, all, Bool-cases, Option-cases, and-true, ok, All-weaken,
}
use labtether_agent.Common.Int.{ℤ, pos, negsuc}
use labtether_agent.Common.Text.{Text}
use labtether_agent.Common.Text.Case.{CaseTables, equal_fold}
use labtether_agent.Common.Text.Compare.{same, same_iff, member, In}
use labtether_agent.Common.Text.Number.{atoi, itoa, decimal, decimal-All, atoi-decimal, int_limit}
use labtether_agent.Common.Text.Space.{is_space, trim_space, trim_left, trim_right}
use labtether_agent.Common.Text.Words.{trim_space-Unspaced}
use labtether_agent.Command.Env.{parse_bool}
use labtether_agent.Settings.Keys.{Definition}
use labtether_agent.Settings.Lookup.{is_stable_choice}
use labtether_agent.Settings.PortText.{digit_is_no_space}
use labtether_agent.Settings.Values.{
  check_range, first_equal, format_bool, normalize_bool, normalize_enum, normalize_int,
}

-- The bounds that a definition gives a number are positive and fit an int.
abbrev pub HasBounds : Definition → Type 0
HasBounds d = (1 ≤ d.min_int) × (d.max_int < int_limit)

-- A number within the bounds, in decimal.
abbrev pub IsInRange : Definition → Text → Type 0
IsInRange d v = (n : ℕ) × (d.min_int ≤ n) × (n ≤ d.max_int) × (v ≡ decimal n)

itoa-pos : (n : ℕ) → itoa (pos n) ≡ decimal n
unfolding itoa
itoa-pos n = refl

check_range-IsInRange :
    (d : Definition) (z : ℤ) {v : Text}
    → 1 ≤ d.min_int
    → 1 ≤ d.max_int
    → check_range d z ≡ ok v
    → IsInRange d v
unfolding check_range
check_range-IsInRange d (pos n) {v} l m h =
    (n, ground arith, ground arith, (let e = itoa-pos n in ground arith))
check_range-IsInRange d (negsuc n) {v} l m h = absurd (ground arith)

pub normalize_int-IsInRange :
    (d : Definition) (value : Text) {v : Text}
    → 1 ≤ d.min_int
    → 1 ≤ d.max_int
    → normalize_int d value ≡ ok v
    → IsInRange d v
unfolding normalize_int
normalize_int-IsInRange d value l m h = elim (Option-cases (atoi value)) [
  | inl e ↦ absurd (ground arith)
  | inr (z, e) ↦ check_range-IsInRange d z l m (ground arith)
]

pub normalize_int-decimal :
    (d : Definition) (n : ℕ)
    → d.max_int < int_limit
    → d.min_int ≤ n
    → n ≤ d.max_int
    → normalize_int d (decimal n) ≡ ok (decimal n)
unfolding normalize_int check_range
normalize_int-decimal d n f l u =
    let a = atoi-decimal n (omega (arith, f, u)) in let e = itoa-pos n in ground (arith, a, e)

pub decimal-trim : (n : ℕ) → trim_space (decimal n) ≡ decimal n
decimal-trim n =
    trim_space-Unspaced (decimal n) (All-weaken digit_is_no_space (decimal n) (decimal-All n))

pub format_bool-trim : (b : Bool) → trim_space (format_bool b) ≡ format_bool b
unfolding trim_space trim_left trim_right is_space
format_bool-trim true = refl
format_bool-trim false = refl

pub format_bool-normalize : (b : Bool) → normalize_bool (format_bool b) ≡ ok (format_bool b)
unfolding normalize_bool parse_bool member same
format_bool-normalize true = refl
format_bool-normalize false = refl

pub normalize_bool-format :
    (value : Text) {v : Text} → normalize_bool value ≡ ok v → (b : Bool) × (v ≡ format_bool b)
unfolding normalize_bool
normalize_bool-format value h = elim (Option-cases (parse_bool value)) [
  | inl e ↦ absurd (ground arith)
  | inr (b, e) ↦ (b, ground arith)
]

module _ (tables : CaseTables) where
  first_equal-In :
      (value : Text) (allowed : List Text) {v : Text}
      → first_equal tables value allowed ≡ some v
      → In v allowed
  unfolding first_equal
  first_equal-In value [] h = absurd (ground arith)
  first_equal-In value (a ∷ allowed) h = elim (Bool-cases (equal_fold tables value a)) [
    | inl t ↦ inl (ground arith)
    | inr t ↦ inr (first_equal-In value allowed (ground arith))
  ]

  pub normalize_enum-In :
      (d : Definition) (value : Text) {v : Text}
      → normalize_enum tables d value ≡ ok v
      → In v d.allowed_values
  unfolding normalize_enum
  normalize_enum-In d value h = elim (Option-cases (first_equal tables value d.allowed_values)) [
    | inl e ↦ absurd (ground arith)
    | inr (a, e) ↦ first_equal-In value d.allowed_values (ground arith)
  ]

  found :
      (a : Text) (o : Option Text)
      → (elim o [ none ↦ false | some b ↦ same a b ]) ≡ true
      → o ≡ some a
  found a none h = absurd (ground arith)
  found a (some b) h = ap some (sym ((same_iff a b).0 h))

  pub stable_choice :
      (allowed all_of : List Text) {v : Text}
      → all (is_stable_choice tables allowed) all_of ≡ true
      → In v all_of
      → (first_equal tables v allowed ≡ some v) × (trim_space v ≡ v)
  stable_choice allowed [] h i = absurd i
  stable_choice allowed (a ∷ all_of) h (inr i) = stable_choice allowed all_of (and-true h).1 i
  stable_choice allowed (a ∷ all_of) h (inl i) =
      subst (λ v. (first_equal tables v allowed ≡ some v) × (trim_space v ≡ v)) (sym i)
        (let (f, t) = and-true (and-true h).0 in
          (found a (first_equal tables a allowed) f, (same_iff (trim_space a) a).0 t))
