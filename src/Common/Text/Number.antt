-- ===== src/Common/Text/Number.antt =====
-- strconv.Atoi and strconv.Itoa on a 64-bit int, strconv.FormatBool.
use labtether_agent.Common.Int.{ℤ, pos, negsuc}
use labtether_agent.Common.Lists.{All}
use labtether_agent.Common.Tests.{Bool-cases, choose, ltb, leb, ◌==◌, ==_iff, lt→ltb, if◌then◌else◌}
use mathlib.Core.Bool.{Bool, true, false, ◌&&◌}
use mathlib.Core.Logic.{inl, inr}
use mathlib.Core.List.{List, [], ◌∷◌}
use mathlib.Core.Option.{Option, none, some}
use mathlib.Core.Path.{◌≡◌, refl, sym, ap, ◌∙◌}
use native.Mathlib.Omega.{arith}
use Prim.Native.Nat.{ℕ, zero, suc, ◌+◌, ◌-◌, ◌*◌, ◌/◌, ◌%◌, ◌<◌}

abbrev pub is_digit : ℕ → Bool
is_digit c = leb b'0' c && leb c b'9'

-- The value of decimal digits behind the value read so far.
unfoldable pub digits_value : ℕ → List ℕ → Option ℕ
digits_value acc [] = some acc
digits_value acc (c ∷ s) =
    let rest = digits_value (acc * 10 + (c - b'0')) s in if is_digit c then rest else none

-- 2 ^ 63
abbrev pub int_limit : ℕ
int_limit = 9223372036854775808

unfoldable pub digits : List ℕ → Option ℕ
unfolding digits_value
digits [] = none
digits (c ∷ s) = digits_value 0 (c ∷ s)

abbrev positive : Option ℕ → Option ℤ
positive none = none
positive (some n) = if ltb n int_limit then some (pos n) else none

abbrev negated : ℕ → ℤ
negated zero = pos 0
negated (suc n) = negsuc n

abbrev negative : Option ℕ → Option ℤ
negative none = none
negative (some n) = if leb n int_limit then some (negated n) else none

-- An error of any kind is `none`.
unfoldable pub atoi : List ℕ → Option ℤ
unfolding digits
atoi [] = none
atoi (c ∷ s) =
    if c == b'+'
    then positive (digits s)
    else if c == b'-'
    then negative (digits s)
    else positive (digits (c ∷ s))

-- The decimal digits of `n` in front of the text; each round divides by ten, so `n + 1` rounds are
-- enough.
unfoldable pub digits_before : ℕ → ℕ → List ℕ → List ℕ
digits_before zero n s = s
digits_before (suc rounds) n s =
    let longer = digits_before rounds (n / 10) ((b'0' + n % 10) ∷ s) in
    if n / 10 == 0 then (b'0' + n % 10) ∷ s else longer

unfoldable pub decimal : ℕ → List ℕ
unfolding digits_before
decimal n = digits_before (suc n) n []

unfoldable pub itoa : ℤ → List ℕ
unfolding decimal
itoa (pos n) = decimal n
itoa (negsuc n) = b'-' ∷ decimal (suc n)

is_digit-digit : (n : ℕ) → is_digit (b'0' + n % 10) ≡ true
is_digit-digit n = let small : n % 10 < 10 = omega arith in ground (arith, small)

-- One digit read back.
digits_value-digit :
    (acc n : ℕ) (s : List ℕ)
    → acc * 10 + n % 10 ≡ n
    → digits_value acc ((b'0' + n % 10) ∷ s) ≡ digits_value n s
unfolding digits_value
digits_value-digit acc n s e =
    ap (λ b. if b then digits_value (acc * 10 + (b'0' + n % 10 - b'0')) s else none)
      (is_digit-digit n)
    ∙ ap (λ m. digits_value m s) (omega (arith, e))

fewer : (rounds n : ℕ) → n < suc rounds → (n / 10 == 0) ≡ false → n / 10 < rounds
fewer rounds n h large = ground arith

digits_value-before :
    (rounds n : ℕ) (s : List ℕ)
    → n < rounds
    → digits_value 0 (digits_before rounds n s) ≡ digits_value n s
unfolding digits_before
digits_value-before zero n s h = absurd (omega arith)
digits_value-before (suc rounds) n s h = elim (Bool-cases (n / 10 == 0)) [
  | inl small ↦
      let first = digits_value-digit 0 n s (let e = (==_iff (n / 10) 0).0 small in omega arith) in
      ground (arith, first)
  | inr large ↦
      let rest =
        digits_value-before rounds (n / 10) ((b'0' + n % 10) ∷ s) (fewer rounds n h large) in
      let last = digits_value-digit (n / 10) n s (omega arith) in ground (arith, rest, last)
]

-- The digits are a digit and more digits.
digits_before-All :
    (rounds n : ℕ) (s : List ℕ)
    → All (λ c. is_digit c ≡ true) s
    → All (λ c. is_digit c ≡ true) (digits_before rounds n s)
unfolding digits_before
digits_before-All zero n s h = h
digits_before-All (suc rounds) n s h =
    let more = digits_before-All rounds (n / 10) ((b'0' + n % 10) ∷ s) (is_digit-digit n, h) in
    choose (All (λ c. is_digit c ≡ true)) (n / 10 == 0) (is_digit-digit n, h) more

digits_before-cons :
    (rounds n : ℕ) (c : ℕ) (s : List ℕ)
    → (d : ℕ) × ((t : List ℕ) × (digits_before rounds n (c ∷ s) ≡ d ∷ t))
unfolding digits_before
digits_before-cons zero n c s = (c, (s, refl))
digits_before-cons (suc rounds) n c s =
    choose (λ out. (d : ℕ) × ((t : List ℕ) × (out ≡ d ∷ t))) (n / 10 == 0)
      (b'0' + n % 10, (c ∷ s, refl)) (digits_before-cons rounds (n / 10) (b'0' + n % 10) (c ∷ s))

pub decimal-All : (n : ℕ) → All (λ c. is_digit c ≡ true) (decimal n)
unfolding decimal
decimal-All n = digits_before-All (suc n) n [] tt

pub decimal-cons : (n : ℕ) → (d : ℕ) × ((t : List ℕ) × (decimal n ≡ d ∷ t))
unfolding decimal
decimal-cons n =
    choose (λ out. (d : ℕ) × ((t : List ℕ) × (out ≡ d ∷ t))) (n / 10 == 0)
      (b'0' + n % 10, ([], refl)) (digits_before-cons n (n / 10) (b'0' + n % 10) [])

digits-value : {s : List ℕ} (d : ℕ) (t : List ℕ) → s ≡ d ∷ t → digits s ≡ digits_value 0 s
unfolding digits
digits-value d t e = ap digits e ∙ sym (ap (digits_value 0) e)

digits-decimal : (n : ℕ) → digits (decimal n) ≡ some n
unfolding decimal digits_value
digits-decimal n =
    let (d, (t, e)) = decimal-cons n in
    digits-value d t e ∙ digits_value-before (suc n) n [] (omega arith)

atoi-digit : (d : ℕ) (t : List ℕ) → is_digit d ≡ true → atoi (d ∷ t) ≡ positive (digits (d ∷ t))
unfolding atoi
atoi-digit d t h = ground arith

atoi-digits :
    (s : List ℕ) (d : ℕ) (t : List ℕ)
    → s ≡ d ∷ t
    → All (λ c. is_digit c ≡ true) s
    → atoi s ≡ positive (digits s)
atoi-digits [] d t e all = cc
atoi-digits (c ∷ s) d t e (h, all) = atoi-digit c s h

-- What Itoa writes, Atoi reads back.
pub atoi-decimal : (n : ℕ) → n < int_limit → atoi (decimal n) ≡ some (pos n)
atoi-decimal n h =
    let (d, (t, e)) = decimal-cons n in
    atoi-digits (decimal n) d t e (decimal-All n)
    ∙ ap positive (digits-decimal n)
    ∙ ap (λ b. if b then some (pos n) else none) (lt→ltb n int_limit h)
