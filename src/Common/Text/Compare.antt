-- ===== src/Common/Text/Compare.antt =====
-- `==` on strings, and sets of strings as lists.
use mathlib.Core.Path.{◌≡◌, refl}
use mathlib.Core.Logic.{◌↔◌, ◌⊎◌}
use mathlib.Core.Bool.{Bool, true, false, ◌&&◌}
use mathlib.Core.List.{List, [], ◌∷◌}
use native.Mathlib.Omega.{arith}
use Prim.Native.Nat.{ℕ}
use labtether_agent.Common.Tests.{◌==◌}
use labtether_agent.Common.Lists.{any}

unfoldable pub same : List ℕ → List ℕ → Bool
same [] [] = true
same (c ∷ s) (d ∷ t) = c == d && same s t
same _ _ = false

pub same_iff : (s t : List ℕ) → (same s t ≡ true) ↔ (s ≡ t)
unfolding same
same_iff (c ∷ s) (d ∷ t) = ground (arith, same_iff s t)
same_iff _ _ = ground arith

pub same_refl : (s : List ℕ) → same s s ≡ true
same_refl s = (same_iff s s).1 refl

-- `_, found := set[s]`
unfoldable pub member : List ℕ → List (List ℕ) → Bool
member s set = any (same s) set

-- `s` stands in the list.
abbrev pub In : List ℕ → List (List ℕ) → Type 0
In s [] = ⊥
In s (t ∷ set) = (s ≡ t) ⊎ In s set

pub member-In : (s : List ℕ) (set : List (List ℕ)) → member s set ≡ true → In s set
unfolding member
member-In s [] h = cc
member-In s (t ∷ set) h = ground (arith, same_iff s t, member-In s set)

pub In-member : (s : List ℕ) (set : List (List ℕ)) → In s set → member s set ≡ true
unfolding member
In-member s [] h = absurd h
In-member s (t ∷ set) h = ground (arith, same_iff s t, In-member s set)
