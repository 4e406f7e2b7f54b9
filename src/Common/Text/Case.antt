-- ===== src/Common/Text/Case.antt =====
-- strings.ToLower, strings.ToUpper and strings.EqualFold. ASCII is written out; beyond it Go reads the tables of
-- package unicode, which are a parameter: `lower` and `upper` are unicode.ToLower and
-- unicode.ToUpper, and `fold` chooses one
-- letter for all letters that are equal under simple case folding.
use Prim.Native.Nat.{ℕ, ◌+◌, ◌-◌}
use mathlib.Core.Bool.{Bool, ◌&&◌}
use mathlib.Core.List.{List, map}
use labtether_agent.Common.Tests.{leb, ltb, if◌then◌else◌}
use labtether_agent.Common.Text.Compare.{same}

pub record CaseTables : Type 0 where
  pub lower : ℕ → ℕ
  pub upper : ℕ → ℕ
  pub fold : ℕ → ℕ

unfoldable pub ascii_lower : ℕ → ℕ
ascii_lower c = if leb b'A' c && leb c b'Z' then c + 32 else c

unfoldable pub ascii_upper : ℕ → ℕ
ascii_upper c = if leb b'a' c && leb c b'z' then c - 32 else c

module _ (tables : CaseTables) where
  unfoldable pub lower_rune : ℕ → ℕ
  unfolding ascii_lower
  lower_rune c = if ltb c 128 then ascii_lower c else tables.lower c

  unfoldable pub fold_rune : ℕ → ℕ
  unfolding ascii_lower
  fold_rune c = if ltb c 128 then ascii_lower c else tables.fold c

  unfoldable pub to_lower : List ℕ → List ℕ
  unfolding lower_rune
  to_lower s = map lower_rune s

  unfoldable pub upper_rune : ℕ → ℕ
  unfolding ascii_upper
  upper_rune c = if ltb c 128 then ascii_upper c else tables.upper c

  unfoldable pub to_upper : List ℕ → List ℕ
  unfolding upper_rune
  to_upper s = map upper_rune s

  unfoldable pub equal_fold : List ℕ → List ℕ → Bool
  unfolding fold_rune same
  equal_fold s t = same (map fold_rune s) (map fold_rune t)
