-- ===== src/Common/Text.antt =====
-- Go strings as lists of code points, and what the components use of packages strings and unicode.
-- A command, a path or a setting reaches the agent in JSON or from the environment; a string that
-- is not valid UTF-8 is outside the model.
pub mod Compare
pub mod Bytes
pub mod Space
pub mod Case
pub mod Search
pub mod Suffix
pub mod FilePath
pub mod Number
pub mod Words
pub mod Distinct
use Prim.Native.Nat.{ℕ}
use Prim.Native.Char.{code}
use Prim.Native.String.{String}
use mathlib.Core.List.{List, [], ◌∷◌}

abbrev pub Text : Type 0
Text = List ℕ

-- The code points of a literal.
abbrev pub codes : String → Text
codes String.[] = []
codes (String.◌∷◌ c s) = code c ∷ codes s
