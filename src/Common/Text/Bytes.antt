-- ===== src/Common/Text/Bytes.antt =====
-- The bytes that a string takes in UTF-8: Go's `len`.
use Prim.Native.Nat.{ℕ, ◌+◌}
use mathlib.Core.List.{List, [], ◌∷◌}
use labtether_agent.Common.Tests.{ltb, if◌then◌else◌}

abbrev pub rune_bytes : ℕ → ℕ
rune_bytes c = if ltb c 0x80 then 1 else if ltb c 0x800 then 2 else if ltb c 0x10000 then 3 else 4

abbrev pub byte_length : List ℕ → ℕ
byte_length [] = 0
byte_length (c ∷ s) = rune_bytes c + byte_length s
