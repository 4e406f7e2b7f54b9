-- ===== src/Common/Text/Space.antt =====
-- strings.TrimSpace and strings.Fields.
use Prim.Native.Nat.{ℕ}
use mathlib.Core.Bool.{Bool, true, false, ◌&&◌, ◌||◌}
use mathlib.Core.List.{List, [], ◌∷◌, ◌++◌}
use labtether_agent.Common.Tests.{◌==◌, leb, if◌then◌else◌}

-- unicode.IsSpace
unfoldable pub is_space : ℕ → Bool
is_space c =
    (leb 9 c && leb c 13)
    || c == 32
    || c == 0x85
    || c == 0xA0
    || c == 0x1680
    || (leb 0x2000 c && leb c 0x200A)
    || c == 0x2028
    || c == 0x2029
    || c == 0x202F
    || c == 0x205F
    || c == 0x3000

abbrev pub is_blank : List ℕ → Bool
is_blank [] = true
is_blank (c ∷ s) = false

unfoldable pub trim_left : (ℕ → Bool) → List ℕ → List ℕ
trim_left drops [] = []
trim_left drops (c ∷ s) = if drops c then trim_left drops s else c ∷ s

unfoldable pub trim_right : (ℕ → Bool) → List ℕ → List ℕ
trim_right drops [] = []
trim_right drops (c ∷ s) =
    let rest = trim_right drops s in if is_blank rest && drops c then [] else c ∷ rest

unfoldable pub trim_space : List ℕ → List ℕ
unfolding trim_left trim_right is_space
trim_space s = trim_right is_space (trim_left is_space s)

-- The words read so far, the current word, and the unread text.
unfoldable pub fields_from : (ℕ → Bool) → List (List ℕ) → List ℕ → List ℕ → List (List ℕ)
fields_from splits words word [] = if is_blank word then words else words ++ (word ∷ [])
fields_from splits words word (c ∷ s) =
    let cut = fields_from splits (if is_blank word then words else words ++ (word ∷ [])) [] s in
    let longer = fields_from splits words (word ++ (c ∷ [])) s in if splits c then cut else longer

-- strings.FieldsFunc
unfoldable pub fields_func : (ℕ → Bool) → List ℕ → List (List ℕ)
unfolding fields_from
fields_func splits s = fields_from splits [] [] s

unfoldable pub fields : List ℕ → List (List ℕ)
unfolding fields_func is_space
fields s = fields_func is_space s
