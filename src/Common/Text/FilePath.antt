-- ===== src/Common/Text/FilePath.antt =====
-- Package path/filepath on Unix, where the separator is '/'.
use Prim.Native.Nat.{ℕ}
use mathlib.Core.Path.{◌≡◌, refl}
use mathlib.Core.Bool.{Bool, false, ◌||◌}
use mathlib.Core.List.{List, [], ◌∷◌, ◌++◌, reverse}
use labtether_agent.Common.Tests.{◌==◌, if◌then◌else◌}
use labtether_agent.Common.Text.{codes}
use labtether_agent.Common.Text.Compare.{same}
use labtether_agent.Common.Text.Space.{is_blank, trim_right}
use labtether_agent.Common.Text.Search.{split, join}

abbrev pub is_slash : ℕ → Bool
is_slash c = c == b'/'

-- filepath.IsAbs
abbrev pub is_abs : List ℕ → Bool
is_abs [] = false
is_abs (c ∷ s) = is_slash c

-- ".." above what is on the stack, whose top stands first
unfoldable pub go_up : Bool → List (List ℕ) → List (List ℕ)
unfolding same
go_up rooted [] = if rooted then [] else codes ".." ∷ []
go_up rooted (top ∷ stack) = if same top (codes "..") then codes ".." ∷ top ∷ stack else stack

unfoldable pub resolve_part : Bool → List (List ℕ) → List ℕ → List (List ℕ)
unfolding go_up same
resolve_part rooted stack part =
    if is_blank part || same part (codes ".")
    then stack
    else if same part (codes "..")
    then go_up rooted stack
    else part ∷ stack

unfoldable pub resolve_parts : Bool → List (List ℕ) → List (List ℕ) → List (List ℕ)
unfolding resolve_part
resolve_parts rooted stack [] = stack
resolve_parts rooted stack (part ∷ parts) =
    resolve_parts rooted (resolve_part rooted stack part) parts

abbrev or_dot : List ℕ → List ℕ
or_dot [] = codes "."
or_dot (c ∷ s) = c ∷ s

-- The parts of the clean path, in order.
unfoldable pub clean_parts : List ℕ → List (List ℕ)
unfolding resolve_parts split
clean_parts path = reverse (resolve_parts (is_abs path) [] (split path b'/'))

-- filepath.Clean
unfoldable pub clean : List ℕ → List ℕ
unfolding clean_parts join
clean path =
    let joined = join (clean_parts path) (codes "/") in
    if is_abs path then b'/' ∷ joined else or_dot joined

-- what stands behind the last slash, and what stands up to it and with it
unfoldable pub behind_last_slash : List ℕ → List ℕ → List ℕ
behind_last_slash acc [] = acc
behind_last_slash acc (c ∷ s) = behind_last_slash (if is_slash c then [] else acc ++ (c ∷ [])) s

unfoldable pub through_last_slash : List ℕ → List ℕ → List ℕ → List ℕ
through_last_slash kept acc [] = kept
through_last_slash kept acc (c ∷ s) =
    through_last_slash (if is_slash c then acc ++ (c ∷ []) else kept) (acc ++ (c ∷ [])) s

abbrev or_slash : List ℕ → List ℕ
or_slash [] = codes "/"
or_slash (c ∷ s) = c ∷ s

-- filepath.Base
unfoldable pub base : List ℕ → List ℕ
unfolding trim_right behind_last_slash
base [] = codes "."
base (c ∷ s) = or_slash (behind_last_slash [] (trim_right is_slash (c ∷ s)))

-- filepath.Dir
unfoldable pub dir : List ℕ → List ℕ
unfolding clean through_last_slash
dir path = clean (through_last_slash [] [] path)

-- filepath.Join of two elements
unfoldable pub join_paths : List ℕ → List ℕ → List ℕ
unfolding clean
join_paths [] [] = []
join_paths [] (c ∷ s) = clean (c ∷ s)
join_paths (c ∷ s) t = clean ((c ∷ s) ++ (b'/' ∷ t))

clean_examples :
    (clean (codes "/a//b/./../c/") ≡ codes "/a/c")
    × (clean (codes "/../x") ≡ codes "/x")
    × (clean (codes "a/../../b") ≡ codes "../b")
    × (clean [] ≡ codes ".")
    × (clean (codes "//") ≡ codes "/")
    × (base (codes "/usr/bin/") ≡ codes "bin")
    × (base (codes "//") ≡ codes "/")
    × (dir (codes "/a/.ssh/id_rsa") ≡ codes "/a/.ssh")
    × (dir (codes "x") ≡ codes ".")
unfolding clean base dir
clean_examples = (refl, refl, refl, refl, refl, refl, refl, refl, refl)
