-- ===== src/Packages.antt =====
-- internal/agentcore/packagepolicy/package_names.go: which package names a remote request may hand
-- to the package manager. The code walks bytes; a code point beyond ASCII is refused at its first
-- byte, as the walk over code points here refuses it.
pub mod Accepted
pub mod Names
mod Tests
use labtether_agent.Common.{
  ℕ, ◌+◌, Bool, true, false, not, ◌&&◌, ◌||◌, List, [], ◌∷◌, ◌++◌, leb, ltb, ◌==◌, if◌then◌else◌,
  length, all, any, Result, ok, err, ◌>>=◌,
}
use labtether_agent.Common.Text.{Text, codes}
use labtether_agent.Common.Text.Bytes.{byte_length}
use labtether_agent.Common.Text.Compare.{same, member}
use labtether_agent.Common.Text.Space.{is_blank, trim_space}
use labtether_agent.Common.Text.Search.{contains, has_rune, split}

abbrev pub max_package_count : ℕ
max_package_count = 128

abbrev pub max_package_name_bytes : ℕ
max_package_name_bytes = 128

-- Each entry is named by its position, from 1, or by its trimmed name.
pub data PackageError : Type 0 where
  too_many : PackageError
  control_character empty_entry too_long : ℕ → PackageError
  leading_hyphen unsupported : Text → PackageError

-- unicode.IsControl
abbrev pub is_control : ℕ → Bool
is_control c = leb c 0x1F || (leb 0x7F c && leb c 0x9F)

unfoldable pub is_ascii_alpha : ℕ → Bool
is_ascii_alpha c = (leb b'a' c && leb c b'z') || (leb b'A' c && leb c b'Z')

unfoldable pub is_ascii_alpha_numeric : ℕ → Bool
unfolding is_ascii_alpha
is_ascii_alpha_numeric c = is_ascii_alpha c || (leb b'0' c && leb c b'9')

-- the first loop of `validPackageName`
unfoldable pub characters_allowed : Text → Bool
characters_allowed [] = true
characters_allowed (c ∷ s) =
    (is_ascii_alpha_numeric c || c == b'@')
    && all (λ d. is_ascii_alpha_numeric d || has_rune (codes "@+._:/=~-") d) s

abbrev pub bad_segment : Text → Bool
bad_segment s = is_blank s || same s (codes ".") || same s (codes "..")

unfoldable pub valid_package_name : Text → Bool
valid_package_name name =
    if not (characters_allowed name)
    then false
    else if any bad_segment (split name b'/')
    then false
    else not (contains name (codes ":/"))

abbrev starts_with_hyphen : Text → Bool
starts_with_hyphen [] = false
starts_with_hyphen (c ∷ s) = c == b'-'

-- The checks of one entry, which yield its trimmed name.
unfoldable pub check_entry : ℕ → Text → Result PackageError Text
check_entry position raw =
    let name = trim_space raw in
    if any is_control raw
    then err (control_character position)
    else if is_blank name
    then err (empty_entry position)
    else if ltb max_package_name_bytes (byte_length name)
    then err (too_long position)
    else if starts_with_hyphen name
    then err (leading_hyphen name)
    else if not (valid_package_name name)
    then err (unsupported name)
    else ok name

-- the loop, with the position of the next entry, `seen` and `normalized`
unfoldable pub normalize_from :
    ℕ → List Text → List Text → List Text → Result PackageError (List Text)
normalize_from position seen normalized [] = ok normalized
normalize_from position seen normalized (raw ∷ packages) = do
  name ← check_entry position raw
  let known = member name seen
  normalize_from (position + 1) (if known then seen else name ∷ seen)
      (if known then normalized else normalized ++ (name ∷ [])) packages

unfoldable pub normalize_and_validate : List Text → Result PackageError (List Text)
normalize_and_validate packages =
    if ltb max_package_count (length packages)
    then err too_many
    else normalize_from 1 [] [] packages
