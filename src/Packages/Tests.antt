-- ===== src/Packages/Tests.antt =====
-- Requests, and the theorems at one of them.
use labtether_agent.Common.{◌≡◌, ◌↔◌, ◌≤◌, refl, List, [], ◌∷◌, ok, err, All, length}
use labtether_agent.Common.Text.{Text, codes}
use labtether_agent.Common.Text.Compare.{same, member}
use labtether_agent.Common.Text.Space.{trim_space}
use labtether_agent.Common.Text.Search.{split, contains, has_prefix}
use labtether_agent.Packages.{
  control_character, empty_entry, leading_hyphen, unsupported, check_entry, valid_package_name,
  characters_allowed, is_ascii_alpha_numeric, normalize_from, normalize_and_validate,
}
use labtether_agent.Packages.Accepted.{IsAcceptable, trimmed, normalize_and_validate_iff}
use labtether_agent.Common.Text.Distinct.{distinct, Nodup}
use labtether_agent.Packages.Names.{IsSafeName, normalize_and_validate-IsSafeName}

run : Unit {0}
unfolding normalize_and_validate normalize_from check_entry valid_package_name characters_allowed
    is_ascii_alpha_numeric trim_space split contains has_prefix member same
run = tt

abbrev request : List Text
request = codes " curl" ∷ codes "@scope/pkg" ∷ codes "curl " ∷ []

abbrev answer : List Text
answer = codes "curl" ∷ codes "@scope/pkg" ∷ []

accepts : normalize_and_validate request ≡ ok answer
unfolding run
accepts = refl

refuses :
    (normalize_and_validate (codes "a" ∷ codes "-y" ∷ []) ≡ err (leading_hyphen (codes "-y")))
    × (normalize_and_validate (codes "  " ∷ []) ≡ err (empty_entry 1))
    × (normalize_and_validate (codes "a\n" ∷ []) ≡ err (control_character 1))
    × (normalize_and_validate (codes "../a" ∷ []) ≡ err (unsupported (codes "../a")))
unfolding run
refuses = (refl, refl, refl, refl)

normalize_and_validate_iff_example :
    (normalize_and_validate request ≡ ok answer)
    ↔ ((length request ≤ 128) × All IsAcceptable request × (answer ≡ distinct (trimmed request)))
normalize_and_validate_iff_example = normalize_and_validate_iff request answer

normalize_and_validate-IsSafeName_example :
    All IsSafeName answer × Nodup answer × (length answer ≤ 128)
normalize_and_validate-IsSafeName_example = normalize_and_validate-IsSafeName request answer accepts
