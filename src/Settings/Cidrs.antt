-- ===== src/Settings/Cidrs.antt =====
-- sysconfig/settings_value_validation.go: `NormalizeDiscoveryCIDRListValue`. Package netip is a
-- parameter: what ParsePrefix returns, with the answers of the methods that are called on it.
use labtether_agent.Common.{
  Bool, true, false, not, ◌&&◌, ◌||◌, Option, none, some, List, [], ◌∷◌, ◌++◌, ltb, if◌then◌else◌,
  Result, ok, err, ◌>>=◌,
}
use labtether_agent.Common.Text.{Text, codes}
use labtether_agent.Common.Text.Compare.{member}
use labtether_agent.Common.Text.Search.{join}
use labtether_agent.Common.Text.Space.{fields_func, is_blank, trim_space}
use labtether_agent.Settings.Keys.{SettingError, bad_cidr, unsupported_cidr, public_cidr}
use labtether_agent.Settings.Ports.{is_list_separator}

-- A netip.Prefix: IsValid; of its address IsValid, Is4, Is6, IsLoopback, IsPrivate and
-- IsLinkLocalUnicast (for an IPv4 address also of net.ParseIP of its text); Masked().String().
pub record Prefix : Type 0 where
  pub is_valid : Bool
  pub addr_is_valid : Bool
  pub is4 : Bool
  pub is6 : Bool
  pub is_loopback : Bool
  pub is_private : Bool
  pub is_link_local_unicast : Bool
  pub masked : Text

abbrev pub is_private_or_local_cidr : Prefix → Bool
is_private_or_local_cidr prefix =
    if not prefix.addr_is_valid
    then false
    else if prefix.is_loopback || prefix.is_private
    then true
    else if prefix.is4
    then prefix.is_link_local_unicast
    else prefix.is6 && prefix.is_link_local_unicast

-- s <= t in the order of Go strings
unfoldable pub text_leb : Text → Text → Bool
text_leb [] t = true
text_leb (c ∷ s) [] = false
text_leb (c ∷ s) (d ∷ t) =
    let rest = text_leb s t in if ltb c d then true else if ltb d c then false else rest

unfoldable pub insert_text : Text → List Text → List Text
insert_text s [] = s ∷ []
insert_text s (t ∷ ts) =
    let rest = insert_text s ts in if text_leb s t then s ∷ t ∷ ts else t ∷ rest

-- sort.Strings
unfoldable pub sort_texts : List Text → List Text
sort_texts [] = []
sort_texts (t ∷ ts) = insert_text t (sort_texts ts)

abbrev pub add_cidr : List Text → Text → List Text
add_cidr cidrs normalized = if member normalized cidrs then cidrs else cidrs ++ (normalized ∷ [])

-- the tests on a prefix, and what it adds
unfoldable pub take_prefix : List Text → Prefix → Result SettingError (List Text)
take_prefix cidrs prefix =
    if not prefix.is_valid
    then err bad_cidr
    else if not prefix.is4 && not prefix.is6
    then err unsupported_cidr
    else if not (is_private_or_local_cidr prefix)
    then err public_cidr
    else ok (add_cidr cidrs prefix.masked)

module _ (parse_prefix : Text → Option Prefix) where
  unfoldable pub cidr_field : List Text → Text → Result SettingError (List Text)
  cidr_field cidrs field =
      let token = trim_space field in
      if is_blank token then ok cidrs else elim (parse_prefix token) [
        | none ↦ err bad_cidr
        | some prefix ↦ take_prefix cidrs prefix
      ]

  unfoldable pub collect_cidrs : List Text → List Text → Result SettingError (List Text)
  collect_cidrs cidrs [] = ok cidrs
  collect_cidrs cidrs (field ∷ fields) = do
    cidrs' ← cidr_field cidrs field
    collect_cidrs cidrs' fields

  -- The early returns give what the loop gives on no field.
  unfoldable pub normalize_discovery_cidr_list_value : Text → Result SettingError Text
  normalize_discovery_cidr_list_value raw =
      let value = trim_space raw in
      let fields = fields_func is_list_separator value in
      if is_blank value
      then ok []
      else (do cidrs ← collect_cidrs [] fields; ok (join (sort_texts cidrs) (codes ",")))
