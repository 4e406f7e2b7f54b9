-- ===== src/Settings/Defaults.antt =====
-- sysconfig/settings_definitions.go: `DefaultAgentSettingValues`, and that every default is a value.
use labtether_agent.Common.{
  ◌≡◌, refl, ap, arith, Bool, true, false, List, [], ◌∷◌, map, all, All, and-true, Result, ok, err,
}
use labtether_agent.Common.Sort.{insert, sort}
use labtether_agent.Common.Text.{Text}
use labtether_agent.Common.Text.Case.{
  CaseTables, ascii_lower, equal_fold, fold_rune, lower_rune, to_lower,
}
use labtether_agent.Common.Text.Compare.{member, same, same_iff}
use labtether_agent.Common.Text.Number.{atoi, decimal, digits, digits_before, digits_value, itoa}
use labtether_agent.Common.Text.Search.{has_prefix, join, strip_prefix, trim_prefix}
use labtether_agent.Common.Text.Space.{
  fields_from, fields_func, is_space, trim_left, trim_right, trim_space,
}
use labtether_agent.Command.Env.{parse_bool}
use labtether_agent.Settings.Cidrs.{normalize_discovery_cidr_list_value}
use labtether_agent.Settings.Endpoint.{
  normalize_docker_endpoint_value, normalize_docker_npipe_endpoint, other_endpoint,
}
use labtether_agent.Settings.Keys.{SettingError}
use labtether_agent.Settings.Ports.{normalize_discovery_port_list_value}
use labtether_agent.Settings.Table.{
  agent_setting_definition_by_key, agent_setting_definitions, find_definition,
}
use labtether_agent.Settings.Values.{
  Checks, check_range, first_equal, normalize_agent_setting_value, normalize_bool, normalize_enum,
  normalize_int, normalize_string, normalize_value,
}

unfoldable pub default_agent_setting_values : List (Text × Text)
default_agent_setting_values = map (λ d. (d.key, d.default_value)) agent_setting_definitions

-- The result is the text.
abbrev gives : Result SettingError Text → Text → Bool
gives (ok v) w = same v w
gives (err why) w = false

gives-ok : (r : Result SettingError Text) (w : Text) → gives r w ≡ true → r ≡ ok w
gives-ok (ok v) w h = ap ok ((same_iff v w).0 h)
gives-ok (err why) w h = absurd (ground arith)

module _ (tables : CaseTables) (checks : Checks) where
  given : Text × Text → Bool
  given (key, value) = gives (normalize_agent_setting_value tables checks key value) value

  given-All :
      (values : List (Text × Text))
      → all given values ≡ true
      → All
          (λ (key, value). normalize_agent_setting_value tables checks key value ≡ ok value)
          values
  unfolding given
  given-All [] h = tt
  given-All ((key, value) ∷ values) h =
      let (a, b) = and-true h in
      (gives-ok (normalize_agent_setting_value tables checks key value) value a, given-All values b)

  -- Every default of the table is accepted for its key and is left as it is, whatever the case
  -- tables and the checks of prefixes and URLs answer.
  pub default_agent_setting_values-accepted :
      All
        (λ (key, value). normalize_agent_setting_value tables checks key value ≡ ok value)
        default_agent_setting_values
  unfolding given insert sort ascii_lower equal_fold fold_rune lower_rune to_lower member same atoi
      decimal digits digits_before digits_value itoa has_prefix join strip_prefix trim_prefix
      fields_from fields_func is_space trim_left trim_right trim_space parse_bool
      normalize_discovery_cidr_list_value normalize_docker_endpoint_value
      normalize_docker_npipe_endpoint other_endpoint normalize_discovery_port_list_value
      agent_setting_definition_by_key agent_setting_definitions find_definition check_range
      first_equal normalize_agent_setting_value normalize_bool normalize_enum normalize_int
      normalize_string normalize_value default_agent_setting_values
  default_agent_setting_values-accepted = given-All default_agent_setting_values refl
