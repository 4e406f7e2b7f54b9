-- ===== src/Settings/Values.antt =====
-- sysconfig/settings_value_validation.go: `NormalizeAgentSettingValue`.
use labtether_agent.Common.{
  ℕ, Bool, true, false, ◌&&◌, Option, none, some, List, [], ◌∷◌, ltb, if◌then◌else◌, Result, ok,
  err,
}
use labtether_agent.Common.Int.{ℤ, pos, negsuc}
use labtether_agent.Common.Text.{Text, codes}
use labtether_agent.Common.Text.Case.{CaseTables, equal_fold}
use labtether_agent.Common.Text.Compare.{member, same}
use labtether_agent.Common.Text.Number.{atoi, itoa}
use labtether_agent.Common.Text.Space.{is_blank, trim_space}
use labtether_agent.Command.Env.{parse_bool}
use labtether_agent.Settings.Cidrs.{Prefix, normalize_discovery_cidr_list_value}
use labtether_agent.Settings.Endpoint.{normalize_docker_endpoint_value}
use labtether_agent.Settings.Keys.{
  Definition, SettingError, above_maximum, below_minimum, bool_setting, empty_value, enum_setting,
  int_setting, not_a_bool, not_a_number, not_one_of, setting_key_docker_endpoint,
  setting_key_services_discovery_lan_scan_cidrs, setting_key_services_discovery_lan_scan_ports,
  setting_key_services_discovery_port_scan_ports, setting_key_tls_ca_file,
  setting_key_webrtc_turn_pass, setting_key_webrtc_turn_url, setting_key_webrtc_turn_user,
  setting_key_webrtc_wayland_pipewire_node_id, string_setting, unknown_key,
}
use labtether_agent.Settings.Ports.{normalize_discovery_port_list_value}
use labtether_agent.Settings.Table.{agent_setting_definition_by_key}

-- What package netip and the checks of a URL answer.
pub record Checks : Type 0 where
  pub parse_prefix : Text → Option Prefix
  pub url_endpoint : Text → Result SettingError Text

-- strconv.FormatBool
abbrev pub format_bool : Bool → Text
format_bool true = codes "true"
format_bool false = codes "false"

-- z < n, z > n
abbrev pub int_below : ℤ → ℕ → Bool
int_below (pos m) n = ltb m n
int_below (negsuc m) n = true

abbrev pub int_above : ℤ → ℕ → Bool
int_above (pos m) n = ltb n m
int_above (negsuc m) n = false

unfoldable pub check_range : Definition → ℤ → Result SettingError Text
check_range d parsed =
    if ltb 0 d.min_int && int_below parsed d.min_int
    then err (below_minimum d.key d.min_int)
    else if ltb 0 d.max_int && int_above parsed d.max_int
    then err (above_maximum d.key d.max_int)
    else ok (itoa parsed)

unfoldable pub normalize_int : Definition → Text → Result SettingError Text
normalize_int d value = elim (atoi value) [ none ↦ err not_a_number | some n ↦ check_range d n ]

unfoldable pub normalize_bool : Text → Result SettingError Text
normalize_bool value = elim (parse_bool value) [
  | none ↦ err not_a_bool
  | some b ↦ ok (format_bool b)
]

-- The keys whose text may be empty.
abbrev pub free_text_keys : List Text
free_text_keys =
    setting_key_webrtc_turn_url ∷ setting_key_webrtc_turn_user ∷ setting_key_webrtc_turn_pass
    ∷ setting_key_webrtc_wayland_pipewire_node_id ∷ setting_key_tls_ca_file ∷ []

abbrev pub port_list_keys : List Text
port_list_keys =
    setting_key_services_discovery_port_scan_ports ∷ setting_key_services_discovery_lan_scan_ports
    ∷ []

module _ (tables : CaseTables) where
  -- the loop over the allowed values
  unfoldable pub first_equal : Text → List Text → Option Text
  first_equal value [] = none
  first_equal value (allowed ∷ rest) =
      let later = first_equal value rest in
      if equal_fold tables value allowed then some allowed else later

  unfoldable pub normalize_enum : Definition → Text → Result SettingError Text
  normalize_enum d value = elim (first_equal value d.allowed_values) [
    | some allowed ↦ ok allowed
    | none ↦ err (not_one_of d.key d.allowed_values)
  ]

  module _ (checks : Checks) where
    unfoldable pub normalize_string : Definition → Text → Result SettingError Text
    normalize_string d value =
        if same d.key setting_key_docker_endpoint
        then normalize_docker_endpoint_value tables checks.url_endpoint value
        else if member d.key free_text_keys
        then ok value
        else if member d.key port_list_keys
        then normalize_discovery_port_list_value value
        else if same d.key setting_key_services_discovery_lan_scan_cidrs
        then normalize_discovery_cidr_list_value checks.parse_prefix value
        else if is_blank value
        then err empty_value
        else ok value

    -- the switch on the type
    unfoldable pub normalize_value : Definition → Text → Result SettingError Text
    normalize_value d value = elim d.setting_type [
      | string_setting ↦ normalize_string d value
      | int_setting ↦ normalize_int d value
      | bool_setting ↦ normalize_bool value
      | enum_setting ↦ normalize_enum d value
    ]

    unfoldable pub normalize_agent_setting_value : Text → Text → Result SettingError Text
    normalize_agent_setting_value key raw = elim (agent_setting_definition_by_key tables key) [
      | none ↦ err unknown_key
      | some d ↦ normalize_value d (trim_space raw)
    ]
