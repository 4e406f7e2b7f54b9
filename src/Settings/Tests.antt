-- ===== src/Settings/Tests.antt =====
-- Settings and their values, and the theorems at some of them.
use labtether_agent.Common.{
  Option, List, ◌≡◌, refl, arith, true, false, none, some, [], ◌∷◌, ok, err, All, if◌then◌else◌,
}
use labtether_agent.Common.Sort.{insert, sort}
use labtether_agent.Common.Text.{Text, codes}
use labtether_agent.Common.Text.Case.{
  CaseTables, ascii_lower, equal_fold, fold_rune, lower_rune, to_lower,
}
use labtether_agent.Common.Text.Compare.{member, same}
use labtether_agent.Common.Text.Number.{atoi, decimal, digits, digits_before, digits_value, itoa}
use labtether_agent.Common.Text.Search.{
  contains, has_prefix, has_suffix, join, strip_prefix, trim_prefix,
}
use labtether_agent.Common.Text.Space.{
  fields_from, fields_func, is_space, trim_left, trim_right, trim_space,
}
use labtether_agent.Command.Env.{parse_bool}
use labtether_agent.Settings.Accepted.{
  Meets, normalize_agent_setting_value-Meets, normalize_agent_setting_value_idempotent,
}
use labtether_agent.Settings.CidrList.{
  IsLocalCidr, IsTaken, normalize_discovery_cidr_list_value-IsLocalCidr,
}
use labtether_agent.Settings.Cidrs.{
  Prefix, cidr_field, collect_cidrs, insert_text, normalize_discovery_cidr_list_value, sort_texts,
  take_prefix, text_leb,
}
use labtether_agent.Settings.Endpoint.{
  is_npipe_name, normalize_docker_endpoint_value, normalize_docker_npipe_endpoint, other_endpoint,
  trim_docker_unix_scheme,
}
use labtether_agent.Settings.Keys.{
  int_setting, Definition, above_maximum, bad_npipe, bad_port, bad_url, network_path, not_a_number,
  setting_key_capture_fps, setting_key_docker_enabled, setting_key_docker_endpoint, unknown_key,
}
use labtether_agent.Settings.Lookup.{Listed}
use labtether_agent.Settings.Ports.{
  collect_ports, normalize_discovery_port_list_value, port_field, port_of, print_ports,
}
use labtether_agent.Settings.PortText.{IsPortList, normalize_discovery_port_list_value-IsPortList}
use labtether_agent.Settings.Table.{
  agent_setting_definition_by_key, agent_setting_definitions, find_definition,
}
use labtether_agent.Settings.Values.{
  Checks, check_range, first_equal, normalize_agent_setting_value, normalize_bool, normalize_enum,
  normalize_int, normalize_string, normalize_value,
}

run : Unit {0}
unfolding insert sort ascii_lower equal_fold fold_rune lower_rune to_lower member same atoi decimal
    digits digits_before digits_value itoa contains has_prefix has_suffix join strip_prefix
    trim_prefix fields_from fields_func is_space trim_left trim_right trim_space parse_bool
    cidr_field collect_cidrs insert_text normalize_discovery_cidr_list_value sort_texts take_prefix
    text_leb is_npipe_name normalize_docker_endpoint_value normalize_docker_npipe_endpoint
    other_endpoint trim_docker_unix_scheme collect_ports normalize_discovery_port_list_value
    port_field port_of print_ports agent_setting_definition_by_key agent_setting_definitions
    find_definition check_range first_equal normalize_agent_setting_value normalize_bool
    normalize_enum normalize_int normalize_string normalize_value
run = tt

abbrev ascii : CaseTables
ascii = record { lower = λ c. c; upper = λ c. c; fold = λ c. c }

-- No prefix is parsed, and no URL is allowed.
abbrev strict : Checks
strict = record { parse_prefix = λ token. none; url_endpoint = λ value. err bad_url }

normalizes :
    (normalize_agent_setting_value ascii strict (codes "Capture_FPS ") (codes " +060")
      ≡ ok (codes "60"))
    × (normalize_agent_setting_value ascii strict setting_key_capture_fps (codes "121")
        ≡ err (above_maximum setting_key_capture_fps 120))
    × (normalize_agent_setting_value ascii strict setting_key_capture_fps (codes "6x")
        ≡ err not_a_number)
    × (normalize_agent_setting_value ascii strict setting_key_docker_enabled (codes "TRUE")
        ≡ ok (codes "true"))
    × (normalize_agent_setting_value ascii strict (codes "nope") (codes "1") ≡ err unknown_key)
    × (normalize_agent_setting_value ascii strict setting_key_docker_endpoint (codes "//host/x")
        ≡ err network_path)
    × (normalize_agent_setting_value ascii strict setting_key_docker_endpoint
          (codes "UNIX:///run/d.sock")
        ≡ ok (codes "unix:///run/d.sock"))
    × (normalize_agent_setting_value ascii strict setting_key_docker_endpoint
          (codes "npipe:////./pipe/a..b")
        ≡ err bad_npipe)
unfolding run
normalizes = (refl, refl, refl, refl, refl, refl, refl, refl)

abbrev raw_ports : Text
raw_ports = codes "8080, 80;443\n0080 +22"

abbrev ports : Text
ports = codes "22,80,443,8080"

ports-ok : normalize_discovery_port_list_value raw_ports ≡ ok ports
unfolding run
ports-ok = refl

ports_refused : normalize_discovery_port_list_value (codes "80,0") ≡ err bad_port
unfolding run
ports_refused = refl

normalize_discovery_port_list_value-IsPortList_example : IsPortList raw_ports ports
normalize_discovery_port_list_value-IsPortList_example =
    normalize_discovery_port_list_value-IsPortList raw_ports ports ports-ok

abbrev capture_fps : Definition
capture_fps = record {
  key = setting_key_capture_fps;
  label = codes "Capture FPS";
  description = codes "Target capture frame rate for WebRTC sessions.";
  setting_type = int_setting;
  default_value = codes "30";
  min_int = 5;
  max_int = 120;
  allowed_values = [];
  restart_required = false;
  hub_managed = true;
  local_only = false;
}

fps-ok :
    normalize_agent_setting_value ascii strict setting_key_capture_fps (codes "060")
    ≡ ok (codes "60")
unfolding run
fps-ok = refl

normalize_agent_setting_value-Meets_example :
    (d : Definition) × Listed d agent_setting_definitions
    × (agent_setting_definition_by_key ascii setting_key_capture_fps ≡ some d)
    × Meets ascii strict d (codes "060") (codes "60")
normalize_agent_setting_value-Meets_example =
    normalize_agent_setting_value-Meets ascii strict setting_key_capture_fps (codes "060")
      (codes "60") fps-ok

normalize_agent_setting_value_idempotent_example :
    normalize_agent_setting_value ascii strict setting_key_capture_fps (codes "60")
    ≡ ok (codes "60")
unfolding run
normalize_agent_setting_value_idempotent_example =
    normalize_agent_setting_value_idempotent ascii strict setting_key_capture_fps (codes "060")
      (codes "60") capture_fps refl (ground arith) (ground arith) fps-ok

-- Two prefixes are known: 10.1.2.3/8, whose masked form is 10.0.0.0/8, and 10.0.0.0/1, a private
-- address whose masked form is half of all addresses.
abbrev ten : Prefix
ten = record {
  is_valid = true;
  addr_is_valid = true;
  is4 = true;
  is6 = false;
  is_loopback = false;
  is_private = true;
  is_link_local_unicast = false;
  masked = codes "10.0.0.0/8";
}

abbrev parse_ten : Text → Option Prefix
parse_ten token =
    if same token (codes "10.1.2.3/8")
    then some ten
    else if same token (codes "10.0.0.0/1")
    then some (record ten { masked = codes "0.0.0.0/1" })
    else none

-- Only the address of a prefix is tested.
wide_range :
    normalize_discovery_cidr_list_value parse_ten (codes "10.0.0.0/1") ≡ ok (codes "0.0.0.0/1")
unfolding run
wide_range = refl

normalize_discovery_cidr_list_value-IsLocalCidr_example :
    (cidrs : List Text) × All
      (IsLocalCidr parse_ten (codes "10.1.2.3/8" ∷ codes "10.1.2.3/8" ∷ []))
      cidrs
    × All (IsTaken parse_ten cidrs) (codes "10.1.2.3/8" ∷ codes "10.1.2.3/8" ∷ [])
    × (codes "10.0.0.0/8" ≡ join cidrs (codes ","))
unfolding run
normalize_discovery_cidr_list_value-IsLocalCidr_example =
    normalize_discovery_cidr_list_value-IsLocalCidr parse_ten (codes "10.1.2.3/8; 10.1.2.3/8")
      (codes "10.0.0.0/8") refl
