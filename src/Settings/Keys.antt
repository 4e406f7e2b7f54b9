-- ===== src/Settings/Keys.antt =====
-- sysconfig/settings_definitions.go: the keys of the settings, their type and what defines one.
use labtether_agent.Common.{ℕ, Bool, List}
use labtether_agent.Common.Text.{Text, codes}

pub data SettingType : Type 0 where
  string_setting int_setting bool_setting enum_setting : SettingType

-- `AgentSettingDefinition`
pub record Definition : Type 0 where
  pub key : Text
  pub label : Text
  pub description : Text
  pub setting_type : SettingType
  pub default_value : Text
  pub min_int : ℕ
  pub max_int : ℕ
  pub allowed_values : List Text
  pub restart_required : Bool
  pub hub_managed : Bool
  pub local_only : Bool

abbrev pub setting_key_collect_interval_sec : Text
setting_key_collect_interval_sec = codes "collect_interval_sec"

abbrev pub setting_key_heartbeat_interval_sec : Text
setting_key_heartbeat_interval_sec = codes "heartbeat_interval_sec"

abbrev pub setting_key_docker_enabled : Text
setting_key_docker_enabled = codes "docker_enabled"

abbrev pub setting_key_docker_endpoint : Text
setting_key_docker_endpoint = codes "docker_endpoint"

abbrev pub setting_key_docker_discovery_interval_sec : Text
setting_key_docker_discovery_interval_sec = codes "docker_discovery_interval_sec"

abbrev pub setting_key_services_discovery_docker_enabled : Text
setting_key_services_discovery_docker_enabled = codes "services_discovery_docker_enabled"

abbrev pub setting_key_services_discovery_proxy_enabled : Text
setting_key_services_discovery_proxy_enabled = codes "services_discovery_proxy_enabled"

abbrev pub setting_key_services_discovery_proxy_traefik_enabled : Text
setting_key_services_discovery_proxy_traefik_enabled =
    codes "services_discovery_proxy_traefik_enabled"

abbrev pub setting_key_services_discovery_proxy_caddy_enabled : Text
setting_key_services_discovery_proxy_caddy_enabled = codes "services_discovery_proxy_caddy_enabled"

abbrev pub setting_key_services_discovery_proxy_npm_enabled : Text
setting_key_services_discovery_proxy_npm_enabled = codes "services_discovery_proxy_npm_enabled"

abbrev pub setting_key_services_discovery_port_scan_enabled : Text
setting_key_services_discovery_port_scan_enabled = codes "services_discovery_port_scan_enabled"

abbrev pub setting_key_services_discovery_port_scan_include_listening : Text
setting_key_services_discovery_port_scan_include_listening =
    codes "services_discovery_port_scan_include_listening"

abbrev pub setting_key_services_discovery_port_scan_ports : Text
setting_key_services_discovery_port_scan_ports = codes "services_discovery_port_scan_ports"

abbrev pub setting_key_services_discovery_lan_scan_enabled : Text
setting_key_services_discovery_lan_scan_enabled = codes "services_discovery_lan_scan_enabled"

abbrev pub setting_key_services_discovery_lan_scan_cidrs : Text
setting_key_services_discovery_lan_scan_cidrs = codes "services_discovery_lan_scan_cidrs"

abbrev pub setting_key_services_discovery_lan_scan_ports : Text
setting_key_services_discovery_lan_scan_ports = codes "services_discovery_lan_scan_ports"

abbrev pub setting_key_services_discovery_lan_scan_max_hosts : Text
setting_key_services_discovery_lan_scan_max_hosts = codes "services_discovery_lan_scan_max_hosts"

abbrev pub setting_key_files_root_mode : Text
setting_key_files_root_mode = codes "files_root_mode"

abbrev pub setting_key_webrtc_enabled : Text
setting_key_webrtc_enabled = codes "webrtc_enabled"

abbrev pub setting_key_webrtc_stun_url : Text
setting_key_webrtc_stun_url = codes "webrtc_stun_url"

abbrev pub setting_key_webrtc_turn_url : Text
setting_key_webrtc_turn_url = codes "webrtc_turn_url"

abbrev pub setting_key_webrtc_turn_user : Text
setting_key_webrtc_turn_user = codes "webrtc_turn_user"

abbrev pub setting_key_webrtc_turn_pass : Text
setting_key_webrtc_turn_pass = codes "webrtc_turn_pass"

abbrev pub setting_key_webrtc_wayland_experimental_enabled : Text
setting_key_webrtc_wayland_experimental_enabled = codes "webrtc_wayland_experimental_enabled"

abbrev pub setting_key_webrtc_wayland_pipewire_node_id : Text
setting_key_webrtc_wayland_pipewire_node_id = codes "webrtc_wayland_pipewire_node_id"

abbrev pub setting_key_webrtc_wayland_input_backend : Text
setting_key_webrtc_wayland_input_backend = codes "webrtc_wayland_input_backend"

abbrev pub setting_key_capture_fps : Text
setting_key_capture_fps = codes "capture_fps"

abbrev pub setting_key_allow_remote_overrides : Text
setting_key_allow_remote_overrides = codes "allow_remote_overrides"

abbrev pub setting_key_log_level : Text
setting_key_log_level = codes "log_level"

abbrev pub setting_key_tls_skip_verify : Text
setting_key_tls_skip_verify = codes "tls_skip_verify"

abbrev pub setting_key_tls_ca_file : Text
setting_key_tls_ca_file = codes "tls_ca_file"

-- The errors of the settings' functions; the key is in the message.
pub data SettingError : Type 0 where
  unknown_key empty_value not_a_number not_a_bool bad_port bad_cidr : SettingError
  unsupported_cidr public_cidr : SettingError
  local_only_setting : SettingError
  below_minimum above_maximum : Text → ℕ → SettingError
  not_one_of : Text → List Text → SettingError
  bad_npipe network_path relative_unix_path bad_url : SettingError
