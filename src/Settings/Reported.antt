-- ===== src/Settings/Reported.antt =====
-- sysconfig/settings_values.go: the part of the configuration that the settings show, and the
-- values that are reported of it. A duration is a number of nanoseconds.
use labtether_agent.Common.{◌/◌, Bool, List, [], ◌∷◌, ◌++◌, if◌then◌else◌}
use labtether_agent.Common.Int.{ℤ, pos, negsuc, nonpositive}
use labtether_agent.Common.Text.{Text, codes}
use labtether_agent.Common.Text.Case.{CaseTables, to_lower}
use labtether_agent.Common.Text.Number.{itoa}
use labtether_agent.Common.Text.Space.{is_blank, trim_space}
use labtether_agent.Settings.Defaults.{default_agent_setting_values}
use labtether_agent.Settings.Keys.{
  setting_key_collect_interval_sec, setting_key_heartbeat_interval_sec, setting_key_docker_enabled,
  setting_key_docker_endpoint, setting_key_docker_discovery_interval_sec,
  setting_key_services_discovery_docker_enabled, setting_key_services_discovery_proxy_enabled,
  setting_key_services_discovery_proxy_traefik_enabled,
  setting_key_services_discovery_proxy_caddy_enabled,
  setting_key_services_discovery_proxy_npm_enabled,
  setting_key_services_discovery_port_scan_enabled,
  setting_key_services_discovery_port_scan_include_listening,
  setting_key_services_discovery_port_scan_ports, setting_key_services_discovery_lan_scan_enabled,
  setting_key_services_discovery_lan_scan_cidrs, setting_key_services_discovery_lan_scan_ports,
  setting_key_services_discovery_lan_scan_max_hosts, setting_key_files_root_mode,
  setting_key_webrtc_enabled, setting_key_webrtc_stun_url, setting_key_webrtc_turn_url,
  setting_key_webrtc_turn_user, setting_key_webrtc_turn_pass,
  setting_key_webrtc_wayland_experimental_enabled, setting_key_webrtc_wayland_pipewire_node_id,
  setting_key_webrtc_wayland_input_backend, setting_key_capture_fps, setting_key_tls_skip_verify,
  setting_key_tls_ca_file, setting_key_allow_remote_overrides, setting_key_log_level,
}
use labtether_agent.Settings.Values.{format_bool}

pub record ConfigSnapshot : Type 0 where
  pub collect_interval : ℤ
  pub heartbeat_interval : ℤ
  pub docker_enabled : Text
  pub docker_socket : Text
  pub docker_discovery_interval : ℤ
  pub services_discovery_docker_enabled : Bool
  pub services_discovery_proxy_enabled : Bool
  pub services_discovery_proxy_traefik_enabled : Bool
  pub services_discovery_proxy_caddy_enabled : Bool
  pub services_discovery_proxy_npm_enabled : Bool
  pub services_discovery_port_scan_enabled : Bool
  pub services_discovery_port_scan_include_listening : Bool
  pub services_discovery_port_scan_ports : Text
  pub services_discovery_lan_scan_enabled : Bool
  pub services_discovery_lan_scan_cidrs : Text
  pub services_discovery_lan_scan_ports : Text
  pub services_discovery_lan_scan_max_hosts : ℤ
  pub file_root_mode : Text
  pub webrtc_enabled : Bool
  pub webrtc_stun_url : Text
  pub webrtc_turn_url : Text
  pub webrtc_turn_user : Text
  pub webrtc_turn_pass : Text
  pub webrtc_wayland_experimental_enabled : Bool
  pub webrtc_wayland_pipewire_node_id : Text
  pub webrtc_wayland_input_backend : Text
  pub capture_fps : ℤ
  pub tls_skip_verify : Bool
  pub tls_ca_file : Text
  pub allow_remote_overrides : Bool
  pub log_level : Text

-- `DurationSeconds`: the whole seconds. The code divides as float64, which gives the same for every
-- whole number of seconds and, below 97 days, for every duration.
abbrev pub duration_seconds : ℤ → ℤ
duration_seconds (pos d) = pos (d / 1000000000)
duration_seconds (negsuc d) = pos 0

abbrev pub text_or : Text → Text → Text
text_or text fallback = if is_blank text then fallback else text

abbrev pub positive_or : ℤ → ℤ → ℤ
positive_or n fallback = if nonpositive n then fallback else n

-- The writes to the map, which come before the defaults that they replace.
unfoldable pub agent_setting_values_from_config : CaseTables → ConfigSnapshot → List (Text × Text)
agent_setting_values_from_config tables cfg =
    ((setting_key_collect_interval_sec, itoa (duration_seconds cfg.collect_interval))
      ∷ (setting_key_heartbeat_interval_sec, itoa (duration_seconds cfg.heartbeat_interval))
      ∷ (
        setting_key_docker_enabled,
        text_or (trim_space (to_lower tables cfg.docker_enabled)) (codes "auto"),
      )
      ∷ (
        setting_key_docker_endpoint,
        text_or (trim_space cfg.docker_socket) (codes "/var/run/docker.sock"),
      )
      ∷ (
        setting_key_docker_discovery_interval_sec,
        itoa (duration_seconds (positive_or cfg.docker_discovery_interval (pos 30000000000))),
      )
      ∷ (
        setting_key_services_discovery_docker_enabled,
        format_bool cfg.services_discovery_docker_enabled,
      )
      ∷ (
        setting_key_services_discovery_proxy_enabled,
        format_bool cfg.services_discovery_proxy_enabled,
      )
      ∷ (
        setting_key_services_discovery_proxy_traefik_enabled,
        format_bool cfg.services_discovery_proxy_traefik_enabled,
      )
      ∷ (
        setting_key_services_discovery_proxy_caddy_enabled,
        format_bool cfg.services_discovery_proxy_caddy_enabled,
      )
      ∷ (
        setting_key_services_discovery_proxy_npm_enabled,
        format_bool cfg.services_discovery_proxy_npm_enabled,
      )
      ∷ (
        setting_key_services_discovery_port_scan_enabled,
        format_bool cfg.services_discovery_port_scan_enabled,
      )
      ∷ (
        setting_key_services_discovery_port_scan_include_listening,
        format_bool cfg.services_discovery_port_scan_include_listening,
      )
      ∷ (
        setting_key_services_discovery_port_scan_ports,
        trim_space cfg.services_discovery_port_scan_ports,
      )
      ∷ (
        setting_key_services_discovery_lan_scan_enabled,
        format_bool cfg.services_discovery_lan_scan_enabled,
      )
      ∷ (
        setting_key_services_discovery_lan_scan_cidrs,
        trim_space cfg.services_discovery_lan_scan_cidrs,
      )
      ∷ (
        setting_key_services_discovery_lan_scan_ports,
        trim_space cfg.services_discovery_lan_scan_ports,
      )
      ∷ (
        setting_key_services_discovery_lan_scan_max_hosts,
        itoa (positive_or cfg.services_discovery_lan_scan_max_hosts (pos 64)),
      )
      ∷ (
        setting_key_files_root_mode,
        text_or (trim_space (to_lower tables cfg.file_root_mode)) (codes "home"),
      )
      ∷ (setting_key_webrtc_enabled, format_bool cfg.webrtc_enabled)
      ∷ (
        setting_key_webrtc_stun_url,
        text_or (trim_space cfg.webrtc_stun_url) (codes "stun:stun.l.google.com:19302"),
      )
      ∷ (setting_key_webrtc_turn_url, trim_space cfg.webrtc_turn_url)
      ∷ (setting_key_webrtc_turn_user, trim_space cfg.webrtc_turn_user)
      ∷ (setting_key_webrtc_turn_pass, trim_space cfg.webrtc_turn_pass)
      ∷ (
        setting_key_webrtc_wayland_experimental_enabled,
        format_bool cfg.webrtc_wayland_experimental_enabled,
      )
      ∷ (
        setting_key_webrtc_wayland_pipewire_node_id,
        trim_space cfg.webrtc_wayland_pipewire_node_id,
      )
      ∷ (
        setting_key_webrtc_wayland_input_backend,
        text_or (trim_space (to_lower tables cfg.webrtc_wayland_input_backend)) (codes "auto"),
      )
      ∷ (setting_key_capture_fps, itoa (positive_or cfg.capture_fps (pos 30)))
      ∷ (setting_key_tls_skip_verify, format_bool cfg.tls_skip_verify)
      ∷ (setting_key_tls_ca_file, trim_space cfg.tls_ca_file)
      ∷ (setting_key_allow_remote_overrides, format_bool cfg.allow_remote_overrides)
      ∷ (setting_key_log_level, text_or (trim_space (to_lower tables cfg.log_level)) (codes "info"))
      ∷ [])
    ++ default_agent_setting_values
