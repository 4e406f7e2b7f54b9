-- ===== src/Settings/Effective.antt =====
-- settings_runtime.go: `ReportedAgentSettings`, the values that the agent tells the hub. A saved value
-- that needs a restart is shown as the one that the agent runs with, which `running` holds
-- (`runningSettings`, which `startup_restart_settings` of settings_restart.go gives at the start).
use labtether_agent.Common.{List, [], ◌∷◌, ◌++◌, map, if◌then◌else◌}
use labtether_agent.Common.Int.{ℤ, nonpositive}
use labtether_agent.Common.Text.{Text}
use labtether_agent.Common.Text.Case.{CaseTables}
use labtether_agent.Common.Text.Number.{itoa}
use labtether_agent.Command.Env.{lookup_pair, or_empty}
use labtether_agent.Settings.Keys.{
  setting_key_collect_interval_sec, setting_key_docker_discovery_interval_sec,
  setting_key_docker_enabled, setting_key_docker_endpoint, setting_key_heartbeat_interval_sec,
  setting_key_services_discovery_docker_enabled, setting_key_services_discovery_lan_scan_cidrs,
  setting_key_services_discovery_lan_scan_enabled,
  setting_key_services_discovery_lan_scan_max_hosts, setting_key_services_discovery_lan_scan_ports,
  setting_key_services_discovery_port_scan_enabled,
  setting_key_services_discovery_port_scan_include_listening,
  setting_key_services_discovery_port_scan_ports,
  setting_key_services_discovery_proxy_caddy_enabled, setting_key_services_discovery_proxy_enabled,
  setting_key_services_discovery_proxy_npm_enabled,
  setting_key_services_discovery_proxy_traefik_enabled, setting_key_webrtc_enabled,
  setting_key_webrtc_wayland_experimental_enabled, setting_key_webrtc_wayland_input_backend,
  setting_key_webrtc_wayland_pipewire_node_id,
}
use labtether_agent.Settings.Reported.{
  ConfigSnapshot, agent_setting_values_from_config, duration_seconds,
}
use labtether_agent.Settings.Running.{Running}

-- `effectiveCollectIntervalSec` and `effectiveHeartbeatIntervalSec`, which differ in their fields only
abbrev pub effective_interval_sec : ℤ → ℤ → ℤ
effective_interval_sec override interval =
    if nonpositive override then duration_seconds interval else override

-- The first entry of a key is the one that the map keeps.
unfoldable pub reported_agent_settings :
    CaseTables → List (Text × Text) → Running → List (Text × Text)
reported_agent_settings tables running rt =
    (
      setting_key_collect_interval_sec,
      itoa (effective_interval_sec rt.collect_override rt.cfg.collect_interval),
    )
    ∷ (
      setting_key_heartbeat_interval_sec,
      itoa (effective_interval_sec rt.heartbeat_override rt.cfg.heartbeat_interval),
    )
    ∷ (running ++ agent_setting_values_from_config tables rt.cfg)

-- `restartSettingKeys`
abbrev pub restart_setting_keys : List Text
restart_setting_keys =
    setting_key_docker_enabled ∷ setting_key_docker_endpoint
    ∷ setting_key_docker_discovery_interval_sec ∷ setting_key_services_discovery_docker_enabled
    ∷ setting_key_services_discovery_proxy_enabled
    ∷ setting_key_services_discovery_proxy_traefik_enabled
    ∷ setting_key_services_discovery_proxy_caddy_enabled
    ∷ setting_key_services_discovery_proxy_npm_enabled
    ∷ setting_key_services_discovery_port_scan_enabled
    ∷ setting_key_services_discovery_port_scan_include_listening
    ∷ setting_key_services_discovery_port_scan_ports
    ∷ setting_key_services_discovery_lan_scan_enabled
    ∷ setting_key_services_discovery_lan_scan_cidrs ∷ setting_key_services_discovery_lan_scan_ports
    ∷ setting_key_services_discovery_lan_scan_max_hosts ∷ setting_key_webrtc_enabled
    ∷ setting_key_webrtc_wayland_experimental_enabled ∷ setting_key_webrtc_wayland_pipewire_node_id
    ∷ setting_key_webrtc_wayland_input_backend ∷ []

-- What a configuration says of a key; a map gives the empty text for a key that it lacks.
abbrev pub configured : CaseTables → Text → ConfigSnapshot → Text
configured tables key cfg = or_empty (lookup_pair key (agent_setting_values_from_config tables cfg))

-- `startupRestartSettings`
unfoldable pub startup_restart_settings : CaseTables → ConfigSnapshot → List (Text × Text)
startup_restart_settings tables cfg =
    map (λ key. (key, configured tables key cfg)) restart_setting_keys
