-- ===== src/Settings/Applied.antt =====
-- settings_runtime.go: `applyAgentSettings`, what the hub's settings change in the running agent.
use labtether_agent.Common.{List, [], ◌∷◌, if◌then◌else◌}
use labtether_agent.Common.Text.{Text}
use labtether_agent.Common.Text.Case.{CaseTables}
use labtether_agent.Common.Text.Compare.{same}
use labtether_agent.Settings.Keys.{
  setting_key_collect_interval_sec, setting_key_heartbeat_interval_sec, setting_key_docker_enabled,
  setting_key_docker_endpoint, setting_key_docker_discovery_interval_sec,
  setting_key_services_discovery_docker_enabled, setting_key_services_discovery_proxy_enabled,
  setting_key_services_discovery_proxy_traefik_enabled,
  setting_key_services_discovery_proxy_caddy_enabled,
  setting_key_services_discovery_proxy_npm_enabled,
  setting_key_services_discovery_port_scan_enabled,
  setting_key_services_discovery_port_scan_include_listening,
  setting_key_services_discovery_port_scan_ports, setting_key_services_discovery_lan_scan_enabled,
  setting_key_services_discovery_lan_scan_cidrs, setting_key_services_discovery_lan_scan_ports,
  setting_key_services_discovery_lan_scan_max_hosts, setting_key_files_root_mode,
  setting_key_webrtc_enabled, setting_key_webrtc_stun_url, setting_key_webrtc_turn_url,
  setting_key_webrtc_turn_user, setting_key_webrtc_turn_pass,
  setting_key_webrtc_wayland_experimental_enabled, setting_key_webrtc_wayland_pipewire_node_id,
  setting_key_webrtc_wayland_input_backend, setting_key_capture_fps,
  setting_key_allow_remote_overrides, setting_key_log_level,
}
use labtether_agent.Settings.Running.{
  Running, bool_value, int_value, seconds, update_enum, update_text,
}

abbrev pub switch : Text → List (Text × (Running → Running)) → Running → Running
switch key [] rt = rt
switch key ((k, change) ∷ cases) rt = if same key k then change rt else switch key cases rt

module _ (tables : CaseTables) where
  -- The cases of the switch on the key. An assignment under `!=` of the same value is a plain one
  -- here.
  unfoldable pub setting_cases : Text → List (Text × (Running → Running))
  setting_cases v =
      (
        setting_key_collect_interval_sec,
        λ rt. record rt {
          collect_override = int_value v;
          cfg = record rt.cfg { collect_interval = seconds (int_value v) };
          base_collect_interval = seconds (int_value v);
        },
      )
      ∷ (
        setting_key_heartbeat_interval_sec,
        λ rt. record rt {
          heartbeat_override = int_value v;
          cfg = record rt.cfg { heartbeat_interval = seconds (int_value v) };
          base_heartbeat_interval = seconds (int_value v);
        },
      )
      ∷ (
        setting_key_docker_enabled,
        λ rt. record rt {
          cfg = record rt.cfg { docker_enabled = update_enum tables rt.cfg.docker_enabled v };
        },
      )
      ∷ (
        setting_key_docker_endpoint,
        λ rt. record rt {
          cfg = record rt.cfg { docker_socket = update_text rt.cfg.docker_socket v };
        },
      )
      ∷ (
        setting_key_docker_discovery_interval_sec,
        λ rt. record rt {
          cfg = record rt.cfg { docker_discovery_interval = seconds (int_value v) };
        },
      )
      ∷ (
        setting_key_services_discovery_docker_enabled,
        λ rt. record rt {
          cfg = record rt.cfg { services_discovery_docker_enabled = bool_value v };
        },
      )
      ∷ (
        setting_key_services_discovery_proxy_enabled,
        λ rt. record rt { cfg = record rt.cfg { services_discovery_proxy_enabled = bool_value v } },
      )
      ∷ (
        setting_key_services_discovery_proxy_traefik_enabled,
        λ rt. record rt {
          cfg = record rt.cfg { services_discovery_proxy_traefik_enabled = bool_value v };
        },
      )
      ∷ (
        setting_key_services_discovery_proxy_caddy_enabled,
        λ rt. record rt {
          cfg = record rt.cfg { services_discovery_proxy_caddy_enabled = bool_value v };
        },
      )
      ∷ (
        setting_key_services_discovery_proxy_npm_enabled,
        λ rt. record rt {
          cfg = record rt.cfg { services_discovery_proxy_npm_enabled = bool_value v };
        },
      )
      ∷ (
        setting_key_services_discovery_port_scan_enabled,
        λ rt. record rt {
          cfg = record rt.cfg { services_discovery_port_scan_enabled = bool_value v };
        },
      )
      ∷ (
        setting_key_services_discovery_port_scan_include_listening,
        λ rt. record rt {
          cfg = record rt.cfg { services_discovery_port_scan_include_listening = bool_value v };
        },
      )
      ∷ (
        setting_key_services_discovery_port_scan_ports,
        λ rt. record rt {
          cfg = record rt.cfg {
            services_discovery_port_scan_ports =
                update_text rt.cfg.services_discovery_port_scan_ports v;
          };
        },
      )
      ∷ (
        setting_key_services_discovery_lan_scan_enabled,
        λ rt. record rt {
          cfg = record rt.cfg { services_discovery_lan_scan_enabled = bool_value v };
        },
      )
      ∷ (
        setting_key_services_discovery_lan_scan_cidrs,
        λ rt. record rt {
          cfg = record rt.cfg {
            services_discovery_lan_scan_cidrs =
                update_text rt.cfg.services_discovery_lan_scan_cidrs v;
          };
        },
      )
      ∷ (
        setting_key_services_discovery_lan_scan_ports,
        λ rt. record rt {
          cfg = record rt.cfg {
            services_discovery_lan_scan_ports =
                update_text rt.cfg.services_discovery_lan_scan_ports v;
          };
        },
      )
      ∷ (
        setting_key_services_discovery_lan_scan_max_hosts,
        λ rt. record rt {
          cfg = record rt.cfg { services_discovery_lan_scan_max_hosts = int_value v };
        },
      )
      ∷ (
        setting_key_files_root_mode,
        λ rt. record rt {
          cfg = record rt.cfg { file_root_mode = update_enum tables rt.cfg.file_root_mode v };
        },
      )
      ∷ (
        setting_key_webrtc_enabled,
        λ rt. record rt { cfg = record rt.cfg { webrtc_enabled = bool_value v } },
      )
      ∷ (
        setting_key_webrtc_stun_url,
        λ rt. record rt {
          cfg = record rt.cfg { webrtc_stun_url = update_text rt.cfg.webrtc_stun_url v };
        },
      )
      ∷ (
        setting_key_webrtc_turn_url,
        λ rt. record rt {
          cfg = record rt.cfg { webrtc_turn_url = update_text rt.cfg.webrtc_turn_url v };
        },
      )
      ∷ (
        setting_key_webrtc_turn_user,
        λ rt. record rt {
          cfg = record rt.cfg { webrtc_turn_user = update_text rt.cfg.webrtc_turn_user v };
        },
      )
      ∷ (
        setting_key_webrtc_turn_pass,
        λ rt. record rt {
          cfg = record rt.cfg { webrtc_turn_pass = update_text rt.cfg.webrtc_turn_pass v };
        },
      )
      ∷ (
        setting_key_webrtc_wayland_experimental_enabled,
        λ rt. record rt {
          cfg = record rt.cfg { webrtc_wayland_experimental_enabled = bool_value v };
        },
      )
      ∷ (
        setting_key_webrtc_wayland_pipewire_node_id,
        λ rt. record rt {
          cfg = record rt.cfg {
            webrtc_wayland_pipewire_node_id = update_text rt.cfg.webrtc_wayland_pipewire_node_id v;
          };
        },
      )
      ∷ (
        setting_key_webrtc_wayland_input_backend,
        λ rt. record rt {
          cfg = record rt.cfg {
            webrtc_wayland_input_backend = update_enum tables rt.cfg.webrtc_wayland_input_backend v;
          };
        },
      )
      ∷ (
        setting_key_capture_fps,
        λ rt. record rt { cfg = record rt.cfg { capture_fps = int_value v } },
      )
      ∷ (
        setting_key_allow_remote_overrides,
        λ rt. record rt { cfg = record rt.cfg { allow_remote_overrides = bool_value v } },
      )
      ∷ (setting_key_log_level, λ rt. record rt { cfg = record rt.cfg { log_level = v } })
      ∷ []

  -- The switch: the first case whose key this is, and no change without one.
  unfoldable pub apply_setting : Text → Text → Running → Running
  apply_setting key v rt = switch key (setting_cases v) rt
