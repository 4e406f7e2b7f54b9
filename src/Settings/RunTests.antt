-- ===== src/Settings/RunTests.antt =====
-- A running agent, values of the hub, and the theorems at them.
use labtether_agent.Common.{◌≡◌, refl, arith, true, false, none, some, List, [], ◌∷◌, All, err}
use labtether_agent.Common.Int.{negsuc, pos}
use labtether_agent.Common.Text.{Text, codes}
use labtether_agent.Common.Text.Case.{
  CaseTables, ascii_lower, equal_fold, fold_rune, lower_rune, to_lower,
}
use labtether_agent.Common.Text.Compare.{member, same}
use labtether_agent.Common.Text.Number.{atoi, decimal, digits, digits_before, digits_value, itoa}
use labtether_agent.Common.Text.Space.{is_space, trim_left, trim_right, trim_space}
use labtether_agent.Command.Env.{parse_bool}
use labtether_agent.Settings.Applied.{apply_setting, setting_cases}
use labtether_agent.Settings.Keys.{
  local_only_setting, setting_key_capture_fps, setting_key_tls_skip_verify,
  setting_key_webrtc_enabled, bad_url,
}
use labtether_agent.Settings.LocalOnly.{Keeps, apply_all-Keeps}
use labtether_agent.Settings.Reported.{ConfigSnapshot}
use labtether_agent.Settings.Rounds.{Applying, apply_all, apply_one}
use labtether_agent.Settings.Roundtrip.{
  apply_setting-number, configured_after, live_number_keys, reported_after, restart_number_keys,
}
use labtether_agent.Settings.Effective.{configured, startup_restart_settings}
use labtether_agent.Settings.Running.{Running, seconds, update_text}
use labtether_agent.Settings.Table.{
  agent_setting_definition_by_key, agent_setting_definitions, find_definition,
}
use labtether_agent.Settings.Values.{
  Checks, check_range, normalize_agent_setting_value, normalize_bool, normalize_int,
  normalize_value,
}

run : Unit {0}
unfolding ascii_lower equal_fold fold_rune lower_rune to_lower member same atoi decimal digits
    digits_before digits_value itoa is_space trim_left trim_right trim_space parse_bool
    apply_setting setting_cases apply_all apply_one update_text agent_setting_definition_by_key
    agent_setting_definitions find_definition check_range normalize_agent_setting_value
    normalize_bool normalize_int normalize_value
run = tt

abbrev ascii : CaseTables
ascii = record { lower = λ c. c; upper = λ c. c; fold = λ c. c }

abbrev strict : Checks
strict = record { parse_prefix = λ token. none; url_endpoint = λ value. err bad_url }

abbrev config : ConfigSnapshot
config = record {
  collect_interval = pos 10000000000;
  heartbeat_interval = pos 10000000000;
  docker_enabled = [];
  docker_socket = [];
  docker_discovery_interval = pos 10000000000;
  services_discovery_docker_enabled = true;
  services_discovery_proxy_enabled = true;
  services_discovery_proxy_traefik_enabled = true;
  services_discovery_proxy_caddy_enabled = true;
  services_discovery_proxy_npm_enabled = true;
  services_discovery_port_scan_enabled = true;
  services_discovery_port_scan_include_listening = true;
  services_discovery_port_scan_ports = [];
  services_discovery_lan_scan_enabled = true;
  services_discovery_lan_scan_cidrs = [];
  services_discovery_lan_scan_ports = [];
  services_discovery_lan_scan_max_hosts = pos 30;
  file_root_mode = [];
  webrtc_enabled = true;
  webrtc_stun_url = [];
  webrtc_turn_url = [];
  webrtc_turn_user = [];
  webrtc_turn_pass = [];
  webrtc_wayland_experimental_enabled = true;
  webrtc_wayland_pipewire_node_id = [];
  webrtc_wayland_input_backend = [];
  capture_fps = pos 30;
  tls_skip_verify = true;
  tls_ca_file = [];
  allow_remote_overrides = true;
  log_level = [];
}

abbrev agent : Running
agent = record {
  cfg = config;
  base_collect_interval = pos 10000000000;
  base_heartbeat_interval = pos 10000000000;
  collect_override = pos 0;
  heartbeat_override = pos 0;
  pinned = λ key. false;
}

abbrev begin : Applying
begin = record {
  running = agent;
  applied = [];
  kept = [];
  needs_persisted_config_write = false;
  file_root_mode_changed = false;
}

abbrev values : List (Text × Text)
values = (setting_key_webrtc_enabled, codes "F") ∷ (setting_key_capture_fps, codes "060") ∷ []

applies :
    ((apply_all ascii strict values begin).0.running.cfg.capture_fps ≡ pos 60)
    × ((apply_all ascii strict values begin).0.running.cfg.webrtc_enabled ≡ false)
    × ((apply_all ascii strict values begin).1 ≡ none)
unfolding run
applies = (refl, refl, refl)

-- What was set before a refused value stays set.
refuses :
    ((apply_all ascii strict
        ((setting_key_capture_fps, codes "60") ∷ (setting_key_tls_skip_verify, codes "false") ∷ [])
        begin).1
      ≡ some local_only_setting)
    × ((apply_all ascii strict
          ((setting_key_capture_fps, codes "60")
            ∷ (setting_key_tls_skip_verify, codes "false")
            ∷ [])
          begin).0.running.cfg.capture_fps
        ≡ pos 60)
unfolding run
refuses = (refl, refl)

-- A key in another case is accepted, and changes nothing.
other_case :
    ((apply_all ascii strict ((codes "CAPTURE_FPS", codes "60") ∷ []) begin).1 ≡ none)
    × ((apply_all ascii strict ((codes "CAPTURE_FPS", codes "60") ∷ []) begin).0.applied
        ≡ (codes "CAPTURE_FPS", codes "60") ∷ [])
    × ((apply_all ascii strict
          ((codes "CAPTURE_FPS", codes "60") ∷ [])
          begin).0.running.cfg.capture_fps
        ≡ pos 30)
unfolding run
other_case = (refl, refl, refl)

apply_all-Keeps_example : Keeps begin.running (apply_all ascii strict values begin).0.running
apply_all-Keeps_example = apply_all-Keeps ascii strict values begin

apply_setting-number_example :
    All
      (λ key.
        reported_after ascii (startup_restart_settings ascii config) key (decimal 60) agent
        ≡ decimal 60)
      live_number_keys
    × All
        (λ key.
          (reported_after ascii (startup_restart_settings ascii config) key (decimal 60) agent
            ≡ configured ascii key config)
          × (configured_after ascii key (decimal 60) agent ≡ decimal 60))
        restart_number_keys
apply_setting-number_example =
    apply_setting-number ascii agent config 60 (omega arith) (omega arith)

-- More seconds than a time.Duration holds wrap.
wraps : seconds (pos 9223372037) ≡ negsuc 9223372036709551615
unfolding seconds
wraps = refl
