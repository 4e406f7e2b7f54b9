-- ===== src/Settings/Roundtrip.antt =====
-- The value that the hub sets is the value that the configuration keeps and that the agent reports.
use labtether_agent.Common.{
  ◌&◌, ℕ, ◌*◌, ◌/◌, ◌≤◌, ◌<◌, ◌≡◌, refl, ap, ◌∙◌, arith, inl, inr, Bool, true, false, none, some,
  List, [], ◌∷◌, All, if◌then◌else◌, Bool-cases, lt→ltb, ◌%◌, ◌^◌, ◌-◌,
}
use labtether_agent.Common.Int.{ℤ, pos, negsuc, nonpositive}
use labtether_agent.Common.Text.{Text, codes}
use labtether_agent.Common.Text.Case.{CaseTables}
use labtether_agent.Common.Text.Compare.{same, same_iff, member}
use labtether_agent.Common.Text.Number.{itoa, decimal, atoi-decimal, int_limit}
use labtether_agent.Common.Text.Space.{is_blank, trim_space}
use labtether_agent.Command.Env.{lookup_pair, or_empty, parse_bool}
use labtether_agent.Settings.Applied.{apply_setting, setting_cases}
use labtether_agent.Settings.Running.{Running, update_text, int_value, seconds, signed64}
use labtether_agent.Settings.Effective.{
  configured, effective_interval_sec, reported_agent_settings, startup_restart_settings,
}
use labtether_agent.Settings.Keys.{
  setting_key_collect_interval_sec, setting_key_heartbeat_interval_sec, setting_key_docker_endpoint,
  setting_key_docker_discovery_interval_sec, setting_key_services_discovery_docker_enabled,
  setting_key_services_discovery_proxy_enabled,
  setting_key_services_discovery_proxy_traefik_enabled,
  setting_key_services_discovery_proxy_caddy_enabled,
  setting_key_services_discovery_proxy_npm_enabled,
  setting_key_services_discovery_port_scan_enabled,
  setting_key_services_discovery_port_scan_include_listening,
  setting_key_services_discovery_port_scan_ports, setting_key_services_discovery_lan_scan_enabled,
  setting_key_services_discovery_lan_scan_cidrs, setting_key_services_discovery_lan_scan_ports,
  setting_key_services_discovery_lan_scan_max_hosts, setting_key_webrtc_enabled,
  setting_key_webrtc_stun_url, setting_key_webrtc_turn_url, setting_key_webrtc_turn_user,
  setting_key_webrtc_turn_pass, setting_key_webrtc_wayland_experimental_enabled,
  setting_key_webrtc_wayland_pipewire_node_id, setting_key_capture_fps,
  setting_key_allow_remote_overrides,
}
use labtether_agent.Settings.Reported.{
  ConfigSnapshot, agent_setting_values_from_config, duration_seconds, positive_or, text_or,
}
use labtether_agent.Settings.Values.{format_bool}

-- What the configuration says of a setting after the key is set to the value.
abbrev pub configured_after : CaseTables → Text → Text → Running → Text
configured_after tables key v rt = configured tables key (apply_setting tables key v rt).cfg

-- What the agent reports of a setting after the key is set to the value.
abbrev pub reported_after : CaseTables → List (Text × Text) → Text → Text → Running → Text
reported_after tables running key v rt =
    or_empty
      (lookup_pair key (reported_agent_settings tables running (apply_setting tables key v rt)))

abbrev pub switch_keys : List Text
switch_keys =
    setting_key_services_discovery_docker_enabled ∷ setting_key_services_discovery_proxy_enabled
    ∷ setting_key_services_discovery_proxy_traefik_enabled
    ∷ setting_key_services_discovery_proxy_caddy_enabled
    ∷ setting_key_services_discovery_proxy_npm_enabled
    ∷ setting_key_services_discovery_port_scan_enabled
    ∷ setting_key_services_discovery_port_scan_include_listening
    ∷ setting_key_services_discovery_lan_scan_enabled ∷ setting_key_webrtc_enabled
    ∷ setting_key_webrtc_wayland_experimental_enabled ∷ setting_key_allow_remote_overrides ∷ []

abbrev pub text_keys : List Text
text_keys =
    setting_key_services_discovery_port_scan_ports ∷ setting_key_services_discovery_lan_scan_cidrs
    ∷ setting_key_services_discovery_lan_scan_ports ∷ setting_key_webrtc_turn_url
    ∷ setting_key_webrtc_turn_user ∷ setting_key_webrtc_turn_pass
    ∷ setting_key_webrtc_wayland_pipewire_node_id ∷ []

-- The numbers that take effect at once, and those that need a restart.
abbrev pub live_number_keys : List Text
live_number_keys =
    setting_key_collect_interval_sec ∷ setting_key_heartbeat_interval_sec ∷ setting_key_capture_fps
    ∷ []

abbrev pub restart_number_keys : List Text
restart_number_keys =
    setting_key_docker_discovery_interval_sec ∷ setting_key_services_discovery_lan_scan_max_hosts
    ∷ []

-- The longest time in whole seconds that a time.Duration holds.
abbrev pub max_seconds : ℕ
max_seconds = 9223372036

seconds-pos : (n : ℕ) → n ≤ max_seconds → seconds (pos n) ≡ pos (n * 1000000000)
unfolding seconds
seconds-pos n h =
    let whole : n % 2 ^ 64 * 1000000000 % 2 ^ 64 ≡ n * 1000000000 = omega (arith, h) in
    ap signed64 whole
    ∙ ap (λ b. if b then pos (n * 1000000000) else negsuc (2 ^ 64 - 1 - n * 1000000000))
        (lt→ltb (n * 1000000000) (2 ^ 63) (omega (arith, h)))

-- Set to `n` seconds, reported in seconds.
seconds-number : (n : ℕ) → n * 1000000000 / 1000000000 ≡ n
seconds-number n = omega arith

positive_number : (n : ℕ) → 1 ≤ n → nonpositive (pos n) ≡ false
positive_number n l = ground arith

int_value-decimal : (n : ℕ) → n < int_limit → int_value (decimal n) ≡ pos n
int_value-decimal n h = ap (λ o. elim o [ none ↦ pos 0 | some z ↦ z ]) (atoi-decimal n h)

discovery-reported :
    (n : ℕ) (v : Text)
    → 1 ≤ n
    → n ≤ max_seconds
    → int_value v ≡ pos n
    → itoa (duration_seconds (positive_or (seconds (int_value v)) (pos 30000000000))) ≡ decimal n
unfolding itoa
discovery-reported n v l h e =
    ap (λ z. itoa (duration_seconds (positive_or z (pos 30000000000))))
      (ap seconds e ∙ seconds-pos n h)
    ∙ ap (λ b. itoa (duration_seconds (if b then pos 30000000000 else pos (n * 1000000000))))
        (positive_number (n * 1000000000) (omega (arith, l)))
    ∙ ap decimal (seconds-number n)

-- The override is set with the interval, and is what is reported.
effective-reported :
    (n : ℕ) (v : Text) (interval : ℤ)
    → 1 ≤ n
    → int_value v ≡ pos n
    → itoa (effective_interval_sec (int_value v) interval) ≡ decimal n
unfolding itoa
effective-reported n v interval l e =
    ap (λ z. itoa (effective_interval_sec z interval)) e
    ∙ ap (λ b. itoa (if b then duration_seconds interval else pos n)) (positive_number n l)

count-reported :
    (n : ℕ) (v : Text) (fallback : ℤ)
    → 1 ≤ n
    → int_value v ≡ pos n
    → itoa (positive_or (int_value v) fallback) ≡ decimal n
unfolding itoa
count-reported n v fallback l e =
    ap (λ z. itoa (positive_or z fallback)) e
    ∙ ap (λ b. itoa (if b then fallback else pos n)) (positive_number n l)

update_text-trim : (old v : Text) → trim_space v ≡ v → trim_space (update_text old v) ≡ v
unfolding update_text
update_text-trim old v h = elim (Bool-cases (same (trim_space old) v)) [
  | inl s ↦ ap (λ b. trim_space (if b then old else v)) s ∙ (same_iff (trim_space old) v).0 s
  | inr s ↦ ap (λ b. trim_space (if b then old else v)) s ∙ h
]

module _ (tables : CaseTables) (rt : Running) where
  -- A switch that is set is reported as it was set, for every switch of the settings.
  pub apply_setting-switch :
      (b : Bool)
      → All (λ key. configured_after tables key (format_bool b) rt ≡ format_bool b) switch_keys
  unfolding apply_setting setting_cases agent_setting_values_from_config same member parse_bool
  apply_setting-switch true =
      refl & refl & refl & refl & refl & refl & refl & refl & refl & refl & refl & tt
  apply_setting-switch false =
      refl & refl & refl & refl & refl & refl & refl & refl & refl & refl & refl & tt

  -- A trimmed text that is set is reported as it was set, for every text that may be empty.
  pub apply_setting-text :
      (v : Text) → trim_space v ≡ v → All (λ key. configured_after tables key v rt ≡ v) text_keys
  unfolding apply_setting setting_cases agent_setting_values_from_config same
  apply_setting-text v h =
      update_text-trim rt.cfg.services_discovery_port_scan_ports v h
      & update_text-trim rt.cfg.services_discovery_lan_scan_cidrs v h
      & update_text-trim rt.cfg.services_discovery_lan_scan_ports v h
      & update_text-trim rt.cfg.webrtc_turn_url v h
      & update_text-trim rt.cfg.webrtc_turn_user v h
      & update_text-trim rt.cfg.webrtc_turn_pass v h
      & update_text-trim rt.cfg.webrtc_wayland_pipewire_node_id v h
      & tt

  -- A positive number, no larger than a time.Duration holds seconds, that is set in an agent that was
  -- started with some configuration: the two intervals and the frame rate are reported as they were
  -- set, and the two numbers that need a restart are reported as they were at the start, and are
  -- saved in the configuration as they were set.
  pub apply_setting-number :
      (start : ConfigSnapshot) (n : ℕ)
      → 1 ≤ n
      → n ≤ max_seconds
      → All
          (λ key.
            reported_after tables (startup_restart_settings tables start) key (decimal n) rt
            ≡ decimal n)
          live_number_keys
        × All
            (λ key.
              (reported_after tables (startup_restart_settings tables start) key (decimal n) rt
                ≡ configured tables key start)
              × (configured_after tables key (decimal n) rt ≡ decimal n))
            restart_number_keys
  unfolding apply_setting setting_cases agent_setting_values_from_config same
      reported_agent_settings startup_restart_settings
  apply_setting-number start n l h =
      let e = int_value-decimal n (omega (arith, h)) in
      (
        effective-reported n (decimal n) (seconds (int_value (decimal n))) l e
            & effective-reported n (decimal n) (seconds (int_value (decimal n))) l e
            & count-reported n (decimal n) (pos 30) l e
            & tt,
        (refl, discovery-reported n (decimal n) l h e)
            & (refl, count-reported n (decimal n) (pos 64) l e)
            & tt,
      )

  -- A trimmed text that is not blank is reported as it was set, for the Docker endpoint and the STUN
  -- server.
  pub apply_setting-endpoint :
      (v : Text)
      → trim_space v ≡ v
      → is_blank v ≡ false
      → All
          (λ key. configured_after tables key v rt ≡ v)
          (setting_key_docker_endpoint ∷ setting_key_webrtc_stun_url ∷ [])
  unfolding apply_setting setting_cases agent_setting_values_from_config same
  apply_setting-endpoint v h b = (
    shown rt.cfg.docker_socket (codes "/var/run/docker.sock"),
    (shown rt.cfg.webrtc_stun_url (codes "stun:stun.l.google.com:19302"), tt),
  )
    where
      shown : (old fallback : Text) → text_or (trim_space (update_text old v)) fallback ≡ v
      shown old fallback =
          ap (λ t. text_or t fallback) (update_text-trim old v h)
          ∙ ap (λ t. if t then fallback else v) b
