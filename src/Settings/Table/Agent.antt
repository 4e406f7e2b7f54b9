-- ===== src/Settings/Table/Agent.antt =====
-- sysconfig/settings_definitions.go: the table of the settings, a part.
use labtether_agent.Common.{true, false, List, [], ◌∷◌}
use labtether_agent.Common.Text.{codes}
use labtether_agent.Settings.Keys.{
  Definition, string_setting, bool_setting, enum_setting, setting_key_tls_skip_verify,
  setting_key_tls_ca_file, setting_key_allow_remote_overrides, setting_key_log_level,
}

abbrev pub agent_settings : List Definition
agent_settings =
    record {
      key = setting_key_tls_skip_verify;
      label = codes "TLS Skip Verify";
      description = codes "Skip TLS certificate verification (bootstrap use only).";
      setting_type = bool_setting;
      default_value = codes "false";
      min_int = 0;
      max_int = 0;
      allowed_values = [];
      restart_required = true;
      hub_managed = false;
      local_only = true;
    }
    ∷ record {
      key = setting_key_tls_ca_file;
      label = codes "TLS CA File";
      description = codes "Path to CA certificate PEM used to verify the hub TLS certificate.";
      setting_type = string_setting;
      default_value = codes "";
      min_int = 0;
      max_int = 0;
      allowed_values = [];
      restart_required = true;
      hub_managed = false;
      local_only = true;
    }
    ∷ record {
      key = setting_key_allow_remote_overrides;
      label = codes "Allow Remote Overrides";
      description = codes "Allow hub-side settings updates to be applied remotely.";
      setting_type = bool_setting;
      default_value = codes "true";
      min_int = 0;
      max_int = 0;
      allowed_values = [];
      restart_required = false;
      hub_managed = false;
      local_only = true;
    }
    ∷ record {
      key = setting_key_log_level;
      label = codes "Log Level";
      description = codes "Agent log verbosity.";
      setting_type = enum_setting;
      default_value = codes "info";
      min_int = 0;
      max_int = 0;
      allowed_values = (codes "debug" ∷ codes "info" ∷ codes "warn" ∷ codes "error" ∷ []);
      restart_required = false;
      hub_managed = true;
      local_only = false;
    }
    ∷ []
