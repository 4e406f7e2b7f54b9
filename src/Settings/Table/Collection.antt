-- ===== src/Settings/Table/Collection.antt =====
-- sysconfig/settings_definitions.go: the table of the settings, a part.
use labtether_agent.Common.{true, false, List, [], ◌∷◌}
use labtether_agent.Common.Text.{codes}
use labtether_agent.Settings.Keys.{
  Definition, string_setting, int_setting, enum_setting, setting_key_collect_interval_sec,
  setting_key_heartbeat_interval_sec, setting_key_docker_enabled, setting_key_docker_endpoint,
  setting_key_docker_discovery_interval_sec,
}

abbrev pub collection_settings : List Definition
collection_settings =
    record {
      key = setting_key_collect_interval_sec;
      label = codes "Collect Interval";
      description = codes "Telemetry collection interval in seconds.";
      setting_type = int_setting;
      default_value = codes "10";
      min_int = 2;
      max_int = 300;
      allowed_values = [];
      restart_required = false;
      hub_managed = true;
      local_only = false;
    }
    ∷ record {
      key = setting_key_heartbeat_interval_sec;
      label = codes "Heartbeat Interval";
      description = codes "Heartbeat publish interval in seconds.";
      setting_type = int_setting;
      default_value = codes "20";
      min_int = 5;
      max_int = 600;
      allowed_values = [];
      restart_required = false;
      hub_managed = true;
      local_only = false;
    }
    ∷ record {
      key = setting_key_docker_enabled;
      label = codes "Docker Enabled";
      description = codes "Docker collector mode: auto, enabled, or disabled.";
      setting_type = enum_setting;
      default_value = codes "auto";
      min_int = 0;
      max_int = 0;
      allowed_values = (codes "auto" ∷ codes "true" ∷ codes "false" ∷ []);
      restart_required = true;
      hub_managed = true;
      local_only = false;
    }
    ∷ record {
      key = setting_key_docker_endpoint;
      label = codes "Docker Endpoint";
      description = codes "Docker endpoint path or URL.";
      setting_type = string_setting;
      default_value = codes "/var/run/docker.sock";
      min_int = 0;
      max_int = 0;
      allowed_values = [];
      restart_required = true;
      hub_managed = true;
      local_only = false;
    }
    ∷ record {
      key = setting_key_docker_discovery_interval_sec;
      label = codes "Docker Discovery Interval";
      description = codes "Docker discovery/stats interval in seconds.";
      setting_type = int_setting;
      default_value = codes "30";
      min_int = 5;
      max_int = 3600;
      allowed_values = [];
      restart_required = true;
      hub_managed = true;
      local_only = false;
    }
    ∷ []
