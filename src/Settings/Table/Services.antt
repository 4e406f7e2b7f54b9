-- ===== src/Settings/Table/Services.antt =====
-- sysconfig/settings_definitions.go: the table of the settings, a part.
use labtether_agent.Common.{true, false, List, [], ◌∷◌}
use labtether_agent.Common.Text.{codes}
use labtether_agent.Settings.Keys.{
  Definition, string_setting, int_setting, bool_setting,
  setting_key_services_discovery_docker_enabled, setting_key_services_discovery_proxy_enabled,
  setting_key_services_discovery_proxy_traefik_enabled,
  setting_key_services_discovery_proxy_caddy_enabled,
  setting_key_services_discovery_proxy_npm_enabled,
  setting_key_services_discovery_port_scan_enabled,
  setting_key_services_discovery_port_scan_include_listening,
  setting_key_services_discovery_port_scan_ports, setting_key_services_discovery_lan_scan_enabled,
  setting_key_services_discovery_lan_scan_cidrs, setting_key_services_discovery_lan_scan_ports,
  setting_key_services_discovery_lan_scan_max_hosts,
}

abbrev pub service_settings : List Definition
service_settings =
    record {
      key = setting_key_services_discovery_docker_enabled;
      label = codes "Services: Docker Discovery Enabled";
      description =
          codes "When enabled, discover services from Docker container metadata and ports.";
      setting_type = bool_setting;
      default_value = codes "true";
      min_int = 0;
      max_int = 0;
      allowed_values = [];
      restart_required = true;
      hub_managed = true;
      local_only = false;
    }
    ∷ record {
      key = setting_key_services_discovery_proxy_enabled;
      label = codes "Services: Proxy API Discovery Enabled";
      description = codes "When enabled, query supported reverse-proxy APIs for routed services.";
      setting_type = bool_setting;
      default_value = codes "true";
      min_int = 0;
      max_int = 0;
      allowed_values = [];
      restart_required = true;
      hub_managed = true;
      local_only = false;
    }
    ∷ record {
      key = setting_key_services_discovery_proxy_traefik_enabled;
      label = codes "Services: Traefik API Discovery";
      description = codes "Include Traefik API routes in service discovery.";
      setting_type = bool_setting;
      default_value = codes "true";
      min_int = 0;
      max_int = 0;
      allowed_values = [];
      restart_required = true;
      hub_managed = true;
      local_only = false;
    }
    ∷ record {
      key = setting_key_services_discovery_proxy_caddy_enabled;
      label = codes "Services: Caddy API Discovery";
      description = codes "Include Caddy admin API routes in service discovery.";
      setting_type = bool_setting;
      default_value = codes "true";
      min_int = 0;
      max_int = 0;
      allowed_values = [];
      restart_required = true;
      hub_managed = true;
      local_only = false;
    }
    ∷ record {
      key = setting_key_services_discovery_proxy_npm_enabled;
      label = codes "Services: Nginx Proxy Manager API Discovery";
      description = codes "Include Nginx Proxy Manager API routes in service discovery.";
      setting_type = bool_setting;
      default_value = codes "true";
      min_int = 0;
      max_int = 0;
      allowed_values = [];
      restart_required = true;
      hub_managed = true;
      local_only = false;
    }
    ∷ record {
      key = setting_key_services_discovery_port_scan_enabled;
      label = codes "Services: Local Port Scan Enabled";
      description =
          codes
            "When enabled, probe local host ports for services not found via Docker/proxy APIs.";
      setting_type = bool_setting;
      default_value = codes "true";
      min_int = 0;
      max_int = 0;
      allowed_values = [];
      restart_required = true;
      hub_managed = true;
      local_only = false;
    }
    ∷ record {
      key = setting_key_services_discovery_port_scan_include_listening;
      label = codes "Services: Local Scan Include Listening Ports";
      description =
          codes "Augment configured local scan ports with currently listening TCP sockets.";
      setting_type = bool_setting;
      default_value = codes "true";
      min_int = 0;
      max_int = 0;
      allowed_values = [];
      restart_required = true;
      hub_managed = true;
      local_only = false;
    }
    ∷ record {
      key = setting_key_services_discovery_port_scan_ports;
      label = codes "Services: Local Scan Port List";
      description =
          codes "Optional comma/newline separated local port list. Empty uses built-in defaults.";
      setting_type = string_setting;
      default_value = codes "";
      min_int = 0;
      max_int = 0;
      allowed_values = [];
      restart_required = true;
      hub_managed = true;
      local_only = false;
    }
    ∷ record {
      key = setting_key_services_discovery_lan_scan_enabled;
      label = codes "Services: LAN CIDR Scan Enabled";
      description = codes "When enabled, probe configured CIDR ranges for web services.";
      setting_type = bool_setting;
      default_value = codes "false";
      min_int = 0;
      max_int = 0;
      allowed_values = [];
      restart_required = true;
      hub_managed = true;
      local_only = false;
    }
    ∷ record {
      key = setting_key_services_discovery_lan_scan_cidrs;
      label = codes "Services: LAN CIDR Ranges";
      description = codes "Comma/newline separated private CIDRs to scan when LAN scan is enabled.";
      setting_type = string_setting;
      default_value = codes "";
      min_int = 0;
      max_int = 0;
      allowed_values = [];
      restart_required = true;
      hub_managed = true;
      local_only = false;
    }
    ∷ record {
      key = setting_key_services_discovery_lan_scan_ports;
      label = codes "Services: LAN Scan Port List";
      description =
          codes "Optional comma/newline separated LAN port list. Empty uses built-in defaults.";
      setting_type = string_setting;
      default_value = codes "";
      min_int = 0;
      max_int = 0;
      allowed_values = [];
      restart_required = true;
      hub_managed = true;
      local_only = false;
    }
    ∷ record {
      key = setting_key_services_discovery_lan_scan_max_hosts;
      label = codes "Services: LAN Scan Host Cap";
      description = codes "Maximum number of LAN hosts probed per scan cycle.";
      setting_type = int_setting;
      default_value = codes "64";
      min_int = 1;
      max_int = 1024;
      allowed_values = [];
      restart_required = true;
      hub_managed = true;
      local_only = false;
    }
    ∷ []
