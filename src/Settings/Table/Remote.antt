-- ===== src/Settings/Table/Remote.antt =====
-- sysconfig/settings_definitions.go: the table of the settings, a part.
use labtether_agent.Common.{true, false, List, [], ◌∷◌}
use labtether_agent.Common.Text.{codes}
use labtether_agent.Settings.Keys.{
  Definition, string_setting, int_setting, bool_setting, enum_setting, setting_key_files_root_mode,
  setting_key_webrtc_enabled, setting_key_webrtc_stun_url, setting_key_webrtc_turn_url,
  setting_key_webrtc_turn_user, setting_key_webrtc_turn_pass,
  setting_key_webrtc_wayland_experimental_enabled, setting_key_webrtc_wayland_pipewire_node_id,
  setting_key_webrtc_wayland_input_backend, setting_key_capture_fps,
}

abbrev pub remote_settings : List Definition
remote_settings =
    record {
      key = setting_key_files_root_mode;
      label = codes "Files Root Mode";
      description = codes "File browser scope: home (sandboxed) or full (entire filesystem).";
      setting_type = enum_setting;
      default_value = codes "home";
      min_int = 0;
      max_int = 0;
      allowed_values = (codes "home" ∷ codes "full" ∷ []);
      restart_required = true;
      hub_managed = true;
      local_only = false;
    }
    ∷ record {
      key = setting_key_webrtc_enabled;
      label = codes "WebRTC Enabled";
      description = codes "Enable WebRTC remote streaming when dependencies are available.";
      setting_type = bool_setting;
      default_value = codes "true";
      min_int = 0;
      max_int = 0;
      allowed_values = [];
      restart_required = true;
      hub_managed = true;
      local_only = false;
    }
    ∷ record {
      key = setting_key_webrtc_stun_url;
      label = codes "WebRTC STUN URL";
      description = codes "STUN server URL used for NAT traversal.";
      setting_type = string_setting;
      default_value = codes "stun:stun.l.google.com:19302";
      min_int = 0;
      max_int = 0;
      allowed_values = [];
      restart_required = false;
      hub_managed = true;
      local_only = false;
    }
    ∷ record {
      key = setting_key_webrtc_turn_url;
      label = codes "WebRTC TURN URL";
      description = codes "Optional TURN server URL used when direct ICE fails.";
      setting_type = string_setting;
      default_value = codes "";
      min_int = 0;
      max_int = 0;
      allowed_values = [];
      restart_required = false;
      hub_managed = true;
      local_only = false;
    }
    ∷ record {
      key = setting_key_webrtc_turn_user;
      label = codes "WebRTC TURN Username";
      description = codes "Optional TURN username.";
      setting_type = string_setting;
      default_value = codes "";
      min_int = 0;
      max_int = 0;
      allowed_values = [];
      restart_required = false;
      hub_managed = true;
      local_only = false;
    }
    ∷ record {
      key = setting_key_webrtc_turn_pass;
      label = codes "WebRTC TURN Password";
      description = codes "Optional TURN password.";
      setting_type = string_setting;
      default_value = codes "";
      min_int = 0;
      max_int = 0;
      allowed_values = [];
      restart_required = false;
      hub_managed = true;
      local_only = false;
    }
    ∷ record {
      key = setting_key_webrtc_wayland_experimental_enabled;
      label = codes "Wayland WebRTC Experimental";
      description = codes "Enable the experimental Wayland real-desktop WebRTC backend on Linux.";
      setting_type = bool_setting;
      default_value = codes "false";
      min_int = 0;
      max_int = 0;
      allowed_values = [];
      restart_required = true;
      hub_managed = true;
      local_only = false;
    }
    ∷ record {
      key = setting_key_webrtc_wayland_pipewire_node_id;
      label = codes "Wayland PipeWire Node ID";
      description = codes "PipeWire node ID used by the experimental Wayland WebRTC backend.";
      setting_type = string_setting;
      default_value = codes "";
      min_int = 0;
      max_int = 0;
      allowed_values = [];
      restart_required = true;
      hub_managed = true;
      local_only = false;
    }
    ∷ record {
      key = setting_key_webrtc_wayland_input_backend;
      label = codes "Wayland Input Backend";
      description = codes "Input injector used by the experimental Wayland WebRTC backend.";
      setting_type = enum_setting;
      default_value = codes "auto";
      min_int = 0;
      max_int = 0;
      allowed_values = (codes "auto" ∷ codes "none" ∷ codes "ydotool" ∷ []);
      restart_required = true;
      hub_managed = true;
      local_only = false;
    }
    ∷ record {
      key = setting_key_capture_fps;
      label = codes "Capture FPS";
      description = codes "Target capture frame rate for WebRTC sessions.";
      setting_type = int_setting;
      default_value = codes "30";
      min_int = 5;
      max_int = 120;
      allowed_values = [];
      restart_required = false;
      hub_managed = true;
      local_only = false;
    }
    ∷ []
