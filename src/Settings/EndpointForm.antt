-- ===== src/Settings/EndpointForm.antt =====
-- The forms of an accepted Docker endpoint.
use labtether_agent.Common.{◌≡◌, ◌⊎◌, true, false, ◌++◌, Result, ok}
use labtether_agent.Common.Text.{Text, codes}
use labtether_agent.Common.Text.Search.{has_prefix}
use labtether_agent.Common.Text.Space.{trim_space}
use labtether_agent.Settings.Endpoint.{
  docker_npipe_prefix, docker_unix_scheme, is_network_path, is_npipe_name,
}
use labtether_agent.Settings.Keys.{SettingError}

-- An absolute path that is no network path; a Unix socket with an absolute path; a named pipe of
-- this host with an admitted name; or what the checks of a URL gave.
abbrev pub IsEndpoint : (Text → Result SettingError Text) → Text → Text → Type 0
IsEndpoint url_endpoint raw v =
    ((has_prefix v (codes "/") ≡ true) × (is_network_path v ≡ false))
    ⊎ ((path : Text) × (has_prefix path (codes "/") ≡ true) × (v ≡ docker_unix_scheme ++ path))
    ⊎ ((name : Text) × (is_npipe_name name ≡ true) × (v ≡ docker_npipe_prefix ++ name))
    ⊎ (url_endpoint (trim_space raw) ≡ ok v)
