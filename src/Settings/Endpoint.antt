-- ===== src/Settings/Endpoint.antt =====
-- sysconfig/settings_value_validation.go: `normalizeDockerEndpointValue`, with the named pipes of
-- docker/npipe_endpoint.go and the Unix scheme of docker/client.go. What is left of the function for
-- an http or https URL (net/url and the outbound policy) is the parameter `url_endpoint`.
use labtether_agent.Common.{
  ℕ, Bool, false, not, ◌&&◌, ◌||◌, Option, none, some, [], ◌∷◌, ◌++◌, leb, ◌==◌, if◌then◌else◌,
  Result, ok, err, take, drop, all,
}
use labtether_agent.Common.Text.{Text, codes}
use labtether_agent.Common.Text.Bytes.{byte_length}
use labtether_agent.Common.Text.Case.{CaseTables, equal_fold}
use labtether_agent.Common.Text.Search.{contains, has_prefix, has_suffix, trim_prefix}
use labtether_agent.Common.Text.Space.{is_blank, trim_space}
use labtether_agent.Settings.Keys.{
  SettingError, bad_npipe, empty_value, network_path, relative_unix_path,
}

abbrev pub docker_npipe_prefix : Text
docker_npipe_prefix = codes "npipe:////./pipe/"

abbrev pub docker_unix_scheme : Text
docker_unix_scheme = codes "unix://"

abbrev pub is_docker_npipe_name_start : ℕ → Bool
is_docker_npipe_name_start ch =
    (leb b'a' ch && leb ch b'z') || (leb b'A' ch && leb ch b'Z') || (leb b'0' ch && leb ch b'9')

abbrev pub is_docker_npipe_name_char : ℕ → Bool
is_docker_npipe_name_char ch =
    is_docker_npipe_name_start ch || ch == b'_' || ch == b'-' || ch == b'.'

-- The tests on the name of a pipe.
unfoldable pub is_npipe_name : Text → Bool
is_npipe_name [] = false
is_npipe_name (c ∷ s) =
    leb (byte_length (c ∷ s)) 128
    && is_docker_npipe_name_start c
    && not (contains (c ∷ s) (codes ".."))
    && not (has_suffix (c ∷ s) (codes "."))
    && all is_docker_npipe_name_char s

-- How `NormalizeDockerNpipeEndpoint` comes out: not a pipe, or a pipe with its result.
unfoldable pub normalize_docker_npipe_endpoint :
    CaseTables → Text → Option (Result SettingError Text)
normalize_docker_npipe_endpoint tables raw =
    let value = trim_space raw in
    let name = trim_prefix value docker_npipe_prefix in
    if not (equal_fold tables (take 6 value) (codes "npipe:"))
    then none
    else if not (has_prefix value docker_npipe_prefix)
    then some (err bad_npipe)
    else if is_npipe_name name
    then some (ok (docker_npipe_prefix ++ name))
    else some (err bad_npipe)

-- `TrimDockerUnixScheme`, `none` where it returns false.
unfoldable pub trim_docker_unix_scheme : CaseTables → Text → Option Text
trim_docker_unix_scheme tables value =
    let trimmed = trim_space value in
    if equal_fold tables (take 7 trimmed) docker_unix_scheme
    then some (trim_space (drop 7 trimmed))
    else none

-- The first two characters of a network path, after the first.
abbrev pub is_network_path : Text → Bool
is_network_path (a ∷ b ∷ s) = b == b'/' || b == b'\\'
is_network_path _ = false

module _ (tables : CaseTables) (url_endpoint : Text → Result SettingError Text) where
  abbrev pub unix_path : Text → Result SettingError Text
  unix_path path =
      if is_blank path || not (has_prefix path (codes "/"))
      then err relative_unix_path
      else ok (docker_unix_scheme ++ path)

  -- an absolute path, a `unix://` path, or a URL
  unfoldable pub other_endpoint : Text → Result SettingError Text
  other_endpoint value =
      if has_prefix value (codes "/")
      then (if is_network_path value then err network_path else ok value)
      else elim (trim_docker_unix_scheme tables value) [
        | some path ↦ unix_path path
        | none ↦ url_endpoint value
      ]

  unfoldable pub normalize_docker_endpoint_value : Text → Result SettingError Text
  normalize_docker_endpoint_value raw =
      let value = trim_space raw in
      if is_blank value
      then err empty_value
      else elim (normalize_docker_npipe_endpoint tables value) [
        | some result ↦ result
        | none ↦ other_endpoint value
      ]
