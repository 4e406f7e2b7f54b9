-- ===== src/Outbound/Hosts.antt =====
-- outbound.go: host names and the patterns of the allowlist. What package net says of a text is a
-- parameter.
use labtether_agent.Common.{
  Bool, true, false, not, ◌++◌, Option, none, some, List, [], ◌∷◌, map, if◌then◌else◌, any,
}
use labtether_agent.Common.Text.{Text, codes}
use labtether_agent.Common.Text.Case.{CaseTables, to_lower, equal_fold}
use labtether_agent.Common.Text.Space.{is_blank, trim_space}
use labtether_agent.Common.Text.Search.{contains, has_prefix, has_suffix, trim_prefix, trim_suffix}
use labtether_agent.Command.Env.{Environment, parse_csv_env}
use labtether_agent.Outbound.Address.{Ip}

-- What outbound.go reads of a *url.URL; `host` is URL.Hostname.
pub record Url : Type 0 where
  pub scheme : Text
  pub host : Text

-- Packages net and net/url: an error is `none`. `parse_cidr` gives IPNet.Contains of the network.
-- The two lookups are `lookupIPAddrs` and `lookupIP`, which need not agree.
pub record Network : Type 0 where
  pub parse_ip : Text → Option Ip
  pub parse_cidr : Text → Option (Ip → Bool)
  pub parse_url : Text → Option Url
  pub split_host_port : Text → Option (Text × Text)
  pub lookup_ip_addrs : Text → Option (List Ip)
  pub lookup_ip : Text → Option (List Ip)

abbrev pub env_outbound_allowed_hosts : Text
env_outbound_allowed_hosts = codes "LABTETHER_OUTBOUND_ALLOWED_HOSTS"

abbrev pub private_hostname_suffixes : List Text
private_hostname_suffixes =
    map codes (".local" ∷ ".lan" ∷ ".home" ∷ ".internal" ∷ ".home.arpa" ∷ [])

module _ (tables : CaseTables) where
  unfoldable pub normalize_hostname : Text → Text
  normalize_hostname value =
      trim_suffix
        (trim_suffix (trim_prefix (trim_space (to_lower tables value)) (codes "[")) (codes "]"))
        (codes ".")

  unfoldable pub is_likely_private_hostname : Text → Bool
  is_likely_private_hostname host =
      if is_blank host
      then false
      else if not (contains host (codes "."))
      then true
      else any (has_suffix host) private_hostname_suffixes

  module _ (net : Network) where
    -- `url.Parse`, and the host of what it gives
    abbrev url_host : Text → Text
    url_host trimmed = elim (net.parse_url trimmed) [ none ↦ trimmed | some url ↦ url.host ]

    abbrev without_port : Text → Text
    without_port trimmed = elim (net.split_host_port trimmed) [
      | none ↦ trimmed
      | some (host, port) ↦ host
    ]

    abbrev pattern_text : Text → Text
    pattern_text trimmed =
        if contains trimmed (codes "/")
        then elim (net.parse_cidr trimmed) [
          | some network ↦ trimmed
          | none ↦ normalize_hostname trimmed
        ]
        else normalize_hostname trimmed

    unfoldable pub parse_host_pattern : Text → Text
    parse_host_pattern value =
        let trimmed = trim_space (to_lower tables value) in
        if is_blank trimmed
        then []
        else pattern_text
            (without_port (if contains trimmed (codes "://") then url_host trimmed else trimmed))

    abbrev normalized_patterns : List Text → List Text
    normalized_patterns [] = []
    normalized_patterns (pattern ∷ patterns) =
        let rest = normalized_patterns patterns in
        let normalized = parse_host_pattern pattern in
        if is_blank normalized then rest else normalized ∷ rest

    unfoldable pub parse_allowed_host_patterns : Environment → List Text
    parse_allowed_host_patterns env =
        normalized_patterns (parse_csv_env env env_outbound_allowed_hosts [])

    abbrev in_network : Ip → Option (Ip → Bool) → Bool
    in_network ip none = false
    in_network ip (some network) = network ip

    abbrev host_in_network : Text → Text → Bool
    host_in_network host network = elim (net.parse_ip host) [
      | none ↦ false
      | some ip ↦ in_network ip (net.parse_cidr network)
    ]

    abbrev matches_wildcard : Text → Text → Bool
    matches_wildcard host suffix =
        if is_blank suffix then false else has_suffix host (codes "." ++ suffix)

    unfoldable pub host_matches_pattern : Text → Text → Bool
    host_matches_pattern name wanted =
        let host = normalize_hostname name in
        if is_blank host
        then false
        else if is_blank wanted
        then false
        else if contains wanted (codes "/")
        then host_in_network host wanted
        else if has_prefix wanted (codes "*.")
        then matches_wildcard host (trim_prefix wanted (codes "*."))
        else equal_fold tables host wanted
