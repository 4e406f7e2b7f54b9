-- ===== src/Outbound/Policy.antt =====
-- outbound.go: the checks of a host, a URL and a port.
use labtether_agent.Common.{
  Bool, true, false, not, ◌&&◌, ◌||◌, ◌++◌, Option, none, some, List, [], ◌∷◌, map, if◌then◌else◌,
  any, all, Result, ok, err, ◌>>=◌, leb,
}
use labtether_agent.Common.Int.{ℤ, pos, negsuc}
use labtether_agent.Common.Text.{Text, codes}
use labtether_agent.Common.Text.Case.{CaseTables, to_lower, equal_fold}
use labtether_agent.Common.Text.Compare.{same, member}
use labtether_agent.Common.Text.Number.{atoi, is_digit}
use labtether_agent.Common.Text.Space.{is_blank, trim_space}
use labtether_agent.Command.Env.{
  Environment, parse_bool_env, parse_bool_env_with_presence, parse_csv_env,
}
use labtether_agent.Command.Policy.{to_set}
use labtether_agent.Outbound.Address.{Ip, is_loopback, is_private_ip_address}
use labtether_agent.Outbound.Hosts.{
  Network, Url, normalize_hostname, is_likely_private_hostname, parse_allowed_host_patterns,
  host_matches_pattern,
}
use labtether_agent.Outbound.Resolved.{
  OutboundError, host_required, url_required, invalid_url, not_absolute, url_host_required,
  loopback_host, private_host, not_allowlisted, insecure_scheme, bad_scheme, invalid_port,
  invalid_port_text, Allowed, validate_resolved_outbound_ip, validate_addresses, Risk, risk_of,
}

abbrev pub env_outbound_allowlist_mode : Text
env_outbound_allowlist_mode = codes "LABTETHER_OUTBOUND_ALLOWLIST_MODE"

abbrev pub env_outbound_allow_private : Text
env_outbound_allow_private = codes "LABTETHER_OUTBOUND_ALLOW_PRIVATE"

abbrev pub env_outbound_allow_loopback : Text
env_outbound_allow_loopback = codes "LABTETHER_OUTBOUND_ALLOW_LOOPBACK"

abbrev pub env_outbound_allowed_schemes : Text
env_outbound_allowed_schemes = codes "LABTETHER_OUTBOUND_ALLOWED_SCHEMES"

abbrev pub env_allow_insecure_transport : Text
env_allow_insecure_transport = codes "LABTETHER_ALLOW_INSECURE_TRANSPORT"

abbrev pub default_allowed_outbound_schemes : List Text
default_allowed_outbound_schemes = map codes ("https" ∷ "wss" ∷ [])

abbrev pub in_port_range : ℤ → Bool
in_port_range (negsuc n) = false
in_port_range (pos n) = leb 1 n && leb n 65535

module _ (tables : CaseTables) where
  unfoldable pub default_allow_private_for_scheme : Text → Bool
  default_allow_private_for_scheme scheme =
      equal_fold tables (trim_space scheme) (codes "https")
      || equal_fold tables (trim_space scheme) (codes "wss")

  unfoldable pub contains_string_fold : List Text → Text → Bool
  contains_string_fold values candidate =
      any (λ value. equal_fold tables (trim_space value) candidate) values

  abbrev pub with_scheme : Text → List Text → List Text
  with_scheme scheme schemes =
      if contains_string_fold schemes scheme then schemes else schemes ++ (scheme ∷ [])

  unfoldable pub effective_allowed_outbound_schemes : Environment → List Text
  effective_allowed_outbound_schemes env =
      let schemes =
        parse_csv_env env env_outbound_allowed_schemes default_allowed_outbound_schemes in
      if parse_bool_env env env_allow_insecure_transport false
      then with_scheme (codes "ws") (with_scheme (codes "http") schemes)
      else schemes

  abbrev or_default : Text → Bool × Bool → Bool
  or_default scheme (value, present) =
      if present then value else default_allow_private_for_scheme scheme

  unfoldable pub resolved_outbound_allow_private : Environment → Text → Bool
  resolved_outbound_allow_private env scheme =
      or_default scheme (parse_bool_env_with_presence env env_outbound_allow_private false)

  module _ (net : Network) where
    unfoldable pub resolved_host_risk : Text → Option Risk
    resolved_host_risk name =
        let host = normalize_hostname tables name in
        if is_blank host then none else risk_of (net.lookup_ip_addrs host)

    abbrev named_risk : Text → Option Risk → Risk
    named_risk host (some risk) = risk
    named_risk host none = record {
      loopback = false;
      private = is_likely_private_hostname tables host;
    }

    abbrev literal_risk : Ip → Risk
    literal_risk ip =
        if is_loopback ip
        then record { loopback = true; private = true }
        else record { loopback = false; private = is_private_ip_address ip }

    unfoldable pub host_risk_profile : Text → Risk
    host_risk_profile host = elim (net.parse_ip host) [
      | some ip ↦ literal_risk ip
      | none ↦
          if equal_fold tables host (codes "localhost")
          then record { loopback = true; private = true }
          else named_risk host (resolved_host_risk host)
    ]

    -- a failed lookup is no error here
    abbrev validate_lookup : Text → Allowed → Option (List Ip) → Result OutboundError (Unit {0})
    validate_lookup host allowed none = ok tt
    validate_lookup host allowed (some ips) = validate_addresses host allowed ips

    unfoldable pub validate_resolved_outbound_host :
        Text → Allowed → Result OutboundError (Unit {0})
    validate_resolved_outbound_host host allowed = elim (net.parse_ip host) [
      | some ip ↦ validate_resolved_outbound_ip host ip allowed
      | none ↦ validate_lookup host allowed (net.lookup_ip host)
    ]

    module _ (env : Environment) where
      unfoldable pub is_allowlisted : Text → Bool
      is_allowlisted host =
          any (host_matches_pattern tables net host) (parse_allowed_host_patterns tables net env)

      abbrev listed_or_error : Text → Bool → Result OutboundError (Unit {0})
      listed_or_error host enforce_allowlist =
          if enforce_allowlist && not (is_allowlisted host)
          then err (not_allowlisted host)
          else ok tt

      unfoldable pub validate_outbound_host_with_policy :
          Text → Bool → Allowed → Result OutboundError (Unit {0})
      validate_outbound_host_with_policy host enforce_allowlist allowed =
          let normalized = normalize_hostname tables host in
          let risk = host_risk_profile normalized in
          if is_blank normalized
          then err host_required
          else if risk.loopback
          then if not allowed.loopback
            then err (loopback_host normalized)
            else listed_or_error normalized enforce_allowlist
          else if risk.private
          then if not allowed.private
            then err (private_host normalized)
            else listed_or_error normalized enforce_allowlist
          else do
            _ ← validate_resolved_outbound_host normalized allowed
            listed_or_error normalized enforce_allowlist

      unfoldable pub validate_outbound_host : Text → Result OutboundError (Unit {0})
      validate_outbound_host host =
          validate_outbound_host_with_policy host
            (parse_bool_env env env_outbound_allowlist_mode false)
            (record {
              loopback = parse_bool_env env env_outbound_allow_loopback false;
              private = parse_bool_env env env_outbound_allow_private false;
            })

      abbrev pub allowed_for_scheme : Text → Allowed
      allowed_for_scheme scheme = record {
        loopback = parse_bool_env env env_outbound_allow_loopback false;
        private = resolved_outbound_allow_private env scheme;
      }

      -- the checks behind url.Parse; `IsAbs` is a scheme that is not empty
      unfoldable pub check_url : Url → Result OutboundError Url
      check_url parsed =
          let scheme = to_lower tables (trim_space parsed.scheme) in
          if is_blank parsed.scheme
          then err not_absolute
          else if is_blank (trim_space parsed.host)
          then err url_host_required
          else if (same scheme (codes "http") || same scheme (codes "ws"))
              && not (parse_bool_env env env_allow_insecure_transport false)
          then err (insecure_scheme scheme)
          else if not
              (member scheme (to_set (to_lower tables) (effective_allowed_outbound_schemes env)))
          then err (bad_scheme scheme)
          else do
            _ ←
                validate_outbound_host_with_policy parsed.host
                  (parse_bool_env env env_outbound_allowlist_mode false) (allowed_for_scheme scheme)
            ok parsed

      unfoldable pub validate_outbound_url : Text → Result OutboundError Url
      validate_outbound_url raw_url =
          let trimmed = trim_space raw_url in
          if is_blank trimmed
          then err url_required
          else elim (net.parse_url trimmed) [ none ↦ err invalid_url | some url ↦ check_url url ]

      unfoldable pub validate_outbound_dial_target : Text → ℤ → Result OutboundError (Unit {0})
      validate_outbound_dial_target host port =
          if is_blank (trim_space host)
          then err host_required
          else if not (in_port_range port)
          then err (invalid_port port)
          else validate_outbound_host host

-- numeric.go
unfoldable pub strict_decimal_int : Text → Option ℤ
strict_decimal_int raw =
    let trimmed = trim_space raw in
    if is_blank trimmed then none else if all is_digit trimmed then atoi trimmed else none

unfoldable pub port_or : Text → ℤ → Result OutboundError ℤ
port_or port_raw fallback_port =
    let trimmed = trim_space port_raw in
    if is_blank trimmed then ok fallback_port else elim (strict_decimal_int trimmed) [
      | none ↦ err (invalid_port_text trimmed)
      | some port ↦ ok port
    ]

module _ (tables : CaseTables) (net : Network) (env : Environment) where
  unfoldable pub validate_outbound_host_port : Text → Text → ℤ → Result OutboundError (Text × ℤ)
  validate_outbound_host_port host port_raw fallback_port =
      let normalized_host = trim_space host in
      if is_blank normalized_host then err host_required else do
        port ← port_or port_raw fallback_port
        _ ← validate_outbound_dial_target tables net env normalized_host port
        ok (normalized_host, port)
