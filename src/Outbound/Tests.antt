-- ===== src/Outbound/Tests.antt =====
-- A network with a resolver, hosts that the policy accepts and refuses, and the theorems at one of
-- them. The answers for `mixed.example.com` are those of a host with a loopback and a private address.
use labtether_agent.Common.{
  ◌≡◌, ◌↔◌, refl, true, false, none, some, List, [], ◌∷◌, ok, err, Option, All, if◌then◌else◌,
}
use labtether_agent.Common.Int.{pos}
use labtether_agent.Common.Text.{Text, codes}
use labtether_agent.Common.Text.Case.{
  CaseTables, ascii_lower, equal_fold, fold_rune, lower_rune, to_lower,
}
use labtether_agent.Common.Text.Compare.{member, same}
use labtether_agent.Common.Text.Number.{atoi, digits, digits_value}
use labtether_agent.Common.Text.Search.{
  contains, has_prefix, has_suffix, split, split_from, strip_prefix, trim_prefix, trim_suffix,
}
use labtether_agent.Common.Text.Space.{is_blank, trim_space, trim_left, trim_right, is_space}
use labtether_agent.Command.Env.{
  Environment, lookup_env, lookup_pair, parse_bool, parse_bool_env, parse_bool_env_with_presence,
  parse_csv_env,
}
use labtether_agent.Outbound.Accepted.{Listed, RiskAccepted, validate_outbound_host_with_policy_iff}
use labtether_agent.Outbound.Address.{
  Ip, is_link_local_multicast, is_link_local_unicast, is_loopback, is_private,
  is_private_ip_address, to_4,
}
use labtether_agent.Outbound.Dial.{
  Dialer, dial_each, dial_host, dial_literal, dial_outbound_validated, dial_resolved,
}
use labtether_agent.Outbound.Dialled.{
  FirstConnects, dial_outbound_validated-FirstConnects, dial_outbound_validated-Permits,
}
use labtether_agent.Outbound.Hosts.{
  Network, Url, host_matches_pattern, is_likely_private_hostname, normalize_hostname,
  parse_allowed_host_patterns, parse_host_pattern,
}
use labtether_agent.Outbound.Permitted.{Permits, first_addresses}
use labtether_agent.Outbound.Policy.{
  allowed_for_scheme, check_url, contains_string_fold, default_allow_private_for_scheme,
  effective_allowed_outbound_schemes, env_outbound_allowlist_mode, host_risk_profile,
  is_allowlisted, port_or, resolved_host_risk, resolved_outbound_allow_private, strict_decimal_int,
  validate_outbound_dial_target, validate_outbound_host, validate_outbound_host_port,
  validate_outbound_host_with_policy, validate_outbound_url, validate_resolved_outbound_host,
}
use labtether_agent.Outbound.Resolved.{
  Allowed, bad_scheme, insecure_scheme, invalid_port, loopback_host, not_allowlisted, private_host,
  risk_from, validate_addresses, validate_resolved_outbound_ip,
}
use labtether_agent.Outbound.Requests.{SchemeAllowed, validate_outbound_url-Accepted}
use labtether_agent.Outbound.Ports.{PortAccepted, validate_outbound_host_port_iff}

run : Unit {0}
unfolding ascii_lower lower_rune fold_rune to_lower equal_fold same member digits_value digits atoi
    strip_prefix has_prefix has_suffix trim_prefix trim_suffix contains split_from split is_space
    trim_left trim_right trim_space lookup_env parse_bool parse_bool_env
    parse_bool_env_with_presence parse_csv_env to_4 is_loopback is_private is_link_local_unicast
    is_link_local_multicast is_private_ip_address normalize_hostname is_likely_private_hostname
    parse_host_pattern parse_allowed_host_patterns host_matches_pattern
    validate_resolved_outbound_ip validate_addresses risk_from default_allow_private_for_scheme
    contains_string_fold effective_allowed_outbound_schemes resolved_outbound_allow_private
    resolved_host_risk host_risk_profile validate_resolved_outbound_host is_allowlisted
    validate_outbound_host_with_policy validate_outbound_host check_url validate_outbound_url
    validate_outbound_dial_target strict_decimal_int port_or validate_outbound_host_port dial_each
    dial_literal dial_resolved dial_host dial_outbound_validated
run = tt

abbrev ascii : CaseTables
ascii = record { lower = λ c. c; upper = λ c. c; fold = λ c. c }

abbrev public_ip : Ip
public_ip = 93 ∷ 184 ∷ 216 ∷ 34 ∷ []

abbrev other_public_ip : Ip
other_public_ip = 93 ∷ 184 ∷ 216 ∷ 35 ∷ []

abbrev home_ip : Ip
home_ip = 192 ∷ 168 ∷ 1 ∷ 7 ∷ []

abbrev loopback_ip : Ip
loopback_ip = 127 ∷ 0 ∷ 0 ∷ 1 ∷ []

abbrev resolver : Text → Option (List Ip)
resolver host =
    if same host (codes "api.example.com")
    then some (public_ip ∷ other_public_ip ∷ [])
    else if same host (codes "mixed.example.com")
    then some (loopback_ip ∷ home_ip ∷ [])
    else if same host (codes "nas.example.com")
    then some (home_ip ∷ [])
    else none

abbrev network : Network
network = record {
  parse_ip = λ host. if same host (codes "127.0.0.1") then some loopback_ip else none;
  parse_cidr = λ text. none;
  parse_url = λ text.
      if same text (codes "https://API.example.com/v1")
      then some (record { scheme = codes "https"; host = codes "API.example.com" })
      else if same text (codes "http://api.example.com")
      then some (record { scheme = codes "http"; host = codes "api.example.com" })
      else if same text (codes "ftp://api.example.com")
      then some (record { scheme = codes "ftp"; host = codes "api.example.com" })
      else if same text (codes "https://localhost")
      then some (record { scheme = codes "https"; host = codes "localhost" })
      else none;
  split_host_port = λ text.
      if same text (codes "api.example.com:443")
      then some (codes "api.example.com", codes "443")
      else none;
  lookup_ip_addrs = resolver;
  lookup_ip = resolver;
}

-- The allowlist is on.
abbrev environment : Environment
environment = record {
  overrides = none;
  process = λ key. lookup_pair key (
      (env_outbound_allowlist_mode, codes "true")
      ∷ (
        codes "LABTETHER_OUTBOUND_ALLOWED_HOSTS",
        codes "api.example.com, *.lan.example.com, localhost",
      )
      ∷ []);
  entries = [];
}

abbrev strict : Allowed
strict = record { loopback = false; private = false }

polices :
    (validate_outbound_url ascii network environment (codes " https://API.example.com/v1 ")
      ≡ ok (record { scheme = codes "https"; host = codes "API.example.com" }))
    × (validate_outbound_url ascii network environment (codes "http://api.example.com")
        ≡ err (insecure_scheme (codes "http")))
    × (validate_outbound_url ascii network environment (codes "ftp://api.example.com")
        ≡ err (bad_scheme (codes "ftp")))
    × (validate_outbound_url ascii network environment (codes "https://localhost")
        ≡ err (loopback_host (codes "localhost")))
    × (validate_outbound_host ascii network environment (codes "nas.example.com")
        ≡ err (private_host (codes "nas.example.com")))
    × (validate_outbound_host ascii network environment (codes "printer.local")
        ≡ err (private_host (codes "printer.local")))
    × (validate_outbound_host ascii network environment (codes "db.example.com")
        ≡ err (not_allowlisted (codes "db.example.com")))
    × (validate_outbound_host ascii network environment (codes "db.lan.example.com.") ≡ ok tt)
    × (validate_outbound_host_port ascii network environment
          (codes "api.example.com")
          (codes "65536")
          (pos 443)
        ≡ err (invalid_port (pos 65536)))
unfolding run
polices = (refl, refl, refl, refl, refl, refl, refl, refl, refl)

-- A loopback address hides the private one behind it when loopback addresses are allowed.
mixed_host :
    (validate_outbound_host_with_policy ascii network environment
        (codes "mixed.example.com")
        false
        (record { loopback = true; private = false })
      ≡ ok tt)
    × (validate_outbound_host_with_policy ascii network environment
          (codes "mixed.example.com")
          false
          strict
        ≡ err (loopback_host (codes "mixed.example.com")))
unfolding run
mixed_host = (refl, refl)

-- The first address does not answer.
abbrev dialer : Dialer (Unit {0}) Ip
dialer = record {
  lookup_ip_addr = λ host. elim (resolver host) [ none ↦ err tt | some ips ↦ ok ips ];
  dial_context = λ ip port. if same ip public_ip then err tt else ok ip;
}

dials :
    dial_outbound_validated ascii network dialer strict (codes "api.example.com:443")
    ≡ record { tried = public_ip ∷ other_public_ip ∷ []; result = ok other_public_ip }
unfolding run
dials = refl

host-ok :
    validate_outbound_host_with_policy ascii network environment
      (codes "API.example.com")
      true
      strict
    ≡ ok tt
unfolding run
host-ok = refl

validate_outbound_host_with_policy_iff_example :
    (validate_outbound_host_with_policy ascii network environment
        (codes "API.example.com")
        true
        strict
      ≡ ok tt)
    ↔ ((is_blank (normalize_hostname ascii (codes "API.example.com")) ≡ false)
        × RiskAccepted ascii network environment strict
            (normalize_hostname ascii (codes "API.example.com"))
        × (true ≡ true
            → Listed ascii network environment
                (normalize_hostname ascii (codes "API.example.com"))))
validate_outbound_host_with_policy_iff_example =
    validate_outbound_host_with_policy_iff ascii network environment (codes "API.example.com") true
      strict

abbrev api_url : Url
api_url = record { scheme = codes "https"; host = codes "API.example.com" }

url-ok :
    validate_outbound_url ascii network environment (codes " https://API.example.com/v1 ")
    ≡ ok api_url
unfolding run
url-ok = refl

validate_outbound_url-Accepted_example :
    let scheme = to_lower ascii (trim_space (codes "https")) in
    let allowed = allowed_for_scheme ascii network environment scheme in
    (network.parse_url (trim_space (codes " https://API.example.com/v1 ")) ≡ some api_url)
    × (is_blank (trim_space (codes "API.example.com")) ≡ false)
    × SchemeAllowed ascii environment scheme
    × (validate_outbound_host_with_policy ascii network environment
          (codes "API.example.com")
          (parse_bool_env environment env_outbound_allowlist_mode false)
          allowed
        ≡ ok tt)
    × (allowed.loopback ≡ false
        → All
            (Permits allowed)
            (first_addresses ascii network (normalize_hostname ascii (codes "API.example.com"))))
validate_outbound_url-Accepted_example =
    validate_outbound_url-Accepted ascii environment network (codes " https://API.example.com/v1 ")
      api_url url-ok

validate_outbound_host_port_iff_example :
    (validate_outbound_host_port ascii network environment
        (codes " api.example.com ")
        (codes "8443")
        (pos 443)
      ≡ ok (codes "api.example.com", pos 8443))
    ↔ PortAccepted ascii network environment
        (codes " api.example.com ")
        (codes "8443")
        (pos 443)
        (codes "api.example.com")
        (pos 8443)
validate_outbound_host_port_iff_example =
    validate_outbound_host_port_iff ascii network environment (codes " api.example.com ")
      (codes "8443") (pos 443) (codes "api.example.com") (pos 8443)

dial_outbound_validated-Permits_example :
    All
      (Permits strict)
      (dial_outbound_validated ascii network dialer strict (codes "api.example.com:443")).tried
dial_outbound_validated-Permits_example =
    dial_outbound_validated-Permits ascii network dialer strict (codes "api.example.com:443")

api-parts :
    network.split_host_port (codes "api.example.com:443")
    ≡ some (codes "api.example.com", codes "443")
unfolding run
api-parts = refl

api-named : is_blank (normalize_hostname ascii (codes "api.example.com")) ≡ false
unfolding run
api-named = refl

api-name : network.parse_ip (normalize_hostname ascii (codes "api.example.com")) ≡ none
unfolding run
api-name = refl

api-found :
    dialer.lookup_ip_addr (normalize_hostname ascii (codes "api.example.com"))
    ≡ ok (public_ip ∷ other_public_ip ∷ [])
unfolding run
api-found = refl

api-Permits : All (Permits strict) (public_ip ∷ other_public_ip ∷ [])
unfolding run
api-Permits = (((λ h. cc), λ h. cc), (((λ h. cc), λ h. cc), tt))

dial_outbound_validated-FirstConnects_example :
    FirstConnects dialer
      (codes "443")
      (public_ip ∷ other_public_ip ∷ [])
      (dial_outbound_validated ascii network dialer strict (codes "api.example.com:443"))
dial_outbound_validated-FirstConnects_example =
    dial_outbound_validated-FirstConnects ascii network dialer strict (codes "api.example.com:443")
      (codes "api.example.com") (codes "443") (public_ip ∷ other_public_ip ∷ []) api-parts api-named
      api-name api-found api-Permits
