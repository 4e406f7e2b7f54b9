-- ===== src/Outbound/Resolved.antt =====
-- outbound.go: the errors of the policy, and the checks of the addresses that a host resolves to. A
-- text in an error of the code is an argument of the constructor here.
use labtether_agent.Common.{
  Bool, true, false, not, ◌&&◌, Option, none, some, List, [], ◌∷◌, if◌then◌else◌, Result, ok, err,
  ◌>>=◌,
}
use labtether_agent.Common.Int.{ℤ}
use labtether_agent.Common.Text.{Text}
use labtether_agent.Outbound.Address.{Ip, is_nil, is_loopback, is_private_ip_address}

pub data OutboundError : Type 0 where
  host_required url_required invalid_url not_absolute url_host_required : OutboundError
  loopback_host private_host not_allowlisted insecure_scheme bad_scheme : Text → OutboundError
  resolves_to_loopback resolves_to_private : Text → Ip → OutboundError
  invalid_port : ℤ → OutboundError
  invalid_port_text : Text → OutboundError

-- The flags that the resolved addresses are held to.
pub record Allowed : Type 0 where
  pub loopback : Bool
  pub private : Bool

unfoldable pub validate_resolved_outbound_ip : Text → Ip → Allowed → Result OutboundError (Unit {0})
validate_resolved_outbound_ip host ip allowed =
    if is_nil ip
    then ok tt
    else if is_loopback ip && not allowed.loopback
    then err (resolves_to_loopback host ip)
    else if is_private_ip_address ip && not allowed.private
    then err (resolves_to_private host ip)
    else ok tt

-- the loop over the addresses of a host
unfoldable pub validate_addresses : Text → Allowed → List Ip → Result OutboundError (Unit {0})
validate_addresses host allowed [] = ok tt
validate_addresses host allowed (ip ∷ ips) =
    let rest = validate_addresses host allowed ips in
    do _ ← validate_resolved_outbound_ip host ip allowed; rest

-- whether the loop over the resolved addresses has seen a loopback and a private one; a loopback
-- address counts as both
pub record Risk : Type 0 where
  pub loopback : Bool
  pub private : Bool

abbrev pub see : Ip → Risk → Risk
see ip seen =
    if is_nil ip
    then seen
    else if is_loopback ip
    then record { loopback = true; private = true }
    else if is_private_ip_address ip
    then record seen { private = true }
    else seen

unfoldable pub risk_from : Risk → List Ip → Risk
risk_from seen [] = seen
risk_from seen (ip ∷ ips) = risk_from (see ip seen) ips

abbrev pub no_risk : Risk
no_risk = record { loopback = false; private = false }

abbrev pub risk_of : Option (List Ip) → Option Risk
risk_of none = none
risk_of (some []) = none
risk_of (some (ip ∷ ips)) = some (risk_from no_risk (ip ∷ ips))
