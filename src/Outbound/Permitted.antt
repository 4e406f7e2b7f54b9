-- ===== src/Outbound/Permitted.antt =====
-- What the host check accepts, and what it keeps out. `checked_addresses` are those of the second
-- lookup and `first_addresses` those of the first, or the address that the host is.
use labtether_agent.Common.{
  ◌≡◌, ◌↔◌, refl, true, false, inl, inr, Option, none, some, List, [], ◌∷◌, arith, All, ok, outcome,
  Option-cases, if◌then◌else◌,
}
use labtether_agent.Common.Text.{Text}
use labtether_agent.Common.Text.Case.{CaseTables}
use labtether_agent.Common.Text.Space.{is_blank}
use labtether_agent.Outbound.Address.{Ip, is_loopback, is_private_ip_address}
use labtether_agent.Outbound.Hosts.{Network, normalize_hostname}
use labtether_agent.Outbound.Policy.{
  resolved_host_risk, host_risk_profile, validate_resolved_outbound_host,
}
use labtether_agent.Outbound.Resolved.{
  Allowed, Risk, see, no_risk, validate_resolved_outbound_ip, validate_addresses, risk_from,
}

-- An address that the flags let through.
abbrev pub Permits : Allowed → Ip → Type 0
Permits allowed ip =
    (is_loopback ip ≡ true → allowed.loopback ≡ true)
    × (is_private_ip_address ip ≡ true → allowed.private ≡ true)

nil-is_loopback : is_loopback [] ≡ false
unfolding is_loopback
nil-is_loopback = refl

nil-is_private : is_private_ip_address [] ≡ false
unfolding is_private_ip_address
nil-is_private = refl

pub validate_resolved_outbound_ip_iff :
    (host : Text) (ip : Ip) (allowed : Allowed)
    → (validate_resolved_outbound_ip host ip allowed ≡ ok tt) ↔ Permits allowed ip
unfolding validate_resolved_outbound_ip
validate_resolved_outbound_ip_iff host [] allowed =
    ((λ h. ground (arith, nil-is_loopback, nil-is_private)), λ h. refl)
validate_resolved_outbound_ip_iff host (b ∷ ip) allowed = ((λ h. ground arith), λ h. ground arith)

pub validate_addresses_iff :
    (host : Text) (allowed : Allowed) (ips : List Ip)
    → (validate_addresses host allowed ips ≡ ok tt) ↔ All (Permits allowed) ips
unfolding validate_addresses
validate_addresses_iff host allowed [] = ((λ h. tt), λ h. refl)
validate_addresses_iff host allowed (ip ∷ ips) =
    let one = validate_resolved_outbound_ip_iff host ip allowed in
    let rest = validate_addresses_iff host allowed ips in
    elim (outcome (validate_resolved_outbound_ip host ip allowed)) [
      | inl (tt, passed) ↦ (
        (λ h. (one.0 passed, rest.0 (ground (arith, passed, h)))),
        λ h. ground (arith, passed, rest.1 h.1),
      )
      | inr (why, refused) ↦ (
        (λ h. absurd (ground (arith, refused, h))),
        λ h. absurd (ground (arith, refused, one.1 h.0)),
      )
    ]

-- Risks that were not seen are not there.
see-loopback :
    (ip : Ip) (seen : Risk)
    → (see ip seen).loopback ≡ false
    → (seen.loopback ≡ false) × (is_loopback ip ≡ false)
see-loopback [] seen h = (h, nil-is_loopback)
see-loopback (b ∷ ip) seen h = ground arith

risk_from-loopback :
    (seen : Risk) (ips : List Ip)
    → (risk_from seen ips).loopback ≡ false
    → (seen.loopback ≡ false) × All (λ ip. is_loopback ip ≡ false) ips
unfolding risk_from
risk_from-loopback seen [] h = (h, tt)
risk_from-loopback seen (ip ∷ ips) h =
    let (later, rest) = risk_from-loopback (see ip seen) ips h in
    let (first, one) = see-loopback ip seen later in (first, (one, rest))

see-private :
    (ip : Ip) (seen : Risk)
    → (see ip seen).private ≡ false
    → (seen.private ≡ false) × (is_private_ip_address ip ≡ false)
see-private [] seen h = (h, nil-is_private)
see-private (b ∷ ip) seen h = ground arith

risk_from-private :
    (seen : Risk) (ips : List Ip)
    → (risk_from seen ips).private ≡ false
    → (seen.private ≡ false) × All (λ ip. is_private_ip_address ip ≡ false) ips
unfolding risk_from
risk_from-private seen [] h = (h, tt)
risk_from-private seen (ip ∷ ips) h =
    let (later, rest) = risk_from-private (see ip seen) ips h in
    let (first, one) = see-private ip seen later in (first, (one, rest))

abbrev pub or_none : Option (List Ip) → List Ip
or_none none = []
or_none (some ips) = ips

module _ (tables : CaseTables) (net : Network) where
  abbrev pub checked_addresses : Text → List Ip
  checked_addresses host = elim (net.parse_ip host) [
    | some ip ↦ ip ∷ []
    | none ↦ or_none (net.lookup_ip host)
  ]

  -- The code removes the brackets and the dot at the end once more before it looks the host up.
  abbrev first_lookup : Text → Option (List Ip)
  first_lookup host = if is_blank host then none else net.lookup_ip_addrs host

  abbrev pub first_addresses : Text → List Ip
  first_addresses host = elim (net.parse_ip host) [
    | some ip ↦ ip ∷ []
    | none ↦ or_none (first_lookup (normalize_hostname tables host))
  ]

  pub validate_resolved_outbound_host_iff :
      (host : Text) (allowed : Allowed)
      → (validate_resolved_outbound_host tables net host allowed ≡ ok tt)
        ↔ All (Permits allowed) (checked_addresses host)
  unfolding validate_resolved_outbound_host
  validate_resolved_outbound_host_iff host allowed = elim (Option-cases (net.parse_ip host)) [
    | inr (ip, literal) ↦
        let one = validate_resolved_outbound_ip_iff host ip allowed in
        ((λ h. ground (arith, one.0)), λ h. ground (arith, one.1))
    | inl name ↦ elim (Option-cases (net.lookup_ip host)) [
      | inl failed ↦ ((λ h. ground arith), λ h. ground arith)
      | inr (ips, found) ↦
          let all = validate_addresses_iff host allowed ips in
          ((λ h. ground (arith, all.0)), λ h. ground (arith, all.1))
    ]
  ]

  -- What the risk of a host says of its addresses.
  pub host_risk_profile-loopback :
      (host : Text)
      → (host_risk_profile tables net host).loopback ≡ false
      → All (λ ip. is_loopback ip ≡ false) (first_addresses host)
  unfolding host_risk_profile resolved_host_risk
  host_risk_profile-loopback host h = elim (Option-cases (net.parse_ip host)) [
    | inr (ip, literal) ↦ ground arith
    | inl name ↦ elim (Option-cases (first_lookup (normalize_hostname tables host))) [
      | inl failed ↦ ground arith
      | inr ([], found) ↦ ground arith
      | inr (ip ∷ ips, found) ↦
          let seen = risk_from-loopback no_risk (ip ∷ ips) in ground (arith, seen)
    ]
  ]

  pub host_risk_profile-private :
      (host : Text)
      → (host_risk_profile tables net host).private ≡ false
      → All (λ ip. is_private_ip_address ip ≡ false) (first_addresses host)
  unfolding host_risk_profile resolved_host_risk
  host_risk_profile-private host h = elim (Option-cases (net.parse_ip host)) [
    | inr (ip, literal) ↦ ground arith
    | inl name ↦ elim (Option-cases (first_lookup (normalize_hostname tables host))) [
      | inl failed ↦ ground arith
      | inr ([], found) ↦ ground arith
      | inr (ip ∷ ips, found) ↦
          let seen = risk_from-private no_risk (ip ∷ ips) in ground (arith, seen)
    ]
  ]
