-- ===== src/Outbound/Dialled.antt =====
-- Which addresses a secured client dials. The resolver is asked again at the dial, so what the check
-- of the URL resolved plays no part here.
use labtether_agent.Common.{
  ◌≡◌, ◌⊎◌, refl, false, ◌++◌, inl, inr, none, some, List, [], ◌∷◌, arith, All, Result, ok, err,
  outcome, Bool-cases, Option-cases, ap,
}
use labtether_agent.Common.Text.{Text}
use labtether_agent.Common.Text.Case.{CaseTables}
use labtether_agent.Common.Text.Space.{is_blank}
use labtether_agent.Outbound.Address.{Ip}
use labtether_agent.Outbound.Hosts.{Network, normalize_hostname}
use labtether_agent.Outbound.Permitted.{
  Permits, validate_resolved_outbound_ip_iff, validate_addresses_iff,
}
use labtether_agent.Outbound.Resolved.{Allowed, validate_resolved_outbound_ip, validate_addresses}
use labtether_agent.Outbound.Dial.{
  Dialer, DialError, Dialled, dial_each, dial_literal, dial_resolved, dial_host, unresolved,
  dial_outbound_validated, failed,
}

module _ {E : Type 0} {Conn : Type 0} (dialer : Dialer E Conn) (port : Text) where
  dial_each-Permits :
      (allowed : Allowed) (last_err : DialError E) (ips : List Ip)
      → All (Permits allowed) ips
      → All (Permits allowed) (dial_each dialer port last_err ips).tried
  unfolding dial_each
  dial_each-Permits allowed last_err [] h = tt
  dial_each-Permits allowed last_err (ip ∷ ips) (p, h) =
      elim (outcome (dialer.dial_context ip port)) [
        | inl (conn, e) ↦ ground (arith, p)
        | inr (why, e) ↦
            let rest = dial_each-Permits allowed (failed why) ips h in ground (arith, p, rest)
      ]

  dial_literal-Permits :
      (host : Text) (allowed : Allowed) (ip : Ip)
      → All (Permits allowed) (dial_literal dialer port host allowed ip).tried
  unfolding dial_literal
  dial_literal-Permits host allowed ip =
      elim (outcome (validate_resolved_outbound_ip host ip allowed)) [
        | inl (unit, e) ↦
            let permits = (validate_resolved_outbound_ip_iff host ip allowed).0 e in
            ground (arith, permits)
        | inr (why, e) ↦ ground arith
      ]

  dial_resolved-Permits :
      (host : Text) (allowed : Allowed) (step : Result E (List Ip))
      → All (Permits allowed) (dial_resolved dialer port host allowed step).tried
  unfolding dial_resolved
  dial_resolved-Permits host allowed (err why) = tt
  dial_resolved-Permits host allowed (ok ips) =
      elim (outcome (validate_addresses host allowed ips)) [
        | inl (unit, e) ↦
            let permits =
              dial_each-Permits allowed unresolved ips
                ((validate_addresses_iff host allowed ips).0 e) in
            ground (arith, permits)
        | inr (why, e) ↦ ground arith
      ]

  -- How the loop ends: at the first address that connects, or behind the last one with an error.
  abbrev pub FirstConnects : List Ip → Dialled E Conn → Type 0
  FirstConnects ips dialled =
      ((before : List Ip) × (ip : Ip) × (behind : List Ip) × (conn : Conn) × (ips
          ≡ before ++ (ip ∷ behind))
        × All Fails before
        × (dialer.dial_context ip port ≡ ok conn)
        × (dialled.tried ≡ before ++ (ip ∷ []))
        × (dialled.result ≡ ok conn))
      ⊎ (All Fails ips × (dialled.tried ≡ ips) × ((why : DialError E) × (dialled.result ≡ err why)))
    where
      Fails : Ip → Type 0
      Fails ip = (why : E) × (dialer.dial_context ip port ≡ err why)

  dial_each-FirstConnects :
      (last_err : DialError E) (ips : List Ip)
      → FirstConnects ips (dial_each dialer port last_err ips)
  unfolding dial_each
  dial_each-FirstConnects last_err [] = inr (tt, refl, (last_err, refl))
  dial_each-FirstConnects last_err (ip ∷ ips) = elim (outcome (dialer.dial_context ip port)) [
    | inl (conn, e) ↦ inl ([], ip, ips, conn, refl, tt, e, ground arith, ground arith)
    | inr (why, e) ↦ elim (dial_each-FirstConnects (failed why) ips) [
      | inl (before, found, behind, conn, parts, fails, connects, tried, result) ↦ inl (
        ip ∷ before,
        found,
        behind,
        conn,
        ap (◌∷◌ ip) parts,
        ((why, e), fails),
        connects,
        ground arith,
        ground arith,
      )
      | inr (fails, tried, (last, result)) ↦
          inr (((why, e), fails), ground arith, (last, ground arith))
    ]
  ]

  dial_host-Permits :
      (net : Network) (allowed : Allowed) (host : Text)
      → All (Permits allowed) (dial_host dialer port net allowed host).tried
  unfolding dial_host
  dial_host-Permits net allowed host = elim (Bool-cases (is_blank host)) [
    | inl blank ↦ ground arith
    | inr named ↦ elim (Option-cases (net.parse_ip host)) [
      | inl name ↦ ground (arith, dial_resolved-Permits host allowed (dialer.lookup_ip_addr host))
      | inr (ip, literal) ↦ ground (arith, dial_literal-Permits host allowed ip)
    ]
  ]

  dial_host-FirstConnects :
      (net : Network) (allowed : Allowed) (host : Text) (ips : List Ip)
      → is_blank host ≡ false
      → net.parse_ip host ≡ none
      → dialer.lookup_ip_addr host ≡ ok ips
      → All (Permits allowed) ips
      → dial_host dialer port net allowed host ≡ dial_each dialer port unresolved ips
  unfolding dial_host dial_resolved
  dial_host-FirstConnects net allowed host ips named name found permits =
      let passed = (validate_addresses_iff host allowed ips).1 permits in ground arith

-- Whatever the resolver answers at the dial, every address that is dialled is one that the flags
-- permit: no loopback address and no private address unless they are allowed.
pub dial_outbound_validated-Permits :
    {E : Type 0} {Conn : Type 0} (tables : CaseTables) (net : Network) (dialer : Dialer E Conn)
    (allowed : Allowed) (address : Text)
    → All (Permits allowed) (dial_outbound_validated tables net dialer allowed address).tried
unfolding dial_outbound_validated
dial_outbound_validated-Permits tables net dialer allowed address =
    elim (Option-cases (net.split_host_port address)) [
      | inl bad ↦ ground arith
      | inr ((host, port), parts) ↦
          let safe = dial_host-Permits dialer port net allowed (normalize_hostname tables host) in
          ground (arith, safe)
    ]

-- A name that resolves to permitted addresses only is dialled at each in turn up to the first
-- that connects, whose connection is returned; when none connects, all were tried and an error is
-- returned.
pub dial_outbound_validated-FirstConnects :
    {E : Type 0} {Conn : Type 0} (tables : CaseTables) (net : Network) (dialer : Dialer E Conn)
    (allowed : Allowed) (address host port : Text) (ips : List Ip)
    → net.split_host_port address ≡ some (host, port)
    → let name = normalize_hostname tables host in
      is_blank name ≡ false
      → net.parse_ip name ≡ none
      → dialer.lookup_ip_addr name ≡ ok ips
      → All (Permits allowed) ips
      → FirstConnects dialer port ips (dial_outbound_validated tables net dialer allowed address)
unfolding dial_outbound_validated
dial_outbound_validated-FirstConnects tables net dialer allowed address host port ips parts named
      name found permits =
    let same_run : dial_outbound_validated tables net dialer allowed address
        ≡ dial_each dialer port unresolved ips =
      ground
        (arith, dial_host-FirstConnects dialer port net allowed _ ips named name found permits) in
    rw same_run (dial_each-FirstConnects dialer port unresolved ips)
