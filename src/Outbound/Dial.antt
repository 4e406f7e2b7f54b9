-- ===== src/Outbound/Dial.antt =====
-- outbound.go: `dialOutboundValidated`, which resolves the host again and connects only to addresses
-- that it has checked. The resolver and the connections are parameters; the addresses that are
-- dialled stand beside the result, in order.
use labtether_agent.Common.{none, some, List, [], ◌∷◌, if◌then◌else◌, Result, ok, err}
use labtether_agent.Common.Text.{Text}
use labtether_agent.Common.Text.Case.{CaseTables}
use labtether_agent.Common.Text.Space.{is_blank}
use labtether_agent.Outbound.Address.{Ip}
use labtether_agent.Outbound.Hosts.{Network, normalize_hostname}
use labtether_agent.Outbound.Resolved.{
  Allowed, OutboundError, validate_resolved_outbound_ip, validate_addresses,
}

-- net.DefaultResolver.LookupIPAddr and net.Dialer.DialContext with address and port
pub record Dialer (E : Type 0) (Conn : Type 0) : Type 0 where
  pub lookup_ip_addr : Text → Result E (List Ip)
  pub dial_context : Ip → Text → Result E Conn

pub data DialError (E : Type 0) : Type 0 where
  bad_address no_host unresolved : DialError E
  refused : OutboundError → DialError E
  failed : E → DialError E

-- The addresses that were dialled, in order, and what came of it.
pub record Dialled (E : Type 0) (Conn : Type 0) : Type 0 where
  pub tried : List Ip
  pub result : Result (DialError E) Conn

module _ {E : Type 0} {Conn : Type 0} where
  abbrev fails : DialError E → Dialled E Conn
  fails why = record { tried = []; result = err why }

  abbrev before : Ip → Dialled E Conn → Dialled E Conn
  before ip later = record later { tried = ip ∷ later.tried }

  abbrev of_step : Result E Conn → Result (DialError E) Conn
  of_step (ok conn) = ok conn
  of_step (err why) = err (failed why)

  module _ (dialer : Dialer E Conn) (port : Text) where
    -- the loop over the checked addresses, with the error to return behind the last one
    unfoldable pub dial_each : DialError E → List Ip → Dialled E Conn
    dial_each last_err [] = fails last_err
    dial_each last_err (ip ∷ ips) = elim (dialer.dial_context ip port) [
      | ok conn ↦ record { tried = ip ∷ []; result = ok conn }
      | err why ↦ before ip (dial_each (failed why) ips)
    ]

    abbrev dial_one : Ip → Dialled E Conn
    dial_one ip = record { tried = ip ∷ []; result = of_step (dialer.dial_context ip port) }

    unfoldable pub dial_literal : Text → Allowed → Ip → Dialled E Conn
    dial_literal host allowed ip = elim (validate_resolved_outbound_ip host ip allowed) [
      | err why ↦ fails (refused why)
      | ok _ ↦ dial_one ip
    ]

    abbrev dial_checked : Result OutboundError (Unit {0}) → List Ip → Dialled E Conn
    dial_checked (err why) ips = fails (refused why)
    dial_checked (ok _) ips = dial_each unresolved ips

    unfoldable pub dial_resolved : Text → Allowed → Result E (List Ip) → Dialled E Conn
    dial_resolved host allowed (err why) = fails (failed why)
    dial_resolved host allowed (ok ips) = dial_checked (validate_addresses host allowed ips) ips

    unfoldable pub dial_host : Network → Allowed → Text → Dialled E Conn
    dial_host net allowed host = if is_blank host then fails no_host else elim (net.parse_ip host) [
      | some ip ↦ dial_literal host allowed ip
      | none ↦ dial_resolved host allowed (dialer.lookup_ip_addr host)
    ]

  unfoldable pub dial_outbound_validated :
      CaseTables → Network → Dialer E Conn → Allowed → Text → Dialled E Conn
  dial_outbound_validated tables net dialer allowed address = elim (net.split_host_port address) [
    | none ↦ fails bad_address
    | some (host, port) ↦ dial_host dialer port net allowed (normalize_hostname tables host)
  ]
