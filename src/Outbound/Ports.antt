-- ===== src/Outbound/Ports.antt =====
-- The ports and dial targets that the policy accepts.
use labtether_agent.Common.{
  ℕ, ◌≤◌, ◌≡◌, ◌↔◌, ◌⊎◌, refl, true, false, inl, inr, some, arith, all, ok, outcome,
}
use labtether_agent.Common.Int.{ℤ, pos, negsuc}
use labtether_agent.Common.Text.{Text}
use labtether_agent.Common.Text.Case.{CaseTables}
use labtether_agent.Common.Text.Number.{atoi, is_digit}
use labtether_agent.Common.Text.Space.{is_blank, trim_space}
use labtether_agent.Common.Text.Words.{trim_space-twice}
use labtether_agent.Command.Env.{Environment}
use labtether_agent.Outbound.Hosts.{Network}
use labtether_agent.Outbound.Policy.{
  validate_outbound_host, validate_outbound_dial_target, in_port_range, strict_decimal_int, port_or,
  validate_outbound_host_port,
}

-- The port of a request: the number that the text is, in decimal digits only, or the fallback.
abbrev pub Chosen : Text → ℤ → ℤ → Type 0
Chosen port_raw fallback_port port =
    let trimmed = trim_space port_raw in
    ((is_blank trimmed ≡ true) × (port ≡ fallback_port))
    ⊎ ((is_blank trimmed ≡ false) × (all is_digit trimmed ≡ true) × (atoi trimmed ≡ some port))

port_or_iff :
    (port_raw : Text) (fallback_port port : ℤ)
    → (port_or port_raw fallback_port ≡ ok port) ↔ Chosen port_raw fallback_port port
unfolding port_or strict_decimal_int
port_or_iff port_raw fallback_port port = ((λ h. ground (arith, twice)), λ h. ground (arith, twice))
  where
    twice : trim_space (trim_space port_raw) ≡ trim_space port_raw
    twice = trim_space-twice port_raw

in_port_range_iff :
    (port : ℤ) → (in_port_range port ≡ true) ↔ ((n : ℕ) × (port ≡ pos n) × (1 ≤ n) × (n ≤ 65535))
in_port_range_iff (negsuc n) = ground arith
in_port_range_iff (pos n) =
    ((λ h. (n, refl, ground arith, ground arith)), λ (m, e, low, high). ground arith)

module _ (tables : CaseTables) (net : Network) (env : Environment) where
  dial_target_iff :
      (host : Text) (port : ℤ)
      → (validate_outbound_dial_target tables net env host port ≡ ok tt) ↔ (
          (is_blank (trim_space host) ≡ false)
          × (in_port_range port ≡ true)
          × (validate_outbound_host tables net env host ≡ ok tt))
  unfolding validate_outbound_dial_target
  dial_target_iff host port = ((λ h. ground arith), λ h. ground arith)

  abbrev pub PortAccepted : Text → Text → ℤ → Text → ℤ → Type 0
  PortAccepted host port_raw fallback_port name port =
      (name ≡ trim_space host)
      × (is_blank name ≡ false)
      × Chosen port_raw fallback_port port
      × ((n : ℕ) × (port ≡ pos n) × (1 ≤ n) × (n ≤ 65535))
      × (validate_outbound_host tables net env name ≡ ok tt)

  validate_outbound_host_port-Accepted :
      (host port_raw : Text) (fallback_port : ℤ) (name : Text) (port : ℤ)
      → validate_outbound_host_port tables net env host port_raw fallback_port ≡ ok (name, port)
      → PortAccepted host port_raw fallback_port name port
  unfolding validate_outbound_host_port
  validate_outbound_host_port-Accepted host port_raw fallback_port name port h =
      elim (outcome (port_or port_raw fallback_port)) [
        | inr (why, bad) ↦ absurd (ground arith)
        | inl (p, chosen) ↦
            elim (outcome (validate_outbound_dial_target tables net env (trim_space host) p)) [
              | inr (why, refused) ↦ absurd (ground arith)
              | inl (unit, target) ↦
                  let (named, range, passed) = (dial_target_iff (trim_space host) p).0 target in
                  let same_name : name ≡ trim_space host = ground arith in
                  let same_port : p ≡ port = ground arith in
                  (
                    same_name,
                    ground (arith, trim_space-twice host),
                    (port_or_iff port_raw fallback_port port).0 (rw same_port at chosen),
                    (in_port_range_iff port).0 (rw same_port at range),
                    rw same_name passed,
                  )
            ]
      ]

  PortAccepted-validate_outbound_host_port :
      (host port_raw : Text) (fallback_port : ℤ) (name : Text) (port : ℤ)
      → PortAccepted host port_raw fallback_port name port
      → validate_outbound_host_port tables net env host port_raw fallback_port ≡ ok (name, port)
  unfolding validate_outbound_host_port
  PortAccepted-validate_outbound_host_port host port_raw fallback_port name port
        (same_name, named, chosen, range, passed) =
      let port_ok = (port_or_iff port_raw fallback_port port).1 chosen in
      let target =
        (dial_target_iff (trim_space host) port).1
          (ground (arith, trim_space-twice host, (in_port_range_iff port).1 range)) in
      ground (arith, port_ok, target)

  -- A host and a port are accepted exactly when the host is not blank, the port is the number that
  -- the text is, in digits only, or the fallback for a blank text, lies from 1 to 65535, and the
  -- host passes the host policy; the host comes back trimmed.
  pub validate_outbound_host_port_iff :
      (host port_raw : Text) (fallback_port : ℤ) (name : Text) (port : ℤ)
      → (validate_outbound_host_port tables net env host port_raw fallback_port ≡ ok (name, port))
        ↔ PortAccepted host port_raw fallback_port name port
  validate_outbound_host_port_iff host port_raw fallback_port name port = (
    validate_outbound_host_port-Accepted host port_raw fallback_port name port,
    PortAccepted-validate_outbound_host_port host port_raw fallback_port name port,
  )
