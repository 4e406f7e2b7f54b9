-- ===== src/Outbound/Accepted.antt =====
-- The hosts that the policy accepts.
use labtether_agent.Common.{
  ◌≡◌, ◌↔◌, ◌⊎◌, refl, Bool, true, false, not, ◌&&◌, inl, inr, List, [], ◌∷◌, arith, any, All, ok,
  outcome, Bool-cases, All-weaken, All-both,
}
use labtether_agent.Common.Text.{Text}
use labtether_agent.Common.Text.Case.{CaseTables}
use labtether_agent.Common.Text.Compare.{In}
use labtether_agent.Common.Text.Space.{is_blank}
use labtether_agent.Command.Env.{Environment}
use labtether_agent.Outbound.Address.{is_loopback, is_private_ip_address}
use labtether_agent.Outbound.Hosts.{
  Network, normalize_hostname, parse_allowed_host_patterns, host_matches_pattern,
}
use labtether_agent.Outbound.Policy.{
  host_risk_profile, validate_resolved_outbound_host, is_allowlisted,
  validate_outbound_host_with_policy,
}
use labtether_agent.Outbound.Resolved.{Allowed}
use labtether_agent.Outbound.Permitted.{
  Permits, checked_addresses, first_addresses, validate_resolved_outbound_host_iff,
  host_risk_profile-loopback, host_risk_profile-private,
}

module _ (tables : CaseTables) (net : Network) (env : Environment) where
  -- A pattern of the configured list matches the host.
  abbrev pub Listed : Text → Type 0
  Listed host =
      (pattern : Text) × In pattern (parse_allowed_host_patterns tables net env)
      × (host_matches_pattern tables net host pattern ≡ true)

  any-In :
      (test : Text → Bool) (xs : List Text)
      → (any test xs ≡ true) ↔ ((x : Text) × In x xs × (test x ≡ true))
  any-In test [] = ((λ h. cc), λ (x, i, t). absurd i)
  any-In test (y ∷ ys) =
      let rest = any-In test ys in
      (
        (λ h. elim (Bool-cases (test y)) [
          | inl here ↦ (y, inl refl, here)
          | inr later ↦ let (x, i, t) = rest.0 (ground (arith, later, h)) in (x, inr i, t)
        ]),
        λ (x, i, t). elim i [
          | inl here ↦ ground (arith, here, t)
          | inr later ↦ ground (arith, rest.1 (x, later, t))
        ],
      )

  is_allowlisted-Listed : (host : Text) → (is_allowlisted tables net env host ≡ true) ↔ Listed host
  unfolding is_allowlisted
  is_allowlisted-Listed host = any-In (host_matches_pattern tables net host) _

  -- The host is a risk that the flags accept, or none, and then its addresses are accepted.
  abbrev pub RiskAccepted : Allowed → Text → Type 0
  RiskAccepted allowed host =
      let risk = host_risk_profile tables net host in
      ((risk.loopback ≡ true) × (allowed.loopback ≡ true))
      ⊎ (((risk.loopback ≡ false) × (risk.private ≡ true) × (allowed.private ≡ true))
          ⊎ ((risk.loopback ≡ false)
              × (risk.private ≡ false)
              × All (Permits allowed) (checked_addresses tables net host)))

  -- A host is accepted exactly when its normalized name is not empty, its risk and addresses are
  -- accepted under the flags, and, with the allowlist on, a pattern of the list matches it.
  pub validate_outbound_host_with_policy_iff :
      (host : Text) (enforce_allowlist : Bool) (allowed : Allowed)
      → let normalized = normalize_hostname tables host in
        (validate_outbound_host_with_policy tables net env host enforce_allowlist allowed ≡ ok tt)
        ↔ ((is_blank normalized ≡ false)
            × RiskAccepted allowed normalized
            × (enforce_allowlist ≡ true → Listed normalized))
  unfolding validate_outbound_host_with_policy
  validate_outbound_host_with_policy_iff host enforce_allowlist allowed =
      let normalized = normalize_hostname tables host in
      let listed = is_allowlisted-Listed normalized in
      let resolved = validate_resolved_outbound_host_iff tables net normalized allowed in
      let result = outcome (validate_resolved_outbound_host tables net normalized allowed) in
      (
        (λ h. (
          ground (arith, h),
          elim result [
            | inl (passed_unit, passed) ↦ ground (arith, h, passed, resolved.0 passed)
            | inr (why, refused) ↦ ground (arith, h, refused)
          ],
          λ on. listed.0 (elim result [
            | inl (passed_unit, passed) ↦ ground (arith, h, passed)
            | inr (why, refused) ↦ ground (arith, h, refused)
          ]),
        )),
        λ (named, accepted, on_list).
            let passes : (enforce_allowlist && not (is_allowlisted tables net env normalized))
                ≡ false =
              elim (Bool-cases enforce_allowlist) [
                | inl on ↦ ground (arith, listed.1 (on_list on))
                | inr off ↦ ground arith
              ] in
            elim accepted [
              | inl loopback ↦ ground arith
              | inr (inl private) ↦ ground arith
              | inr (inr (calm, public, all)) ↦ ground (arith, resolved.1 all)
            ],
      )

  -- With loopback addresses refused, every address that the first lookup gives of an accepted
  -- host is no loopback address, and is private only if private addresses are allowed.
  pub validate_outbound_host_with_policy-Permits :
      (host : Text) (enforce_allowlist : Bool) (allowed : Allowed)
      → validate_outbound_host_with_policy tables net env host enforce_allowlist allowed ≡ ok tt
      → allowed.loopback ≡ false
      → All (Permits allowed) (first_addresses tables net (normalize_hostname tables host))
  validate_outbound_host_with_policy-Permits host enforce_allowlist allowed h off =
      let (named, accepted, listed) =
        (validate_outbound_host_with_policy_iff host enforce_allowlist allowed).0 h in
      let normalized = normalize_hostname tables host in
      let quiet : (host_risk_profile tables net normalized).loopback ≡ false = ground arith in
      elim (Bool-cases allowed.private) [
        | inl private_on ↦
            All-weaken (λ ip no. ((λ yes. cc), λ yes. private_on)) _
              (host_risk_profile-loopback tables net normalized quiet)
        | inr private_off ↦
            All-weaken (λ ip (calm, public). ((λ yes. cc), λ yes. cc)) _
              (All-both (λ ip. is_loopback ip ≡ false) (λ ip. is_private_ip_address ip ≡ false) _
                (host_risk_profile-loopback tables net normalized quiet)
                (host_risk_profile-private tables net normalized (ground arith)))
      ]
