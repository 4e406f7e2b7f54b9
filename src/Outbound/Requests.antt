-- ===== src/Outbound/Requests.antt =====
-- The URLs that the policy accepts.
use labtether_agent.Common.{
  ◌≡◌, ◌⊎◌, refl, Bool, true, false, not, ◌&&◌, ◌||◌, ◌++◌, inl, inr, some, List, [], ◌∷◌, arith,
  All, ok, outcome, Bool-cases, Option-cases, sym, ap, ◌∙◌,
}
use labtether_agent.Common.Text.{Text, codes}
use labtether_agent.Common.Text.Case.{CaseTables, to_lower, lower_rune, ascii_lower}
use labtether_agent.Common.Text.Compare.{In, same, same_iff, member, member-In}
use labtether_agent.Common.Text.Space.{is_blank, trim_space}
use labtether_agent.Command.Env.{Environment, parse_bool_env, parse_csv_env}
use labtether_agent.Command.Policy.{to_set}
use labtether_agent.Outbound.Hosts.{Network, Url, normalize_hostname}
use labtether_agent.Outbound.Permitted.{Permits, first_addresses}
use labtether_agent.Outbound.Accepted.{validate_outbound_host_with_policy-Permits}
use labtether_agent.Outbound.Policy.{
  check_url, validate_outbound_url, effective_allowed_outbound_schemes, contains_string_fold,
  with_scheme, allowed_for_scheme, validate_outbound_host_with_policy, env_allow_insecure_transport,
  env_outbound_allowlist_mode, env_outbound_allowed_schemes, default_allowed_outbound_schemes,
}

module _ (tables : CaseTables) (env : Environment) where
  abbrev pub is_insecure : Bool
  is_insecure = parse_bool_env env env_allow_insecure_transport false

  abbrev pub configured_schemes : List Text
  configured_schemes =
      parse_csv_env env env_outbound_allowed_schemes default_allowed_outbound_schemes

  -- A scheme is an entry of the list in lower case.
  abbrev Lowered : Text → List Text → Type 0
  Lowered scheme schemes = (entry : Text) × In entry schemes × (to_lower tables entry ≡ scheme)

  In-to_set :
      (scheme : Text) (schemes : List Text)
      → In scheme (to_set (to_lower tables) schemes)
      → Lowered scheme schemes
  In-to_set scheme [] i = absurd i
  In-to_set scheme (entry ∷ entries) i = elim (Bool-cases (is_blank (to_lower tables entry))) [
    | inl blank ↦
        let (found, there, e) = In-to_set scheme entries (ground arith) in (found, inr there, e)
    | inr written ↦
        let either : (scheme ≡ to_lower tables entry)
            ⊎ In scheme (to_set (to_lower tables) entries) =
          ground arith in
        elim either [
          | inl here ↦ (entry, inl refl, sym here)
          | inr later ↦
              let (found, there, e) = In-to_set scheme entries later in (found, inr there, e)
        ]
  ]

  In-snoc : (x y : Text) (xs : List Text) → In x (xs ++ (y ∷ [])) → In x xs ⊎ (x ≡ y)
  In-snoc x y [] i = ground arith
  In-snoc x y (z ∷ zs) i = ground (arith, In-snoc x y zs)

  In-with_scheme :
      (x scheme : Text) (schemes : List Text)
      → In x (with_scheme tables scheme schemes)
      → In x schemes ⊎ (x ≡ scheme)
  In-with_scheme x scheme schemes i =
      elim (Bool-cases (contains_string_fold tables schemes scheme)) [
        | inl there ↦ ground arith
        | inr missing ↦ In-snoc x scheme schemes (ground arith)
      ]

  -- The schemes in force are the configured ones, and with the insecure flag http and ws.
  In-effective :
      (entry : Text)
      → In entry (effective_allowed_outbound_schemes tables env)
      → In entry configured_schemes
        ⊎ ((is_insecure ≡ true) × ((entry ≡ codes "http") ⊎ (entry ≡ codes "ws")))
  unfolding effective_allowed_outbound_schemes
  In-effective entry i = elim (Bool-cases is_insecure) [
    | inr off ↦ ground arith
    | inl on ↦
        let last =
          In-with_scheme entry (codes "ws") (with_scheme tables (codes "http") configured_schemes)
            (ground arith) in
        elim last [
          | inr ws ↦ inr (on, inr ws)
          | inl before ↦ elim (In-with_scheme entry (codes "http") configured_schemes before) [
            | inl there ↦ inl there
            | inr http ↦ inr (on, inl http)
          ]
        ]
  ]

  -- The scheme is configured, or is http or ws with the insecure flag; http and ws need the flag.
  abbrev pub SchemeAllowed : Text → Type 0
  SchemeAllowed scheme =
      let plain = (scheme ≡ codes "http") ⊎ (scheme ≡ codes "ws") in
      (Lowered scheme configured_schemes ⊎ ((is_insecure ≡ true) × plain))
      × (plain → is_insecure ≡ true)

  In-SchemeAllowed :
      (scheme : Text)
      → In scheme (to_set (to_lower tables) (effective_allowed_outbound_schemes tables env))
      → ((same scheme (codes "http") || same scheme (codes "ws")) && not is_insecure) ≡ false
      → SchemeAllowed scheme
  unfolding to_lower lower_rune ascii_lower
  In-SchemeAllowed scheme i secure =
      let (entry, there, e) = In-to_set scheme _ i in
      (
        elim (In-effective entry there) [
          | inl configured ↦ inl (entry, configured, e)
          | inr (on, inl http) ↦ inr (on, inl (sym e ∙ ap (to_lower tables) http))
          | inr (on, inr ws) ↦ inr (on, inr (sym e ∙ ap (to_lower tables) ws))
        ],
        λ plain. ground (arith, same_iff scheme (codes "http"), same_iff scheme (codes "ws")),
      )

  module _ (net : Network) where
    -- The guards that an accepted URL passed.
    check_url-Guards :
        (parsed url : Url)
        → check_url tables net env parsed ≡ ok url
        → let scheme = to_lower tables (trim_space url.scheme) in
          (parsed ≡ url)
          × (is_blank (trim_space url.host) ≡ false)
          × (((same scheme (codes "http") || same scheme (codes "ws")) && not is_insecure) ≡ false)
          × (member scheme
                (to_set (to_lower tables) (effective_allowed_outbound_schemes tables env))
              ≡ true)
          × (validate_outbound_host_with_policy tables net env url.host
                (parse_bool_env env env_outbound_allowlist_mode false)
                (allowed_for_scheme tables net env scheme)
              ≡ ok tt)
    unfolding check_url
    check_url-Guards parsed url h =
        let scheme = to_lower tables (trim_space parsed.scheme) in
        elim (outcome (
          validate_outbound_host_with_policy tables net env parsed.host
            (parse_bool_env env env_outbound_allowlist_mode false)
            (allowed_for_scheme tables net env scheme))) [
              | inr (why, refused) ↦ absurd (ground arith)
              | inl (unit, passed) ↦ ground arith
            ]

    -- An accepted URL is what the trimmed text parses to; it has a host; its scheme is in force,
    -- and is http or ws only with the insecure flag; its host passes the host policy, with private
    -- addresses allowed as the environment says or, unset, for https and wss; so, unless loopback
    -- addresses are allowed, no address that its host first resolves to is loopback, or private
    -- without being allowed.
    pub validate_outbound_url-Accepted :
        (raw_url : Text) (url : Url)
        → validate_outbound_url tables net env raw_url ≡ ok url
        → let scheme = to_lower tables (trim_space url.scheme) in
          let allowed = allowed_for_scheme tables net env scheme in
          (net.parse_url (trim_space raw_url) ≡ some url)
          × (is_blank (trim_space url.host) ≡ false)
          × SchemeAllowed scheme
          × (validate_outbound_host_with_policy tables net env url.host
                (parse_bool_env env env_outbound_allowlist_mode false)
                allowed
              ≡ ok tt)
          × (allowed.loopback ≡ false
              → All
                  (Permits allowed)
                  (first_addresses tables net (normalize_hostname tables url.host)))
    unfolding validate_outbound_url
    validate_outbound_url-Accepted raw_url url h =
        elim (Option-cases (net.parse_url (trim_space raw_url))) [
          | inl bad ↦ absurd (ground arith)
          | inr (parsed, found) ↦
              let (same_url, host, secure, scheme, passed) =
                check_url-Guards parsed url (ground arith) in
              (
                rw same_url at found,
                host,
                In-SchemeAllowed _ (member-In _ _ scheme) secure,
                passed,
                λ off.
                    validate_outbound_host_with_policy-Permits tables net env url.host _ _ passed
                      off,
              )
        ]
