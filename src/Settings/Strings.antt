-- ===== src/Settings/Strings.antt =====
-- A text value is accepted again unchanged.
use labtether_agent.Common.{
  ◌≡◌, ◌≢◌, ◌⊎◌, inl, inr, sym, ap, ◌∙◌, subst, arith, [], Bool-cases, ok, ◌>>=◌,
}
use labtether_agent.Common.Text.{Text}
use labtether_agent.Common.Text.Case.{CaseTables}
use labtether_agent.Common.Text.Compare.{same, same_iff, member}
use labtether_agent.Common.Text.Space.{fields_func, trim_space}
use labtether_agent.Common.Text.Words.{trim_space-twice}
use labtether_agent.Settings.Keys.{
  Definition, setting_key_docker_endpoint, setting_key_services_discovery_lan_scan_cidrs,
}
use labtether_agent.Settings.PortText.{normalize_discovery_port_list_value_idempotent, normalize_eq}
use labtether_agent.Settings.Ports.{
  collect_ports, is_list_separator, normalize_discovery_port_list_value, print_ports,
}
use labtether_agent.Settings.Values.{Checks, free_text_keys, normalize_string, port_list_keys}

ports-trim :
    (v : Text)
    → normalize_discovery_port_list_value (trim_space v) ≡ normalize_discovery_port_list_value v
ports-trim v =
    normalize_eq (trim_space v)
    ∙ ap (λ t. collect_ports [] (fields_func is_list_separator t) >>= (λ p. ok (print_ports p)))
        (trim_space-twice v)
    ∙ sym (normalize_eq v)

module _ (tables : CaseTables) (checks : Checks) where
  -- A text value: free or not empty as it stands, or a port list.
  string_cases :
      (d : Definition) (value : Text) {v : Text}
      → d.key ≢ setting_key_docker_endpoint
      → d.key ≢ setting_key_services_discovery_lan_scan_cidrs
      → normalize_string tables checks d value ≡ ok v
      → ((v ≡ value) × (normalize_string tables checks d value ≡ ok value))
        ⊎ ((w : Text) → normalize_string tables checks d w ≡ normalize_discovery_port_list_value w)
  unfolding normalize_string
  string_cases d value {v} n m h = elim (Bool-cases (same d.key setting_key_docker_endpoint)) [
    | inl e ↦ absurd (n ((same_iff d.key setting_key_docker_endpoint).0 e))
    | inr e ↦ elim (Bool-cases (member d.key free_text_keys)) [
      | inl f ↦ inl (ground arith)
      | inr f ↦ elim (Bool-cases (member d.key port_list_keys)) [
        | inl p ↦ inr (λ w. ground arith)
        | inr p ↦ elim (Bool-cases (same d.key setting_key_services_discovery_lan_scan_cidrs)) [
          | inl c ↦ absurd (m ((same_iff d.key setting_key_services_discovery_lan_scan_cidrs).0 c))
          | inr c ↦ inl (ground arith)
        ]
      ]
    ]
  ]

  pub string_again :
      (d : Definition) (raw v : Text)
      → d.key ≢ setting_key_docker_endpoint
      → d.key ≢ setting_key_services_discovery_lan_scan_cidrs
      → normalize_string tables checks d (trim_space raw) ≡ ok v
      → normalize_string tables checks d (trim_space v) ≡ ok v
  string_again d raw v n m h = elim (string_cases d (trim_space raw) n m h) [
    | inl (e, k) ↦
        subst (λ w. normalize_string tables checks d (trim_space w) ≡ ok w) (sym e)
          (ap (normalize_string tables checks d) (trim_space-twice raw) ∙ k)
    | inr f ↦
        f (trim_space v)
        ∙ ports-trim v
        ∙ normalize_discovery_port_list_value_idempotent (trim_space raw) v
            (sym (f (trim_space raw)) ∙ h)
  ]
