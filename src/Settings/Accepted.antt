-- ===== src/Settings/Accepted.antt =====
-- What `NormalizeAgentSettingValue` accepts, by the type of the setting.
use labtether_agent.Common.{
  ◌≤◌, ◌<◌, ◌≡◌, ◌≢◌, ◌⊎◌, inl, inr, refl, sym, ap, ◌∙◌, subst, arith, Bool, true, ◌&&◌, none, some,
  ltb, leb, ltb→lt, leb→le, all, Option-cases, and-true, ok,
}
use labtether_agent.Common.Text.{Text}
use labtether_agent.Common.Text.Case.{CaseTables}
use labtether_agent.Common.Text.Compare.{In}
use labtether_agent.Common.Text.Number.{int_limit}
use labtether_agent.Common.Text.Space.{trim_space}
use labtether_agent.Settings.Keys.{
  Definition, SettingType, bool_setting, enum_setting, int_setting, setting_key_docker_endpoint,
  setting_key_services_discovery_lan_scan_cidrs, string_setting,
}
use labtether_agent.Settings.Lookup.{
  Listed, agent_setting_definition_by_key_iff, all-Listed, is_sound, is_sound-table,
  is_stable_choice,
}
use labtether_agent.Settings.Stable.{
  IsInRange, decimal-trim, format_bool-normalize, format_bool-trim, normalize_bool-format,
  normalize_enum-In, normalize_int-IsInRange, normalize_int-decimal, stable_choice,
}
use labtether_agent.Settings.Table.{agent_setting_definition_by_key, agent_setting_definitions}
use labtether_agent.Settings.Values.{
  Checks, first_equal, format_bool, normalize_agent_setting_value, normalize_bool, normalize_enum,
  normalize_int, normalize_string, normalize_value,
}
use labtether_agent.Settings.Strings.{string_again}

type_cases :
    (t : SettingType)
    → (t ≡ string_setting) ⊎ (t ≡ int_setting) ⊎ (t ≡ bool_setting) ⊎ (t ≡ enum_setting)
type_cases string_setting = inl refl
type_cases int_setting = inr (inl refl)
type_cases bool_setting = inr (inr (inl refl))
type_cases enum_setting = inr (inr (inr refl))

module _ (tables : CaseTables) (checks : Checks) where
  -- A definition that a key finds is a sound one.
  definition_sound :
      (key : Text) (d : Definition)
      → agent_setting_definition_by_key tables key ≡ some d
      → is_sound tables d ≡ true
  definition_sound key d f =
      all-Listed tables agent_setting_definitions d (is_sound-table tables)
        ((agent_setting_definition_by_key_iff tables key d).0 f).0

  sound-bounds :
      (d : Definition)
      → d.setting_type ≡ int_setting
      → is_sound tables d ≡ true
      → (1 ≤ d.min_int) × (1 ≤ d.max_int) × (d.max_int < int_limit)
  sound-bounds d t s =
      let bounded : (ltb 0 d.min_int && leb d.min_int d.max_int && ltb d.max_int int_limit) ≡ true =
        ground arith in
      let (ab, c) = and-true bounded in
      let (a, b) = and-true ab in
      let l = ltb→lt 0 d.min_int a in
      let m = leb→le d.min_int d.max_int b in
      (omega (arith, l), omega (arith, l, m), ltb→lt d.max_int int_limit c)

  sound-choices :
      (d : Definition)
      → d.setting_type ≡ enum_setting
      → is_sound tables d ≡ true
      → all (is_stable_choice tables d.allowed_values) d.allowed_values ≡ true
  sound-choices d t s = ground arith

  normalize-value :
      (key raw : Text) {v : Text} (d : Definition)
      → agent_setting_definition_by_key tables key ≡ some d
      → normalize_agent_setting_value tables checks key raw ≡ ok v
      → normalize_value tables checks d (trim_space raw) ≡ ok v
  unfolding normalize_agent_setting_value
  normalize-value key raw d f h = ground arith

  unknown-refused :
      (key raw : Text) {v : Text}
      → agent_setting_definition_by_key tables key ≡ none
      → normalize_agent_setting_value tables checks key raw ≢ ok v
  unfolding normalize_agent_setting_value
  unknown-refused key raw f h = absurd (ground arith)

  value-normalize :
      (key raw : Text) {v : Text} (d : Definition)
      → agent_setting_definition_by_key tables key ≡ some d
      → normalize_value tables checks d (trim_space raw) ≡ ok v
      → normalize_agent_setting_value tables checks key raw ≡ ok v
  unfolding normalize_agent_setting_value
  value-normalize key raw d f h = ground arith

  -- What a value of the setting is: a number within the bounds, in decimal; `true` or `false`; one
  -- of the allowed values; or what the checks of the text made of it.
  abbrev pub Meets : Definition → Text → Text → Type 0
  Meets d raw v =
      ((d.setting_type ≡ int_setting) × IsInRange d v)
      ⊎ ((d.setting_type ≡ bool_setting) × ((b : Bool) × (v ≡ format_bool b)))
      ⊎ ((d.setting_type ≡ enum_setting) × In v d.allowed_values)
      ⊎ ((d.setting_type ≡ string_setting)
          × (normalize_string tables checks d (trim_space raw) ≡ ok v))

  value-Meets :
      (d : Definition) (raw v : Text)
      → is_sound tables d ≡ true
      → normalize_value tables checks d (trim_space raw) ≡ ok v
      → Meets d raw v
  unfolding normalize_value
  value-Meets d raw v s h = elim (type_cases d.setting_type) [
    | inl t ↦ inr (inr (inr (t, ground arith)))
    | inr (inl t) ↦
        let (l, m, u) = sound-bounds d t s in
        inl (t, normalize_int-IsInRange d (trim_space raw) l m (ground arith))
    | inr (inr (inl t)) ↦ inr (inl (t, normalize_bool-format (trim_space raw) (ground arith)))
    | inr (inr (inr t)) ↦
        inr (inr (inl (t, normalize_enum-In tables d (trim_space raw) (ground arith))))
  ]

  -- An accepted value belongs to a setting of the table, found by its key, and meets its
  -- definition.
  pub normalize_agent_setting_value-Meets :
      (key raw v : Text)
      → normalize_agent_setting_value tables checks key raw ≡ ok v
      → (d : Definition) × Listed d agent_setting_definitions
        × (agent_setting_definition_by_key tables key ≡ some d)
        × Meets d raw v
  normalize_agent_setting_value-Meets key raw v h =
      elim (Option-cases (agent_setting_definition_by_key tables key)) [
        | inl f ↦ absurd (unknown-refused key raw f h)
        | inr (d, f) ↦ (
          d,
          ((agent_setting_definition_by_key_iff tables key d).0 f).0,
          f,
          value-Meets d raw v (definition_sound key d f) (normalize-value key raw d f h),
        )
      ]

  again :
      (d : Definition) (raw v : Text)
      → is_sound tables d ≡ true
      → d.key ≢ setting_key_docker_endpoint
      → d.key ≢ setting_key_services_discovery_lan_scan_cidrs
      → Meets d raw v
      → normalize_value tables checks d (trim_space v) ≡ ok v
  unfolding normalize_value normalize_enum
  again d raw v s n m (inl (t, (k, l, u, e))) =
      let (a, b, f) = sound-bounds d t s in
      let back =
        subst (λ w. normalize_int d (trim_space w) ≡ ok w) (sym e)
          (ap (normalize_int d) (decimal-trim k) ∙ normalize_int-decimal d k f l u) in
      ground (arith, back)
  again d raw v s n m (inr (inl (t, (b, e)))) =
      let back =
        subst (λ w. normalize_bool (trim_space w) ≡ ok w) (sym e)
          (ap normalize_bool (format_bool-trim b) ∙ format_bool-normalize b) in
      ground (arith, back)
  again d raw v s n m (inr (inr (inl (t, i)))) =
      let (f, r) = stable_choice tables d.allowed_values d.allowed_values (sound-choices d t s) i in
      let back = ap (λ w. first_equal tables w d.allowed_values) r ∙ f in ground (arith, back)
  again d raw v s n m (inr (inr (inr (t, h)))) =
      let back = string_again tables checks d raw v n m h in ground (arith, back)

  -- An accepted value is accepted again and comes back unchanged, for every setting but the Docker
  -- endpoint and the CIDR list.
  pub normalize_agent_setting_value_idempotent :
      (key raw v : Text) (d : Definition)
      → agent_setting_definition_by_key tables key ≡ some d
      → d.key ≢ setting_key_docker_endpoint
      → d.key ≢ setting_key_services_discovery_lan_scan_cidrs
      → normalize_agent_setting_value tables checks key raw ≡ ok v
      → normalize_agent_setting_value tables checks key v ≡ ok v
  normalize_agent_setting_value_idempotent key raw v d f n m h =
      let s = definition_sound key d f in
      value-normalize key v d f
        (again d raw v s n m (value-Meets d raw v s (normalize-value key raw d f h)))
