-- ===== src/Settings/LocalOnly.antt =====
-- The hub cannot change what belongs to the machine.
use labtether_agent.Common.{
  ◌&◌, ◌≡◌, ◌≢◌, ◌⊎◌, All, refl, sym, subst, ◌∙◌, arith, inl, inr, Bool, Option, some, List, [],
  ◌∷◌, if◌then◌else◌, Result, ok, err, outcome, Bool-cases, Option-cases,
}
use labtether_agent.Common.Text.{Text}
use labtether_agent.Common.Text.Case.{CaseTables, lower_rune, ascii_lower, to_lower}
use labtether_agent.Common.Text.Compare.{same, same_iff}
use labtether_agent.Common.Text.Space.{is_space, trim_left, trim_right, trim_space}
use labtether_agent.Settings.Applied.{apply_setting, setting_cases, switch}
use labtether_agent.Settings.Running.{Running}
use labtether_agent.Settings.Rounds.{Applying, apply_all, apply_one}
use labtether_agent.Settings.Keys.{SettingError, setting_key_allow_remote_overrides}
use labtether_agent.Settings.Table.{
  agent_setting_definition_by_key, agent_setting_definitions, find_definition,
}
use labtether_agent.Settings.Values.{Checks, normalize_agent_setting_value}

-- The settings that are local only have the values that they had.
abbrev pub Keeps : Running → Running → Type 0
Keeps rt rt' =
    (rt'.cfg.tls_skip_verify ≡ rt.cfg.tls_skip_verify)
    × (rt'.cfg.tls_ca_file ≡ rt.cfg.tls_ca_file)
    × (rt'.cfg.allow_remote_overrides ≡ rt.cfg.allow_remote_overrides)

Keeps-trans : (a b c : Running) → Keeps a b → Keeps b c → Keeps a c
Keeps-trans a b c (x, y, z) (x', y', z') = (x' ∙ x, y' ∙ y, z' ∙ z)

-- A case keeps them, or is that of the switch that admits the hub's settings.
abbrev CaseKeeps : Running → Text × (Running → Running) → Type 0
CaseKeeps rt (k, change) = Keeps rt (change rt) ⊎ (k ≡ setting_key_allow_remote_overrides)

switch-Keeps :
    (key : Text) (rt : Running) (cases : List (Text × (Running → Running)))
    → key ≢ setting_key_allow_remote_overrides
    → All (CaseKeeps rt) cases
    → Keeps rt (switch key cases rt)
switch-Keeps key rt [] n a = (refl, refl, refl)
switch-Keeps key rt ((k, change) ∷ cases) n (h, a) = elim (Bool-cases (same key k)) [
  | inr f ↦ subst chosen (sym f) (switch-Keeps key rt cases n a)
  | inl t ↦ elim h [
    | inl keeps ↦ subst chosen (sym t) keeps
    | inr e ↦ absurd (n ((same_iff key k).0 t ∙ e))
  ]
]
  where
    chosen : Bool → Type 0
    chosen t = Keeps rt (if t then change rt else switch key cases rt)

apply_setting-Keeps :
    (tables : CaseTables) (key v : Text) (rt : Running)
    → key ≢ setting_key_allow_remote_overrides
    → Keeps rt (apply_setting tables key v rt)
unfolding apply_setting setting_cases
apply_setting-Keeps tables key v rt n = switch-Keeps key rt (setting_cases tables v) n (
    inl (refl, refl, refl)
    & inl (refl, refl, refl)
    & inl (refl, refl, refl)
    & inl (refl, refl, refl)
    & inl (refl, refl, refl)
    & inl (refl, refl, refl)
    & inl (refl, refl, refl)
    & inl (refl, refl, refl)
    & inl (refl, refl, refl)
    & inl (refl, refl, refl)
    & inl (refl, refl, refl)
    & inl (refl, refl, refl)
    & inl (refl, refl, refl)
    & inl (refl, refl, refl)
    & inl (refl, refl, refl)
    & inl (refl, refl, refl)
    & inl (refl, refl, refl)
    & inl (refl, refl, refl)
    & inl (refl, refl, refl)
    & inl (refl, refl, refl)
    & inl (refl, refl, refl)
    & inl (refl, refl, refl)
    & inl (refl, refl, refl)
    & inl (refl, refl, refl)
    & inl (refl, refl, refl)
    & inl (refl, refl, refl)
    & inl (refl, refl, refl)
    & inr refl
    & inl (refl, refl, refl)
    & tt)

module _ (tables : CaseTables) (checks : Checks) where
  local_refused :
      (raw : Text) (s : Applying) {s' : Applying}
      → apply_one tables checks setting_key_allow_remote_overrides raw s ≢ ok s'
  unfolding apply_one agent_setting_definition_by_key agent_setting_definitions find_definition same
      trim_space trim_left trim_right is_space to_lower lower_rune ascii_lower
  local_refused raw s h = ground arith

  not_local :
      (key raw : Text) (s : Applying) {s' : Applying}
      → apply_one tables checks key raw s ≡ ok s'
      → key ≢ setting_key_allow_remote_overrides
  not_local key raw s {s'} h e =
      local_refused raw s (subst (λ k. apply_one tables checks k raw s ≡ ok s') e h)

  -- A round that succeeds kept the runtime, or applied a value.
  outcome_of :
      (key raw : Text) (s : Applying) {s' : Applying}
      → apply_one tables checks key raw s ≡ ok s'
      → (s.running ≡ s'.running)
        ⊎ ((v : Text) × (key ≢ setting_key_allow_remote_overrides)
            × (apply_setting tables key v s.running ≡ s'.running))
  unfolding apply_one
  outcome_of key raw s {s'} h =
      let n = not_local key raw s h in
      elim (Option-cases (agent_setting_definition_by_key tables key)) [
        | inl u ↦ absurd (ground arith)
        | inr (d, f) ↦ elim (Bool-cases d.local_only) [
          | inl l ↦ absurd (ground arith)
          | inr l ↦ elim (Bool-cases (s.running.pinned d.key)) [
            | inl p ↦ inl (ground arith)
            | inr p ↦ elim (outcome (normalize_agent_setting_value tables checks key raw)) [
              | inl (v, o) ↦ inr (v, n, ground arith)
              | inr (why, o) ↦ absurd (ground arith)
            ]
          ]
        ]
      ]

  apply_one-Keeps :
      (key raw : Text) (s : Applying) {s' : Applying}
      → apply_one tables checks key raw s ≡ ok s'
      → Keeps s.running s'.running
  unfolding apply_one
  apply_one-Keeps key raw s {s'} h = elim (outcome_of key raw s h) [
    | inl e ↦ subst (λ r. Keeps s.running r) e (refl, refl, refl)
    | inr (v, n, e) ↦
        subst (λ r. Keeps s.running r) e (apply_setting-Keeps tables key v s.running n)
  ]

  -- Whatever values the hub sends, in whatever order, and whether or not one is refused: the
  -- settings that are local only, TLS verification, the CA file and whether the hub may change
  -- settings at all, stay as they were.
  pub apply_all-Keeps :
      (values : List (Text × Text)) (s : Applying)
      → Keeps s.running (apply_all tables checks values s).0.running
  unfolding apply_all
  apply_all-Keeps [] s = (refl, refl, refl)
  apply_all-Keeps ((key, raw) ∷ values) s = elim (outcome (apply_one tables checks key raw s)) [
    | inr (why, o) ↦ subst after (sym o) (refl, refl, refl)
    | inl (s', o) ↦ subst after (sym o) (
        Keeps-trans s.running s'.running (apply_all tables checks values s').0.running
          (apply_one-Keeps key raw s o) (apply_all-Keeps values s'))
  ]
    where
      after : Result SettingError Applying → Type 0
      after r =
          let out : Applying × Option SettingError = elim r [
            | err why ↦ (s, some why)
            | ok s' ↦ apply_all tables checks values s'
          ] in
          Keeps s.running out.0.running
