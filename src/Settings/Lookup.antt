-- ===== src/Settings/Lookup.antt =====
-- The table of the settings: its keys, and what holds of each definition.
use labtether_agent.Common.{
  ◌≡◌, ◌⊎◌, ◌↔◌, inl, inr, refl, sym, ap, ◌∙◌, subst, arith, Bool, true, false, not, ◌&&◌, none,
  some, List, [], ◌∷◌, ltb, leb, if◌then◌else◌, all, any, Bool-cases, Option-cases, and-true,
  or-false,
}
use labtether_agent.Common.Text.{Text}
use labtether_agent.Common.Text.Case.{CaseTables, equal_fold, fold_rune, ascii_lower, to_lower}
use labtether_agent.Common.Text.Compare.{same, same_iff}
use labtether_agent.Common.Text.Number.{int_limit}
use labtether_agent.Common.Text.Space.{trim_space}
use labtether_agent.Settings.Keys.{
  Definition, string_setting, int_setting, bool_setting, enum_setting,
}
use labtether_agent.Settings.Table.{
  agent_setting_definition_by_key, agent_setting_definitions, find_definition, or_first,
}
use labtether_agent.Settings.Values.{first_equal}

-- The definition stands in the list.
abbrev pub Listed : Definition → List Definition → Type 0
Listed d [] = ⊥
Listed d (e ∷ ds) = (d ≡ e) ⊎ Listed d ds

find_definition-Listed :
    (ds : List Definition) (key : Text) {d : Definition}
    → find_definition ds key ≡ some d
    → Listed d ds × (key ≡ d.key)
unfolding find_definition
find_definition-Listed [] key h = absurd (ground arith)
find_definition-Listed (e ∷ ds) key {d} h = elim (Bool-cases (same key e.key)) [
  | inr n ↦ let (l, k) = find_definition-Listed ds key (ground arith) in (inr l, k)
  | inl s ↦ elim (Option-cases (find_definition ds key)) [
    | inr (later, f) ↦
        let e' : later ≡ d = ground arith in
        let (l, k) = find_definition-Listed ds key (f ∙ ap some e') in (inr l, k)
    | inl f ↦
        let e' : e ≡ d = ground arith in
        (inl (sym e'), (same_iff key e.key).0 s ∙ ap (λ x. x.key) e')
  ]
]

-- No two definitions have one key.
abbrev keys_differ : List Definition → Bool
keys_differ [] = true
keys_differ (d ∷ ds) = not (any (λ e. same d.key e.key) ds) && keys_differ ds

keys_differ-table : keys_differ agent_setting_definitions ≡ true
unfolding agent_setting_definitions same
keys_differ-table = refl

absent :
    (key : Text) (ds : List Definition)
    → any (λ e. same key e.key) ds ≡ false
    → find_definition ds key ≡ none
unfolding find_definition
absent key [] h = refl
absent key (e ∷ ds) h =
    let (a, b) = or-false h in
    ap (λ t. if t then or_first (find_definition ds key) e else find_definition ds key) a
    ∙ absent key ds b

either : (t : Bool) (d e : Definition) → (if t then or_first (some d) e else some d) ≡ some d
either true d e = refl
either false d e = refl

not_any : {b : Bool} → not b ≡ true → b ≡ false
not_any {b} h = ground arith

Listed-find_definition :
    (ds : List Definition) {d : Definition}
    → keys_differ ds ≡ true
    → Listed d ds
    → find_definition ds d.key ≡ some d
unfolding find_definition
Listed-find_definition [] k l = absurd l
Listed-find_definition (e ∷ ds) {d} k (inr l) =
    let later = Listed-find_definition ds (and-true k).1 l in
    ap (λ o. if same d.key e.key then or_first o e else o) later ∙ either (same d.key e.key) d e
Listed-find_definition (e ∷ ds) {d} k (inl n) =
    ap (λ t. if t then or_first (find_definition ds d.key) e else find_definition ds d.key)
      ((same_iff d.key e.key).1 (ap (λ x. x.key) n))
    ∙ ap (λ o. or_first o e)
        (absent d.key ds
          (subst (λ x. any (λ e'. same x.key e'.key) ds ≡ false) (sym n) (not_any (and-true k).0)))
    ∙ ap some (sym n)

module _ (tables : CaseTables) where
  -- A key, case and space around it ignored, finds the definition of the table that has it, and
  -- every definition is found by its key.
  pub agent_setting_definition_by_key_iff :
      (key : Text) (d : Definition)
      → (agent_setting_definition_by_key tables key ≡ some d)
        ↔ (Listed d agent_setting_definitions × (trim_space (to_lower tables key) ≡ d.key))
  unfolding agent_setting_definition_by_key
  agent_setting_definition_by_key_iff key d = (
    find_definition-Listed agent_setting_definitions (trim_space (to_lower tables key)),
    (λ (l, e).
        ap (find_definition agent_setting_definitions) e
        ∙ Listed-find_definition agent_setting_definitions keys_differ-table l),
  )

  -- An enumeration offers values that are found as they are, and that are trimmed.
  abbrev pub is_stable_choice : List Text → Text → Bool
  is_stable_choice allowed a =
      elim (first_equal tables a allowed) [ none ↦ false | some b ↦ same a b ]
      && same (trim_space a) a

  -- The bounds of a number are bounds of a 64-bit int, in order.
  abbrev pub is_sound : Definition → Bool
  is_sound d = elim d.setting_type [
    | int_setting ↦ ltb 0 d.min_int && leb d.min_int d.max_int && ltb d.max_int int_limit
    | enum_setting ↦ all (is_stable_choice d.allowed_values) d.allowed_values
    | bool_setting ↦ true
    | string_setting ↦ true
  ]

  pub is_sound-table : all is_sound agent_setting_definitions ≡ true
  unfolding agent_setting_definitions same first_equal trim_space equal_fold fold_rune ascii_lower
  is_sound-table = refl

  pub all-Listed :
      (ds : List Definition) (d : Definition)
      → all is_sound ds ≡ true
      → Listed d ds
      → is_sound d ≡ true
  all-Listed [] d h l = absurd l
  all-Listed (e ∷ ds) d h (inl n) =
      let (a, b) = and-true h in subst (λ x. is_sound x ≡ true) (sym n) a
  all-Listed (e ∷ ds) d h (inr l) = let (a, b) = and-true h in all-Listed ds d b l
