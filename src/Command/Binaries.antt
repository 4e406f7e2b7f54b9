-- ===== src/Command/Binaries.antt =====
-- Which programs may run, described by the files that their names mean.
use labtether_agent.Common.{
  ◌≡◌, ◌↔◌, ◌⊎◌, refl, sym, ap, ◌∙◌, subst, true, false, inl, inr, List, [], ◌∷◌, arith, ok,
  Bool-cases, choose, choose_by, if◌then◌else◌,
}
use labtether_agent.Common.Text.{Text, codes}
use labtether_agent.Common.Text.Case.{CaseTables, to_lower}
use labtether_agent.Common.Text.Compare.{In, In-member, member, member-In}
use labtether_agent.Common.Text.FilePath.{base}
use labtether_agent.Common.Text.Search.{trim_suffix}
use labtether_agent.Common.Text.Space.{is_blank, trim_space}
use labtether_agent.Common.Text.Suffix.{HasStem, HasStem-trim_suffix, trim_suffix-HasStem}
use labtether_agent.Command.Env.{Environment, parse_bool_env, parse_csv_env}
use labtether_agent.Command.Guards.{validate_exec_binary-member_iff}
use labtether_agent.Command.Policy.{
  allowed_binaries, blocked_binaries, default_allowed_exec_binaries, env_exec_allowed_binaries,
  env_exec_allowlist_accept_risk, env_exec_allowlist_mode, env_exec_blocked_binaries, to_set,
  validate_exec_binary,
}
use labtether_agent.Command.Rules.{normalize_executable_name, slashed}

module _ (tables : CaseTables) where
  -- The program that a name means: the last part of the path, whichever slashes it has, in lower case
  -- and without `.exe`.
  abbrev pub Means : Text → Text → Type 0
  Means name program =
      (is_blank (trim_space name) ≡ false)
      × (is_blank (trim_space (base (slashed (trim_space name)))) ≡ false)
      × HasStem (to_lower tables (trim_space (base (slashed (trim_space name))))) (codes ".exe")
          program

  normalize_executable_name-Means :
      (name : Text)
      → is_blank (normalize_executable_name tables name) ≡ false
      → Means name (normalize_executable_name tables name)
  unfolding normalize_executable_name
  normalize_executable_name-Means name h =
      let last = trim_space (base (slashed (trim_space name))) in
      elim (Bool-cases (is_blank (trim_space name))) [
        | inl e ↦ absurd (ground arith)
        | inr e ↦ elim (Bool-cases (is_blank last)) [
          | inl f ↦ absurd (ground arith)
          | inr f ↦ (
            e,
            f,
            subst (HasStem (to_lower tables last) (codes ".exe")) (sym (named last e f))
                (HasStem-trim_suffix (to_lower tables last) (codes ".exe")),
          )
        ]
      ]
    where
      named :
          (last : Text)
          → is_blank (trim_space name) ≡ false
          → is_blank last ≡ false
          → (if is_blank (trim_space name)
              then []
              else if is_blank last
              then []
              else trim_suffix (to_lower tables last) (codes ".exe"))
            ≡ trim_suffix (to_lower tables last) (codes ".exe")
      named last e f = rw (e, f) refl

  Means-normalize_executable_name :
      (name program : Text) → Means name program → normalize_executable_name tables name ≡ program
  unfolding normalize_executable_name
  Means-normalize_executable_name name program (e, f, stem) =
      rw (e, f) (trim_suffix-HasStem _ (codes ".exe") program stem)

  -- One of the names means the program.
  abbrev pub Lists : List Text → Text → Type 0
  Lists values program = (value : Text) × In value values × Means value program

  In-to_set :
      (program : Text) (values : List Text)
      → In program (to_set (normalize_executable_name tables) values)
      → Lists values program
  In-to_set program [] h = absurd h
  In-to_set program (value ∷ values) h =
      elim (Bool-cases (is_blank (normalize_executable_name tables value))) [
        | inl e ↦ let (found, i, m) = In-to_set program values (rw e at h) in (found, inr i, m)
        | inr e ↦ elim (rw e at h) [
          | inl here ↦ (
            value,
            inl refl,
            subst (Means value) (sym here) (normalize_executable_name-Means value e),
          )
          | inr later ↦ let (found, i, m) = In-to_set program values later in (found, inr i, m)
        ]
      ]

  to_set-In :
      (program : Text) (values : List Text)
      → is_blank program ≡ false
      → Lists values program
      → In program (to_set (normalize_executable_name tables) values)
  to_set-In program [] b (value, i, m) = absurd i
  to_set-In program (first ∷ values) b (value, inl here, m) =
      let e =
        ap (normalize_executable_name tables) (sym here)
        ∙ Means-normalize_executable_name value program m in
      choose_by (In program) (is_blank (normalize_executable_name tables first))
        (λ t. let blank = sym (ap is_blank e) ∙ t in absurd cc) (λ f. inl (sym e))
  to_set-In program (first ∷ values) b (value, inr i, m) =
      let rest = to_set-In program values b (value, i, m) in
      choose (In program) (is_blank (normalize_executable_name tables first)) rest (inr rest)

  member-Lists :
      (program : Text) (values : List Text)
      → is_blank program ≡ false
      → (member program (to_set (normalize_executable_name tables) values) ≡ true)
        ↔ Lists values program
  member-Lists program values b = (
    λ h. In-to_set program values (member-In program _ h),
    λ h. In-member program _ (to_set-In program values b h),
  )

  member-not_Lists :
      (program : Text) (values : List Text)
      → is_blank program ≡ false
      → (member program (to_set (normalize_executable_name tables) values) ≡ false)
        ↔ (¬ Lists values program)
  member-not_Lists program values b = (
    λ h listed. let found = (member-Lists program values b).1 listed in cc,
    λ none_listed.
        elim (Bool-cases (member program (to_set (normalize_executable_name tables) values))) [
          | inl e ↦ absurd (none_listed ((member-Lists program values b).0 e))
          | inr e ↦ e
        ],
  )

  module _ (env : Environment) where
    -- A program passes if it is not empty, no entry of the operator's blocklist means it, and an entry
    -- of the allowlist means it, or the allowlist is off and the risk accepted.
    abbrev pub MayRun : Text → Type 0
    MayRun program =
        (is_blank program ≡ false)
        × (¬ Lists (parse_csv_env env env_exec_blocked_binaries []) program)
        × (((parse_bool_env env env_exec_allowlist_mode true ≡ true)
              × Lists (parse_csv_env env env_exec_allowed_binaries default_allowed_exec_binaries)
                  program)
            ⊎ ((parse_bool_env env env_exec_allowlist_mode true ≡ false)
                × (parse_bool_env env env_exec_allowlist_accept_risk false ≡ true)))

    -- A name passes exactly when it means a program, the last part of its path in lower case and
    -- without `.exe`, that is not empty, that no entry of the operator's blocklist means, and that an
    -- entry of the allowlist means, unless the operator has switched the allowlist off and accepted
    -- the risk.
    pub validate_exec_binary_iff :
        (name : Text)
        → (validate_exec_binary tables env name ≡ ok tt)
          ↔ ((program : Text) × Means name program × MayRun program)
    validate_exec_binary_iff name = (to, back)
      where
        blocked : List Text
        blocked = parse_csv_env env env_exec_blocked_binaries []

        allowed : List Text
        allowed = parse_csv_env env env_exec_allowed_binaries default_allowed_exec_binaries

        to :
            validate_exec_binary tables env name ≡ ok tt
            → (program : Text) × Means name program × MayRun program
        to h =
            let program = normalize_executable_name tables name in
            let (b, free, allows) = (validate_exec_binary-member_iff tables env name).0 h in
            (
              program,
              normalize_executable_name-Means name b,
              (
                b,
                (member-not_Lists program blocked b).0 free,
                elim allows [
                  | inl (on, listed) ↦ inl (on, (member-Lists program allowed b).0 listed)
                  | inr off ↦ inr off
                ],
              ),
            )

        back :
            ((program : Text) × Means name program × MayRun program)
            → validate_exec_binary tables env name ≡ ok tt
        back (program, means, (b, free, allows)) =
            let e = Means-normalize_executable_name name program means in
            (validate_exec_binary-member_iff tables env name).1 (
              ap is_blank e ∙ b,
              ap (λ p. member p (blocked_binaries tables env)) e
                  ∙ (member-not_Lists program blocked b).1 free,
              elim allows [
                | inl (on, listed) ↦ inl (
                  on,
                  ap (λ p. member p (allowed_binaries tables env)) e
                      ∙ (member-Lists program allowed b).1 listed,
                )
                | inr off ↦ inr off
              ],
            )
