-- ===== src/Command/Inherited.antt =====
-- What a child process inherits of the agent's environment.
use labtether_agent.Common.{
  ℕ, ◌≡◌, ◌≢◌, ◌↔◌, ◌⊎◌, refl, sym, ap, subst, ◌∙◌, Bool, true, false, ◌||◌, inl, inr, Option, none,
  some, List, [], ◌∷◌, ◌++◌, arith, ◌==◌, ==_iff, if◌then◌else◌, Bool-cases, All, Option-cases,
}
use labtether_agent.Common.Text.{Text, codes}
use labtether_agent.Common.Text.Case.{CaseTables, to_upper}
use labtether_agent.Common.Text.Compare.{member, same, In}
use labtether_agent.Common.Text.Search.{has_prefix, strip_prefix}
use labtether_agent.Common.Text.Space.{trim_space}
use labtether_agent.Command.ChildEnv.{
  add, allowed_child_env, cut_key, is_allowed_child_env_key, is_kept, sanitized_child_env,
}

-- The entry is `key=value`, with no "=" in the key.
abbrev pub Names : Text → Text → Type 0
Names entry key = All (λ c. c ≢ b'=') key × ((value : Text) × (entry ≡ key ++ (b'=' ∷ value)))

cut_key_here : (c : ℕ) (s : Text) → c ≡ b'=' → cut_key (c ∷ s) ≡ some []
cut_key_here c s e = let t = (==_iff c b'=').1 e in ground arith

cut_key_on : (c : ℕ) (s : Text) → c ≢ b'=' → cut_key (c ∷ s) ≡ add c (cut_key s)
cut_key_on c s n = elim (Bool-cases (c == b'=')) [
  | inl t ↦ absurd (n ((==_iff c b'=').0 t))
  | inr f ↦ ground arith
]

add-some :
    (c : ℕ) (cut : Option Text) {key : Text}
    → add c cut ≡ some key
    → (rest : Text) × (cut ≡ some rest) × (c ∷ rest ≡ key)
add-some c none h = absurd (ground arith)
add-some c (some rest) h = (rest, refl, ground arith)

some-injective : {A : Type 0} {x y : A} → some x ≡ some y → x ≡ y
some-injective h = cc

cut_key-Names : (entry : Text) {key : Text} → cut_key entry ≡ some key → Names entry key
cut_key-Names [] h = absurd (ground arith)
cut_key-Names (c ∷ s) {key} h = elim (Bool-cases (c == b'=')) [
  | inl t ↦
      let e = (==_iff c b'=').0 t in
      let k : some [] ≡ some key = sym (cut_key_here c s e) ∙ h in
      subst (Names (c ∷ s)) (some-injective k) (tt, (s, ap (λ d. d ∷ s) e))
  | inr f ↦
      let n : c ≢ b'=' = λ e. (let t = (==_iff c b'=').1 e in absurd (ground arith)) in
      let (rest, r, k) = add-some c (cut_key s) (sym (cut_key_on c s n) ∙ h) in
      let (a, (value, e)) = cut_key-Names s r in
      subst (Names (c ∷ s)) k ((n, a), (value, ap (◌∷◌ c) e))
]

Names-cut_key : (key : Text) {entry : Text} → Names entry key → cut_key entry ≡ some key
Names-cut_key [] (a, (value, e)) = ap cut_key e ∙ cut_key_here b'=' value refl
Names-cut_key (c ∷ key) (a, (value, e)) =
    ap cut_key e
    ∙ cut_key_on c (key ++ (b'=' ∷ value)) a.0
    ∙ ap (add c) (Names-cut_key key (a.1, (value, refl)))

In-kept :
    (kept : Bool) (rest : List Text) {entry e : Text}
    → In entry (if kept then e ∷ rest else rest)
    → ((entry ≡ e) × (kept ≡ true)) ⊎ In entry rest
In-kept true rest (inl n) = inl (n, refl)
In-kept true rest (inr i) = inr i
In-kept false rest i = inr i

kept-In :
    (kept : Bool) (rest : List Text) {entry e : Text}
    → ((entry ≡ e) × (kept ≡ true)) ⊎ In entry rest
    → In entry (if kept then e ∷ rest else rest)
kept-In true rest (inl (n, k)) = inl n
kept-In true rest (inr i) = inr i
kept-In false rest (inl (n, k)) = cc
kept-In false rest (inr i) = i

module _ (tables : CaseTables) where
  -- The variable that an entry sets is one that children may have.
  abbrev pub SetsAllowed : Text → Type 0
  SetsAllowed entry = (key : Text) × Names entry key × (is_allowed_child_env_key tables key ≡ true)

  is_kept-SetsAllowed : (entry : Text) → (is_kept tables (cut_key entry) ≡ true) ↔ SetsAllowed entry
  is_kept-SetsAllowed entry = (to, back)
    where
      to : is_kept tables (cut_key entry) ≡ true → SetsAllowed entry
      to h = elim (Option-cases (cut_key entry)) [
        | inl e ↦ absurd (ground arith)
        | inr (key, e) ↦ (key, cut_key-Names entry e, ground arith)
      ]

      back : SetsAllowed entry → is_kept tables (cut_key entry) ≡ true
      back (key, n, a) = ap (is_kept tables) (Names-cut_key key n) ∙ a

  -- A child is given exactly those entries of the agent's environment that set an allowed
  -- variable; they are its own entries, so their values are unchanged.
  pub sanitized_child_env_iff :
      (env : List Text) (entry : Text)
      → In entry (sanitized_child_env tables env) ↔ (In entry env × SetsAllowed entry)
  unfolding sanitized_child_env
  sanitized_child_env_iff [] entry = ((λ h. absurd h), (λ (h, a). absurd h))
  sanitized_child_env_iff (e ∷ env) entry =
      let (to, back) = sanitized_child_env_iff env entry in
      let kept = is_kept tables (cut_key e) in
      let rest = sanitized_child_env tables env in
      ((λ h. forward to (In-kept kept rest h)), (λ h. kept-In kept rest (backward back h)))
    where
      forward :
          (In entry (sanitized_child_env tables env) → In entry env × SetsAllowed entry)
          → ((entry ≡ e) × (is_kept tables (cut_key e) ≡ true))
            ⊎ In entry (sanitized_child_env tables env)
          → In entry (e ∷ env) × SetsAllowed entry
      forward to (inl (n, k)) = (inl n, subst SetsAllowed (sym n) ((is_kept-SetsAllowed e).0 k))
      forward to (inr i) = let (j, a) = to i in (inr j, a)

      backward :
          (In entry env × SetsAllowed entry → In entry (sanitized_child_env tables env))
          → In entry (e ∷ env) × SetsAllowed entry
          → ((entry ≡ e) × (is_kept tables (cut_key e) ≡ true))
            ⊎ In entry (sanitized_child_env tables env)
      backward back (inl n, a) = inl (n, (is_kept-SetsAllowed e).1 (subst SetsAllowed n a))
      backward back (inr i, a) = inr (back (i, a))

  labtether-not_allowed :
      (key rest : Text)
      → to_upper tables (trim_space key) ≡ codes "LABTETHER_" ++ rest
      → is_allowed_child_env_key tables key ≡ false
  unfolding is_allowed_child_env_key member same has_prefix strip_prefix
  labtether-not_allowed key rest h =
      ap (λ upper. member upper allowed_child_env || has_prefix upper (codes "LC_")) h

  -- No entry that a child is given sets a variable whose name, in upper case, begins with
  -- LABTETHER_: the tokens and the settings of the agent stay in its process.
  pub sanitized_child_env-no_labtether :
      (env : List Text) (entry key rest : Text)
      → In entry (sanitized_child_env tables env)
      → Names entry key
      → to_upper tables (trim_space key) ≢ codes "LABTETHER_" ++ rest
  sanitized_child_env-no_labtether env entry key rest i n e =
      let (j, (key', n', a)) = (sanitized_child_env_iff env entry).0 i in
      let same_key = some-injective (sym (Names-cut_key key n) ∙ Names-cut_key key' n') in
      let no = labtether-not_allowed key rest e in
      let yes = ap (is_allowed_child_env_key tables) same_key ∙ a in cc
