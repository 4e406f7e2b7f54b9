-- ===== src/Command/Named.antt =====
-- What the arguments of cat, head, tail and grep name, described without the code of
-- command_readonly.go, and that its functions find it.
use labtether_agent.Common.{
  ℕ, ◌+◌, ◌≤◌, ◌≡◌, ◌⊎◌, refl, ap, ◌∙◌, true, false, inl, inr, none, some, List, [], ◌∷◌, ◌++◌,
  arith, All, All-append, All-weaken, ◌==◌,
}
use labtether_agent.Common.Text.{Text, codes}
use labtether_agent.Common.Text.Compare.{same, same_iff}
use labtether_agent.Common.Text.Search.{
  has_prefix, has_prefix_self, has_rune, strip_prefix, trim_prefix,
}
use labtether_agent.Common.Text.Space.{is_blank}
use labtether_agent.Command.ReadOnly.{
  cut_at, grep_arg_recurses, or_next, reader_path_candidates, short_flags_recurse,
}

-- None of the letters is in the text.
abbrev pub LacksAll : Text → Text → Type 0
LacksAll letters text = All (λ c. has_rune letters c ≡ false) text

-- The argument is no option, or an option with `=` and a file, or an option of grep with one dash, no
-- `=`, and a file behind its first `f`.
abbrev pub NamesFile : Text → Text → Text → Type 0
NamesFile name arg file =
    ((has_prefix arg (codes "-") ≡ false) × (file ≡ arg))
    ⊎ ((option : Text) × (arg ≡ b'-' ∷ (option ++ (b'=' ∷ file))) × LacksAll (codes "=") option)
    ⊎ ((flags : Text) × (arg ≡ b'-' ∷ (flags ++ (b'f' ∷ file)))
        × (name ≡ codes "grep")
        × LacksAll (codes "-=f") flags
        × LacksAll (codes "=") file
        × (is_blank file ≡ false))

-- The value is `recurse`, or empty with the argument `recurse` behind it.
abbrev pub SaysRecurse : Text → List Text → Type 0
SaysRecurse value later =
    (value ≡ codes "recurse")
    ⊎ ((value ≡ []) × ((more : List Text) × (later ≡ codes "recurse" ∷ more)))

-- The long options of grep for recursion in full, or short options that end in `r`, `R` or `d` with
-- `recurse`, and take no value before.
abbrev pub Recurses : Text → List Text → Type 0
Recurses arg later =
    (arg ≡ codes "--recursive")
    ⊎ (arg ≡ codes "--dereference-recursive")
    ⊎ (arg ≡ codes "--directories=recurse")
    ⊎ ((arg ≡ codes "--directories") × ((more : List Text) × (later ≡ codes "recurse" ∷ more)))
    ⊎ ((flags : Text) × (flag : ℕ) × (value : Text) × (arg ≡ b'-' ∷ (flags ++ (flag ∷ value)))
        × LacksAll (codes "-defmABCD") flags
        × ((flag ≡ b'r') ⊎ (flag ≡ b'R') ⊎ ((flag ≡ b'd') × SaysRecurse value later)))

cut_at-first :
    (c : ℕ) (before rest : Text) (i : ℕ)
    → All (λ d. (d == c) ≡ false) before
    → (j : ℕ) × (i ≤ j) × (cut_at c (before ++ (c ∷ rest)) i ≡ some (j, rest))
cut_at-first c [] rest i h = (i, omega arith, ground arith)
cut_at-first c (d ∷ before) rest i (e, h) =
    let (j, le, found) = cut_at-first c before rest (i + 1) h in
    (j, omega (arith, le), ground (arith, e, found))

cut_at-none : (c : ℕ) (s : Text) (i : ℕ) → All (λ d. (d == c) ≡ false) s → cut_at c s i ≡ none
cut_at-none c [] i h = refl
cut_at-none c (d ∷ s) i (e, h) = let rest = cut_at-none c s (i + 1) h in ground (arith, e, rest)

lacks-equals : (s : Text) → LacksAll (codes "=") s → All (λ d. (d == b'=') ≡ false) s
lacks-equals s = All-weaken (λ d h. ground (arith, h)) s

lacks-flags-equals : (s : Text) → LacksAll (codes "-=f") s → All (λ d. (d == b'=') ≡ false) s
lacks-flags-equals s = All-weaken (λ d h. ground (arith, h)) s

lacks-flags-f : (s : Text) → LacksAll (codes "-=f") s → All (λ d. (d == b'f') ≡ false) s
lacks-flags-f s = All-weaken (λ d h. ground (arith, h)) s

-- Short options do not begin with two dashes.
one_dash :
    (flags : Text) (flag : ℕ) (value : Text)
    → All (λ c. (c == b'-') ≡ false) flags
    → (flag == b'-') ≡ false
    → has_prefix (b'-' ∷ (flags ++ (flag ∷ value))) (codes "--") ≡ false
unfolding has_prefix strip_prefix
one_dash [] flag value h e = ground (arith, e)
one_dash (c ∷ flags) flag value (e, h) _ = ground (arith, e)

value-candidate :
    (name option file : Text)
    → LacksAll (codes "=") option
    → reader_path_candidates name (b'-' ∷ (option ++ (b'=' ∷ file))) ≡ file ∷ []
unfolding reader_path_candidates has_prefix strip_prefix
value-candidate name option file h =
    let (j, le, found) = cut_at-first b'=' option file 1 (lacks-equals option h) in
    ground (arith, found)

flags_file-candidate :
    (flags file : Text)
    → LacksAll (codes "-=f") flags
    → LacksAll (codes "=") file
    → is_blank file ≡ false
    → reader_path_candidates (codes "grep") (b'-' ∷ (flags ++ (b'f' ∷ file))) ≡ file ∷ []
unfolding reader_path_candidates
flags_file-candidate flags file h g b =
    let (j, le, found) = cut_at-first b'f' flags file 1 (lacks-flags-f flags h) in
    let rest =
      All-append (λ d. (d == b'=') ≡ false) flags (b'f' ∷ file) (lacks-flags-equals flags h)
        (refl, lacks-equals file g) in
    let no_equals = cut_at-none b'=' (flags ++ (b'f' ∷ file)) 1 rest in
    let short = one_dash flags b'f' file (All-weaken (λ d e. ground (arith, e)) flags h) refl in
    let dash : has_prefix (b'-' ∷ (flags ++ (b'f' ∷ file))) (codes "-") ≡ true =
      has_prefix_self (codes "-") (flags ++ (b'f' ∷ file)) in
    let grep = (same_iff (codes "grep") (codes "grep")).1 refl in
    ground (arith, found, no_equals, short, dash, b, le, grep)

-- The file is what the code looks at.
pub reader_path_candidates-NamesFile :
    (name arg file : Text) → NamesFile name arg file → reader_path_candidates name arg ≡ file ∷ []
unfolding reader_path_candidates
reader_path_candidates-NamesFile name arg file (inl (plain, e)) = ground (arith, plain, e)
reader_path_candidates-NamesFile name arg file (inr (inl (option, e, h))) =
    ap (reader_path_candidates name) e ∙ value-candidate name option file h
reader_path_candidates-NamesFile name arg file (inr (inr (flags, e, grep, h, g, b))) =
    ap (reader_path_candidates name) e
    ∙ ap (λ n. reader_path_candidates n (b'-' ∷ (flags ++ (b'f' ∷ file)))) grep
    ∙ flags_file-candidate flags file h g b

says-recurse :
    (value : Text) (later : List Text)
    → SaysRecurse value later
    → same (or_next value later) (codes "recurse") ≡ true
unfolding same
says-recurse value later (inl e) = rw e refl
says-recurse value later (inr (e, (more, f))) = rw (e, f) refl

short_flags_recurse-flag :
    (flags : Text) (flag : ℕ) (value : Text) (later : List Text)
    → LacksAll (codes "-defmABCD") flags
    → ((flag ≡ b'r') ⊎ (flag ≡ b'R') ⊎ ((flag ≡ b'd') × SaysRecurse value later))
    → short_flags_recurse (flags ++ (flag ∷ value)) later ≡ true
unfolding short_flags_recurse
short_flags_recurse-flag [] flag value later h (inl e) = rw e refl
short_flags_recurse-flag [] flag value later h (inr (inl e)) = rw e refl
short_flags_recurse-flag [] flag value later h (inr (inr (e, says))) =
    rw e (says-recurse value later says)
short_flags_recurse-flag (c ∷ flags) flag value later (e, h) f =
    let rest = short_flags_recurse-flag flags flag value later h f in ground (arith, rest, e)

flag-dash :
    {P : Type 0} (flag : ℕ)
    → ((flag ≡ b'r') ⊎ (flag ≡ b'R') ⊎ ((flag ≡ b'd') × P))
    → (flag == b'-') ≡ false
flag-dash flag (inl e) = rw e refl
flag-dash flag (inr (inl e)) = rw e refl
flag-dash flag (inr (inr (e, says))) = rw e refl

short_options :
    (c : ℕ) (flags : Text) (later : List Text)
    → (c == b'-') ≡ false
    → grep_arg_recurses (b'-' ∷ c ∷ flags) later ≡ short_flags_recurse (c ∷ flags) later
unfolding grep_arg_recurses same has_prefix trim_prefix strip_prefix
short_options c flags later e = ground (arith, e)

pub grep_arg_recurses-Recurses :
    (arg : Text) (later : List Text) → Recurses arg later → grep_arg_recurses arg later ≡ true
unfolding grep_arg_recurses same has_prefix trim_prefix strip_prefix
grep_arg_recurses-Recurses arg later (inl e) = rw e refl
grep_arg_recurses-Recurses arg later (inr (inl e)) = rw e refl
grep_arg_recurses-Recurses arg later (inr (inr (inl e))) = rw e refl
grep_arg_recurses-Recurses arg later (inr (inr (inr (inl (e, (more, f)))))) =
    ap (λ a. grep_arg_recurses a later) e ∙ ap (grep_arg_recurses (codes "--directories")) f
grep_arg_recurses-Recurses arg later (inr (inr (inr (inr ([], flag, value, e, h, f))))) =
    ap (λ a. grep_arg_recurses a later) e
    ∙ short_options flag value later (flag-dash flag f)
    ∙ short_flags_recurse-flag [] flag value later h f
grep_arg_recurses-Recurses arg later
      (inr (inr (inr (inr (c ∷ flags, flag, value, e, (d, h), f))))) =
    ap (λ a. grep_arg_recurses a later) e
    ∙ short_options c (flags ++ (flag ∷ value)) later (ground (arith, d))
    ∙ short_flags_recurse-flag (c ∷ flags) flag value later (d, h) f
