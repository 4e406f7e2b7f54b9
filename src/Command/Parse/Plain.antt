-- ===== src/Command/Parse/Plain.antt =====
-- Commands without quotes and backslashes: words between blanks, and no control operator.
use labtether_agent.Common.{
  ℕ, ◌≤◌, ◌≡◌, refl, Bool, true, false, not, ◌||◌, List, [], ◌∷◌, ◌++◌, arith, ◌==◌, if◌then◌else◌,
  ok, err, Bool-cases, inl, inr, all, and-true,
}
use labtether_agent.Common.Text.{Text}
use labtether_agent.Common.Text.Bytes.{byte_length}
use labtether_agent.Common.Text.Space.{is_blank, fields_from, fields_func}
use labtether_agent.Common.Text.Search.{has_rune}
use labtether_agent.Command.Parse.{
  operator, required, Scanner, step, scan, finish_scan, parse_command_line, names_nothing,
  flush_token, is_newline, is_operator,
}

abbrev pub is_separator : ℕ → Bool
is_separator r = r == b' ' || r == b'\t'

-- Neither a quote, nor a backslash, nor a line break, nor an operator.
abbrev pub is_plain : ℕ → Bool
is_plain r = not (r == b'\'' || r == b'"' || r == b'\\' || is_newline r || is_operator r)

abbrev bare : List Text → Text → Scanner
bare args current = record {
  args = args;
  current = current;
  quote = 0;
  escaped = false;
  have_token = not (is_blank current);
}

step_plain :
    (r : ℕ) (args : List Text) (current : Text)
    → is_plain r ≡ true
    → step (bare args current) r
      ≡ ok (
          if is_separator r
          then bare (if is_blank current then args else args ++ (current ∷ [])) []
          else bare args (current ++ (r ∷ [])))
unfolding step
step_plain r args [] h = ground arith
step_plain r args (c ∷ s) h = ground arith

-- The words of the rest of the command, in terms of the words read so far.
scan_plain :
    (raw : Text) (args : List Text) (current : Text)
    → all is_plain raw ≡ true
    → (more : List Text) × (last : Text) × (scan (bare args current) raw ≡ ok (bare more last))
      × ((flush_token (bare more last)).args ≡ fields_from is_separator args current raw)
unfolding scan fields_from
scan_plain [] args [] h = (args, [], refl, refl)
scan_plain [] args (c ∷ s) h = (args, c ∷ s, refl, refl)
scan_plain (r ∷ raw) args current h =
    let (plain, more) = and-true h in
    let e = step_plain r args current plain in
    elim (Bool-cases (is_separator r)) [
      | inl sep ↦
          rw (e, sep)
            (scan_plain raw (if is_blank current then args else args ++ (current ∷ [])) [] more)
      | inr word ↦ rw (e, word) (scan_plain raw args (current ++ (r ∷ [])) more)
    ]

-- A command of at most 64 KiB with no NUL, quote, backslash, line break or operator is split at its
-- spaces and tabs, as strings.FieldsFunc splits it, and is refused only if it then names no program.
pub parse_plain :
    (raw : Text)
    → all is_plain raw ≡ true
    → byte_length raw ≤ 65536
    → has_rune raw 0 ≡ false
    → parse_command_line raw ≡ (
        if names_nothing (fields_func is_separator raw)
        then err required
        else ok (fields_func is_separator raw))
unfolding parse_command_line finish_scan fields_func
parse_plain raw h small nul =
    let (more, last, run, f) = scan_plain raw [] [] h in ground (arith, run, f)

scan-operator :
    (before : Text) (op : ℕ) (behind : Text) (args : List Text) (current : Text)
    → all is_plain before ≡ true
    → is_operator op ≡ true
    → scan (bare args current) (before ++ (op ∷ behind)) ≡ err (operator op)
unfolding scan
scan-operator [] op behind args current h o = unfold step in ground arith
scan-operator (r ∷ before) op behind args current h o =
    let (plain, more) = and-true h in
    let e = step_plain r args current plain in
    elim (Bool-cases (is_separator r)) [
      | inl sep ↦
          rw (e, sep)
            (scan-operator before op behind
              (if is_blank current then args else args ++ (current ∷ [])) [] more o)
      | inr word ↦ rw (e, word) (scan-operator before op behind args (current ++ (r ∷ [])) more o)
    ]

-- A command of at most 64 KiB with no NUL is refused if a control operator stands in it behind text
-- with no quote, backslash, line break or operator, whatever follows, and the error names it.
pub parse-operator :
    (before : Text) (op : ℕ) (behind : Text)
    → all is_plain before ≡ true
    → is_operator op ≡ true
    → byte_length (before ++ (op ∷ behind)) ≤ 65536
    → has_rune (before ++ (op ∷ behind)) 0 ≡ false
    → parse_command_line (before ++ (op ∷ behind)) ≡ err (operator op)
unfolding parse_command_line
parse-operator before op behind h o small nul =
    let e = scan-operator before op behind [] [] h o in ground (arith, e, nul)
