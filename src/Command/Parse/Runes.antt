-- ===== src/Command/Parse/Runes.antt =====
-- The parser invents no character and accepts no line break.
use labtether_agent.Common.{
  ℕ, ◌≡◌, ◌≢◌, ◌⊎◌, refl, List, [], ◌∷◌, arith, ok, >>=-eq-ok, All, All-append, inl,
}
use labtether_agent.Common.Text.{Text}
use labtether_agent.Command.Parse.{Scanner, start, step, scan, finish_scan, parse_command_line}

abbrev pub IsNotNewline : ℕ → Type 0
IsNotNewline r = (r ≢ b'\n') × (r ≢ b'\r')

step-IsNotNewline :
    (s : Scanner) (r : ℕ) {s' : Scanner}
    → (s.quote ≡ 0) ⊎ (s.quote ≡ b'"') ⊎ (s.quote ≡ b'\'')
    → step s r ≡ ok s'
    → IsNotNewline r × ((s'.quote ≡ 0) ⊎ (s'.quote ≡ b'"') ⊎ (s'.quote ≡ b'\''))
unfolding step
step-IsNotNewline s r q h = ground arith

module _ (P : ℕ → Type 0) where
  -- Every rune held by the scanner satisfies `P`.
  abbrev Holds : Scanner → Type 0
  Holds s = All (All P) s.args × All P s.current

  step-Holds : (s : Scanner) (r : ℕ) {s' : Scanner} → Holds s → P r → step s r ≡ ok s' → Holds s'
  unfolding step
  step-Holds s r (a, c) p h = ground (
    arith,
    All-append P s.current (r ∷ []) c (p, tt),
    All-append (All P) s.args (s.current ∷ []) a (c, tt),
  )

  scan-Holds :
      (raw : Text) (s : Scanner) {s' : Scanner}
      → Holds s
      → All P raw
      → scan s raw ≡ ok s'
      → Holds s'
  unfolding scan
  scan-Holds [] s h all e = ground arith
  scan-Holds (r ∷ raw) s h (p, all) e =
      let (next, one, more) = >>=-eq-ok (step s r) (λ t. scan t raw) e in
      scan-Holds raw next (step-Holds s r h p one) all more

  finish_scan-Holds :
      (s : Scanner) {args : List Text} → Holds s → finish_scan s ≡ ok args → All (All P) args
  unfolding finish_scan
  finish_scan-Holds s (a, c) e =
      ground (arith, All-append (All P) s.args (s.current ∷ []) a (c, tt))

scan-IsNotNewline :
    (raw : Text) (s : Scanner) {s' : Scanner}
    → (s.quote ≡ 0) ⊎ (s.quote ≡ b'"') ⊎ (s.quote ≡ b'\'')
    → scan s raw ≡ ok s'
    → All IsNotNewline raw
unfolding scan
scan-IsNotNewline [] s q e = tt
scan-IsNotNewline (r ∷ raw) s q e =
    let (next, one, more) = >>=-eq-ok (step s r) (λ t. scan t raw) e in
    let (here, q') = step-IsNotNewline s r q one in (here, scan-IsNotNewline raw next q' more)

-- The scanner's state at the end of an accepted command.
pub scanned :
    (raw : Text) {args : List Text}
    → parse_command_line raw ≡ ok args
    → (s : Scanner) × (scan start raw ≡ ok s) × (finish_scan s ≡ ok args)
unfolding parse_command_line
scanned raw h = >>=-eq-ok (scan start raw) finish_scan (ground arith)

-- Only a one-line command is accepted, quoted or not, escaped or not.
pub parse-IsNotNewline :
    (raw : Text) {args : List Text} → parse_command_line raw ≡ ok args → All IsNotNewline raw
parse-IsNotNewline raw h =
    let (s, run, _) = scanned raw h in scan-IsNotNewline raw start (inl refl) run

-- Whatever holds of every character of an accepted command holds of every character of its
-- arguments: the parser passes on what it was given, and expands nothing.
pub parse-All :
    (P : ℕ → Type 0) (raw : Text) {args : List Text}
    → All P raw
    → parse_command_line raw ≡ ok args
    → All (All P) args
parse-All P raw all h =
    let (s, run, done) = scanned raw h in
    finish_scan-Holds P s (scan-Holds P raw start (tt, tt) all run) done

-- No argument of an accepted command holds a line break.
pub parse-args-IsNotNewline :
    (raw : Text) {args : List Text} → parse_command_line raw ≡ ok args → All (All IsNotNewline) args
parse-args-IsNotNewline raw h = parse-All IsNotNewline raw (parse-IsNotNewline raw h) h
