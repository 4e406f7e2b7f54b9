-- ===== src/Command/Parse/Quoting.antt =====
-- Quoting reaches every argument vector: what a client quotes is what the parser returns.
use labtether_agent.Common.{
  ℕ, ◌≤◌, ◌≡◌, refl, sym, ap, ◌∙◌, Bool, true, false, ◌||◌, List, [], ◌∷◌, ◌++◌, map, append-nil,
  append_assoc, arith, ◌==◌, if◌then◌else◌, ok, All,
}
use labtether_agent.Common.Text.{Text, codes}
use labtether_agent.Common.Text.Bytes.{byte_length}
use labtether_agent.Common.Text.Search.{has_rune, join}
use labtether_agent.Command.Parse.{
  Scanner, step, scan, finish_scan, parse_command_line, names_nothing, flush_token,
}
use labtether_agent.Command.Parse.Runes.{IsNotNewline}

-- A backslash before each quote and backslash.
abbrev pub escape : Text → Text
escape [] = []
escape (c ∷ s) = if c == b'"' || c == b'\\' then b'\\' ∷ c ∷ escape s else c ∷ escape s

abbrev pub quote_arg : Text → Text
quote_arg arg = b'"' ∷ (escape arg ++ (b'"' ∷ []))

-- The quoted arguments with a space between them.
abbrev pub quote_line : List Text → Text
quote_line args = join (map quote_arg args) (codes " ")

-- A scanner outside an escape.
abbrev at : List Text → Text → ℕ → Bool → Scanner
at args current quote have_token = record {
  args = args;
  current = current;
  quote = quote;
  escaped = false;
  have_token = have_token;
}

scan-escape :
    (arg rest : Text) (args : List Text) (current : Text) (h : Bool)
    → All IsNotNewline arg
    → scan (at args current b'"' h) (escape arg ++ (b'"' ∷ rest))
      ≡ scan (at args (current ++ arg) 0 true) rest
unfolding scan step
scan-escape [] rest args current h n =
    ap (λ c. scan (at args c 0 true) rest) (sym (append-nil current))
scan-escape (c ∷ arg) rest args current h ((n, n'), ns) = ground (
  arith,
  scan-escape arg rest args (current ++ (c ∷ [])) true ns,
  append_assoc current (c ∷ []) arg,
)

scan-quote_arg :
    (arg rest : Text) (args : List Text)
    → All IsNotNewline arg
    → scan (at args [] 0 false) (quote_arg arg ++ rest) ≡ scan (at args arg 0 true) rest
scan-quote_arg arg rest args n =
    ap (λ t. scan (at args [] 0 false) (b'"' ∷ t)) (append_assoc (escape arg) (b'"' ∷ []) rest)
    ∙ unfold scan step in scan-escape arg rest args [] true n

scan_space :
    (rest arg : Text) (args : List Text)
    → scan (at args arg 0 true) (b' ' ∷ rest) ≡ scan (at (args ++ (arg ∷ [])) [] 0 false) rest
unfolding scan step
scan_space rest arg args = refl

scan-quote_line :
    (arg : Text) (more args : List Text)
    → All (All IsNotNewline) (arg ∷ more)
    → (s : Scanner) × (scan (at args [] 0 false) (quote_line (arg ∷ more)) ≡ ok s)
      × (s.escaped ≡ false)
      × (s.quote ≡ 0)
      × ((flush_token s).args ≡ args ++ (arg ∷ more))
unfolding join
scan-quote_line arg [] args (n, _) = (
  at args arg 0 true,
  ap (scan (at args [] 0 false)) (sym (append-nil (quote_arg arg)))
      ∙ scan-quote_arg arg [] args n
      ∙ unfold scan in refl,
  refl,
  refl,
  refl,
)
scan-quote_line arg (next ∷ more) args (n, ns) =
    let (s, run, e, q, f) = scan-quote_line next more (args ++ (arg ∷ [])) ns in
    (
      s,
      scan-quote_arg arg (b' ' ∷ quote_line (next ∷ more)) args n
          ∙ scan_space (quote_line (next ∷ more)) arg args
          ∙ run,
      e,
      q,
      f ∙ append_assoc args (arg ∷ []) (next ∷ more),
    )

-- Quoting an argument vector gives a command that parses back to it, whatever the arguments hold
-- except line breaks, if the first argument is not blank and the command has at most 64 KiB and is
-- free of NUL.
pub parse-quote_line :
    (args : List Text)
    → All (All IsNotNewline) args
    → names_nothing args ≡ false
    → byte_length (quote_line args) ≤ 65536
    → has_rune (quote_line args) 0 ≡ false
    → parse_command_line (quote_line args) ≡ ok args
unfolding parse_command_line finish_scan
parse-quote_line [] n named small nul = absurd (ground arith)
parse-quote_line (arg ∷ more) n named small nul =
    let (s, run, e, q, f) = scan-quote_line arg more [] n in ground (arith, run, e, q, f, named)
