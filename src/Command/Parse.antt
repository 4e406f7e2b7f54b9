-- ===== src/Command/Parse.antt =====
-- `ParseCommandLine`: an operator's command as an argument vector, with no shell.
pub mod Runes
pub mod Quoting
pub mod Plain
use labtether_agent.Common.{
  ℕ, Bool, true, false, not, ◌&&◌, ◌||◌, List, [], ◌∷◌, ◌++◌, ltb, ◌==◌, if◌then◌else◌, Result, ok,
  err, ◌>>=◌,
}
use labtether_agent.Common.Text.{Text, codes}
use labtether_agent.Common.Text.Bytes.{byte_length}
use labtether_agent.Common.Text.Space.{is_blank, trim_space}
use labtether_agent.Common.Text.Search.{has_rune}

abbrev pub max_command_bytes : ℕ
max_command_bytes = 65536

pub data ParseError : Type 0 where
  too_long nul_byte multiline incomplete_escape unterminated_quote required : ParseError
  operator : ℕ → ParseError

-- The variables of the loop; `quote` is 0 outside quotes.
pub record Scanner : Type 0 where
  pub args : List Text
  pub current : Text
  pub quote : ℕ
  pub escaped : Bool
  pub have_token : Bool

abbrev pub start : Scanner
start = record { args = []; current = []; quote = 0; escaped = false; have_token = false }

abbrev pub is_newline : ℕ → Bool
is_newline r = r == b'\n' || r == b'\r'

-- the runes of `case ';', '|', '&', '<', '>', '`'`
abbrev pub is_operator : ℕ → Bool
is_operator r = has_rune (codes ";|&<>`") r

-- the closure `flush`
abbrev pub flush_token : Scanner → Scanner
flush_token s =
    if s.have_token
    then record s { args = s.args ++ (s.current ∷ []); current = []; have_token = false }
    else s

-- `current.WriteRune(r); haveToken = true`
abbrev pub add_rune : Scanner → ℕ → Scanner
add_rune s r = record s { current = s.current ++ (r ∷ []); have_token = true }

abbrev step_escaped : Scanner → ℕ → Result ParseError Scanner
step_escaped s r =
    if is_newline r then err multiline else ok (record (add_rune s r) { escaped = false })

abbrev step_quoted : Scanner → ℕ → Result ParseError Scanner
step_quoted s r =
    if r == s.quote
    then ok (record s { quote = 0; have_token = true })
    else if r == b'\\' && s.quote == b'"'
    then ok (record s { escaped = true })
    else if is_newline r
    then err multiline
    else ok (add_rune s r)

abbrev step_bare : Scanner → ℕ → Result ParseError Scanner
step_bare s r =
    if r == b'\'' || r == b'"'
    then ok (record s { quote = r; have_token = true })
    else if r == b'\\'
    then ok (record s { escaped = true; have_token = true })
    else if r == b' ' || r == b'\t'
    then ok (flush_token s)
    else if is_newline r
    then err multiline
    else if is_operator r
    then err (operator r)
    else ok (add_rune s r)

-- one round of the loop
unfoldable pub step : Scanner → ℕ → Result ParseError Scanner
step s r =
    if s.escaped
    then step_escaped s r
    else if not (s.quote == 0)
    then step_quoted s r
    else step_bare s r

unfoldable pub scan : Scanner → Text → Result ParseError Scanner
scan s [] = ok s
scan s (r ∷ raw) = do s' ← step s r; scan s' raw

-- `len(args) == 0 || strings.TrimSpace(args[0]) == ""`
abbrev pub names_nothing : List Text → Bool
names_nothing [] = true
names_nothing (program ∷ args) = is_blank (trim_space program)

-- what follows the loop
unfoldable pub finish_scan : Scanner → Result ParseError (List Text)
finish_scan s =
    let args = (flush_token s).args in
    if s.escaped
    then err incomplete_escape
    else if not (s.quote == 0)
    then err unterminated_quote
    else if names_nothing args
    then err required
    else ok args

unfoldable pub parse_command_line : Text → Result ParseError (List Text)
parse_command_line raw =
    if ltb max_command_bytes (byte_length raw)
    then err too_long
    else if has_rune raw 0
    then err nul_byte
    else (do s ← scan start raw; finish_scan s)
