-- ===== src/Settings/Ports.antt =====
-- sysconfig/settings_value_validation.go: `NormalizeDiscoveryPortListValue`.
use labtether_agent.Common.{
  ℕ, Bool, false, ◌||◌, Option, none, some, List, [], ◌∷◌, ◌++◌, map, ltb, ◌==◌, if◌then◌else◌,
  Result, ok, err, ◌>>=◌,
}
use labtether_agent.Common.Int.{ℤ, nonpositive, pos_part}
use labtether_agent.Common.Sort.{sort}
use labtether_agent.Common.Text.{Text, codes}
use labtether_agent.Common.Text.Number.{atoi, decimal}
use labtether_agent.Common.Text.Search.{join}
use labtether_agent.Common.Text.Space.{fields_func, is_blank, trim_space}
use labtether_agent.Settings.Keys.{SettingError, bad_port}

-- ',', ';', ' ', '\n' or '\t'
abbrev pub is_list_separator : ℕ → Bool
is_list_separator r = r == b',' || r == b';' || r == b' ' || r == b'\n' || r == b'\t'

-- `strconv.Atoi(token)` and the range test
abbrev pub in_port_range : ℤ → Option ℕ
in_port_range z = if nonpositive z || ltb 65535 (pos_part z) then none else some (pos_part z)

unfoldable pub port_of : Text → Option ℕ
port_of token = elim (atoi token) [ none ↦ none | some z ↦ in_port_range z ]

-- `_, ok := seen[port]`; what was seen is what was appended
abbrev pub has_port : ℕ → List ℕ → Bool
has_port p [] = false
has_port p (q ∷ ports) = p == q || has_port p ports

abbrev pub add_port : List ℕ → ℕ → List ℕ
add_port ports p = if has_port p ports then ports else ports ++ (p ∷ [])

-- what one field adds
unfoldable pub port_field : List ℕ → Text → Result SettingError (List ℕ)
port_field ports field =
    let token = trim_space field in
    if is_blank token
    then ok ports
    else elim (port_of token) [ none ↦ err bad_port | some p ↦ ok (add_port ports p) ]

unfoldable pub collect_ports : List ℕ → List Text → Result SettingError (List ℕ)
collect_ports ports [] = ok ports
collect_ports ports (field ∷ fields) = do
  ports' ← port_field ports field
  collect_ports ports' fields

unfoldable pub print_ports : List ℕ → Text
print_ports ports = join (map decimal (sort ports)) (codes ",")

-- The early returns for no value and no field give what the loop gives on no field.
unfoldable pub normalize_discovery_port_list_value : Text → Result SettingError Text
normalize_discovery_port_list_value raw =
    let value = trim_space raw in
    let fields = fields_func is_list_separator value in
    if is_blank value then ok [] else (do ports ← collect_ports [] fields; ok (print_ports ports))
