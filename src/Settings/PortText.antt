-- ===== src/Settings/PortText.antt =====
-- The text of a normalized port list.
use labtether_agent.Common.{
  ℕ, ◌≡◌, ◌≢◌, ◌↔◌, inl, inr, refl, sym, ap, ◌∙◌, subst, arith, true, false, some, List, [], ◌∷◌,
  ◌++◌, map, ◌==◌, ==_iff, if◌then◌else◌, ok, ◌>>=◌, >>=-eq-ok, Bool-cases, All, All-weaken,
  append-nil, append_assoc,
}
use labtether_agent.Common.Sort.{
  sort, Ascending, Distinct, Has, sort-All, sort-Ascending, sort-Has, sort_of_Ascending,
  Distinct-of_Ascending,
}
use labtether_agent.Common.Text.{Text, codes}
use labtether_agent.Common.Text.Number.{decimal, atoi-decimal, decimal-All, decimal-cons, is_digit}
use labtether_agent.Common.Text.Search.{join}
use labtether_agent.Common.Text.Space.{fields_func, fields_from, is_blank, is_space, trim_space}
use labtether_agent.Common.Text.Words.{
  IsWord, Unspaced, fields_func-join, join-All, trim_space-Unspaced,
}
use labtether_agent.Settings.Ports.{
  collect_ports, has_port, is_list_separator, normalize_discovery_port_list_value, port_field,
  port_of, print_ports,
}
use labtether_agent.Settings.PortList.{
  IsPort, Named, collect_ports-Has, collect_ports-PortsValid, ok-injective,
}

-- The early return for no value is what the loop gives on no field.
early_return :
    (value : Text)
    → (if is_blank value
        then ok []
        else collect_ports [] (fields_func is_list_separator value) >>= (λ p. ok (print_ports p)))
      ≡ (collect_ports [] (fields_func is_list_separator value) >>= (λ p. ok (print_ports p)))
unfolding collect_ports fields_func fields_from print_ports sort join
early_return [] = refl
early_return (c ∷ s) = refl

pub normalize_eq :
    (raw : Text)
    → normalize_discovery_port_list_value raw ≡ (
        collect_ports [] (fields_func is_list_separator (trim_space raw))
        >>= (λ p. ok (print_ports p)))
unfolding normalize_discovery_port_list_value
normalize_eq raw = early_return (trim_space raw)

-- The text is a list of ports in ascending order, exactly those that the raw text names.
abbrev pub IsPortList : Text → Text → Type 0
IsPortList raw out =
    (ports : List ℕ) × Ascending ports
    × All IsPort ports
    × ((q : ℕ) → Has q ports ↔ Named q (fields_func is_list_separator (trim_space raw)))
    × (out ≡ join (map decimal ports) (codes ","))

-- An accepted port list becomes the ports that the text names, each once, in ascending order, in
-- decimal with commas between them.
pub normalize_discovery_port_list_value-IsPortList :
    (raw out : Text) → normalize_discovery_port_list_value raw ≡ ok out → IsPortList raw out
unfolding print_ports
normalize_discovery_port_list_value-IsPortList raw out h =
    let fields = fields_func is_list_separator (trim_space raw) in
    let (ports, c, e) =
      >>=-eq-ok (collect_ports [] fields) (λ p. ok (print_ports p)) {out = out}
        (sym (normalize_eq raw) ∙ h) in
    let (a, d) = collect_ports-PortsValid [] fields (tt, tt) c in
    (
      sort ports,
      sort-Ascending ports d,
      sort-All IsPort ports a,
      (λ q. named ports q c),
      sym (ok-injective e),
    )
  where
    named :
        (ports : List ℕ) (q : ℕ)
        → collect_ports [] (fields_func is_list_separator (trim_space raw)) ≡ ok ports
        → Has q (sort ports) ↔ Named q (fields_func is_list_separator (trim_space raw))
    named ports q c =
        let s = sort-Has q ports in
        let n = collect_ports-Has q [] (fields_func is_list_separator (trim_space raw)) c in
        ground (arith, s, n)

digit_is_word : (c : ℕ) → is_digit c ≡ true → is_list_separator c ≡ false
digit_is_word c h = ground arith

pub digit_is_no_space : (c : ℕ) → is_digit c ≡ true → is_space c ≡ false
unfolding is_space
digit_is_no_space c h = ground arith

decimal-not_blank : (n : ℕ) → is_blank (decimal n) ≡ false
decimal-not_blank n = let (d, (t, e)) = decimal-cons n in ap is_blank e

-- A decimal is a word of the list, without space, and the port that it prints.
decimal-IsWord : (n : ℕ) → IsWord is_list_separator (decimal n)
decimal-IsWord n = (decimal-not_blank n, All-weaken digit_is_word (decimal n) (decimal-All n))

decimal-Unspaced : (n : ℕ) → Unspaced (decimal n)
decimal-Unspaced n = All-weaken digit_is_no_space (decimal n) (decimal-All n)

port_of-decimal : (p : ℕ) → IsPort p → port_of (decimal p) ≡ some p
unfolding port_of
port_of-decimal p (l, u) = let a = atoi-decimal p (omega (arith, u)) in ground arith

absent-has_port : (p : ℕ) (ports : List ℕ) → All (λ q. p ≢ q) ports → has_port p ports ≡ false
absent-has_port p [] n = refl
absent-has_port p (q ∷ ports) (m, n) =
    let rest = absent-has_port p ports n in
    elim (Bool-cases (p == q)) [ inl t ↦ absurd (m ((==_iff p q).0 t)) | inr t ↦ ground arith ]

nth : (P : ℕ → Type 0) (read : List ℕ) (p : ℕ) (ports : List ℕ) → All P (read ++ (p ∷ ports)) → P p
nth P [] p ports (h, a) = h
nth P (r ∷ read) p ports (h, a) = nth P read p ports a

port_field-decimal :
    (ports : List ℕ) (p : ℕ)
    → IsPort p
    → All (λ q. p ≢ q) ports
    → port_field ports (decimal p) ≡ ok (ports ++ (p ∷ []))
unfolding port_field
port_field-decimal ports p i n =
    let t = trim_space-Unspaced (decimal p) (decimal-Unspaced p) in
    let b = decimal-not_blank p in
    let o = port_of-decimal p i in let a = absent-has_port p ports n in ground arith

absent_before :
    (read : List ℕ) (p : ℕ) (ports : List ℕ)
    → Distinct (read ++ (p ∷ ports))
    → All (λ q. p ≢ q) read
absent_before [] p ports d = tt
absent_before (r ∷ read) p ports (a, d) =
    ((λ e. nth (λ q. r ≢ q) read p ports a (sym e)), absent_before read p ports d)

-- The loop reads a printed list back.
collect_ports-decimals :
    (read ports : List ℕ)
    → All IsPort ports
    → Distinct (read ++ ports)
    → collect_ports read (map decimal ports) ≡ ok (read ++ ports)
unfolding collect_ports
collect_ports-decimals read [] a d = ap ok (sym (append-nil read))
collect_ports-decimals read (p ∷ ports) (i, a) d =
    ap (λ r. r >>= (λ q. collect_ports q (map decimal ports)))
      (port_field-decimal read p i (absent_before read p ports d))
    ∙ collect_ports-decimals (read ++ (p ∷ [])) ports a
        (subst Distinct (sym (append_assoc read (p ∷ []) ports)) d)
    ∙ ap ok (append_assoc read (p ∷ []) ports)

decimals-All :
    (P : Text → Type 0) → ((n : ℕ) → P (decimal n)) → (ports : List ℕ) → All P (map decimal ports)
decimals-All P f [] = tt
decimals-All P f (p ∷ ports) = (f p, decimals-All P f ports)

print-trim :
    (ports : List ℕ)
    → trim_space (join (map decimal ports) (codes ",")) ≡ join (map decimal ports) (codes ",")
unfolding is_space
print-trim ports = trim_space-Unspaced (join (map decimal ports) (codes ",")) (
    join-All (λ c. is_space c ≡ false) (map decimal ports) b','
      (decimals-All Unspaced decimal-Unspaced ports) refl)

-- A list of ports in ascending order, printed, is accepted and comes back unchanged.
normalize-print :
    (ports : List ℕ)
    → Ascending ports
    → All IsPort ports
    → normalize_discovery_port_list_value (join (map decimal ports) (codes ","))
      ≡ ok (join (map decimal ports) (codes ","))
unfolding print_ports
normalize-print ports a i =
    normalize_eq (join (map decimal ports) (codes ","))
    ∙ ap (λ v. collect_ports [] (fields_func is_list_separator v) >>= (λ p. ok (print_ports p)))
        (print-trim ports)
    ∙ ap (λ f. collect_ports [] f >>= (λ p. ok (print_ports p)))
        (fields_func-join is_list_separator (map decimal ports) b','
          (decimals-All (IsWord is_list_separator) decimal-IsWord ports) refl)
    ∙ ap (λ r. r >>= (λ p. ok (print_ports p)))
        (collect_ports-decimals [] ports i (Distinct-of_Ascending ports a))
    ∙ ap (λ p. ok (join (map decimal p) (codes ","))) (sort_of_Ascending ports a)

-- A normalized port list is accepted and comes back unchanged.
pub normalize_discovery_port_list_value_idempotent :
    (raw out : Text)
    → normalize_discovery_port_list_value raw ≡ ok out
    → normalize_discovery_port_list_value out ≡ ok out
normalize_discovery_port_list_value_idempotent raw out h =
    let (ports, a, i, n, e) = normalize_discovery_port_list_value-IsPortList raw out h in
    subst (λ o. normalize_discovery_port_list_value o ≡ ok o) (sym e) (normalize-print ports a i)
