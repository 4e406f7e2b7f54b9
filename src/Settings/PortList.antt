-- ===== src/Settings/PortList.antt =====
-- What a normalized port list is.
use labtether_agent.Common.{
  ℕ, ◌≤◌, ◌≡◌, ◌≢◌, ◌⊎◌, ◌↔◌, inl, inr, sym, subst, arith, Bool, true, false, some, List, [], ◌∷◌,
  ◌++◌, ◌==◌, ==_iff, if◌then◌else◌, Result, ok, >>=-eq-ok, Bool-cases, Option-cases, All,
  All-append, or-false,
}
use labtether_agent.Common.Int.{ℤ, pos, negsuc}
use labtether_agent.Common.Sort.{Distinct, Has}
use labtether_agent.Common.Text.{Text}
use labtether_agent.Common.Text.Number.{atoi}
use labtether_agent.Common.Text.Space.{is_blank, trim_space}
use labtether_agent.Settings.Ports.{
  add_port, collect_ports, has_port, in_port_range, port_field, port_of,
}

abbrev pub IsPort : ℕ → Type 0
IsPort p = (1 ≤ p) × (p ≤ 65535)

pub ok-injective : {E A : Type 0} {x y : A} → ◌≡◌ {A = Result E A} (ok x) (ok y) → x ≡ y
ok-injective h = cc

in_port_range-IsPort : (z : ℤ) {p : ℕ} → in_port_range z ≡ some p → IsPort p
in_port_range-IsPort (pos n) h = ground arith
in_port_range-IsPort (negsuc n) h = absurd (ground arith)

port_of-IsPort : (token : Text) {p : ℕ} → port_of token ≡ some p → IsPort p
unfolding port_of
port_of-IsPort token h = elim (Option-cases (atoi token)) [
  | inl e ↦ absurd (ground arith)
  | inr (z, e) ↦ in_port_range-IsPort z (ground arith)
]

has_port-absent : (p : ℕ) (ports : List ℕ) → has_port p ports ≡ false → All (λ q. p ≢ q) ports
has_port-absent p [] h = tt
has_port-absent p (q ∷ ports) h =
    let (a, b) = or-false h in
    ((λ e. let t = (==_iff p q).1 e in absurd (ground arith)), has_port-absent p ports b)

Distinct-append :
    (ports : List ℕ) (p : ℕ)
    → Distinct ports
    → All (λ q. p ≢ q) ports
    → Distinct (ports ++ (p ∷ []))
Distinct-append [] p d n = (tt, tt)
Distinct-append (q ∷ ports) p (a, d) (m, n) =
    (All-append (λ y. q ≢ y) ports (p ∷ []) a ((λ e. m (sym e)), tt), Distinct-append ports p d n)

-- The ports read so far are ports, each once.
abbrev pub PortsValid : List ℕ → Type 0
PortsValid ports = All IsPort ports × Distinct ports

add_port-PortsValid :
    (ports : List ℕ) (p : ℕ) → IsPort p → PortsValid ports → PortsValid (add_port ports p)
add_port-PortsValid ports p i (a, d) = elim (Bool-cases (has_port p ports)) [
  | inl t ↦ subst chosen (sym t) (a, d)
  | inr t ↦ subst chosen (sym t) (
    All-append IsPort ports (p ∷ []) a (i, tt),
    Distinct-append ports p d (has_port-absent p ports t),
  )
]
  where
    chosen : Bool → Type 0
    chosen t = PortsValid (if t then ports else ports ++ (p ∷ []))

-- What a field that is accepted was.
field_cases :
    (ports : List ℕ) (field : Text) {out : List ℕ}
    → port_field ports field ≡ ok out
    → ((is_blank (trim_space field) ≡ true) × (ports ≡ out))
      ⊎ ((p : ℕ) × (port_of (trim_space field) ≡ some p) × (add_port ports p ≡ out))
unfolding port_field
field_cases ports field h = elim (Bool-cases (is_blank (trim_space field))) [
  | inl b ↦ inl (b, ground arith)
  | inr b ↦ elim (Option-cases (port_of (trim_space field))) [
    | inl n ↦ absurd (ground arith)
    | inr (p, e) ↦ inr (p, e, ground arith)
  ]
]

pub collect_ports-PortsValid :
    (ports : List ℕ) (fields : List Text) {out : List ℕ}
    → PortsValid ports
    → collect_ports ports fields ≡ ok out
    → PortsValid out
unfolding collect_ports
collect_ports-PortsValid ports [] v h = subst PortsValid (ok-injective h) v
collect_ports-PortsValid ports (field ∷ fields) v h =
    let (ports', f, rest) = >>=-eq-ok (port_field ports field) (λ q. collect_ports q fields) h in
    let v' : PortsValid ports' = elim (field_cases ports field f) [
      | inl (b, e) ↦ subst PortsValid e v
      | inr (p, e, a) ↦
          subst PortsValid a (add_port-PortsValid ports p (port_of-IsPort (trim_space field) e) v)
    ] in
    collect_ports-PortsValid ports' fields v' rest

-- The text names the port: one of its fields is the port in decimal, with a sign or leading zeros
-- perhaps.
abbrev pub Named : ℕ → List Text → Type 0
Named p [] = ⊥
Named p (field ∷ fields) = (port_of (trim_space field) ≡ some p) ⊎ Named p fields

has_port-Has : (p : ℕ) (ports : List ℕ) → has_port p ports ≡ true → Has p ports
has_port-Has p [] h = cc
has_port-Has p (q ∷ ports) h = elim (Bool-cases (p == q)) [
  | inl e ↦ inl ((==_iff p q).0 e)
  | inr e ↦ inr (has_port-Has p ports (ground arith))
]

Has-append : (q p : ℕ) (ports : List ℕ) → Has q (ports ++ (p ∷ [])) ↔ ((q ≡ p) ⊎ Has q ports)
Has-append q p [] = ((λ h. h), (λ h. h))
Has-append q p (x ∷ ports) = let ih = Has-append q p ports in ground (arith, ih)

add_port-Has : (q p : ℕ) (ports : List ℕ) → Has q (add_port ports p) ↔ ((q ≡ p) ⊎ Has q ports)
add_port-Has q p ports = elim (Bool-cases (has_port p ports)) [
  | inl t ↦
      let known = has_port-Has p ports t in
      subst chosen (sym t)
        ((λ h. inr h), (λ h. elim h [ inl e ↦ subst (λ x. Has x ports) (sym e) known | inr i ↦ i ]))
  | inr t ↦ subst chosen (sym t) (Has-append q p ports)
]
  where
    chosen : Bool → Type 0
    chosen t = Has q (if t then ports else ports ++ (p ∷ [])) ↔ ((q ≡ p) ⊎ Has q ports)

blank-port_of : (token : Text) {p : ℕ} → is_blank token ≡ true → port_of token ≢ some p
unfolding port_of atoi
blank-port_of [] b h = absurd (ground arith)
blank-port_of (c ∷ s) b h = absurd (ground arith)

named_once :
    (token : Text) {p : ℕ} (q : ℕ) → port_of token ≡ some p → (port_of token ≡ some q) ↔ (q ≡ p)
named_once token q e = ((λ h. cc), (λ h. cc))

pub collect_ports-Has :
    (q : ℕ) (ports : List ℕ) (fields : List Text) {out : List ℕ}
    → collect_ports ports fields ≡ ok out
    → Has q out ↔ (Has q ports ⊎ Named q fields)
unfolding collect_ports
collect_ports-Has q ports [] h =
    subst (λ out. Has q out ↔ (Has q ports ⊎ ⊥)) (ok-injective h)
      ((λ i. inl i), (λ i. elim i [ inl j ↦ j | inr n ↦ absurd n ]))
collect_ports-Has q ports (field ∷ fields) h =
    let (ports', f, rest) = >>=-eq-ok (port_field ports field) (λ r. collect_ports r fields) h in
    let later = collect_ports-Has q ports' fields rest in
    let here : Has q ports' ↔ (Has q ports ⊎ (port_of (trim_space field) ≡ some q)) =
      elim (field_cases ports field f) [
        | inl (b, e) ↦
            subst (λ r. Has q r ↔ (Has q ports ⊎ (port_of (trim_space field) ≡ some q))) e
              (
                (λ i. inl i),
                (λ i. elim i [ inl j ↦ j | inr n ↦ absurd (blank-port_of (trim_space field) b n) ]),
              )
        | inr (p, e, a) ↦
            subst (λ r. Has q r ↔ (Has q ports ⊎ (port_of (trim_space field) ≡ some q))) a
              (let i = add_port-Has q p ports in
                let n = named_once (trim_space field) q e in ground (arith, i, n))
      ] in
    ground (arith, later, here)
