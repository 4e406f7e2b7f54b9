-- ===== src/Settings/CidrList.antt =====
-- A normalized CIDR list holds what its fields name, each with a private or local address.
use labtether_agent.Common.{
  ◌≡◌, inl, inr, refl, sym, subst, arith, Bool, true, false, not, ◌&&◌, ◌||◌, Option, some, List,
  [], ◌∷◌, ◌++◌, if◌then◌else◌, All, All-append, All-weaken, choose, choose_by, ◌⊎◌, ok, err,
  >>=-eq-ok, Bool-cases, Option-cases,
}
use labtether_agent.Common.Text.{Text, codes}
use labtether_agent.Common.Text.Compare.{In, member, member-In}
use labtether_agent.Common.Text.Search.{join}
use labtether_agent.Common.Text.Space.{fields_from, fields_func, is_blank, trim_space}
use labtether_agent.Settings.Cidrs.{
  Prefix, add_cidr, cidr_field, collect_cidrs, insert_text, is_private_or_local_cidr,
  normalize_discovery_cidr_list_value, sort_texts, take_prefix, text_leb,
}
use labtether_agent.Settings.Keys.{bad_cidr, unsupported_cidr, public_cidr}
use labtether_agent.Settings.PortList.{ok-injective}
use labtether_agent.Settings.Ports.{is_list_separator}

insert_text-All :
    (P : Text → Type 0) (s : Text) (ts : List Text) → P s → All P ts → All P (insert_text s ts)
unfolding insert_text
insert_text-All P s [] h a = (h, tt)
insert_text-All P s (t ∷ ts) h (b, a) =
    elim (text_leb s t) as (λ q. All P (if q then s ∷ t ∷ ts else t ∷ insert_text s ts)) [
      | true ↦ (h, (b, a))
      | false ↦ (b, insert_text-All P s ts h a)
    ]

sort_texts-All : (P : Text → Type 0) (ts : List Text) → All P ts → All P (sort_texts ts)
unfolding sort_texts
sort_texts-All P [] a = tt
sort_texts-All P (t ∷ ts) (h, a) = insert_text-All P t (sort_texts ts) h (sort_texts-All P ts a)

add_cidr-All :
    (P : Text → Type 0) (cidrs : List Text) (c : Text)
    → All P cidrs
    → P c
    → All P (add_cidr cidrs c)
add_cidr-All P cidrs c a h =
    elim (member c cidrs) as (λ q. All P (if q then cidrs else cidrs ++ (c ∷ []))) [
      | true ↦ a
      | false ↦ All-append P cidrs (c ∷ []) a (h, tt)
    ]

-- The three tests on a prefix, as Booleans.
three_tests :
    (valid four six near : Bool) (cidrs : List Text) {out : List Text}
    → (if not valid
        then err bad_cidr
        else if not four && not six
        then err unsupported_cidr
        else if not near
        then err public_cidr
        else ok cidrs)
      ≡ ok out
    → (near ≡ true) × ((four || six) ≡ true) × (cidrs ≡ out)
three_tests false four six near cidrs h = absurd (ground arith)
three_tests true false false near cidrs h = absurd (ground arith)
three_tests true four six false cidrs h = absurd (ground arith)
three_tests true true six true cidrs h = (refl, refl, ok-injective h)
three_tests true false true true cidrs h = (refl, refl, ok-injective h)

insert_text-In : (c s : Text) (ts : List Text) → In c (s ∷ ts) → In c (insert_text s ts)
unfolding insert_text
insert_text-In c s [] h = h
insert_text-In c s (t ∷ ts) h =
    let rest = insert_text-In c s ts in
    elim (text_leb s t) as (λ q. In c (if q then s ∷ t ∷ ts else t ∷ insert_text s ts)) [
      | true ↦ h
      | false ↦ elim h [
        | inl here ↦ inr (rest (inl here))
        | inr (inl next) ↦ inl next
        | inr (inr later) ↦ inr (rest (inr later))
      ]
    ]

sort_texts-In : (c : Text) (ts : List Text) → In c ts → In c (sort_texts ts)
unfolding sort_texts
sort_texts-In c [] h = h
sort_texts-In c (t ∷ ts) (inl here) = insert_text-In c t (sort_texts ts) (inl here)
sort_texts-In c (t ∷ ts) (inr later) =
    insert_text-In c t (sort_texts ts) (inr (sort_texts-In c ts later))

In-append : (c : Text) (xs ys : List Text) → In c xs → In c (xs ++ ys)
In-append c [] ys h = absurd h
In-append c (x ∷ xs) ys (inl here) = inl here
In-append c (x ∷ xs) ys (inr later) = inr (In-append c xs ys later)

In-last : (c : Text) (xs : List Text) → In c (xs ++ (c ∷ []))
In-last c [] = inl refl
In-last c (x ∷ xs) = inr (In-last c xs)

add_cidr-In : (c d : Text) (cidrs : List Text) → In c cidrs → In c (add_cidr cidrs d)
add_cidr-In c d cidrs h = choose (In c) (member d cidrs) h (In-append c cidrs (d ∷ []) h)

add_cidr-added : (d : Text) (cidrs : List Text) → In d (add_cidr cidrs d)
add_cidr-added d cidrs =
    choose_by (In d) (member d cidrs) (λ e. member-In d cidrs e) (λ e. In-last d cidrs)

All-In : (xs : List Text) → All (λ x. In x xs) xs
All-In [] = tt
All-In (x ∷ xs) = (inl refl, All-weaken (λ y h. inr h) xs (All-In xs))

-- The address of the prefix is loopback, private or link-local, of IPv4 or IPv6.
abbrev pub IsLocalAddress : Prefix → Type 0
IsLocalAddress prefix =
    (prefix.addr_is_valid ≡ true)
    × ((prefix.is_loopback ≡ true)
        ⊎ (prefix.is_private ≡ true)
        ⊎ (prefix.is_link_local_unicast ≡ true))
    × ((prefix.is4 ≡ true) ⊎ (prefix.is6 ≡ true))

is_private_or_local_cidr-IsLocalAddress :
    (prefix : Prefix)
    → is_private_or_local_cidr prefix ≡ true
    → (prefix.is4 || prefix.is6) ≡ true
    → IsLocalAddress prefix
is_private_or_local_cidr-IsLocalAddress prefix h v = ground (arith, h, v)

module _ (parse_prefix : Text → Option Prefix) where
  -- The text is the masked form of a prefix that one of the fields names, with a local address.
  abbrev pub IsLocalCidr : List Text → Text → Type 0
  IsLocalCidr fields c =
      (field : Text) × In field fields
      × ((prefix : Prefix) × (parse_prefix (trim_space field) ≡ some prefix)
          × IsLocalAddress prefix
          × (c ≡ prefix.masked))

  -- The field is blank, or names a prefix whose masked form is in the list.
  abbrev pub IsTaken : List Text → Text → Type 0
  IsTaken cidrs field =
      (is_blank (trim_space field) ≡ true)
      ⊎ ((prefix : Prefix) × (parse_prefix (trim_space field) ≡ some prefix)
          × In prefix.masked cidrs)

  take_prefix-cases :
      (cidrs : List Text) (prefix : Prefix) {out : List Text}
      → take_prefix cidrs prefix ≡ ok out
      → IsLocalAddress prefix × (add_cidr cidrs prefix.masked ≡ out)
  unfolding take_prefix
  take_prefix-cases cidrs prefix h =
      let (near, version, e) =
        three_tests prefix.is_valid prefix.is4 prefix.is6 (is_private_or_local_cidr prefix)
          (add_cidr cidrs prefix.masked) h in
      (is_private_or_local_cidr-IsLocalAddress prefix near version, e)

  -- What one field does to the list.
  abbrev Takes : List Text → List Text → Text → List Text → Type 0
  Takes fields cidrs field out =
      (All (IsLocalCidr fields) cidrs → All (IsLocalCidr fields) out)
      × ((c : Text) → In c cidrs → In c out)
      × IsTaken out field

  cidr_field-Takes :
      (fields cidrs : List Text) (field : Text) {out : List Text}
      → In field fields
      → cidr_field parse_prefix cidrs field ≡ ok out
      → Takes fields cidrs field out
  unfolding cidr_field
  cidr_field-Takes fields cidrs field {out} i h = elim (Bool-cases (is_blank (trim_space field))) [
    | inl b ↦
        let e : cidrs ≡ out = ground arith in
        subst (Takes fields cidrs field) e ((λ a. a), (λ c j. j), inl b)
    | inr b ↦ elim (Option-cases (parse_prefix (trim_space field))) [
      | inl n ↦ absurd (ground arith)
      | inr (prefix, p) ↦
          let (near, e) = take_prefix-cases cidrs prefix (ground arith) in
          subst (Takes fields cidrs field) e (
            (λ a.
                add_cidr-All (IsLocalCidr fields) cidrs prefix.masked a
                  (field, i, (prefix, p, near, refl))),
            (λ c j. add_cidr-In c prefix.masked cidrs j),
            inr (prefix, p, add_cidr-added prefix.masked cidrs),
          )
    ]
  ]

  IsTaken-more :
      (cidrs out : List Text) (field : Text)
      → ((c : Text) → In c cidrs → In c out)
      → IsTaken cidrs field
      → IsTaken out field
  IsTaken-more cidrs out field grows (inl b) = inl b
  IsTaken-more cidrs out field grows (inr (prefix, p, i)) = inr (prefix, p, grows prefix.masked i)

  collect_cidrs-Takes :
      (all cidrs fields : List Text) {out : List Text}
      → All (λ f. In f all) fields
      → collect_cidrs parse_prefix cidrs fields ≡ ok out
      → (All (IsLocalCidr all) cidrs → All (IsLocalCidr all) out)
        × ((c : Text) → In c cidrs → In c out)
        × All (IsTaken out) fields
  unfolding collect_cidrs
  collect_cidrs-Takes all cidrs [] {out} i h =
      let e = ok-injective h in
      ((λ a. subst (All (IsLocalCidr all)) e a), (λ c j. subst (In c) e j), tt)
  collect_cidrs-Takes all cidrs (field ∷ fields) {out} (i, is) h =
      let (next, f, rest) =
        >>=-eq-ok (cidr_field parse_prefix cidrs field) (λ c. collect_cidrs parse_prefix c fields)
          h in
      let (local, grows, taken) = cidr_field-Takes all cidrs field i f in
      let (local_rest, grows_rest, taken_rest) = collect_cidrs-Takes all next fields is rest in
      (
        (λ a. local_rest (local a)),
        (λ c j. grows_rest c (grows c j)),
        (IsTaken-more next out field grows_rest taken, taken_rest),
      )

  blank-IsTaken :
      (text : Text) → is_blank text ≡ true → All (IsTaken []) (fields_func is_list_separator text)
  unfolding fields_func fields_from
  blank-IsTaken [] b = tt
  blank-IsTaken (c ∷ text) b = absurd (ground arith)

  -- An accepted CIDR list becomes a list with commas between its entries: each is the masked form of
  -- a prefix that a field of the list names and whose address is loopback, private or link-local, of
  -- IPv4 or IPv6, and every field that is not blank names a prefix whose masked form is an entry.
  pub normalize_discovery_cidr_list_value-IsLocalCidr :
      (raw out : Text)
      → normalize_discovery_cidr_list_value parse_prefix raw ≡ ok out
      → (cidrs : List Text) × All
          (IsLocalCidr (fields_func is_list_separator (trim_space raw)))
          cidrs
        × All (IsTaken cidrs) (fields_func is_list_separator (trim_space raw))
        × (out ≡ join cidrs (codes ","))
  unfolding normalize_discovery_cidr_list_value join
  normalize_discovery_cidr_list_value-IsLocalCidr raw out h =
      let fields = fields_func is_list_separator (trim_space raw) in
      elim (Bool-cases (is_blank (trim_space raw))) [
        | inl b ↦ ([], tt, blank-IsTaken (trim_space raw) b, ground arith)
        | inr b ↦
            let (cidrs, c, e) =
              >>=-eq-ok (collect_cidrs parse_prefix [] fields)
                (λ cs. ok (join (sort_texts cs) (codes ","))) {out = out} (ground arith) in
            let (local, grows, taken) = collect_cidrs-Takes fields [] fields (All-In fields) c in
            (
              sort_texts cidrs,
              sort_texts-All (IsLocalCidr fields) cidrs (local tt),
              All-weaken
                  (λ field t.
                    IsTaken-more cidrs (sort_texts cidrs) field (λ d. sort_texts-In d cidrs) t)
                  fields taken,
              sym (ok-injective e),
            )
      ]
