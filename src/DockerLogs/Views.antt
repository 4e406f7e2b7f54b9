-- ===== src/DockerLogs/Views.antt =====
-- What one stream sees of the decoder, and how a chunk of bytes changes it.
use labtether_agent.Common.{
  ℕ, ◌≡◌, refl, sym, ap, ◌∙◌, false, none, some, List, [], ◌∷◌, ◌++◌, append-nil, append_assoc,
  if◌then◌else◌, ◌==◌, All,
}
use labtether_agent.DockerLogs.{
  Decoder, Line, Outcome, StreamName, and_then, buffer_of, stderr, stdout,
}
use labtether_agent.DockerLogs.Endings.{without_cr}

-- The lines of a stream, and the bytes behind its last line break.
abbrev pub View : Type 0
View = List (List ℕ) × List ℕ

-- A text that is read byte by byte: a line break ends a line.
abbrev pub absorb_byte : View → ℕ → View
absorb_byte (lines, word) c =
    if c == 10 then (lines ++ (without_cr word ∷ []), []) else (lines, word ++ (c ∷ []))

abbrev pub absorb : View → List ℕ → View
absorb view [] = view
absorb view (c ∷ bytes) = absorb (absorb_byte view c) bytes

-- What is for one stream, and nothing if it is for the other.
abbrev pub for_stream {ℓ} : {A : Type ℓ} → StreamName → StreamName → List A → List A
for_stream stdout stdout xs = xs
for_stream stdout stderr xs = []
for_stream stderr stdout xs = []
for_stream stderr stderr xs = xs

abbrev pub lines_on : StreamName → List Line → List (List ℕ)
lines_on name [] = []
lines_on name ((of, line) ∷ lines) = for_stream name of (line ∷ []) ++ lines_on name lines

abbrev pub view : StreamName → Decoder → View
view name d = (lines_on name d.sent, (buffer_of name d).bytes)

-- A property of the state that an outcome without an error has.
abbrev pub IfOk : (Decoder → Type 0) → Outcome → Type 0
IfOk P (d, none) = P d
IfOk P (d, some e) = Unit

pub and_then-IfOk :
    (P Q : Decoder → Type 0) (out : Outcome) (f : Decoder → Outcome)
    → IfOk P out
    → ((d : Decoder) → P d → IfOk Q (f d))
    → IfOk Q (and_then out f)
and_then-IfOk P Q (d, none) f h more = more d h
and_then-IfOk P Q (d, some e) f h more = tt

-- The bytes are taken up by their stream, and the other one is left as it is.
abbrev pub Absorbs : StreamName → List ℕ → Decoder → Decoder → Type 0
Absorbs name bytes before after =
    (n : StreamName) → view n after ≡ absorb (view n before) (for_stream n name bytes)

pub absorb-append : (v : View) (xs ys : List ℕ) → absorb v (xs ++ ys) ≡ absorb (absorb v xs) ys
absorb-append v [] ys = refl
absorb-append v (x ∷ xs) ys = absorb-append (absorb_byte v x) xs ys

pub for_stream-append {ℓ} :
    {A : Type ℓ} (n name : StreamName) (xs ys : List A)
    → for_stream n name (xs ++ ys) ≡ for_stream n name xs ++ for_stream n name ys
for_stream-append stdout stdout xs ys = refl
for_stream-append stdout stderr xs ys = refl
for_stream-append stderr stdout xs ys = refl
for_stream-append stderr stderr xs ys = refl

pub Absorbs-append :
    (name : StreamName) (xs ys : List ℕ) (d e f : Decoder)
    → Absorbs name xs d e
    → Absorbs name ys e f
    → Absorbs name (xs ++ ys) d f
Absorbs-append name xs ys d e f first second n =
    second n
    ∙ ap (λ v. absorb v (for_stream n name ys)) (first n)
    ∙ sym (absorb-append (view n d) (for_stream n name xs) (for_stream n name ys))
    ∙ ap (absorb (view n d)) (sym (for_stream-append n name xs ys))

pub Absorbs-nothing : (name : StreamName) (d : Decoder) → Absorbs name [] d d
Absorbs-nothing stdout d stdout = refl
Absorbs-nothing stdout d stderr = refl
Absorbs-nothing stderr d stdout = refl
Absorbs-nothing stderr d stderr = refl

pub lines_on-append :
    (name : StreamName) (xs ys : List Line)
    → lines_on name (xs ++ ys) ≡ lines_on name xs ++ lines_on name ys
lines_on-append name [] ys = refl
lines_on-append name ((of, line) ∷ xs) ys =
    ap (for_stream name of (line ∷ []) ++◌) (lines_on-append name xs ys)
    ∙ sym (append_assoc (for_stream name of (line ∷ [])) (lines_on name xs) (lines_on name ys))

-- Text without a line break goes to the word.
pub absorb-word :
    (lines : List (List ℕ)) (word bytes : List ℕ)
    → All (λ c. (c == 10) ≡ false) bytes
    → absorb (lines, word) bytes ≡ (lines, word ++ bytes)
absorb-word lines word [] h = ap (λ w. (lines, w)) (sym (append-nil word))
absorb-word lines word (c ∷ bytes) (e, h) =
    ap
      (λ b.
        absorb (if b then (lines ++ (without_cr word ∷ []), []) else (lines, word ++ (c ∷ [])))
          bytes)
      e
    ∙ absorb-word lines (word ++ (c ∷ [])) bytes h
    ∙ ap (λ w. (lines, w)) (append_assoc word (c ∷ []) bytes)
