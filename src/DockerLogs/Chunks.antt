-- ===== src/DockerLogs/Chunks.antt =====
-- What a stream sees of the functions that take up a chunk of a payload.
use labtether_agent.Common.{
  ℕ, ◌+◌, ◌≡◌, refl, sym, ap, subst, ◌∙◌, false, choose_by, none, some, List, [], ◌∷◌, ◌++◌,
  append-nil, append_assoc, length, ltb, ◌==◌, ==_iff, All, All-append, Bool-cases, inl, inr,
}
use labtether_agent.DockerLogs.{
  Decoder, Line, LineBuffer, Outcome, Receiver, StreamName, and_then, buffer_of, deliver, emit,
  finish_line, grow, max_docker_log_line_bytes, set_buffer, stderr, stdout, trim_cr,
}
use labtether_agent.DockerLogs.Limits.{emit-newline, emit-other}
use labtether_agent.DockerLogs.Views.{
  Absorbs, Absorbs-append, Absorbs-nothing, IfOk, View, absorb-word, and_then-IfOk, for_stream,
  lines_on, lines_on-append,
}
use labtether_agent.DockerLogs.Endings.{trim_cr-without_cr, without_cr}

grown-Absorbs :
    (name : StreamName) (chunk : List ℕ) (sequence last : ℕ) (d : Decoder)
    → All (λ c. (c == 10) ≡ false) chunk
    → Absorbs name chunk d (
        set_buffer name
          (record { bytes = (buffer_of name d).bytes ++ chunk; sequence = sequence })
          (record d { last_sequence = last }))
grown-Absorbs stdout chunk sequence last d h stdout = sym (absorb-word _ _ chunk h)
grown-Absorbs stdout chunk sequence last d h stderr = refl
grown-Absorbs stderr chunk sequence last d h stdout = refl
grown-Absorbs stderr chunk sequence last d h stderr = sym (absorb-word _ _ chunk h)

grow-Absorbs :
    (name : StreamName) (chunk : List ℕ) (d : Decoder)
    → All (λ c. (c == 10) ≡ false) chunk
    → IfOk (Absorbs name chunk d) (grow name chunk d)
unfolding grow
grow-Absorbs name chunk d h =
    let buffer = buffer_of name d in
    choose_by (IfOk (Absorbs name chunk d))
      (ltb max_docker_log_line_bytes (length buffer.bytes + length chunk)) (λ e. tt)
      (λ e. grown-Absorbs name chunk _ _ d h)

-- The line is behind the lines that were sent, and no buffer is changed.
abbrev pub Delivers : StreamName → List ℕ → Decoder → Decoder → Type 0
Delivers name bytes before after =
    (n : StreamName)
    → (lines_on n after.sent ≡ lines_on n before.sent ++ for_stream n name (without_cr bytes ∷ []))
      × ((buffer_of n after).bytes ≡ (buffer_of n before).bytes)

same_buffers :
    (n : StreamName) (d : Decoder) (lines : List Line)
    → (buffer_of n (record d { sent = lines })).bytes ≡ (buffer_of n d).bytes
same_buffers stdout d lines = refl
same_buffers stderr d lines = refl

pub deliver-Delivers :
    (accepts : Receiver) (name : StreamName) (bytes : List ℕ) (d : Decoder)
    → IfOk (Delivers name bytes d) (deliver accepts name bytes d)
unfolding deliver
deliver-Delivers accepts name bytes d =
    let line : Line = (name, trim_cr bytes) in
    choose_by (IfOk (Delivers name bytes d)) (accepts d.sent line)
      (λ e n. (
        lines_on-append n d.sent (line ∷ [])
            ∙ ap (lines_on n d.sent ++◌) (append-nil _)
            ∙ ap (λ w. lines_on n d.sent ++ for_stream n name (w ∷ [])) (trim_cr-without_cr bytes),
        same_buffers n d _,
      ))
      (λ e. tt)

paired : {v w : View} → v.0 ≡ w.0 → v.1 ≡ w.1 → v ≡ w
paired p q = λ i. (p i, q i)

emptied-Absorbs :
    (name : StreamName) (before after : Decoder) (buffer : LineBuffer)
    → buffer.bytes ≡ []
    → Delivers name (buffer_of name before).bytes before after
    → Absorbs name (10 ∷ []) before (set_buffer name buffer after)
emptied-Absorbs stdout before after buffer e h stdout =
    let (lines, rest) = h stdout in paired lines e
emptied-Absorbs stdout before after buffer e h stderr =
    let (lines, rest) = h stderr in paired (lines ∙ append-nil _) rest
emptied-Absorbs stderr before after buffer e h stdout =
    let (lines, rest) = h stdout in paired (lines ∙ append-nil _) rest
emptied-Absorbs stderr before after buffer e h stderr =
    let (lines, rest) = h stderr in paired lines e

finish_line-Absorbs :
    (accepts : Receiver) (name : StreamName) (d : Decoder)
    → IfOk (Absorbs name (10 ∷ []) d) (finish_line accepts name d)
unfolding finish_line
finish_line-Absorbs accepts name d =
    and_then-IfOk (Delivers name (buffer_of name d).bytes d) (Absorbs name (10 ∷ []) d) _ _
      (deliver-Delivers accepts name (buffer_of name d).bytes d)
      (λ after h. emptied-Absorbs name d after _ refl h)

pub IfOk-mono :
    (P Q : Decoder → Type 0) (out : Outcome) → ((d : Decoder) → P d → Q d) → IfOk P out → IfOk Q out
IfOk-mono P Q (d, none) implies h = implies d h
IfOk-mono P Q (d, some e) implies h = tt

-- Two chunks, one behind the other.
pub and_then-Absorbs :
    (name : StreamName) (xs ys : List ℕ) (d : Decoder) (out : Outcome) (f : Decoder → Outcome)
    → IfOk (Absorbs name xs d) out
    → ((e : Decoder) → IfOk (Absorbs name ys e) (f e))
    → IfOk (Absorbs name (xs ++ ys) d) (and_then out f)
and_then-Absorbs name xs ys d out f first second =
    and_then-IfOk (Absorbs name xs d) (Absorbs name (xs ++ ys) d) out f first (λ e h.
      IfOk-mono (Absorbs name ys e) (Absorbs name (xs ++ ys) d) (f e)
        (λ g later. Absorbs-append name xs ys d e g h later) (second e))

-- A chunk of a payload, with the bytes that the search has passed.
pub emit-Absorbs :
    (accepts : Receiver) (name : StreamName) (seen rest : List ℕ) (d : Decoder)
    → All (λ c. (c == 10) ≡ false) seen
    → IfOk (Absorbs name (seen ++ rest) d) (emit accepts name seen rest d)
unfolding emit
emit-Absorbs accepts name [] [] d h = Absorbs-nothing name d
emit-Absorbs accepts name (b ∷ seen) [] d h =
    subst (λ bytes. IfOk (Absorbs name bytes d) (grow name (b ∷ seen) d))
      (sym (append-nil (b ∷ seen))) (grow-Absorbs name (b ∷ seen) d h)
emit-Absorbs accepts name seen (c ∷ rest) d h = elim (Bool-cases (c == 10)) [
  | inl e ↦
      subst (IfOk (Absorbs name (seen ++ (c ∷ rest)) d))
        (sym (emit-newline accepts name seen rest c d e))
        (subst
          (λ bytes. IfOk (Absorbs name bytes d) (
            and_then (and_then (grow name seen d) (finish_line accepts name))
              (emit accepts name [] rest)))
          (append_assoc seen (10 ∷ []) rest
            ∙ ap (λ x. seen ++ (x ∷ rest)) (sym ((==_iff c 10).0 e)))
          (and_then-Absorbs name (seen ++ (10 ∷ [])) rest d _ _
            (and_then-Absorbs name seen (10 ∷ []) d _ _ (grow-Absorbs name seen d h)
              (finish_line-Absorbs accepts name))
            (λ next. emit-Absorbs accepts name [] rest next tt)))
  | inr e ↦
      subst (IfOk (Absorbs name (seen ++ (c ∷ rest)) d))
        (sym (emit-other accepts name seen rest c d e))
        (subst (λ bytes. IfOk (Absorbs name bytes d) (emit accepts name (seen ++ (c ∷ [])) rest d))
          (append_assoc seen (c ∷ []) rest)
          (emit-Absorbs accepts name (seen ++ (c ∷ [])) rest d
            (All-append (λ x. (x == 10) ≡ false) seen (c ∷ []) h (e, tt))))
]
