-- ===== src/DockerLogs/Limits.antt =====
-- The functions that take up a chunk of a payload keep the lines short.
use labtether_agent.Common.{
  ℕ, ◌+◌, ◌≤◌, ◌≡◌, ◌≢◌, refl, subst, choose, choose_by, sym, true, false, none, some, List, [],
  ◌∷◌, ◌++◌, length, length-append, ltb, ◌==◌, All, All-append, arith, Bool-cases, inl, inr,
}
use labtether_agent.DockerLogs.{
  Decoder, Line, LineBuffer, Outcome, Receiver, StreamName, and_then, buffer_of, deliver, emit,
  finish_line, grow, max_docker_log_line_bytes, set_buffer, stderr, stdout, trim_cr, unfinished,
}

-- What is kept of a line, and every line that was sent, has at most 64 KiB.
abbrev pub IsBounded : Decoder → Type 0
IsBounded d =
    (length d.stdout_buffer.bytes ≤ max_docker_log_line_bytes)
    × (length d.stderr_buffer.bytes ≤ max_docker_log_line_bytes)
    × All (λ line. length line.1 ≤ max_docker_log_line_bytes) d.sent

unfoldable pub Good : Outcome → Type 0
Good out = IsBounded out.0 × (out.1 ≢ some unfinished)

pub and_then-Good :
    (out : Outcome) (f : Decoder → Outcome)
    → Good out
    → ((d : Decoder) → IsBounded d → Good (f d))
    → Good (and_then out f)
unfolding Good
and_then-Good (d, none) f good h = h d good.0
and_then-Good (d, some e) f good h = good

pub none-Good : (d : Decoder) → IsBounded d → Good (d, none)
unfolding Good
none-Good d h = (h, λ e. cc)

length-trim_cr : (bytes : List ℕ) → length (trim_cr bytes) ≤ length bytes
unfolding trim_cr
length-trim_cr [] = omega arith
length-trim_cr (c ∷ []) = ground arith
length-trim_cr (c ∷ d ∷ s) = omega (arith, length-trim_cr (d ∷ s))

pub buffer_of-IsBounded :
    (name : StreamName) (d : Decoder)
    → IsBounded d
    → length (buffer_of name d).bytes ≤ max_docker_log_line_bytes
buffer_of-IsBounded stdout d (out, error, lines) = out
buffer_of-IsBounded stderr d (out, error, lines) = error

set_buffer-IsBounded :
    (name : StreamName) (buffer : LineBuffer) (d : Decoder)
    → length buffer.bytes ≤ max_docker_log_line_bytes
    → IsBounded d
    → IsBounded (set_buffer name buffer d)
set_buffer-IsBounded stdout buffer d small (out, error, lines) = (small, error, lines)
set_buffer-IsBounded stderr buffer d small (out, error, lines) = (out, small, lines)

pub deliver-Good :
    (accepts : Receiver) (name : StreamName) (bytes : List ℕ) (d : Decoder)
    → length bytes ≤ max_docker_log_line_bytes
    → IsBounded d
    → Good (deliver accepts name bytes d)
unfolding deliver Good
deliver-Good accepts name bytes d small (out, error, lines) =
    let line : Line = (name, trim_cr bytes) in
    let fits : length line.1 ≤ max_docker_log_line_bytes =
      omega (arith, length-trim_cr bytes, small) in
    let longer =
      All-append (λ l. length l.1 ≤ max_docker_log_line_bytes) d.sent (line ∷ []) lines
        (fits, tt) in
    choose Good (accepts d.sent line) ((out, error, longer), λ e. cc) ((out, error, lines), λ e. cc)

grow-Good :
    (name : StreamName) (chunk : List ℕ) (d : Decoder) → IsBounded d → Good (grow name chunk d)
unfolding grow Good
grow-Good name chunk d h =
    let buffer = buffer_of name d in
    choose_by Good (ltb max_docker_log_line_bytes (length buffer.bytes + length chunk))
      (λ e. (h, λ e. cc))
      (λ e.
        let fits : length buffer.bytes + length chunk ≤ max_docker_log_line_bytes =
          ground (arith, e) in
        (
          set_buffer-IsBounded name _ _ (omega (arith, length-append buffer.bytes chunk, fits)) h,
          λ e. cc,
        ))

finish_line-Good :
    (accepts : Receiver) (name : StreamName) (d : Decoder)
    → IsBounded d
    → Good (finish_line accepts name d)
unfolding finish_line Good
finish_line-Good accepts name d h =
    and_then-Good (deliver accepts name (buffer_of name d).bytes d) _
      (deliver-Good accepts name (buffer_of name d).bytes d (buffer_of-IsBounded name d h) h)
      (λ sent kept. (set_buffer-IsBounded name _ sent (omega arith) kept, λ e. cc))

pub emit-newline :
    (accepts : Receiver) (name : StreamName) (seen rest : List ℕ) (c : ℕ) (d : Decoder)
    → (c == 10) ≡ true
    → emit accepts name seen (c ∷ rest) d
      ≡ and_then
          (and_then (grow name seen d) (finish_line accepts name))
          (emit accepts name [] rest)
unfolding emit
emit-newline accepts name seen rest c d e = rw (e, emit) refl

pub emit-other :
    (accepts : Receiver) (name : StreamName) (seen rest : List ℕ) (c : ℕ) (d : Decoder)
    → (c == 10) ≡ false
    → emit accepts name seen (c ∷ rest) d ≡ emit accepts name (seen ++ (c ∷ [])) rest d
unfolding emit
emit-other accepts name seen rest c d e = rw (e, emit) refl

pub emit-Good :
    (accepts : Receiver) (name : StreamName) (seen rest : List ℕ) (d : Decoder)
    → IsBounded d
    → Good (emit accepts name seen rest d)
unfolding emit
emit-Good accepts name [] [] d h = none-Good d h
emit-Good accepts name (b ∷ seen) [] d h = grow-Good name (b ∷ seen) d h
emit-Good accepts name seen (c ∷ rest) d h = elim (Bool-cases (c == 10)) [
  | inl e ↦ subst Good (sym (emit-newline accepts name seen rest c d e)) (
      and_then-Good _ _
        (and_then-Good _ _ (grow-Good name seen d h) (finish_line-Good accepts name))
        (emit-Good accepts name [] rest))
  | inr e ↦
      subst Good (sym (emit-other accepts name seen rest c d e))
        (emit-Good accepts name (seen ++ (c ∷ [])) rest d h)
]
