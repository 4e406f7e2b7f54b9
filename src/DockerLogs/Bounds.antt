-- ===== src/DockerLogs/Bounds.antt =====
-- The lines that are sent are short, and the loops of the decoder end.
use labtether_agent.Common.{
  ℕ, zero, suc, ◌-◌, ◌<◌, ◌≤◌, ◌≢◌, choose, choose_by, min, not, ◌||◌, Option, none, some, List, [],
  ◌∷◌, length, length-drop, drop, ltb, ◌==◌, arith,
}
use labtether_agent.Common.Text.Space.{is_blank}
use labtether_agent.DockerLogs.{
  Decoder, Header, Outcome, Receiver, StreamName, buffer_of, deliver_rest, emit, emit_payload,
  ended, finish_streams, frame, name_of, new_decoder, on_chunk, on_header, payload_buffer,
  read_full, read_header, stderr, stdout, stream_docker_log_lines, stream_frames, truncated,
  unfinished,
}
use labtether_agent.DockerLogs.Limits.{
  Good, IsBounded, and_then-Good, none-Good, buffer_of-IsBounded, deliver-Good, emit-Good,
}

on_chunk-Good :
    (accepts : Receiver) (name : StreamName) (chunk : Option (List ℕ × List ℕ))
    (again : List ℕ → Decoder → Outcome) (d : Decoder)
    → ((rest : List ℕ) (next : Decoder) → IsBounded next → Good (again rest next))
    → IsBounded d
    → Good (on_chunk accepts name chunk again d)
unfolding on_chunk Good
on_chunk-Good accepts name none again d more h = (h, λ e. cc)
on_chunk-Good accepts name (some (chunk, rest)) again d more h =
    and_then-Good (emit accepts name [] chunk d) (again rest) (emit-Good accepts name [] chunk d h)
      (more rest)

-- Each round of the loop over a payload takes at least a byte of it.
emit_payload-Good :
    (accepts : Receiver) (name : StreamName) (fuel size : ℕ) (bytes : List ℕ) (d : Decoder)
    → size ≤ fuel
    → IsBounded d
    → Good (emit_payload accepts name fuel size bytes d)
unfolding emit_payload
emit_payload-Good accepts name zero size bytes d enough h =
    choose_by Good (size == 0) (λ e. none-Good d h) (λ e. absurd (ground arith))
emit_payload-Good accepts name (suc fuel) size bytes d enough h =
    choose_by Good (size == 0) (λ e. none-Good d h)
      (λ e.
        on_chunk-Good accepts name (read_full (min size payload_buffer) bytes)
          (emit_payload accepts name fuel (size - payload_buffer)) d
          (λ rest next.
            emit_payload-Good accepts name fuel (size - payload_buffer) rest next
              (omega (arith, enough)))
          h)

IsShorter : Header → ℕ → Type 0
IsShorter ended n = Unit
IsShorter truncated n = Unit
IsShorter (frame stream zeros size rest) n = length rest < n

read_header-IsShorter : (bytes : List ℕ) → IsShorter (read_header bytes) (length bytes)
unfolding read_header IsShorter
read_header-IsShorter [] = tt
read_header-IsShorter (b ∷ []) = tt
read_header-IsShorter (b ∷ b1 ∷ []) = tt
read_header-IsShorter (b ∷ b1 ∷ b2 ∷ []) = tt
read_header-IsShorter (b ∷ b1 ∷ b2 ∷ b3 ∷ []) = tt
read_header-IsShorter (b ∷ b1 ∷ b2 ∷ b3 ∷ b4 ∷ []) = tt
read_header-IsShorter (b ∷ b1 ∷ b2 ∷ b3 ∷ b4 ∷ b5 ∷ []) = tt
read_header-IsShorter (b ∷ b1 ∷ b2 ∷ b3 ∷ b4 ∷ b5 ∷ b6 ∷ []) = tt
read_header-IsShorter (b ∷ b1 ∷ b2 ∷ b3 ∷ b4 ∷ b5 ∷ b6 ∷ b7 ∷ rest) = omega arith

on_header-Good :
    (accepts : Receiver) (header : Header) (n : ℕ) (again : List ℕ → Decoder → Outcome)
    (d : Decoder)
    → IsShorter header n
    → ((rest : List ℕ) (next : Decoder) → length rest < n → IsBounded next → Good (again rest next))
    → IsBounded d
    → Good (on_header accepts header again d)
unfolding on_header Good IsShorter
on_header-Good accepts ended n again d less more h = (h, λ e. cc)
on_header-Good accepts truncated n again d less more h = (h, λ e. cc)
on_header-Good accepts (frame stream zeros size rest) n again d less more h =
    choose Good (ltb 3 stream || not zeros) (h, λ e. cc)
      (choose Good (stream == 3)
        (
          h,
          choose (λ error. some error ≢ some unfinished) (ltb (length rest) (min size 4096))
              (λ e. cc) (λ e. cc),
        )
        (and_then-Good (emit_payload accepts (name_of stream) size size rest d)
          (again (drop size rest))
          (emit_payload-Good accepts (name_of stream) size size rest d (omega arith) h)
          (λ next. more (drop size rest) next (omega (arith, length-drop size rest, less)))))

-- Each round of the loop over the frames takes at least the bytes of a header.
stream_frames-Good :
    (accepts : Receiver) (fuel : ℕ) (bytes : List ℕ) (d : Decoder)
    → length bytes < fuel
    → IsBounded d
    → Good (stream_frames accepts fuel bytes d)
unfolding stream_frames
stream_frames-Good accepts zero bytes d enough h = absurd (omega (arith, enough))
stream_frames-Good accepts (suc fuel) bytes d enough h =
    on_header-Good accepts (read_header bytes) (length bytes) (stream_frames accepts fuel) d
      (read_header-IsShorter bytes)
      (λ rest next less. stream_frames-Good accepts fuel rest next (omega (arith, less, enough))) h

deliver_rest-Good :
    (accepts : Receiver) (name : StreamName) (d : Decoder)
    → IsBounded d
    → Good (deliver_rest accepts name d)
unfolding deliver_rest
deliver_rest-Good accepts name d h =
    let buffer = buffer_of name d in
    choose Good (is_blank buffer.bytes) (none-Good d h)
      (deliver-Good accepts name buffer.bytes d (buffer_of-IsBounded name d h) h)

finish_streams-Good :
    (accepts : Receiver) (d : Decoder) → IsBounded d → Good (finish_streams accepts d)
unfolding finish_streams
finish_streams-Good accepts d h =
    choose Good (ltb d.stderr_buffer.sequence d.stdout_buffer.sequence)
      (and_then-Good _ _ (deliver_rest-Good accepts stderr d h) (deliver_rest-Good accepts stdout))
      (and_then-Good _ _ (deliver_rest-Good accepts stdout d h) (deliver_rest-Good accepts stderr))

stream_docker_log_lines-Good :
    (accepts : Receiver) (bytes : List ℕ) → Good (stream_docker_log_lines accepts bytes)
unfolding stream_docker_log_lines
stream_docker_log_lines-Good accepts bytes =
    and_then-Good _ _
      (stream_frames-Good accepts (suc (length bytes)) bytes new_decoder (omega arith)
        (omega arith, omega arith, tt))
      (finish_streams-Good accepts)

-- Whatever the daemon sends and whichever lines the receiver takes, every line that is sent has at
-- most 64 KiB, and so has what the decoder keeps of a line.
pub stream_docker_log_lines-IsBounded :
    (accepts : Receiver) (bytes : List ℕ) → IsBounded (stream_docker_log_lines accepts bytes).0
unfolding Good
stream_docker_log_lines-IsBounded accepts bytes = (stream_docker_log_lines-Good accepts bytes).0

-- Whatever the daemon sends and whichever lines the receiver takes, the decoder comes to an end: one
-- round for each byte and one more are enough for the loop over the frames, and a round for each byte
-- of a payload for the loop over it.
pub stream_docker_log_lines-finishes :
    (accepts : Receiver) (bytes : List ℕ)
    → (stream_docker_log_lines accepts bytes).1 ≢ some unfinished
unfolding Good
stream_docker_log_lines-finishes accepts bytes = (stream_docker_log_lines-Good accepts bytes).1
