-- ===== src/DockerLogs.antt =====
-- internal/agentcore/docker/log_decode.go: the frames of a container's log without a terminal, cut into
-- lines. The reader is the bytes that are left in it, up to its end.
pub mod Limits
pub mod Bounds
pub mod Endings
pub mod Views
pub mod Chunks
pub mod Payloads
pub mod Demux
mod Tests
use labtether_agent.Common.{
  ℕ, zero, suc, ◌+◌, ◌-◌, ◌*◌, ◌^◌, ◌%◌, min, Bool, true, false, not, ◌&&◌, ◌||◌, Option, none,
  some, List, [], ◌∷◌, ◌++◌, length, take, drop, if◌then◌else◌, ltb, leb, ◌==◌, ◌≡◌,
}
use labtether_agent.Common.Text.Space.{is_blank}

abbrev pub max_docker_log_line_bytes : ℕ
max_docker_log_line_bytes = 64 * 1024

abbrev pub payload_buffer : ℕ
payload_buffer = 16 * 1024

pub data StreamName : Type 0 where
  stdout stderr : StreamName

-- `unfinished` is no error of the code: the rounds of a loop of the model are used up.
pub data LogError : Type 0 where
  line_too_long truncated_header invalid_header truncated_payload truncated_daemon_error : LogError
  send_failed unfinished : LogError
  daemon_error : List ℕ → LogError

abbrev pub Line : Type 0
Line = StreamName × List ℕ

-- `send`: whether a line is taken behind the lines that were sent before
abbrev pub Receiver : Type 0
Receiver = List Line → Line → Bool

pub record LineBuffer : Type 0 where
  pub bytes : List ℕ
  pub sequence : ℕ

-- The variables of the function, and the lines that were sent, oldest first.
pub record Decoder : Type 0 where
  pub stdout_buffer : LineBuffer
  pub stderr_buffer : LineBuffer
  pub last_sequence : ℕ
  pub sent : List Line

-- The error is the one that the function returns, at once.
abbrev pub Outcome : Type 0
Outcome = Decoder × Option LogError

abbrev pub and_then : Outcome → (Decoder → Outcome) → Outcome
and_then (d, none) f = f d
and_then (d, some e) f = (d, some e)

abbrev pub buffer_of : StreamName → Decoder → LineBuffer
buffer_of stdout d = d.stdout_buffer
buffer_of stderr d = d.stderr_buffer

abbrev pub set_buffer : StreamName → LineBuffer → Decoder → Decoder
set_buffer stdout buffer d = record d { stdout_buffer = buffer }
set_buffer stderr buffer d = record d { stderr_buffer = buffer }

-- strings.TrimSuffix of a carriage return
unfoldable pub trim_cr : List ℕ → List ℕ
trim_cr [] = []
trim_cr (c ∷ []) = if c == 13 then [] else c ∷ []
trim_cr (c ∷ d ∷ s) = c ∷ trim_cr (d ∷ s)

unfoldable pub deliver : Receiver → StreamName → List ℕ → Decoder → Outcome
deliver accepts name bytes d =
    let line : Line = (name, trim_cr bytes) in
    if accepts d.sent line
    then (record d { sent = d.sent ++ (line ∷ []) }, none)
    else (d, some send_failed)

-- The sequence number of a line is given to it by its first bytes.
abbrev started : LineBuffer → ℕ → LineBuffer
started buffer next = if is_blank buffer.bytes then record buffer { sequence = next } else buffer

abbrev count_line : LineBuffer → ℕ → ℕ
count_line buffer last = if is_blank buffer.bytes then (last + 1) % 2 ^ 64 else last

unfoldable pub grow : StreamName → List ℕ → Decoder → Outcome
grow name chunk d =
    let buffer = buffer_of name d in
    let last = count_line buffer d.last_sequence in
    if ltb max_docker_log_line_bytes (length buffer.bytes + length chunk)
    then (d, some line_too_long)
    else (
      set_buffer name (record (started buffer last) { bytes = buffer.bytes ++ chunk })
          (record d { last_sequence = last }),
      none,
    )

unfoldable pub finish_line : Receiver → StreamName → Decoder → Outcome
finish_line accepts name d =
    let buffer = buffer_of name d in
    and_then (deliver accepts name buffer.bytes d)
      (λ sent. (set_buffer name (record buffer { bytes = [] }) sent, none))

-- `emit`, with the bytes that the search for the next line break has passed
unfoldable pub emit : Receiver → StreamName → List ℕ → List ℕ → Decoder → Outcome
emit accepts name seen [] d = if is_blank seen then (d, none) else grow name seen d
emit accepts name seen (c ∷ rest) d = elim (c == 10) [
  | true ↦
      and_then (and_then (grow name seen d) (finish_line accepts name))
        (λ next. emit accepts name [] rest next)
  | false ↦ emit accepts name (seen ++ (c ∷ [])) rest d
]

-- io.ReadFull, which fails if the bytes are too few
unfoldable pub read_full : ℕ → List ℕ → Option (List ℕ × List ℕ)
read_full zero bytes = some ([], bytes)
read_full (suc n) [] = none
read_full (suc n) (b ∷ bytes) = elim (read_full n bytes) [
  | none ↦ none
  | some (read, rest) ↦ some (b ∷ read, rest)
]

-- one chunk of a payload, and the loop behind it
unfoldable pub on_chunk :
    Receiver
    → StreamName
    → Option (List ℕ × List ℕ)
    → (List ℕ → Decoder → Outcome)
    → Decoder
    → Outcome
on_chunk accepts name none again d = (d, some truncated_payload)
on_chunk accepts name (some (chunk, rest)) again d =
    and_then (emit accepts name [] chunk d) (again rest)

-- The loop over the payload of a frame; what is left in the reader is `drop size` of it.
unfoldable pub emit_payload : Receiver → StreamName → ℕ → ℕ → List ℕ → Decoder → Outcome
emit_payload accepts name zero size bytes d = if size == 0 then (d, none) else (d, some unfinished)
emit_payload accepts name (suc fuel) size bytes d =
    if size == 0
    then (d, none)
    else on_chunk accepts name (read_full (min size payload_buffer) bytes)
        (emit_payload accepts name fuel (size - payload_buffer)) d

-- The next frame: none, a header that is cut off, or its stream, whether the three bytes behind it are
-- zero, and its size, before the bytes that are left.
pub data Header : Type 0 where
  ended truncated : Header
  frame : ℕ → Bool → ℕ → List ℕ → Header

unfoldable pub read_header : List ℕ → Header
read_header [] = ended
read_header (b ∷ b1 ∷ b2 ∷ b3 ∷ b4 ∷ b5 ∷ b6 ∷ b7 ∷ rest) =
    frame b (b1 == 0 && b2 == 0 && b3 == 0) (((b4 * 256 + b5) * 256 + b6) * 256 + b7) rest
read_header bytes = truncated

abbrev pub read_daemon_error : ℕ → List ℕ → LogError
read_daemon_error size rest =
    if ltb (length rest) (min size 4096)
    then truncated_daemon_error
    else daemon_error (take (min size 4096) rest)

abbrev pub name_of : ℕ → StreamName
name_of stream = if stream == 2 then stderr else stdout

-- what the loop does with a frame, and the loop behind it
unfoldable pub on_header : Receiver → Header → (List ℕ → Decoder → Outcome) → Decoder → Outcome
on_header accepts ended again d = (d, none)
on_header accepts truncated again d = (d, some truncated_header)
on_header accepts (frame stream zeros size rest) again d =
    if ltb 3 stream || not zeros
    then (d, some invalid_header)
    else if stream == 3
    then (d, some (read_daemon_error size rest))
    else and_then (emit_payload accepts (name_of stream) size size rest d) (again (drop size rest))

-- The loop over the frames.
unfoldable pub stream_frames : Receiver → ℕ → List ℕ → Decoder → Outcome
stream_frames accepts zero bytes d = (d, some unfinished)
stream_frames accepts (suc fuel) bytes d =
    on_header accepts (read_header bytes) (stream_frames accepts fuel) d

-- a last line without a line break
unfoldable pub deliver_rest : Receiver → StreamName → Decoder → Outcome
deliver_rest accepts name d =
    let buffer = buffer_of name d in
    if is_blank buffer.bytes then (d, none) else deliver accepts name buffer.bytes d

unfoldable pub finish_streams : Receiver → Decoder → Outcome
finish_streams accepts d =
    if ltb d.stderr_buffer.sequence d.stdout_buffer.sequence
    then and_then (deliver_rest accepts stderr d) (deliver_rest accepts stdout)
    else and_then (deliver_rest accepts stdout d) (deliver_rest accepts stderr)

abbrev pub new_decoder : Decoder
new_decoder = record {
  stdout_buffer = record { bytes = []; sequence = 0 };
  stderr_buffer = record { bytes = []; sequence = 0 };
  last_sequence = 0;
  sent = [];
}

-- The branch of `streamDockerLogLines` for a container without a terminal.
unfoldable pub stream_docker_log_lines : Receiver → List ℕ → Outcome
stream_docker_log_lines accepts bytes =
    and_then (stream_frames accepts (suc (length bytes)) bytes new_decoder) (finish_streams accepts)
