-- ===== src/DockerLogs/Payloads.antt =====
-- What the frames of the daemon hold, and how the loops over them read it.
use labtether_agent.Common.{
  Bool, false, if◌then◌else◌, ℕ, zero, suc, ◌+◌, ◌-◌, ◌*◌, ◌/◌, ◌%◌, ◌^◌, ◌≤◌, ◌<◌, ◌≡◌, refl, sym,
  ap, subst, ◌∙◌, min, true, not, ◌||◌, choose_by, some, List, [], ◌∷◌, ◌++◌, length, length-append,
  length-drop, take, drop, ltb, ◌==◌, ==_iff, All, arith,
}
use labtether_agent.DockerLogs.{
  Decoder, Outcome, Receiver, StreamName, stdout, stderr, and_then, emit, emit_payload, frame,
  name_of, on_chunk, on_header, payload_buffer, read_full, read_header, stream_frames,
}
use labtether_agent.DockerLogs.Views.{
  Absorbs, IfOk, absorb, absorb-append, and_then-IfOk, for_stream, view, Absorbs-nothing,
}
use labtether_agent.DockerLogs.Chunks.{and_then-Absorbs, IfOk-mono, emit-Absorbs}

-- A frame that the daemon writes: its stream, and a payload whose size fits the header.
abbrev pub Frame : Type 0
Frame = ℕ × List ℕ

abbrev pub IsFrame : Frame → Type 0
IsFrame (stream, payload) = length payload < 2 ^ 32

-- The size stands in the header in four bytes, the highest one first.
abbrev pub with_header : ℕ → ℕ → List ℕ → List ℕ
with_header stream size rest =
    stream
    ∷ 0
    ∷ 0
    ∷ 0
    ∷ (size / 16777216)
    ∷ (size / 65536 % 256)
    ∷ (size / 256 % 256)
    ∷ (size % 256)
    ∷ rest

abbrev pub frames_bytes : List Frame → List ℕ
frames_bytes [] = []
frames_bytes ((stream, payload) ∷ frames) =
    with_header stream (length payload) (payload ++ frames_bytes frames)

-- Frames of stream 2 are the standard error, all others the standard output.
abbrev pub carries : StreamName → ℕ → Bool
carries stdout stream = not (stream == 2)
carries stderr stream = stream == 2

abbrev pub payload_of : StreamName → List Frame → List ℕ
payload_of n [] = []
payload_of n ((stream, payload) ∷ frames) =
    (if carries n stream then payload else []) ++ payload_of n frames

read_full-take :
    (n : ℕ) (bytes : List ℕ)
    → n ≤ length bytes
    → read_full n bytes ≡ some (take n bytes, drop n bytes)
unfolding read_full
read_full-take zero bytes h = refl
read_full-take (suc n) [] h = absurd (omega (arith, h))
read_full-take (suc n) (b ∷ bytes) h = rw (read_full-take n bytes (omega (arith, h))) refl

take_empty : (n : ℕ) → take {A = ℕ} n [] ≡ []
take_empty zero = refl
take_empty (suc n) = refl

take-split : (k m : ℕ) (bytes : List ℕ) → take k bytes ++ take m (drop k bytes) ≡ take (k + m) bytes
take-split zero m bytes = ap (λ j. take j bytes) (omega arith)
take-split (suc k) m [] = take_empty m ∙ sym (take_empty (suc k + m))
take-split (suc k) m (b ∷ bytes) =
    let sums : suc (k + m) ≡ suc k + m = omega arith in
    ap (b ∷◌) (take-split k m bytes) ∙ ap (λ j. take j (b ∷ bytes)) sums

take-payload : (payload rest : List ℕ) → take (length payload) (payload ++ rest) ≡ payload
take-payload [] rest = refl
take-payload (b ∷ payload) rest = ap (b ∷◌) (take-payload payload rest)

drop-payload : (payload rest : List ℕ) → drop (length payload) (payload ++ rest) ≡ rest
drop-payload [] rest = refl
drop-payload (b ∷ payload) rest = drop-payload payload rest

emit_payload-Absorbs :
    (accepts : Receiver) (name : StreamName) (fuel size : ℕ) (bytes : List ℕ) (d : Decoder)
    → size ≤ length bytes
    → IfOk (Absorbs name (take size bytes) d) (emit_payload accepts name fuel size bytes d)
unfolding emit_payload on_chunk
emit_payload-Absorbs accepts name zero size bytes d h =
    choose_by (IfOk (Absorbs name (take size bytes) d)) (size == 0)
      (λ e.
        subst (λ n. Absorbs name (take n bytes) d d) (sym ((==_iff size 0).0 e))
          (Absorbs-nothing name d))
      (λ e. tt)
emit_payload-Absorbs accepts name (suc fuel) size bytes d h =
    let chunk = min size payload_buffer in
    let left = size - payload_buffer in
    choose_by (IfOk (Absorbs name (take size bytes) d)) (size == 0)
      (λ e.
        subst (λ n. Absorbs name (take n bytes) d d) (sym ((==_iff size 0).0 e))
          (Absorbs-nothing name d))
      (λ e. rw (read_full-take chunk bytes (omega (arith, h))) (
        subst
          (λ read. IfOk (Absorbs name read d) (
            and_then (emit accepts name [] (take chunk bytes) d)
              (emit_payload accepts name fuel left (drop chunk bytes))))
          (take-split chunk left bytes ∙ ap (λ n. take n bytes) (omega arith))
          (and_then-Absorbs name (take chunk bytes) (take left (drop chunk bytes)) d _ _
            (emit-Absorbs accepts name [] (take chunk bytes) d tt)
            (λ next.
              emit_payload-Absorbs accepts name fuel left (drop chunk bytes) next
                (omega (arith, length-drop chunk bytes, h))))))

-- Both streams take up what is theirs.
abbrev pub AbsorbsAll : List Frame → Decoder → Decoder → Type 0
AbsorbsAll frames before after =
    (n : StreamName) → view n after ≡ absorb (view n before) (payload_of n frames)

size_bytes :
    (n : ℕ)
    → n < 2 ^ 32
    → ((n / 16777216 * 256 + n / 65536 % 256) * 256 + n / 256 % 256) * 256 + n % 256 ≡ n
size_bytes n h = omega (arith, h)

for_stream-named :
    (n : StreamName) (b : Bool) (payload : List ℕ)
    → for_stream n (if b then stderr else stdout) payload
      ≡ (if elim n [ stdout ↦ not b | stderr ↦ b ] then payload else [])
for_stream-named stdout true payload = refl
for_stream-named stdout false payload = refl
for_stream-named stderr true payload = refl
for_stream-named stderr false payload = refl

for_stream-carries :
    (n : StreamName) (stream : ℕ) (payload : List ℕ)
    → for_stream n (name_of stream) payload ≡ (if carries n stream then payload else [])
for_stream-carries stdout stream payload = for_stream-named stdout (stream == 2) payload
for_stream-carries stderr stream payload = for_stream-named stderr (stream == 2) payload

on_header-AbsorbsAll :
    (accepts : Receiver) (stream : ℕ) (payload : List ℕ) (frames : List Frame)
    (again : List ℕ → Decoder → Outcome) (d : Decoder)
    → ((next : Decoder) → IfOk (AbsorbsAll frames next) (again (frames_bytes frames) next))
    → IfOk (AbsorbsAll ((stream, payload) ∷ frames) d) (
        on_header accepts
          (frame stream true (length payload) (payload ++ frames_bytes frames))
          again
          d)
unfolding on_header
on_header-AbsorbsAll accepts stream payload frames again d more =
    let P = IfOk (AbsorbsAll ((stream, payload) ∷ frames) d) in
    let bytes = payload ++ frames_bytes frames in
    let name = name_of stream in
    choose_by P (ltb 3 stream || not true) (λ e. tt)
      (λ e.
        choose_by P (stream == 3) (λ e. tt)
          (λ e. rw (drop-payload payload (frames_bytes frames)) (
            and_then-IfOk (Absorbs name payload d) (AbsorbsAll ((stream, payload) ∷ frames) d) _ _
              (subst
                (λ read.
                  IfOk (Absorbs name read d)
                    (emit_payload accepts name (length payload) (length payload) bytes d))
                (take-payload payload (frames_bytes frames))
                (emit_payload-Absorbs accepts name (length payload) (length payload) bytes d
                  (omega (arith, length-append payload (frames_bytes frames)))))
              (λ next taken.
                IfOk-mono (AbsorbsAll frames next) (AbsorbsAll ((stream, payload) ∷ frames) d) _
                  (λ after rest n.
                    rest n
                    ∙ ap (λ v. absorb v (payload_of n frames)) (taken n)
                    ∙ sym
                        (absorb-append (view n d) (for_stream n name payload) (payload_of n frames))
                    ∙ ap (λ p. absorb (view n d) (p ++ payload_of n frames))
                        (for_stream-carries n stream payload))
                  (more next)))))

pub stream_frames-AbsorbsAll :
    (accepts : Receiver) (fuel : ℕ) (frames : List Frame) (d : Decoder)
    → All IsFrame frames
    → IfOk (AbsorbsAll frames d) (stream_frames accepts fuel (frames_bytes frames) d)
unfolding stream_frames read_header on_header
stream_frames-AbsorbsAll accepts zero frames d h = tt
stream_frames-AbsorbsAll accepts (suc fuel) [] d h = nothing
  where
    nothing : IfOk (AbsorbsAll [] d) (stream_frames accepts (suc fuel) [] d)
    nothing n = refl
stream_frames-AbsorbsAll accepts (suc fuel) ((stream, payload) ∷ frames) d (fits, h) =
    subst
      (λ size. IfOk (AbsorbsAll ((stream, payload) ∷ frames) d) (
        on_header accepts (frame stream true size (payload ++ frames_bytes frames))
          (stream_frames accepts fuel) d))
      (sym (size_bytes (length payload) fits))
      (on_header-AbsorbsAll accepts stream payload frames (stream_frames accepts fuel) d
        (λ next. stream_frames-AbsorbsAll accepts fuel frames next h))
