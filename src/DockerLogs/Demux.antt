-- ===== src/DockerLogs/Demux.antt =====
-- The frames of two streams that come interleaved: each stream gets its own lines.
use labtether_agent.Common.{
  ℕ, suc, ◌≡◌, refl, sym, ap, ◌∙◌, choose_by, none, some, List, [], ◌∷◌, ◌++◌, append-nil, length,
  if◌then◌else◌, ltb, All,
}
use labtether_agent.Common.Text.Space.{is_blank}
use labtether_agent.DockerLogs.{
  Decoder, Outcome, Receiver, StreamName, buffer_of, deliver_rest, finish_streams, new_decoder,
  stderr, stdout, stream_docker_log_lines, stream_frames,
}
use labtether_agent.DockerLogs.Views.{IfOk, View, absorb, and_then-IfOk, for_stream, lines_on, view}
use labtether_agent.DockerLogs.Chunks.{Delivers, deliver-Delivers, IfOk-mono}
use labtether_agent.DockerLogs.Payloads.{
  AbsorbsAll, Frame, IsFrame, frames_bytes, payload_of, stream_frames-AbsorbsAll,
}
use labtether_agent.DockerLogs.Endings.{without_cr}

abbrev pub last_line : List ℕ → List (List ℕ)
last_line word = if is_blank word then [] else without_cr word ∷ []

abbrev whole : View → List (List ℕ)
whole (lines, word) = lines ++ last_line word

-- The lines of a text, each without its line break and a carriage return before it.
abbrev pub text_lines : List ℕ → List (List ℕ)
text_lines bytes = whole (absorb ([], []) bytes)

-- The line of a stream that has no line break is sent.
abbrev Rests : StreamName → Decoder → Decoder → Type 0
Rests name before after =
    (n : StreamName)
    → (lines_on n after.sent
        ≡ lines_on n before.sent ++ for_stream n name (last_line (buffer_of name before).bytes))
      × ((buffer_of n after).bytes ≡ (buffer_of n before).bytes)

for_stream-nothing {ℓ} : {A : Type ℓ} (n name : StreamName) → for_stream {A = A} n name [] ≡ []
for_stream-nothing stdout stdout = refl
for_stream-nothing stdout stderr = refl
for_stream-nothing stderr stdout = refl
for_stream-nothing stderr stderr = refl

deliver_rest-Rests :
    (accepts : Receiver) (name : StreamName) (d : Decoder)
    → IfOk (Rests name d) (deliver_rest accepts name d)
unfolding deliver_rest
deliver_rest-Rests accepts name d =
    let word = (buffer_of name d).bytes in
    choose_by (IfOk (Rests name d)) (is_blank word)
      (λ e n.
        let none_left = ap (λ b. if b then [] else without_cr word ∷ []) e in
        (
          sym (
              ap (λ w. lines_on n d.sent ++ for_stream n name w) none_left
              ∙ ap (lines_on n d.sent ++◌) (for_stream-nothing n name)
              ∙ append-nil (lines_on n d.sent)),
          refl,
        ))
      (λ e.
        let one_left = ap (λ b. if b then [] else without_cr word ∷ []) e in
        IfOk-mono (Delivers name word d) (Rests name d) _
          (λ after h n.
            let (lines, rest) = h n in
            (lines ∙ ap (λ w. lines_on n d.sent ++ for_stream n name w) (sym one_left), rest))
          (deliver-Delivers accepts name word d))

-- The first stream sends its rest, and the other one has nothing to add to it.
sent_first :
    (n other : StreamName) (d e f : Decoder)
    → for_stream n other (last_line (buffer_of other e).bytes) ≡ []
    → for_stream n n (last_line (buffer_of n d).bytes) ≡ last_line (buffer_of n d).bytes
    → Rests n d e
    → Rests other e f
    → lines_on n f.sent ≡ whole (view n d)
sent_first n other d e f none_left own first second =
    (second n).0
    ∙ ap (lines_on n e.sent ++◌) none_left
    ∙ append-nil (lines_on n e.sent)
    ∙ (first n).0
    ∙ ap (lines_on n d.sent ++◌) own

sent_second :
    (n other : StreamName) (d e f : Decoder)
    → for_stream n other (last_line (buffer_of other d).bytes) ≡ []
    → for_stream n n (last_line (buffer_of n e).bytes) ≡ last_line (buffer_of n e).bytes
    → Rests other d e
    → Rests n e f
    → lines_on n f.sent ≡ whole (view n d)
sent_second n other d e f none_left own first second =
    let before =
      (first n).0 ∙ ap (lines_on n d.sent ++◌) none_left ∙ append-nil (lines_on n d.sent) in
    (second n).0
    ∙ ap (lines_on n e.sent ++◌) own
    ∙ ap (λ lines. lines ++ last_line (buffer_of n e).bytes) before
    ∙ ap (λ word. lines_on n d.sent ++ last_line word) (first n).1

out_first :
    (d e f : Decoder)
    → Rests stdout d e
    → Rests stderr e f
    → (n : StreamName) → lines_on n f.sent ≡ whole (view n d)
out_first d e f first second stdout = sent_first stdout stderr d e f refl refl first second
out_first d e f first second stderr = sent_second stderr stdout d e f refl refl first second

err_first :
    (d e f : Decoder)
    → Rests stderr d e
    → Rests stdout e f
    → (n : StreamName) → lines_on n f.sent ≡ whole (view n d)
err_first d e f first second stdout = sent_second stdout stderr d e f refl refl first second
err_first d e f first second stderr = sent_first stderr stdout d e f refl refl first second

abbrev Sends : Decoder → Decoder → Type 0
Sends before after = (n : StreamName) → lines_on n after.sent ≡ whole (view n before)

finish_streams-Sends :
    (accepts : Receiver) (d : Decoder) → IfOk (Sends d) (finish_streams accepts d)
unfolding finish_streams
finish_streams-Sends accepts d =
    choose_by (IfOk (Sends d)) (ltb d.stderr_buffer.sequence d.stdout_buffer.sequence)
      (λ early.
        and_then-IfOk (Rests stderr d) (Sends d) _ _ (deliver_rest-Rests accepts stderr d) (λ e h.
          IfOk-mono (Rests stdout e) (Sends d) _ (λ f more. err_first d e f h more)
            (deliver_rest-Rests accepts stdout e)))
      (λ late.
        and_then-IfOk (Rests stdout d) (Sends d) _ _ (deliver_rest-Rests accepts stdout d) (λ e h.
          IfOk-mono (Rests stderr e) (Sends d) _ (λ f more. out_first d e f h more)
            (deliver_rest-Rests accepts stderr e)))

abbrev SendsAll : List Frame → Decoder → Type 0
SendsAll frames after = (n : StreamName) → lines_on n after.sent ≡ text_lines (payload_of n frames)

new_view : (n : StreamName) → view n new_decoder ≡ ([], [])
new_view stdout = refl
new_view stderr = refl

ok-IfOk : (P : Decoder → Type 0) (out : Outcome) → out.1 ≡ none → IfOk P out → P out.0
ok-IfOk P (d, none) e h = h
ok-IfOk P (d, some error) e h = absurd cc

-- However the output of a container is cut into frames, and however the frames of its two streams
-- are mixed, if the decoder reports no error, then the lines that it sends for a stream are the lines
-- of the text that the payloads of the stream make up, in their order.
pub stream_docker_log_lines-text_lines :
    (accepts : Receiver) (frames : List Frame)
    → All IsFrame frames
    → (stream_docker_log_lines accepts (frames_bytes frames)).1 ≡ none
    → (n : StreamName)
    → lines_on n (stream_docker_log_lines accepts (frames_bytes frames)).0.sent
      ≡ text_lines (payload_of n frames)
unfolding stream_docker_log_lines
stream_docker_log_lines-text_lines accepts frames fits ends =
    let bytes = frames_bytes frames in
    ok-IfOk (SendsAll frames) (stream_docker_log_lines accepts bytes) ends (
      and_then-IfOk (AbsorbsAll frames new_decoder) (SendsAll frames)
        (stream_frames accepts (suc (length bytes)) bytes new_decoder) (finish_streams accepts)
        (stream_frames-AbsorbsAll accepts (suc (length bytes)) frames new_decoder fits)
        (λ d read.
          IfOk-mono (Sends d) (SendsAll frames) (finish_streams accepts d)
            (λ after sends n.
              sends n ∙ ap whole (read n ∙ ap (λ v. absorb v (payload_of n frames)) (new_view n)))
            (finish_streams-Sends accepts d)))
