-- ===== src/DockerLogs/Tests.antt =====
-- The log of a container on two streams, cut where it suits nobody; the theorem at it.
use labtether_agent.Common.{
  ◌&◌, ◌≡◌, ◌≢◌, refl, true, none, some, List, [], ◌∷◌, ◌++◌, arith, length, ltb,
}
use labtether_agent.Common.Text.{codes}
use labtether_agent.DockerLogs.{
  Receiver, daemon_error, deliver, deliver_rest, emit, emit_payload, finish_line, finish_streams,
  grow, invalid_header, on_chunk, on_header, read_full, read_header, send_failed, stderr, stdout,
  stream_docker_log_lines, stream_frames, trim_cr, truncated_header, truncated_payload, unfinished,
}
use labtether_agent.DockerLogs.Views.{lines_on}
use labtether_agent.DockerLogs.Payloads.{Frame, frames_bytes, payload_of}
use labtether_agent.DockerLogs.Demux.{stream_docker_log_lines-text_lines, text_lines}
use labtether_agent.DockerLogs.Limits.{IsBounded}
use labtether_agent.DockerLogs.Bounds.{
  stream_docker_log_lines-IsBounded, stream_docker_log_lines-finishes,
}

run : Unit {0}
unfolding deliver deliver_rest emit emit_payload finish_line finish_streams grow on_chunk on_header
    read_full read_header stream_docker_log_lines stream_frames trim_cr
run = tt

abbrev takes_all : Receiver
takes_all sent line = true

abbrev takes_one : Receiver
takes_one sent line = ltb (length sent) 1

-- Two lines for stdout, the second one in two frames, with a line for stderr in between.
abbrev log : List Frame
log =
    (1, codes "ab" ++ (13 ∷ 10 ∷ codes "c")) ∷ (2, codes "warn" ++ (10 ∷ [])) ∷ (0, codes "d") ∷ []

decodes :
    ((stream_docker_log_lines takes_all (frames_bytes log)).0.sent
      ≡ (stdout, codes "ab") ∷ (stderr, codes "warn") ∷ (stdout, codes "cd") ∷ [])
    × ((stream_docker_log_lines takes_all (frames_bytes log)).1 ≡ none)
    × ((stream_docker_log_lines takes_one (frames_bytes log)).1 ≡ some send_failed)
    × ((stream_docker_log_lines takes_all (1 ∷ 0 ∷ [])).1 ≡ some truncated_header)
    × ((stream_docker_log_lines takes_all (1 ∷ 0 ∷ 0 ∷ 0 ∷ 0 ∷ 0 ∷ 0 ∷ 5 ∷ 65 ∷ [])).1
        ≡ some truncated_payload)
    × ((stream_docker_log_lines takes_all (1 ∷ 0 ∷ 1 ∷ 0 ∷ 0 ∷ 0 ∷ 0 ∷ 0 ∷ [])).1
        ≡ some invalid_header)
    × ((stream_docker_log_lines takes_all (frames_bytes ((3, codes "no") ∷ []))).1
        ≡ some (daemon_error (codes "no")))
unfolding run
decodes = (refl, refl, refl, refl, refl, refl, refl)

stream_docker_log_lines-text_lines_example :
    lines_on stdout (stream_docker_log_lines takes_all (frames_bytes log)).0.sent
    ≡ text_lines (payload_of stdout log)
stream_docker_log_lines-text_lines_example =
    stream_docker_log_lines-text_lines takes_all log (omega arith & omega arith & omega arith & tt)
      decodes.1 stdout

stream_docker_log_lines-IsBounded_example :
    IsBounded (stream_docker_log_lines takes_all (frames_bytes log)).0
stream_docker_log_lines-IsBounded_example =
    stream_docker_log_lines-IsBounded takes_all (frames_bytes log)

stream_docker_log_lines-finishes_example :
    (stream_docker_log_lines takes_one (frames_bytes log)).1 ≢ some unfinished
stream_docker_log_lines-finishes_example =
    stream_docker_log_lines-finishes takes_one (frames_bytes log)
