-- ===== src/Lib.antt =====
-- Verification library of labtether-agent, the agent that a machine runs to report to a LabTether
-- hub and to carry out what the hub asks of it.
--
-- The parts that are modelled, and how they meet in the program:
--   * Ring models internal/agentcore/ring_buffer.go. The publisher pushes telemetry into the
--     buffer, and flushes it to the hub when it is connected. `RingBuffer`, `push`, `flush`, `drain`
--     and `len` are the type and its methods; `flush_round` is one round of the loop of Flush,
--     `retire` its second critical section. The mutex makes every critical section one step; between
--     them, and during a send, other goroutines run a list of operations (`Surroundings`).
--   * Packages models internal/agentcore/packagepolicy/package_names.go, which every package
--     backend calls before it hands names to a package manager. `normalize_and_validate` is
--     NormalizeAndValidate, `check_entry` the body of its loop, `valid_package_name` the function of
--     that name.
--   * Command models internal/securityruntime: which program or command line from the hub may run.
--     Command.Parse and Command.Rules model command_parse.go (`parse_command_line`, one `step` per
--     character; `shell_rule_matches`), Command.ReadOnly models command_readonly.go,
--     Command.ChildEnv child_env.go, Command.Env and Command.Policy command.go
--     (`validate_exec_binary`, `validate_shell_command`, `new_validated_shell_command`). The parser's
--     vector goes to the policy, the policy's rules to the read-only checks, and what passes to
--     `new_command`, with the environment that `sanitized_child_env` leaves.
--   * Settings models internal/agentcore/sysconfig: settings_definitions.go (Settings.Keys,
--     Settings.Table, Settings.Defaults), settings_value_validation.go (Settings.Values,
--     Settings.Ports, Settings.Cidrs, Settings.Endpoint), with the named pipes of
--     internal/agentcore/docker/npipe_endpoint.go and the Unix scheme of docker/client.go. The hub's
--     settings, the configuration file and the settings command all go through
--     `normalize_agent_setting_value`. Settings.Reported models settings_values.go (what a
--     configuration reports), and Settings.Running, Settings.Applied and Settings.Rounds model
--     applyAgentSettings of internal/agentcore/settings_runtime.go: `setting_cases` are the cases of
--     its switch, `apply_one` is one round of its loop over the hub's values and `apply_all` the
--     loop, up to the unlocking of the runtime. Settings.Effective has ReportedAgentSettings, with the
--     values of the start that settings_restart.go keeps for the settings that need a restart.
--   * Outbound models internal/securityruntime/outbound.go with numeric.go: which hosts, URLs, ports
--     and addresses the agent may reach. Outbound.Address models what the code asks of a net.IP,
--     Outbound.Hosts the normalized names and the patterns of the allowlist, Outbound.Resolved and
--     Outbound.Policy the checks, from `validate_resolved_outbound_ip` to `validate_outbound_url` and
--     `validate_outbound_host_port`, and Outbound.Dial the dialler of the secured HTTP clients, which
--     resolves the host once more (`dial_outbound_validated`). The switches come from Command.Env.
--   * Input models internal/agentcore/remoteaccess/webrtc_input_ownership.go: the keys and buttons
--     that several remote controllers hold down on one desktop. Input.Keys models the event of
--     webrtc_input.go and `webRTCHeldInputKey` of webrtc_input_lifecycle.go; Input.Target and
--     Input.Inject have the critical sections of `acquire`, `retire`, `flush` and `inject` as
--     functions of the state of one target. Input.System composes them: a `Step` is one critical
--     section or one call of a helper program, owners come and go between any two, and the gate
--     of the code (`Phase`) lets one of them press and release at a time.
--   * Reconnect models internal/agentcore/ws_reconnect.go, with the fields and methods of
--     ws_transport.go that its loop uses and the tokens of runtime_identity.go (Reconnect.Token):
--     how the agent keeps its connection to the hub. `round` is one round of reconnectLoop up to its
--     wait, `rounds` the loop; `Event` is what other goroutines do to the transport between two
--     rounds (`update_token`, `mark_enrollment_rejected`, `mark_disconnected`).
--   * Watchdog models internal/agentcore/watchdog.go, which ends the process when the heartbeat hangs:
--     `check_tick` is what the loop of RunWatchdog does at a tick, `run_watchdog` the function.
--   * DockerLogs models internal/agentcore/docker/log_decode.go, which reads the log of a container for
--     the hub: `stream_docker_log_lines` is the branch of streamDockerLogLines for containers without a
--     terminal, `stream_frames` its loop over the frames, `emit_payload` the loop over a payload and
--     `emit` the function of that name. A receiver may refuse a line, which ends the reading.
-- Common holds what they share: tests and lists over the native numbers, results, sorting, and the
-- functions of the packages strings, strconv, unicode and path/filepath that the code calls. In each
-- part, a module that is named for a fact (Ring.Flush, Packages.Names, Command.Readers,
-- Settings.Accepted) proves it, and the module Tests runs the code on examples and applies each
-- theorem to one.
--
-- How the code is read:
--   * A string is the list of its code points, so it is valid UTF-8; lengths in bytes are computed by
--     `byte_length`. Letter case beyond ASCII, for which Go reads the tables of package unicode, is
--     the parameter `CaseTables`; the theorems hold for all tables.
--   * An address is the list of its bytes. What packages net and net/url say of a text, and what the
--     resolver answers, are the parameters `Network` and `Dialer`; the two lookups of the host check
--     and the one of the dialler may each answer something else.
--   * The tables of key codes are the parameter `KeyTables`. A press counts as done as soon as the
--     helper program is called, and a release when it reports success; a helper that fails may have
--     done a part.
--   * The clock is read where the code reads it, and each reading is a part of a `Round` or a `Tick`, in
--     nanoseconds, with nothing assumed of their order. A dial, a re-enrollment and cryptorand.Int are
--     what a round meets. `enrollments` records the re-enrollments, which the code keeps nowhere.
--   * Paths are those of Unix. The environment of the process, the working directory and the
--     resolution of symbolic links are parameters (`Environment`, `Files`).
--   * An int has 64 bits: Atoi refuses what is outside. The version counter of the ring wraps at
--     64 bits (`next_version`).
--   * An error is a constructor of the component's error type; the texts of messages are left out.
--   * Loops are recursion on the text or the list. The loops of Flush and Drain make as many rounds
--     as the buffer has places, which is the bound that the code gives them; `digits_before` has n + 1
--     rounds for the number n, and each round divides by ten. The loop over the frames of a log has
--     one round more than there are bytes, and each takes a header of eight bytes; the loop over a
--     payload has a round for each byte, and each takes at least one.
--   * A Go map that is only asked for membership is a list; the map of the hub's values is the list in
--     which the loop happens to iterate it. A time.Duration is a number of nanoseconds.
--
-- What is not modelled: package netip and, for an http or https endpoint, net/url with the outbound
-- policy are the parameters `Prefix` and `url_endpoint`. Of the outbound policy, the http.Client
-- around the checks is left out; of the ownership of input, the registry of targets, and that a
-- wait for the gate can time out, after which the owner's releases stay pending. Of the transport,
-- the handshake, its messages and pings are left out. Of the logs of containers, the branch for
-- terminals and the cancellation of the reading are left out, of the watchdog its log lines. The
-- network, the file system, processes, the desktop, and the platforms' own commands are outside.

pub mod Common
pub mod Ring
pub mod Packages
pub mod Command
pub mod Settings
pub mod Outbound
pub mod Input
pub mod Reconnect
pub mod Watchdog
pub mod DockerLogs
