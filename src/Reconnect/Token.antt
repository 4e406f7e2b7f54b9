-- ===== src/Reconnect/Token.antt =====
-- internal/agentcore/runtime_identity.go: which tokens the agent takes over as its bearer.
use labtether_agent.Common.{
  ℕ, ◌≡◌, Bool, false, ◌&&◌, ◌||◌, Option, none, some, all, arith, if◌then◌else◌, ltb, leb,
}
use labtether_agent.Common.Text.{Text, codes}
use labtether_agent.Common.Text.Search.{has_rune}
use labtether_agent.Common.Text.Bytes.{byte_length}
use labtether_agent.Common.Text.Space.{is_blank, trim_space}

abbrev pub max_agent_bearer_token_bytes : ℕ
max_agent_bearer_token_bytes = 4096

abbrev is_token_char : ℕ → Bool
is_token_char ch =
    (leb b'a' ch && leb ch b'z')
    || (leb b'A' ch && leb ch b'Z')
    || (leb b'0' ch && leb ch b'9')
    || has_rune (codes "-._~+/=") ch

-- `normalizeIssuedAgentToken`; its two errors are one here.
unfoldable pub normalize_issued_agent_token : Text → Option Text
normalize_issued_agent_token raw =
    let token = trim_space raw in
    if is_blank token || ltb max_agent_bearer_token_bytes (byte_length token)
    then none
    else if all is_token_char token
    then some token
    else none

-- A token that is taken over is not empty.
pub normalize_issued_agent_token-is_blank :
    (raw token : Text) → normalize_issued_agent_token raw ≡ some token → is_blank token ≡ false
unfolding normalize_issued_agent_token
normalize_issued_agent_token-is_blank raw token e = ground arith
