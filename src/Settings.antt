-- ===== src/Settings.antt =====
-- internal/agentcore/sysconfig: the agent's settings, what values they take and where they go.
pub mod Keys
pub mod Table
pub mod Ports
pub mod PortList
pub mod Cidrs
pub mod CidrList
pub mod Values
pub mod Lookup
pub mod Stable
pub mod Strings
pub mod Accepted
pub mod Defaults
pub mod Reported
pub mod Running
pub mod Applied
pub mod Rounds
pub mod Effective
pub mod Roundtrip
pub mod LocalOnly
mod Tests
mod RunTests
pub mod Endpoint
pub mod EndpointForm
pub mod PortText
