-- ===== src/Outbound.antt =====
-- internal/securityruntime/outbound.go: which hosts and addresses the agent may reach. `Address`
-- models what it asks of net.IP, `Hosts` the names and patterns, `Resolved` the checks of addresses,
-- `Policy` those of a host, a URL and a port, and `Dial` the dialler that secured clients use.
pub mod Address
pub mod Hosts
pub mod Resolved
pub mod Policy
pub mod Dial
pub mod Permitted
pub mod Accepted
pub mod Requests
pub mod Ports
pub mod Dialled
mod Tests
