-- ===== src/Input.antt =====
-- internal/agentcore/remoteaccess/webrtc_input_ownership.go: the keys and buttons that remote
-- controllers hold down on one desktop. `Maps` are Go maps, `Keys` names the physical inputs,
-- `Target` and `Inject` have the critical sections of the code as functions, and `System` composes
-- them to the steps that the controllers take, one interleaved with the other.
pub mod Maps
pub mod Keys
pub mod Target
pub mod Inject
pub mod System
pub mod Effects
pub mod Prepared
pub mod Tracked
pub mod Kept
pub mod Safety
pub mod Capacity
mod Tests
