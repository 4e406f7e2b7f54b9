-- ===== src/Command.antt =====
-- internal/securityruntime: which command a remote request may run. `Parse` and `Rules` model
-- command_parse.go, `ReadOnly` models command_readonly.go, `Env` and `Policy` model command.go.
pub mod Parse
pub mod Env
pub mod ChildEnv
pub mod Rules
pub mod ReadOnly
pub mod Policy
pub mod Guards
pub mod Shell
pub mod Named
pub mod Binaries
pub mod Readers
pub mod Inherited
pub mod Interpreters
mod Tests
