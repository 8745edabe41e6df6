-- ===== src/Cmd.antt =====
-- cmd/preflight/cmd: the inputs of the commands `run` and `cleanup`.
pub mod Flags
pub mod Inversion
pub mod Values
pub mod Inputs
pub mod Commands
pub mod Precedence
pub mod Accepted
pub mod Created
pub mod Registration
pub mod Selectors
