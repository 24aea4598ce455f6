-- ===== src/Runtime.antt =====
-- `CommanderRuntime` (src/muto_command_layer_v2/runtime.py): the loop that asks the commander, calls
-- the tools and records what comes of it.
pub mod State
pub mod Rounds
pub mod Loop
pub mod Client
pub mod Limits
pub mod Rejected
pub mod Unusable
pub mod Escapes
mod Tests
