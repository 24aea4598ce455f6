-- ===== src/Executive.antt =====
-- The mission executive (src/muto_command_layer_v2/executive.py). `State` has its state and the monad of
-- its methods, `Guards` what they check, `Lifecycle`, `Observe` and `ToolResult` the methods.
pub mod State
pub mod Guards
pub mod Lifecycle
pub mod Observe
pub mod ToolReport
pub mod ToolResult
pub mod Calls
pub mod Rules
pub mod Steps
pub mod Simulation
pub mod Selection
pub mod Soundness
pub mod Life
pub mod Confirmation
pub mod Log
pub mod Atomic
pub mod Rejection
pub mod Decides
mod Tests
