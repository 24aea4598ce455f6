-- ===== src/Gait.antt =====
-- The gait of the robot (src/muto_hexapod_lib_custom/muto_hexapod_lib_custom/movement/gait.py): the
-- plan that steps through the phases of a cycle.
pub mod Plan
pub mod Cycle
pub mod Latch
pub mod Latched
pub mod Commands
mod Tests
