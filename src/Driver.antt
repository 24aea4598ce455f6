-- ===== src/Driver.antt =====
-- The ROS driver of the robot (src/yahboomcar_bringup/yahboomcar_bringup/muto_driver.py).
pub mod Selection
pub mod Scheduler
pub mod State
pub mod Muto
pub mod Telemetry
pub mod Slot
pub mod Callbacks
mod Keeps
mod Served
pub mod Released
mod Stopped
pub mod Faults
mod Tests
