-- ===== src/Serial.antt =====
-- The serial protocol of the robot's controller (src/muto_hexapod_lib_custom/muto_hexapod_lib_custom/
-- core/MutoLibCore.py and core/servo.py): the frames that are written and read.
pub mod Bytes
pub mod Frames
pub mod Servo
pub mod Phase
pub mod RoundTrip
pub mod Motors
pub mod Found
mod Tests
