-- ===== src/Tools.antt =====
-- The tool boundary of the command layer (src/muto_command_layer_v2/tools.py): the calls that the
-- commander makes, the results of the backend, and the dispatcher between them.
pub mod Json
pub mod Call
pub mod Dispatcher
pub mod Lanes
