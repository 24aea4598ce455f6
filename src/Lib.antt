-- ===== src/Lib.antt =====
-- The command layer of the Muto robot (src/muto_command_layer_v2), as definitions translated from its
-- Python and theorems about them. A mission is accepted by the executive, which owns the board (the
-- whole visible state of a mission) and an append-only log of events. The runtime asks a model for one
-- decision at a time through the commander's parser, passes its tool call to the dispatcher, which
-- guards it and calls a backend (registry, vision, navigation), and records the result with the
-- executive, whose guards decide what may change the board. Below the navigation, the ROS driver maps
-- velocities to levels, advances the gait by one phase in each control slot, and owns the serial port.
--
--   Prelude          names passed on, lists, integers, text, and the interface of floats
--   Result           exceptions as values, with the classes of the command layer
--   Contracts        contracts.py: enumerations and dataclasses, their constructors' checks, and the
--                    predicate that an evidence satisfies the whole object request
--   Executive        executive.py: State (MissionExecutive, _emit), Guards, Lifecycle, Observe,
--                    ToolReport and ToolResult (record_tool_result); Calls is the public interface, as
--                    data. Steps names the changes of a board with the guards of the code, and
--                    Simulation sorts the calls by them; Soundness, Life, Confirmation, Log, Atomic,
--                    Decides and Rejection are proofs
--   Tools            tools.py: Call (ToolCall, ToolResult), Dispatcher (ToolDispatcher), and Lanes, the
--                    interleavings of threads; Json is what the planner's reply is made of
--   Commander        commander.py: _strict_dict, parse_decision and decide; Decisions and Raises
--   Runtime          runtime.py: Rounds (limits, completion, use of a tool), Loop (run); Client,
--                    Limits, Rejected, Unusable and Escapes are proofs
--   Serial           src/muto_hexapod_lib_custom/muto_hexapod_lib_custom: Bytes, Frames
--                    (core/MutoLibCore.py: _send, _read, _extract_payload), Servo (core/servo.py, and
--                    buzzer and _set_servo_torque), Motors (read_motor); Phase, RoundTrip and Found are
--                    proofs
--   Gait             movement/gait.py of the same package: Plan (GaitPlan, its phases), and Latch
--                    (core/hexapod.py: set_command, tick); Cycle, Latched and Commands are proofs
--   Reachability     reachability.py: Grid (OccupancyGrid, cells and their places), Flood (_flood_fill),
--                    Planner (ReachabilityPlanner), Reads (_safe_cells with the reads that Python makes);
--                    Walks is what a path is, and Sets, Scan, Found,
--                    Footprint, Bounds, Snap, Preflight, Agreement and Routes are proofs
--   Poi              poi_grid.py: PoiGridPlanner; Selected is proofs
--   Backends         backend_adapters.py: Authorities (the two interfaces behind the adapter), Registry
--                    (query_registry, inspect_candidates), Motion (the other methods of V2ToolBackend);
--                    Attributes, Weighed, Confirmed, Accepted and Approach are proofs
--   Driver           src/yahboomcar_bringup/yahboomcar_bringup/muto_driver.py: Selection (the dataclasses
--                    of a selected velocity, the legacy mapping), Scheduler (TelemetryScheduler), State
--                    (the driver, the hardware, the monad), Muto (core/MutoLibCore.py as it is used),
--                    Telemetry, Slot (update_locomotion) and Callbacks (the others, and sequences of
--                    them); Keeps, Served, Stopped, Released and Faults are proofs
--
-- A method of the source is a function from the state to a result and a state, so that what it wrote
-- before it raised is kept. Names are those of the source; a keyword's default is written out by the
-- caller. `Method` of Executive.State and of Runtime.State and `Handler` of Driver.State are the three
-- monads.
--
-- Floats are a parameter: a type with the operations that the code uses and two laws of zero, which
-- hold in IEEE 754; `whole` in Prelude is an instance, for tests. Coercions (Tools.Json) holds what
-- Python's float() of an integer, str() of a JSON value and the text of a list of keys are. The model,
-- the backend and the test for a cancellation are arguments of the runtime and act on a world of any
-- type. Evidence objects are objects already: the conversion of dictionaries is not modelled, and
-- likewise that of strings to enumerations where the executive is called. The on_update callback is
-- taken to return and to change nothing here.
--
-- The loop of run has no bound of its own. It takes a number of rounds as fuel, and says whether it is
-- at its end; what is shown of runs holds for every number of rounds.
--
-- The flood fill takes one round more than there are safe cells, which is shown to be enough: a cell
-- enters the queue once. Floats are read through three more interfaces: Arithmetic (maps), Positions
-- (comparisons of places) and Amplitudes (the latch of the gait). A driver runs any finite sequence of
-- callbacks, of which the first that raises is the last. Sets are lists of their elements.
--
-- Not modelled: the ROS nodes, launch files, the transport to the model, the authorities behind the
-- adapter, the recorder, the calibrated mappings of a velocity (a parameter of the driver), the start
-- of the driver and what it logs, the kinematics of the legs (a parameter of the tick), and the
-- packages in C++. Of the serial port, only what is written and the bytes that were read appear: its
-- timeouts and the wait of _read are not modelled, and a write that fails is one of the driver's port.
-- Servo numbers, angles and run times are integers already, where the source converts them with int().
-- The paths of a gait and the test that a foot is on the ground are a parameter (Geometry in
-- Gait.Plan), since they are trigonometry and comparisons on floats.
pub mod Prelude
pub mod Result
pub mod Contracts
pub mod Executive
pub mod Tools
pub mod Commander
pub mod Runtime
pub mod Serial
pub mod Gait
pub mod Reachability
pub mod Poi
pub mod Backends
pub mod Driver
