-- ===== src/Driver/Tests.antt =====
-- A driver whose floats are whole numbers (muto_driver.py), and the theorems at it. Its world is the
-- time, which each reading advances, the number of movements of the legs, and the packets written.
use muto_rs_deployment_test.Prelude.{
  ℕ, ◌+◌, Bool, true, false, Option, none, some, List, [], ◌∷◌, length, eqb, ◌≡◌, refl, whole,
}
use muto_rs_deployment_test.Result.{Result, ok, err, io_error}
use muto_rs_deployment_test.Reachability.Grid.{whole_arithmetic}
use muto_rs_deployment_test.Gait.Plan.{Geometry, configure, next_step}
use muto_rs_deployment_test.Gait.Latch.{
  Amplitudes, new_hexapod, classify_command, apply_command, set_command, advance, tick,
}
use muto_rs_deployment_test.Serial.Frames.{command_packet}
use muto_rs_deployment_test.Driver.Selection.{zero_levels, planar_velocity}
use muto_rs_deployment_test.Driver.Scheduler.{
  telemetry_scheduler, advance_periodic_deadline, mark_attempted,
}
use muto_rs_deployment_test.Driver.State.{Hardware, Settings, Bench}
use muto_rs_deployment_test.Driver.Muto.{
  standby_selection, servo_torque_off, publish_commanded_gait_state, set_motion_command,
  tick_motion,
}
use muto_rs_deployment_test.Driver.Telemetry.{
  available_telemetry_response_timeout, poll_outcome, service_imu_telemetry,
  maybe_publish_imu_telemetry_status,
}
use muto_rs_deployment_test.Driver.Slot.{prepare_tick, drive, update_locomotion}
use muto_rs_deployment_test.Driver.Callbacks.{Callback, release_motors_callback, call_back, spin}
use muto_rs_deployment_test.Driver.Released.{release_motors-IsFinal}
use muto_rs_deployment_test.Driver.Faults.{fault-Stops}

abbrev F : Type 0
F = Option ℕ

abbrev is_zero : F → Bool
is_zero none = false
is_zero (some n) = eqb n 0

abbrev eq_key : F → F → Bool
eq_key (some a) (some b) = eqb a b
eq_key _ _ = false

instance abbrev whole_amplitudes : Amplitudes F
whole_amplitudes = record { is_zero = is_zero; round6 = λ n. n; zero_key = some 0; eq_key = eq_key }

abbrev numbers : Geometry F ℕ
numbers = record {
  zero_level = some 0;
  standby = 0;
  forward = λ x phase. phase;
  lateral = λ y phase. phase;
  twist = λ x z phase. phase;
  stance = λ p. true ∷ [];
}

record World : Type 0 where
  time : ℕ
  moves : ℕ
  packets : List (List ℕ)

abbrev port : (ℕ → World → Result (Unit {0}) × World) → Hardware F ℕ World
port dispatch = record {
  clock = λ w. (some w.time, record w { time = w.time + 1 });
  write = λ packet w. (ok tt, record w { packets = packet ∷ w.packets });
  dispatch = dispatch;
  read_motor = λ w. (ok none, w);
  publish_gait = λ state w. w;
  publish_motion = λ selection state rate w. w;
  publish_status = λ state w. w;
  publish_imu_data = λ timeout w. (true, w);
  publish_controller_attitude = λ timeout w. (true, w);
  note_poll_skipped = λ w. w;
  note_attitude_poll_skipped = λ w. w;
}

abbrev working : Hardware F ℕ World
working = port (λ p w. (ok tt, record w { moves = w.moves + 1 }))

abbrev broken : Hardware F ℕ World
broken = port (λ p w. (err (io_error "partial serial write"), w))

abbrev legacy : Settings F
legacy = record {
  locomotion_update_rate_hz = some 1;
  cmd_vel_timeout = some 0;
  imu_locomotion_guard_sec = some 0;
  response_timeout_sec = some 1;
  minimum_transaction_budget_sec = some 1;
  telemetry_status_period_sec = some 1;
  velocity_mapper = none;
}

abbrev started : Bench F ℕ World
started = record {
  driver = record {
    muto = new_hexapod numbers;
    velocity = zero_levels;
    desired_motion_levels = record { x = some 5; y = some 0; z = some 0 };
    last_velocity_selection = none;
    last_cmd_vel_monotonic = some (some 0);
    last_gait_command_monotonic = none;
    last_locomotion_tick_monotonic = none;
    gait_phase_monotonic_times = [];
    observed_phase_rate_hz = some 0;
    cmd_vel_timed_out = false;
    motors_released = false;
    telemetry_scheduler = telemetry_scheduler (some 1) (some 1) (some 0);
    counters = record {
      control_slots = 0;
      idle_slots = 0;
      raw_selected = 0;
      attitude_selected = 0;
      raw_deferred = 0;
      attitude_deferred = 0;
      status_published = 0;
    };
    last_selected_telemetry_endpoint = none;
    next_telemetry_status_monotonic = some 0;
  };
  world = record { time = 1; moves = 0; packets = [] };
}

-- A slot moves the legs once.
slot_test : (update_locomotion numbers working legacy started).1.world.moves ≡ 1
unfolding update_locomotion prepare_tick drive set_motion_command tick_motion
    publish_commanded_gait_state classify_command apply_command set_command advance tick configure
    next_step service_imu_telemetry maybe_publish_imu_telemetry_status poll_outcome
    available_telemetry_response_timeout mark_attempted advance_periodic_deadline
slot_test = refl

-- A release writes eighteen packets.
release_test :
    length (call_back numbers working legacy Callback.release_motors started).1.world.packets ≡ 18
unfolding call_back release_motors_callback servo_torque_off command_packet standby_selection
    planar_velocity
release_test = refl

release_motors-IsFinal_example :
    ((spin numbers working legacy
        (Callback.release_motors
          ∷ Callback.cmd_vel (some 1) (some 0) (some 0)
          ∷ Callback.control_slot
          ∷ [])
        started).1.driver.motors_released
      ≡ true)
    × ((spin numbers working legacy
          (Callback.release_motors
            ∷ Callback.cmd_vel (some 1) (some 0) (some 0)
            ∷ Callback.control_slot
            ∷ [])
          started).1.driver.muto
        ≡ new_hexapod numbers)
    × ((spin numbers working legacy
          (Callback.release_motors
            ∷ Callback.cmd_vel (some 1) (some 0) (some 0)
            ∷ Callback.control_slot
            ∷ [])
          started).1.world.moves
        ≡ 0)
release_motors-IsFinal_example =
    release_motors-IsFinal numbers working legacy (λ w. w.moves ≡ 0)
      (record {
        by_clock = λ w k. k;
        by_write = λ packet w k. k;
        by_read = λ w k. k;
        by_motion = λ selection state rate w k. k;
        by_status = λ state w k. k;
        by_imu = λ timeout w k. k;
        by_attitude = λ timeout w k. k;
        by_skip = λ w k. k;
        by_attitude_skip = λ w k. k;
      })
      (Callback.cmd_vel (some 1) (some 0) (some 0) ∷ Callback.control_slot ∷ []) started refl

abbrev ready : Bench F ℕ World
ready = record {
  driver = record started.driver { last_locomotion_tick_monotonic = some (some 1) };
  world = record { time = 3; moves = 0; packets = [] };
}

fault-Stops_example :
    (prepare_tick numbers broken legacy
      (some 9)
      (spin numbers broken legacy (Callback.control_slot ∷ Callback.control_slot ∷ []) started).1).0
    ≡ ok zero_levels
unfolding prepare_tick drive set_motion_command tick_motion classify_command apply_command
    set_command advance tick configure next_step
fault-Stops_example =
    fault-Stops numbers broken legacy (Callback.control_slot ∷ []) started ready
      (record { x = some 5; y = some 0; z = some 0 }) (io_error "partial serial write") (some 9)
      refl refl refl refl refl
