-- ===== src/Driver/State.antt =====
-- The state of `yahboomcar_driver` (muto_driver.py), what it was configured with, the hardware and the
-- ROS interfaces that it uses, and the monad of its callbacks.
use muto_rs_deployment_test.Prelude.{ℕ, Bool, Option, List, String, if◌then◌else◌}
use muto_rs_deployment_test.Prelude.Integers.{ℤ}
use muto_rs_deployment_test.Result.{Failure, Result, ok, err}
use muto_rs_deployment_test.Gait.Plan.{Levels, CommandedGaitState}
use muto_rs_deployment_test.Gait.Latch.{Dispatch, Hexapod}
use muto_rs_deployment_test.Driver.Selection.{VelocitySelection}
use muto_rs_deployment_test.Driver.Scheduler.{TelemetryScheduler, Endpoint}

-- What is outside of the driver, which acts on a world of type `W`: the clock, the port, the legs, the
-- publishers and the IMU. The IMU and the publishers are taken to return.
pub record Hardware (F P W : Type 0) : Type 0 where
  -- `time.monotonic`
  pub clock : W → F × W
  -- `Muto.write`
  pub write : List ℕ → W → Result (Unit {0}) × W
  -- the angles of the legs for the targets of their feet
  pub dispatch : Dispatch P W
  -- `Muto.read_motor`
  pub read_motor : W → Result (Option (List ℤ)) × W
  pub publish_gait : CommandedGaitState F P → W → W
  -- with the rate of phases that was observed
  pub publish_motion : VelocitySelection F → CommandedGaitState F P → F → W → W
  pub publish_status : CommandedGaitState F P → W → W
  -- `publish_imu_data` and `publish_controller_attitude`, within a time to respond
  pub publish_imu_data : F → W → Bool × W
  pub publish_controller_attitude : F → W → Bool × W
  pub note_poll_skipped : W → W
  pub note_attitude_poll_skipped : W → W

pub record Settings (F : Type 0) : Type 0 where
  pub locomotion_update_rate_hz : F
  pub cmd_vel_timeout : F
  pub imu_locomotion_guard_sec : F
  pub response_timeout_sec : F
  pub minimum_transaction_budget_sec : F
  pub telemetry_status_period_sec : F
  -- `velocity_mapper.select` and its profile, or none for the legacy mapping
  pub velocity_mapper : Option ((F → F → F → Result (VelocitySelection F)) × String)

-- The counters of telemetry are of slots and of endpoints.
pub record Counters : Type 0 where
  pub control_slots : ℕ
  pub idle_slots : ℕ
  pub raw_selected : ℕ
  pub attitude_selected : ℕ
  pub raw_deferred : ℕ
  pub attitude_deferred : ℕ
  pub status_published : ℕ

pub record Driver (F P : Type 0) : Type 0 where
  pub muto : Hexapod F P
  -- vel_x, vel_y and angular_z
  pub velocity : Levels F
  pub desired_motion_levels : Levels F
  pub last_velocity_selection : Option (VelocitySelection F)
  pub last_cmd_vel_monotonic : Option F
  pub last_gait_command_monotonic : Option F
  pub last_locomotion_tick_monotonic : Option F
  pub gait_phase_monotonic_times : List F
  pub observed_phase_rate_hz : F
  pub cmd_vel_timed_out : Bool
  pub motors_released : Bool
  pub telemetry_scheduler : TelemetryScheduler F
  pub counters : Counters
  pub last_selected_telemetry_endpoint : Option Endpoint
  pub next_telemetry_status_monotonic : F

-- the driver and what is outside of it
pub record Bench (F P W : Type 0) : Type 0 where
  pub driver : Driver F P
  pub world : W

-- A callback may raise; what it did before stays done.
abbrev pub Handler : Type 0 → Type 0 → Type 0 → Type 0 → Type 0
Handler F P W A = Bench F P W → Result A × Bench F P W

module _ {F P W A B : Type 0} where
  abbrev pub continue : Result A × Bench F P W → (A → Handler F P W B) → Result B × Bench F P W
  continue (ok a, s) f = f a s
  continue (err e, s) f = (err e, s)

  infixl 10 ◌>>=◌ ◌>>◌
  abbrev pub ◌>>=◌ : Handler F P W A → (A → Handler F P W B) → Handler F P W B
  ◌>>=◌ m f s = continue (m s) f

  abbrev pub ◌>>◌ : Handler F P W A → Handler F P W B → Handler F P W B
  ◌>>◌ m n s = continue (m s) (λ _. n)

  -- `try: ... except ... as exc: ...; else: ...`, where the handler gets what the try raised
  abbrev pub attempted :
      Result A × Bench F P W
      → (Failure → Handler F P W B)
      → (A → Handler F P W B)
      → Result B × Bench F P W
  attempted (ok a, s) handler next = next a s
  attempted (err e, s) handler next = handler e s

  abbrev pub try :
      Handler F P W A → (Failure → Handler F P W B) → (A → Handler F P W B) → Handler F P W B
  try m handler next s = attempted (m s) handler next

module _ {F P W A : Type 0} where
  abbrev pub return : A → Handler F P W A
  return a s = (ok a, s)

  abbrev pub lift : Result A → Handler F P W A
  lift r s = (r, s)

  abbrev pub with_driver : (Driver F P → Handler F P W A) → Handler F P W A
  with_driver f s = f s.driver s

  abbrev pub in_world : Bench F P W → A × W → Result A × Bench F P W
  in_world s (a, w) = (ok a, record s { world = w })

  -- what is asked of the world
  abbrev pub ask : (W → A × W) → Handler F P W A
  ask f s = in_world s (f s.world)

  abbrev pub raised_in_world : Bench F P W → Result A × W → Result A × Bench F P W
  raised_in_world s (r, w) = (r, record s { world = w })

  abbrev pub perform_io : (W → Result A × W) → Handler F P W A
  perform_io f s = raised_in_world s (f s.world)

module _ {F P W : Type 0} where
  abbrev pub modify : (Driver F P → Driver F P) → Handler F P W (Unit {0})
  modify f s = (ok tt, record s { driver = f s.driver })

  abbrev pub tell : (W → W) → Handler F P W (Unit {0})
  tell f s = (ok tt, record s { world = f s.world })

  abbrev pub unless : Bool → Handler F P W (Unit {0}) → Handler F P W (Unit {0})
  unless b m s = if b then (ok tt, s) else m s
