-- ===== src/Driver/Callbacks.antt =====
-- The other callbacks of `yahboomcar_driver` (muto_driver.py): the command of a velocity, the release
-- of the motors, the angles of the joints, and the buzzer; and sequences of callbacks.
use muto_rs_deployment_test.Prelude.{
  ℕ, zero, suc, ◌+◌, Bool, true, false, Option, none, some, List, [], ◌∷◌, String, ◌<>◌, Floats,
  eqb, length, if◌then◌else◌,
}
use muto_rs_deployment_test.Prelude.Integers.{ℤ}
use muto_rs_deployment_test.Result.{Failure, Result, ok, err, message}
use muto_rs_deployment_test.Reachability.Grid.{Arithmetic}
use muto_rs_deployment_test.Gait.Plan.{Geometry, CommandedGaitState}
use muto_rs_deployment_test.Gait.Latch.{Amplitudes}
use muto_rs_deployment_test.Driver.Selection.{VelocitySelection, legacy_velocity_selection}
use muto_rs_deployment_test.Driver.State.{
  Hardware, Settings, Handler, ◌>>=◌, ◌>>◌, lift, return, try, with_driver, ask, perform_io, modify,
}
use muto_rs_deployment_test.Driver.Muto.{
  standby_selection, commanded_gait_state, publish_active, servo_torque_off, buzz,
}
use muto_rs_deployment_test.Driver.Slot.{
  with_selection, released, commanded, commanded_at, update_locomotion,
}

-- what `get_motor_angles` answers
pub data MotorAngles (F P : Type 0) : Type 0 where
  motors_released no_commanded_gait_sample : MotorAngles F P
  read_motor_failed : String → MotorAngles F P
  invalid_motor_angle_data : List ℤ → MotorAngles F P
  -- the state, the angles, the age of the command and the time of the read
  motor_angles : CommandedGaitState F P → List ℤ → F → F → MotorAngles F P

-- what `release_motors` answers
pub data Release : Type 0 where
  release_failed : String → Release
  motors_off : Release

module _ {F P W : Type 0} ⦃fl : Floats F⦄ ⦃ar : Arithmetic F⦄ (geo : Geometry F P)
    (hw : Hardware F P W) (settings : Settings F) where
  -- the mapping that the driver is configured with
  abbrev pub select_velocity : F → F → F → Result (VelocitySelection F)
  select_velocity x y z = elim settings.velocity_mapper [
    | none ↦ legacy_velocity_selection x y z settings.locomotion_update_rate_hz
    | some (select, id) ↦ select x y z
  ]

  abbrev pub finite_or_zero : F → F
  finite_or_zero x = if fl.is_finite x then x else fl.zero_f

  -- A velocity that is not valid is a command to stand.
  abbrev pub or_standby : F → F → F → Result (VelocitySelection F) → Result (VelocitySelection F)
  or_standby x y z (ok selection) = ok selection
  or_standby x y z (err (Failure.value_error why)) =
      standby_selection settings ("invalid cmd_vel: " <> why) false (finite_or_zero x)
        (finite_or_zero y) (finite_or_zero z)
  or_standby x y z (err e) = err e

  abbrev pub accept_velocity : F → F → F → Handler F P W (Unit {0})
  accept_velocity x y z = do
    selection ← lift (or_standby x y z (select_velocity x y z))
    modify (commanded selection)
    now ← ask hw.clock
    modify (commanded_at now)
    publish_active geo hw selection

  -- `cmd_vel_callback`
  unfoldable pub cmd_vel_callback : F → F → F → Handler F P W (Unit {0})
  unfolding legacy_velocity_selection standby_selection
  cmd_vel_callback x y z =
      with_driver λ d. if d.motors_released then return tt else accept_velocity x y z

  abbrev pub angles_or_none : Option (List ℤ) → List ℤ
  angles_or_none none = []
  angles_or_none (some angles) = angles

  -- the answer, with the age of the command, and the time that the read took
  abbrev pub answer_angles :
      CommandedGaitState F P → F → F → List ℤ → Handler F P W (MotorAngles F P)
  answer_angles state sent duration angles = do
    now ← ask hw.clock
    return (MotorAngles.motor_angles state angles (ar.sub_f now sent) duration)

  abbrev pub checked_angles :
      CommandedGaitState F P → F → F → List ℤ → Handler F P W (MotorAngles F P)
  checked_angles state sent duration angles =
      if eqb (length angles) 18
      then answer_angles state sent duration angles
      else return (MotorAngles.invalid_motor_angle_data angles)

  abbrev pub after_read :
      CommandedGaitState F P → F → F → Option (List ℤ) → Handler F P W (MotorAngles F P)
  after_read state sent start angles = do
    finish ← ask hw.clock
    checked_angles state sent (ar.sub_f finish start) (angles_or_none angles)

  abbrev pub read_angles : F → F → Handler F P W (MotorAngles F P)
  read_angles sent start = with_driver λ d.
      try (perform_io hw.read_motor) (λ e. return (MotorAngles.read_motor_failed (message e)))
        (after_read (commanded_gait_state geo d.muto) sent start)

  abbrev pub angles_since : Option F → Handler F P W (MotorAngles F P)
  angles_since none = return MotorAngles.no_commanded_gait_sample
  angles_since (some sent) = do start ← ask hw.clock; read_angles sent start

  -- `get_motor_angles_callback`
  unfoldable pub get_motor_angles_callback : Handler F P W (MotorAngles F P)
  get_motor_angles_callback = with_driver λ d.
      if d.motors_released
      then return MotorAngles.motors_released
      else angles_since d.last_gait_command_monotonic

  -- `for servo_id in range(first, first + n)`
  abbrev pub torque_off_from : ℕ → ℕ → Handler F P W (Unit {0})
  torque_off_from first zero = return tt
  torque_off_from first (suc n) = do servo_torque_off geo hw first; torque_off_from (first + 1) n

  abbrev pub report_release : Handler F P W Release
  report_release = do
    selection ←
        lift (standby_selection settings "motor torque released" true fl.zero_f fl.zero_f fl.zero_f)
    modify (with_selection selection)
    publish_active geo hw selection
    return Release.motors_off

  -- `release_motors_callback`
  unfoldable pub release_motors_callback : Handler F P W Release
  unfolding servo_torque_off standby_selection
  release_motors_callback = do
    modify released
    try (torque_off_from 1 18) (λ e. return (Release.release_failed (message e)))
        (λ _. report_release)

  -- `Buzzercallback`
  unfoldable pub buzzer_callback : Bool → Handler F P W (Unit {0})
  unfolding buzz
  buzzer_callback on = do
    buzz geo hw (if on then 255 else 0)
    buzz geo hw (if on then 255 else 0)
    buzz geo hw (if on then 255 else 0)

-- what the executor calls
pub data Callback (F : Type 0) : Type 0 where
  control_slot get_motor_angles release_motors : Callback F
  cmd_vel : F → F → F → Callback F
  buzzer : Bool → Callback F

module _ {F P W : Type 0} ⦃fl : Floats F⦄ ⦃ar : Arithmetic F⦄ ⦃am : Amplitudes F⦄
    (geo : Geometry F P) (hw : Hardware F P W) (settings : Settings F) where
  unfoldable pub call_back : Callback F → Handler F P W (Unit {0})
  unfolding update_locomotion get_motor_angles_callback release_motors_callback cmd_vel_callback
      buzzer_callback
  call_back Callback.control_slot = update_locomotion geo hw settings
  call_back Callback.get_motor_angles = do _ ← get_motor_angles_callback geo hw settings; return tt
  call_back Callback.release_motors = do _ ← release_motors_callback geo hw settings; return tt
  call_back (Callback.cmd_vel x y z) = cmd_vel_callback geo hw settings x y z
  call_back (Callback.buzzer on) = buzzer_callback geo hw settings on

  -- `rclpy.spin`: what a callback raises ends it
  unfoldable pub spin : List (Callback F) → Handler F P W (Unit {0})
  unfolding call_back
  spin [] = return tt
  spin (c ∷ cs) = do call_back c; spin cs
