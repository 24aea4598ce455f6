-- ===== src/Driver/Slot.antt =====
-- The control slot of `yahboomcar_driver` (muto_driver.py), `update_locomotion`. What is logged is left
-- out.
use muto_rs_deployment_test.Prelude.{
  Bool, true, false, not, ◌&&◌, Option, none, some, String, ◌<>◌, Floats, if◌then◌else◌,
}
use muto_rs_deployment_test.Result.{Failure, err, message}
use muto_rs_deployment_test.Reachability.Grid.{Arithmetic}
use muto_rs_deployment_test.Gait.Plan.{Geometry, Levels}
use muto_rs_deployment_test.Gait.Latch.{Amplitudes}
use muto_rs_deployment_test.Driver.Selection.{VelocitySelection, zero_levels}
use muto_rs_deployment_test.Driver.State.{
  Hardware, Settings, Driver, Handler, ◌>>=◌, ◌>>◌, lift, return, try, with_driver, ask, modify,
  unless,
}
use muto_rs_deployment_test.Driver.Muto.{
  standby_selection, publish_active, set_motion_command, tick_motion,
}
use muto_rs_deployment_test.Driver.Telemetry.{telemetry}

-- `except (ValueError, RuntimeError, OSError)`: the other classes that the model has are not theirs
-- or do not reach the driver
abbrev pub is_motion_fault : Failure → Bool
is_motion_fault (Failure.value_error _) = true
is_motion_fault (Failure.io_error _) = true
is_motion_fault _ = false

abbrev pub is_given {ℓ} : {A : Type ℓ} → Option A → Bool
is_given none = false
is_given (some _) = true

module _ {F P : Type 0} where
  abbrev pub mark_tick : F → Driver F P → Driver F P
  mark_tick now d = record d { last_locomotion_tick_monotonic = some now }

  abbrev pub with_timed_out : Bool → Driver F P → Driver F P
  with_timed_out b d = record d { cmd_vel_timed_out = b }

  abbrev pub with_selection : VelocitySelection F → Driver F P → Driver F P
  with_selection selection d = record d { last_velocity_selection = some selection }

module _ {F P : Type 0} ⦃fl : Floats F⦄ where
  -- The levels and the time of the last command are forgotten.
  abbrev pub stopped : Driver F P → Driver F P
  stopped d = record d {
    desired_motion_levels = zero_levels;
    velocity = zero_levels;
    last_cmd_vel_monotonic = none;
  }

  abbrev pub released : Driver F P → Driver F P
  released d = record (stopped d) { motors_released = true }

  abbrev pub commanded : VelocitySelection F → Driver F P → Driver F P
  commanded selection d = record d {
    velocity = selection.levels;
    desired_motion_levels = selection.levels;
    last_velocity_selection = some selection;
  }

  abbrev pub commanded_at : F → Driver F P → Driver F P
  commanded_at now d = record d { last_cmd_vel_monotonic = some now }

module _ {F P W : Type 0} ⦃fl : Floats F⦄ ⦃ar : Arithmetic F⦄ ⦃am : Amplitudes F⦄
    (geo : Geometry F P) (hw : Hardware F P W) (settings : Settings F) where
  -- `command_stale`
  abbrev pub command_stale : F → Option F → Bool
  command_stale now none = true
  command_stale now (some last) =
      fl.lt_f fl.zero_f settings.cmd_vel_timeout
      && fl.lt_f settings.cmd_vel_timeout (ar.sub_f now last)

  abbrev pub publish_standby : String → Handler F P W (Unit {0})
  publish_standby detail = do
    selection ← lift (standby_selection settings detail true fl.zero_f fl.zero_f fl.zero_f)
    publish_active geo hw selection

  -- the first tick of a stale command reports it
  abbrev pub note_stale : Bool → Driver F P → Handler F P W (Unit {0})
  note_stale false d = modify (with_timed_out false)
  note_stale true d = unless d.cmd_vel_timed_out do
    unless (not (is_given d.last_cmd_vel_monotonic)) (publish_standby "cmd_vel timeout")
    modify (with_timed_out true)

  -- what a slot does before it drives, the start of which is timed: the levels to drive with
  unfoldable pub prepare_tick : F → Handler F P W (Levels F)
  unfolding standby_selection
  prepare_tick now = with_driver λ d. do
    modify (mark_tick now)
    note_stale (command_stale now d.last_cmd_vel_monotonic) d
    _ ← ask hw.clock
    return (
        if command_stale now d.last_cmd_vel_monotonic then zero_levels else d.desired_motion_levels)

  -- the command and the tick that a slot tries
  unfoldable pub drive : Levels F → Handler F P W (Unit {0})
  unfolding set_motion_command tick_motion
  drive levels = do _ ← set_motion_command geo hw levels; tick_motion geo hw

  abbrev pub or_raise : Failure → Handler F P W (Unit {0}) → Handler F P W (Unit {0})
  or_raise e m = if is_motion_fault e then m else lift (err e)

  abbrev pub latch_standby : Handler F P W (Unit {0})
  latch_standby =
      try (set_motion_command geo hw zero_levels) (λ e. or_raise e (return tt)) (λ _. return tt)

  -- the handler of a slot whose motion fails
  unfoldable pub stop_after : Failure → Handler F P W (Unit {0})
  unfolding set_motion_command standby_selection
  stop_after e = do
    modify (λ d. with_timed_out true (stopped d))
    let detail = "locomotion command rejected by gait/IK/servo boundary: " <> message e
    selection ← lift (standby_selection settings detail false fl.zero_f fl.zero_f fl.zero_f)
    modify (with_selection selection)
    publish_active geo hw selection
    latch_standby
    telemetry geo hw settings

  -- what follows the motion, whose time is read
  abbrev pub finish_slot : Handler F P W (Unit {0})
  finish_slot = do _ ← ask hw.clock; telemetry geo hw settings

  abbrev pub drive_slot : Levels F → Handler F P W (Unit {0})
  drive_slot levels = try (drive levels) (λ e. or_raise e (stop_after e)) (λ _. finish_slot)

  abbrev pub released_slot : F → Handler F P W (Unit {0})
  released_slot now = do modify (mark_tick now); telemetry geo hw settings

  abbrev pub motion_slot : F → Handler F P W (Unit {0})
  motion_slot now = do levels ← prepare_tick now; drive_slot levels

  -- `update_locomotion`
  unfoldable pub update_locomotion : Handler F P W (Unit {0})
  unfolding prepare_tick drive stop_after
  update_locomotion = do
    now ← ask hw.clock
    with_driver λ d. if d.motors_released then released_slot now else motion_slot now
