-- ===== src/Driver/Stopped.antt =====
-- A stopped driver stays stopped in its control slots (muto_driver.py), whether their motion fails or
-- not; and the handler of a failure stops it.
use muto_rs_deployment_test.Prelude.{
  true, false, Option, none, some, Floats, ◌≡◌, refl, if-cases, ◌<>◌,
}
use muto_rs_deployment_test.Result.{Failure, message}
use muto_rs_deployment_test.Reachability.Grid.{Arithmetic}
use muto_rs_deployment_test.Gait.Plan.{Geometry, Levels, CommandedGaitState}
use muto_rs_deployment_test.Gait.Latch.{Amplitudes, set_command, tick}
use muto_rs_deployment_test.Driver.Selection.{VelocitySelection, zero_levels}
use muto_rs_deployment_test.Driver.State.{
  Hardware, Settings, Bench, Handler, ◌>>=◌, lift, return, modify,
}
use muto_rs_deployment_test.Driver.Muto.{
  normalize_motion_command, note_phase, standby_selection, publish_active, publish_last,
  publish_commanded_gait_state, with_muto, with_tick, set_motion_command, tick_motion,
}
use muto_rs_deployment_test.Driver.Telemetry.{telemetry}
use muto_rs_deployment_test.Driver.Slot.{
  is_motion_fault, with_timed_out, with_selection, stopped, drive, or_raise, latch_standby,
  stop_after, finish_slot, drive_slot,
}
use muto_rs_deployment_test.Driver.Keeps.{
  Core, Undisturbed, and_then-Keeps, try-Keeps, Holds, publish_active-Keeps, telemetry-Keeps,
}

abbrev pub Anything : {W : Type 0} → W → Type 0
Anything w = Unit

-- No command is left.
abbrev pub IsStopped : {F P : Type 0} → ⦃fl : Floats F⦄ → Core F P → Type 0
IsStopped c = (c.last_cmd_vel_monotonic ≡ none) × (c.desired_motion_levels ≡ zero_levels)

module _ {F P W : Type 0} ⦃fl : Floats F⦄ where
  abbrev pub Stands : Bench F P W → Type 0
  Stands s = Holds IsStopped Anything s

module _ {F P W : Type 0} ⦃fl : Floats F⦄ ⦃ar : Arithmetic F⦄ ⦃am : Amplitudes F⦄
    (geo : Geometry F P) (hw : Hardware F P W) (settings : Settings F) where
  pub undisturbed : Undisturbed hw Anything
  undisturbed = record {
    by_clock = λ w k. tt;
    by_write = λ packet w k. tt;
    by_read = λ w k. tt;
    by_motion = λ selection state rate w k. tt;
    by_status = λ state w k. tt;
    by_imu = λ timeout w k. tt;
    by_attitude = λ timeout w k. tt;
    by_skip = λ w k. tt;
    by_attitude_skip = λ w k. tt;
  }

  pub telemetry-Stands : (s : Bench F P W) → Stands s → Stands (telemetry geo hw settings s).1
  telemetry-Stands = telemetry-Keeps geo hw settings IsStopped Anything undisturbed

  publish-Stands :
      (selection : VelocitySelection F) (s : Bench F P W)
      → Stands s
      → Stands (publish_active geo hw selection s).1
  publish-Stands = publish_active-Keeps geo hw settings IsStopped Anything undisturbed

  set_motion_command-Stands :
      (l : Levels F) (s : Bench F P W) → Stands s → Stands (set_motion_command geo hw l s).1
  unfolding set_motion_command
  set_motion_command-Stands l =
      and_then-Keeps (lift (normalize_motion_command l))
        (λ levels s. with_muto geo s (set_command geo levels s.driver.muto)) (λ s i. i)
        (λ levels s i. i)

  publish_last-Stands :
      (o : Option (VelocitySelection F)) (state : CommandedGaitState F P) (s : Bench F P W)
      → Stands s
      → Stands (publish_last geo hw o state s).1
  publish_last-Stands none state s i = i
  publish_last-Stands (some selection) state s i = i

  publish_gait-Stands :
      (state : CommandedGaitState F P) (s : Bench F P W)
      → Stands s
      → Stands (publish_commanded_gait_state geo hw state s).1
  unfolding publish_commanded_gait_state
  publish_gait-Stands state s i =
      let (now, w) = hw.clock s.world in
      publish_last-Stands s.driver.last_velocity_selection state
        (record s { driver = note_phase now s.driver; world = hw.publish_gait state w }) i

  tick_motion-Stands : (s : Bench F P W) → Stands s → Stands (tick_motion geo hw s).1
  unfolding tick_motion
  tick_motion-Stands =
      and_then-Keeps (λ s. with_tick geo s (tick geo hw.dispatch s.driver.muto s.world))
        (publish_commanded_gait_state geo hw) (λ s i. i) publish_gait-Stands

  drive-Stands : (l : Levels F) (s : Bench F P W) → Stands s → Stands (drive geo hw settings l s).1
  unfolding drive
  drive-Stands l =
      and_then-Keeps (set_motion_command geo hw l) (λ _. tick_motion geo hw)
        (set_motion_command-Stands l) (λ _. tick_motion-Stands)

  or_raise-Stands :
      (e : Failure) (m : Handler F P W (Unit {0})) (s : Bench F P W)
      → Stands s
      → Stands (m s).1
      → Stands (or_raise geo hw settings e m s).1
  or_raise-Stands e m s i k =
      if-cases (λ (m : Handler F P W (Unit {0})). Stands (m s).1) (is_motion_fault e) (λ _. k)
        (λ _. i)

  latch_standby-Stands : (s : Bench F P W) → Stands s → Stands (latch_standby geo hw settings s).1
  latch_standby-Stands =
      try-Keeps (set_motion_command geo hw zero_levels)
        (λ e. or_raise geo hw settings e (return tt)) (λ _. return tt)
        (set_motion_command-Stands zero_levels) (λ e s i. or_raise-Stands e (return tt) s i i)
        (λ _ s i. i)

  -- Whatever the state was, the handler of a fault stops.
  pub stop_after-Stands :
      (e : Failure) (s : Bench F P W) → Stands (stop_after geo hw settings e s).1
  unfolding stop_after
  stop_after-Stands e s =
      and_then-Keeps {I = Stands}
        (lift (
          standby_selection settings
            ("locomotion command rejected by gait/IK/servo boundary: " <> message e) false fl.zero_f
            fl.zero_f fl.zero_f))
        (λ selection. modify (with_selection selection) >>= λ _.
          publish_active geo hw selection >>= λ _.
          latch_standby geo hw settings >>= λ _. telemetry geo hw settings)
        (λ s i. i)
        (λ selection s i.
          and_then-Keeps {I = Stands} (publish_active geo hw selection)
            (λ _. latch_standby geo hw settings >>= λ _. telemetry geo hw settings)
            (publish-Stands selection)
            (λ _.
              and_then-Keeps {I = Stands} (latch_standby geo hw settings)
                (λ _. telemetry geo hw settings) latch_standby-Stands (λ _. telemetry-Stands))
            (record s { driver = with_selection selection s.driver }) i)
        (record s { driver = with_timed_out true (stopped s.driver) }) ((refl, refl), tt)

  finish_slot-Stands : (s : Bench F P W) → Stands s → Stands (finish_slot geo hw settings s).1
  finish_slot-Stands s i = telemetry-Stands (record s { world = (hw.clock s.world).1 }) i

  pub drive_slot-Stands :
      (l : Levels F) (s : Bench F P W) → Stands s → Stands (drive_slot geo hw settings l s).1
  drive_slot-Stands l =
      try-Keeps (drive geo hw settings l)
        (λ e. or_raise geo hw settings e (stop_after geo hw settings e))
        (λ _. finish_slot geo hw settings) (drive-Stands l)
        (λ e s i. or_raise-Stands e (stop_after geo hw settings e) s i (stop_after-Stands e s))
        (λ _. finish_slot-Stands)
