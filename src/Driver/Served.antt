-- ===== src/Driver/Served.antt =====
-- The callbacks that answer (muto_driver.py): the release of the motors, the angles of the joints and
-- the buzzer leave the gait as it is.
use muto_rs_deployment_test.Prelude.{
  ℕ, zero, suc, ◌+◌, Bool, true, Option, none, some, List, Floats, eqb, length, if-cases,
  if◌then◌else◌,
}
use muto_rs_deployment_test.Prelude.Integers.{ℤ}
use muto_rs_deployment_test.Result.{message}
use muto_rs_deployment_test.Reachability.Grid.{Arithmetic}
use muto_rs_deployment_test.Gait.Plan.{Geometry, CommandedGaitState}
use muto_rs_deployment_test.Driver.State.{
  Hardware, Settings, Bench, Handler, ◌>>=◌, lift, return, ask, perform_io, modify,
}
use muto_rs_deployment_test.Driver.Muto.{
  standby_selection, commanded_gait_state, publish_active, servo_torque_off, buzz,
}
use muto_rs_deployment_test.Driver.Slot.{with_selection, released}
use muto_rs_deployment_test.Driver.Callbacks.{
  MotorAngles, Release, checked_angles, angles_or_none, after_read, read_angles, angles_since,
  get_motor_angles_callback, torque_off_from, report_release, release_motors_callback,
  buzzer_callback,
}
use muto_rs_deployment_test.Driver.Keeps.{
  Core, Undisturbed, and_then-Keeps, try-Keeps, Holds, clock-Keeps, publish_active-Keeps,
  buzz-Keeps, servo_torque_off-Keeps,
}

module _ {F P W : Type 0} ⦃fl : Floats F⦄ ⦃ar : Arithmetic F⦄ (geo : Geometry F P)
    (hw : Hardware F P W) (settings : Settings F) (D : Core F P → Type 0) (K : W → Type 0)
    (u : Undisturbed hw K) where
  checked_angles-Keeps :
      (state : CommandedGaitState F P) (sent duration : F) (angles : List ℤ) (s : Bench F P W)
      → Holds D K s
      → Holds D K (checked_angles geo hw settings state sent duration angles s).1
  checked_angles-Keeps state sent duration angles s i =
      if-cases (λ (m : Handler F P W (MotorAngles F P)). Holds D K (m s).1) (eqb (length angles) 18)
        (λ _. clock-Keeps geo hw settings D K u s i) (λ _. i)

  read_angles-Keeps :
      (sent start : F) (s : Bench F P W)
      → Holds D K s
      → Holds D K (read_angles geo hw settings sent start s).1
  read_angles-Keeps sent start s i =
      let state = commanded_gait_state geo s.driver.muto in
      try-Keeps {I = Holds D K} (perform_io hw.read_motor)
        (λ e. return (MotorAngles.read_motor_failed (message e)))
        (after_read geo hw settings state sent start) (λ s (d, k). (d, u.by_read s.world k))
        (λ e s i. i)
        (λ angles.
          and_then-Keeps (ask hw.clock)
            (λ finish.
              checked_angles geo hw settings state sent (ar.sub_f finish start)
                (angles_or_none geo hw settings angles))
            (clock-Keeps geo hw settings D K u)
            (λ finish.
              checked_angles-Keeps state sent (ar.sub_f finish start)
                (angles_or_none geo hw settings angles)))
        s i

  angles_since-Keeps :
      (sent : Option F) (s : Bench F P W)
      → Holds D K s
      → Holds D K (angles_since geo hw settings sent s).1
  angles_since-Keeps none s i = i
  angles_since-Keeps (some sent) s i =
      and_then-Keeps (ask hw.clock) (read_angles geo hw settings sent)
        (clock-Keeps geo hw settings D K u) (read_angles-Keeps sent) s i

  pub get_motor_angles_callback-Keeps :
      (s : Bench F P W) → Holds D K s → Holds D K (get_motor_angles_callback geo hw settings s).1
  unfolding get_motor_angles_callback
  get_motor_angles_callback-Keeps s i =
      if-cases (λ (m : Handler F P W (MotorAngles F P)). Holds D K (m s).1) s.driver.motors_released
        (λ _. i) (λ _. angles_since-Keeps s.driver.last_gait_command_monotonic s i)

  torque_off_from-Keeps :
      (first n : ℕ) (s : Bench F P W)
      → Holds D K s
      → Holds D K (torque_off_from geo hw settings first n s).1
  torque_off_from-Keeps first zero s i = i
  torque_off_from-Keeps first (suc n) s i =
      and_then-Keeps (servo_torque_off geo hw first)
        (λ _. torque_off_from geo hw settings (first + 1) n)
        (servo_torque_off-Keeps geo hw settings D K u first)
        (λ _. torque_off_from-Keeps (first + 1) n) s i

  report_release-Keeps :
      (s : Bench F P W) → Holds D K s → Holds D K (report_release geo hw settings s).1
  report_release-Keeps =
      and_then-Keeps
        (lift
          (standby_selection settings "motor torque released" true fl.zero_f fl.zero_f fl.zero_f))
        (λ selection. modify (with_selection selection) >>= λ _.
          publish_active geo hw selection >>= λ _. return Release.motors_off)
        (λ s i. i)
        (λ selection s i.
          publish_active-Keeps geo hw settings D K u selection
            (record s { driver = with_selection selection s.driver }) i)

  -- From the state that the release writes, it goes on without a change to it.
  pub release_motors_callback-Keeps :
      (s : Bench F P W)
      → Holds D K (record s { driver = released s.driver })
      → Holds D K (release_motors_callback geo hw settings s).1
  unfolding release_motors_callback
  release_motors_callback-Keeps s i =
      try-Keeps {I = Holds D K} (torque_off_from geo hw settings 1 18)
        (λ e. return (Release.release_failed (message e))) (λ _. report_release geo hw settings)
        (torque_off_from-Keeps 1 18) (λ e s i. i) (λ _. report_release-Keeps)
        (record s { driver = released s.driver }) i

  pub buzzer_callback-Keeps :
      (on : Bool) (s : Bench F P W)
      → Holds D K s
      → Holds D K (buzzer_callback geo hw settings on s).1
  unfolding buzzer_callback
  buzzer_callback-Keeps on =
      let value = if on then 255 else 0 in
      let once = buzz geo hw value in
      and_then-Keeps once (λ _. once >>= λ _. once) (buzz-Keeps geo hw settings D K u value)
        (λ _.
          and_then-Keeps once (λ _. once) (buzz-Keeps geo hw settings D K u value)
            (λ _. buzz-Keeps geo hw settings D K u value))
