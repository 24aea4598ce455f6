-- ===== src/Driver/Faults.antt =====
-- A fault of the motion stops the robot (muto_driver.py): after it, and until a velocity is commanded,
-- a control slot drives to standby.
use muto_rs_deployment_test.Prelude.{
  Bool, true, false, not, Option, none, List, [], ◌∷◌, Floats, ◌≡◌, refl, sym, ap, ◌∙◌, any,
  if-cases, arith, if◌then◌else◌,
}
use mathlib.Core.Path.{subst}
use muto_rs_deployment_test.Result.{Failure, Result, ok, err}
use muto_rs_deployment_test.Reachability.Grid.{Arithmetic}
use muto_rs_deployment_test.Gait.Plan.{Geometry, Levels}
use muto_rs_deployment_test.Gait.Latch.{Amplitudes}
use muto_rs_deployment_test.Driver.Selection.{zero_levels}
use muto_rs_deployment_test.Driver.State.{
  Hardware, Settings, Driver, Bench, Handler, continue, attempted, ◌>>=◌, return, ask, modify,
  unless,
}
use muto_rs_deployment_test.Driver.Slot.{
  is_motion_fault, is_given, mark_tick, with_timed_out, command_stale, note_stale, publish_standby,
  prepare_tick, drive, or_raise, stop_after, finish_slot, drive_slot, motion_slot,
  update_locomotion,
}
use muto_rs_deployment_test.Driver.Callbacks.{
  Callback, get_motor_angles_callback, release_motors_callback, call_back, spin,
}
use muto_rs_deployment_test.Driver.Keeps.{continue-I, and_then-Keeps}
use muto_rs_deployment_test.Driver.Served.{
  get_motor_angles_callback-Keeps, release_motors_callback-Keeps, buzzer_callback-Keeps,
}
use muto_rs_deployment_test.Driver.Stopped.{
  IsStopped, Anything, Stands, undisturbed, telemetry-Stands, stop_after-Stands, drive_slot-Stands,
}

abbrev is_fault : {A : Type 0} → Result A → Bool
is_fault (ok a) = false
is_fault (err e) = is_motion_fault e

abbrev pub commands_velocity : {F : Type 0} → Callback F → Bool
commands_velocity (Callback.cmd_vel _ _ _) = true
commands_velocity _ = false

module _ {F P W : Type 0} ⦃fl : Floats F⦄ ⦃ar : Arithmetic F⦄ ⦃am : Amplitudes F⦄
    (geo : Geometry F P) (hw : Hardware F P W) (settings : Settings F) where
  note_stale-Stands :
      (d : Driver F P) (s : Bench F P W)
      → d.last_cmd_vel_monotonic ≡ none
      → Stands s
      → (t : Bench F P W) × (note_stale geo hw settings true d s ≡ (ok tt, t)) × Stands t
  note_stale-Stands d s none_is i =
      let Ends : Result (Unit {0}) × Bench F P W → Type 0 =
        λ out. (t : Bench F P W) × (out ≡ (ok tt, t)) × Stands t in
      if-cases Ends d.cmd_vel_timed_out (λ _. (s, refl, i))
        λ _.
          subst
            (λ (o : Option F). Ends (
              continue
                (unless (not (is_given o)) (publish_standby geo hw settings "cmd_vel timeout") s)
                (λ _. modify (with_timed_out true))))
            (sym none_is) (record s { driver = with_timed_out true s.driver }, refl, i)

  -- With no command, a slot prepares to drive to standby.
  prepare_tick-zero :
      (now : F) (s : Bench F P W)
      → Stands s
      → (t : Bench F P W) × (prepare_tick geo hw settings now s ≡ (ok zero_levels, t)) × Stands t
  unfolding prepare_tick
  prepare_tick-zero now s ((none_is, zero_is), _) =
      let marked = record s { driver = mark_tick now s.driver } in
      let Ends : Result (Levels F) × Bench F P W → Type 0 =
        λ out. (t : Bench F P W) × (out ≡ (ok zero_levels, t)) × Stands t in
      let next : Bool → Unit {0} → Handler F P W (Levels F) = λ stale _. ask hw.clock >>= λ _.
      return (if stale then zero_levels else s.driver.desired_motion_levels) in
      let (t, noted, i) = note_stale-Stands s.driver marked none_is ((none_is, zero_is), tt) in
      subst
        (λ stale. Ends (continue (note_stale geo hw settings stale s.driver marked) (next stale)))
        (sym (ap (λ (o : Option F). command_stale geo hw settings now o) none_is))
        (subst (λ (out : Result (Unit {0}) × Bench F P W). Ends (continue out (next true)))
          (sym noted) (record t { world = (hw.clock t.world).1 }, refl, i))

  -- A motion that fails stops.
  attempted-Stands :
      (out : Result (Unit {0}) × Bench F P W) (e : Failure)
      → out.0 ≡ err e
      → is_motion_fault e ≡ true
      → Stands
          (attempted out
            (λ e. or_raise geo hw settings e (stop_after geo hw settings e))
            (λ _. finish_slot geo hw settings)).1
  attempted-Stands (ok tt, s) e raised fault = absurd (ground (arith, raised))
  attempted-Stands (err why, s) e raised fault =
      let same : is_motion_fault why ≡ true = ap is_fault raised ∙ fault in
      if-cases (λ (m : Handler F P W (Unit {0})). Stands (m s).1) (is_motion_fault why)
        (λ _. stop_after-Stands geo hw settings why s) (λ f. absurd (ground (arith, f, same)))

  motion_slot-Stands :
      (now : F) (s : Bench F P W) → Stands s → Stands (motion_slot geo hw settings now s).1
  motion_slot-Stands now s i =
      let (t, prepared, k) = prepare_tick-zero now s i in
      subst
        (λ (out : Result (Levels F) × Bench F P W).
          Stands (continue out (drive_slot geo hw settings)).1)
        (sym prepared) (drive_slot-Stands geo hw settings zero_levels t k)

  update_locomotion-Stands :
      (s : Bench F P W) → Stands s → Stands (update_locomotion geo hw settings s).1
  unfolding update_locomotion
  update_locomotion-Stands s i =
      let (now, w) = hw.clock s.world in
      let read = record s { world = w } in
      if-cases (λ (m : Handler F P W (Unit {0})). Stands (m read).1) s.driver.motors_released
        (λ _. telemetry-Stands geo hw settings (record read { driver = mark_tick now s.driver }) i)
        (λ _. motion_slot-Stands now read i)

  call_back-Stands :
      (c : Callback F) (s : Bench F P W)
      → commands_velocity c ≡ false
      → Stands s
      → Stands (call_back geo hw settings c s).1
  unfolding call_back
  call_back-Stands Callback.control_slot s e i = update_locomotion-Stands s i
  call_back-Stands Callback.get_motor_angles s e i =
      and_then-Keeps (get_motor_angles_callback geo hw settings) (λ _. return tt)
        (get_motor_angles_callback-Keeps geo hw settings IsStopped Anything
          (undisturbed geo hw settings))
        (λ _ s i. i) s i
  call_back-Stands Callback.release_motors s e i =
      continue-I {I = Stands} (release_motors_callback geo hw settings s) (λ _. return tt)
        (release_motors_callback-Keeps geo hw settings IsStopped Anything
          (undisturbed geo hw settings) s ((refl, refl), tt))
        (λ _ s i. i)
  call_back-Stands (Callback.cmd_vel x y z) s e i = absurd (ground (arith, e))
  call_back-Stands (Callback.buzzer on) s e i =
      buzzer_callback-Keeps geo hw settings IsStopped Anything (undisturbed geo hw settings) on s i

  spin-Stands :
      (cs : List (Callback F)) (s : Bench F P W)
      → any commands_velocity cs ≡ false
      → Stands s
      → Stands (spin geo hw settings cs s).1
  unfolding spin
  spin-Stands [] s e i = i
  spin-Stands (c ∷ cs) s e i =
      continue-I {I = Stands} (call_back geo hw settings c s) (λ _. spin geo hw settings cs)
        (call_back-Stands c s (ground (arith, e)) i)
        (λ _ s i. spin-Stands cs s (ground (arith, e)) i)

  fault-Stands :
      (s ready : Bench F P W) (levels : Levels F) (e : Failure)
      → s.driver.motors_released ≡ false
      → (ask hw.clock >>= prepare_tick geo hw settings) s ≡ (ok levels, ready)
      → (drive geo hw settings levels ready).0 ≡ err e
      → is_motion_fault e ≡ true
      → Stands (call_back geo hw settings Callback.control_slot s).1
  unfolding call_back update_locomotion
  fault-Stands s ready levels e on prepared raised fault =
      let (now, w) = hw.clock s.world in
      let read = record s { world = w } in
      if-cases (λ (m : Handler F P W (Unit {0})). Stands (m read).1) s.driver.motors_released
        (λ off. absurd (ground (arith, on, off)))
        λ _.
          subst
            (λ (out : Result (Levels F) × Bench F P W).
              Stands (continue out (drive_slot geo hw settings)).1)
            (sym prepared) (attempted-Stands (drive geo hw settings levels ready) e raised fault)

  -- A control slot whose command or tick raises a ValueError, a RuntimeError or an OSError, while the
  -- motors are on, is followed by any callbacks but the command of a velocity: a further slot then
  -- prepares to drive with levels of zero, whatever the time.
  pub fault-Stops :
      (cs : List (Callback F)) (s ready : Bench F P W) (levels : Levels F) (e : Failure) (now : F)
      → s.driver.motors_released ≡ false
      → (ask hw.clock >>= prepare_tick geo hw settings) s ≡ (ok levels, ready)
      → (drive geo hw settings levels ready).0 ≡ err e
      → is_motion_fault e ≡ true
      → any commands_velocity cs ≡ false
      → (prepare_tick geo hw settings now (spin geo hw settings (Callback.control_slot ∷ cs) s).1).0
        ≡ ok zero_levels
  unfolding spin
  fault-Stops cs s ready levels e now on prepared raised fault quiet =
      let (t, zero_is, _) =
        prepare_tick-zero now (spin geo hw settings (Callback.control_slot ∷ cs) s).1 (
          continue-I {I = Stands} (call_back geo hw settings Callback.control_slot s)
            (λ _. spin geo hw settings cs) (fault-Stands s ready levels e on prepared raised fault)
            (λ _ s i. spin-Stands cs s quiet i)) in
      ap (λ (out : Result (Levels F) × Bench F P W). out.0) zero_is
