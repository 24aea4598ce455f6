-- ===== src/Driver/Muto.antt =====
-- `Muto` (core/MutoLibCore.py) as the driver uses it: the command of a motion, a tick, and torque; and
-- what the driver publishes of them (muto_driver.py).
use muto_rs_deployment_test.Prelude.{
  ℕ, Bool, true, Option, none, some, List, [], ◌∷◌, ◌++◌, String, ◌<>◌, Floats, leb, length, drop,
  if◌then◌else◌,
}
use muto_rs_deployment_test.Prelude.Integers.{ℤ}
use muto_rs_deployment_test.Result.{Result, ok, err, value_error}
use muto_rs_deployment_test.Reachability.Grid.{Arithmetic}
use muto_rs_deployment_test.Serial.Frames.{command_packet}
use muto_rs_deployment_test.Gait.Plan.{Geometry, Levels, CommandedGaitState, state_for}
use muto_rs_deployment_test.Gait.Latch.{Amplitudes, Hexapod, is_pending, set_command, tick}
use muto_rs_deployment_test.Driver.Selection.{
  VelocitySelection, bounded, negative_f, whole_f, planar_velocity, standby_of,
}
use muto_rs_deployment_test.Driver.State.{
  Hardware, Settings, Driver, Bench, Handler, ◌>>=◌, ◌>>◌, lift, return, with_driver, ask,
  perform_io, modify, tell,
}

-- the queue of the last times, of 100 at most
abbrev pub appended {ℓ} : {A : Type ℓ} → List A → A → List A
appended xs x = if leb 100 (length xs) then drop 1 xs ++ x ∷ [] else xs ++ x ∷ []

module _ {F : Type 0} ⦃fl : Floats F⦄ ⦃ar : Arithmetic F⦄ where
  -- `_finite_motion_value` and `_normalize_motion_command`; the result of the second is the clamp
  abbrev pub finite_motion_value : String → F → Result F
  finite_motion_value axis x =
      if fl.is_finite x
      then ok x
      else err (value_error ("motion command " <> axis <> " must be finite"))

  abbrev pub clamped : ℕ → F → F
  clamped bound x = bounded (negative_f (whole_f bound)) (whole_f bound) x

  abbrev pub normalized_to : Result F → Result F → Result F → Result (Levels F)
  normalized_to (ok x) (ok y) (ok z) =
      ok (record { x = clamped 30 x; y = clamped 30 y; z = clamped 20 z })
  normalized_to (err e) _ _ = err e
  normalized_to (ok _) (err e) _ = err e
  normalized_to (ok _) (ok _) (err e) = err e

  abbrev pub normalize_motion_command : Levels F → Result (Levels F)
  normalize_motion_command l =
      normalized_to (finite_motion_value "x" l.x) (finite_motion_value "y" l.y)
        (finite_motion_value "z" l.z)

  -- the rate of the phases in the queue, whose first time is given, if time has passed
  abbrev pub rate_since : List F → F → F → F
  rate_since [] now rate = rate
  rate_since (first ∷ rest) now rate =
      let elapsed = ar.sub_f now first in
      if leb 1 (length rest)
      then if fl.lt_f fl.zero_f elapsed then ar.div_f (whole_f (length rest)) elapsed else rate
      else rate

  abbrev pub note_phase : {P : Type 0} → F → Driver F P → Driver F P
  note_phase now d =
      let times = appended d.gait_phase_monotonic_times now in
      record d {
        last_gait_command_monotonic = some now;
        gait_phase_monotonic_times = times;
        observed_phase_rate_hz = rate_since times now d.observed_phase_rate_hz;
      }

  abbrev pub profile_id : Settings F → String
  profile_id c = elim c.velocity_mapper [ none ↦ "legacy_100" | some (select, id) ↦ id ]

  -- `_standby_selection`
  unfoldable pub standby_selection :
      Settings F → String → Bool → F → F → F → Result (VelocitySelection F)
  unfolding planar_velocity
  standby_selection c detail supported x y z = elim (planar_velocity x y z) [
    | err e ↦ err e
    | ok requested ↦
        ok (standby_of (profile_id c) c.locomotion_update_rate_hz detail supported requested)
  ]

module _ {F P : Type 0} (geo : Geometry F P) where
  -- `Hexapod.commanded_gait_state`
  abbrev pub commanded_gait_state : Hexapod F P → CommandedGaitState F P
  commanded_gait_state h = record (state_for geo true h.gait) {
    replacement_pending = is_pending h.pending_command;
  }

  abbrev pub with_muto :
      {W A : Type 0} → Bench F P W → Result A × Hexapod F P → Result A × Bench F P W
  with_muto s (r, h) = (r, record s { driver = record s.driver { muto = h } })

  abbrev pub with_tick :
      {W A : Type 0} → Bench F P W → Result A × (Hexapod F P × W) → Result A × Bench F P W
  with_tick s (r, (h, w)) = (r, record s { driver = record s.driver { muto = h }; world = w })

module _ {F P W : Type 0} (geo : Geometry F P) (hw : Hardware F P W) where
  -- `publish_motion_command_state`
  abbrev pub publish_motion_command_state :
      VelocitySelection F → CommandedGaitState F P → Handler F P W (Unit {0})
  publish_motion_command_state selection active =
      with_driver λ d. tell (hw.publish_motion selection active d.observed_phase_rate_hz)

  -- with the state that is active
  abbrev pub publish_active : VelocitySelection F → Handler F P W (Unit {0})
  publish_active selection =
      with_driver λ d. publish_motion_command_state selection (commanded_gait_state geo d.muto)

  abbrev pub publish_last :
      Option (VelocitySelection F) → CommandedGaitState F P → Handler F P W (Unit {0})
  publish_last none active = return tt
  publish_last (some selection) active = publish_motion_command_state selection active

  -- `Servo_torque_off`, of a number from 1 to 18
  unfoldable pub servo_torque_off : ℕ → Handler F P W (Unit {0})
  unfolding command_packet
  servo_torque_off servo_id = do
    packet ← lift (command_packet 0x27 (ℤ.pos servo_id ∷ []))
    perform_io (hw.write packet)

  -- `buzzer`
  unfoldable pub buzz : ℕ → Handler F P W (Unit {0})
  unfolding command_packet
  buzz timeout = do
    packet ← lift (command_packet 0x18 (ℤ.pos timeout ∷ []))
    perform_io (hw.write packet)

module _ {F P W : Type 0} ⦃fl : Floats F⦄ ⦃ar : Arithmetic F⦄ ⦃am : Amplitudes F⦄
    (geo : Geometry F P) (hw : Hardware F P W) where
  -- `publish_commanded_gait_state`
  unfoldable pub publish_commanded_gait_state : CommandedGaitState F P → Handler F P W (Unit {0})
  publish_commanded_gait_state state = do
    now ← ask hw.clock
    modify (note_phase now)
    tell (hw.publish_gait state)
    with_driver λ d. publish_last geo hw d.last_velocity_selection state

  -- `set_motion_command`
  unfoldable pub set_motion_command : Levels F → Handler F P W Bool
  unfolding set_command
  set_motion_command l = do
    levels ← lift (normalize_motion_command l)
    λ s. with_muto geo s (set_command geo levels s.driver.muto)

  -- `tick_motion`
  unfoldable pub tick_motion : Handler F P W (Unit {0})
  unfolding tick publish_commanded_gait_state
  tick_motion = do
    state ← (λ s. with_tick geo s (tick geo hw.dispatch s.driver.muto s.world))
    publish_commanded_gait_state state
