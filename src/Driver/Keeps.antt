-- ===== src/Driver/Keeps.antt =====
-- What every callback leaves as it is (muto_driver.py): telemetry and what is published change
-- neither the command nor the gait, nor any property of the world that their effects keep.
use muto_rs_deployment_test.Prelude.{
  ℕ, Bool, true, false, ◌&&◌, Option, none, some, List, [], ◌∷◌, Floats, if-cases,
}
use muto_rs_deployment_test.Prelude.Integers.{ℤ}
use muto_rs_deployment_test.Result.{Failure, Result, ok, err}
use muto_rs_deployment_test.Reachability.Grid.{Arithmetic}
use muto_rs_deployment_test.Serial.Frames.{command_packet}
use muto_rs_deployment_test.Gait.Plan.{Geometry, Levels, CommandedGaitState}
use muto_rs_deployment_test.Gait.Latch.{Hexapod}
use muto_rs_deployment_test.Driver.Selection.{VelocitySelection}
use muto_rs_deployment_test.Driver.Scheduler.{
  Endpoint, raw_due, attitude_due, select_endpoint, mark_attempted, advance_periodic_deadline,
}
use muto_rs_deployment_test.Driver.State.{
  Hardware, Settings, Driver, Bench, Handler, continue, ◌>>=◌, attempted, try, lift, return,
  with_driver, ask, perform_io, modify,
}
use muto_rs_deployment_test.Driver.Muto.{
  commanded_gait_state, publish_active, buzz, servo_torque_off,
}
use muto_rs_deployment_test.Driver.Telemetry.{
  count_slot, select_for, with_scheduler, with_status_at, timeout_since,
  available_telemetry_response_timeout, poll_within, poll_outcome, mark_if, serve,
  service_imu_telemetry, publish_status_at, maybe_publish_imu_telemetry_status, telemetry,
}

-- what telemetry does not write
pub record Core (F P : Type 0) : Type 0 where
  pub muto : Hexapod F P
  pub desired_motion_levels : Levels F
  pub last_cmd_vel_monotonic : Option F
  pub motors_released : Bool

abbrev pub core_of : {F P : Type 0} → Driver F P → Core F P
core_of d = record {
  muto = d.muto;
  desired_motion_levels = d.desired_motion_levels;
  last_cmd_vel_monotonic = d.last_cmd_vel_monotonic;
  motors_released = d.motors_released;
}

-- A property of the world that holds on whatever is asked of the hardware except that the legs move.
pub record Undisturbed {F P W : Type 0} (hw : Hardware F P W) (K : W → Type 0) : Type 0 where
  pub by_clock : (w : W) → K w → K (hw.clock w).1
  pub by_write : (packet : List ℕ) (w : W) → K w → K (hw.write packet w).1
  pub by_read : (w : W) → K w → K (hw.read_motor w).1
  pub by_motion :
      (selection : VelocitySelection F) (state : CommandedGaitState F P) (rate : F) (w : W)
      → K w
      → K (hw.publish_motion selection state rate w)
  pub by_status : (state : CommandedGaitState F P) (w : W) → K w → K (hw.publish_status state w)
  pub by_imu : (timeout : F) (w : W) → K w → K (hw.publish_imu_data timeout w).1
  pub by_attitude : (timeout : F) (w : W) → K w → K (hw.publish_controller_attitude timeout w).1
  pub by_skip : (w : W) → K w → K (hw.note_poll_skipped w)
  pub by_attitude_skip : (w : W) → K w → K (hw.note_attitude_poll_skipped w)

module _ {F P W : Type 0} (I : Bench F P W → Type 0) where
  pub Keeps : {A : Type 0} → Handler F P W A → Type 0
  Keeps m = (s : Bench F P W) → I s → I (m s).1

module _ {F P W A B : Type 0} {I : Bench F P W → Type 0} where
  pub continue-I :
      (out : Result A × Bench F P W) (f : A → Handler F P W B)
      → I out.1
      → ((a : A) (s : Bench F P W) → I s → I (f a s).1)
      → I (continue out f).1
  continue-I (ok a, s) f i k = k a s i
  continue-I (err e, s) f i k = i

  pub and_then-Keeps :
      (m : Handler F P W A) (f : A → Handler F P W B)
      → ((s : Bench F P W) → I s → I (m s).1)
      → ((a : A) (s : Bench F P W) → I s → I (f a s).1)
      → (s : Bench F P W) → I s
      → I ((m >>= f) s).1
  and_then-Keeps m f k l s i = continue-I (m s) f (k s i) l

  attempted-I :
      (out : Result A × Bench F P W) (handler : Failure → Handler F P W B)
      (next : A → Handler F P W B)
      → I out.1
      → ((e : Failure) (s : Bench F P W) → I s → I (handler e s).1)
      → ((a : A) (s : Bench F P W) → I s → I (next a s).1)
      → I (attempted out handler next).1
  attempted-I (ok a, s) handler next i k l = l a s i
  attempted-I (err e, s) handler next i k l = k e s i

  pub try-Keeps :
      (m : Handler F P W A) (handler : Failure → Handler F P W B) (next : A → Handler F P W B)
      → ((s : Bench F P W) → I s → I (m s).1)
      → ((e : Failure) (s : Bench F P W) → I s → I (handler e s).1)
      → ((a : A) (s : Bench F P W) → I s → I (next a s).1)
      → (s : Bench F P W) → I s
      → I (try m handler next s).1
  try-Keeps m handler next k l n s i = attempted-I (m s) handler next (k s i) l n

module _ {F P W : Type 0} (D : Core F P → Type 0) (K : W → Type 0) where
  -- a property of the command and the gait, and one of the world
  abbrev pub Holds : Bench F P W → Type 0
  Holds s = D (core_of s.driver) × K s.world

module _ {F P W : Type 0} ⦃fl : Floats F⦄ ⦃ar : Arithmetic F⦄ (geo : Geometry F P)
    (hw : Hardware F P W) (settings : Settings F) (D : Core F P → Type 0) (K : W → Type 0)
    (u : Undisturbed hw K) where
  pub clock-Keeps : (s : Bench F P W) → Holds D K s → Holds D K (ask hw.clock s).1
  clock-Keeps s (d, k) = (d, u.by_clock s.world k)

  pub publish_active-Keeps :
      (selection : VelocitySelection F) (s : Bench F P W)
      → Holds D K s
      → Holds D K (publish_active geo hw selection s).1
  publish_active-Keeps selection s (d, k) = (
    d,
    u.by_motion selection (commanded_gait_state geo s.driver.muto) s.driver.observed_phase_rate_hz
        s.world k,
  )

  pub buzz-Keeps :
      (timeout : ℕ) (s : Bench F P W) → Holds D K s → Holds D K (buzz geo hw timeout s).1
  unfolding buzz
  buzz-Keeps timeout =
      and_then-Keeps (lift (command_packet 0x18 (ℤ.pos timeout ∷ [])))
        (λ packet. perform_io (hw.write packet)) (λ s i. i)
        λ packet s (d, k). (d, u.by_write packet s.world k)

  pub servo_torque_off-Keeps :
      (n : ℕ) (s : Bench F P W) → Holds D K s → Holds D K (servo_torque_off geo hw n s).1
  unfolding servo_torque_off
  servo_torque_off-Keeps n =
      and_then-Keeps (lift (command_packet 0x27 (ℤ.pos n ∷ [])))
        (λ packet. perform_io (hw.write packet)) (λ s i. i)
        λ packet s (d, k). (d, u.by_write packet s.world k)

  timeout_since-Keeps :
      (tick : Option F) (s : Bench F P W)
      → Holds D K s
      → Holds D K (timeout_since geo hw settings tick s).1
  timeout_since-Keeps none s i = i
  timeout_since-Keeps (some tick) s i = clock-Keeps s i

  poll_within-Keeps :
      (endpoint : Endpoint) (timeout : Option F) (s : Bench F P W)
      → Holds D K s
      → Holds D K (poll_within geo hw settings endpoint timeout s).1
  poll_within-Keeps Endpoint.raw_telemetry none s (d, k) = (d, u.by_skip s.world k)
  poll_within-Keeps Endpoint.attitude_telemetry none s (d, k) = (d, u.by_attitude_skip s.world k)
  poll_within-Keeps Endpoint.raw_telemetry (some timeout) s (d, k) = (d, u.by_imu timeout s.world k)
  poll_within-Keeps Endpoint.attitude_telemetry (some timeout) s (d, k) =
      (d, u.by_attitude timeout s.world k)

  poll_outcome-Keeps :
      (endpoint : Endpoint) (s : Bench F P W)
      → Holds D K s
      → Holds D K (poll_outcome geo hw settings endpoint s).1
  unfolding poll_outcome available_telemetry_response_timeout
  poll_outcome-Keeps endpoint =
      and_then-Keeps
        (with_driver λ d. timeout_since geo hw settings d.last_locomotion_tick_monotonic)
        (poll_within geo hw settings endpoint)
        (λ s i. timeout_since-Keeps s.driver.last_locomotion_tick_monotonic s i)
        (poll_within-Keeps endpoint)

  mark_if-Keeps :
      (b : Bool) (endpoint : Endpoint) (now : F) (s : Bench F P W)
      → Holds D K s
      → Holds D K (mark_if geo hw settings b endpoint now s).1
  mark_if-Keeps false endpoint now s i = i
  mark_if-Keeps true endpoint now s i =
      and_then-Keeps {I = Holds D K}
        (lift (mark_attempted endpoint now s.driver.telemetry_scheduler))
        (λ t. modify (with_scheduler t)) (λ s i. i) (λ t s i. i) s i

  serve-Keeps :
      (now : F) (both : Bool) (endpoint : Option Endpoint) (s : Bench F P W)
      → Holds D K s
      → Holds D K (serve geo hw settings now both endpoint s).1
  serve-Keeps now both none s i = i
  serve-Keeps now both (some endpoint) s i =
      and_then-Keeps (poll_outcome geo hw settings endpoint)
        (λ outcome. mark_if geo hw settings outcome.0 endpoint now >>= λ _. return outcome.1)
        (poll_outcome-Keeps endpoint)
        (λ outcome.
          and_then-Keeps (mark_if geo hw settings outcome.0 endpoint now) (λ _. return outcome.1)
            (mark_if-Keeps outcome.0 endpoint now) (λ _ s i. i))
        (record s { driver = select_for endpoint both s.driver }) i

  service_imu_telemetry-Keeps :
      (s : Bench F P W) → Holds D K s → Holds D K (service_imu_telemetry geo hw settings s).1
  unfolding service_imu_telemetry
  service_imu_telemetry-Keeps s i =
      let (now, w) = hw.clock s.world in
      let t = s.driver.telemetry_scheduler in
      serve-Keeps now (raw_due t now && attitude_due t now) (select_endpoint t now)
        (record s { driver = count_slot s.driver; world = w }) (clock-Keeps s i)

  publish_status_at-Keeps :
      (now : F) (s : Bench F P W)
      → Holds D K s
      → Holds D K (publish_status_at geo hw settings now s).1
  publish_status_at-Keeps now s (d, k) =
      and_then-Keeps {I = Holds D K}
        (lift (
          advance_periodic_deadline s.driver.next_telemetry_status_monotonic
            settings.telemetry_status_period_sec now))
        (λ next. modify (with_status_at next) >>= λ _. return true) (λ s i. i) (λ next s i. i)
        (record s { world = hw.publish_status (commanded_gait_state geo s.driver.muto) s.world })
        (d, u.by_status (commanded_gait_state geo s.driver.muto) s.world k)

  maybe_publish-Keeps :
      (s : Bench F P W)
      → Holds D K s
      → Holds D K (maybe_publish_imu_telemetry_status geo hw settings s).1
  unfolding maybe_publish_imu_telemetry_status
  maybe_publish-Keeps s i =
      let (now, w) = hw.clock s.world in
      let read = record s { world = w } in
      if-cases (λ (m : Handler F P W Bool). Holds D K (m read).1)
        (fl.lt_f now s.driver.next_telemetry_status_monotonic) (λ _. clock-Keeps s i)
        (λ _. publish_status_at-Keeps now read (clock-Keeps s i))

  pub telemetry-Keeps : (s : Bench F P W) → Holds D K s → Holds D K (telemetry geo hw settings s).1
  telemetry-Keeps =
      and_then-Keeps (service_imu_telemetry geo hw settings)
        (λ _. maybe_publish_imu_telemetry_status geo hw settings >>= λ _. return tt)
        service_imu_telemetry-Keeps
        (λ _.
          and_then-Keeps (maybe_publish_imu_telemetry_status geo hw settings) (λ _. return tt)
            maybe_publish-Keeps (λ _ s i. i))
