-- ===== src/Driver/Telemetry.antt =====
-- The telemetry that follows a gait phase (muto_driver.py): one transaction at most, and its status.
use muto_rs_deployment_test.Prelude.{
  ◌+◌, Bool, true, false, ◌&&◌, Option, none, some, Floats, if◌then◌else◌,
}
use muto_rs_deployment_test.Reachability.Grid.{Arithmetic}
use muto_rs_deployment_test.Gait.Plan.{Geometry}
use muto_rs_deployment_test.Driver.Scheduler.{
  Endpoint, TelemetryScheduler, advance_periodic_deadline, raw_due, attitude_due, select_endpoint,
  mark_attempted,
}
use muto_rs_deployment_test.Driver.State.{
  Hardware, Settings, Counters, Driver, Handler, ◌>>=◌, ◌>>◌, lift, return, with_driver, ask,
  modify, tell,
}
use muto_rs_deployment_test.Driver.Muto.{commanded_gait_state}

-- Both were due, and the other one waits for the next slot.
abbrev pub deferred : Endpoint → Bool → Counters → Counters
deferred endpoint false c = c
deferred Endpoint.attitude_telemetry true c = record c { raw_deferred = c.raw_deferred + 1 }
deferred Endpoint.raw_telemetry true c = record c { attitude_deferred = c.attitude_deferred + 1 }

abbrev pub counted : Endpoint → Counters → Counters
counted Endpoint.attitude_telemetry c = record c { attitude_selected = c.attitude_selected + 1 }
counted Endpoint.raw_telemetry c = record c { raw_selected = c.raw_selected + 1 }

module _ {F P : Type 0} where
  abbrev pub count_slot : Driver F P → Driver F P
  count_slot d = record d {
    counters = record d.counters { control_slots = d.counters.control_slots + 1 };
  }

  abbrev pub count_idle : Driver F P → Driver F P
  count_idle d = record d {
    counters = record d.counters { idle_slots = d.counters.idle_slots + 1 };
  }

  abbrev pub select_for : Endpoint → Bool → Driver F P → Driver F P
  select_for endpoint both d = record d {
    counters = counted endpoint (deferred endpoint both d.counters);
    last_selected_telemetry_endpoint = some endpoint;
  }

  abbrev pub with_scheduler : TelemetryScheduler F → Driver F P → Driver F P
  with_scheduler t d = record d { telemetry_scheduler = t }

  abbrev pub with_status_at : F → Driver F P → Driver F P
  with_status_at next d = record d {
    counters = record d.counters { status_published = d.counters.status_published + 1 };
    next_telemetry_status_monotonic = next;
  }

module _ {F P W : Type 0} ⦃fl : Floats F⦄ ⦃ar : Arithmetic F⦄ (geo : Geometry F P)
    (hw : Hardware F P W) (settings : Settings F) where
  -- the time that a response may take, if there is enough of it before the next gait phase
  abbrev pub response_timeout_at : F → F → Option F
  response_timeout_at tick now =
      let deadline = fl.add_f tick (ar.div_f fl.one_f settings.locomotion_update_rate_hz) in
      let available = ar.sub_f (ar.sub_f deadline now) settings.imu_locomotion_guard_sec in
      if fl.lt_f available settings.minimum_transaction_budget_sec
      then none
      else some (
          if fl.lt_f available settings.response_timeout_sec
          then available
          else settings.response_timeout_sec)

  abbrev pub timeout_since : Option F → Handler F P W (Option F)
  timeout_since none = return (some settings.response_timeout_sec)
  timeout_since (some tick) = do now ← ask hw.clock; return (response_timeout_at tick now)

  -- `_available_telemetry_response_timeout`
  unfoldable pub available_telemetry_response_timeout : Handler F P W (Option F)
  available_telemetry_response_timeout =
      with_driver λ d. timeout_since d.last_locomotion_tick_monotonic

  abbrev pub note_skipped : Endpoint → W → W
  note_skipped Endpoint.attitude_telemetry w = hw.note_attitude_poll_skipped w
  note_skipped Endpoint.raw_telemetry w = hw.note_poll_skipped w

  abbrev pub publish_from : Endpoint → F → W → Bool × W
  publish_from Endpoint.attitude_telemetry timeout w = hw.publish_controller_attitude timeout w
  publish_from Endpoint.raw_telemetry timeout w = hw.publish_imu_data timeout w

  -- whether the port was used, and whether something was published
  abbrev pub poll_within : Endpoint → Option F → Handler F P W (Bool × Bool)
  poll_within endpoint none = do tell (note_skipped endpoint); return (false, false)
  poll_within endpoint (some timeout) = do
    published ← ask (publish_from endpoint timeout)
    return (true, published)

  -- `_poll_imu_outcome` and `_poll_controller_attitude_outcome`
  unfoldable pub poll_outcome : Endpoint → Handler F P W (Bool × Bool)
  unfolding available_telemetry_response_timeout
  poll_outcome endpoint = do
    timeout ← available_telemetry_response_timeout
    poll_within endpoint timeout

  abbrev pub mark_if : Bool → Endpoint → F → Handler F P W (Unit {0})
  mark_if false endpoint now = return tt
  mark_if true endpoint now = with_driver λ d. do
    scheduler ← lift (mark_attempted endpoint now d.telemetry_scheduler)
    modify (with_scheduler scheduler)

  abbrev pub serve : F → Bool → Option Endpoint → Handler F P W Bool
  serve now both none = do modify count_idle; return false
  serve now both (some endpoint) = do
    modify (select_for endpoint both)
    outcome ← poll_outcome endpoint
    mark_if outcome.0 endpoint now
    return outcome.1

  -- `service_imu_telemetry`
  unfoldable pub service_imu_telemetry : Handler F P W Bool
  unfolding poll_outcome mark_attempted
  service_imu_telemetry = do
    now ← ask hw.clock
    modify count_slot
    with_driver λ d.
        serve now (raw_due d.telemetry_scheduler now && attitude_due d.telemetry_scheduler now)
          (select_endpoint d.telemetry_scheduler now)

  abbrev pub publish_status_at : F → Handler F P W Bool
  publish_status_at now = with_driver λ d. do
    tell (hw.publish_status (commanded_gait_state geo d.muto))
    next ← lift (
        advance_periodic_deadline d.next_telemetry_status_monotonic
          settings.telemetry_status_period_sec now)
    modify (with_status_at next)
    return true

  -- `maybe_publish_imu_telemetry_status`
  unfoldable pub maybe_publish_imu_telemetry_status : Handler F P W Bool
  unfolding advance_periodic_deadline
  maybe_publish_imu_telemetry_status = do
    now ← ask hw.clock
    with_driver λ d.
        if fl.lt_f now d.next_telemetry_status_monotonic
        then return false
        else publish_status_at now

  -- what ends a control slot
  abbrev pub telemetry : Handler F P W (Unit {0})
  telemetry = do _ ← service_imu_telemetry; _ ← maybe_publish_imu_telemetry_status; return tt
