-- ===== src/Driver/Scheduler.antt =====
-- `TelemetryScheduler` (muto_driver.py): which endpoint of the port is polled after a gait phase.
use muto_rs_deployment_test.Prelude.{
  Bool, false, not, ◌&&◌, Option, none, some, Floats, if◌then◌else◌,
}
use muto_rs_deployment_test.Prelude.Integers.{ℤ, ◌+ℤ◌}
use muto_rs_deployment_test.Result.{Result, ok, err, other, ◌>>=◌}
use muto_rs_deployment_test.Reachability.Grid.{Arithmetic}

pub data Endpoint : Type 0 where
  raw_telemetry attitude_telemetry : Endpoint

pub record TelemetryScheduler (F : Type 0) : Type 0 where
  pub raw_period_sec : F
  pub attitude_period_sec : Option F
  pub next_attitude_monotonic : Option F
  pub next_raw_monotonic : F

module _ {F : Type 0} ⦃fl : Floats F⦄ ⦃ar : Arithmetic F⦄ where
  -- `_advance_periodic_deadline`
  unfoldable pub advance_periodic_deadline : F → F → F → Result F
  advance_periodic_deadline deadline period now =
      let next = fl.add_f deadline period in
      if fl.le_f next now
      then (ar.floor_f (ar.div_f (ar.sub_f now next) period) >>= λ missed.
          ok (fl.add_f next (ar.mul_f (ar.of_int (missed +ℤ ℤ.pos 1)) period)))
      else ok next

  -- `TelemetryScheduler(...)`
  abbrev pub telemetry_scheduler : F → F → F → TelemetryScheduler F
  telemetry_scheduler raw_rate attitude_rate start =
      let raw_period = ar.div_f fl.one_f raw_rate in
      let attitude_period = ar.div_f fl.one_f attitude_rate in
      if fl.le_f attitude_rate fl.zero_f
      then record {
        raw_period_sec = raw_period;
        attitude_period_sec = none;
        next_attitude_monotonic = none;
        next_raw_monotonic = fl.add_f start fl.zero_f;
      }
      else record {
        raw_period_sec = raw_period;
        attitude_period_sec = some attitude_period;
        next_attitude_monotonic = some start;
        next_raw_monotonic = fl.add_f start (
            ar.mul_f ar.half
              (if fl.lt_f attitude_period raw_period then attitude_period else raw_period));
      }

  abbrev pub is_due : F → Option F → Bool
  is_due now none = false
  is_due now (some next) = fl.le_f next now

  -- `due_endpoints`: raw, and attitude
  abbrev pub raw_due : TelemetryScheduler F → F → Bool
  raw_due t now = fl.le_f t.next_raw_monotonic now

  abbrev pub attitude_due : TelemetryScheduler F → F → Bool
  attitude_due t now = is_due now t.next_attitude_monotonic

  -- `select`
  abbrev pub select_endpoint : TelemetryScheduler F → F → Option Endpoint
  select_endpoint t now =
      if not (raw_due t now) && not (attitude_due t now)
      then none
      else if attitude_due t now
      then some Endpoint.attitude_telemetry
      else some Endpoint.raw_telemetry

  abbrev pub attitude_deadline : Option F → Option F → F → Result F
  attitude_deadline (some deadline) (some period) now =
      advance_periodic_deadline deadline period now
  attitude_deadline _ _ now = err (other "unsupported operand type(s) for +")

  -- `mark_attempted`
  unfoldable pub mark_attempted :
      Endpoint → F → TelemetryScheduler F → Result (TelemetryScheduler F)
  mark_attempted Endpoint.attitude_telemetry now t =
      attitude_deadline t.next_attitude_monotonic t.attitude_period_sec now >>= λ next.
      ok (record t { next_attitude_monotonic = some next })
  mark_attempted Endpoint.raw_telemetry now t =
      advance_periodic_deadline t.next_raw_monotonic t.raw_period_sec now >>= λ next.
      ok (record t { next_raw_monotonic = next })
