-- ===== src/Runtime/Unusable.antt =====
-- A whole run with a model that gives no usable reply (runtime.py).
use muto_rs_deployment_test.Prelude.{ℕ, suc, ◌+◌, ◌<◌, true, List, String, Floats, ◌≡◌, arith}
use muto_rs_deployment_test.Result.{Result, ok}
use muto_rs_deployment_test.Contracts.{LifecycleState, MissionAction}
use muto_rs_deployment_test.Contracts.Board.{MissionBoard, mission_board, valid_board}
use muto_rs_deployment_test.Executive.State.{MissionExecutive, emit, evolve_board}
use muto_rs_deployment_test.Executive.Guards.{may_accept, require_state}
use muto_rs_deployment_test.Executive.Lifecycle
use muto_rs_deployment_test.Executive.Observe
use muto_rs_deployment_test.Executive.Calls.{Call, perform}
use muto_rs_deployment_test.Tools.Json.{Coercions}
use muto_rs_deployment_test.Runtime.State.{Settings, Runtime}
use muto_rs_deployment_test.Runtime.Loop.{run, limit_texts}
use muto_rs_deployment_test.Runtime.Limits.{call-ok}
use muto_rs_deployment_test.Runtime.Rejected.{
  NeverCanceled, NeverDecides, HasFailed, rounds-HasFailed,
}

module _ {F : Type 0} ⦃fl : Floats F⦄ where
  -- a new mission before its start, with no failure counted
  record IsNew (state : LifecycleState) (out : Result (MissionBoard F) × MissionExecutive F)
      : Type 0 where
    result : MissionBoard F
    returns : out.0 ≡ ok result
    state_is : out.1.board.lifecycle_state ≡ state
    valid : valid_board out.1.board ≡ true
    no_failures : out.1.board.consecutive_failures ≡ 0
    progressing : out.1.board.no_progress_count ≡ 0

  accept-board :
      (action : MissionAction) (e : MissionExecutive F)
      → may_accept e.board.lifecycle_state ≡ true
      → (perform (Call.accept action) e).1.board
        ≡ Lifecycle.accepted_board action e.scenario_completion_policy e.scenario_id
            (e.mission_counter + 1)
  unfolding perform Lifecycle.accept mission_board emit
  accept-board action e h = ground (arith, fl.zero_finite, fl.zero_not_negative)

  accept-IsNew :
      (action : MissionAction) (e : MissionExecutive F)
      → may_accept e.board.lifecycle_state ≡ true
      → IsNew LifecycleState.accepted (perform (Call.accept action) e)
  unfolding perform Lifecycle.accept mission_board emit
  accept-IsNew action e h = record {
    result = (perform (Call.accept action) e).1.board;
    returns = ground (arith, fl.zero_finite, fl.zero_not_negative);
    state_is = ground (arith, fl.zero_finite, fl.zero_not_negative);
    valid = rw (accept-board action e h) (ground (arith, fl.zero_finite, fl.zero_not_negative));
    no_failures = ground (arith, fl.zero_finite, fl.zero_not_negative);
    progressing = ground (arith, fl.zero_finite, fl.zero_not_negative);
  }

  configure_limits-IsNew :
      (limits : List String) (e : MissionExecutive F)
      → e.board.lifecycle_state ≡ LifecycleState.accepted
      → valid_board e.board ≡ true
      → e.board.consecutive_failures ≡ 0
      → e.board.no_progress_count ≡ 0
      → IsNew LifecycleState.accepted (perform (Call.configure_limits limits) e)
  unfolding perform Observe.configure_limits evolve_board emit
  configure_limits-IsNew limits e h v f p = record {
    result = (perform (Call.configure_limits limits) e).1.board;
    returns = ground arith;
    state_is = ground arith;
    valid = ground arith;
    no_failures = ground arith;
    progressing = ground arith;
  }

  start-IsNew :
      (e : MissionExecutive F)
      → e.board.lifecycle_state ≡ LifecycleState.accepted
      → valid_board e.board ≡ true
      → e.board.consecutive_failures ≡ 0
      → e.board.no_progress_count ≡ 0
      → IsNew LifecycleState.running (perform Call.start e)
  unfolding perform Lifecycle.start require_state evolve_board emit
  start-IsNew e h v f p = record {
    result = (perform Call.start e).1.board;
    returns = ground arith;
    state_is = ground arith;
    valid = ground arith;
    no_failures = ground arith;
    progressing = ground arith;
  }

module _ {F W : Type 0} ⦃fl : Floats F⦄ ⦃co : Coercions F⦄ where
  -- With positive limits, from a state where a mission may be accepted, a model whose replies are
  -- never usable ends a mission that is not canceled: the run needs exactly as many decisions as
  -- the limit on consecutive failures, does not raise, and leaves the mission failed for that
  -- reason.
  pub run-HasFailed :
      (n : ℕ) (settings : Settings F W) (action : MissionAction) (s : Runtime F W)
      → NeverCanceled settings
      → NeverDecides settings
      → may_accept s.executive.board.lifecycle_state ≡ true
      → settings.consecutive_failure_limit ≡ suc n
      → 0 < settings.no_progress_limit
      → HasFailed (s.decisions + suc n) (run (suc n) settings action s)
  unfolding run
  run-HasFailed n settings action s never rejects free limit positive =
      let e1 = (perform (Call.accept action) s.executive).1 in
      let a = accept-IsNew action s.executive free in
      let e2 = (perform (Call.configure_limits (limit_texts settings)) e1).1 in
      let c =
        configure_limits-IsNew (limit_texts settings) e1 a.state_is a.valid a.no_failures
          a.progressing in
      let e3 = (perform Call.start e2).1 in
      let d = start-IsNew e2 c.state_is c.valid c.no_failures c.progressing in
      rw
        (
          call-ok (Call.accept action) s a.returns,
          call-ok (Call.configure_limits (limit_texts settings)) (record s { executive = e1 })
              c.returns,
          call-ok Call.start (record s { executive = e2 }) d.returns,
        )
        (rounds-HasFailed n settings (record s { executive = e3 }) never rejects
          (record { running = d.state_is; valid = d.valid }) (ground (arith, d.no_failures, limit))
          (ground (arith, d.progressing, positive)))
