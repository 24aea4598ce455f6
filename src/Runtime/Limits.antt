-- ===== src/Runtime/Limits.antt =====
-- The limits of the runtime (runtime.py): what a failure of the planner does below and at them.
use muto_rs_deployment_test.Prelude.{
  ℕ, ◌+◌, ◌<◌, ◌≤◌, true, false, String, Floats, ◌≡◌, refl, arith, ap, nonempty, strip, leb,
}
use muto_rs_deployment_test.Result.{Result, ok, err}
use muto_rs_deployment_test.Contracts.{LifecycleState, EventType, terminal}
use muto_rs_deployment_test.Contracts.Board.{MissionBoard, valid_board, evolved}
use muto_rs_deployment_test.Executive.State.{MissionExecutive, emit, evolve_board}
use muto_rs_deployment_test.Executive.Guards.{require_state}
use muto_rs_deployment_test.Executive.Lifecycle
use muto_rs_deployment_test.Executive.Lifecycle.{ended}
use muto_rs_deployment_test.Executive.Observe
use muto_rs_deployment_test.Executive.Observe.{planner_failed}
use muto_rs_deployment_test.Executive.Calls.{Call, perform}
use muto_rs_deployment_test.Runtime.State.{Settings, Runtime}
use muto_rs_deployment_test.Runtime.Rounds.{call, stored, limit_reached, record_failure}

lt→leb_false : {a b : ℕ} → a < b → leb b a ≡ false
lt→leb_false h = ground arith

le→leb : {a b : ℕ} → a ≤ b → leb a b ≡ true
le→leb h = ground arith

module _ {F : Type 0} ⦃fl : Floats F⦄ where
  -- a running mission whose board the code can evolve
  pub record IsLive (e : MissionExecutive F) : Type 0 where
    pub running : e.board.lifecycle_state ≡ LifecycleState.running
    pub valid : valid_board e.board ≡ true

  pub record_planner_failure-board :
      (reason detail : String) (e : MissionExecutive F)
      → nonempty (strip reason) ≡ true
      → IsLive e
      → (perform (Call.record_planner_failure reason detail) e).1.board
        ≡ evolved e.board (planner_failed reason e.board)
  unfolding perform Observe.record_planner_failure require_state evolve_board emit
  record_planner_failure-board reason detail e h live = ground arith

  record_planner_failure-returns :
      (reason detail : String) (e : MissionExecutive F)
      → nonempty (strip reason) ≡ true
      → IsLive e
      → (perform (Call.record_planner_failure reason detail) e).0
        ≡ ok (evolved e.board (planner_failed reason e.board))
  unfolding perform Observe.record_planner_failure require_state evolve_board emit
  record_planner_failure-returns reason detail e h live = ground arith

  fail-returns :
      (reason : String) (e : MissionExecutive F)
      → nonempty (strip reason) ≡ true
      → IsLive e
      → (perform (Call.fail reason) e).0
        ≡ ok (
            evolved e.board
              (ended LifecycleState.failed EventType.mission_failed "failed" reason e.board))
  unfolding perform Lifecycle.fail evolve_board emit
  fail-returns reason e h live = ground arith

  pub fail-board :
      (reason : String) (e : MissionExecutive F)
      → nonempty (strip reason) ≡ true
      → IsLive e
      → ((perform (Call.fail reason) e).1.board.lifecycle_state ≡ LifecycleState.failed)
        × ((perform (Call.fail reason) e).1.board.last_reason_code ≡ reason)
  unfolding perform Lifecycle.fail evolve_board emit
  fail-board reason e h live = ground arith

  pub record_planner_failure-IsLive :
      (reason detail : String) (e : MissionExecutive F)
      → nonempty (strip reason) ≡ true
      → IsLive e
      → IsLive (perform (Call.record_planner_failure reason detail) e).1
  record_planner_failure-IsLive reason detail e h live =
      ground (arith, record_planner_failure-board reason detail e h live, live.running, live.valid)

module _ {F W : Type 0} ⦃fl : Floats F⦄ where
  stored-ok :
      (s : Runtime F W) (out : Result (MissionBoard F) × MissionExecutive F) {b : MissionBoard F}
      → out.0 ≡ ok b
      → stored s out ≡ (ok tt, record s { executive = out.1 })
  stored-ok s (ok b, e) h = refl
  stored-ok s (err why, e) h = cc

  pub call-ok :
      (c : Call F) (s : Runtime F W) {b : MissionBoard F}
      → (perform c s.executive).0 ≡ ok b
      → call c s ≡ (ok tt, record s { executive = (perform c s.executive).1 })
  unfolding call
  call-ok c s h = stored-ok s (perform c s.executive) h

  limit_reached-no :
      (settings : Settings F W) (s : Runtime F W)
      → s.executive.board.lifecycle_state ≡ LifecycleState.running
      → s.executive.board.consecutive_failures < settings.consecutive_failure_limit
      → s.executive.board.no_progress_count < settings.no_progress_limit
      → limit_reached settings s ≡ (ok false, s)
  unfolding limit_reached
  limit_reached-no settings s live few progress =
      rw (ap (λ (l : LifecycleState). terminal l) live, lt→leb_false few, lt→leb_false progress)
        refl

  limit_reached-failures :
      (settings : Settings F W) (s : Runtime F W)
      → IsLive s.executive
      → settings.consecutive_failure_limit ≤ s.executive.board.consecutive_failures
      → limit_reached settings s ≡ (
        ok true,
        record s { executive = (perform (Call.fail "consecutive_failures") s.executive).1 },
      )
  unfolding limit_reached strip
  limit_reached-failures settings s live many =
      rw
        (
          ap (λ (l : LifecycleState). terminal l) live.running,
          le→leb many,
          call-ok (Call.fail "consecutive_failures") s
              (fail-returns "consecutive_failures" s.executive refl live),
        )
        refl

  -- where a failure of the planner leaves the runtime
  pub record_failure-goes_on :
      (settings : Settings F W) (reason detail : String) (s : Runtime F W)
      → nonempty (strip reason) ≡ true
      → IsLive s.executive
      → s.executive.board.consecutive_failures + 1 < settings.consecutive_failure_limit
      → s.executive.board.no_progress_count < settings.no_progress_limit
      → record_failure settings reason detail s ≡ (
        ok true,
        record s {
          executive = (perform (Call.record_planner_failure reason detail) s.executive).1;
        },
      )
  unfolding record_failure call limit_reached
  record_failure-goes_on settings reason detail s h live few progress =
      let c = Call.record_planner_failure reason detail in
      let b = record_planner_failure-board reason detail s.executive h live in
      let r = record_planner_failure-returns reason detail s.executive h live in
      rw
        (
          call-ok c s r,
          limit_reached-no settings (record s { executive = (perform c s.executive).1 })
              (ground (arith, b, live.running)) (ground (arith, b)) (ground (arith, b)),
        )
        refl

  pub record_failure-stops :
      (settings : Settings F W) (reason detail : String) (s : Runtime F W)
      → nonempty (strip reason) ≡ true
      → IsLive s.executive
      → settings.consecutive_failure_limit ≤ s.executive.board.consecutive_failures + 1
      → record_failure settings reason detail s ≡ (
        ok false,
        record s {
          executive =
              (perform
                (Call.fail "consecutive_failures")
                (perform (Call.record_planner_failure reason detail) s.executive).1).1;
        },
      )
  unfolding record_failure
  record_failure-stops settings reason detail s h live many =
      let c = Call.record_planner_failure reason detail in
      let b = record_planner_failure-board reason detail s.executive h live in
      let r = record_planner_failure-returns reason detail s.executive h live in
      rw
        (
          call-ok c s r,
          limit_reached-failures settings (record s { executive = (perform c s.executive).1 })
              (record_planner_failure-IsLive reason detail s.executive h live) (ground (arith, b)),
        )
        refl
