-- ===== src/Executive/Steps.antt =====
-- The mission as a machine on boards: the steps that the executive's calls (executive.py) can make,
-- each with the conditions under which the code lets it happen.

use muto_rs_deployment_test.Prelude.{ℕ, true, false, ◌||◌, none, Option, String, Floats, ◌≡◌, ◌+◌}
use muto_rs_deployment_test.Result.{ok}
use muto_rs_deployment_test.Contracts.{
  LifecycleState, CompletionPolicy, SkillName, ToolName, EventType, MissionAction, terminal,
  is_idle,
}
use muto_rs_deployment_test.Contracts.Board.{MissionBoard, evolved}
use muto_rs_deployment_test.Executive.Guards.{
  may_accept, has_current_confirmation, require_state, check_handoff, check_tool, Completion,
  check_completion,
}
use muto_rs_deployment_test.Executive.Lifecycle.{
  accepted_board, started, with_skill, requested, ended,
}
use muto_rs_deployment_test.Executive.Observe.{stale}
use muto_rs_deployment_test.Executive.ToolReport.{
  ToolReport, Selection, check_report, stale_reason, reconcile,
}
use muto_rs_deployment_test.Executive.ToolResult.{result_board}
use muto_rs_deployment_test.Executive.Calls.{Call}

-- A change that concerns neither the life of the mission nor its target.
pub record SameMission {F : Type 0} (b b' : MissionBoard F) : Type 0 where
  pub lifecycle : b'.lifecycle_state ≡ b.lifecycle_state
  pub policy : b'.completion_policy ≡ b.completion_policy
  pub request : b'.object_request ≡ b.object_request
  pub skill : b'.active_skill ≡ b.active_skill
  pub tool : b'.active_tool ≡ b.active_tool
  pub registry : b'.registry_revision ≡ b.registry_revision
  pub target : b'.confirmed_target_id ≡ b.confirmed_target_id
  pub confirmed_registry : b'.confirmed_registry_revision ≡ b.confirmed_registry_revision
  pub revision : b'.board_revision ≡ b.board_revision + 1

module _ {F : Type 0} ⦃fl : Floats F⦄ where
  pub data Step : Call F → MissionBoard F → MissionBoard F → Type 0 where
    stays : {c : Call F} {b : MissionBoard F} → Step c b b
    notes : {c : Call F} {b b' : MissionBoard F} → SameMission b b' → Step c b b'
    accepts :
        {b : MissionBoard F} (a : MissionAction) (policy : Option CompletionPolicy)
        (scenario : String) (number : ℕ)
        → may_accept b.lifecycle_state ≡ true
        → Step (Call.accept a) b (accepted_board a policy scenario number)
    starts :
        {b : MissionBoard F}
        → require_state LifecycleState.accepted b ≡ ok tt
        → Step Call.start b (evolved b (started b))
    selects :
        {b : MissionBoard F} (skill : SkillName)
        → require_state LifecycleState.running b ≡ ok tt
        → check_handoff b.active_skill skill (has_current_confirmation b) ≡ ok tt
        → Step (Call.select_skill skill) b (evolved b (with_skill skill b))
    requests :
        {b : MissionBoard F} (tool : ToolName) (detail : String)
        → require_state LifecycleState.running b ≡ ok tt
        → check_tool b.active_skill tool ≡ ok tt
        → Step (Call.record_tool_request tool detail) b (evolved b (requested tool b))
    goes_stale :
        {b : MissionBoard F} (r : ToolReport F)
        → check_report b r ≡ ok tt
        → Step (Call.record_tool_result r) b (evolved b (stale r.tool b))
    reports :
        {b : MissionBoard F} (r : ToolReport F) (sel : Selection F)
        → check_report b r ≡ ok tt
        → stale_reason b r ≡ none
        → reconcile b r ≡ ok sel
        → Step (Call.record_tool_result r) b (evolved b (result_board b r sel))
    completes :
        {b : MissionBoard F} (c : Completion)
        → check_completion b c ≡ ok tt
        → Step (Call.complete c) b (
            evolved b (
              ended LifecycleState.succeeded EventType.mission_succeeded "succeeded" c.reason_code
                b))
    cancels :
        {b : MissionBoard F} (reason : String)
        → (terminal b.lifecycle_state || is_idle b.lifecycle_state) ≡ false
        → Step (Call.cancel reason) b (
            evolved b
              (ended LifecycleState.canceled EventType.mission_canceled "canceled" reason b))
    fails :
        {b : MissionBoard F} (reason : String)
        → (terminal b.lifecycle_state || is_idle b.lifecycle_state) ≡ false
        → Step
            (Call.fail reason)
            b
            (evolved b (ended LifecycleState.failed EventType.mission_failed "failed" reason b))
