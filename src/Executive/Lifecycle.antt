-- ===== src/Executive/Lifecycle.antt =====
-- The methods of `MissionExecutive` (executive.py) that move a mission through its life: accept,
-- start, select_skill, record_tool_request, complete, cancel and fail.
use muto_rs_deployment_test.Prelude.{
  ℕ, ◌+◌, Option, none, some, String, ◌<>◌, decimal4, Floats, strip, nonempty, ◌||◌, if◌then◌else◌,
}
use muto_rs_deployment_test.Result.{ok, err, contract, duplicate_mission, guard}
use muto_rs_deployment_test.Contracts.{
  LifecycleState, CompletionPolicy, SkillName, ToolName, EventType, MissionAction, terminal,
  event_value, is_idle,
}
use muto_rs_deployment_test.Contracts.Board.{MissionBoard, empty_board, mission_board}
use muto_rs_deployment_test.Contracts.Event.{event_of}
use muto_rs_deployment_test.Executive.State.{
  Method, ◌>>◌, lift, with_board, get_board, emit, store_board, commit,
}
use muto_rs_deployment_test.Executive.Guards.{
  policy_or, may_accept, has_current_confirmation, require_state, check_handoff, check_tool,
  Completion, check_completion,
}

module _ {F : Type 0} ⦃fl : Floats F⦄ where
  -- the board that `accept` builds, for the mission of that number
  abbrev pub accepted_board : MissionAction → Option CompletionPolicy → String → ℕ → MissionBoard F
  accepted_board action scenario_policy scenario number = record (empty_board {F = F}) {
    lifecycle_state = LifecycleState.accepted;
    mission_id = "mission-" <> decimal4 number;
    request_id = action.request_id;
    objective = action.objective;
    object_request = action.object_request;
    completion_policy = some (policy_or scenario_policy action.completion_policy);
    scenario_id = scenario;
    board_revision = 1;
    last_event_type = event_value EventType.mission_accepted;
  }

  -- `self._mission_counter += 1`
  abbrev next_mission : Method F (Unit {0})
  next_mission s = (ok tt, record s { mission_counter = s.mission_counter + 1 })

  -- `self._board = MissionBoard(...)`
  abbrev accept_board : MissionAction → Method F (Unit {0})
  unfolding mission_board
  accept_board action s =
      store_board
        (mission_board
          (accepted_board action s.scenario_completion_policy s.scenario_id s.mission_counter))
        s

  -- both, before the event
  abbrev pub accepting : MissionAction → Method F (Unit {0})
  unfolding mission_board
  accepting action = next_mission >> accept_board action

  unfoldable pub accept : MissionAction → Method F (MissionBoard F)
  unfolding mission_board
  accept action = with_board λ b.
      if may_accept b.lifecycle_state
      then (do accepting action; emit (event_of EventType.mission_accepted); get_board)
      else lift (err duplicate_mission)

  abbrev pub started : MissionBoard F → MissionBoard F
  started b = record b {
    lifecycle_state = LifecycleState.running;
    last_event_type = event_value EventType.mission_started;
  }

  unfoldable pub start : Method F (MissionBoard F)
  start = with_board λ b. do
    lift (require_state LifecycleState.accepted b)
    commit (started b) (event_of EventType.mission_started)

  abbrev pub with_skill : SkillName → MissionBoard F → MissionBoard F
  with_skill skill b = record b {
    active_skill = some skill;
    active_tool = none;
    last_event_type = event_value EventType.skill_selected;
  }

  unfoldable pub select_skill : SkillName → Method F (MissionBoard F)
  select_skill skill = with_board λ b. do
    lift (require_state LifecycleState.running b)
    lift (check_handoff b.active_skill skill (has_current_confirmation b))
    commit (with_skill skill b) (record (event_of EventType.skill_selected) { skill = some skill })

  abbrev pub requested : ToolName → MissionBoard F → MissionBoard F
  requested tool b = record b {
    active_tool = some tool;
    active_command_status = "requested";
    last_event_type = event_value EventType.tool_requested;
    last_outcome = "pending";
    last_reason_code = "";
  }

  unfoldable pub record_tool_request : ToolName → String → Method F (MissionBoard F)
  record_tool_request tool detail = with_board λ b. do
    lift (require_state LifecycleState.running b)
    lift (check_tool b.active_skill tool)
    commit (requested tool b) (record (event_of EventType.tool_requested) {
      skill = b.active_skill;
      tool = some tool;
      outcome = "pending";
      detail = detail;
    })

  -- the boards of the three ends of a mission
  abbrev pub ended : LifecycleState → EventType → String → String → MissionBoard F → MissionBoard F
  ended state type outcome reason_code b = record b {
    lifecycle_state = state;
    last_event_type = event_value type;
    last_outcome = outcome;
    last_reason_code = reason_code;
  }

  unfoldable pub complete : Completion → Method F (MissionBoard F)
  complete c = with_board λ b. do
    lift (check_completion b c)
    commit (ended LifecycleState.succeeded EventType.mission_succeeded "succeeded" c.reason_code b)
        (record (event_of EventType.mission_succeeded) {
          candidate_id = b.confirmed_target_id;
          reason_code = c.reason_code;
        })

  unfoldable pub cancel : String → Method F (MissionBoard F)
  cancel reason_code = with_board λ b.
      if terminal b.lifecycle_state || is_idle b.lifecycle_state
      then get_board
      else commit
          (ended LifecycleState.canceled EventType.mission_canceled "canceled" reason_code b)
          (record (event_of EventType.mission_canceled) { reason_code = reason_code })

  unfoldable pub fail : String → Method F (MissionBoard F)
  unfolding strip
  fail reason_code = with_board λ b.
      if terminal b.lifecycle_state || is_idle b.lifecycle_state then get_board else do
        lift (
            guard (nonempty (strip reason_code)) (contract "failure reason_code must not be empty"))
        commit (ended LifecycleState.failed EventType.mission_failed "failed" reason_code b)
            (record (event_of EventType.mission_failed) { reason_code = reason_code })
