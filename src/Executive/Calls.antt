-- ===== src/Executive/Calls.antt =====
-- The calls that the executive's clients make, and what a sequence of them does.
use muto_rs_deployment_test.Prelude.{Bool, List, [], ◌∷◌, String, Floats}
use muto_rs_deployment_test.Contracts.{SkillName, ToolName, MissionAction}
use muto_rs_deployment_test.Contracts.Board.{MissionBoard}
use muto_rs_deployment_test.Executive.State.{MissionExecutive, Method}
use muto_rs_deployment_test.Executive.Guards.{Completion}
use muto_rs_deployment_test.Executive.Lifecycle
use muto_rs_deployment_test.Executive.Observe
use muto_rs_deployment_test.Executive.Observe.{Observation}
use muto_rs_deployment_test.Executive.ToolReport.{ToolReport}
use muto_rs_deployment_test.Executive.ToolResult

-- One constructor for each public method, with its arguments.
pub data Call (F : Type 0) : Type 0 where
  accept : MissionAction → Call F
  start : Call F
  select_skill : SkillName → Call F
  record_tool_request : ToolName → String → Call F
  record_tool_result : ToolReport F → Call F
  record_recorder_status : Bool → String → String → Call F
  complete : Completion → Call F
  record_planner_failure : String → String → Call F
  record_board_observation : Observation F → Call F
  configure_limits : List String → Call F
  cancel : String → Call F
  fail : String → Call F

module _ {F : Type 0} ⦃fl : Floats F⦄ where
  unfoldable pub perform : Call F → Method F (MissionBoard F)
  perform (accept action) = Lifecycle.accept action
  perform start = Lifecycle.start
  perform (select_skill skill) = Lifecycle.select_skill skill
  perform (record_tool_request tool detail) = Lifecycle.record_tool_request tool detail
  perform (record_tool_result r) = ToolResult.record_tool_result r
  perform (record_recorder_status available uri reason) =
      Observe.record_recorder_status available uri reason
  perform (complete c) = Lifecycle.complete c
  perform (record_planner_failure reason detail) = Observe.record_planner_failure reason detail
  perform (record_board_observation o) = Observe.record_board_observation o
  perform (configure_limits limits) = Observe.configure_limits limits
  perform (cancel reason) = Lifecycle.cancel reason
  perform (fail reason) = Lifecycle.fail reason

  -- A client that catches what a call raises goes on from the state that the call left.
  unfoldable pub perform_all : List (Call F) → MissionExecutive F → MissionExecutive F
  perform_all [] s = s
  perform_all (c ∷ cs) s = perform_all cs (perform c s).1
