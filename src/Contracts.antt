-- ===== src/Contracts.antt =====
-- The data of the command layer (src/muto_command_layer_v2/contracts.py): the enumerations and the
-- mission action. The evidence, the board, the events and the request terms are in the children.
pub mod Evidence
pub mod Request
pub mod Board
pub mod Event
use muto_rs_deployment_test.Prelude.{Bool, true, false, String, ◌==◌, nonempty, strip}
use muto_rs_deployment_test.Result.{Result, ok, contract, ◌>>=◌, ◌>>◌, guard}

abbrev pub schema_version : String
schema_version = "muto_command_layer_v2"

pub data LifecycleState : Type 0 where
  idle accepted running succeeded canceled failed : LifecycleState

abbrev pub terminal : LifecycleState → Bool
terminal LifecycleState.succeeded = true
terminal LifecycleState.canceled = true
terminal LifecycleState.failed = true
terminal _ = false

abbrev pub is_idle : LifecycleState → Bool
is_idle LifecycleState.idle = true
is_idle _ = false

pub data CompletionPolicy : Type 0 where
  report_confirmed approach_confirmed search_until_exhausted : CompletionPolicy

pub data SkillName : Type 0 where
  search_for_object approach_confirmed_object : SkillName

pub data ToolName : Type 0 where
  query_registry inspect_candidates observe rotate_to_heading go_to_point : ToolName

pub data ReachabilityState : Type 0 where
  unknown reachable unreachable : ReachabilityState

pub data EventType : Type 0 where
  mission_accepted mission_started skill_selected tool_requested tool_result : EventType
  planner_failure candidate_confirmed candidate_rejected board_updated : EventType
  mission_succeeded mission_canceled mission_failed : EventType

-- `_SKILL_TOOLS[skill]`, as a test
abbrev pub skill_tools : SkillName → ToolName → Bool
skill_tools SkillName.search_for_object ToolName.go_to_point = false
skill_tools SkillName.search_for_object _ = true
skill_tools SkillName.approach_confirmed_object ToolName.rotate_to_heading = true
skill_tools SkillName.approach_confirmed_object ToolName.go_to_point = true
skill_tools SkillName.approach_confirmed_object _ = false

-- `.value` of the enumerations whose values the code compares or stores
abbrev pub policy_value : CompletionPolicy → String
policy_value CompletionPolicy.report_confirmed = "report_confirmed"
policy_value CompletionPolicy.approach_confirmed = "approach_confirmed"
policy_value CompletionPolicy.search_until_exhausted = "search_until_exhausted"

abbrev pub state_value : LifecycleState → String
state_value LifecycleState.idle = "idle"
state_value LifecycleState.accepted = "accepted"
state_value LifecycleState.running = "running"
state_value LifecycleState.succeeded = "succeeded"
state_value LifecycleState.canceled = "canceled"
state_value LifecycleState.failed = "failed"

abbrev pub skill_value : SkillName → String
skill_value SkillName.search_for_object = "search_for_object"
skill_value SkillName.approach_confirmed_object = "approach_confirmed_object"

abbrev pub tool_value : ToolName → String
tool_value ToolName.query_registry = "query_registry"
tool_value ToolName.inspect_candidates = "inspect_candidates"
tool_value ToolName.observe = "observe"
tool_value ToolName.rotate_to_heading = "rotate_to_heading"
tool_value ToolName.go_to_point = "go_to_point"

abbrev pub event_value : EventType → String
event_value EventType.mission_accepted = "mission_accepted"
event_value EventType.mission_started = "mission_started"
event_value EventType.skill_selected = "skill_selected"
event_value EventType.tool_requested = "tool_requested"
event_value EventType.tool_result = "tool_result"
event_value EventType.planner_failure = "planner_failure"
event_value EventType.candidate_confirmed = "candidate_confirmed"
event_value EventType.candidate_rejected = "candidate_rejected"
event_value EventType.board_updated = "board_updated"
event_value EventType.mission_succeeded = "mission_succeeded"
event_value EventType.mission_canceled = "mission_canceled"
event_value EventType.mission_failed = "mission_failed"

abbrev pub is_blank : String → Bool
unfolding strip
is_blank s = strip s == ""

pub record MissionAction : Type 0 where
  pub request_id : String
  pub objective : String
  pub completion_policy : CompletionPolicy
  pub object_request : String
  pub version : String

-- `MissionAction.__post_init__`
unfoldable pub mission_action : MissionAction → Result MissionAction
unfolding strip
mission_action a = do
  guard (nonempty (strip a.request_id)) (contract "request_id must not be empty")
  guard (nonempty (strip a.objective)) (contract "objective must not be empty")
  guard (a.version == schema_version) (contract "unsupported schema_version")
  ok a
