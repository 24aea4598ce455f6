-- ===== src/Executive/Guards.antt =====
-- The guards of the executive's methods (executive.py): each raises or lets the method go on.
use muto_rs_deployment_test.Prelude.{
  Bool, true, false, not, ◌&&◌, ◌||◌, Option, none, some, String, ◌==◌, ◌<>◌, nonempty,
  if◌then◌else◌,
}
use muto_rs_deployment_test.Result.{
  Result, ok, err, contract, terminal_mission, wrong_state, guard, ◌>>◌,
}
use muto_rs_deployment_test.Contracts.{
  LifecycleState, CompletionPolicy, SkillName, ToolName, terminal, skill_tools, state_value,
}
use muto_rs_deployment_test.Contracts.Board.{MissionBoard}

abbrev pub same_state : LifecycleState → LifecycleState → Bool
same_state LifecycleState.idle LifecycleState.idle = true
same_state LifecycleState.accepted LifecycleState.accepted = true
same_state LifecycleState.running LifecycleState.running = true
same_state LifecycleState.succeeded LifecycleState.succeeded = true
same_state LifecycleState.canceled LifecycleState.canceled = true
same_state LifecycleState.failed LifecycleState.failed = true
same_state _ _ = false

abbrev pub same_skill : SkillName → SkillName → Bool
same_skill SkillName.search_for_object SkillName.search_for_object = true
same_skill SkillName.approach_confirmed_object SkillName.approach_confirmed_object = true
same_skill _ _ = false

-- `x or y` of an optional policy and a policy
abbrev pub policy_or : Option CompletionPolicy → CompletionPolicy → CompletionPolicy
policy_or none p = p
policy_or (some q) p = q

-- the current confirmation that the code asks for in three places
abbrev pub has_current_confirmation : {F : Type 0} → MissionBoard F → Bool
has_current_confirmation b =
    nonempty b.confirmed_target_id
    && (nonempty b.confirmed_registry_revision
        && b.confirmed_registry_revision == b.registry_revision)

-- the message of `_require_state`
abbrev pub expected_state : LifecycleState → LifecycleState → String
expected_state expected state = "expected " <> state_value expected <> ", got " <> state_value state

-- `_require_state`
unfoldable pub require_state : {F : Type 0} → LifecycleState → MissionBoard F → Result (Unit {0})
require_state expected b =
    if same_state b.lifecycle_state expected
    then ok tt
    else err (
        if terminal b.lifecycle_state
        then terminal_mission
        else wrong_state (expected_state expected b.lifecycle_state))

abbrev pub may_accept : LifecycleState → Bool
may_accept LifecycleState.accepted = false
may_accept LifecycleState.running = false
may_accept _ = true

-- the guards of `select_skill`
unfoldable pub check_handoff : Option SkillName → SkillName → Bool → Result (Unit {0})
check_handoff (some SkillName.approach_confirmed_object) SkillName.search_for_object confirmed =
    err (contract "skill handoff requires a current confirmed target")
check_handoff (some SkillName.search_for_object) SkillName.approach_confirmed_object confirmed =
    guard confirmed (contract "skill handoff requires a current confirmed target")
check_handoff current SkillName.approach_confirmed_object confirmed =
    guard confirmed
      (contract "approach skill requires confirmation for the current registry revision")
check_handoff current SkillName.search_for_object confirmed = ok tt

-- `active_skill is None or tool not in _SKILL_TOOLS[active_skill]`
unfoldable pub check_tool : Option SkillName → ToolName → Result (Unit {0})
check_tool none tool = err (contract "tool is not allowed by the active skill")
check_tool (some skill) tool =
    guard (skill_tools skill tool) (contract "tool is not allowed by the active skill")

-- what `complete` is told by its caller
pub record Completion : Type 0 where
  pub confirmed_target_id : String
  pub approach_complete : Bool
  pub search_exhausted : Bool
  pub reason_code : String

abbrev pub is_exhaustion_reason : String → Bool
is_exhaustion_reason r = r == "poi_exhausted" || r == "search_exhausted"

-- the policy's part of the guards of `complete`
unfoldable pub check_policy :
    {F : Type 0} → Option CompletionPolicy → MissionBoard F → Completion → Result (Unit {0})
check_policy none b c = ok tt
check_policy (some CompletionPolicy.report_confirmed) b c =
    guard (nonempty b.confirmed_target_id) (contract "report_confirmed requires a confirmed target")
check_policy (some CompletionPolicy.approach_confirmed) b c =
    guard (nonempty b.confirmed_target_id && c.approach_complete)
      (contract "approach_confirmed requires target and approach completion")
check_policy (some CompletionPolicy.search_until_exhausted) b c =
    if c.search_exhausted
    then guard (is_exhaustion_reason b.last_reason_code)
        (contract "search_until_exhausted requires explicit exhaustion evidence")
    else err (contract "search_until_exhausted requires exhausted search")

-- the guards of `complete`, in their order
unfoldable pub check_completion : {F : Type 0} → MissionBoard F → Completion → Result (Unit {0})
unfolding require_state check_policy
check_completion b c = do
  require_state LifecycleState.running b
  guard (not (nonempty c.confirmed_target_id) || c.confirmed_target_id == b.confirmed_target_id)
      (contract "completion cannot promote an unconfirmed candidate")
  guard (not (nonempty b.confirmed_target_id) || has_current_confirmation b)
      (contract "completion requires confirmation for the current registry revision")
  check_policy b.completion_policy b c
