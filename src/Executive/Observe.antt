-- ===== src/Executive/Observe.antt =====
-- The methods of `MissionExecutive` (executive.py) that record without changing the mission's life:
-- stale results, recorder status, planner failures, board observations and limits.
use muto_rs_deployment_test.Prelude.{
  ◌+◌, Bool, true, false, not, ◌&&◌, ◌||◌, Option, none, some, List, [], ◌∷◌, String, ◌==◌, ◌<>◌,
  Floats, nonempty, or_else, strip, select, if◌then◌else◌,
}
use muto_rs_deployment_test.Result.{contract, guard}
use muto_rs_deployment_test.Contracts.{LifecycleState, ToolName, EventType, event_value, is_idle}
use muto_rs_deployment_test.Contracts.Evidence.{Pose, finite_pose}
use muto_rs_deployment_test.Contracts.Board.{MissionBoard}
use muto_rs_deployment_test.Contracts.Event.{event_of}
use muto_rs_deployment_test.Executive.State.{Method, ◌>>◌, lift, with_board, get_board, commit}
use muto_rs_deployment_test.Executive.Guards.{require_state}

abbrev same_bool : Bool → Bool → Bool
same_bool true b = b
same_bool false b = not b

-- `!=` of two tuples of texts, negated
unfoldable pub same_texts : List String → List String → Bool
same_texts [] [] = true
same_texts (a ∷ as') (b ∷ bs) = let rest = same_texts as' bs in if a == b then rest else false
same_texts _ _ = false

-- `x if x is not None else d`
abbrev pub given_or : {A : Type 0} → Option A → A → A
given_or none d = d
given_or (some x) d = x

abbrev pub is_none : {A : Type 0} → Option A → Bool
is_none none = true
is_none (some _) = false

-- what `record_board_observation` may be given
pub record Observation (F : Type 0) : Type 0 where
  pub robot_pose : Option (Pose F)
  pub coverage_summary : Option String
  pub visual_evidence_summary : Option String
  pub active_command_status : Option String

module _ {F : Type 0} ⦃fl : Floats F⦄ where
  abbrev same_pose : Pose F → Pose F → Bool
  same_pose p q = fl.eq_f p.x q.x && (fl.eq_f p.y q.y && fl.eq_f p.heading q.heading)

  abbrev same_optional_pose : Option (Pose F) → Option (Pose F) → Bool
  same_optional_pose none none = true
  same_optional_pose (some p) (some q) = same_pose p q
  same_optional_pose _ _ = false

  abbrev either_pose : Option (Pose F) → Option (Pose F) → Option (Pose F)
  either_pose none p = p
  either_pose (some q) p = some q

  abbrev pub pose_given_finite : Option (Pose F) → Bool
  pose_given_finite none = true
  pose_given_finite (some p) = finite_pose p

  abbrev pub stale : ToolName → MissionBoard F → MissionBoard F
  stale tool b = record b {
    active_tool = some tool;
    active_command_status = "stale_result";
    consecutive_failures = b.consecutive_failures + 1;
    last_event_type = event_value EventType.tool_result;
    last_outcome = "failure";
    last_reason_code = "stale_registry_result";
  }

  -- `_record_stale_registry_result`
  unfoldable pub record_stale_registry_result :
      ToolName → String → String → Method F (MissionBoard F)
  record_stale_registry_result tool detail registry_revision = with_board λ b.
      commit (stale tool b) (record (event_of EventType.tool_result) {
        skill = b.active_skill;
        tool = some tool;
        outcome = "failure";
        reason_code = "stale_registry_result";
        registry_revision = registry_revision;
        detail = detail;
      })

  abbrev pub nothing_to_project : Bool → String → MissionBoard F → Bool
  nothing_to_project available uri b =
      is_idle b.lifecycle_state
      || (same_bool b.recorder_available available && b.recorder_uri == uri)

  abbrev pub with_recorder : Bool → String → String → MissionBoard F → MissionBoard F
  with_recorder available uri reason_code b = record b {
    recorder_available = available;
    recorder_uri = uri;
    last_event_type = event_value EventType.board_updated;
    last_reason_code = reason_code;
  }

  unfoldable pub record_recorder_status : Bool → String → String → Method F (MissionBoard F)
  record_recorder_status available uri reason_code = with_board λ b.
      if nothing_to_project available uri b
      then get_board
      else commit (with_recorder available uri reason_code b)
          (record (event_of EventType.board_updated) {
            detail = "recorder_status:" <> or_else reason_code "updated";
          })

  abbrev pub planner_failed : String → MissionBoard F → MissionBoard F
  planner_failed reason_code b = record b {
    consecutive_failures = b.consecutive_failures + 1;
    last_event_type = event_value EventType.planner_failure;
    last_outcome = "failure";
    last_reason_code = reason_code;
  }

  unfoldable pub record_planner_failure : String → String → Method F (MissionBoard F)
  unfolding strip
  record_planner_failure reason_code detail = with_board λ b. do
    lift (require_state LifecycleState.running b)
    lift (
        guard (nonempty (strip reason_code))
          (contract "planner failure reason_code must not be empty"))
    commit (planner_failed reason_code b) (record (event_of EventType.planner_failure) {
      outcome = "failure";
      reason_code = reason_code;
      detail = detail;
    })

  abbrev pub nothing_observed : Observation F → Bool
  nothing_observed o =
      is_none o.robot_pose
      && (is_none o.coverage_summary
          && (is_none o.visual_evidence_summary && is_none o.active_command_status))

  -- the board with the observed values
  abbrev pub observed : MissionBoard F → Observation F → MissionBoard F
  observed b o = record b {
    robot_pose = either_pose o.robot_pose b.robot_pose;
    coverage_summary = given_or o.coverage_summary b.coverage_summary;
    visual_evidence_summary = given_or o.visual_evidence_summary b.visual_evidence_summary;
    active_command_status = given_or o.active_command_status b.active_command_status;
    last_event_type = event_value EventType.board_updated;
  }

  -- all four values are those of the board already
  abbrev pub shows_nothing_new : MissionBoard F → Observation F → Bool
  shows_nothing_new b o =
      let seen = observed b o in
      same_optional_pose b.robot_pose seen.robot_pose
      && (b.coverage_summary == seen.coverage_summary
          && (b.visual_evidence_summary == seen.visual_evidence_summary
              && b.active_command_status == seen.active_command_status))

  unfoldable pub record_board_observation : Observation F → Method F (MissionBoard F)
  record_board_observation o = with_board λ b. if nothing_observed o then get_board else do
    lift (
        guard (pose_given_finite o.robot_pose)
          (contract "robot_pose must contain finite x, y, heading"))
    if shows_nothing_new b o
        then get_board
        else commit (observed b o)
            (record (event_of EventType.board_updated) { detail = "robot pose observation" })

  abbrev pub with_limits : List String → MissionBoard F → MissionBoard F
  with_limits limits b = record b {
    active_limits = limits;
    last_event_type = event_value EventType.board_updated;
  }

  unfoldable pub configure_limits : List String → Method F (MissionBoard F)
  configure_limits limits = with_board λ b.
      let normalized = select nonempty limits in
      if same_texts normalized b.active_limits
      then get_board
      else commit (with_limits normalized b)
          (record (event_of EventType.board_updated) { detail = "active_limits_configured" })
