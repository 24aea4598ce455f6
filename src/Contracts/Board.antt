-- ===== src/Contracts/Board.antt =====
-- The mission board (contracts.py, `MissionBoard`): what its constructor checks, and `evolve`.
use muto_rs_deployment_test.Prelude.{
  ℕ, ◌+◌, Bool, false, ◌&&◌, Option, none, List, [], String, ◌==◌, Floats,
}
use muto_rs_deployment_test.Result.{Result, ok, contract, ◌>>◌, guard}
use muto_rs_deployment_test.Contracts.{
  LifecycleState, CompletionPolicy, SkillName, ToolName, schema_version,
}
use muto_rs_deployment_test.Contracts.Evidence.{
  Pose, CandidateEvidence, ReachabilityReport, no_report, nonnegative_finite, optional_finite_pose,
}

pub record MissionBoard (F : Type 0) : Type 0 where
  pub version : String
  pub lifecycle_state : LifecycleState
  pub mission_id : String
  pub request_id : String
  pub objective : String
  pub object_request : String
  pub completion_policy : Option CompletionPolicy
  pub active_skill : Option SkillName
  pub active_tool : Option ToolName
  pub board_revision : ℕ
  pub registry_revision : String
  pub shortlisted_candidate_ids : List String
  pub rejected_candidate_ids : List String
  pub confirmed_target_id : String
  pub confirmed_registry_revision : String
  pub robot_pose : Option (Pose F)
  pub motion_state : String
  pub search_progress : F
  pub approach_progress : F
  pub consecutive_failures : ℕ
  pub no_progress_count : ℕ
  pub last_event_type : String
  pub last_outcome : String
  pub last_reason_code : String
  pub reachability : ReachabilityReport F
  pub recorder_available : Bool
  pub recorder_uri : String
  pub scenario_id : String
  pub coverage_summary : String
  pub visual_evidence_summary : String
  pub active_command_status : String
  pub active_limits : List String
  pub candidate_evidence : List (CandidateEvidence F)

module _ {F : Type 0} ⦃fl : Floats F⦄ where
  -- `MissionBoard()`, the defaults of the fields
  abbrev pub empty_board : MissionBoard F
  empty_board = record {
    version = schema_version;
    lifecycle_state = LifecycleState.idle;
    mission_id = "";
    request_id = "";
    objective = "";
    object_request = "";
    completion_policy = none;
    active_skill = none;
    active_tool = none;
    board_revision = 0;
    registry_revision = "";
    shortlisted_candidate_ids = [];
    rejected_candidate_ids = [];
    confirmed_target_id = "";
    confirmed_registry_revision = "";
    robot_pose = none;
    motion_state = "idle";
    search_progress = fl.zero_f;
    approach_progress = fl.zero_f;
    consecutive_failures = 0;
    no_progress_count = 0;
    last_event_type = "";
    last_outcome = "";
    last_reason_code = "";
    reachability = no_report;
    recorder_available = false;
    recorder_uri = "";
    scenario_id = "";
    coverage_summary = "";
    visual_evidence_summary = "";
    active_command_status = "";
    active_limits = [];
    candidate_evidence = [];
  }

  -- the conditions under which `MissionBoard.__post_init__` does not raise
  abbrev pub valid_board : MissionBoard F → Bool
  valid_board b =
      b.version == schema_version
      && (nonnegative_finite b.search_progress
          && (nonnegative_finite b.approach_progress && optional_finite_pose b.robot_pose))

  -- `MissionBoard.__post_init__`. The counters are natural numbers, and the enumerations and the
  -- evidence are values of their types already.
  unfoldable pub mission_board : MissionBoard F → Result (MissionBoard F)
  mission_board b = do
    guard (b.version == schema_version) (contract "unsupported schema_version")
    guard (nonnegative_finite b.search_progress)
        (contract "search_progress must be finite and non-negative")
    guard (nonnegative_finite b.approach_progress)
        (contract "approach_progress must be finite and non-negative")
    guard (optional_finite_pose b.robot_pose) (contract "robot_pose must be finite x, y, heading")
    ok b

  -- `b.evolve(**changes)`: `changed` is `b` with the changes, none of which is the revision
  abbrev pub evolved : MissionBoard F → MissionBoard F → MissionBoard F
  evolved b changed = record changed { board_revision = b.board_revision + 1 }

  unfoldable pub evolve : MissionBoard F → MissionBoard F → Result (MissionBoard F)
  unfolding mission_board
  evolve b changed = mission_board (evolved b changed)
