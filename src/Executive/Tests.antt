-- ===== src/Executive/Tests.antt =====
-- A mission that finds a blue chair (executive.py), and the theorems at its states.
use muto_rs_deployment_test.Prelude.{
  ℕ, true, false, Option, none, some, List, [], ◌∷◌, ◌++◌, eq_iff, whole, ◌≡◌, refl, arith, ◌⊎◌,
  ◌↔◌, length, decimal4,
}
use muto_rs_deployment_test.Result.{err, wrong_state}
use muto_rs_deployment_test.Contracts.{
  LifecycleState, CompletionPolicy, SkillName, ToolName, MissionAction, schema_version,
}
use muto_rs_deployment_test.Contracts.Evidence.{CandidateEvidence}
use muto_rs_deployment_test.Contracts.Request.{confirmation_matches_request}
use muto_rs_deployment_test.Contracts.Board.{mission_board}
use muto_rs_deployment_test.Contracts.Event.{normal_event, MissionEvent}
use muto_rs_deployment_test.Executive.State.{MissionExecutive, new_executive, emit, evolve_board}
use muto_rs_deployment_test.Executive.Guards.{
  may_accept, require_state, check_handoff, check_completion, Completion,
}
use muto_rs_deployment_test.Executive.Lifecycle
use muto_rs_deployment_test.Executive.ToolReport
use muto_rs_deployment_test.Executive.ToolReport.{ToolReport, among}
use muto_rs_deployment_test.Executive.ToolResult
use muto_rs_deployment_test.Executive.Calls.{Call, perform, perform_all}
use muto_rs_deployment_test.Executive.Soundness.{
  IsSound, perform_all-IsSound, new_executive-IsSound,
}
use muto_rs_deployment_test.Executive.Life.{
  may_move, SameTarget, perform-lifecycle, perform-SameTarget,
}
use muto_rs_deployment_test.Executive.Confirmation.{NamesTarget, perform-NamesTarget}
use muto_rs_deployment_test.Executive.Log.{Logs}
use muto_rs_deployment_test.Executive.Log.Methods.{perform-Logs}
use muto_rs_deployment_test.Executive.Log.History.{IsNumbered, perform_all-IsNumbered}
use muto_rs_deployment_test.Executive.Atomic.{perform-IsAtomic}
use muto_rs_deployment_test.Executive.Decides.{
  MaySelect, MayComplete, Selected, Completed, select_skill-Decides, complete-Decides,
}
use muto_rs_deployment_test.Executive.Rejection.{record_tool_result-rejects_target}

abbrev State : Type 0
State = MissionExecutive (Option ℕ)

abbrev fresh : State
fresh = new_executive none "lab"

abbrev find_chair : MissionAction
find_chair = record {
  request_id = "r-1";
  objective = "find the blue chair";
  completion_policy = CompletionPolicy.report_confirmed;
  object_request = "blue chair";
  version = schema_version;
}

abbrev chair_evidence : CandidateEvidence (Option ℕ)
chair_evidence = record {
  candidate_id = "c1";
  registry_revision = "rev1";
  evidence_id = "e1";
  source = "vlm";
  confidence = some (some 1);
  observed_at_s = none;
  reason_code = "";
  matched_attributes = "blue" ∷ "chair" ∷ [];
  unmatched_attributes = [];
}

abbrev plain_report : ToolName → ToolReport (Option ℕ)
plain_report t = record {
  tool = t;
  success = true;
  reason_code = "";
  detail = "";
  candidate_id = "";
  confirmed_target_id = "";
  candidate_ids = [];
  rejected_candidate_ids = [];
  registry_revision = "rev1";
  progress_delta = some 1;
  reachability = none;
  expected_registry_revision = "";
  evidence = [];
}

abbrev query : ToolReport (Option ℕ)
query = record (plain_report ToolName.query_registry) { candidate_ids = "c1" ∷ "c2" ∷ [] }

abbrev confirm : ToolReport (Option ℕ)
confirm = record (plain_report ToolName.inspect_candidates) {
  candidate_ids = "c1" ∷ [];
  confirmed_target_id = "c1";
  evidence = chair_evidence ∷ [];
}

abbrev reject : ToolReport (Option ℕ)
reject = record (plain_report ToolName.inspect_candidates) {
  candidate_ids = "c1" ∷ [];
  rejected_candidate_ids = "c1" ∷ [];
}

abbrev finish : Completion
finish = record {
  confirmed_target_id = "c1";
  approach_complete = false;
  search_exhausted = false;
  reason_code = "";
}

-- `perform_all` and `perform` with everything that they call open
replay : List (Call (Option ℕ)) → State
unfolding perform_all perform Lifecycle.accept Lifecycle.start Lifecycle.select_skill
    Lifecycle.complete ToolResult.record_tool_result ToolResult.accept_result ToolResult.emit_result
    ToolResult.emit_rejected ToolResult.result_board ToolReport.check_report ToolReport.stale_reason
    ToolReport.reconcile require_state check_handoff check_completion evolve_board emit normal_event
    mission_board confirmation_matches_request ToolReport.confirm_matching decimal4
replay cs = perform_all cs fresh

abbrev searching : List (Call (Option ℕ))
searching =
    Call.accept find_chair
    ∷ Call.start
    ∷ Call.select_skill SkillName.search_for_object
    ∷ Call.record_tool_result query
    ∷ []

abbrev found : List (Call (Option ℕ))
found = searching ++ Call.record_tool_result confirm ∷ []

mission_test :
    let s = replay (found ++ Call.complete finish ∷ []) in
    (s.board.lifecycle_state ≡ LifecycleState.succeeded)
    × (s.board.confirmed_target_id ≡ "c1")
    × (s.board.mission_id ≡ "mission-0001")
    × (length s.events ≡ 7)
unfolding replay
mission_test = (refl, refl, refl, refl)

unsound_call_test :
    (perform (Call.select_skill SkillName.search_for_object) fresh).0
    ≡ err (wrong_state "expected running, got idle")
unfolding replay
unsound_call_test = refl

perform_all-IsSound_example : IsSound (perform_all found fresh).board
perform_all-IsSound_example =
    perform_all-IsSound found fresh (new_executive-IsSound {F = Option ℕ} none "lab")

perform-lifecycle_example :
    ((perform (Call.accept find_chair) fresh).1.board.lifecycle_state ≡ LifecycleState.idle)
    ⊎ (may_move LifecycleState.idle (perform (Call.accept find_chair) fresh).1.board.lifecycle_state
        ≡ true)
perform-lifecycle_example = perform-lifecycle (Call.accept find_chair) fresh

-- the state in which the chair is approached
abbrev approaching : State
approaching =
    perform_all (found ++ Call.select_skill SkillName.approach_confirmed_object ∷ []) fresh

perform-SameTarget_example :
    SameTarget approaching.board (perform (Call.record_tool_result query) approaching).1.board
    ⊎ ((a : MissionAction) × (Call.record_tool_result query ≡ Call.accept a)
        × (may_accept approaching.board.lifecycle_state ≡ true))
unfolding replay
perform-SameTarget_example =
    perform-SameTarget (Call.record_tool_result query) approaching
      (perform_all-IsSound (found ++ Call.select_skill SkillName.approach_confirmed_object ∷ [])
        fresh (new_executive-IsSound {F = Option ℕ} none "lab"))
      refl

perform-NamesTarget_example :
    NamesTarget
      (Call.record_tool_result confirm)
      (perform_all searching fresh).board
      (perform
        (Call.record_tool_result confirm)
        (perform_all searching fresh)).1.board.confirmed_target_id
unfolding replay
perform-NamesTarget_example =
    perform-NamesTarget (Call.record_tool_result confirm) (perform_all searching fresh) refl
      (ground (arith, eq_iff "c1" ""))

perform-Logs_example :
    Logs
      (perform_all searching fresh)
      (perform (Call.record_tool_result confirm) (perform_all searching fresh)).1
perform-Logs_example = perform-Logs (Call.record_tool_result confirm) (perform_all searching fresh)

perform_all-IsNumbered_example :
    IsNumbered 0 (perform_all found fresh).events
    × ((new : List (MissionEvent (Option ℕ))) × ((perform_all found fresh).events ≡ [] ++ new))
perform_all-IsNumbered_example = perform_all-IsNumbered found fresh tt

perform-IsAtomic_example : (perform (Call.record_tool_result confirm) fresh).1 ≡ fresh
unfolding replay
perform-IsAtomic_example =
    perform-IsAtomic (Call.record_tool_result confirm) fresh
      {e = wrong_state "expected running, got idle"} ((refl, refl), tt) refl

-- a running search that has confirmed "c1"
abbrev confirmed : State
confirmed = record fresh {
  board = record fresh.board {
    lifecycle_state = LifecycleState.running;
    active_skill = some SkillName.search_for_object;
    registry_revision = "rev1";
    confirmed_target_id = "c1";
    confirmed_registry_revision = "rev1";
    shortlisted_candidate_ids = "c1" ∷ [];
  };
}

record_tool_result-rejects_target_example :
    let b = (ToolResult.record_tool_result reject confirmed).1.board in
    (b.confirmed_target_id ≡ "c1") × (among "c1" b.rejected_candidate_ids ≡ true)
unfolding replay
record_tool_result-rejects_target_example =
    record_tool_result-rejects_target reject confirmed
      (ToolResult.record_tool_result reject confirmed).1.board refl refl refl refl refl refl

select_skill-Decides_example :
    Selected SkillName.approach_confirmed_object (perform_all found fresh)
    ↔ MaySelect SkillName.approach_confirmed_object (perform_all found fresh).board
unfolding replay
select_skill-Decides_example =
    select_skill-Decides SkillName.approach_confirmed_object (perform_all found fresh) refl

-- The mission that has found its target may hand over to the approach.
handoff_test : MaySelect SkillName.approach_confirmed_object (perform_all found fresh).board
unfolding replay
handoff_test = (refl, (refl, refl, refl))

complete-Decides_example :
    Completed finish (perform_all found fresh) ↔ MayComplete finish (perform_all found fresh).board
unfolding replay
complete-Decides_example = complete-Decides finish (perform_all found fresh) refl
