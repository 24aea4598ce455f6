-- ===== src/Backends/Tests.antt =====
-- A registry with two chairs (backend_adapters.py), and the theorems at it.
use muto_rs_deployment_test.Prelude.{
  ℕ, ◌+◌, true, Option, none, some, List, [], ◌∷◌, String, ◌==◌, whole, nonempty, or_else, ◌≡◌,
  refl, inr,
}
use muto_rs_deployment_test.Result.{ok}
use muto_rs_deployment_test.Contracts.{LifecycleState, SkillName, ToolName}
use muto_rs_deployment_test.Contracts.Board.{MissionBoard, empty_board}
use muto_rs_deployment_test.Contracts.Evidence.{no_report}
use muto_rs_deployment_test.Contracts.Request.{
  confirmation_matches_request, missing_request_match_terms,
}
use muto_rs_deployment_test.Executive.ToolReport.{among}
use muto_rs_deployment_test.Tools.Json.{Json, Coercions}
use muto_rs_deployment_test.Tools.Call.{ToolCall, ToolResult}
use muto_rs_deployment_test.Runtime.Rounds.{report_of}
use muto_rs_deployment_test.Backends.Authorities.{
  RegistryCandidate, CandidateDecision, RegistryAuthority, MotionAuthority, MotionResult, Adapter,
}
use muto_rs_deployment_test.Backends.Registry.{snapshot_ids, requested_ids, inspect_candidates}
use muto_rs_deployment_test.Backends.Motion.{Positions, go_to_point}
use muto_rs_deployment_test.Backends.Weighed.{Confirms}
use muto_rs_deployment_test.Backends.Confirmed.{inspect_candidates-Confirms}
use muto_rs_deployment_test.Executive.State.{MissionExecutive}
use muto_rs_deployment_test.Executive.ToolResult.{record_tool_result}
use muto_rs_deployment_test.Executive.ToolReport.{stale_reason}
use muto_rs_deployment_test.Backends.Accepted.{inspect_candidates-IsAccepted}
use muto_rs_deployment_test.Backends.Approach.{Approaches, go_to_point-Approaches}

abbrev F : Type 0
F = Option ℕ

instance abbrev texts : Coercions F
texts = record {
  float_of = λ negative n. some (some n);
  str_of = λ v. elim v [ Json.text s ↦ s | _ ↦ "?" ];
  listing = λ _. "";
  str_of_text = λ _. refl;
}

instance abbrev positions : Positions F
positions = record {
  float_text = λ s. some (some 4);
  abs_f = λ x. x;
  minus_f = λ x y. some 0;
  tolerance = some 0;
}

abbrev chair : String → RegistryCandidate
chair id = record {
  candidate_id = id;
  label = "chair";
  registry_revision = "r1";
  evidence_id = "";
  metadata = ("x", "4") ∷ ("y", "4") ∷ [];
}

abbrev chairs : Adapter ℕ
chairs = record {
  snapshot = record { revision = "r1"; candidates = chair "c1" ∷ chair "c2" ∷ []; checked = true };
  world = 0;
}

abbrev seen : String → List String → CandidateDecision F
seen id words = record {
  candidate_id = id;
  confirmed = true;
  confidence = some 1;
  reason_code = "";
  source = "vlm";
  evidence_id = "e";
  observed_at_s = some 0;
  matched_attributes = words;
  unmatched_attributes = [];
}

-- The second chair is confirmed without its colour, which the adapter does not take.
abbrev registry : RegistryAuthority F ℕ
registry = record {
  query = λ request b w. (ok chairs.snapshot, w + 1);
  inspect = λ request s ids b w.
      (ok (seen "c1" ("blue chair" ∷ []) ∷ seen "c2" ("chair" ∷ []) ∷ []), w + 1);
  cancel_active = none;
}

abbrev arrived : MotionResult F
arrived = record {
  success = true;
  reason_code = "";
  detail = "";
  progress_delta = some 1;
  reachability = no_report;
}

abbrev motion : MotionAuthority F ℕ
motion = record {
  observe = λ b w. (ok arrived, w + 1);
  rotate_to_heading = λ heading b w. (ok arrived, w + 1);
  go_to_point = λ point policy b w. (ok arrived, w + 1);
  cancel_active = none;
}

abbrev board : MissionBoard F
board = record (empty_board {F = F}) {
  lifecycle_state = LifecycleState.running;
  object_request = "find the blue chair";
  registry_revision = "r1";
  shortlisted_candidate_ids = "c1" ∷ "c2" ∷ [];
}

abbrev call : ToolCall F
call = record {
  tool = ToolName.inspect_candidates;
  object_request = "";
  candidate_ids = Json.text "c1" ∷ Json.text "c2" ∷ [];
  registry_revision = "r1";
  candidate_id = "";
  point = none;
  heading = none;
  frame_id = "map";
  projection_policy = "reject";
}

abbrev result : ToolResult F
result = record {
  success = true;
  reason_code = "candidate_confirmed";
  detail = "";
  candidate_ids = "c1" ∷ "c2" ∷ [];
  rejected_candidate_ids = "c2" ∷ [];
  confirmed_target_id = "c1";
  registry_revision = "r1";
  progress_delta = some 0;
  reachability = no_report;
  evidence =
      record {
        candidate_id = "c1";
        registry_revision = "r1";
        evidence_id = "e";
        source = "vlm";
        confidence = some (some 1);
        observed_at_s = none;
        reason_code = "";
        matched_attributes = "blue chair" ∷ [];
        unmatched_attributes = [];
      }
      ∷ record {
        candidate_id = "c2";
        registry_revision = "r1";
        evidence_id = "e";
        source = "vlm";
        confidence = some (some 1);
        observed_at_s = none;
        reason_code = "requested_attributes_unconfirmed";
        matched_attributes = "chair" ∷ [];
        unmatched_attributes = "blue" ∷ [];
      }
      ∷ [];
}

inspect_test : (inspect_candidates registry call board chairs).0 ≡ ok result
unfolding inspect_candidates confirmation_matches_request missing_request_match_terms
inspect_test = refl

inspect_candidates-Confirms_example :
    ((inspect_candidates registry call board chairs).1.snapshot ≡ chairs.snapshot)
    × (chairs.snapshot.checked ≡ true)
    × (nonempty chairs.snapshot.revision ≡ true)
    × ((call.registry_revision == chairs.snapshot.revision) ≡ true)
    × ((requested : List String) × (requested_ids call chairs.snapshot ≡ ok (some requested))
        × Confirms (or_else call.object_request board.object_request) "r1" requested result
        × ((id : String)
            → among id requested ≡ true
            → among id (snapshot_ids chairs.snapshot) ≡ true))
inspect_candidates-Confirms_example =
    inspect_candidates-Confirms registry call board chairs result inspect_test refl

abbrev searching : MissionExecutive F
searching = record {
  board = record board { active_skill = some SkillName.search_for_object };
  events = [];
  mission_counter = 1;
  scenario_completion_policy = none;
  scenario_id = "lab";
}

search_test : (inspect_candidates registry call searching.board chairs).0 ≡ ok result
unfolding inspect_candidates confirmation_matches_request missing_request_match_terms
search_test = refl

inspect_candidates-IsAccepted_example :
    ((record_tool_result (report_of call result) searching).1.board.confirmed_target_id ≡ "c1")
    × ((record_tool_result (report_of call result) searching).1.board.confirmed_registry_revision
        ≡ "r1")
    × ((record_tool_result (report_of call result) searching).1.board.registry_revision ≡ "r1")
unfolding stale_reason
inspect_candidates-IsAccepted_example =
    inspect_candidates-IsAccepted registry call searching chairs result refl (inr refl) search_test
      refl refl refl refl refl refl refl refl

abbrev approaching : MissionBoard F
approaching = record board {
  active_skill = some SkillName.approach_confirmed_object;
  confirmed_target_id = "c1";
  confirmed_registry_revision = "r1";
}

abbrev drive : ToolCall F
drive = record call { tool = ToolName.go_to_point; candidate_ids = []; candidate_id = "c1" }

drive_test : (go_to_point motion drive approaching chairs).1.world ≡ 1
unfolding go_to_point
drive_test = refl

go_to_point-Approaches_example :
    Approaches motion drive approaching chairs (go_to_point motion drive approaching chairs)
go_to_point-Approaches_example = go_to_point-Approaches motion drive approaching chairs refl
