-- ===== src/Runtime/Tests.antt =====
-- Replies, calls and runs of the command layer (tools.py, commander.py, runtime.py), and the theorems
-- at them.
use muto_rs_deployment_test.Prelude.{
  ℕ, ◌+◌, true, false, Option, none, some, [], ◌∷◌, String, whole, ◌≡◌, refl, ap, arith, ◌⊎◌, leb,
  if◌then◌else◌,
}
use muto_rs_deployment_test.Result.{Failure, ok, err, planner_failure}
use muto_rs_deployment_test.Contracts.{
  LifecycleState, CompletionPolicy, SkillName, ToolName, MissionAction, schema_version,
}
use muto_rs_deployment_test.Contracts.Evidence.{no_report}
use muto_rs_deployment_test.Contracts.Board.{MissionBoard, empty_board}
use muto_rs_deployment_test.Executive.State.{new_executive}
use muto_rs_deployment_test.Executive.Guards.{same_state}
use muto_rs_deployment_test.Executive.Soundness.{IsSound, new_executive-IsSound}
use muto_rs_deployment_test.Tools.Json.{Json, Members, Values, Coercions, get, has_key}
use muto_rs_deployment_test.Tools.Call.{ToolCall, ToolResult}
use muto_rs_deployment_test.Tools.Dispatcher.{
  ToolDispatcher, ToolBackend, Operation, enter, leave, cancel_active, dispatch,
}
use muto_rs_deployment_test.Tools.Lanes.{
  Reached, Reached-motions, motions, new_dispatcher, cancel_active-misses_motion, IsAllowed,
  dispatch-IsAllowed,
}
use muto_rs_deployment_test.Commander.{
  Reply, CommanderDecision, Planner, parse_decision, decide, strict_dict,
}
use muto_rs_deployment_test.Commander.Decisions.{IsDecision, parse_decision-IsDecision}
use muto_rs_deployment_test.Commander.Raises.{
  IsOutcome, parse_decision-raises, parse_decision-overflows,
}
use muto_rs_deployment_test.Runtime.State.{Settings, Runtime}
use muto_rs_deployment_test.Runtime.Loop.{round, run}
use muto_rs_deployment_test.Runtime.Client.{run-IsSound}
use muto_rs_deployment_test.Runtime.Rejected.{HasFailed}
use muto_rs_deployment_test.Runtime.Unusable.{run-HasFailed}
use muto_rs_deployment_test.Runtime.Escapes.{unconfirmed, round-raises_unconfirmed}

abbrev F : Type 0
F = Option ℕ

abbrev str_of_json : Json F → String
str_of_json (Json.text s) = s
str_of_json _ = "?"

-- A `float` that holds integers up to a thousand.
instance abbrev small : Coercions F
small = record {
  float_of = λ negative n. if leb n 1000 then some (some n) else none;
  str_of = str_of_json;
  listing = λ _. "";
  str_of_text = λ _. refl;
}

abbrev drive : ToolCall F
drive = record {
  tool = ToolName.go_to_point;
  object_request = "";
  candidate_ids = [];
  registry_revision = "";
  candidate_id = "c1";
  point = none;
  heading = none;
  frame_id = "map";
  projection_policy = "reject";
}

abbrev ask : ToolCall F
ask = record drive { tool = ToolName.query_registry; candidate_id = "" }

abbrev nothing_found : ToolResult F
nothing_found = record {
  success = true;
  reason_code = "";
  detail = "";
  candidate_ids = [];
  rejected_candidate_ids = [];
  confirmed_target_id = "";
  registry_revision = "rev1";
  progress_delta = some 0;
  reachability = no_report;
  evidence = [];
}

abbrev answers : Operation F ℕ
answers c b w = (ok nothing_found, w + 1)

-- The world counts the calls of the backend.
abbrev counting : ToolBackend F ℕ
counting = record {
  query_registry = answers;
  inspect_candidates = answers;
  observe = answers;
  rotate_to_heading = answers;
  go_to_point = answers;
  cancel_active = some (λ w. (ok tt, w));
}

abbrev driving : ToolDispatcher F
driving = record { motion_active = true; active_call = some drive }

abbrev asking : ToolDispatcher F
asking = record { motion_active = true; active_call = some ask }

Reached-motions_example : motions (ask ∷ drive ∷ []) ≡ 1
unfolding enter
Reached-motions_example = Reached-motions (
    Reached.enters (Reached.enters Reached.initial drive {d' = driving} refl) ask {d' = asking}
      refl)

cancel_active-misses_motion_example :
    ((leave ask asking).motion_active ≡ true)
    × (cancel_active counting (leave ask asking) 0 ≡ (false, 0))
unfolding enter
cancel_active-misses_motion_example =
    cancel_active-misses_motion counting ask driving {d' = asking} 0 refl refl refl

abbrev idle_board : MissionBoard F
idle_board = empty_board

dispatch-IsAllowed_example :
    IsAllowed idle_board drive
    ⊎ ((e : Failure) × (dispatch counting drive idle_board (new_dispatcher, 0)
          ≡ (err e, (new_dispatcher, 0))))
dispatch-IsAllowed_example = dispatch-IsAllowed counting drive idle_board (new_dispatcher, 0)

abbrev running_board : MissionBoard F
running_board = record idle_board { lifecycle_state = LifecycleState.running }

-- `{"schema_version": ..., "skill": ..., "tool": ...}`
abbrev reply_with : String → Json F → Members F
reply_with skill tool =
    Members.member "schema_version" (Json.text schema_version)
      (Members.member "skill" (Json.text skill) (Members.member "tool" tool Members.no_member))

abbrev observe_fields : Members F
observe_fields = Members.member "name" (Json.text "observe") Members.no_member

abbrev observe_reply : Reply F
observe_reply =
    Reply.decoded (Json.object (reply_with "search_for_object" (Json.object observe_fields)))

abbrev observe_decision : CommanderDecision F
observe_decision = record {
  skill = SkillName.search_for_object;
  tool = some (record drive { tool = ToolName.observe; candidate_id = "" });
  completion_proposal = none;
  rationale = "";
}

-- A search hands over to the approach of a target whose confirmation is current.
abbrev handoff_board : MissionBoard F
handoff_board = record running_board {
  active_skill = some SkillName.search_for_object;
  registry_revision = "r1";
  confirmed_target_id = "c1";
  confirmed_registry_revision = "r1";
}

abbrev handoff_reply : Reply F
handoff_reply = Reply.decoded (Json.object (reply_with "approach_confirmed_object" Json.null))

abbrev handoff_decision : CommanderDecision F
handoff_decision = record {
  skill = SkillName.approach_confirmed_object;
  tool = none;
  completion_proposal = none;
  rationale = "";
}

parse_decision-IsDecision_example : IsDecision handoff_board handoff_decision
unfolding parse_decision
parse_decision-IsDecision_example = parse_decision-IsDecision handoff_reply handoff_board refl

abbrev far_nesting : Reply F
far_nesting = Reply.too_deep

parse_decision-raises_example : IsOutcome far_nesting (parse_decision far_nesting running_board)
parse_decision-raises_example = parse_decision-raises far_nesting running_board

abbrev far_point : Json F
far_point =
    Json.array (Values.value (Json.integer false 5000) (Values.value Json.null Values.no_value))

abbrev far_fields : Members F
far_fields =
    Members.member "name" (Json.text "observe") (Members.member "point" far_point Members.no_member)

abbrev far_reply : Reply F
far_reply = Reply.decoded (Json.object (reply_with "search_for_object" (Json.object far_fields)))

parse_decision-overflows_example : parse_decision far_reply running_board ≡ err Failure.overflow
unfolding strict_dict get has_key
parse_decision-overflows_example =
    parse_decision-overflows far_reply running_board
      (reply_with "search_for_object" (Json.object far_fields)) far_fields false 5000 Json.null refl
      refl refl refl refl refl refl refl

abbrev settings_of : Planner F ℕ → Settings F ℕ
settings_of planner = record {
  planner = planner;
  backend = counting;
  cancel_requested = λ w. (false, w);
  consecutive_failure_limit = 3;
  no_progress_limit = 5;
}

abbrev observing : Settings F ℕ
observing = settings_of (λ b w. (ok observe_reply, w))

abbrev silent : Settings F ℕ
silent = settings_of (λ b w. (err (planner_failure "timed out"), w))

abbrev hasty : Settings F ℕ
hasty = settings_of (λ b w.
    (ok (Reply.decoded (Json.object (reply_with "approach_confirmed_object" Json.null))), w))

abbrev find_chair : MissionAction
find_chair = record {
  request_id = "r-1";
  objective = "find the chair";
  completion_policy = CompletionPolicy.report_confirmed;
  object_request = "chair";
  version = schema_version;
}

abbrev new_runtime : Runtime F ℕ
new_runtime = record {
  executive = new_executive none "lab";
  dispatcher = new_dispatcher;
  world = 0;
  decisions = 0;
}

run-IsSound_example : IsSound (run 4 observing find_chair new_runtime).1.executive.board
run-IsSound_example =
    run-IsSound 4 observing find_chair new_runtime (new_executive-IsSound none "lab")

run-HasFailed_example : HasFailed 3 (run 3 silent find_chair new_runtime)
unfolding decide
run-HasFailed_example =
    run-HasFailed 2 silent find_chair new_runtime (λ w. refl)
      (λ b w live. (
        "timed out",
        rw (ap (λ (l : LifecycleState). same_state l LifecycleState.running) live) refl,
      ))
      refl refl (omega arith)

abbrev live_runtime : Runtime F ℕ
live_runtime = record new_runtime {
  executive = record new_runtime.executive { board = running_board };
}

round-raises_unconfirmed_example :
    ((round hasty live_runtime).0 ≡ err unconfirmed)
    × ((round hasty live_runtime).1.executive ≡ live_runtime.executive)
unfolding decide
round-raises_unconfirmed_example =
    round-raises_unconfirmed hasty live_runtime refl refl refl refl refl refl
