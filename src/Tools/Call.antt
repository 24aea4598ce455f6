-- ===== src/Tools/Call.antt =====
-- `ToolCall` and `ToolResult` (tools.py), with the checks of their constructors.
use muto_rs_deployment_test.Prelude.{
  Bool, not, ◌&&◌, ◌||◌, Option, none, some, List, String, ◌==◌, Floats, nonempty, any, length, eqb,
}
use muto_rs_deployment_test.Result.{Result, ok, contract, guard, ◌>>=◌, ◌>>◌}
use muto_rs_deployment_test.Contracts.{ToolName}
use muto_rs_deployment_test.Contracts.Evidence.{CandidateEvidence, ReachabilityReport}
use muto_rs_deployment_test.Tools.Json.{Json, Coercions, is_finite_number, all_finite_numbers}

-- The candidates, the coordinates and the heading come from the planner as they are: only the
-- checks below look at their types.
pub record ToolCall (F : Type 0) : Type 0 where
  pub tool : ToolName
  pub object_request : String
  pub candidate_ids : List (Json F)
  pub registry_revision : String
  pub candidate_id : String
  pub point : Option (List (Json F))
  pub heading : Option (Json F)
  pub frame_id : String
  pub projection_policy : String

pub record ToolResult (F : Type 0) : Type 0 where
  pub success : Bool
  pub reason_code : String
  pub detail : String
  pub candidate_ids : List String
  pub rejected_candidate_ids : List String
  pub confirmed_target_id : String
  pub registry_revision : String
  pub progress_delta : F
  pub reachability : ReachabilityReport F
  pub evidence : List (CandidateEvidence F)

module _ {F : Type 0} ⦃fl : Floats F⦄ where
  -- `ToolResult.__post_init__`; the evidence are objects already
  unfoldable pub tool_result : ToolResult F → Result (ToolResult F)
  tool_result r = do
    guard (not (fl.lt_f r.progress_delta fl.zero_f))
        (contract "progress_delta must be non-negative")
    guard
        (not (
          nonempty r.confirmed_target_id
          && any (λ c. c == r.confirmed_target_id) r.rejected_candidate_ids))
        (contract "a confirmed candidate cannot also be rejected")
    ok r

module _ {F : Type 0} ⦃fl : Floats F⦄ ⦃co : Coercions F⦄ where
  abbrev check_coordinates : List (Json F) → Result (Unit {0})
  unfolding all_finite_numbers
  check_coordinates xs = do
    finite ← all_finite_numbers xs
    guard finite (contract "point coordinates must be finite numbers")

  unfoldable check_point : Option (List (Json F)) → Result (Unit {0})
  unfolding all_finite_numbers
  check_point none = ok tt
  check_point (some xs) = do
    guard (eqb (length xs) 2) (contract "point must contain x and y")
    check_coordinates xs

  unfoldable check_heading : Option (Json F) → Result (Unit {0})
  check_heading none = ok tt
  check_heading (some x) = do
    finite ← is_finite_number x
    guard finite (contract "heading must be a finite number")

  -- `ToolCall.__post_init__`, of a call whose tool is one of the five
  unfoldable pub tool_call : ToolCall F → Result (ToolCall F)
  unfolding check_point check_heading
  tool_call c = do
    check_point c.point
    check_heading c.heading
    guard (c.frame_id == "map") (contract "motion tools require the map frame")
    guard (c.projection_policy == "reject" || c.projection_policy == "allow")
        (contract "projection_policy must be reject or allow")
    ok c
