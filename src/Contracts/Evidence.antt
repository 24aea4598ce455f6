-- ===== src/Contracts/Evidence.antt =====
-- The evidence and the reachability report (contracts.py), with what their constructors check.
use muto_rs_deployment_test.Prelude.{
  ℕ, Bool, true, false, not, ◌&&◌, Option, none, some, List, [], ◌∷◌, String, Floats, nonempty,
  strip, if◌then◌else◌,
}
use muto_rs_deployment_test.Result.{Result, ok, contract, ◌>>◌, guard}
use muto_rs_deployment_test.Contracts.{ReachabilityState}

module _ {F : Type 0} ⦃fl : Floats F⦄ where
  -- `not isfinite(x) or x < 0.0` fails
  abbrev pub nonnegative_finite : F → Bool
  nonnegative_finite x = fl.is_finite x && not (fl.lt_f x fl.zero_f)

  abbrev pub optional_nonnegative : Option F → Bool
  optional_nonnegative none = true
  optional_nonnegative (some x) = nonnegative_finite x

  -- the confidence of evidence and of events
  abbrev pub in_unit_interval : Option F → Bool
  in_unit_interval none = true
  in_unit_interval (some c) = fl.is_finite c && (fl.le_f fl.zero_f c && fl.le_f c fl.one_f)

-- `robot_pose` and `selected_pose`: x, y and heading
pub record Pose (F : Type 0) : Type 0 where
  pub x : F
  pub y : F
  pub heading : F

pub record CandidateEvidence (F : Type 0) : Type 0 where
  pub candidate_id : String
  pub registry_revision : String
  pub evidence_id : String
  pub source : String
  pub confidence : Option F
  pub observed_at_s : Option F
  pub reason_code : String
  pub matched_attributes : List String
  pub unmatched_attributes : List String

pub record ReachabilityReport (F : Type 0) : Type 0 where
  pub state : ReachabilityState
  pub reason_code : String
  pub path_length_m : Option F
  pub estimated_time_s : Option F
  pub costmap_revision : Option ℕ
  pub freshness : String
  pub selected_pose : Option (Pose F)
  pub projected : Bool

abbrev pub no_report : {F : Type 0} → ReachabilityReport F
no_report = record {
  state = ReachabilityState.unknown;
  reason_code = "";
  path_length_m = none;
  estimated_time_s = none;
  costmap_revision = none;
  freshness = "unknown";
  selected_pose = none;
  projected = false;
}

-- `_string_tuple`: `values` is a sequence of texts wherever the package calls it
unfoldable pub string_tuple : List String → List String
unfolding strip
string_tuple [] = []
string_tuple (v ∷ vs) =
    let rest = string_tuple vs in if nonempty (strip v) then strip v ∷ rest else rest

module _ {F : Type 0} ⦃fl : Floats F⦄ where
  abbrev pub finite_pose : Pose F → Bool
  finite_pose p = fl.is_finite p.x && (fl.is_finite p.y && fl.is_finite p.heading)

  abbrev pub optional_finite_pose : Option (Pose F) → Bool
  optional_finite_pose none = true
  optional_finite_pose (some p) = finite_pose p

  -- `CandidateEvidence.__post_init__`
  unfoldable pub candidate_evidence : CandidateEvidence F → Result (CandidateEvidence F)
  unfolding strip string_tuple
  candidate_evidence e = do
    guard (nonempty (strip e.candidate_id)) (contract "candidate evidence requires candidate_id")
    guard (nonempty (strip e.registry_revision))
        (contract "candidate evidence requires registry_revision")
    guard (in_unit_interval e.confidence)
        (contract "candidate evidence confidence must be in [0, 1]")
    guard (optional_nonnegative e.observed_at_s)
        (contract "observed_at_s must be finite and non-negative")
    ok (record e {
      matched_attributes = string_tuple e.matched_attributes;
      unmatched_attributes = string_tuple e.unmatched_attributes;
    })

  -- `ReachabilityReport.__post_init__`
  unfoldable pub reachability_report : ReachabilityReport F → Result (ReachabilityReport F)
  reachability_report r = do
    guard (optional_nonnegative r.path_length_m)
        (contract "path_length_m must be finite and non-negative")
    guard (optional_nonnegative r.estimated_time_s)
        (contract "estimated_time_s must be finite and non-negative")
    guard (optional_finite_pose r.selected_pose)
        (contract "selected_pose must be finite x, y, heading")
    ok r
