-- ===== src/Backends/Authorities.antt =====
-- What the authorities give and are given (backend_adapters.py): the registry's snapshots and
-- decisions, the results of motions, and the state of `V2ToolBackend`.
use muto_rs_deployment_test.Prelude.{
  Bool, Option, none, some, List, [], ◌∷◌, String, ◌==◌, if◌then◌else◌,
}
use muto_rs_deployment_test.Result.{Result}
use muto_rs_deployment_test.Contracts.Board.{MissionBoard}
use muto_rs_deployment_test.Contracts.Evidence.{ReachabilityReport}
use muto_rs_deployment_test.Tools.Json.{Json}

pub record RegistryCandidate : Type 0 where
  pub candidate_id : String
  pub label : String
  pub registry_revision : String
  pub evidence_id : String
  -- the items of a mapping
  pub metadata : List (String × String)

pub record RegistrySnapshot : Type 0 where
  pub revision : String
  pub candidates : List RegistryCandidate
  pub checked : Bool

pub record CandidateDecision (F : Type 0) : Type 0 where
  pub candidate_id : String
  pub confirmed : Bool
  pub confidence : F
  pub reason_code : String
  pub source : String
  pub evidence_id : String
  pub observed_at_s : F
  pub matched_attributes : List String
  pub unmatched_attributes : List String

pub record MotionResult (F : Type 0) : Type 0 where
  pub success : Bool
  pub reason_code : String
  pub detail : String
  pub progress_delta : F
  pub reachability : ReachabilityReport F

-- A point as the planner gave it, or of the registry.
pub data Point (F : Type 0) : Type 0 where
  given : List (Json F) → Point F
  resolved : F → F → Point F

-- `RegistryAuthority`; `cancel_active` may be missing
pub record RegistryAuthority (F W : Type 0) : Type 0 where
  pub query : String → MissionBoard F → W → Result RegistrySnapshot × W
  pub inspect :
      String
      → RegistrySnapshot
      → List String
      → MissionBoard F
      → W
      → Result (List (CandidateDecision F)) × W
  pub cancel_active : Option (W → Result (Unit {0}) × W)

-- `MotionAuthority`
pub record MotionAuthority (F W : Type 0) : Type 0 where
  pub observe : MissionBoard F → W → Result (MotionResult F) × W
  pub rotate_to_heading : Json F → MissionBoard F → W → Result (MotionResult F) × W
  pub go_to_point : Point F → String → MissionBoard F → W → Result (MotionResult F) × W
  pub cancel_active : Option (W → Result (Unit {0}) × W)

-- `_snapshot`, beside the world of the authorities
pub record Adapter (W : Type 0) : Type 0 where
  pub snapshot : RegistrySnapshot
  pub world : W

-- `V2ToolBackend.__init__`
abbrev pub new_adapter : {W : Type 0} → W → Adapter W
new_adapter w = record {
  snapshot = record { revision = ""; candidates = []; checked = Bool.false };
  world = w;
}

-- `mapping.get(key)`
abbrev pub metadata_of : String → List (String × String) → Option String
metadata_of key [] = none
metadata_of key (item ∷ items) =
    let rest = metadata_of key items in if item.0 == key then some item.1 else rest
