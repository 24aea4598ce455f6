-- ===== src/Contracts/Event.antt =====
-- The mission events (contracts.py, `MissionEvent`), with what their constructor checks.
use muto_rs_deployment_test.Prelude.{ℕ, Option, none, List, [], String, Floats, leb}
use muto_rs_deployment_test.Result.{Result, ok, contract, ◌>>◌, guard}
use muto_rs_deployment_test.Contracts.{LifecycleState, SkillName, ToolName, EventType}
use muto_rs_deployment_test.Contracts.Evidence.{
  in_unit_interval, optional_nonnegative, string_tuple,
}

-- What a caller of `_emit` may give by keyword, with its defaults in `event_of`.
pub record EventFields (F : Type 0) : Type 0 where
  pub event_type : EventType
  pub skill : Option SkillName
  pub tool : Option ToolName
  pub outcome : String
  pub reason_code : String
  pub candidate_id : String
  pub registry_revision : String
  pub detail : String
  pub evidence_id : String
  pub evidence_source : String
  pub evidence_confidence : Option F
  pub evidence_timestamp_s : Option F
  pub evidence_matched_attributes : List String
  pub evidence_unmatched_attributes : List String

abbrev pub event_of : {F : Type 0} → EventType → EventFields F
event_of t = record {
  event_type = t;
  skill = none;
  tool = none;
  outcome = "";
  reason_code = "";
  candidate_id = "";
  registry_revision = "";
  detail = "";
  evidence_id = "";
  evidence_source = "";
  evidence_confidence = none;
  evidence_timestamp_s = none;
  evidence_matched_attributes = [];
  evidence_unmatched_attributes = [];
}

pub record MissionEvent (F : Type 0) : Type 0 where
  pub sequence : ℕ
  pub mission_id : String
  pub request_id : String
  pub board_revision : ℕ
  pub lifecycle_state : LifecycleState
  pub fields : EventFields F
  pub open fields use *

-- the event with its attributes normalised
unfoldable pub normal_event : {F : Type 0} → MissionEvent F → MissionEvent F
unfolding string_tuple
normal_event e = record e {
  fields = record e.fields {
    evidence_matched_attributes = string_tuple e.evidence_matched_attributes;
    evidence_unmatched_attributes = string_tuple e.evidence_unmatched_attributes;
  };
}

module _ {F : Type 0} ⦃fl : Floats F⦄ where
  -- `MissionEvent.__post_init__`
  unfoldable pub mission_event : MissionEvent F → Result (MissionEvent F)
  mission_event e = do
    guard (leb 1 e.sequence) (contract "event sequence must start at one")
    guard (in_unit_interval e.evidence_confidence)
        (contract "event evidence_confidence must be in [0, 1]")
    guard (optional_nonnegative e.evidence_timestamp_s)
        (contract "evidence_timestamp_s must be finite and non-negative")
    ok (normal_event e)
