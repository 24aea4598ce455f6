-- ===== src/Executive/ToolReport.antt =====
-- `record_tool_result` (executive.py) as far as it reads and raises: its guards, the staleness of a
-- result, and what a result does to the shortlist, the rejections and the confirmation.
use muto_rs_deployment_test.Prelude.{
  Bool, true, false, not, ◌&&◌, ◌||◌, Option, none, some, List, [], ◌∷◌, ◌++◌, String, ◌==◌, Floats,
  nonempty, or_else, any, select, find_first, remove_first, if◌then◌else◌,
}
use muto_rs_deployment_test.Result.{Result, ok, err, contract, guard, ◌>>=◌, ◌>>◌}
use muto_rs_deployment_test.Contracts.{LifecycleState, SkillName, ToolName, skill_tools}
use muto_rs_deployment_test.Contracts.Evidence.{CandidateEvidence, ReachabilityReport}
use muto_rs_deployment_test.Contracts.Request.{confirmation_matches_request, is_empty}
use muto_rs_deployment_test.Contracts.Board.{MissionBoard}
use muto_rs_deployment_test.Executive.Guards.{require_state}

-- The arguments of `record_tool_result`; the evidence are objects already.
pub record ToolReport (F : Type 0) : Type 0 where
  pub tool : ToolName
  pub success : Bool
  pub reason_code : String
  pub detail : String
  pub candidate_id : String
  pub confirmed_target_id : String
  pub candidate_ids : List String
  pub rejected_candidate_ids : List String
  pub registry_revision : String
  pub progress_delta : F
  pub reachability : Option (ReachabilityReport F)
  pub expected_registry_revision : String
  pub evidence : List (CandidateEvidence F)

abbrev pub is_query : ToolName → Bool
is_query ToolName.query_registry = true
is_query _ = false

abbrev pub is_inspect : ToolName → Bool
is_inspect ToolName.inspect_candidates = true
is_inspect _ = false

abbrev pub is_observe : ToolName → Bool
is_observe ToolName.observe = true
is_observe _ = false

abbrev pub is_go_to : ToolName → Bool
is_go_to ToolName.go_to_point = true
is_go_to _ = false

abbrev pub is_search : Option SkillName → Bool
is_search (some SkillName.search_for_object) = true
is_search _ = false

-- `x in xs` of texts
abbrev pub among : String → List String → Bool
among x xs = any (λ y. y == x) xs

abbrev pub differs : String → String → Bool
differs a b = not (a == b)

-- What a result does to the registry's part of the board.
pub record Selection (F : Type 0) : Type 0 where
  pub shortlist : List String
  pub rejected : List String
  pub target : String
  pub confirmed_revision : String
  pub evidence : List (CandidateEvidence F)
  pub matching : Option (CandidateEvidence F)

module _ {F : Type 0} ⦃fl : Floats F⦄ where
  check_skill_tool : SkillName → MissionBoard F → ToolReport F → Result (Unit {0})
  check_skill_tool skill b r = do
    guard (skill_tools skill r.tool) (contract "tool is not allowed by the active skill")
    guard
        (not (is_go_to r.tool && (not (is_search (some skill)) && r.success))
          || r.candidate_id == b.confirmed_target_id)
        (contract "approach result is not for the confirmed target")
    guard (not (fl.lt_f r.progress_delta fl.zero_f))
        (contract "progress_delta must be non-negative")

  abbrev check_skill : Option SkillName → MissionBoard F → ToolReport F → Result (Unit {0})
  unfolding check_skill_tool
  check_skill none b r = err (contract "a skill must be selected before a tool call")
  check_skill (some skill) b r = check_skill_tool skill b r

  -- the guards before the evidence is read
  unfoldable pub check_report : MissionBoard F → ToolReport F → Result (Unit {0})
  unfolding require_state check_skill_tool check_skill
  check_report b r = do require_state LifecycleState.running b; check_skill b.active_skill b r

module _ {F : Type 0} where
  abbrev pub revision_changed : MissionBoard F → ToolReport F → Bool
  revision_changed b r =
      nonempty r.registry_revision
      && (nonempty b.registry_revision && differs r.registry_revision b.registry_revision)

  abbrev pub outside_shortlist : MissionBoard F → ToolReport F → Bool
  outside_shortlist b r =
      is_empty r.candidate_ids
      || any (λ c. not (among c b.shortlisted_candidate_ids)) r.candidate_ids

  abbrev evidence_out_of_scope : ToolReport F → Bool
  evidence_out_of_scope r =
      any
        (λ e.
          differs e.registry_revision r.registry_revision
          || not (among e.candidate_id r.candidate_ids))
        r.evidence

  -- Why a result is recorded as stale: the detail and the revision of the record.
  unfoldable pub stale_reason : MissionBoard F → ToolReport F → Option (String × String)
  stale_reason b r =
      if nonempty r.expected_registry_revision
        && (is_inspect r.tool && differs b.registry_revision r.expected_registry_revision)
      then some (
        or_else r.detail "inspection result arrived after a newer registry revision",
        r.expected_registry_revision,
      )
      else if is_inspect r.tool
          && (nonempty r.registry_revision && differs r.registry_revision b.registry_revision)
      then some (
        or_else r.detail "inspection result revision does not match the board",
        r.registry_revision,
      )
      else if is_inspect r.tool && (nonempty r.registry_revision && outside_shortlist b r)
      then some (
        or_else r.detail "inspection candidate is not in the current shortlist",
        r.registry_revision,
      )
      else if is_inspect r.tool && (nonempty r.registry_revision && evidence_out_of_scope r)
      then some (
        or_else r.detail "inspection evidence is not scoped to the current shortlist",
        r.registry_revision,
      )
      else if revision_changed b r && not (is_query r.tool)
      then some (
        or_else r.detail "non-query result attempted to replace the registry revision",
        r.registry_revision,
      )
      else none

  abbrev no_selection : List String → Selection F
  no_selection shortlist = record {
    shortlist = shortlist;
    rejected = [];
    target = "";
    confirmed_revision = "";
    evidence = [];
    matching = none;
  }

  unfoldable pub initial_selection : MissionBoard F → ToolReport F → Selection F
  initial_selection b r = if revision_changed b r then no_selection [] else record {
    shortlist = b.shortlisted_candidate_ids;
    rejected = b.rejected_candidate_ids;
    target = b.confirmed_target_id;
    confirmed_revision = b.confirmed_registry_revision;
    evidence = b.candidate_evidence;
    matching = none;
  }

  abbrev pub same_revision : MissionBoard F → ToolReport F → Bool
  same_revision b r =
      nonempty r.registry_revision
      && (nonempty b.registry_revision && r.registry_revision == b.registry_revision)

  -- a repeated query of the same revision
  unfoldable pub refresh_selection : List String → String → Selection F → Selection F
  refresh_selection shortlist revision sel =
      let rejected = select (λ c. among c shortlist) sel.rejected in
      if nonempty sel.target && not (among sel.target shortlist)
      then record (no_selection shortlist) { rejected = rejected }
      else record sel {
        shortlist = shortlist;
        rejected = rejected;
        evidence =
            if nonempty sel.target
            then select (λ e. e.registry_revision == revision && among e.candidate_id shortlist)
                sel.evidence
            else sel.evidence;
      }

  unfoldable pub query_selection : MissionBoard F → ToolReport F → Selection F → Selection F
  unfolding refresh_selection
  query_selection b r sel =
      let shortlist = select nonempty r.candidate_ids in
      if same_revision b r
      then refresh_selection shortlist r.registry_revision sel
      else no_selection shortlist

  -- the tool's own part: a query replaces the shortlist, an inspection must stay inside it
  unfoldable pub tool_selection :
      ToolName → MissionBoard F → ToolReport F → Selection F → Result (Selection F)
  unfolding query_selection
  tool_selection ToolName.query_registry b r sel = ok (query_selection b r sel)
  tool_selection ToolName.inspect_candidates b r sel =
      if any (λ c. nonempty c && not (among c sel.shortlist)) r.candidate_ids
      then err (contract "inspection returned a candidate outside the shortlist")
      else ok sel
  tool_selection _ b r sel = ok sel

  -- one round of the loop over `rejected_candidate_ids`
  abbrev pub reject_one : String → Selection F → Selection F
  reject_one c sel = record sel {
    rejected =
        if nonempty c && not (among c sel.rejected) then sel.rejected ++ c ∷ [] else sel.rejected;
    shortlist = remove_first (λ y. y == c) sel.shortlist;
  }

  unfoldable pub reject_candidates : List String → Selection F → Selection F
  reject_candidates [] sel = sel
  reject_candidates (c ∷ cs) sel = reject_candidates cs (reject_one c sel)

  abbrev pub is_match : MissionBoard F → ToolReport F → CandidateEvidence F → Bool
  is_match b r e =
      e.candidate_id == r.confirmed_target_id
      && (e.registry_revision == r.registry_revision
          && confirmation_matches_request b.object_request e.matched_attributes
              e.unmatched_attributes)

  unfoldable pub confirm_matching :
      ToolReport F → Selection F → Option (CandidateEvidence F) → Result (Selection F)
  confirm_matching r sel none =
      err (contract "confirmation requires evidence matching the complete object_request")
  confirm_matching r sel (some e) = ok (record sel {
    target = r.confirmed_target_id;
    confirmed_revision = r.registry_revision;
    rejected = remove_first (λ y. y == r.confirmed_target_id) sel.rejected;
    matching = some e;
  })

  -- the block `if confirmed_target_id:`
  unfoldable pub confirm_target : MissionBoard F → ToolReport F → Selection F → Result (Selection F)
  confirm_target b r sel = do
    guard (r.success && is_inspect r.tool)
        (contract "only a successful inspect_candidates result may confirm a target")
    guard (among r.confirmed_target_id r.candidate_ids)
        (contract "confirmed target was not in the inspected candidates")
    guard (not (revision_changed b r))
        (contract "confirmation belongs to a different registry revision")
    guard (nonempty r.registry_revision) (contract "confirmation requires a registry revision")
    confirm_matching r sel (find_first (is_match b r) r.evidence)

  -- what the result makes of the registry's part of the board
  unfoldable pub reconcile : MissionBoard F → ToolReport F → Result (Selection F)
  unfolding initial_selection tool_selection reject_candidates confirm_target
  reconcile b r = do
    sel ← tool_selection r.tool b r (initial_selection b r)
    let left = reject_candidates r.rejected_candidate_ids sel
    if nonempty r.confirmed_target_id then confirm_target b r left else ok left
