-- ===== src/Executive/ToolResult.antt =====
-- `MissionExecutive.record_tool_result` (executive.py): the board and the events of a result.
use muto_rs_deployment_test.Prelude.{
  ℕ, ◌+◌, Bool, not, ◌&&◌, Option, none, some, List, [], ◌∷◌, String, ◌==◌, ◌<>◌, Floats, nonempty,
  or_else, find_first, length, decimal, if◌then◌else◌,
}
use muto_rs_deployment_test.Result.{ok}
use muto_rs_deployment_test.Contracts.{EventType, event_value}
use muto_rs_deployment_test.Contracts.Evidence.{CandidateEvidence}
use muto_rs_deployment_test.Contracts.Request.{is_empty}
use muto_rs_deployment_test.Contracts.Board.{MissionBoard}
use muto_rs_deployment_test.Contracts.Event.{EventFields, event_of}
use muto_rs_deployment_test.Executive.State.{
  Method, ◌>>=◌, ◌>>◌, lift, with_board, get_board, emit, evolve_board,
}
use muto_rs_deployment_test.Executive.Observe.{given_or, record_stale_registry_result}
use muto_rs_deployment_test.Executive.ToolReport.{
  ToolReport, Selection, is_observe, is_search, check_report, stale_reason, reconcile,
}

abbrev pub outcome_of : Bool → String
outcome_of success = if success then "success" else "failure"

module _ {F : Type 0} ⦃fl : Floats F⦄ where
  abbrev add_if : Bool → F → F → F
  add_if b x d = if b then fl.add_f x d else x

  abbrev no_progress : ToolReport F → ℕ → ℕ
  no_progress r n =
      if r.success then (if fl.eq_f r.progress_delta fl.zero_f then n + 1 else 0) else n

  -- the arguments of `evolve`
  unfoldable pub result_board : MissionBoard F → ToolReport F → Selection F → MissionBoard F
  unfolding decimal
  result_board b r sel = record b {
    active_tool = some r.tool;
    registry_revision = or_else r.registry_revision b.registry_revision;
    shortlisted_candidate_ids = sel.shortlist;
    rejected_candidate_ids = sel.rejected;
    confirmed_target_id = sel.target;
    confirmed_registry_revision = sel.confirmed_revision;
    search_progress = add_if (is_search b.active_skill) b.search_progress r.progress_delta;
    approach_progress =
        add_if (not (is_search b.active_skill)) b.approach_progress r.progress_delta;
    consecutive_failures = if r.success then 0 else b.consecutive_failures + 1;
    no_progress_count = no_progress r b.no_progress_count;
    last_event_type = event_value EventType.tool_result;
    last_outcome = outcome_of r.success;
    last_reason_code = r.reason_code;
    reachability = given_or r.reachability b.reachability;
    candidate_evidence = if is_empty r.evidence then sel.evidence else r.evidence;
    active_command_status = outcome_of r.success;
    visual_evidence_summary =
        if is_empty r.evidence
        then b.visual_evidence_summary
        else decimal (length r.evidence)
          <> " candidate evidence records for registry "
          <> r.registry_revision;
    coverage_summary =
        if is_observe r.tool && r.success
        then or_else r.detail r.reason_code
        else b.coverage_summary;
  }

  -- the fields that an event takes from the evidence of its candidate, if there is any
  abbrev pub with_evidence : Option (CandidateEvidence F) → EventFields F → EventFields F
  with_evidence none f = f
  with_evidence (some e) f = record f {
    evidence_id = e.evidence_id;
    evidence_source = e.source;
    evidence_confidence = e.confidence;
    evidence_timestamp_s = e.observed_at_s;
    evidence_matched_attributes = e.matched_attributes;
    evidence_unmatched_attributes = e.unmatched_attributes;
  }

  abbrev pub evidence_of : ToolReport F → String → Option (CandidateEvidence F)
  evidence_of r c = find_first (λ e. e.candidate_id == c) r.evidence

  abbrev pub result_event : MissionBoard F → ToolReport F → EventFields F
  result_event b r =
      with_evidence
        (if nonempty r.confirmed_target_id then evidence_of r r.confirmed_target_id else none)
        (record (event_of EventType.tool_result) {
          skill = b.active_skill;
          tool = some r.tool;
          outcome = outcome_of r.success;
          reason_code = r.reason_code;
          candidate_id = r.candidate_id;
          registry_revision = r.registry_revision;
          detail = r.detail;
        })

  abbrev evidence_reason : Option (CandidateEvidence F) → String
  evidence_reason none = ""
  evidence_reason (some e) = e.reason_code

  abbrev pub rejected_event : MissionBoard F → ToolReport F → String → EventFields F
  rejected_event b r c =
      with_evidence (evidence_of r c) (record (event_of EventType.candidate_rejected) {
        skill = b.active_skill;
        tool = some r.tool;
        outcome = "rejected";
        reason_code =
            or_else (evidence_reason (evidence_of r c))
              (or_else r.reason_code "candidate_rejected");
        candidate_id = c;
        registry_revision = or_else r.registry_revision b.registry_revision;
      })

  -- the loop over `rejected_candidate_ids` that emits
  unfoldable pub emit_rejected : ToolReport F → List String → Method F (Unit {0})
  emit_rejected r [] = lift (ok tt)
  emit_rejected r (c ∷ cs) =
      let rest = emit_rejected r cs in
      if nonempty c then with_board (λ b. emit (rejected_event b r c) >> rest) else rest

  abbrev pub emit_confirmed :
      ToolReport F → Selection F → Option (CandidateEvidence F) → Method F (Unit {0})
  emit_confirmed r sel none = lift (ok tt)
  emit_confirmed r sel (some e) = with_board λ b.
      emit (record (event_of EventType.candidate_confirmed) {
        skill = b.active_skill;
        tool = some r.tool;
        outcome = "confirmed";
        candidate_id = r.confirmed_target_id;
        registry_revision = sel.confirmed_revision;
        evidence_matched_attributes = e.matched_attributes;
        evidence_unmatched_attributes = e.unmatched_attributes;
      })

  -- the events of a result, in their order
  unfoldable pub emit_result : ToolReport F → Selection F → Method F (MissionBoard F)
  emit_result r sel = do
    with_board (λ b. emit (result_event b r))
    emit_rejected r r.rejected_candidate_ids
    emit_confirmed r sel sel.matching
    get_board

  -- the end of a result that is not stale
  unfoldable pub accept_result : ToolReport F → Method F (MissionBoard F)
  accept_result r =
      with_board
        λ b. do sel ← lift (reconcile b r); evolve_board (result_board b r sel); emit_result r sel

  abbrev pub stale_or_accept : ToolReport F → Option (String × String) → Method F (MissionBoard F)
  stale_or_accept r (some (detail, revision)) = record_stale_registry_result r.tool detail revision
  stale_or_accept r none = accept_result r

  unfoldable pub record_tool_result : ToolReport F → Method F (MissionBoard F)
  record_tool_result r =
      with_board λ b. do lift (check_report b r); stale_or_accept r (stale_reason b r)
