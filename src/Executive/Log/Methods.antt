-- ===== src/Executive/Log/Methods.antt =====
-- Each method of the executive (executive.py) appends to the log.
use muto_rs_deployment_test.Prelude.{
  Bool, Option, none, some, List, [], ◌∷◌, String, Floats, ◌≡◌, refl, arith, nonempty, Bool-cases,
  inl, inr,
}
use muto_rs_deployment_test.Contracts.{SkillName, ToolName, MissionAction}
use muto_rs_deployment_test.Contracts.Evidence.{CandidateEvidence}
use muto_rs_deployment_test.Contracts.Board.{mission_board}
use muto_rs_deployment_test.Executive.State.{MissionExecutive, emit, evolve_board}
use muto_rs_deployment_test.Executive.Guards.{Completion, may_accept}
use muto_rs_deployment_test.Executive.Lifecycle
use muto_rs_deployment_test.Executive.Lifecycle.{accepting}
use muto_rs_deployment_test.Executive.Observe
use muto_rs_deployment_test.Executive.Observe.{Observation, record_stale_registry_result}
use muto_rs_deployment_test.Executive.ToolReport.{
  ToolReport, Selection, check_report, stale_reason, reconcile,
}
use muto_rs_deployment_test.Executive.ToolResult
use muto_rs_deployment_test.Executive.ToolResult.{
  emit_rejected, emit_confirmed, emit_result, accept_result, result_event, stale_or_accept,
  result_board,
}
use muto_rs_deployment_test.Executive.Calls.{Call, perform}
use muto_rs_deployment_test.Executive.Log.{
  Logs, Logs-same, IsLogged, emit-Logs, evolve_board-Logs, continue-Logs, lift-IsLogged,
  if-IsLogged, get_board-IsLogged, commit-IsLogged,
}

ruleset log_rules = (lift-IsLogged, if-IsLogged, get_board-IsLogged, commit-IsLogged)

module _ {F : Type 0} ⦃fl : Floats F⦄ where
  start-IsLogged : IsLogged (Lifecycle.start {F = F})
  unfolding Lifecycle.start
  start-IsLogged s = search log_rules

  fail-IsLogged : (reason : String) → IsLogged (Lifecycle.fail {F = F} reason)
  unfolding Lifecycle.fail
  fail-IsLogged reason s = search log_rules

  select_skill-IsLogged : (k : SkillName) → IsLogged (Lifecycle.select_skill {F = F} k)
  unfolding Lifecycle.select_skill
  select_skill-IsLogged k s = search log_rules

  record_tool_request-IsLogged :
      (t : ToolName) (detail : String) → IsLogged (Lifecycle.record_tool_request {F = F} t detail)
  unfolding Lifecycle.record_tool_request
  record_tool_request-IsLogged t detail s = search log_rules

  complete-IsLogged : (c : Completion) → IsLogged (Lifecycle.complete {F = F} c)
  unfolding Lifecycle.complete
  complete-IsLogged c s = search log_rules

  cancel-IsLogged : (reason : String) → IsLogged (Lifecycle.cancel {F = F} reason)
  unfolding Lifecycle.cancel
  cancel-IsLogged reason s = search log_rules

  record_recorder_status-IsLogged :
      (available : Bool) (uri reason : String)
      → IsLogged (Observe.record_recorder_status {F = F} available uri reason)
  unfolding Observe.record_recorder_status
  record_recorder_status-IsLogged available uri reason s = search log_rules

  record_planner_failure-IsLogged :
      (reason detail : String) → IsLogged (Observe.record_planner_failure {F = F} reason detail)
  unfolding Observe.record_planner_failure
  record_planner_failure-IsLogged reason detail s = search log_rules

  record_board_observation-IsLogged :
      (o : Observation F) → IsLogged (Observe.record_board_observation {F = F} o)
  unfolding Observe.record_board_observation
  record_board_observation-IsLogged o s = search log_rules

  configure_limits-IsLogged :
      (limits : List String) → IsLogged (Observe.configure_limits {F = F} limits)
  unfolding Observe.configure_limits
  configure_limits-IsLogged limits s = search log_rules

  accepting-Logs :
      (a : MissionAction) (s : MissionExecutive F) → (accepting a s).1.events ≡ s.events
  unfolding mission_board
  accepting-Logs a s = ground arith

  accept-IsLogged : (a : MissionAction) → IsLogged (Lifecycle.accept {F = F} a)
  unfolding Lifecycle.accept
  accept-IsLogged a s =
      if-IsLogged s (may_accept s.board.lifecycle_state) _ _
        (continue-Logs s (accepting a s) _ (Logs-same s _ (accepting-Logs a s))
          λ _ t h. continue-Logs s (emit _ t) _ (emit-Logs s t _ h) (λ _ _ k. k))
        (Logs-same s s refl)

  emit_rejected-Logs :
      (s t : MissionExecutive F) (r : ToolReport F) (cs : List String)
      → Logs s t
      → Logs s (emit_rejected r cs t).1
  unfolding emit_rejected
  emit_rejected-Logs s t r [] h = h
  emit_rejected-Logs s t r (c ∷ cs) h = elim (Bool-cases (nonempty c)) [
    | inr e ↦ rw e (emit_rejected-Logs s t r cs h)
    | inl e ↦
        rw e (
          continue-Logs s (emit _ t) _ (emit-Logs s t _ h) (λ _ u k. emit_rejected-Logs s u r cs k))
  ]

  emit_confirmed-Logs :
      (s t : MissionExecutive F) (r : ToolReport F) (sel : Selection F)
      (m : Option (CandidateEvidence F))
      → Logs s t
      → Logs s (emit_confirmed r sel m t).1
  emit_confirmed-Logs s t r sel none h = h
  emit_confirmed-Logs s t r sel (some e) h = emit-Logs s t _ h

  emit_result-Logs :
      (s t : MissionExecutive F) (r : ToolReport F) (sel : Selection F)
      → Logs s t
      → Logs s (emit_result r sel t).1
  unfolding emit_result
  emit_result-Logs s t r sel h =
      continue-Logs s (emit (result_event t.board r) t) _ (emit-Logs s t _ h) λ _ u k.
        continue-Logs s (emit_rejected r r.rejected_candidate_ids u) _
          (emit_rejected-Logs s u r r.rejected_candidate_ids k)
          λ _ v l.
            continue-Logs s (emit_confirmed r sel sel.matching v) _
              (emit_confirmed-Logs s v r sel sel.matching l) λ _ _ m. m

  accept_result-IsLogged : (r : ToolReport F) → IsLogged (accept_result r)
  unfolding accept_result
  accept_result-IsLogged r s = lift-IsLogged s (reconcile s.board r) _ λ sel.
      continue-Logs s (evolve_board (result_board s.board r sel) s) _ (evolve_board-Logs _ s)
        λ _ t h. emit_result-Logs s t r sel h

  stale_or_accept-IsLogged :
      (r : ToolReport F) (why : Option (String × String)) → IsLogged (stale_or_accept r why)
  unfolding record_stale_registry_result
  stale_or_accept-IsLogged r none s = accept_result-IsLogged r s
  stale_or_accept-IsLogged r (some (detail, revision)) s = commit-IsLogged _ _ s

  record_tool_result-IsLogged : (r : ToolReport F) → IsLogged (ToolResult.record_tool_result r)
  unfolding ToolResult.record_tool_result
  record_tool_result-IsLogged r s =
      lift-IsLogged s (check_report s.board r) _
        (λ _. stale_or_accept-IsLogged r (stale_reason s.board r) s)

  -- Every call, raising or not, appends to the event log and changes nothing that is in it. The events
  -- that it appends are numbered on from the length of the log, and each has the revision, the lifecycle
  -- state and the mission of the board that the call leaves.
  pub perform-Logs : (c : Call F) (s : MissionExecutive F) → Logs s (perform c s).1
  unfolding perform
  perform-Logs (Call.accept a) s = accept-IsLogged a s
  perform-Logs Call.start s = start-IsLogged s
  perform-Logs (Call.select_skill k) s = select_skill-IsLogged k s
  perform-Logs (Call.record_tool_request t detail) s = record_tool_request-IsLogged t detail s
  perform-Logs (Call.record_tool_result r) s = record_tool_result-IsLogged r s
  perform-Logs (Call.record_recorder_status available uri reason) s =
      record_recorder_status-IsLogged available uri reason s
  perform-Logs (Call.complete c) s = complete-IsLogged c s
  perform-Logs (Call.record_planner_failure reason detail) s =
      record_planner_failure-IsLogged reason detail s
  perform-Logs (Call.record_board_observation o) s = record_board_observation-IsLogged o s
  perform-Logs (Call.configure_limits limits) s = configure_limits-IsLogged limits s
  perform-Logs (Call.cancel reason) s = cancel-IsLogged reason s
  perform-Logs (Call.fail reason) s = fail-IsLogged reason s
