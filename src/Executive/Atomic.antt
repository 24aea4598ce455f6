-- ===== src/Executive/Atomic.antt =====
-- A call that raises leaves the executive as it was (executive.py).
use muto_rs_deployment_test.Prelude.{
  Bool, true, Option, none, some, List, [], ◌∷◌, String, Floats, ◌≡◌, refl, sym, arith, nonempty,
  find_first, All, if-cases, Bool-cases, inl, inr,
}
use mathlib.Core.Path.{subst}
use muto_rs_deployment_test.Result.{Result, ok, err, Failure}
use muto_rs_deployment_test.Contracts.{SkillName, ToolName, MissionAction}
use muto_rs_deployment_test.Contracts.Evidence.{
  CandidateEvidence, in_unit_interval, optional_nonnegative,
}
use muto_rs_deployment_test.Contracts.Board.{MissionBoard, mission_board}
use muto_rs_deployment_test.Contracts.Event.{EventFields}
use muto_rs_deployment_test.Executive.State.{MissionExecutive, Method, continue, emit, evolve_board}
use muto_rs_deployment_test.Executive.Guards.{Completion}
use muto_rs_deployment_test.Executive.Lifecycle
use muto_rs_deployment_test.Executive.Observe
use muto_rs_deployment_test.Executive.Observe.{Observation, record_stale_registry_result}
use muto_rs_deployment_test.Executive.ToolReport.{
  ToolReport, Selection, check_report, stale_reason, reconcile,
}
use muto_rs_deployment_test.Executive.ToolResult
use muto_rs_deployment_test.Executive.ToolResult.{
  result_board, result_event, rejected_event, evidence_of, with_evidence, emit_rejected,
  emit_confirmed, emit_result, accept_result, stale_or_accept,
}
use muto_rs_deployment_test.Executive.Calls.{Call, perform}

abbrev pub IsAtomic : {F A : Type 0} → Method F A → Type 0
IsAtomic {F} m = (s : MissionExecutive F) (e : Failure) → (m s).0 ≡ err e → (m s).1 ≡ s

abbrev NeverRaises : {A : Type 0} → Result A → Type 0
NeverRaises (ok a) = Unit
NeverRaises (err e) = ⊥

never_raises : {m : Result Unit} → m ≡ ok tt → NeverRaises m
never_raises h = subst NeverRaises (sym h) tt

module _ {F : Type 0} ⦃fl : Floats F⦄ where
  start-IsAtomic : IsAtomic (Lifecycle.start {F = F})
  unfolding Lifecycle.start evolve_board emit
  start-IsAtomic s e h = ground arith

  accept-IsAtomic : (a : MissionAction) → IsAtomic (Lifecycle.accept {F = F} a)
  unfolding Lifecycle.accept mission_board emit
  accept-IsAtomic a s e h = ground (arith, fl.zero_finite, fl.zero_not_negative)

  select_skill-IsAtomic : (k : SkillName) → IsAtomic (Lifecycle.select_skill {F = F} k)
  unfolding Lifecycle.select_skill evolve_board emit
  select_skill-IsAtomic k s e h = ground arith

  complete-IsAtomic : (c : Completion) → IsAtomic (Lifecycle.complete {F = F} c)
  unfolding Lifecycle.complete evolve_board emit
  complete-IsAtomic c s e h = ground arith

  record_board_observation-IsAtomic :
      (o : Observation F) → IsAtomic (Observe.record_board_observation {F = F} o)
  unfolding Observe.record_board_observation evolve_board emit
  record_board_observation-IsAtomic o s e h = ground arith

  record_tool_request-IsAtomic :
      (t : ToolName) (detail : String) → IsAtomic (Lifecycle.record_tool_request {F = F} t detail)
  unfolding Lifecycle.record_tool_request evolve_board emit
  record_tool_request-IsAtomic t detail s e h = ground arith

  cancel-IsAtomic : (reason : String) → IsAtomic (Lifecycle.cancel {F = F} reason)
  unfolding Lifecycle.cancel evolve_board emit
  cancel-IsAtomic reason s e h = ground arith

  fail-IsAtomic : (reason : String) → IsAtomic (Lifecycle.fail {F = F} reason)
  unfolding Lifecycle.fail evolve_board emit
  fail-IsAtomic reason s e h = ground arith

  record_recorder_status-IsAtomic :
      (available : Bool) (uri reason : String)
      → IsAtomic (Observe.record_recorder_status {F = F} available uri reason)
  unfolding Observe.record_recorder_status evolve_board emit
  record_recorder_status-IsAtomic available uri reason s e h = ground arith

  record_planner_failure-IsAtomic :
      (reason detail : String) → IsAtomic (Observe.record_planner_failure {F = F} reason detail)
  unfolding Observe.record_planner_failure evolve_board emit
  record_planner_failure-IsAtomic reason detail s e h = ground arith

  configure_limits-IsAtomic :
      (limits : List String) → IsAtomic (Observe.configure_limits {F = F} limits)
  unfolding Observe.configure_limits evolve_board emit
  configure_limits-IsAtomic limits s e h = ground arith

  record_stale_registry_result-IsAtomic :
      (t : ToolName) (detail revision : String)
      → IsAtomic (record_stale_registry_result {F = F} t detail revision)
  unfolding record_stale_registry_result evolve_board emit
  record_stale_registry_result-IsAtomic t detail revision s e h = ground arith

  evolve_board-IsAtomic : (changed : MissionBoard F) → IsAtomic (evolve_board changed)
  unfolding evolve_board
  evolve_board-IsAtomic changed s e h = ground arith

  -- What `CandidateEvidence` checks of the numbers of an evidence, and `MissionEvent` again.
  abbrev pub IsMeasured : CandidateEvidence F → Type 0
  IsMeasured e =
      (in_unit_interval e.confidence ≡ true) × (optional_nonnegative e.observed_at_s ≡ true)

  abbrev OptionMeasured : Option (CandidateEvidence F) → Type 0
  OptionMeasured none = Unit
  OptionMeasured (some e) = IsMeasured e

  find_first-Measured :
      (p : CandidateEvidence F → Bool) (es : List (CandidateEvidence F))
      → All IsMeasured es
      → OptionMeasured (find_first p es)
  find_first-Measured p [] h = tt
  find_first-Measured p (e ∷ es) h =
      if-cases OptionMeasured (p e) (λ _. h.0) (λ _. find_first-Measured p es h.1)

  emit-ok :
      (f : EventFields F) (s : MissionExecutive F)
      → in_unit_interval f.evidence_confidence ≡ true
      → optional_nonnegative f.evidence_timestamp_s ≡ true
      → (emit f s).0 ≡ ok tt
  unfolding emit
  emit-ok f s h k = ground arith

  emit-with_evidence-ok :
      (m : Option (CandidateEvidence F)) (f : EventFields F) (s : MissionExecutive F)
      → OptionMeasured m
      → f.evidence_confidence ≡ none
      → f.evidence_timestamp_s ≡ none
      → (emit (with_evidence m f) s).0 ≡ ok tt
  emit-with_evidence-ok none f s h c t = emit-ok f s (ground arith) (ground arith)
  emit-with_evidence-ok (some e) f s h c t = emit-ok _ s h.0 h.1

module _ {F A B : Type 0} where
  -- A step that is atomic, followed by what never raises.
  continue-atomic :
      (m : Result A × MissionExecutive F) (f : A → Method F B) (s : MissionExecutive F)
      (e : Failure)
      → ((e' : Failure) → m.0 ≡ err e' → m.1 ≡ s)
      → ((a : A) (t : MissionExecutive F) → NeverRaises (f a t).0)
      → (continue m f).0 ≡ err e
      → (continue m f).1 ≡ s
  continue-atomic (err x, t) f s e h k p = h x refl
  continue-atomic (ok a, t) f s e h k p = absurd (subst NeverRaises p (k a t))

  continue-NeverRaises :
      (m : Result A × MissionExecutive F) (f : A → Method F B)
      → NeverRaises m.0
      → ((a : A) (t : MissionExecutive F) → NeverRaises (f a t).0)
      → NeverRaises (continue m f).0
  continue-NeverRaises (ok a, t) f h k = k a t
  continue-NeverRaises (err x, t) f h k = h

module _ {F : Type 0} ⦃fl : Floats F⦄ where
  result_event-ok :
      (r : ToolReport F) (s : MissionExecutive F)
      → All IsMeasured r.evidence
      → (emit (result_event s.board r) s).0 ≡ ok tt
  result_event-ok r s h = elim (Bool-cases (nonempty r.confirmed_target_id)) [
    | inl named ↦ rw named (
        emit-with_evidence-ok (evidence_of r r.confirmed_target_id) _ s (find_first-Measured _ _ h)
          refl refl)
    | inr unnamed ↦ rw unnamed (emit-with_evidence-ok none _ s tt refl refl)
  ]

  emit_rejected-NeverRaises :
      (r : ToolReport F) (cs : List String) (s : MissionExecutive F)
      → All IsMeasured r.evidence
      → NeverRaises (emit_rejected r cs s).0
  unfolding emit_rejected
  emit_rejected-NeverRaises r [] s h = tt
  emit_rejected-NeverRaises r (c ∷ cs) s h = elim (Bool-cases (nonempty c)) [
    | inr e ↦ rw e (emit_rejected-NeverRaises r cs s h)
    | inl e ↦ rw e (
        continue-NeverRaises (emit (rejected_event s.board r c) s) _
          (never_raises
            (emit-with_evidence-ok (evidence_of r c) _ s (find_first-Measured _ _ h) refl refl))
          λ _ t. emit_rejected-NeverRaises r cs t h)
  ]

  emit_confirmed-NeverRaises :
      (r : ToolReport F) (sel : Selection F) (m : Option (CandidateEvidence F))
      (s : MissionExecutive F)
      → NeverRaises (emit_confirmed r sel m s).0
  emit_confirmed-NeverRaises r sel none s = tt
  emit_confirmed-NeverRaises r sel (some e) s = never_raises (emit-ok _ s refl refl)

  emit_result-NeverRaises :
      (r : ToolReport F) (sel : Selection F) (s : MissionExecutive F)
      → All IsMeasured r.evidence
      → NeverRaises (emit_result r sel s).0
  unfolding emit_result
  emit_result-NeverRaises r sel s h =
      continue-NeverRaises (emit (result_event s.board r) s) _
        (never_raises (result_event-ok r s h))
        λ _ t.
          continue-NeverRaises (emit_rejected r r.rejected_candidate_ids t) _
            (emit_rejected-NeverRaises r r.rejected_candidate_ids t h)
            λ _ u.
              continue-NeverRaises (emit_confirmed r sel sel.matching u) _
                (emit_confirmed-NeverRaises r sel sel.matching u) λ _ _. tt

  lift-atomic :
      {A B : Type 0} (r : Result A) (f : A → Method F B) (s : MissionExecutive F) (e : Failure)
      → ((a : A) → (f a s).0 ≡ err e → (f a s).1 ≡ s)
      → (continue (r, s) f).0 ≡ err e
      → (continue (r, s) f).1 ≡ s
  lift-atomic (ok a) f s e k h = k a h
  lift-atomic (err x) f s e k h = refl

  accept_result-IsAtomic :
      (r : ToolReport F) → All IsMeasured r.evidence → IsAtomic (accept_result r)
  unfolding accept_result
  accept_result-IsAtomic r h s e p =
      lift-atomic (reconcile s.board r) _ s e
        (λ sel.
          continue-atomic (evolve_board (result_board s.board r sel) s) _ s e
            (evolve_board-IsAtomic _ s) λ _ t. emit_result-NeverRaises r sel t h)
        p

  stale_or_accept-IsAtomic :
      (r : ToolReport F) (why : Option (String × String))
      → All IsMeasured r.evidence
      → IsAtomic (stale_or_accept r why)
  stale_or_accept-IsAtomic r none h = accept_result-IsAtomic r h
  stale_or_accept-IsAtomic r (some (detail, revision)) h =
      record_stale_registry_result-IsAtomic r.tool detail revision

  record_tool_result-IsAtomic :
      (r : ToolReport F) → All IsMeasured r.evidence → IsAtomic (ToolResult.record_tool_result r)
  unfolding ToolResult.record_tool_result
  record_tool_result-IsAtomic r h s e p =
      lift-atomic (check_report s.board r) _ s e
        (λ _. stale_or_accept-IsAtomic r (stale_reason s.board r) h s e) p

  -- The evidence that a call brings was constructed by `CandidateEvidence`, which checks its numbers.
  abbrev pub BringsMeasured : Call F → Type 0
  BringsMeasured (Call.record_tool_result r) = All IsMeasured r.evidence
  BringsMeasured _ = Unit

  -- A call that raises leaves the executive as it was: board, events and counter. The evidence of a
  -- tool result is assumed to have passed the numeric checks of its constructor.
  pub perform-IsAtomic :
      (c : Call F) (s : MissionExecutive F) {e : Failure}
      → BringsMeasured c
      → (perform c s).0 ≡ err e
      → (perform c s).1 ≡ s
  unfolding perform
  perform-IsAtomic (Call.accept a) s h p = accept-IsAtomic a s _ p
  perform-IsAtomic Call.start s h p = start-IsAtomic s _ p
  perform-IsAtomic (Call.select_skill k) s h p = select_skill-IsAtomic k s _ p
  perform-IsAtomic (Call.record_tool_request t detail) s h p =
      record_tool_request-IsAtomic t detail s _ p
  perform-IsAtomic (Call.record_tool_result r) s h p = record_tool_result-IsAtomic r h s _ p
  perform-IsAtomic (Call.record_recorder_status available uri reason) s h p =
      record_recorder_status-IsAtomic available uri reason s _ p
  perform-IsAtomic (Call.complete c) s h p = complete-IsAtomic c s _ p
  perform-IsAtomic (Call.record_planner_failure reason detail) s h p =
      record_planner_failure-IsAtomic reason detail s _ p
  perform-IsAtomic (Call.record_board_observation o) s h p =
      record_board_observation-IsAtomic o s _ p
  perform-IsAtomic (Call.configure_limits limits) s h p = configure_limits-IsAtomic limits s _ p
  perform-IsAtomic (Call.cancel reason) s h p = cancel-IsAtomic reason s _ p
  perform-IsAtomic (Call.fail reason) s h p = fail-IsAtomic reason s _ p
