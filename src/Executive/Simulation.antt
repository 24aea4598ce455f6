-- ===== src/Executive/Simulation.antt =====
-- The calls of the executive (executive.py), sorted by the step that each makes the board do.
use muto_rs_deployment_test.Prelude.{
  Bool, true, false, ◌||◌, Option, none, some, List, [], ◌∷◌, String, Floats, ◌≡◌, refl, sym, ◌∙◌,
  arith, inl, inr, nonempty, Option-cases, Bool-cases, strip, select, ◌⊎◌, ◌+◌,
}
use mathlib.Core.Path.{subst}
use muto_rs_deployment_test.Result.{ok, err, duplicate_mission, guard}
use muto_rs_deployment_test.Contracts.{
  LifecycleState, SkillName, ToolName, MissionAction, terminal, is_idle,
}
use muto_rs_deployment_test.Contracts.Evidence.{CandidateEvidence}
use muto_rs_deployment_test.Executive.State.{MissionExecutive, continue, get_board, emit}
use muto_rs_deployment_test.Executive.Guards.{
  may_accept, require_state, check_handoff, check_tool, Completion, check_completion,
}
use muto_rs_deployment_test.Executive.Lifecycle
use muto_rs_deployment_test.Executive.Lifecycle.{accepted_board, started, with_skill, requested}
use muto_rs_deployment_test.Executive.Observe
use muto_rs_deployment_test.Executive.Observe.{
  Observation, record_stale_registry_result, stale, nothing_to_project, with_recorder,
  planner_failed, nothing_observed, pose_given_finite, shows_nothing_new, observed, same_texts,
  with_limits,
}
use muto_rs_deployment_test.Executive.ToolReport.{
  ToolReport, Selection, check_report, stale_reason, reconcile,
}
use muto_rs_deployment_test.Executive.ToolResult
use muto_rs_deployment_test.Executive.ToolResult.{
  result_board, emit_rejected, emit_confirmed, emit_result, result_event, accept_result,
}
use muto_rs_deployment_test.Executive.Calls.{Call, perform}
use muto_rs_deployment_test.Executive.Rules.{
  lift-board, if-board, commit-board, continue-board, emit-board, evolve_board-cases,
}
use muto_rs_deployment_test.Executive.Steps.{Step}

module _ {F : Type 0} ⦃fl : Floats F⦄ where
  accept-cases :
      (a : MissionAction) (s : MissionExecutive F)
      → may_accept s.board.lifecycle_state ≡ true
      → ((Lifecycle.accept a s).1.board ≡ s.board)
        ⊎ ((Lifecycle.accept a s).1.board
            ≡ accepted_board a s.scenario_completion_policy s.scenario_id (s.mission_counter + 1))
  unfolding Lifecycle.accept emit
  accept-cases a s h = ground arith

  accept-refused :
      (a : MissionAction) (s : MissionExecutive F)
      → may_accept s.board.lifecycle_state ≡ false
      → Lifecycle.accept a s ≡ (err duplicate_mission, s)
  unfolding Lifecycle.accept
  accept-refused a s h = ground arith

  accept-Step :
      (a : MissionAction) (s : MissionExecutive F)
      → Step (Call.accept a) s.board (Lifecycle.accept a s).1.board
  accept-Step a s = elim (Bool-cases (may_accept s.board.lifecycle_state)) [
    | inr no_ ↦ rw (accept-refused a s no_) Step.stays
    | inl free ↦ elim (accept-cases a s free) [
      | inl e ↦ subst (Step (Call.accept a) s.board) (sym e) Step.stays
      | inr e ↦
          subst (Step (Call.accept a) s.board) (sym e)
            (Step.accepts a s.scenario_completion_policy s.scenario_id _ free)
    ]
  ]

  start-Step : (s : MissionExecutive F) → Step Call.start s.board (Lifecycle.start s).1.board
  unfolding Lifecycle.start
  start-Step s =
      lift-board (Step Call.start s.board) (require_state LifecycleState.accepted s.board) _ s
        Step.stays
        λ _ e. commit-board (Step Call.start s.board) _ _ s Step.stays (λ _. Step.starts e)

  select_skill-Step :
      (k : SkillName) (s : MissionExecutive F)
      → Step (Call.select_skill k) s.board (Lifecycle.select_skill k s).1.board
  unfolding Lifecycle.select_skill
  select_skill-Step k s =
      lift-board (Step (Call.select_skill k) s.board) (require_state LifecycleState.running s.board)
        _ s Step.stays
        λ _ run.
          lift-board (Step (Call.select_skill k) s.board) (check_handoff s.board.active_skill k _) _
            s Step.stays
            λ _ e.
              commit-board (Step (Call.select_skill k) s.board) _ _ s Step.stays
                (λ _. Step.selects k run e)

  record_tool_request-Step :
      (t : ToolName) (detail : String) (s : MissionExecutive F)
      → Step
          (Call.record_tool_request t detail)
          s.board
          (Lifecycle.record_tool_request t detail s).1.board
  unfolding Lifecycle.record_tool_request
  record_tool_request-Step t detail s =
      lift-board (Step (Call.record_tool_request t detail) s.board)
        (require_state LifecycleState.running s.board) _ s Step.stays
        λ _ run.
          lift-board (Step (Call.record_tool_request t detail) s.board)
            (check_tool s.board.active_skill t) _ s Step.stays
            λ _ e.
              commit-board (Step (Call.record_tool_request t detail) s.board) _ _ s Step.stays
                (λ _. Step.requests t detail run e)

  complete-Step :
      (c : Completion) (s : MissionExecutive F)
      → Step (Call.complete c) s.board (Lifecycle.complete c s).1.board
  unfolding Lifecycle.complete
  complete-Step c s =
      lift-board (Step (Call.complete c) s.board) (check_completion s.board c) _ s Step.stays λ _ e.
        commit-board (Step (Call.complete c) s.board) _ _ s Step.stays (λ _. Step.completes c e)

  cancel-Step :
      (reason : String) (s : MissionExecutive F)
      → Step (Call.cancel reason) s.board (Lifecycle.cancel reason s).1.board
  unfolding Lifecycle.cancel
  cancel-Step reason s =
      if-board (Step (Call.cancel reason) s.board)
        (terminal s.board.lifecycle_state || is_idle s.board.lifecycle_state) get_board _ s
        (λ _. Step.stays)
        λ e.
          commit-board (Step (Call.cancel reason) s.board) _ _ s Step.stays
            (λ _. Step.cancels reason e)

  fail-Step :
      (reason : String) (s : MissionExecutive F)
      → Step (Call.fail reason) s.board (Lifecycle.fail reason s).1.board
  unfolding Lifecycle.fail
  fail-Step reason s =
      if-board (Step (Call.fail reason) s.board)
        (terminal s.board.lifecycle_state || is_idle s.board.lifecycle_state) get_board _ s
        (λ _. Step.stays)
        λ live.
          lift-board (Step (Call.fail reason) s.board) (guard (nonempty (strip reason)) _) _ s
            Step.stays
            λ _ _.
              commit-board (Step (Call.fail reason) s.board) _ _ s Step.stays
                (λ _. Step.fails reason live)

  record_recorder_status-Step :
      (available : Bool) (uri reason : String) (s : MissionExecutive F)
      → Step
          (Call.record_recorder_status available uri reason)
          s.board
          (Observe.record_recorder_status available uri reason s).1.board
  unfolding Observe.record_recorder_status
  record_recorder_status-Step available uri reason s =
      if-board (Step (Call.record_recorder_status available uri reason) s.board)
        (nothing_to_project available uri s.board) get_board _ s (λ _. Step.stays)
        λ _.
          commit-board (Step (Call.record_recorder_status available uri reason) s.board)
            (with_recorder available uri reason s.board) _ s Step.stays
            (λ _. Step.notes (ground arith))

  record_planner_failure-Step :
      (reason detail : String) (s : MissionExecutive F)
      → Step
          (Call.record_planner_failure reason detail)
          s.board
          (Observe.record_planner_failure reason detail s).1.board
  unfolding Observe.record_planner_failure
  record_planner_failure-Step reason detail s =
      lift-board (Step (Call.record_planner_failure reason detail) s.board)
        (require_state LifecycleState.running s.board) _ s Step.stays
        λ _ _.
          lift-board (Step (Call.record_planner_failure reason detail) s.board)
            (guard (nonempty (strip reason)) _) _ s Step.stays
            λ _ _.
              commit-board (Step (Call.record_planner_failure reason detail) s.board)
                (planner_failed reason s.board) _ s Step.stays (λ _. Step.notes (ground arith))

  record_board_observation-Step :
      (o : Observation F) (s : MissionExecutive F)
      → Step
          (Call.record_board_observation o)
          s.board
          (Observe.record_board_observation o s).1.board
  unfolding Observe.record_board_observation
  record_board_observation-Step o s =
      if-board (Step (Call.record_board_observation o) s.board) (nothing_observed o) get_board _ s
        (λ _. Step.stays)
        λ _.
          lift-board (Step (Call.record_board_observation o) s.board)
            (guard (pose_given_finite o.robot_pose) _) _ s Step.stays
            λ _ _.
              if-board (Step (Call.record_board_observation o) s.board)
                (shows_nothing_new s.board o) get_board _ s (λ _. Step.stays)
                λ _.
                  commit-board (Step (Call.record_board_observation o) s.board) (observed s.board o)
                    _ s Step.stays (λ _. Step.notes (ground arith))

  configure_limits-Step :
      (limits : List String) (s : MissionExecutive F)
      → Step (Call.configure_limits limits) s.board (Observe.configure_limits limits s).1.board
  unfolding Observe.configure_limits
  configure_limits-Step limits s =
      if-board (Step (Call.configure_limits limits) s.board)
        (same_texts (select nonempty limits) s.board.active_limits) get_board _ s (λ _. Step.stays)
        λ _.
          commit-board (Step (Call.configure_limits limits) s.board)
            (with_limits (select nonempty limits) s.board) _ s Step.stays
            (λ _. Step.notes (ground arith))

  emit_rejected-board :
      (r : ToolReport F) (cs : List String) (s : MissionExecutive F)
      → (emit_rejected r cs s).1.board ≡ s.board
  unfolding emit_rejected
  emit_rejected-board r [] s = refl
  emit_rejected-board r (c ∷ cs) s =
      if-board (λ b. b ≡ s.board) (nonempty c) _ (emit_rejected r cs) s
        (λ _. continue-board (emit _ s) _ (λ _ t. emit_rejected-board r cs t) ∙ emit-board _ s)
        λ _. emit_rejected-board r cs s

  emit_confirmed-board :
      (r : ToolReport F) (sel : Selection F) (m : Option (CandidateEvidence F))
      (s : MissionExecutive F)
      → (emit_confirmed r sel m s).1.board ≡ s.board
  emit_confirmed-board r sel none s = refl
  emit_confirmed-board r sel (some e) s = emit-board _ s

  pub emit_result-board :
      (r : ToolReport F) (sel : Selection F) (s : MissionExecutive F)
      → (emit_result r sel s).1.board ≡ s.board
  unfolding emit_result
  emit_result-board r sel s =
      continue-board (emit (result_event s.board r) s) _ (λ _ t.
        continue-board (emit_rejected r r.rejected_candidate_ids t) _ (λ _ u.
          continue-board (emit_confirmed r sel sel.matching u) _ (λ _ _. refl)
          ∙ emit_confirmed-board r sel sel.matching u)
        ∙ emit_rejected-board r r.rejected_candidate_ids t)
      ∙ emit-board _ s

  accept_result-Step :
      (r : ToolReport F) (s : MissionExecutive F)
      → check_report s.board r ≡ ok tt
      → stale_reason s.board r ≡ none
      → Step (Call.record_tool_result r) s.board (accept_result r s).1.board
  unfolding accept_result
  accept_result-Step r s good fresh =
      lift-board (Step (Call.record_tool_result r) s.board) (reconcile s.board r) _ s Step.stays
        λ sel e. elim (evolve_board-cases (result_board s.board r sel) s) [
          | inl (done, _) ↦
              subst
                (λ m.
                  Step (Call.record_tool_result r) s.board
                    (continue m (λ _. emit_result r sel)).1.board)
                (sym done)
                (subst (Step (Call.record_tool_result r) s.board) (sym (emit_result-board r sel _))
                  (Step.reports r sel good fresh e))
          | inr (why, raised) ↦
              subst
                (λ m.
                  Step (Call.record_tool_result r) s.board
                    (continue m (λ _. emit_result r sel)).1.board)
                (sym raised) Step.stays
        ]

  record_tool_result-Step :
      (r : ToolReport F) (s : MissionExecutive F)
      → Step (Call.record_tool_result r) s.board (ToolResult.record_tool_result r s).1.board
  unfolding ToolResult.record_tool_result
  record_tool_result-Step r s =
      lift-board (Step (Call.record_tool_result r) s.board) (check_report s.board r) _ s Step.stays
        λ _ good. elim (Option-cases (stale_reason s.board r)) [
          | inl fresh ↦ rw fresh (accept_result-Step r s good fresh)
          | inr ((detail, revision), e) ↦ rw e (
              unfold record_stale_registry_result in
              commit-board (Step (Call.record_tool_result r) s.board) (stale r.tool s.board) _ s
                Step.stays (λ _. Step.goes_stale r good))
        ]

  -- Whatever the call and the state, raising or not, the board makes at most one step of the machine.
  pub perform-Step : (c : Call F) (s : MissionExecutive F) → Step c s.board (perform c s).1.board
  unfolding perform
  perform-Step (Call.accept a) s = accept-Step a s
  perform-Step Call.start s = start-Step s
  perform-Step (Call.select_skill k) s = select_skill-Step k s
  perform-Step (Call.record_tool_request t detail) s = record_tool_request-Step t detail s
  perform-Step (Call.record_tool_result r) s = record_tool_result-Step r s
  perform-Step (Call.record_recorder_status available uri reason) s =
      record_recorder_status-Step available uri reason s
  perform-Step (Call.complete c) s = complete-Step c s
  perform-Step (Call.record_planner_failure reason detail) s =
      record_planner_failure-Step reason detail s
  perform-Step (Call.record_board_observation o) s = record_board_observation-Step o s
  perform-Step (Call.configure_limits limits) s = configure_limits-Step limits s
  perform-Step (Call.cancel reason) s = cancel-Step reason s
  perform-Step (Call.fail reason) s = fail-Step reason s
