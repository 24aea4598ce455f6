-- ===== src/Executive/Life.antt =====
-- The life of a mission (executive.py): which changes of the lifecycle state the calls can make.
use muto_rs_deployment_test.Prelude.{
  Bool, true, false, none, some, Floats, ◌≡◌, refl, arith, ◌⊎◌, inl, inr, eq_iff,
}
use muto_rs_deployment_test.Result.{ok}
use muto_rs_deployment_test.Contracts.{LifecycleState, SkillName, MissionAction}
use muto_rs_deployment_test.Contracts.Board.{MissionBoard, evolved}
use muto_rs_deployment_test.Executive.State.{MissionExecutive}
use muto_rs_deployment_test.Executive.Guards.{
  may_accept, require_state, check_handoff, has_current_confirmation, Completion, check_completion,
}
use muto_rs_deployment_test.Executive.ToolReport.{
  ToolReport, Selection, check_report, stale_reason, reconcile,
}
use muto_rs_deployment_test.Executive.ToolResult.{result_board}
use muto_rs_deployment_test.Executive.Calls.{Call, perform}
use muto_rs_deployment_test.Executive.Steps.{Step, SameMission}
use muto_rs_deployment_test.Executive.Simulation.{perform-Step}
use muto_rs_deployment_test.Executive.Selection.{reconcile_motion}
use muto_rs_deployment_test.Executive.Soundness.{
  IsSound, require_state-lifecycle, check_report-facts, approach_motion,
}

-- The diagram of a mission's life, besides staying where it is.
abbrev pub may_move : LifecycleState → LifecycleState → Bool
may_move LifecycleState.idle LifecycleState.accepted = true
may_move LifecycleState.accepted LifecycleState.running = true
may_move LifecycleState.accepted LifecycleState.canceled = true
may_move LifecycleState.accepted LifecycleState.failed = true
may_move LifecycleState.running LifecycleState.succeeded = true
may_move LifecycleState.running LifecycleState.canceled = true
may_move LifecycleState.running LifecycleState.failed = true
may_move LifecycleState.succeeded LifecycleState.accepted = true
may_move LifecycleState.canceled LifecycleState.accepted = true
may_move LifecycleState.failed LifecycleState.accepted = true
may_move _ _ = false

handoff_from_approach :
    (k : SkillName) (confirmed : Bool)
    → check_handoff (some SkillName.approach_confirmed_object) k confirmed ≡ ok tt
    → k ≡ SkillName.approach_confirmed_object
unfolding check_handoff
handoff_from_approach k confirmed h = ground arith

module _ {F : Type 0} ⦃fl : Floats F⦄ where
  result_board-lifecycle :
      (b : MissionBoard F) (r : ToolReport F) (sel : Selection F)
      → (result_board b r sel).lifecycle_state ≡ b.lifecycle_state
  unfolding result_board
  result_board-lifecycle b r sel = refl

  completion-running :
      (b : MissionBoard F) (c : Completion)
      → check_completion b c ≡ ok tt
      → b.lifecycle_state ≡ LifecycleState.running
  unfolding check_completion require_state
  completion-running b c h = ground arith

  Step-lifecycle :
      {c : Call F} {b b' : MissionBoard F}
      → Step c b b'
      → (b'.lifecycle_state ≡ b.lifecycle_state)
        ⊎ (may_move b.lifecycle_state b'.lifecycle_state ≡ true)
  Step-lifecycle Step.stays = inl refl
  Step-lifecycle (Step.notes same) = inl same.lifecycle
  Step-lifecycle (Step.accepts {b} a policy scenario number free) = inr (ground arith)
  Step-lifecycle (Step.starts {b} live) =
      inr (ground (arith, require_state-lifecycle LifecycleState.accepted b live))
  Step-lifecycle (Step.selects skill run e) = inl refl
  Step-lifecycle (Step.requests tool detail run e) = inl refl
  Step-lifecycle (Step.goes_stale r good) = inl refl
  Step-lifecycle (Step.reports {b} r sel good fresh e) = inl (result_board-lifecycle b r sel)
  Step-lifecycle (Step.completes {b} c e) = inr (ground (arith, completion-running b c e))
  Step-lifecycle (Step.cancels {b} reason live) = inr (ground arith)
  Step-lifecycle (Step.fails {b} reason live) = inr (ground arith)

  -- Every call, raising or not, leaves the lifecycle state or moves it along an arrow of the diagram:
  -- idle to accepted, accepted to running, running to succeeded, accepted or running to canceled or
  -- failed, and from the three ends to accepted again.
  pub perform-lifecycle :
      (c : Call F) (s : MissionExecutive F)
      → ((perform c s).1.board.lifecycle_state ≡ s.board.lifecycle_state)
        ⊎ (may_move s.board.lifecycle_state (perform c s).1.board.lifecycle_state ≡ true)
  perform-lifecycle c s = Step-lifecycle (perform-Step c s)

  -- what an approach must keep
  pub record SameTarget (b b' : MissionBoard F) : Type 0 where
    pub target : b'.confirmed_target_id ≡ b.confirmed_target_id
    pub confirmed_registry : b'.confirmed_registry_revision ≡ b.confirmed_registry_revision
    pub registry : b'.registry_revision ≡ b.registry_revision
    pub skill : b'.active_skill ≡ b.active_skill

  report-SameTarget :
      (b : MissionBoard F) (r : ToolReport F) (sel : Selection F)
      → b.active_skill ≡ some SkillName.approach_confirmed_object
      → IsSound b
      → check_report b r ≡ ok tt
      → stale_reason b r ≡ none
      → reconcile b r ≡ ok sel
      → SameTarget b (result_board b r sel)
  unfolding result_board
  report-SameTarget b r sel skill h good fresh e =
      let allowed = (check_report-facts b r good).1 in
      let motion = approach_motion r.tool (rw skill at allowed) in
      let (target, revision, unchanged) = reconcile_motion b r {out = sel} motion fresh e in
      ground (arith, eq_iff r.registry_revision b.registry_revision)

  evolved-SameTarget : {b b' : MissionBoard F} → SameTarget b b' → SameTarget b (evolved b b')
  evolved-SameTarget same = ground arith

  notes-SameTarget : {b b' : MissionBoard F} → SameMission b b' → SameTarget b b'
  notes-SameTarget same = ground arith

  Step-SameTarget :
      {c : Call F} {b b' : MissionBoard F}
      → Step c b b'
      → b.active_skill ≡ some SkillName.approach_confirmed_object
      → IsSound b
      → SameTarget b b'
        ⊎ ((a : MissionAction) × (c ≡ Call.accept a) × (may_accept b.lifecycle_state ≡ true))
  Step-SameTarget Step.stays skill h = inl (ground arith)
  Step-SameTarget (Step.notes same) skill h = inl (notes-SameTarget same)
  Step-SameTarget (Step.accepts a policy scenario number free) skill h = inr (a, refl, free)
  Step-SameTarget (Step.starts live) skill h = inl (ground arith)
  Step-SameTarget (Step.selects {b} k run e) skill h =
      inl (ground (arith, handoff_from_approach k (has_current_confirmation b) (rw skill at e)))
  Step-SameTarget (Step.requests tool detail run e) skill h = inl (ground arith)
  Step-SameTarget (Step.goes_stale r good) skill h = inl (ground arith)
  Step-SameTarget (Step.reports {b} r sel good fresh e) skill h =
      inl (evolved-SameTarget (report-SameTarget b r sel skill h good fresh e))
  Step-SameTarget (Step.completes c e) skill h = inl (ground arith)
  Step-SameTarget (Step.cancels reason live) skill h = inl (ground arith)
  Step-SameTarget (Step.fails reason live) skill h = inl (ground arith)

  -- While the approach skill is active on a sound board, a call leaves the confirmed target, its
  -- confirmation, the registry revision and the skill as they are, unless it is the acceptance of a
  -- mission in a state that accepts one: idle, succeeded, canceled or failed.
  pub perform-SameTarget :
      (c : Call F) (s : MissionExecutive F)
      → IsSound s.board
      → s.board.active_skill ≡ some SkillName.approach_confirmed_object
      → SameTarget s.board (perform c s).1.board
        ⊎ ((a : MissionAction) × (c ≡ Call.accept a) × (may_accept s.board.lifecycle_state ≡ true))
  perform-SameTarget c s h skill = Step-SameTarget (perform-Step c s) skill h
