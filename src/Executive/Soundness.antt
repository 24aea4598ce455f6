-- ===== src/Executive/Soundness.antt =====
-- The safety of a mission (executive.py): what holds of the board in every state that any sequence of
-- calls can reach.
use muto_rs_deployment_test.Prelude.{
  Bool, true, false, Option, none, some, List, [], ◌∷◌, String, Floats, ◌≡◌, arith, nonempty,
}
use muto_rs_deployment_test.Result.{ok}
use muto_rs_deployment_test.Contracts.{
  LifecycleState, CompletionPolicy, SkillName, ToolName, skill_tools,
}
use muto_rs_deployment_test.Contracts.Board.{MissionBoard, evolved}
use muto_rs_deployment_test.Executive.State.{MissionExecutive, new_executive}
use muto_rs_deployment_test.Executive.Guards.{
  has_current_confirmation, require_state, check_handoff, check_tool, Completion, check_completion,
}
use muto_rs_deployment_test.Executive.ToolReport.{
  ToolReport, Selection, check_report, stale_reason, reconcile,
}
use muto_rs_deployment_test.Executive.ToolResult.{result_board}
use muto_rs_deployment_test.Executive.Calls.{Call, perform, perform_all}
use muto_rs_deployment_test.Executive.Steps.{Step, SameMission}
use muto_rs_deployment_test.Executive.Simulation.{perform-Step}
use muto_rs_deployment_test.Executive.Selection.{
  is_motion_only, reconcile-IsCurrent, reconcile_motion,
}

-- No tool, or a tool of the active skill.
abbrev pub allows : Option SkillName → Option ToolName → Bool
allows skill none = true
allows none (some tool) = false
allows (some skill) (some tool) = skill_tools skill tool

-- The two policies that end with a target.
abbrev pub needs_target : Option CompletionPolicy → Bool
needs_target (some CompletionPolicy.report_confirmed) = true
needs_target (some CompletionPolicy.approach_confirmed) = true
needs_target _ = false

pub record IsSound {F : Type 0} (b : MissionBoard F) : Type 0 where
  -- the active tool belongs to the active skill
  pub tool_allowed : allows b.active_skill b.active_tool ≡ true
  -- a target is confirmed, for the revision of the registry that the board shows
  pub confirmed :
      nonempty b.confirmed_target_id ≡ true → nonempty b.confirmed_registry_revision ≡ true
  pub of_registry :
      nonempty b.confirmed_target_id ≡ true → b.confirmed_registry_revision ≡ b.registry_revision
  -- the robot approaches nothing that is not confirmed
  pub approach_confirmed :
      b.active_skill ≡ some SkillName.approach_confirmed_object
      → nonempty b.confirmed_target_id ≡ true
  -- a mission that should end with a target has one when it has succeeded
  pub success_confirmed :
      b.lifecycle_state ≡ LifecycleState.succeeded
      → needs_target b.completion_policy ≡ true
      → nonempty b.confirmed_target_id ≡ true

pub require_state-lifecycle :
    {F : Type 0} (l : LifecycleState) (b : MissionBoard F)
    → require_state l b ≡ ok tt
    → b.lifecycle_state ≡ l
unfolding require_state
require_state-lifecycle l b h = ground arith

-- Only motion tools belong to the approach skill.
pub approach_motion :
    (t : ToolName)
    → skill_tools SkillName.approach_confirmed_object t ≡ true
    → is_motion_only t ≡ true
approach_motion t h = ground arith

check_tool-allows :
    (k : Option SkillName) (t : ToolName) → check_tool k t ≡ ok tt → allows k (some t) ≡ true
unfolding check_tool
check_tool-allows k t h = ground arith

module _ {F : Type 0} ⦃fl : Floats F⦄ where
  pub check_report-facts :
      (b : MissionBoard F) (r : ToolReport F)
      → check_report b r ≡ ok tt
      → (b.lifecycle_state ≡ LifecycleState.running) × (allows b.active_skill (some r.tool) ≡ true)
  unfolding check_report require_state
  check_report-facts b r h = ground arith

  completion_facts :
      (b : MissionBoard F) (c : Completion)
      → check_completion b c ≡ ok tt
      → needs_target b.completion_policy ≡ true
      → nonempty b.confirmed_target_id ≡ true
  unfolding check_completion
  completion_facts b c h n = ground arith

  handoff_facts :
      (b : MissionBoard F) (k : SkillName)
      → check_handoff b.active_skill k (has_current_confirmation b) ≡ ok tt
      → k ≡ SkillName.approach_confirmed_object
      → nonempty b.confirmed_target_id ≡ true
  unfolding check_handoff
  handoff_facts b k h e = ground arith

  report-approach :
      (b : MissionBoard F) (r : ToolReport F) (sel : Selection F)
      → IsSound b
      → check_report b r ≡ ok tt
      → stale_reason b r ≡ none
      → reconcile b r ≡ ok sel
      → b.active_skill ≡ some SkillName.approach_confirmed_object
      → nonempty sel.target ≡ true
  report-approach b r sel h good fresh e skill =
      let allowed = (check_report-facts b r good).1 in
      let motion = approach_motion r.tool (rw skill at allowed) in
      rw ((reconcile_motion b r {out = sel} motion fresh e).0) (h.approach_confirmed skill)

  report-IsSound :
      (b : MissionBoard F) (r : ToolReport F) (sel : Selection F)
      → IsSound b
      → check_report b r ≡ ok tt
      → stale_reason b r ≡ none
      → reconcile b r ≡ ok sel
      → IsSound (evolved b (result_board b r sel))
  unfolding result_board
  report-IsSound b r sel h good fresh e =
      let facts = check_report-facts b r good in
      let current = reconcile-IsCurrent b r {out = sel} (h.confirmed, h.of_registry) e in
      record {
        tool_allowed = facts.1;
        confirmed = current.confirmed;
        of_registry = current.of_revision;
        approach_confirmed = report-approach b r sel h good fresh e;
        success_confirmed = λ done. ground (arith, facts.0);
      }

  -- A change that keeps the mission keeps its safety.
  notes-IsSound : {b b' : MissionBoard F} → SameMission b b' → IsSound b → IsSound b'
  notes-IsSound same h = ground arith

  pub Step-IsSound : {c : Call F} {b b' : MissionBoard F} → Step c b b' → IsSound b → IsSound b'
  Step-IsSound Step.stays h = h
  Step-IsSound (Step.notes same) h = notes-IsSound same h
  Step-IsSound (Step.accepts a policy scenario number free) h = ground arith
  Step-IsSound (Step.starts {b} live) h = ground arith
  Step-IsSound (Step.selects {b} skill run e) h =
      ground (arith, handoff_facts b skill e, require_state-lifecycle LifecycleState.running b run)
  Step-IsSound (Step.requests {b} tool detail run e) h =
      ground (arith, check_tool-allows b.active_skill tool e)
  Step-IsSound (Step.goes_stale {b} r good) h = ground (arith, check_report-facts b r good)
  Step-IsSound (Step.reports {b} r sel good fresh e) h = report-IsSound b r sel h good fresh e
  Step-IsSound (Step.completes {b} c e) h = ground (arith, completion_facts b c e)
  Step-IsSound (Step.cancels reason live) h = ground arith
  Step-IsSound (Step.fails reason live) h = ground arith

  -- In every state that a sequence of calls reaches from a sound one, whatever the calls raise: the
  -- active tool belongs to the active skill; a confirmed target has a confirmation of the registry
  -- revision that the board shows; the approach skill is active only with a confirmed target; and a
  -- mission that has succeeded under report_confirmed or approach_confirmed has a confirmed target.
  pub perform_all-IsSound :
      (cs : List (Call F)) (s : MissionExecutive F)
      → IsSound s.board
      → IsSound (perform_all cs s).board
  unfolding perform_all
  perform_all-IsSound [] s h = h
  perform_all-IsSound (c ∷ cs) s h =
      perform_all-IsSound cs (perform c s).1 (Step-IsSound (perform-Step c s) h)

  pub new_executive-IsSound :
      (policy : Option CompletionPolicy) (scenario : String)
      → IsSound (new_executive {F = F} policy scenario).board
  new_executive-IsSound policy scenario = ground arith
