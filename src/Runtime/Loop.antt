-- ===== src/Runtime/Loop.antt =====
-- `CommanderRuntime.run` (runtime.py): one round of the loop, and the loop on fuel.
use muto_rs_deployment_test.Prelude.{
  ℕ, zero, suc, ◌+◌, Bool, true, false, not, Option, none, some, List, [], ◌∷◌, String, ◌<>◌,
  Floats, nonempty, decimal, if◌then◌else◌,
}
use muto_rs_deployment_test.Result.{Failure, Result, ok, err}
use muto_rs_deployment_test.Contracts.{SkillName, MissionAction, terminal}
use muto_rs_deployment_test.Executive.Guards.{same_skill}
use muto_rs_deployment_test.Executive.Calls.{Call}
use muto_rs_deployment_test.Tools.Json.{Coercions}
use muto_rs_deployment_test.Tools.Call.{ToolCall}
use muto_rs_deployment_test.Commander.{CommanderDecision, decide}
use muto_rs_deployment_test.Runtime.Rounds.{
  call, unless_limit, record_failure, apply_completion, use_tool,
}
use muto_rs_deployment_test.Runtime.State.{
  Settings, Runtime, Method, ◌>>◌, return, lift, with_board,
}
use muto_rs_deployment_test.Runtime.Rounds.{
  call, unless_limit, record_failure, apply_completion, use_tool,
}

abbrev pub same_optional_skill : Option SkillName → SkillName → Bool
same_optional_skill none skill = false
same_optional_skill (some active) skill = same_skill active skill

-- the limits, as `configure_limits` shows them
abbrev pub limit_texts : {F W : Type 0} → Settings F W → List String
limit_texts settings =
    ("consecutive_failures=" <> decimal settings.consecutive_failure_limit)
    ∷ ("no_progress=" <> decimal settings.no_progress_limit)
    ∷ []

module _ {F W : Type 0} ⦃fl : Floats F⦄ ⦃co : Coercions F⦄ where
  -- a decision without a tool
  abbrev pub propose : Settings F W → Option String → String → Method F W Bool
  propose settings none rationale = record_failure settings "missing_tool_or_completion" rationale
  propose settings (some proposal) rationale =
      if nonempty proposal
      then (do apply_completion proposal; unless_limit settings)
      else record_failure settings "missing_tool_or_completion" rationale

  abbrev pub act : Settings F W → CommanderDecision F → Option (ToolCall F) → Method F W Bool
  act settings d (some c) = use_tool settings c
  act settings d none = propose settings d.completion_proposal d.rationale

  -- what a round does with a decision; the answer of a round says whether the loop goes on
  unfoldable pub carry_out : Settings F W → CommanderDecision F → Method F W Bool
  unfolding call act use_tool propose
  carry_out settings d = with_board λ b. do
    if same_optional_skill b.active_skill d.skill
        then return tt
        else call (Call.select_skill d.skill)
    act settings d d.tool

  abbrev pub with_decision : Settings F W → Result (CommanderDecision F) → Method F W Bool
  with_decision settings (ok d) = carry_out settings d
  with_decision settings (err (Failure.planner_failure why)) =
      record_failure settings "invalid_skill_request" why
  with_decision settings (err e) = lift (err e)

  abbrev pub decided : Runtime F W → Result (CommanderDecision F) × W → Runtime F W
  decided s (_, w) = record s { world = w; decisions = s.decisions + 1 }

  abbrev pub plan : Settings F W → Method F W Bool
  plan settings s =
      let outcome = decide settings.planner s.executive.board s.world in
      with_decision settings outcome.0 (decided s outcome)

  abbrev pub canceled_or_plan : Settings F W → Runtime F W → Bool × W → Result Bool × Runtime F W
  canceled_or_plan settings s (true, w) =
      (do call (Call.cancel "cancel_requested"); return false) (record s { world = w })
  canceled_or_plan settings s (false, w) = plan settings (record s { world = w })

  -- one round of the loop, in a state that is not terminal
  unfoldable pub round : Settings F W → Method F W Bool
  unfolding canceled_or_plan plan call
  round settings s = canceled_or_plan settings s (settings.cancel_requested s.world)

  abbrev pub go_on :
      (Runtime F W → Result Bool × Runtime F W)
      → Result Bool × Runtime F W
      → Result Bool × Runtime F W
  go_on loop (ok true, s) = loop s
  go_on loop (ok false, s) = (ok false, s)
  go_on loop (err e, s) = (err e, s)

  -- At most so many rounds of the loop: `ok true` says that it is not at its end.
  unfoldable pub rounds : ℕ → Settings F W → Method F W Bool
  unfolding round
  rounds zero settings s = (ok (not (terminal s.executive.board.lifecycle_state)), s)
  rounds (suc n) settings s = elim (terminal s.executive.board.lifecycle_state) [
    | true ↦ (ok false, s)
    | false ↦ go_on (rounds n settings) (round settings s)
  ]

  -- `run`, with so many rounds of its loop
  unfoldable pub run : ℕ → Settings F W → MissionAction → Method F W Bool
  unfolding call rounds
  run n settings action = do
    call (Call.accept action)
    call (Call.configure_limits (limit_texts settings))
    call Call.start
    rounds n settings
