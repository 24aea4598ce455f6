-- ===== src/Runtime/Escapes.antt =====
-- A decision that passes the parser and ends the run with an exception (runtime.py, commander.py).
use muto_rs_deployment_test.Prelude.{false, Option, none, Floats, ◌≡◌, refl, arith, ap, ◌+◌}
use muto_rs_deployment_test.Result.{Failure, ok, err}
use muto_rs_deployment_test.Contracts.{LifecycleState, SkillName}
use muto_rs_deployment_test.Executive.State.{MissionExecutive}
use muto_rs_deployment_test.Executive.Guards.{
  has_current_confirmation, require_state, check_handoff,
}
use muto_rs_deployment_test.Executive.Lifecycle
use muto_rs_deployment_test.Executive.Calls.{Call, perform}
use muto_rs_deployment_test.Tools.Json.{Coercions}
use muto_rs_deployment_test.Commander.{CommanderDecision, decide}
use muto_rs_deployment_test.Runtime.State.{Settings, Runtime}
use muto_rs_deployment_test.Runtime.Rounds.{call}
use muto_rs_deployment_test.Runtime.Loop.{carry_out, same_optional_skill, round}
use muto_rs_deployment_test.Runtime.Rejected.{not_canceled, decided-record}

abbrev pub unconfirmed : Failure
unconfirmed =
    Failure.contract "approach skill requires confirmation for the current registry revision"

module _ {F : Type 0} ⦃fl : Floats F⦄ where
  select_skill-raises :
      (e : MissionExecutive F)
      → e.board.lifecycle_state ≡ LifecycleState.running
      → e.board.active_skill ≡ none
      → has_current_confirmation e.board ≡ false
      → perform (Call.select_skill SkillName.approach_confirmed_object) e ≡ (err unconfirmed, e)
  unfolding perform Lifecycle.select_skill require_state check_handoff
  select_skill-raises e live idle none_confirmed = ground arith

module _ {F W : Type 0} ⦃fl : Floats F⦄ where
  call-raises :
      (c : Call F) (s : Runtime F W) {e : Failure}
      → perform c s.executive ≡ (err e, s.executive)
      → call c s ≡ (err e, s)
  unfolding call
  call-raises c s h = rw h refl

module _ {F W : Type 0} ⦃fl : Floats F⦄ ⦃co : Coercions F⦄ where
  carry_out-raises :
      (settings : Settings F W) (d : CommanderDecision F) (s : Runtime F W) {e : Failure}
      → s.executive.board.active_skill ≡ none
      → call (Call.select_skill d.skill) s ≡ (err e, s)
      → carry_out settings d s ≡ (err e, s)
  unfolding carry_out
  carry_out-raises settings d s idle raises =
      rw (ap (λ (o : Option SkillName). same_optional_skill o d.skill) idle, raises) refl

  -- Where the commander returns a decision for the approach, in a running mission that has no
  -- skill and no current confirmation and is not canceled, the round raises the executive's
  -- contract error out of the loop and leaves the executive as it was: running, with no planner
  -- failure recorded.
  pub round-raises_unconfirmed :
      (settings : Settings F W) (s : Runtime F W) {d : CommanderDecision F}
      → (settings.cancel_requested s.world).0 ≡ false
      → (decide settings.planner s.executive.board (settings.cancel_requested s.world).1).0 ≡ ok d
      → d.skill ≡ SkillName.approach_confirmed_object
      → s.executive.board.lifecycle_state ≡ LifecycleState.running
      → s.executive.board.active_skill ≡ none
      → has_current_confirmation s.executive.board ≡ false
      → ((round settings s).0 ≡ err unconfirmed) × ((round settings s).1.executive ≡ s.executive)
  unfolding round
  round-raises_unconfirmed settings s {d} quiet decides approach live idle none_confirmed =
      let w = (settings.cancel_requested s.world).1 in
      let out = decide settings.planner s.executive.board w in
      let t = record s { world = out.1; decisions = s.decisions + 1 } in
      let raises : call (Call.select_skill d.skill) t ≡ (err unconfirmed, t) = rw approach (
        call-raises (Call.select_skill SkillName.approach_confirmed_object) t
          (select_skill-raises s.executive live idle none_confirmed)) in
      rw
        (
          not_canceled settings s (settings.cancel_requested s.world) quiet,
          decided-record (record s { world = w }) out,
          decides,
          carry_out-raises settings d t idle raises,
        )
        (refl, refl)
