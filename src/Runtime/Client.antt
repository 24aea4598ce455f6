-- ===== src/Runtime/Client.antt =====
-- The runtime as a client of the executive (runtime.py): which parts of a round are calls of its public
-- methods.
use muto_rs_deployment_test.Prelude.{
  ℕ, zero, suc, Bool, true, false, Option, none, some, List, [], ◌∷◌, String, Floats, ◌≡◌, refl,
  nonempty, leb, if◌then◌else◌, Bool-cases, inl, inr,
}
use mathlib.Core.Path.{subst}
use muto_rs_deployment_test.Result.{Failure, Result, ok, err}
use muto_rs_deployment_test.Contracts.{MissionAction, terminal}
use muto_rs_deployment_test.Executive.State.{MissionExecutive}
use muto_rs_deployment_test.Executive.Calls.{Call, perform, perform_all}
use muto_rs_deployment_test.Executive.Soundness.{IsSound, perform_all-IsSound}
use muto_rs_deployment_test.Tools.Json.{Coercions}
use muto_rs_deployment_test.Tools.Call.{ToolCall, ToolResult}
use muto_rs_deployment_test.Commander.{CommanderDecision, decide}
use muto_rs_deployment_test.Runtime.State.{Settings, Runtime, Method, continue, caught, lift}
use muto_rs_deployment_test.Runtime.Rounds.{
  call, stored, limit_reached, unless_limit, record_failure, proposed, apply_completion,
  dispatch_call, record_exception, record_result, result_or_exception, use_tool,
}
use muto_rs_deployment_test.Runtime.Loop.{
  propose, act, same_optional_skill, decided, carry_out, with_decision, plan, canceled_or_plan,
  round, go_on, rounds, run,
}

module _ {F : Type 0} ⦃fl : Floats F⦄ where
  -- an executive that calls lead to
  pub data Follows : MissionExecutive F → MissionExecutive F → Type 0 where
    stays : {e : MissionExecutive F} → Follows e e
    calls : {e e' : MissionExecutive F} (c : Call F) → Follows (perform c e).1 e' → Follows e e'

  Follows-trans : {a b c : MissionExecutive F} → Follows a b → Follows b c → Follows a c
  Follows-trans Follows.stays q = q
  Follows-trans (Follows.calls k p) q = Follows.calls k (Follows-trans p q)

  -- It is what a sequence of calls does.
  Follows-calls :
      {a b : MissionExecutive F} → Follows a b → (cs : List (Call F)) × (perform_all cs a ≡ b)
  unfolding perform_all
  Follows-calls Follows.stays = ([], refl)
  Follows-calls (Follows.calls k p) = let (cs, e) = Follows-calls p in (k ∷ cs, e)

module _ {F W : Type 0} ⦃fl : Floats F⦄ where
  abbrev IsClient : {A : Type 0} → Method F W A → Type 0
  IsClient m = (s : Runtime F W) → Follows s.executive (m s).1.executive

  continue-Follows :
      {A B : Type 0} (e : MissionExecutive F) (m : Result A × Runtime F W) (f : A → Method F W B)
      → Follows e m.1.executive
      → ((a : A) → IsClient (f a))
      → Follows e (continue m f).1.executive
  continue-Follows e (ok a, s) f p q = Follows-trans p (q a s)
  continue-Follows e (err why, s) f p q = p

  caught-Follows :
      {A : Type 0} (e : MissionExecutive F) (m : Result A × Runtime F W)
      (f : Failure → Method F W A)
      → Follows e m.1.executive
      → ((why : Failure) → IsClient (f why))
      → Follows e (caught m f).1.executive
  caught-Follows e (ok a, s) f p q = p
  caught-Follows e (err why, s) f p q = Follows-trans p (q why s)

  stored-executive :
      (s : Runtime F W) (out : Result _ × MissionExecutive F) → (stored s out).1.executive ≡ out.1
  stored-executive s (ok _, e) = refl
  stored-executive s (err why, e) = refl

  call-IsClient : (c : Call F) → IsClient (call c)
  unfolding call
  call-IsClient c s =
      rw (stored-executive s (perform c s.executive)) (Follows.calls c Follows.stays)

  call_then :
      {A : Type 0} (c : Call F) (f : Unit {0} → Method F W A)
      → ((u : Unit {0}) → IsClient (f u))
      → IsClient (λ s. continue (call c s) f)
  call_then c f h s = continue-Follows s.executive (call c s) f (call-IsClient c s) h

  branch :
      {A : Type 0} (c : Bool) (m n : Method F W A)
      → IsClient m
      → IsClient n
      → IsClient (if c then m else n)
  branch true m n p q = p
  branch false m n p q = q

  limit_reached-IsClient : (settings : Settings F W) → IsClient (limit_reached settings)
  unfolding limit_reached
  limit_reached-IsClient settings s =
      branch (terminal s.executive.board.lifecycle_state) _ _ (λ t. Follows.stays)
        (branch (leb settings.consecutive_failure_limit s.executive.board.consecutive_failures) _ _
          (call_then _ _ λ _ t. Follows.stays)
          (branch (leb settings.no_progress_limit s.executive.board.no_progress_count) _ _
            (call_then _ _ λ _ t. Follows.stays) (λ t. Follows.stays)))
        s

  unless_limit-IsClient : (settings : Settings F W) → IsClient (unless_limit settings)
  unless_limit-IsClient settings s =
      continue-Follows s.executive (limit_reached settings s) _ (limit_reached-IsClient settings s)
        λ _ t. Follows.stays

  record_failure-IsClient :
      (settings : Settings F W) (reason detail : String)
      → IsClient (record_failure settings reason detail)
  unfolding record_failure
  record_failure-IsClient settings reason detail = call_then _ _ λ _. unless_limit-IsClient settings

  apply_completion-IsClient : (proposal : String) → IsClient (apply_completion proposal)
  unfolding apply_completion
  apply_completion-IsClient proposal s =
      caught-Follows s.executive _ _
        (continue-Follows s.executive
          (lift
            (proposed s.executive.board.completion_policy proposal
              s.executive.board.confirmed_target_id)
            s)
          _ Follows.stays (λ c. call-IsClient (Call.complete c)))
        (λ why. call-IsClient _)

  dispatch_call-IsClient :
      (settings : Settings F W) (c : ToolCall F) → IsClient (dispatch_call settings c)
  unfolding dispatch_call
  dispatch_call-IsClient settings c s = Follows.stays

  record_exception-IsClient :
      (settings : Settings F W) (c : ToolCall F) (r : Option (ToolResult F)) (e : Failure)
      → IsClient (record_exception settings c r e)
  unfolding record_exception
  record_exception-IsClient settings c r e = call_then _ _ λ _. unless_limit-IsClient settings

  record_result-IsClient :
      (settings : Settings F W) (c : ToolCall F) (r : ToolResult F)
      → IsClient (record_result settings c r)
  unfolding record_result
  record_result-IsClient settings c r s =
      caught-Follows s.executive _ _ (call_then _ _ (λ _ t. Follows.stays) s)
        (record_exception-IsClient settings c (some r))

  result_or_exception-Follows :
      (settings : Settings F W) (c : ToolCall F) (e : MissionExecutive F)
      (out : Result (ToolResult F) × Runtime F W)
      → Follows e out.1.executive
      → Follows e (result_or_exception settings c out).1.executive
  result_or_exception-Follows settings c e (ok r, s) p =
      Follows-trans p (record_result-IsClient settings c r s)
  result_or_exception-Follows settings c e (err why, s) p =
      Follows-trans p (record_exception-IsClient settings c none why s)

  use_tool-IsClient : (settings : Settings F W) (c : ToolCall F) → IsClient (use_tool settings c)
  unfolding use_tool
  use_tool-IsClient settings c s =
      result_or_exception-Follows settings c s.executive _
        (call_then _ _ (λ _. dispatch_call-IsClient settings c) s)

module _ {F W : Type 0} ⦃fl : Floats F⦄ ⦃co : Coercions F⦄ where
  propose-IsClient :
      (settings : Settings F W) (proposal : Option String) (rationale : String)
      → IsClient (propose settings proposal rationale)
  propose-IsClient settings none rationale = record_failure-IsClient settings _ rationale
  propose-IsClient settings (some proposal) rationale =
      branch (nonempty proposal) _ _
        (λ t.
          continue-Follows t.executive (apply_completion proposal t) _
            (apply_completion-IsClient proposal t) λ _. unless_limit-IsClient settings)
        (record_failure-IsClient settings _ rationale)

  act-IsClient :
      (settings : Settings F W) (d : CommanderDecision F) (tool : Option (ToolCall F))
      → IsClient (act settings d tool)
  act-IsClient settings d none = propose-IsClient settings d.completion_proposal d.rationale
  act-IsClient settings d (some c) = use_tool-IsClient settings c

  carry_out-IsClient :
      (settings : Settings F W) (d : CommanderDecision F) → IsClient (carry_out settings d)
  unfolding carry_out
  carry_out-IsClient settings d s =
      continue-Follows s.executive _ _
        (branch (same_optional_skill s.executive.board.active_skill d.skill) _ _
          (λ t. Follows.stays) (call-IsClient (Call.select_skill d.skill)) s)
        λ _. act-IsClient settings d d.tool

  with_decision-IsClient :
      (settings : Settings F W) (r : Result (CommanderDecision F))
      → IsClient (with_decision settings r)
  with_decision-IsClient settings (ok d) s = carry_out-IsClient settings d s
  with_decision-IsClient settings (err (Failure.planner_failure why)) s =
      record_failure-IsClient settings "invalid_skill_request" why s
  with_decision-IsClient settings (err Failure.duplicate_mission) s = Follows.stays
  with_decision-IsClient settings (err Failure.terminal_mission) s = Follows.stays
  with_decision-IsClient settings (err Failure.overflow) s = Follows.stays
  with_decision-IsClient settings (err (Failure.wrong_state _)) s = Follows.stays
  with_decision-IsClient settings (err (Failure.contract _)) s = Follows.stays
  with_decision-IsClient settings (err (Failure.tool_execution _)) s = Follows.stays
  with_decision-IsClient settings (err (Failure.value_error _)) s = Follows.stays
  with_decision-IsClient settings (err (Failure.io_error _)) s = Follows.stays
  with_decision-IsClient settings (err (Failure.other _)) s = Follows.stays

  decided-executive :
      (s : Runtime F W) (out : Result (CommanderDecision F) × W)
      → (decided s out).executive ≡ s.executive
  decided-executive s (_, w) = refl

  plan-IsClient : (settings : Settings F W) → IsClient (plan settings)
  plan-IsClient settings s =
      with_decision-IsClient settings (decide settings.planner s.executive.board s.world).0
        (decided s (decide settings.planner s.executive.board s.world))

  canceled_or_plan-Follows :
      (settings : Settings F W) (s : Runtime F W) (cancel : Bool × W)
      → Follows s.executive (canceled_or_plan settings s cancel).1.executive
  canceled_or_plan-Follows settings s (true, w) =
      call_then (Call.cancel "cancel_requested") _ (λ _ t. Follows.stays) (record s { world = w })
  canceled_or_plan-Follows settings s (false, w) = plan-IsClient settings (record s { world = w })

  round-IsClient : (settings : Settings F W) → IsClient (round settings)
  unfolding round
  round-IsClient settings s =
      canceled_or_plan-Follows settings s (settings.cancel_requested s.world)

  go_on-Follows :
      (loop : Method F W Bool) (e : MissionExecutive F) (out : Result Bool × Runtime F W)
      → Follows e out.1.executive
      → IsClient loop
      → Follows e (go_on loop out).1.executive
  go_on-Follows loop e (ok true, s) p q = Follows-trans p (q s)
  go_on-Follows loop e (ok false, s) p q = p
  go_on-Follows loop e (err why, s) p q = p

  rounds-IsClient : (n : ℕ) (settings : Settings F W) → IsClient (rounds n settings)
  unfolding rounds
  rounds-IsClient zero settings s = Follows.stays
  rounds-IsClient (suc n) settings s =
      elim (Bool-cases (terminal s.executive.board.lifecycle_state)) [
        | inl e ↦ rw (e, rounds) Follows.stays
        | inr e ↦
            rw (e, rounds)
              (go_on-Follows (rounds n settings) s.executive (round settings s)
                (round-IsClient settings s) (rounds-IsClient n settings))
      ]

  run-IsClient :
      (n : ℕ) (settings : Settings F W) (action : MissionAction) → IsClient (run n settings action)
  unfolding run
  run-IsClient n settings action = call_then (Call.accept action) _ λ _.
      call_then (Call.configure_limits _) _
        λ _. call_then Call.start _ λ _. rounds-IsClient n settings

  -- Whatever the planner, the backend and the test for a cancellation do, after any number of rounds,
  -- and also where the run raises, the executive is what a sequence of calls of its methods makes of
  -- the executive before: the run changes it in no other way.
  pub run-calls :
      (n : ℕ) (settings : Settings F W) (action : MissionAction) (s : Runtime F W)
      → (cs : List (Call F)) × (perform_all cs s.executive ≡ (run n settings action s).1.executive)
  run-calls n settings action s = Follows-calls (run-IsClient n settings action s)

  -- A run from a sound board leaves a sound one, whatever the planner, the backend and the test for a
  -- cancellation do, after any number of rounds, and also where it raises.
  pub run-IsSound :
      (n : ℕ) (settings : Settings F W) (action : MissionAction) (s : Runtime F W)
      → IsSound s.executive.board
      → IsSound (run n settings action s).1.executive.board
  run-IsSound n settings action s h =
      let (cs, e) = run-calls n settings action s in
      subst (λ (x : MissionExecutive F). IsSound x.board) e (perform_all-IsSound cs s.executive h)
