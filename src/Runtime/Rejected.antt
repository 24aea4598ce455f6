-- ===== src/Runtime/Rejected.antt =====
-- Rounds whose reply is not usable (runtime.py): they end the mission at the limit on failures.
use muto_rs_deployment_test.Prelude.{
  ℕ, zero, suc, ◌+◌, ◌<◌, Bool, true, false, String, Floats, ◌≡◌, refl, arith, ap, nonempty, strip,
}
use mathlib.Core.Path.{subst}
use muto_rs_deployment_test.Result.{Failure, Result, ok, err}
use muto_rs_deployment_test.Contracts.{LifecycleState, terminal}
use muto_rs_deployment_test.Contracts.Board.{MissionBoard}
use muto_rs_deployment_test.Executive.Calls.{Call, perform}
use muto_rs_deployment_test.Tools.Json.{Coercions}
use muto_rs_deployment_test.Commander.{CommanderDecision, decide}
use muto_rs_deployment_test.Runtime.State.{Settings, Runtime}
use muto_rs_deployment_test.Runtime.Rounds.{record_failure}
use muto_rs_deployment_test.Runtime.Loop.{canceled_or_plan, plan, decided, go_on, round, rounds}
use muto_rs_deployment_test.Runtime.Limits.{
  IsLive, record_planner_failure-board, record_planner_failure-IsLive, fail-board,
  record_failure-stops, record_failure-goes_on,
}

exhausted_given : nonempty (strip "consecutive_failures") ≡ true
unfolding strip
exhausted_given = refl

rejected_given : nonempty (strip "invalid_skill_request") ≡ true
unfolding strip
rejected_given = refl

module _ {F W : Type 0} ⦃fl : Floats F⦄ ⦃co : Coercions F⦄ where
  -- no cancellation, whatever the state of the world
  abbrev pub NeverCanceled : Settings F W → Type 0
  NeverCanceled settings = (w : W) → (settings.cancel_requested w).0 ≡ false

  -- a planner whose replies the parser rejects, or that raises a planner failure itself
  abbrev pub NeverDecides : Settings F W → Type 0
  NeverDecides settings =
      (b : MissionBoard F) (w : W)
      → b.lifecycle_state ≡ LifecycleState.running
      → (why : String) × ((decide settings.planner b w).0 ≡ err (Failure.planner_failure why))

  pub not_canceled :
      (settings : Settings F W) (s : Runtime F W) (cancel : Bool × W)
      → cancel.0 ≡ false
      → canceled_or_plan settings s cancel ≡ plan settings (record s { world = cancel.1 })
  not_canceled settings s (false, w) h = refl
  not_canceled settings s (true, w) h = cc

  pub decided-record :
      (s : Runtime F W) (out : Result (CommanderDecision F) × W)
      → decided s out ≡ record s { world = out.1; decisions = s.decisions + 1 }
  decided-record s (_, w) = refl

  round-rejects :
      (settings : Settings F W) (s : Runtime F W)
      → NeverCanceled settings
      → NeverDecides settings
      → s.executive.board.lifecycle_state ≡ LifecycleState.running
      → (why : String) × (w : W) × (round settings s
          ≡ record_failure settings "invalid_skill_request" why
              (record s { world = w; decisions = s.decisions + 1 }))
  unfolding round
  round-rejects settings s never rejects live =
      let w = (settings.cancel_requested s.world).1 in
      let out = decide settings.planner s.executive.board w in
      let (why, e) = rejects s.executive.board w live in
      (
        why,
        out.1,
        rw
            (
              not_canceled settings s (settings.cancel_requested s.world) (never s.world),
              decided-record (record s { world = w }) out,
              e,
            )
            refl,
      )

  -- one round more
  rounds-step :
      (n : ℕ) (settings : Settings F W) (s : Runtime F W)
      → s.executive.board.lifecycle_state ≡ LifecycleState.running
      → rounds (suc n) settings s ≡ go_on (rounds n settings) (round settings s)
  unfolding rounds
  rounds-step n settings s live = rw (ap (λ (l : LifecycleState). terminal l) live, rounds) refl

  -- how a mission ends that failed after so many decisions
  pub record HasFailed (decisions : ℕ) (out : Result Bool × Runtime F W) : Type 0 where
    pub ended : out.0 ≡ ok false
    pub failed : out.1.executive.board.lifecycle_state ≡ LifecycleState.failed
    pub reason : out.1.executive.board.last_reason_code ≡ "consecutive_failures"
    pub after : out.1.decisions ≡ decisions

  pub rounds-HasFailed :
      (n : ℕ) (settings : Settings F W) (s : Runtime F W)
      → NeverCanceled settings
      → NeverDecides settings
      → IsLive s.executive
      → s.executive.board.consecutive_failures + suc n ≡ settings.consecutive_failure_limit
      → s.executive.board.no_progress_count < settings.no_progress_limit
      → HasFailed (s.decisions + suc n) (rounds (suc n) settings s)
  rounds-HasFailed zero settings s never rejects live count progress =
      let (why, w, e) = round-rejects settings s never rejects live.running in
      let t = record s { world = w; decisions = s.decisions + 1 } in
      let c = Call.record_planner_failure "invalid_skill_request" why in
      let end = fail-board "consecutive_failures" (perform c s.executive).1 exhausted_given (
        record_planner_failure-IsLive "invalid_skill_request" why s.executive rejected_given
          live) in
      rw
        (
          rounds-step 0 settings s live.running,
          e,
          record_failure-stops settings "invalid_skill_request" why t rejected_given live
              (omega (arith, count)),
        )
        (record { ended = refl; failed = end.0; reason = end.1; after = refl })
  rounds-HasFailed (suc n) settings s never rejects live count progress =
      let (why, w, e) = round-rejects settings s never rejects live.running in
      let t = record s { world = w; decisions = s.decisions + 1 } in
      let c = Call.record_planner_failure "invalid_skill_request" why in
      let b =
        record_planner_failure-board "invalid_skill_request" why s.executive rejected_given live in
      rw
        (
          rounds-step (suc n) settings s live.running,
          e,
          record_failure-goes_on settings "invalid_skill_request" why t rejected_given live
              (omega (arith, count)) progress,
        )
        (subst
          (λ (k : ℕ).
            HasFailed k
              (rounds (suc n) settings (record t { executive = (perform c s.executive).1 })))
          (omega arith)
          (rounds-HasFailed n settings (record t { executive = (perform c s.executive).1 }) never
            rejects
            (record_planner_failure-IsLive "invalid_skill_request" why s.executive rejected_given
              live)
            (ground (arith, b, count)) (ground (arith, b, progress))))
