-- ===== src/Commander/Raises.antt =====
-- What the parser of decisions raises (commander.py): planner failures, and one exception that its
-- handler does not catch.
use muto_rs_deployment_test.Prelude.{
  Bool, true, false, Option, none, some, List, [], Floats, ◌≡◌, refl, arith, ℕ,
}
use muto_rs_deployment_test.Result.{Failure, Result, ok, err, ◌>>=◌}
use muto_rs_deployment_test.Contracts.{SkillName, ToolName}
use muto_rs_deployment_test.Contracts.Board.{MissionBoard}
use muto_rs_deployment_test.Tools.Json.{
  Json, Members, Values, Coercions, get, get_or, all_finite_numbers,
}
use muto_rs_deployment_test.Tools.Call.{ToolCall, tool_call}
use muto_rs_deployment_test.Commander.{
  CommanderDecision, Reply, parse_decision, strict_dict, choose, tool_decision, build_call,
  allow_call, checked_call, proposal_of, rationale_of, finish, as_planner_failure, skill_of,
  tool_of, unknown_fields, tool_fields, optional_candidates,
}

-- a planner failure, or the overflow of `float`
abbrev pub is_expected : Failure → Bool
is_expected (Failure.planner_failure _) = true
is_expected Failure.overflow = true
is_expected _ = false

abbrev pub is_planner_failure : Failure → Bool
is_planner_failure (Failure.planner_failure _) = true
is_planner_failure _ = false

abbrev pub is_io_error : Failure → Bool
is_io_error (Failure.io_error _) = true
is_io_error _ = false

abbrev pub is_value_error : Failure → Bool
is_value_error (Failure.value_error _) = true
is_value_error _ = false

-- The result raises, and what it raises passes the test.
abbrev pub raises {ℓ} : {A : Type ℓ} → (Failure → Bool) → Result A → Bool
raises test (ok a) = false
raises test (err e) = test e

abbrev pub raises_expected {ℓ} : {A : Type ℓ} → Result A → Bool
raises_expected (ok a) = true
raises_expected (err e) = is_expected e

module _ {ℓ κ} {A : Type ℓ} {B : Type κ} where
  after :
      (m : Result A) (f : A → Result B)
      → raises_expected m ≡ true
      → ((a : A) → raises_expected (f a) ≡ true)
      → raises_expected (m >>= f) ≡ true
  after (ok a) f h k = k a
  after (err e) f h k = h

as_planner_failure-raises {ℓ} :
    {A : Type ℓ} (m : Result A) → raises_expected (as_planner_failure m) ≡ true
as_planner_failure-raises (ok a) = refl
as_planner_failure-raises (err Failure.overflow) = refl
as_planner_failure-raises (err Failure.duplicate_mission) = refl
as_planner_failure-raises (err Failure.terminal_mission) = refl
as_planner_failure-raises (err (Failure.wrong_state _)) = refl
as_planner_failure-raises (err (Failure.contract _)) = refl
as_planner_failure-raises (err (Failure.planner_failure _)) = refl
as_planner_failure-raises (err (Failure.tool_execution _)) = refl
as_planner_failure-raises (err (Failure.value_error _)) = refl
as_planner_failure-raises (err (Failure.io_error _)) = refl
as_planner_failure-raises (err (Failure.other _)) = refl

module _ {F : Type 0} where
  choose-raises : (b : MissionBoard F) (o : Option SkillName) → raises_expected (choose b o) ≡ true
  choose-raises b none = refl
  choose-raises b (some skill) = ground arith

  allow_call-raises :
      (skill : SkillName) (c : ToolCall F) → raises_expected (allow_call skill c) ≡ true
  allow_call-raises skill c = ground arith

  proposal_of-raises : (v : Json F) → raises_expected (proposal_of v) ≡ true
  unfolding proposal_of
  proposal_of-raises v = ground arith

  rationale_of-raises : (v : Json F) → raises_expected (rationale_of v) ≡ true
  unfolding rationale_of
  rationale_of-raises v = ground arith

module _ {F : Type 0} ⦃co : Coercions F⦄ where
  strict_dict-raises : (v : Json F) → raises_expected (strict_dict (Reply.decoded v)) ≡ true
  unfolding strict_dict
  strict_dict-raises (Json.object ms) = ground arith
  strict_dict-raises v = ground arith

module _ {F : Type 0} ⦃fl : Floats F⦄ ⦃co : Coercions F⦄ where
  checked_call-raises :
      (skill : SkillName) (ms : Members F) → raises_expected (checked_call skill ms) ≡ true
  unfolding checked_call
  checked_call-raises skill ms =
      after (as_planner_failure _) (allow_call skill) (as_planner_failure-raises _)
        (allow_call-raises skill)

  tool_decision-raises :
      (skill : SkillName) (v : Json F) → raises_expected (tool_decision skill v) ≡ true
  unfolding tool_decision
  tool_decision-raises skill (Json.object ms) = ground (arith, checked_call-raises skill ms)
  tool_decision-raises skill Json.null = refl
  tool_decision-raises skill v = ground arith

  finish-raises :
      (ms : Members F) (skill : SkillName) (tool : Option (ToolCall F))
      → raises_expected (finish ms skill tool) ≡ true
  unfolding finish
  finish-raises ms skill tool = ground (
    arith,
    proposal_of-raises (get "completion_proposal" ms),
    rationale_of-raises (get_or "rationale" (Json.text "") ms),
  )

  decoded-raises :
      (v : Json F) (b : MissionBoard F)
      → raises_expected (parse_decision (Reply.decoded v) b) ≡ true
  unfolding parse_decision
  decoded-raises v b = after (strict_dict (Reply.decoded v)) _ (strict_dict-raises v) λ ms.
      after (choose b (skill_of (get "skill" ms))) _ (choose-raises b _) λ skill.
        after (tool_decision skill (get "tool" ms)) _ (tool_decision-raises skill (get "tool" ms))
          (finish-raises ms skill)

  -- What becomes of each kind of reply.
  abbrev pub IsOutcome : Reply F → Result (CommanderDecision F) → Type 0
  IsOutcome Reply.unreadable r = raises is_planner_failure r ≡ true
  IsOutcome Reply.too_deep r = raises is_io_error r ≡ true
  IsOutcome Reply.too_long r = raises is_value_error r ≡ true
  IsOutcome (Reply.decoded v) r = raises_expected r ≡ true

  -- A reply that is JSON makes the parser return a decision, or raise a planner failure, which the
  -- runtime takes for evidence, or the overflow of `float`. A text that is no JSON is a planner
  -- failure; but one that nests too deep for `json.loads` makes the parser raise its RecursionError,
  -- and one with an integer of too many digits its ValueError, of which neither is a planner failure.
  pub parse_decision-raises :
      (reply : Reply F) (b : MissionBoard F) → IsOutcome reply (parse_decision reply b)
  unfolding parse_decision strict_dict
  parse_decision-raises Reply.unreadable b = refl
  parse_decision-raises Reply.too_deep b = refl
  parse_decision-raises Reply.too_long b = refl
  parse_decision-raises (Reply.decoded v) b = decoded-raises v b

  -- A reply that passes every check before its point, an array of two that begins with an integer
  -- that `float` cannot hold, is not a planner failure: the parser raises the overflow.
  pub parse_decision-overflows :
      (reply : Reply F) (b : MissionBoard F) (ms ts : Members F) {skill : SkillName}
      {tool : ToolName} {candidates : List (Json F)} (negative : Bool) (n : ℕ) (y : Json F)
      → strict_dict reply ≡ ok ms
      → choose b (skill_of (get "skill" ms)) ≡ ok skill
      → get "tool" ms ≡ Json.object ts
      → unknown_fields tool_fields ts ≡ []
      → tool_of (get "name" ts) ≡ some tool
      → optional_candidates ts ≡ ok candidates
      → get "point" ts
        ≡ Json.array (Values.value (Json.integer negative n) (Values.value y Values.no_value))
      → co.float_of negative n ≡ none
      → parse_decision reply b ≡ err Failure.overflow
  unfolding parse_decision tool_decision checked_call build_call tool_call all_finite_numbers
  parse_decision-overflows reply b ms ts negative n y e1 e2 e3 e4 e5 e6 e7 e8 =
      rw (e1, e2, e3, e4, e5, e6, e7, e8) refl
