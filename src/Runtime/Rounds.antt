-- ===== src/Runtime/Rounds.antt =====
-- The methods that a round of `CommanderRuntime.run` calls (runtime.py): the limits, a completion
-- proposal, and the use of a tool with its handler.
use muto_rs_deployment_test.Prelude.{
  Bool, true, false, not, Option, none, some, [], String, ◌==◌, Floats, or_else, leb, if◌then◌else◌,
}
use muto_rs_deployment_test.Result.{Failure, Result, ok, err, contract, message}
use muto_rs_deployment_test.Contracts.{CompletionPolicy, terminal, policy_value}
use muto_rs_deployment_test.Contracts.Board.{MissionBoard}
use muto_rs_deployment_test.Executive.State.{MissionExecutive}
use muto_rs_deployment_test.Executive.Guards.{Completion}
use muto_rs_deployment_test.Executive.ToolReport.{ToolReport}
use muto_rs_deployment_test.Executive.Calls.{Call, perform}
use muto_rs_deployment_test.Tools.Call.{ToolCall, ToolResult}
use muto_rs_deployment_test.Tools.Dispatcher.{ToolDispatcher, dispatch}
use muto_rs_deployment_test.Runtime.State.{
  Settings, Runtime, Method, ◌>>=◌, ◌>>◌, return, lift, try, with_board,
}

abbrev pub completion_of : CompletionPolicy → String → Completion
completion_of CompletionPolicy.report_confirmed target = record {
  confirmed_target_id = target;
  approach_complete = false;
  search_exhausted = false;
  reason_code = "";
}
completion_of CompletionPolicy.approach_confirmed target = record {
  confirmed_target_id = target;
  approach_complete = true;
  search_exhausted = false;
  reason_code = "";
}
completion_of CompletionPolicy.search_until_exhausted target = record {
  confirmed_target_id = "";
  approach_complete = false;
  search_exhausted = true;
  reason_code = "search_exhausted";
}

-- the call of `complete` that a proposal makes; it is the value of the policy, so that the last
-- branch of the code, another proposal, is never taken
abbrev pub proposed : Option CompletionPolicy → String → String → Result Completion
proposed none proposal target =
    err (contract "completion proposal does not match the scenario policy")
proposed (some policy) proposal target =
    if proposal == policy_value policy
    then ok (completion_of policy target)
    else err (contract "completion proposal does not match the scenario policy")

module _ {F : Type 0} ⦃fl : Floats F⦄ where
  -- what `run` makes of a result for `record_tool_result`
  abbrev pub report_of : ToolCall F → ToolResult F → ToolReport F
  report_of c r = record {
    tool = c.tool;
    success = r.success;
    reason_code = r.reason_code;
    detail = r.detail;
    candidate_id = c.candidate_id;
    confirmed_target_id = r.confirmed_target_id;
    candidate_ids = r.candidate_ids;
    rejected_candidate_ids = r.rejected_candidate_ids;
    registry_revision = r.registry_revision;
    progress_delta = r.progress_delta;
    reachability = some r.reachability;
    expected_registry_revision = c.registry_revision;
    evidence = r.evidence;
  }

  abbrev no_result_report : ToolCall F → Failure → ToolReport F
  no_result_report c e = record {
    tool = c.tool;
    success = false;
    reason_code = "tool_exception";
    detail = message e;
    candidate_id = c.candidate_id;
    confirmed_target_id = "";
    candidate_ids = [];
    rejected_candidate_ids = [];
    registry_revision = c.registry_revision;
    progress_delta = fl.zero_f;
    reachability = none;
    expected_registry_revision = c.registry_revision;
    evidence = [];
  }

  -- what it makes of an exception, with the result where there was one
  abbrev pub exception_report : ToolCall F → Option (ToolResult F) → Failure → ToolReport F
  exception_report c none e = no_result_report c e
  exception_report c (some r) e = record (no_result_report c e) {
    candidate_ids = r.candidate_ids;
    rejected_candidate_ids = r.rejected_candidate_ids;
    registry_revision = or_else r.registry_revision c.registry_revision;
    evidence = r.evidence;
  }

module _ {F W : Type 0} ⦃fl : Floats F⦄ where
  abbrev pub stored :
      Runtime F W → Result (MissionBoard F) × MissionExecutive F → Result (Unit {0}) × Runtime F W
  stored s (ok _, e) = (ok tt, record s { executive = e })
  stored s (err why, e) = (err why, record s { executive = e })

  -- a call of the executive
  unfoldable pub call : Call F → Method F W (Unit {0})
  call c s = stored s (perform c s.executive)

  -- `_limit_reached`
  unfoldable pub limit_reached : Settings F W → Method F W Bool
  limit_reached settings = with_board λ b.
      if terminal b.lifecycle_state
      then return true
      else if leb settings.consecutive_failure_limit b.consecutive_failures
      then (do call (Call.fail "consecutive_failures"); return true)
      else if leb settings.no_progress_limit b.no_progress_count
      then (do call (Call.fail "no_progress"); return true)
      else return false

  -- `if self._limit_reached(): break`, as the answer whether the loop goes on
  abbrev pub unless_limit : Settings F W → Method F W Bool
  unless_limit settings = do reached ← limit_reached settings; return (not reached)

  unfoldable pub record_failure : Settings F W → String → String → Method F W Bool
  unfolding call limit_reached
  record_failure settings reason_code detail = do
    call (Call.record_planner_failure reason_code detail)
    unless_limit settings

  -- `_apply_completion`
  unfoldable pub apply_completion : String → Method F W (Unit {0})
  unfolding call
  apply_completion proposal =
      try
        (with_board λ b. do
          c ← lift (proposed b.completion_policy proposal b.confirmed_target_id)
          call (Call.complete c))
        (λ e. call (Call.record_planner_failure "invalid_completion_proposal" (message e)))

  abbrev pub dispatched :
      Runtime F W
      → Result (ToolResult F) × (ToolDispatcher F × W)
      → Result (ToolResult F) × Runtime F W
  dispatched s (r, (d, w)) = (r, record s { dispatcher = d; world = w })

  unfoldable pub dispatch_call : Settings F W → ToolCall F → Method F W (ToolResult F)
  unfolding dispatch
  dispatch_call settings c s =
      dispatched s (dispatch settings.backend c s.executive.board (s.dispatcher, s.world))

  -- the handler of `except Exception`
  unfoldable pub record_exception :
      Settings F W → ToolCall F → Option (ToolResult F) → Failure → Method F W Bool
  unfolding call limit_reached
  record_exception settings c r e = do
    call (Call.record_tool_result (exception_report c r e))
    unless_limit settings

  -- the rest of the `try` block, with the result of the dispatch
  unfoldable pub record_result : Settings F W → ToolCall F → ToolResult F → Method F W Bool
  unfolding call record_exception
  record_result settings c r =
      try (do call (Call.record_tool_result (report_of c r)); return true)
        (record_exception settings c (some r))

  abbrev pub result_or_exception :
      Settings F W → ToolCall F → Result (ToolResult F) × Runtime F W → Result Bool × Runtime F W
  result_or_exception settings c (ok r, s) = record_result settings c r s
  result_or_exception settings c (err e, s) = record_exception settings c none e s

  -- a decision with a tool
  unfoldable pub use_tool : Settings F W → ToolCall F → Method F W Bool
  unfolding call dispatch_call result_or_exception record_result record_exception
  use_tool settings c s =
      result_or_exception settings c
        ((do call (Call.record_tool_request c.tool ""); dispatch_call settings c) s)
