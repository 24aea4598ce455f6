-- ===== src/Tools/Dispatcher.antt =====
-- `ToolDispatcher` (tools.py): the guards of a call, the lane of the motion tools, and cancellation.
use muto_rs_deployment_test.Prelude.{
  Bool, true, false, not, ◌&&◌, ◌||◌, Option, none, some, ◌==◌, ◌<>◌, nonempty, strip,
  if◌then◌else◌,
}
use muto_rs_deployment_test.Result.{Result, ok, err, contract, tool_execution, guard, ◌>>◌}
use muto_rs_deployment_test.Contracts.{SkillName, ToolName, skill_tools, skill_value, tool_value}
use muto_rs_deployment_test.Contracts.Board.{MissionBoard}
use muto_rs_deployment_test.Executive.ToolReport.{is_go_to}
use muto_rs_deployment_test.Tools.Call.{ToolCall, ToolResult}

pub record ToolDispatcher (F : Type 0) : Type 0 where
  pub motion_active : Bool
  pub active_call : Option (ToolCall F)

-- A method of the backend reads and changes the world outside.
abbrev pub Operation : Type 0 → Type 0 → Type 0
Operation F W = ToolCall F → MissionBoard F → W → Result (ToolResult F) × W

-- The authorities behind the dispatcher; `cancel_active` may be missing.
pub record ToolBackend (F W : Type 0) : Type 0 where
  pub query_registry : Operation F W
  pub inspect_candidates : Operation F W
  pub observe : Operation F W
  pub rotate_to_heading : Operation F W
  pub go_to_point : Operation F W
  pub cancel_active : Option (W → Result (Unit {0}) × W)

abbrev pub is_registry_tool : ToolName → Bool
is_registry_tool ToolName.query_registry = true
is_registry_tool ToolName.inspect_candidates = true
is_registry_tool _ = false

abbrev pub is_motion : ToolName → Bool
is_motion ToolName.query_registry = false
is_motion ToolName.inspect_candidates = false
is_motion _ = true

abbrev pub is_rotate : ToolName → Bool
is_rotate ToolName.rotate_to_heading = true
is_rotate _ = false

abbrev pub is_given : {A : Type 0} → Option A → Bool
is_given none = false
is_given (some _) = true

module _ {F : Type 0} where
  -- the guards of `go_to_point`
  unfoldable pub check_navigation : SkillName → ToolCall F → MissionBoard F → Result (Unit {0})
  check_navigation SkillName.search_for_object c b =
      guard (is_given c.point) (contract "go_to_point requires a map-frame point")
  check_navigation SkillName.approach_confirmed_object c b = do
    guard (nonempty b.confirmed_target_id) (contract "approach requires a confirmed target")
    guard
        (nonempty b.confirmed_registry_revision
          && b.confirmed_registry_revision == b.registry_revision)
        (contract "approach requires confirmation for the current registry revision")
    guard (c.candidate_id == b.confirmed_target_id)
        (contract "go_to_point target is not the confirmed target")

  unfoldable pub check_call : SkillName → ToolCall F → MissionBoard F → Result (Unit {0})
  unfolding check_navigation strip
  check_call skill c b = do
    guard (skill_tools skill c.tool)
        (contract (tool_value c.tool <> " is not allowed by " <> skill_value skill))
    guard
        (not (
          is_registry_tool c.tool
          && (nonempty c.object_request && not (strip c.object_request == strip b.object_request))))
        (contract "registry tools must use the mission object_request unchanged")
    if is_go_to c.tool then check_navigation skill c b else ok tt
    guard (not (is_rotate c.tool) || is_given c.heading)
        (contract "rotate_to_heading requires a heading")

  abbrev check_skill_call : Option SkillName → ToolCall F → MissionBoard F → Result (Unit {0})
  unfolding check_call
  check_skill_call none c b = err (contract "a skill must be selected before dispatch")
  check_skill_call (some skill) c b = check_call skill c b

  -- what `dispatch` checks before it takes the lock
  unfoldable pub check_dispatch : ToolCall F → MissionBoard F → Result (Unit {0})
  unfolding check_skill_call check_call
  check_dispatch c b = check_skill_call b.active_skill c b

  -- the first block under the lock
  unfoldable pub enter : ToolCall F → ToolDispatcher F → Result (ToolDispatcher F)
  enter c d =
      if is_motion c.tool && d.motion_active
      then err (tool_execution "a motion tool is already active")
      else ok (record { motion_active = is_motion c.tool || d.motion_active; active_call = some c })

  -- the second block under the lock, in `finally`
  unfoldable pub leave : ToolCall F → ToolDispatcher F → ToolDispatcher F
  leave c d = record {
    motion_active = not (is_motion c.tool) && d.motion_active;
    active_call = none;
  }

abbrev returned : {W : Type 0} → Result (Unit {0}) × W → Bool × W
returned (ok _, w) = (true, w)
returned (err _, w) = (false, w)

module _ {F W : Type 0} where
  -- `TOOL_DISPATCH`
  abbrev pub backend_method : ToolBackend F W → ToolName → Operation F W
  backend_method backend ToolName.query_registry = backend.query_registry
  backend_method backend ToolName.inspect_candidates = backend.inspect_candidates
  backend_method backend ToolName.observe = backend.observe
  backend_method backend ToolName.rotate_to_heading = backend.rotate_to_heading
  backend_method backend ToolName.go_to_point = backend.go_to_point

  abbrev run_method :
      ToolBackend F W
      → ToolCall F
      → MissionBoard F
      → ToolDispatcher F × W
      → Result (ToolResult F) × (ToolDispatcher F × W)
  unfolding leave
  run_method backend c b (d, w) =
      let (r, w') = backend_method backend c.tool c b w in (r, (leave c d, w'))

  abbrev in_lane :
      ToolBackend F W
      → ToolCall F
      → MissionBoard F
      → ToolDispatcher F × W
      → Result (ToolDispatcher F)
      → Result (ToolResult F) × (ToolDispatcher F × W)
  unfolding leave
  in_lane backend c b s (err e) = (err e, s)
  in_lane backend c b (d, w) (ok entered) = run_method backend c b (entered, w)

  abbrev checked :
      ToolBackend F W
      → ToolCall F
      → MissionBoard F
      → ToolDispatcher F × W
      → Result (Unit {0})
      → Result (ToolResult F) × (ToolDispatcher F × W)
  unfolding enter leave
  checked backend c b s (err e) = (err e, s)
  checked backend c b s (ok _) = in_lane backend c b s (enter c s.0)

  -- `dispatch`, where no other thread runs inside
  unfoldable pub dispatch :
      ToolBackend F W
      → ToolCall F
      → MissionBoard F
      → ToolDispatcher F × W
      → Result (ToolResult F) × (ToolDispatcher F × W)
  unfolding check_dispatch enter leave
  dispatch backend c b s = checked backend c b s (check_dispatch c b)

  abbrev cancel_call : Option (W → Result (Unit {0}) × W) → Option (ToolCall F) → W → Bool × W
  cancel_call (some cancel) (some _) w = returned (cancel w)
  cancel_call none (some _) w = (false, w)
  cancel_call _ none w = (false, w)

  -- `cancel_active`
  unfoldable pub cancel_active : ToolBackend F W → ToolDispatcher F → W → Bool × W
  cancel_active backend d w = cancel_call backend.cancel_active d.active_call w
