-- ===== src/Commander.antt =====
-- The decision boundary of the command layer (src/muto_command_layer_v2/commander.py): how a reply of
-- the model becomes a decision, and what `CommanderAgent.decide` asks of the board.
pub mod Decisions
pub mod Raises
use muto_rs_deployment_test.Prelude.{
  Bool, true, false, not, ◌&&◌, ◌||◌, Option, none, some, List, [], ◌∷◌, String, ◌==◌, ◌<>◌, Floats,
  nonempty, any, all, select, if◌then◌else◌,
}
use muto_rs_deployment_test.Result.{
  Failure, Result, ok, err, planner_failure, io_error, value_error, guard, ◌>>=◌, ◌>>◌,
}
use muto_rs_deployment_test.Contracts.{
  LifecycleState, SkillName, ToolName, schema_version, skill_tools, skill_value, tool_value,
}
use muto_rs_deployment_test.Contracts.Request.{is_empty}
use muto_rs_deployment_test.Contracts.Board.{MissionBoard}
use muto_rs_deployment_test.Executive.Guards.{has_current_confirmation, same_skill, same_state}
use muto_rs_deployment_test.Executive.ToolReport.{among}
use muto_rs_deployment_test.Tools.Json.{
  Json, Members, Coercions, keys, get, has_key, get_or, is_null, as_text, tuple_of,
}
use muto_rs_deployment_test.Tools.Call.{ToolCall, tool_call}

pub record CommanderDecision (F : Type 0) : Type 0 where
  pub skill : SkillName
  pub tool : Option (ToolCall F)
  pub completion_proposal : Option String
  pub rationale : String

-- What `json.loads` makes of a text, or the payload itself where it is no text: `unreadable` is its
-- JSONDecodeError. A text that nests too deep makes it raise a RecursionError, and an integer of too
-- many digits a ValueError that is no JSONDecodeError.
pub data Reply (F : Type 0) : Type 0 where
  unreadable too_deep too_long : Reply F
  decoded : Json F → Reply F

-- `SkillName(value)` and `ToolName(value)`
abbrev pub skill_named : String → Option SkillName
skill_named s =
    if s == "search_for_object"
    then some SkillName.search_for_object
    else if s == "approach_confirmed_object"
    then some SkillName.approach_confirmed_object
    else none

abbrev pub tool_named : String → Option ToolName
tool_named s =
    if s == "query_registry"
    then some ToolName.query_registry
    else if s == "inspect_candidates"
    then some ToolName.inspect_candidates
    else if s == "observe"
    then some ToolName.observe
    else if s == "rotate_to_heading"
    then some ToolName.rotate_to_heading
    else if s == "go_to_point"
    then some ToolName.go_to_point
    else none

abbrev pub decision_fields : List String
decision_fields = "schema_version" ∷ "skill" ∷ "tool" ∷ "completion_proposal" ∷ "rationale" ∷ []

abbrev pub tool_fields : List String
tool_fields =
    "name" ∷ "object_request" ∷ "candidate_ids" ∷ "registry_revision" ∷ "candidate_id" ∷ "point"
    ∷ "heading" ∷ "frame_id" ∷ "projection_policy" ∷ []

-- `except (KeyError, TypeError, ValueError, ContractError)`: what the construction of a call
-- raises becomes a planner failure, but not an overflow, which is no ValueError.
abbrev pub as_planner_failure {ℓ} : {A : Type ℓ} → Result A → Result A
as_planner_failure (ok a) = ok a
as_planner_failure (err Failure.overflow) = err Failure.overflow
as_planner_failure (err _) = err (planner_failure "planner emitted an invalid tool call")

abbrev pub both : {A : Type 0} → Option A → Option String → Bool
both (some _) (some _) = true
both _ _ = false

module _ {F : Type 0} where
  -- `set(payload) - allowed`
  abbrev pub unknown_fields : List String → Members F → List String
  unknown_fields allowed ms = select (λ k. not (among k allowed)) (keys ms)

  abbrev pub is_text : String → Json F → Bool
  is_text s (Json.text t) = t == s
  is_text s _ = false

  -- `SkillName(data["skill"])`
  abbrev pub skill_of : Json F → Option SkillName
  skill_of (Json.text s) = skill_named s
  skill_of _ = none

  abbrev pub tool_of : Json F → Option ToolName
  tool_of (Json.text s) = tool_named s
  tool_of _ = none

  abbrev optional_json : Json F → Option (Json F)
  optional_json v = if is_null v then none else some v

  -- `tuple(tool_data["point"]) if tool_data.get("point") is not None else None`
  abbrev pub optional_tuple : Json F → Result (Option (List (Json F)))
  optional_tuple v = if is_null v then ok none else (tuple_of v >>= λ xs. ok (some xs))

  abbrev pub optional_candidates : Members F → Result (List (Json F))
  unfolding has_key get
  optional_candidates ms =
      if has_key "candidate_ids" ms then tuple_of (get "candidate_ids" ms) else ok []

  abbrev pub allow_call : SkillName → ToolCall F → Result (Option (ToolCall F))
  allow_call skill call = do
    guard (skill_tools skill call.tool)
        (planner_failure "tool is not allowed by the selected skill")
    ok (some call)

module _ {F : Type 0} ⦃co : Coercions F⦄ where
  -- `_strict_dict`
  abbrev pub strict_members : Members F → Result (Members F)
  unfolding get
  strict_members ms = do
    guard (is_empty (unknown_fields decision_fields ms)) (
        planner_failure
          ("planner output has unknown fields: " <> co.listing (unknown_fields decision_fields ms)))
    guard (is_text schema_version (get "schema_version" ms))
        (planner_failure "planner output has an unsupported schema_version")
    ok ms

  unfoldable pub strict_dict : Reply F → Result (Members F)
  unfolding get strict_members
  strict_dict Reply.unreadable = err (planner_failure "planner output is not valid JSON")
  strict_dict Reply.too_deep = err (io_error "maximum recursion depth exceeded")
  strict_dict Reply.too_long = err (value_error "Exceeds the limit for integer string conversion")
  strict_dict (Reply.decoded (Json.object ms)) = strict_members ms
  strict_dict (Reply.decoded _) = err (planner_failure "planner output must be a JSON object")

  -- `str(tool_data.get(key, default))`
  abbrev str_field : String → String → Members F → String
  unfolding has_key get
  str_field key default ms = if has_key key ms then co.str_of (get key ms) else default

module _ {F : Type 0} ⦃fl : Floats F⦄ ⦃co : Coercions F⦄ where
  -- the call that the fields of the object make
  abbrev pub assembled : Members F → ToolName → List (Json F) → Option (List (Json F)) → ToolCall F
  unfolding has_key get
  assembled ms tool candidates point = record {
    tool = tool;
    object_request = str_field "object_request" "" ms;
    candidate_ids = candidates;
    registry_revision = str_field "registry_revision" "" ms;
    candidate_id = str_field "candidate_id" "" ms;
    point = point;
    heading = optional_json (get "heading" ms);
    frame_id = str_field "frame_id" "map" ms;
    projection_policy = str_field "projection_policy" "reject" ms;
  }

  abbrev pub build_call : Members F → Option ToolName → Result (ToolCall F)
  unfolding has_key get tool_call
  build_call ms none = err (planner_failure "planner emitted an invalid tool call")
  build_call ms (some tool) = do
    candidates ← optional_candidates ms
    point ← optional_tuple (get "point" ms)
    tool_call (assembled ms tool candidates point)

  abbrev pub checked_call : SkillName → Members F → Result (Option (ToolCall F))
  unfolding has_key get tool_call build_call
  checked_call skill ms = do
    call ← as_planner_failure (build_call ms (tool_of (get "name" ms)))
    allow_call skill call

  -- the tool of a decision, under the skill that it chooses
  unfoldable pub tool_decision : SkillName → Json F → Result (Option (ToolCall F))
  unfolding has_key get tool_call build_call checked_call
  tool_decision skill Json.null = ok none
  tool_decision skill (Json.object ms) = do
    guard (is_empty (unknown_fields tool_fields ms)) (planner_failure "tool has unknown fields")
    checked_call skill ms
  tool_decision skill _ = err (planner_failure "tool must be a JSON object")

module _ {F : Type 0} where
  -- the skill that a decision may choose on this board
  abbrev pub may_choose : MissionBoard F → SkillName → Option SkillName → Bool
  may_choose b skill none = true
  may_choose b skill (some active) =
      same_skill skill active
      || (same_skill skill SkillName.approach_confirmed_object && has_current_confirmation b)

  abbrev pub choose : MissionBoard F → Option SkillName → Result SkillName
  choose b none = err (planner_failure "planner must choose one supported skill")
  choose b (some skill) = do
    guard (may_choose b skill b.active_skill)
        (planner_failure "planner changed skill without a confirmed handoff")
    ok skill

  unfoldable pub proposal_of : Json F → Result (Option String)
  proposal_of Json.null = ok none
  proposal_of (Json.text s) = ok (some s)
  proposal_of _ = err (planner_failure "completion_proposal must be a string")

  unfoldable pub rationale_of : Json F → Result String
  rationale_of (Json.text s) = ok s
  rationale_of _ = err (planner_failure "rationale must be a string")

-- the planner of `CommanderAgent`: it reads the board, and changes the world outside or raises
abbrev pub Planner : Type 0 → Type 0 → Type 0
Planner F W = MissionBoard F → W → Result (Reply F) × W

module _ {F : Type 0} ⦃fl : Floats F⦄ ⦃co : Coercions F⦄ where
  abbrev pub finish : Members F → SkillName → Option (ToolCall F) → Result (CommanderDecision F)
  unfolding has_key get proposal_of rationale_of
  finish ms skill tool = do
    proposal ← proposal_of (get "completion_proposal" ms)
    guard (not (both tool proposal))
        (planner_failure "planner must emit either a tool call or a completion proposal")
    rationale ← rationale_of (get_or "rationale" (Json.text "") ms)
    ok (record {
      skill = skill;
      tool = tool;
      completion_proposal = proposal;
      rationale = rationale;
    })

  unfoldable pub parse_decision : Reply F → MissionBoard F → Result (CommanderDecision F)
  unfolding strict_dict has_key get tool_decision proposal_of rationale_of finish
  parse_decision reply b = do
    ms ← strict_dict reply
    skill ← choose b (skill_of (get "skill" ms))
    tool ← tool_decision skill (get "tool" ms)
    finish ms skill tool

  abbrev parse_reply :
      {W : Type 0} → MissionBoard F → Result (Reply F) × W → Result (CommanderDecision F) × W
  unfolding parse_decision
  parse_reply b (ok reply, w) = (parse_decision reply b, w)
  parse_reply b (err e, w) = (err e, w)

  -- `CommanderAgent.decide`
  unfoldable pub decide :
      {W : Type 0} → Planner F W → MissionBoard F → W → Result (CommanderDecision F) × W
  unfolding parse_decision parse_reply
  decide planner b w =
      if same_state b.lifecycle_state LifecycleState.running
      then parse_reply b (planner b w)
      else (err (planner_failure "commander may plan only for a running mission"), w)
