-- ===== src/Backends/Motion.antt =====
-- The motion tools of `V2ToolBackend` (backend_adapters.py), and the backend that it is.
use muto_rs_deployment_test.Prelude.{
  Bool, true, false, not, ◌&&◌, ◌||◌, Option, none, some, List, [], ◌∷◌, String, ◌==◌, ◌<>◌, Floats,
  nonempty, find_first, if◌then◌else◌,
}
use muto_rs_deployment_test.Result.{Result, ok, err, other, value_error, overflow, ◌>>=◌}
use muto_rs_deployment_test.Contracts.{SkillName}
use muto_rs_deployment_test.Contracts.Board.{MissionBoard}
use muto_rs_deployment_test.Tools.Json.{Json, Coercions}
use muto_rs_deployment_test.Tools.Call.{ToolCall, ToolResult, tool_result}
use muto_rs_deployment_test.Tools.Dispatcher.{Operation, ToolBackend}
use muto_rs_deployment_test.Backends.Authorities.{
  RegistryCandidate, RegistrySnapshot, MotionResult, Point, RegistryAuthority, MotionAuthority,
  Adapter, metadata_of,
}
use muto_rs_deployment_test.Backends.Registry.{plain_result, query_registry, inspect_candidates}

-- What Python's floats do here: `float` of a text, which may raise, differences, and 1e-3.
pub record Positions (F : Type 0) : Type 0 where
  pub float_text : String → Option F
  pub abs_f : F → F
  pub minus_f : F → F → F
  pub tolerance : F

abbrev pub is_approach : Option SkillName → Bool
is_approach (some SkillName.approach_confirmed_object) = true
is_approach _ = false

abbrev pub frame_of : RegistryCandidate → String
frame_of candidate = elim (metadata_of "frame_id" candidate.metadata) [ none ↦ "map" | some s ↦ s ]

-- the position of a confirmed candidate, or the reason that there is none
pub data Resolution (F : Type 0) : Type 0 where
  refused : String → Resolution F
  position : F → F → Resolution F

module _ {F : Type 0} ⦃fl : Floats F⦄ ⦃co : Coercions F⦄ ⦃po : Positions F⦄ where
  abbrev float_or : Option F → Result F
  float_or none = err overflow
  float_or (some x) = ok x

  abbrev parsed : Option F → Result F
  parsed none = err (value_error "could not convert string to float")
  parsed (some x) = ok x

  -- `float(value)`
  abbrev pub float_json : Json F → Result F
  float_json (Json.truth b) = ok (if b then fl.one_f else fl.zero_f)
  float_json (Json.integer negative n) = float_or (co.float_of negative n)
  float_json (Json.number x) = ok x
  float_json (Json.text s) = parsed (po.float_text s)
  float_json _ = err (other "float() argument must be a string or a real number")

  -- `all(isfinite(float(value)) for value in point)`
  abbrev pub all_finite : List (Json F) → Result Bool
  all_finite [] = ok true
  all_finite (v ∷ vs) =
      let rest = all_finite vs in float_json v >>= λ x. if fl.is_finite x then rest else ok false

  -- `any(abs(float(value) - float(expected)) > 1e-3 for value, expected in zip(point, ...))`
  abbrev pub any_apart : List (Json F) → List F → Result Bool
  any_apart [] es = ok false
  any_apart (v ∷ vs) [] = ok false
  any_apart (v ∷ vs) (e ∷ es) =
      let rest = any_apart vs es in
      float_json v >>= λ x.
      if fl.lt_f po.tolerance (po.abs_f (po.minus_f x e)) then ok true else rest

  -- a point beside a confirmed candidate must be its position
  abbrev pub agree : Option (List (Json F)) → F → F → Result (Resolution F)
  agree none x y = ok (Resolution.position x y)
  agree (some point) x y =
      let compared = any_apart point (x ∷ y ∷ []) >>= λ apart. ok (
        if apart
        then Resolution.refused "candidate_position_mismatch"
        else Resolution.position x y) in
      all_finite point >>= λ finite.
      if finite then compared else ok (Resolution.refused "invalid_point")

  -- `float(candidate.metadata[key])`, whose exceptions are caught
  abbrev pub coordinate : String → RegistryCandidate → Option F
  coordinate key candidate = elim (metadata_of key candidate.metadata) [
    | none ↦ none
    | some s ↦ po.float_text s
  ]

  abbrev pub placed : Option (List (Json F)) → Option F → Option F → Result (Resolution F)
  placed point (some x) (some y) =
      if fl.is_finite x && fl.is_finite y
      then agree point x y
      else ok (Resolution.refused "candidate_position_unavailable")
  placed point _ _ = ok (Resolution.refused "candidate_position_unavailable")

  -- from `if candidate is None` on
  unfoldable pub resolve_candidate :
      Option (List (Json F)) → String → Option RegistryCandidate → Result (Resolution F)
  resolve_candidate point revision none = ok (Resolution.refused "candidate_not_in_snapshot")
  resolve_candidate point revision (some candidate) =
      if not (candidate.registry_revision == revision)
      then ok (Resolution.refused "candidate_revision_mismatch")
      else if not (frame_of candidate == "map")
      then ok (Resolution.refused "candidate_position_frame_invalid")
      else placed point (coordinate "x" candidate) (coordinate "y" candidate)

  -- the block of the approach
  unfoldable pub resolve : ToolCall F → MissionBoard F → RegistrySnapshot → Result (Resolution F)
  unfolding resolve_candidate
  resolve c b s =
      if not (nonempty b.confirmed_target_id)
      then ok (Resolution.refused "confirmed_target_required")
      else if not (c.candidate_id == b.confirmed_target_id)
      then ok (Resolution.refused "confirmed_target_mismatch")
      else if not s.checked
          || (not (nonempty s.revision) || not (nonempty b.confirmed_registry_revision))
      then ok (Resolution.refused "registry_snapshot_unavailable")
      else if not (b.confirmed_registry_revision == b.registry_revision)
          || not (b.confirmed_registry_revision == s.revision)
      then ok (Resolution.refused "registry_revision_mismatch")
      else resolve_candidate c.point s.revision
          (find_first (λ item. item.candidate_id == c.candidate_id) s.candidates)

module _ {F : Type 0} ⦃fl : Floats F⦄ where
  -- `_motion_tool_result`
  unfoldable pub motion_tool_result : MotionResult F → Result (ToolResult F)
  unfolding tool_result
  motion_tool_result m = tool_result (record (plain_result m.success m.reason_code) {
    detail = m.detail;
    progress_delta = m.progress_delta;
    reachability = m.reachability;
  })

  -- the detail of a motion to a confirmed candidate
  unfoldable pub prefixed : String → MotionResult F → Result (ToolResult F)
  unfolding motion_tool_result tool_result
  prefixed prefix m = motion_tool_result m >>= λ r.
      tool_result
        (record r { detail = if nonempty r.detail then prefix <> ";" <> r.detail else prefix })

module _ {F W : Type 0} where
  -- what is made of the result of a motion, and the world that it leaves
  abbrev pub moved :
      (MotionResult F → Result (ToolResult F))
      → Adapter W
      → Result (MotionResult F) × W
      → Result (ToolResult F) × Adapter W
  moved made a (err failure, w) = (err failure, record a { world = w })
  moved made a (ok m, w) = (made m, record a { world = w })

module _ {F W : Type 0} ⦃fl : Floats F⦄ (motion : MotionAuthority F W) where
  unfoldable pub observe : Operation F (Adapter W)
  unfolding motion_tool_result
  observe c b a = moved motion_tool_result a (motion.observe b a.world)

  abbrev pub rotate_by :
      MissionBoard F → Adapter W → Option (Json F) → Result (ToolResult F) × Adapter W
  rotate_by b a none = (tool_result (plain_result false "invalid_heading"), a)
  rotate_by b a (some heading) =
      moved motion_tool_result a (motion.rotate_to_heading heading b a.world)

  unfoldable pub rotate_to_heading : Operation F (Adapter W)
  unfolding motion_tool_result tool_result
  rotate_to_heading c b a = rotate_by b a c.heading

  -- an ordinary point of the planner
  abbrev pub go_to_given :
      ToolCall F
      → MissionBoard F
      → Adapter W
      → Option (List (Json F))
      → Result (ToolResult F) × Adapter W
  go_to_given c b a none = (tool_result (plain_result false "point_required"), a)
  go_to_given c b a (some point) =
      moved motion_tool_result a
        (motion.go_to_point (Point.given point) c.projection_policy b a.world)

  -- the confirmed candidate
  abbrev pub go_to_resolved :
      ToolCall F
      → MissionBoard F
      → Adapter W
      → Result (Resolution F)
      → Result (ToolResult F) × Adapter W
  go_to_resolved c b a (err failure) = (err failure, a)
  go_to_resolved c b a (ok (Resolution.refused reason)) =
      (tool_result (plain_result false reason), a)
  go_to_resolved c b a (ok (Resolution.position x y)) =
      moved (prefixed ("candidate_position_resolved:" <> c.candidate_id)) a
        (motion.go_to_point (Point.resolved x y) "allow" b a.world)

module _ {F W : Type 0} ⦃fl : Floats F⦄ ⦃co : Coercions F⦄ ⦃po : Positions F⦄
    (motion : MotionAuthority F W) where
  unfoldable pub go_to_point : Operation F (Adapter W)
  unfolding resolve motion_tool_result tool_result prefixed
  go_to_point c b a =
      if is_approach b.active_skill
      then go_to_resolved motion c b a (resolve c b a.snapshot)
      else go_to_given motion c b a c.point

module _ {W : Type 0} where
  -- one round of the loop of `cancel_active`
  abbrev pub cancel_one :
      Option (W → Result (Unit {0}) × W) → Adapter W → Result (Unit {0}) × Adapter W
  cancel_one none a = (ok tt, a)
  cancel_one (some cancel) a = let (r, w) = cancel a.world in (r, record a { world = w })

  abbrev pub and_then :
      Option (W → Result (Unit {0}) × W)
      → Result (Unit {0}) × Adapter W
      → Result (Unit {0}) × Adapter W
  and_then next (err failure, a) = (err failure, a)
  and_then next (ok tt, a) = cancel_one next a

module _ {F W : Type 0} ⦃fl : Floats F⦄ ⦃co : Coercions F⦄ ⦃po : Positions F⦄
    (registry : RegistryAuthority F W) (motion : MotionAuthority F W) where
  -- `V2ToolBackend.cancel_active`
  unfoldable pub cancel_active : Adapter W → Result (Unit {0}) × Adapter W
  cancel_active a = and_then registry.cancel_active (cancel_one motion.cancel_active a)

  -- `V2ToolBackend`
  abbrev pub tool_backend : ToolBackend F (Adapter W)
  tool_backend = record {
    query_registry = query_registry registry;
    inspect_candidates = inspect_candidates registry;
    observe = observe motion;
    rotate_to_heading = rotate_to_heading motion;
    go_to_point = go_to_point motion;
    cancel_active = some (λ a. cancel_active a);
  }
