-- ===== src/Reachability/Planner.antt =====
-- `ReachabilityPlanner` (reachability.py): the safe cells of a map, the snapped start, and the
-- preflight of a goal.
use muto_rs_deployment_test.Prelude.{
  ℕ, ◌+◌, Bool, true, false, not, ◌&&◌, ◌||◌, Option, none, some, List, [], ◌∷◌, ◌++◌, String, ◌==◌,
  Floats, all, select, least, ltb, eqb, if◌then◌else◌,
}
use muto_rs_deployment_test.Prelude.Integers.{
  ℤ, pos_part, abs, ◌+ℤ◌, ◌-ℤ◌, ◌*ℤ◌, ltb_ℤ, leb_ℤ, eq_ℤ,
}
use muto_rs_deployment_test.Result.{Result, ok, value_error, ◌>>=◌, ◌>>◌, guard}
use muto_rs_deployment_test.Contracts.{ReachabilityState}
use muto_rs_deployment_test.Contracts.Evidence.{ReachabilityReport, no_report, reachability_report}
use muto_rs_deployment_test.Reachability.Grid.{
  Arithmetic, Cell, eq_cell, holds, OccupancyGrid, ReachabilityConfig, range_from, range, divide,
  in_bounds, cost_at, world_to_cell, cell_to_world,
}
use muto_rs_deployment_test.Reachability.Flood.{keys, distance_of, flood_fill}

-- `range(-radius, radius + 1)`
unfoldable pub offsets : ℤ → List ℤ
unfolding ◌+ℤ◌ ◌-ℤ◌
offsets radius = range_from (ℤ.pos 0 -ℤ radius) (pos_part (radius +ℤ radius +ℤ ℤ.pos 1))

-- `dx * dx + dy * dy > radius * radius` fails
unfoldable pub in_disc : ℤ → ℤ → ℤ → Bool
unfolding ◌+ℤ◌ ◌*ℤ◌
in_disc radius dx dy = leb_ℤ (dx *ℤ dx +ℤ dy *ℤ dy) (radius *ℤ radius)

abbrev pub displaced : Cell → ℤ → ℤ → Cell
displaced c dx dy = record { x = c.x +ℤ dx; y = c.y +ℤ dy }

-- the inner loop of `_safe_cells`, over the cells of a row, and the outer one, over the rows
abbrev pub row_cells : ℤ → List ℤ → List Cell
row_cells y [] = []
row_cells y (x ∷ xs) = record { x = x; y = y } ∷ row_cells y xs

abbrev pub all_cells : List ℤ → List ℤ → List Cell
all_cells [] xs = []
all_cells (y ∷ ys) xs = row_cells y xs ++ all_cells ys xs

module _ {F : Type 0} (config : ReachabilityConfig F) where
  -- `cost == unknown_cost or cost > free_cost` fails
  unfoldable pub is_free : OccupancyGrid F → Cell → Bool
  unfolding cost_at
  is_free g c =
      let cost = cost_at g config.unknown_cost c in
      not (eq_ℤ cost config.unknown_cost || ltb_ℤ config.free_cost cost)

  unfoldable pub footprint_safe : OccupancyGrid F → Cell → ℤ → Bool
  unfolding offsets in_disc in_bounds is_free
  footprint_safe g c radius =
      all
        (λ dy.
          all
            (λ dx.
              if in_disc radius dx dy
              then in_bounds g (displaced c dx dy) && is_free g (displaced c dx dy)
              else true)
            (offsets radius))
        (offsets radius)

  unfoldable pub safe_within : OccupancyGrid F → ℤ → List Cell
  unfolding is_free footprint_safe
  safe_within g radius =
      select (λ c. is_free g c && footprint_safe g c radius)
        (all_cells (range g.height) (range g.width))

-- `max(abs(cell[0] - start[0]), abs(cell[1] - start[1])) <= radius`
unfoldable pub is_near : ℤ → Cell → Cell → Bool
unfolding ◌-ℤ◌
is_near radius start c =
    leb_ℤ (ℤ.pos (abs (c.x -ℤ start.x))) radius && leb_ℤ (ℤ.pos (abs (c.y -ℤ start.y))) radius

unfoldable pub manhattan : Cell → Cell → ℕ
unfolding ◌-ℤ◌
manhattan start c = abs (c.x -ℤ start.x) + abs (c.y -ℤ start.y)

-- the order of the keys of `_nearest_safe`
unfoldable pub nearer : Cell → Cell → Cell → Bool
unfolding manhattan
nearer start a b =
    ltb (manhattan start a) (manhattan start b)
    || eqb (manhattan start a) (manhattan start b)
      && (ltb_ℤ a.y b.y || eq_ℤ a.y b.y && ltb_ℤ a.x b.x)

unfoldable pub nearest_safe : Cell → List Cell → ℤ → Option Cell
unfolding is_near nearer
nearest_safe start safe radius =
    if holds safe start
    then some start
    else least (nearer start) (select (is_near radius start) safe)

-- what becomes of the goal: a cell, with whether it is a projection, or a reason
pub data Choice : Type 0 where
  chosen : Cell → Bool → Choice
  refused : String → Choice

-- `selected` of a projection
abbrev pub project_goal : Cell → Option Cell → Choice
project_goal goal none = Choice.refused "preflight_disconnected"
project_goal goal (some selected) = Choice.chosen selected (not (eq_cell selected goal))

module _ {F : Type 0} ⦃fl : Floats F⦄ ⦃ar : Arithmetic F⦄ (config : ReachabilityConfig F) where
  -- `int(footprint_radius_m / resolution + 0.999999)`
  unfoldable pub footprint_radius : OccupancyGrid F → Result ℤ
  unfolding divide
  footprint_radius g = do
    quotient ← divide config.footprint_radius_m g.resolution
    ar.trunc_f (fl.add_f quotient ar.round_up)

  unfoldable pub safe_cells : OccupancyGrid F → Result (List Cell)
  unfolding footprint_radius safe_within
  safe_cells g = do radius ← footprint_radius g; ok (safe_within config g radius)

  -- the order of the keys of `_nearest_reachable_projection`
  unfoldable pub closer : Cell → List (Cell × F) → Cell → Cell → Bool
  unfolding ◌-ℤ◌
  closer goal distances a b =
      let far : Cell → F =
        λ c. ar.hypot_f (ar.of_int (c.x -ℤ goal.x)) (ar.of_int (c.y -ℤ goal.y)) in
      fl.lt_f (far a) (far b)
      || fl.eq_f (far a) (far b)
        && (fl.lt_f (distance_of distances a) (distance_of distances b)
            || fl.eq_f (distance_of distances a) (distance_of distances b)
              && (ltb_ℤ a.y b.y || eq_ℤ a.y b.y && ltb_ℤ a.x b.x))

  unfoldable pub nearest_reachable_projection : Cell → Cell → List Cell → Option Cell
  unfolding flood_fill closer
  nearest_reachable_projection start goal safe =
      let distances = flood_fill {F = F} start safe in
      least (closer goal distances) (select (holds safe) (keys distances))

  abbrev pub failure : OccupancyGrid F → String → ReachabilityReport F
  failure g reason = record no_report {
    state = ReachabilityState.unreachable;
    reason_code = reason;
    costmap_revision = some g.revision;
    freshness = g.freshness;
  }

  -- why an unsafe goal is refused
  unfoldable pub refusal : OccupancyGrid F → Cell → String
  unfolding in_bounds cost_at
  refusal g goal =
      if not (in_bounds g goal)
      then "preflight_out_of_bounds"
      else if eq_ℤ (cost_at g config.unknown_cost goal) config.unknown_cost
      then "preflight_unknown_space"
      else "preflight_high_cost"

  unfoldable pub choose_goal : OccupancyGrid F → Cell → Cell → List Cell → String → Choice
  unfolding nearest_reachable_projection refusal
  choose_goal g start goal safe policy =
      if holds safe goal
      then Choice.chosen goal false
      else if policy == "allow"
      then project_goal goal (nearest_reachable_projection start goal safe)
      else Choice.refused (refusal g goal)

  abbrev pub reached : OccupancyGrid F → Cell → Bool → F → F → F → ReachabilityReport F
  reached g selected projected heading distance_m time = record {
    state = ReachabilityState.reachable;
    reason_code = if projected then "preflight_goal_projected" else "preflight_reachable";
    path_length_m = some distance_m;
    estimated_time_s = some time;
    costmap_revision = some g.revision;
    freshness = g.freshness;
    selected_pose = some (record {
      x = (cell_to_world g selected).0;
      y = (cell_to_world g selected).1;
      heading = heading;
    });
    projected = projected;
  }

  -- from `distances = self._flood_fill(...)` on
  unfoldable pub report_goal :
      OccupancyGrid F → Cell → List Cell → F → Choice → Result (ReachabilityReport F)
  unfolding flood_fill divide reachability_report
  report_goal g start safe heading (Choice.refused reason) = reachability_report (failure g reason)
  report_goal g start safe heading (Choice.chosen selected projected) =
      let distances = flood_fill {F = F} start safe in
      if not (holds (keys distances) selected)
      then reachability_report (failure g "preflight_disconnected")
      else let distance_m = ar.mul_f (distance_of distances selected) g.resolution in
        divide distance_m config.nominal_speed_mps >>= λ time.
        reachability_report (reached g selected projected heading distance_m time)

  -- from `if start is None` on
  unfoldable pub report_from :
      OccupancyGrid F → List Cell → Cell → String → F → Option Cell → Result (ReachabilityReport F)
  unfolding choose_goal report_goal reachability_report
  report_from g safe goal policy heading none =
      reachability_report (failure g "preflight_invalid_start")
  report_from g safe goal policy heading (some start) =
      report_goal g start safe heading (choose_goal g start goal safe policy)

  -- from `safe = self._safe_cells(grid)` on
  unfoldable pub evaluate_cells :
      OccupancyGrid F → Cell → Cell → String → F → Result (ReachabilityReport F)
  unfolding safe_cells nearest_safe report_from
  evaluate_cells g start goal policy heading = do
    safe ← safe_cells g
    report_from g safe goal policy heading (nearest_safe start safe config.snap_radius_cells)

  -- from the two tests for `None` on
  unfoldable pub evaluate_placed :
      OccupancyGrid F → String → F → Option Cell → Option Cell → Result (ReachabilityReport F)
  unfolding evaluate_cells reachability_report
  evaluate_placed g policy heading none goal =
      reachability_report (failure g "preflight_invalid_start")
  evaluate_placed g policy heading (some start) none =
      reachability_report (failure g "preflight_out_of_bounds")
  evaluate_placed g policy heading (some start) (some goal) =
      evaluate_cells g start goal policy heading

  -- from the `world_to_cell` of the start on
  unfoldable pub evaluate_fresh :
      OccupancyGrid F → F × F → F × F → String → F → Result (ReachabilityReport F)
  unfolding world_to_cell evaluate_placed
  evaluate_fresh g start_xy goal_xy policy heading = do
    start ← world_to_cell g start_xy.0 start_xy.1
    goal ← world_to_cell g goal_xy.0 goal_xy.1
    evaluate_placed g policy heading start goal

  unfoldable pub evaluate :
      Option (OccupancyGrid F) → F × F → F × F → String → F → Result (ReachabilityReport F)
  unfolding evaluate_fresh reachability_report
  evaluate grid start_xy goal_xy policy heading = do
    guard (policy == "reject" || policy == "allow")
        (value_error "projection_policy must be reject or allow")
    elim grid [
      | none ↦ reachability_report (record no_report { reason_code = "costmap_unavailable" })
      | some g ↦
          if g.freshness == "fresh"
          then evaluate_fresh g start_xy goal_xy policy heading
          else reachability_report (record no_report {
            reason_code = "costmap_stale";
            costmap_revision = some g.revision;
            freshness = g.freshness;
          })
    ]

  -- from `safe = self._safe_cells(grid)` on, and from the start that it finds
  abbrev pub fill_from : List Cell → Option Cell → Result (List (Cell × F))
  fill_from safe none = ok []
  fill_from safe (some start) = ok (flood_fill start safe)

  unfoldable pub reachable_from : OccupancyGrid F → Option Cell → Result (List (Cell × F))
  unfolding safe_cells nearest_safe
  reachable_from g none = ok []
  reachable_from g (some start) = do
    safe ← safe_cells g
    fill_from safe (nearest_safe start safe config.snap_radius_cells)

  unfoldable pub reachable_cells : Option (OccupancyGrid F) → F × F → Result (List (Cell × F))
  unfolding world_to_cell reachable_from
  reachable_cells none start_xy = ok []
  reachable_cells (some g) start_xy =
      if g.freshness == "fresh"
      then world_to_cell g start_xy.0 start_xy.1 >>= reachable_from g
      else ok []
