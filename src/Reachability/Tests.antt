-- ===== src/Reachability/Tests.antt =====
-- A map of three by three cells with an obstacle in its middle (reachability.py).
use muto_rs_deployment_test.Prelude.{
  ℕ, suc, true, false, Option, some, List, [], ◌∷◌, length, whole, ◌≡◌, refl, ◌↔◌,
}
use muto_rs_deployment_test.Prelude.Integers.{ℤ}
use muto_rs_deployment_test.Result.{ok}
use muto_rs_deployment_test.Contracts.{ReachabilityState}
use muto_rs_deployment_test.Contracts.Evidence.{ReachabilityReport}
use muto_rs_deployment_test.Reachability.Grid.{
  Cell, holds, OccupancyGrid, ReachabilityConfig, occupancy_grid, in_bounds, whole_arithmetic,
  world_to_cell, cell_to_world,
}
use muto_rs_deployment_test.Reachability.Flood.{keys, fill, begin, flood_fill}
use muto_rs_deployment_test.Reachability.Planner.{
  evaluate, reachable_cells, safe_cells, footprint_radius, nearest_safe,
}
use muto_rs_deployment_test.Reachability.Found.{FindsWalks, flood_fill-FindsWalks}
use muto_rs_deployment_test.Reachability.Footprint.{IsSafe, safe_cells-IsSafe}
use muto_rs_deployment_test.Reachability.Reads.{
  read_cost, read_safe_cells, read_safe_cells-safe_cells,
}
use muto_rs_deployment_test.Reachability.Snap.{Snaps, nearest_safe-Snaps}
use muto_rs_deployment_test.Reachability.Agreement.{evaluate-reachable_cells}
use muto_rs_deployment_test.Reachability.Routes.{HasRoute, evaluate-HasRoute}

abbrev at : ℕ → ℕ → Cell
at x y = record { x = ℤ.pos x; y = ℤ.pos y }

abbrev blocked : ℤ
blocked = ℤ.pos 100

abbrev open_cost : ℤ
open_cost = ℤ.pos 0

abbrev map3 : OccupancyGrid (Option ℕ)
map3 = record {
  width = ℤ.pos 3;
  height = ℤ.pos 3;
  resolution = some 1;
  origin_x = some 0;
  origin_y = some 0;
  costs =
      open_cost
      ∷ open_cost
      ∷ open_cost
      ∷ open_cost
      ∷ blocked
      ∷ open_cost
      ∷ open_cost
      ∷ open_cost
      ∷ ℤ.negsuc 0
      ∷ [];
  revision = 4;
  freshness = "fresh";
}

abbrev config : ReachabilityConfig (Option ℕ)
config = record {
  free_cost = ℤ.pos 0;
  unknown_cost = ℤ.negsuc 0;
  footprint_radius_m = some 0;
  nominal_speed_mps = some 1;
  snap_radius_cells = ℤ.pos 2;
}

abbrev free_cells : List Cell
free_cells = at 0 0 ∷ at 1 0 ∷ at 2 0 ∷ at 0 1 ∷ at 2 1 ∷ at 0 2 ∷ at 1 2 ∷ []

abbrev point : ℕ → ℕ → Option ℕ × Option ℕ
point x y = (some x, some y)

safe_test : safe_cells config map3 ≡ ok free_cells
unfolding safe_cells
safe_test = refl

-- the far side of the obstacle is reached around its corner, not across it
abbrev distances : List (Cell × Option ℕ)
distances =
    (at 0 0, some 0)
    ∷ (at 1 0, some 1)
    ∷ (at 0 1, some 1)
    ∷ (at 2 0, some 2)
    ∷ (at 0 2, some 2)
    ∷ (at 2 1, some 3)
    ∷ (at 1 2, some 3)
    ∷ []

flood_test : reachable_cells config (some map3) (point 0 0) ≡ ok distances
unfolding reachable_cells flood_fill
flood_test = refl

abbrev report : ReachabilityReport (Option ℕ)
report = record {
  state = ReachabilityState.reachable;
  reason_code = "preflight_reachable";
  path_length_m = some (some 3);
  estimated_time_s = some (some 3);
  costmap_revision = some 4;
  freshness = "fresh";
  selected_pose = some (record { x = some 2; y = some 1; heading = some 0 });
  projected = false;
}

evaluate_test : evaluate config (some map3) (point 0 0) (point 2 1) "reject" (some 0) ≡ ok report
unfolding evaluate flood_fill cell_to_world
evaluate_test = refl

goal_test : world_to_cell map3 (some 2) (some 1) ≡ ok (some (at 2 1))
unfolding world_to_cell
goal_test = refl

radius_test : footprint_radius config map3 ≡ ok (ℤ.pos 0)
unfolding footprint_radius
radius_test = refl

made_test : occupancy_grid map3 ≡ ok map3
unfolding occupancy_grid
made_test = refl

inside_test : in_bounds map3 (at 2 1) ≡ true
unfolding in_bounds
inside_test = refl

flood_fill-FindsWalks_example :
    ((fill free_cells (suc (length free_cells)) (begin {F = Option ℕ} (at 0 0))).queue ≡ [])
    × FindsWalks free_cells (at 0 0) (flood_fill {F = Option ℕ} (at 0 0) free_cells)
flood_fill-FindsWalks_example = flood_fill-FindsWalks free_cells (at 0 0)

safe_cells-IsSafe_example :
    (safe : List Cell) × (safe_cells config map3 ≡ ok safe)
    × ((c : Cell) → (holds safe c ≡ true) ↔ IsSafe config map3 (ℤ.pos 0) c)
safe_cells-IsSafe_example = safe_cells-IsSafe config map3 0 radius_test

-- Outside of the map a read wraps around or raises.
wrapped_test : read_cost map3 (record { x = ℤ.negsuc 0; y = ℤ.pos 0 }) ≡ ok (ℤ.negsuc 0)
unfolding read_cost
wrapped_test = refl

read_safe_cells-safe_cells_example : read_safe_cells config map3 ≡ safe_cells config map3
read_safe_cells-safe_cells_example = read_safe_cells-safe_cells config map3 made_test

nearest_safe-Snaps_example :
    Snaps (at 1 1) free_cells (ℤ.pos 2) (nearest_safe (at 1 1) free_cells (ℤ.pos 2))
nearest_safe-Snaps_example = nearest_safe-Snaps (at 1 1) free_cells (ℤ.pos 2)

evaluate-reachable_cells_example :
    (report.state ≡ ReachabilityState.reachable) ↔ (holds (keys distances) (at 2 1) ≡ true)
evaluate-reachable_cells_example =
    evaluate-reachable_cells config map3 (point 0 0) (point 2 1) (some 0) (at 2 1) report distances
      goal_test evaluate_test flood_test

evaluate-HasRoute_example : HasRoute config map3 (point 0 0) (point 2 1) "reject" (some 0) report
evaluate-HasRoute_example =
    evaluate-HasRoute config map3 (point 0 0) (point 2 1) "reject" (some 0) report evaluate_test
      refl
