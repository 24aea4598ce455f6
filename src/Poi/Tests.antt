-- ===== src/Poi/Tests.antt =====
-- A row of three cells (poi_grid.py), and the theorems at it.
use muto_rs_deployment_test.Prelude.{
  ℕ, false, Option, some, List, [], ◌∷◌, ◌==◌, String, any, whole, ◌≡◌, refl,
}
use muto_rs_deployment_test.Prelude.Integers.{ℤ}
use muto_rs_deployment_test.Result.{ok}
use muto_rs_deployment_test.Contracts.{ReachabilityState}
use muto_rs_deployment_test.Contracts.Evidence.{Pose, ReachabilityReport}
use muto_rs_deployment_test.Reachability.Grid.{
  Cell, OccupancyGrid, whole_arithmetic, world_to_cell, cell_to_world,
}
use muto_rs_deployment_test.Reachability.Flood.{flood_fill}
use muto_rs_deployment_test.Reachability.Planner.{evaluate, reachable_cells}
use muto_rs_deployment_test.Poi.{
  PoiSelection, PoiGridDecision, PoiGridPlanner, distinct, select_poi,
}
use muto_rs_deployment_test.Poi.Selected.{Decides, select_poi-Decides, select_poi-IsReachable}

abbrev row3 : OccupancyGrid (Option ℕ)
row3 = record {
  width = ℤ.pos 3;
  height = ℤ.pos 1;
  resolution = some 1;
  origin_x = some 0;
  origin_y = some 0;
  costs = ℤ.pos 0 ∷ ℤ.pos 0 ∷ ℤ.pos 0 ∷ [];
  revision = 7;
  freshness = "fresh";
}

abbrev planner : PoiGridPlanner (Option ℕ)
planner = record {
  reachability = record {
    free_cost = ℤ.pos 0;
    unknown_cost = ℤ.negsuc 0;
    footprint_radius_m = some 0;
    nominal_speed_mps = some 1;
    snap_radius_cells = ℤ.pos 2;
  };
  spacing_m = some 1;
  nominal_speed_mps = some 1;
  minimum_progress_m = some 1;
}

abbrev start : Pose (Option ℕ)
start = record { x = some 0; y = some 0; heading = some 0 }

abbrev seen : List String
seen = "poi:2,0" ∷ "poi:2,0" ∷ []

-- the far cell was visited
abbrev selection : PoiSelection (Option ℕ)
selection = record {
  poi_id = "poi:1,0";
  cell = record { x = ℤ.pos 1; y = ℤ.pos 0 };
  pose = record { x = some 1; y = some 0; heading = some 0 };
  grid_revision = 7;
  path_length_m = some 1;
  estimated_time_s = some 1;
}

abbrev decided : PoiGridDecision (Option ℕ)
decided = record {
  outcome = "selected";
  reason_code = "poi_goal_selected";
  grid_revision = 7;
  selection = some selection;
  visited_count = 1;
}

abbrev report : ReachabilityReport (Option ℕ)
report = record {
  state = ReachabilityState.reachable;
  reason_code = "preflight_reachable";
  path_length_m = some (some 1);
  estimated_time_s = some (some 1);
  costmap_revision = some 7;
  freshness = "fresh";
  selected_pose = some selection.pose;
  projected = false;
}

select_test : select_poi planner (some row3) (some start) seen ≡ ok decided
unfolding select_poi flood_fill cell_to_world
select_test = refl

report_test :
    evaluate planner.reachability (some row3) (some 0, some 0) (some 1, some 0) "reject" (some 0)
    ≡ ok report
unfolding evaluate flood_fill cell_to_world
report_test = refl

placed_test : world_to_cell row3 (some 1) (some 0) ≡ ok (some selection.cell)
unfolding world_to_cell
placed_test = refl

select_poi-Decides_example :
    (cells : List (Cell × Option ℕ)) × (reachable_cells planner.reachability
        (some row3)
        (some 0, some 0)
      ≡ ok cells)
    × Decides planner row3 (distinct seen) start cells decided
select_poi-Decides_example = select_poi-Decides planner row3 start seen decided refl select_test

select_poi-IsReachable_example :
    (report.state ≡ ReachabilityState.reachable) × (any (λ id. selection.poi_id == id) seen ≡ false)
select_poi-IsReachable_example =
    select_poi-IsReachable planner row3 start seen decided selection report refl placed_test
      select_test refl report_test
