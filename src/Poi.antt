-- ===== src/Poi.antt =====
-- The points of interest (poi_grid.py): `PoiGridPlanner` and its decisions.
pub mod Selected
mod Tests
use muto_rs_deployment_test.Prelude.{
  ℕ, ◌%◌, suc, Bool, true, false, not, ◌&&◌, ◌||◌, Option, none, some, List, [], ◌∷◌, String, ◌==◌,
  ◌<>◌, decimal, Floats, any, select, least, length, eqb, if◌then◌else◌,
}
use muto_rs_deployment_test.Prelude.Integers.{ℤ, abs, pos_part, leb_ℤ, ltb_ℤ, eq_ℤ}
use muto_rs_deployment_test.Result.{Result, ok, value_error, ◌>>=◌, ◌>>◌, guard}
use muto_rs_deployment_test.Contracts.Evidence.{Pose}
use muto_rs_deployment_test.Reachability.Grid.{
  Arithmetic, Cell, OccupancyGrid, ReachabilityConfig, divide, cell_to_world,
}
use muto_rs_deployment_test.Reachability.Flood.{keys, distance_of}
use muto_rs_deployment_test.Reachability.Planner.{reachable_cells}

pub record PoiSelection (F : Type 0) : Type 0 where
  pub poi_id : String
  pub cell : Cell
  pub pose : Pose F
  pub grid_revision : ℕ
  pub path_length_m : F
  pub estimated_time_s : F

pub record PoiGridDecision (F : Type 0) : Type 0 where
  pub outcome : String
  pub reason_code : String
  pub grid_revision : ℕ
  pub selection : Option (PoiSelection F)
  pub visited_count : ℕ

pub record PoiGridPlanner (F : Type 0) : Type 0 where
  -- `_reachability`
  pub reachability : ReachabilityConfig F
  pub spacing_m : F
  pub nominal_speed_mps : F
  pub minimum_progress_m : F

-- `str` of an integer
unfoldable pub integer_text : ℤ → String
unfolding decimal
integer_text (ℤ.pos n) = decimal n
integer_text (ℤ.negsuc n) = "-" <> decimal (suc n)

unfoldable pub poi_id : Cell → String
unfolding integer_text
poi_id c = "poi:" <> integer_text c.x <> "," <> integer_text c.y

-- of a spacing that is positive
abbrev pub is_sample_cell : Cell → ℕ → Bool
is_sample_cell c spacing = eqb (abs c.x % spacing) 0 && eqb (abs c.y % spacing) 0

-- the set of the texts of a sequence
abbrev pub distinct : List String → List String
distinct [] = []
distinct (x ∷ xs) = let rest = distinct xs in if any (λ y. x == y) rest then rest else x ∷ rest

-- `if not candidates`
abbrev pub or_every : List Cell → List Cell → List Cell
or_every [] every = every
or_every (c ∷ cs) every = c ∷ cs

-- `max(1, n)`
abbrev pub at_least_one : ℤ → ℕ
at_least_one n = if leb_ℤ n (ℤ.pos 1) then 1 else pos_part n

module _ {F : Type 0} ⦃fl : Floats F⦄ ⦃ar : Arithmetic F⦄ where
  -- `PoiGridPlanner.__init__`
  unfoldable pub poi_grid_planner : PoiGridPlanner F → Result (PoiGridPlanner F)
  poi_grid_planner p = do
    guard
        (not (
          fl.le_f p.spacing_m fl.zero_f
          || (fl.le_f p.nominal_speed_mps fl.zero_f || fl.lt_f p.minimum_progress_m fl.zero_f)))
        (value_error "POI grid parameters must be positive")
    ok p

  module _ (planner : PoiGridPlanner F) (g : OccupancyGrid F) (visited : List String) where
    abbrev pub decision : String → String → PoiGridDecision F
    decision outcome reason = record {
      outcome = outcome;
      reason_code = reason;
      grid_revision = g.revision;
      selection = none;
      visited_count = length visited;
    }

    -- an unvisited cell that is far enough away
    unfoldable pub is_open : List (Cell × F) → Cell → Bool
    unfolding poi_id
    is_open distances c =
        not (any (λ id. poi_id c == id) visited)
        && fl.le_f planner.minimum_progress_m (ar.mul_f (distance_of distances c) g.resolution)

    -- `candidates`, with the fallback of a map without a sample cell
    unfoldable pub candidates : List (Cell × F) → ℕ → List Cell
    unfolding is_open
    candidates distances spacing =
        let every = select (is_open distances) (keys distances) in
        let samples = select (λ c. is_sample_cell c spacing) every in or_every samples every

    -- the order of the keys of `max`, the greater first
    unfoldable pub farther : List (Cell × F) → Cell → Cell → Bool
    farther distances a b =
        fl.lt_f (distance_of distances b) (distance_of distances a)
        || fl.eq_f (distance_of distances a) (distance_of distances b)
          && (ltb_ℤ a.y b.y || eq_ℤ a.y b.y && ltb_ℤ a.x b.x)

    abbrev pub selected_decision : Pose F → Cell → F → F → PoiGridDecision F
    selected_decision start c path_length_m time =
        record (decision "selected" "poi_goal_selected") {
          selection = some (record {
            poi_id = poi_id c;
            cell = c;
            pose = record {
              x = (cell_to_world g c).0;
              y = (cell_to_world g c).1;
              heading = start.heading;
            };
            grid_revision = g.revision;
            path_length_m = path_length_m;
            estimated_time_s = time;
          });
        }

    -- from `cell = max(...)` on
    unfoldable pub choose_cell : Pose F → List (Cell × F) → Option Cell → Result (PoiGridDecision F)
    unfolding divide
    choose_cell start distances none = ok (decision "exhausted" "poi_exhausted")
    choose_cell start distances (some c) =
        let path_length_m = ar.mul_f (distance_of distances c) g.resolution in
        divide path_length_m planner.nominal_speed_mps >>= λ time.
        ok (selected_decision start c path_length_m time)

    -- from `if not distances` on
    unfoldable pub select_cell : Pose F → List (Cell × F) → Result (PoiGridDecision F)
    unfolding divide candidates farther choose_cell
    select_cell start [] = ok (decision "unreachable" "poi_no_reachable_goal")
    select_cell start (item ∷ items) = do
      let distances = item ∷ items in
          do
            quotient ← divide planner.spacing_m g.resolution
            spacing ← ar.round_f quotient
            choose_cell start distances
                (least (farther distances) (candidates distances (at_least_one spacing)))

    -- of a map that is there
    unfoldable pub select_on : Option (Pose F) → Result (PoiGridDecision F)
    unfolding reachable_cells select_cell
    select_on start_pose =
        if g.freshness == "fresh"
        then elim start_pose [
          | none ↦ ok (decision "unavailable" "map_pose_unavailable")
          | some start ↦
              reachable_cells planner.reachability (some g) (start.x, start.y) >>= select_cell start
        ]
        else ok (decision "stale" "poi_grid_stale")

  -- `select`
  unfoldable pub select_poi :
      PoiGridPlanner F
      → Option (OccupancyGrid F)
      → Option (Pose F)
      → List String
      → Result (PoiGridDecision F)
  unfolding select_on
  select_poi planner none start_pose visited_ids = ok (record {
    outcome = "unavailable";
    reason_code = "poi_grid_unavailable";
    grid_revision = 0;
    selection = none;
    visited_count = length (distinct visited_ids);
  })
  select_poi planner (some g) start_pose visited_ids =
      select_on planner g (distinct visited_ids) start_pose
