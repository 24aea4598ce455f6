-- ===== src/Reachability/Routes.antt =====
-- The route behind a goal that is reported as reachable (reachability.py, `evaluate`).
use muto_rs_deployment_test.Prelude.{
  Bool, true, false, Option, none, some, List, String, ◌==◌, eq_iff, Floats, if-cases, ◌≡◌, refl,
  sym, ap, arith, ◌∙◌,
}
use muto_rs_deployment_test.Result.{ok}
use muto_rs_deployment_test.Contracts.{ReachabilityState}
use muto_rs_deployment_test.Contracts.Evidence.{ReachabilityReport}
use muto_rs_deployment_test.Reachability.Grid.{
  Arithmetic, Cell, holds, OccupancyGrid, ReachabilityConfig, world_to_cell, cell_to_world,
}
use muto_rs_deployment_test.Reachability.Flood.{distance_of, flood_fill}
use muto_rs_deployment_test.Reachability.Walks.{Walk}
use muto_rs_deployment_test.Reachability.Sets.{eq_cell_iff}
use muto_rs_deployment_test.Reachability.Found.{flood_fill-FindsWalks}
use muto_rs_deployment_test.Reachability.Planner.{
  Choice, project_goal, choose_goal, report_goal, evaluate, safe_cells,
  nearest_reachable_projection,
}
use muto_rs_deployment_test.Reachability.Snap.{IsSnapped}
use muto_rs_deployment_test.Reachability.Preflight.{IsReady, report_goal-state, report_goal-refused}
use muto_rs_deployment_test.Reachability.Agreement.{
  IsReachable, evaluate-ready, evaluate-IsReady, start-IsSnapped,
}

-- A projected cell is none but the goal, or the policy allows it.
data Follows (goal : Cell) (policy : String) : Choice → Type 0 where
  takes :
      {selected : Cell} {projected : Bool}
      → (projected ≡ false → selected ≡ goal)
      → (projected ≡ true → policy ≡ "allow")
      → Follows goal policy (Choice.chosen selected projected)
  refuses : {reason : String} → Follows goal policy (Choice.refused reason)

project-Follows :
    (goal : Cell) (policy : String) (o : Option Cell)
    → policy ≡ "allow"
    → Follows goal policy (project_goal goal o)
project-Follows goal policy none h = Follows.refuses
project-Follows goal policy (some selected) h =
    Follows.takes (λ e. (eq_cell_iff selected goal).0 (ground arith)) (λ _. h)

module _ {F : Type 0} ⦃fl : Floats F⦄ ⦃ar : Arithmetic F⦄ where
  choose_goal-Follows :
      (config : ReachabilityConfig F) (g : OccupancyGrid F) (start goal : Cell) (safe : List Cell)
      (policy : String)
      → Follows goal policy (choose_goal config g start goal safe policy)
  unfolding choose_goal
  choose_goal-Follows config g start goal safe policy =
      if-cases (Follows goal policy) (holds safe goal) (λ _. Follows.takes (λ _. refl) (λ h. cc))
        λ _.
          if-cases (Follows goal policy) (policy == "allow")
            (λ allowed.
              project-Follows goal policy (nearest_reachable_projection config start goal safe)
                ((eq_iff policy "allow").0 allowed))
            (λ _. Follows.refuses)

  -- What is behind a reachable goal: a walk over safe cells from the snapped start.
  pub record HasRoute (config : ReachabilityConfig F) (g : OccupancyGrid F)
      (start_xy goal_xy : F × F) (policy : String) (heading : F) (r : ReachabilityReport F)
      : Type 0 where
    pub from : Cell
    pub safe : List Cell
    pub start : Cell
    pub selected : Cell
    pub distance : F
    pub fresh : (g.freshness == "fresh") ≡ true
    pub from_is : world_to_cell g start_xy.0 start_xy.1 ≡ ok (some from)
    pub safe_is : safe_cells config g ≡ ok safe
    pub snapped : IsSnapped from safe config.snap_radius_cells start
    pub walk : Walk safe start selected distance
    pub path_is : r.path_length_m ≡ some (ar.mul_f distance g.resolution)
    pub pose_is :
        r.selected_pose
        ≡ some (record {
          x = (cell_to_world g selected).0;
          y = (cell_to_world g selected).1;
          heading = heading;
        })
    pub exact : r.projected ≡ false → world_to_cell g goal_xy.0 goal_xy.1 ≡ ok (some selected)
    pub allowed : r.projected ≡ true → policy ≡ "allow"

  report-HasRoute :
      (config : ReachabilityConfig F) (g : OccupancyGrid F) (start_xy goal_xy : F × F)
      (policy : String) (heading : F) (r : ReachabilityReport F) (i : IsReady config g start_xy)
      (goal : Cell) (choice : Choice)
      → world_to_cell g goal_xy.0 goal_xy.1 ≡ ok (some goal)
      → Follows goal policy choice
      → report_goal config g i.start i.safe heading choice ≡ ok r
      → IsReachable r
      → HasRoute config g start_xy goal_xy policy heading r
  report-HasRoute config g start_xy goal_xy policy heading r i goal _ goal_is
        (Follows.refuses {reason}) h e =
      absurd (ground (arith, e, report_goal-refused config g i.start i.safe heading reason r h))
  report-HasRoute config g start_xy goal_xy policy heading r i goal _ goal_is
        (Follows.takes {selected} {projected} exact allowed) h e =
      let reports =
        (report_goal-state config g i.start i.safe heading selected projected r h).1 e in
      record {
        from = i.from;
        safe = i.safe;
        start = i.start;
        selected = selected;
        distance = distance_of (flood_fill i.start i.safe) selected;
        fresh = i.fresh;
        from_is = i.from_is;
        safe_is = i.safe_is;
        snapped = start-IsSnapped config g start_xy i;
        walk = (flood_fill-FindsWalks i.safe i.start).1.sound selected reports.found;
        path_is = reports.path_is;
        pose_is = reports.pose_is;
        exact = λ p.
            goal_is ∙ ap (λ (c : Cell). ok (some c)) (sym (exact (sym reports.projected_is ∙ p)));
        allowed = λ p. allowed (sym reports.projected_is ∙ p);
      }

  -- When `evaluate` returns a report that a goal is reachable, the map is fresh, and a walk over safe
  -- cells leads from the start, as it was snapped, to the cell whose centre the report selects; its
  -- length is that of the walk times the resolution. The cell is that of the goal unless the report
  -- says that it was projected, which it only was under the policy "allow".
  pub evaluate-HasRoute :
      (config : ReachabilityConfig F) (g : OccupancyGrid F) (start_xy goal_xy : F × F)
      (policy : String) (heading : F) (r : ReachabilityReport F)
      → evaluate config (some g) start_xy goal_xy policy heading ≡ ok r
      → r.state ≡ ReachabilityState.reachable
      → HasRoute config g start_xy goal_xy policy heading r
  evaluate-HasRoute config g start_xy goal_xy policy heading r h e =
      let (i, (goal, goal_is), known) =
        evaluate-IsReady config g start_xy goal_xy policy heading r h e in
      report-HasRoute config g start_xy goal_xy policy heading r i goal
        (choose_goal config g i.start goal i.safe policy) goal_is
        (choose_goal-Follows config g i.start goal i.safe policy)
        (sym (evaluate-ready config g start_xy goal_xy policy heading i goal goal_is known) ∙ h) e
