-- ===== src/Reachability/Agreement.antt =====
-- The preflight of a goal and the cells that `reachable_cells` gives (reachability.py).
use mathlib.Core.Path.{subst}
use muto_rs_deployment_test.Prelude.{
  true, false, ◌||◌, Option, none, some, List, String, ◌==◌, Floats, Bool-cases, Option-cases, ◌≡◌,
  ◌≢◌, refl, sym, ap, ◌↔◌, inl, inr, arith, ◌∙◌,
}
use muto_rs_deployment_test.Result.{ok, ◌>>=◌, sequence-returns}
use muto_rs_deployment_test.Contracts.{ReachabilityState}
use muto_rs_deployment_test.Contracts.Evidence.{ReachabilityReport, no_report, reachability_report}
use muto_rs_deployment_test.Reachability.Grid.{
  Arithmetic, Cell, holds, OccupancyGrid, ReachabilityConfig, world_to_cell,
}
use muto_rs_deployment_test.Reachability.Flood.{keys, flood_fill}
use muto_rs_deployment_test.Reachability.Found.{flood_fill-FindsWalks}
use muto_rs_deployment_test.Reachability.Planner.{
  choose_goal, report_goal, report_from, evaluate_cells, evaluate_placed, evaluate_fresh, evaluate,
  reachable_cells, safe_cells, nearest_safe, failure,
}
use muto_rs_deployment_test.Reachability.Snap.{IsSnapped, Snaps, nearest_safe-Snaps}
use muto_rs_deployment_test.Reachability.Preflight.{
  reachability_report-same, Walk-safe, IsReady, reachable_cells-ready, reachable_cells-IsReady,
  report_goal-state, report_goal-refused, choose_goal-reject,
}

module _ {F : Type 0} ⦃fl : Floats F⦄ ⦃ar : Arithmetic F⦄ where
  abbrev pub IsReachable : ReachabilityReport F → Type 0
  IsReachable r = r.state ≡ ReachabilityState.reachable

  not-IsReachable :
      (made r : ReachabilityReport F)
      → made.state ≢ ReachabilityState.reachable
      → reachability_report made ≡ ok r
      → ¬ IsReachable r
  not-IsReachable made r other h e =
      other
        (sym (ap (λ (r : ReachabilityReport F). r.state) (reachability_report-same made r h)) ∙ e)

  module _ (config : ReachabilityConfig F) (g : OccupancyGrid F) (start_xy goal_xy : F × F)
      (policy : String) (heading : F) where
    pub evaluate-ready :
        (i : IsReady config g start_xy) (goal : Cell)
        → world_to_cell g goal_xy.0 goal_xy.1 ≡ ok (some goal)
        → (policy == "reject" || policy == "allow") ≡ true
        → evaluate config (some g) start_xy goal_xy policy heading
          ≡ report_goal config g i.start i.safe heading
              (choose_goal config g i.start goal i.safe policy)
    unfolding evaluate evaluate_fresh evaluate_placed evaluate_cells report_from
    evaluate-ready i goal goal_is known =
        rw (known, i.fresh, i.from_is, goal_is, i.safe_is)
          (ap (report_from config g i.safe goal policy heading) i.start_is)

    evaluate_cells-IsReady :
        (r : ReachabilityReport F) (from goal : Cell)
        → (g.freshness == "fresh") ≡ true
        → world_to_cell g start_xy.0 start_xy.1 ≡ ok (some from)
        → evaluate_cells config g from goal policy heading ≡ ok r
        → IsReachable r
        → IsReady config g start_xy
    unfolding evaluate_cells report_from
    evaluate_cells-IsReady r from goal fresh from_is h e =
        let (safe, safe_is, rest) =
          sequence-returns (safe_cells config g)
            (λ safe.
              report_from config g safe goal policy heading
                (nearest_safe from safe config.snap_radius_cells))
            h in
        elim (Option-cases (nearest_safe from safe config.snap_radius_cells)) [
          | inl lost ↦ absurd (
              not-IsReachable (failure config g "preflight_invalid_start") r (λ k. cc)
                (subst (λ o. report_from config g safe goal policy heading o ≡ ok r) lost rest) e)
          | inr (start, start_is) ↦ record {
            from = from;
            safe = safe;
            start = start;
            fresh = fresh;
            from_is = from_is;
            safe_is = safe_is;
            start_is = start_is;
          }
        ]

    evaluate_placed-IsReady :
        (r : ReachabilityReport F) (from goal : Option Cell)
        → (g.freshness == "fresh") ≡ true
        → world_to_cell g start_xy.0 start_xy.1 ≡ ok from
        → evaluate_placed config g policy heading from goal ≡ ok r
        → IsReachable r
        → IsReady config g start_xy × ((cell : Cell) × (goal ≡ some cell))
    unfolding evaluate_placed
    evaluate_placed-IsReady r none goal fresh from_is h e =
        absurd (not-IsReachable (failure config g "preflight_invalid_start") r (λ k. cc) h e)
    evaluate_placed-IsReady r (some from) none fresh from_is h e =
        absurd (not-IsReachable (failure config g "preflight_out_of_bounds") r (λ k. cc) h e)
    evaluate_placed-IsReady r (some from) (some goal) fresh from_is h e =
        (evaluate_cells-IsReady r from goal fresh from_is h e, (goal, refl))

    -- A goal that is reported as reachable is in the map, as is the start.
    pub evaluate-IsReady :
        (r : ReachabilityReport F)
        → evaluate config (some g) start_xy goal_xy policy heading ≡ ok r
        → IsReachable r
        → IsReady config g start_xy
          × ((cell : Cell) × (world_to_cell g goal_xy.0 goal_xy.1 ≡ ok (some cell)))
          × ((policy == "reject" || policy == "allow") ≡ true)
    unfolding evaluate evaluate_fresh
    evaluate-IsReady r h e = elim (Bool-cases (policy == "reject" || policy == "allow")) [
      | inr unknown ↦ absurd (ground (arith, unknown, h))
      | inl known ↦ elim (Bool-cases (g.freshness == "fresh")) [
        | inr stale ↦ absurd (
            not-IsReachable
              (record no_report {
                reason_code = "costmap_stale";
                costmap_revision = some g.revision;
                freshness = g.freshness;
              })
              r (λ k. cc) (rw (known, stale) at h) e)
        | inl fresh ↦
            let (from, from_is, rest) =
              sequence-returns (world_to_cell g start_xy.0 start_xy.1)
                (λ from. world_to_cell g goal_xy.0 goal_xy.1 >>= λ goal.
                  evaluate_placed config g policy heading from goal)
                (rw (known, fresh) at h) in
            let (goal, goal_is, placed) =
              sequence-returns (world_to_cell g goal_xy.0 goal_xy.1)
                (evaluate_placed config g policy heading from) rest in
            let (ready, (cell, cell_is)) =
              evaluate_placed-IsReady r from goal fresh from_is placed e in
            (ready, (cell, goal_is ∙ ap ok cell_is), known)
      ]
    ]

  pub start-IsSnapped :
      (config : ReachabilityConfig F) (g : OccupancyGrid F) (start_xy : F × F)
      (i : IsReady config g start_xy)
      → IsSnapped i.from i.safe config.snap_radius_cells i.start
  start-IsSnapped config g start_xy i =
      elim (subst (Snaps i.from i.safe config.snap_radius_cells) i.start_is
        (nearest_safe-Snaps i.from i.safe config.snap_radius_cells)) [ Snaps.to snapped ↦ snapped ]

  -- What the flood fill finds is safe.
  found-safe :
      (config : ReachabilityConfig F) (g : OccupancyGrid F) (start_xy : F × F)
      (i : IsReady config g start_xy) (c : Cell)
      → holds (keys (flood_fill {F = F} i.start i.safe)) c ≡ true
      → holds i.safe c ≡ true
  found-safe config g start_xy i c h =
      Walk-safe i.safe i.start (start-IsSnapped config g start_xy i).is_safe
        ((flood_fill-FindsWalks {F = F} i.safe i.start).1.sound c h)

  ready-agrees :
      (config : ReachabilityConfig F) (g : OccupancyGrid F) (start_xy goal_xy : F × F) (heading : F)
      (goal : Cell) (r : ReachabilityReport F) (cells : List (Cell × F))
      → world_to_cell g goal_xy.0 goal_xy.1 ≡ ok (some goal)
      → evaluate config (some g) start_xy goal_xy "reject" heading ≡ ok r
      → reachable_cells config (some g) start_xy ≡ ok cells
      → IsReady config g start_xy
      → IsReachable r ↔ (holds (keys cells) goal ≡ true)
  ready-agrees config g start_xy goal_xy heading goal r cells goal_is h k i =
      let filled : cells ≡ flood_fill i.start i.safe =
        ground (arith, k, reachable_cells-ready config g start_xy i) in
      let run =
        sym (evaluate-ready config g start_xy goal_xy "reject" heading i goal goal_is refl) ∙ h in
      elim (choose_goal-reject config g i.start i.safe heading goal) [
        | inl (chosen, _) ↦
            rw filled
              (report_goal-state config g i.start i.safe heading goal false r
                (ap (report_goal config g i.start i.safe heading) (sym chosen) ∙ run)).0
        | inr ((reason, refused), unsafe) ↦
            let state =
              report_goal-refused config g i.start i.safe heading reason r
                (ap (report_goal config g i.start i.safe heading) (sym refused) ∙ run) in
            (
              λ e. absurd (ground (arith, state, e)),
              λ found. absurd (
                  ground (
                    arith,
                    unsafe,
                    found-safe config g start_xy i goal
                        (subst (λ (d : List (Cell × F)). holds (keys d) goal ≡ true) filled found),
                  )),
            )
      ]

  -- The preflight and the cells that the points of interest are selected from agree: a goal in a
  -- cell of the map is reported as reachable, when projections are rejected, exactly if
  -- `reachable_cells` has that cell, whenever both calls return.
  pub evaluate-reachable_cells :
      (config : ReachabilityConfig F) (g : OccupancyGrid F) (start_xy goal_xy : F × F) (heading : F)
      (goal : Cell) (r : ReachabilityReport F) (cells : List (Cell × F))
      → world_to_cell g goal_xy.0 goal_xy.1 ≡ ok (some goal)
      → evaluate config (some g) start_xy goal_xy "reject" heading ≡ ok r
      → reachable_cells config (some g) start_xy ≡ ok cells
      → (r.state ≡ ReachabilityState.reachable) ↔ (holds (keys cells) goal ≡ true)
  evaluate-reachable_cells config g start_xy goal_xy heading goal r cells goal_is h k = (
    λ e.
        (ready-agrees config g start_xy goal_xy heading goal r cells goal_is h k
            (evaluate-IsReady config g start_xy goal_xy "reject" heading r h e).0).0
          e,
    λ found.
        (ready-agrees config g start_xy goal_xy heading goal r cells goal_is h k
            (reachable_cells-IsReady config g start_xy cells goal k found)).1
          found,
  )
