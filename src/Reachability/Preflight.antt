-- ===== src/Reachability/Preflight.antt =====
-- What the preflight of a goal reports (reachability.py, `evaluate` and `reachable_cells`).
use mathlib.Core.Path.{subst}
use muto_rs_deployment_test.Prelude.{
  Bool, true, false, none, some, List, String, ◌==◌, Floats, Bool-cases, Option-cases, ◌≡◌, ap, ◌↔◌,
  ◌⊎◌, inl, inr, arith, ◌∙◌,
}
use muto_rs_deployment_test.Result.{ok, sequence-returns}
use muto_rs_deployment_test.Contracts.{ReachabilityState}
use muto_rs_deployment_test.Contracts.Evidence.{ReachabilityReport, reachability_report}
use muto_rs_deployment_test.Reachability.Grid.{
  Arithmetic, Cell, holds, OccupancyGrid, ReachabilityConfig, divide, world_to_cell, cell_to_world,
}
use muto_rs_deployment_test.Reachability.Flood.{keys, distance_of, flood_fill}
use muto_rs_deployment_test.Reachability.Walks.{Walk}
use muto_rs_deployment_test.Reachability.Planner.{
  Choice, choose_goal, report_goal, reachable_from, fill_from, reachable_cells, safe_cells,
  nearest_safe, failure, reached,
}

module _ {F : Type 0} ⦃fl : Floats F⦄ ⦃ar : Arithmetic F⦄ where
  pub reachability_report-same : (r s : ReachabilityReport F) → reachability_report r ≡ ok s → s ≡ r
  unfolding reachability_report
  reachability_report-same r s h = ground arith

  -- The end of a walk is safe if its start is.
  pub Walk-safe :
      (safe : List Cell) (start : Cell) {c : Cell} {d : F}
      → holds safe start ≡ true
      → Walk safe start c d
      → holds safe c ≡ true
  Walk-safe safe start h Walk.here = h
  Walk-safe safe start h (Walk.along m walk member is_safe clear) = is_safe

  module _ (config : ReachabilityConfig F) (g : OccupancyGrid F) (start_xy : F × F) where
    -- The cell of the start, the safe cells, and the start that they are searched from.
    pub record IsReady : Type 0 where
      pub from : Cell
      pub safe : List Cell
      pub start : Cell
      pub fresh : (g.freshness == "fresh") ≡ true
      pub from_is : world_to_cell g start_xy.0 start_xy.1 ≡ ok (some from)
      pub safe_is : safe_cells config g ≡ ok safe
      pub start_is : nearest_safe from safe config.snap_radius_cells ≡ some start

    pub reachable_cells-ready :
        (i : IsReady) → reachable_cells config (some g) start_xy ≡ ok (flood_fill i.start i.safe)
    unfolding reachable_cells reachable_from
    reachable_cells-ready i =
        rw (i.fresh, i.from_is, i.safe_is) (ap (fill_from config i.safe) i.start_is)

    -- A start that gives a cell at all has been placed in the map and snapped.
    fill_from-IsReady :
        (cells : List (Cell × F)) (c from : Cell)
        → (g.freshness == "fresh") ≡ true
        → world_to_cell g start_xy.0 start_xy.1 ≡ ok (some from)
        → reachable_from config g (some from) ≡ ok cells
        → holds (keys cells) c ≡ true
        → IsReady
    unfolding reachable_from
    fill_from-IsReady cells c from fresh from_is filled k =
        let (safe, safe_is, rest) =
          sequence-returns (safe_cells config g)
            (λ safe. fill_from config safe (nearest_safe from safe config.snap_radius_cells))
            filled in
        elim (Option-cases (nearest_safe from safe config.snap_radius_cells)) [
          | inl e ↦
              let empty = subst (λ o. fill_from config safe o ≡ ok cells) e rest in
              absurd (ground (arith, empty, k))
          | inr (start, start_is) ↦ record {
            from = from;
            safe = safe;
            start = start;
            fresh = fresh;
            from_is = from_is;
            safe_is = safe_is;
            start_is = start_is;
          }
        ]

    reachable_from-none :
        (cells : List (Cell × F)) (c : Cell)
        → reachable_from config g none ≡ ok cells
        → holds (keys cells) c ≡ false
    unfolding reachable_from
    reachable_from-none cells c h = ground (arith, h)

    pub reachable_cells-IsReady :
        (cells : List (Cell × F)) (c : Cell)
        → reachable_cells config (some g) start_xy ≡ ok cells
        → holds (keys cells) c ≡ true
        → IsReady
    unfolding reachable_cells
    reachable_cells-IsReady cells c h k = elim (Bool-cases (g.freshness == "fresh")) [
      | inr stale ↦ absurd (ground (arith, stale, h, k))
      | inl fresh ↦
          let (placed, from_is, rest) =
            sequence-returns (world_to_cell g start_xy.0 start_xy.1) (reachable_from config g)
              (rw fresh at h) in
          elim (Option-cases placed) [
            | inl e ↦ absurd (
                ground (
                  arith,
                  k,
                  reachable_from-none cells c
                      (subst (λ o. reachable_from config g o ≡ ok cells) e rest),
                ))
            | inr (from, e) ↦
                fill_from-IsReady cells c from fresh (from_is ∙ ap ok e)
                  (subst (λ o. reachable_from config g o ≡ ok cells) e rest) k
          ]
    ]

  -- What a report says of the cell that it selects.
  pub record Reports (g : OccupancyGrid F) (heading : F) (r : ReachabilityReport F) (start : Cell)
      (safe : List Cell) (selected : Cell) (projected : Bool) : Type 0 where
    pub found : holds (keys (flood_fill {F = F} start safe)) selected ≡ true
    pub path_is :
        r.path_length_m
        ≡ some (ar.mul_f (distance_of (flood_fill {F = F} start safe) selected) g.resolution)
    pub pose_is :
        r.selected_pose
        ≡ some (record {
          x = (cell_to_world g selected).0;
          y = (cell_to_world g selected).1;
          heading = heading;
        })
    pub projected_is : r.projected ≡ projected

  module _ (config : ReachabilityConfig F) (g : OccupancyGrid F) (start : Cell) (safe : List Cell)
      (heading : F) where
    -- A goal is reported as reachable exactly if it is found.
    pub report_goal-state :
        (selected : Cell) (projected : Bool) (r : ReachabilityReport F)
        → report_goal config g start safe heading (Choice.chosen selected projected) ≡ ok r
        → ((r.state ≡ ReachabilityState.reachable)
            ↔ (holds (keys (flood_fill {F = F} start safe)) selected ≡ true))
          × (r.state ≡ ReachabilityState.reachable
              → Reports g heading r start safe selected projected)
    unfolding report_goal
    report_goal-state selected projected r h =
        let distances = flood_fill {F = F} start safe in
        elim (Bool-cases (holds (keys distances) selected)) [
          | inr missing ↦
              let same =
                reachability_report-same (failure config g "preflight_disconnected") r
                  (rw missing at h) in
              (
                (λ e. absurd (ground (arith, same, e)), λ found. cc),
                λ e. absurd (ground (arith, same, e)),
              )
          | inl found ↦
              let distance_m = ar.mul_f (distance_of distances selected) g.resolution in
              let (time, _, made) =
                sequence-returns (divide distance_m config.nominal_speed_mps)
                  (λ time.
                    reachability_report
                      (reached config g selected projected heading distance_m time))
                  (rw found at h) in
              let same =
                reachability_report-same
                  (reached config g selected projected heading distance_m time) r made in
              (
                (λ e. found, λ _. ap (λ (r : ReachabilityReport F). r.state) same),
                λ e. record {
                  found = found;
                  path_is = ap (λ (r : ReachabilityReport F). r.path_length_m) same;
                  pose_is = ap (λ (r : ReachabilityReport F). r.selected_pose) same;
                  projected_is = ap (λ (r : ReachabilityReport F). r.projected) same;
                },
              )
        ]

    pub report_goal-refused :
        (reason : String) (r : ReachabilityReport F)
        → report_goal config g start safe heading (Choice.refused reason) ≡ ok r
        → r.state ≡ ReachabilityState.unreachable
    unfolding report_goal
    report_goal-refused reason r h =
        ap (λ (r : ReachabilityReport F). r.state)
          (reachability_report-same (failure config g reason) r h)

    -- Under "reject" the goal itself is chosen, if it is safe, and no cell if it is not.
    pub choose_goal-reject :
        (goal : Cell)
        → (choose_goal config g start goal safe "reject" ≡ Choice.chosen goal false)
            × (holds safe goal ≡ true)
          ⊎ ((reason : String) × (choose_goal config g start goal safe "reject"
                ≡ Choice.refused reason))
            × (holds safe goal ≡ false)
    unfolding choose_goal
    choose_goal-reject goal = ground arith
