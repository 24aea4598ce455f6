-- ===== src/Poi/Selected.antt =====
-- What a decision selects, and the preflight of its pose (poi_grid.py, `select`).
use mathlib.Core.Path.{subst}
use muto_rs_deployment_test.Prelude.{
  ℕ, Bool, true, false, none, some, List, [], ◌∷◌, String, ◌==◌, eq_iff, Floats, any, select, least,
  Bool-cases, Option-cases, ◌≡◌, refl, sym, ap, ◌⊎◌, inl, inr, arith, if◌then◌else◌, ◌∙◌,
}
use muto_rs_deployment_test.Prelude.Integers.{ℤ}
use muto_rs_deployment_test.Result.{Result, ok, ok-injective, ◌>>=◌, sequence-returns}
use muto_rs_deployment_test.Contracts.{ReachabilityState}
use muto_rs_deployment_test.Contracts.Evidence.{Pose, ReachabilityReport}
use muto_rs_deployment_test.Reachability.Grid.{
  Arithmetic, Cell, holds, OccupancyGrid, divide, world_to_cell, cell_to_world,
}
use muto_rs_deployment_test.Reachability.Flood.{keys, distance_of}
use muto_rs_deployment_test.Reachability.Planner.{evaluate, reachable_cells}
use muto_rs_deployment_test.Reachability.Footprint.{select-holds}
use muto_rs_deployment_test.Reachability.Snap.{least-holds}
use muto_rs_deployment_test.Reachability.Agreement.{evaluate-reachable_cells}
use muto_rs_deployment_test.Poi.{
  PoiSelection, PoiGridDecision, PoiGridPlanner, poi_id, is_sample_cell, distinct, or_every,
  at_least_one, is_open, candidates, farther, decision, selected_decision, choose_cell, select_cell,
  select_on, select_poi,
}

-- A text is in a sequence if it is in the set of it.
any-distinct :
    (t : String) (xs : List String) → any (λ x. t == x) (distinct xs) ≡ any (λ x. t == x) xs
any-distinct t [] = refl
any-distinct t (x ∷ xs) = elim (Bool-cases (any (λ y. x == y) (distinct xs))) [
  | inr e ↦ rw (e, any-distinct t xs) refl
  | inl e ↦ elim (Bool-cases (t == x)) [
    | inr f ↦ rw (e, f) (any-distinct t xs)
    | inl f ↦
        rw (e, f)
          (subst (λ (y : String). any (λ z. y == z) (distinct xs) ≡ true) (sym ((eq_iff t x).0 f))
            e)
  ]
]

or_every-holds :
    (samples every : List Cell) (c : Cell)
    → holds (or_every samples every) c ≡ true
    → (holds samples c ≡ true) ⊎ (holds every c ≡ true)
or_every-holds [] every c h = inr h
or_every-holds (d ∷ ds) every c h = inl h

or_every-empty : (samples every : List Cell) → or_every samples every ≡ [] → every ≡ []
or_every-empty [] every h = h
or_every-empty (d ∷ ds) every h = cc

least-empty : (less : Cell → Cell → Bool) (cs : List Cell) → least less cs ≡ none → cs ≡ []
least-empty less [] h = refl
least-empty less (c ∷ cs) h = cc

module _ {F : Type 0} ⦃fl : Floats F⦄ ⦃ar : Arithmetic F⦄ where
  module _ (planner : PoiGridPlanner F) (g : OccupancyGrid F) (visited : List String) where
    is_open-unvisited :
        (distances : List (Cell × F)) (c : Cell)
        → is_open planner g visited distances c ≡ true
        → any (λ id. poi_id c == id) visited ≡ false
    unfolding is_open
    is_open-unvisited distances c h = ground arith

    -- A candidate is open, and if there is none then no cell is open.
    candidates-open :
        (distances : List (Cell × F)) (spacing : ℕ) (c : Cell)
        → holds (candidates planner g visited distances spacing) c ≡ true
        → (holds (keys distances) c ≡ true) × (is_open planner g visited distances c ≡ true)
    unfolding candidates
    candidates-open distances spacing c h =
        let every = select (is_open planner g visited distances) (keys distances) in
        let open_is = select-holds (is_open planner g visited distances) (keys distances) c in
        let sample_is = select-holds (λ c. is_sample_cell c spacing) every c in
        elim (or_every-holds (select (λ c. is_sample_cell c spacing) every) every c h) [
          | inl sample ↦ ground (arith, open_is, sample_is, sample)
          | inr free ↦ ground (arith, open_is, free)
        ]

    candidates-none :
        (distances : List (Cell × F)) (spacing : ℕ) (c : Cell)
        → candidates planner g visited distances spacing ≡ []
        → holds (keys distances) c ≡ true
        → is_open planner g visited distances c ≡ false
    unfolding candidates
    candidates-none distances spacing c h k =
        let every = select (is_open planner g visited distances) (keys distances) in
        let empty = or_every-empty (select (λ c. is_sample_cell c spacing) every) every h in
        ground (
          arith,
          k,
          ap (λ cs. holds cs c) empty,
          select-holds (is_open planner g visited distances) (keys distances) c,
        )

    -- What a decision says of the cells that are reachable from the start.
    pub data Decides (start : Pose F) (cells : List (Cell × F)) (d : PoiGridDecision F)
        : Type 0 where
      selected :
          (s : PoiSelection F)
          → d.outcome ≡ "selected"
          → d.selection ≡ some s
          → holds (keys cells) s.cell ≡ true
          → is_open planner g visited cells s.cell ≡ true
          → s.poi_id ≡ poi_id s.cell
          → s.pose ≡ record {
            x = (cell_to_world g s.cell).0;
            y = (cell_to_world g s.cell).1;
            heading = start.heading;
          }
          → Decides start cells d
      exhausted :
          d.outcome ≡ "exhausted"
          → d.selection ≡ none
          → ((c : Cell) → holds (keys cells) c ≡ true → is_open planner g visited cells c ≡ false)
          → Decides start cells d
      unreachable :
          d.outcome ≡ "unreachable" → d.selection ≡ none → cells ≡ [] → Decides start cells d

    choose_cell-Decides :
        (start : Pose F) (cells : List (Cell × F)) (spacing : ℕ) (d : PoiGridDecision F)
        → choose_cell planner g visited start cells
            (least (farther planner g visited cells) (candidates planner g visited cells spacing))
          ≡ ok d
        → Decides start cells d
    unfolding choose_cell
    choose_cell-Decides start cells spacing d h =
        elim (Option-cases
          (least (farther planner g visited cells) (candidates planner g visited cells spacing))) [
            | inl e ↦
                let none_is =
                  ok-injective
                    (subst (λ o. choose_cell planner g visited start cells o ≡ ok d) e h) in
                Decides.exhausted (ap (λ (d : PoiGridDecision F). d.outcome) (sym none_is))
                  (ap (λ (d : PoiGridDecision F). d.selection) (sym none_is))
                  (λ c k.
                    candidates-none cells spacing c
                      (least-empty (farther planner g visited cells)
                        (candidates planner g visited cells spacing) e)
                      k)
            | inr (c, e) ↦
                let path_length_m = ar.mul_f (distance_of cells c) g.resolution in
                let (time, _, made) =
                  sequence-returns (divide path_length_m planner.nominal_speed_mps)
                    (λ time. ok (selected_decision planner g visited start c path_length_m time))
                    (subst (λ o. choose_cell planner g visited start cells o ≡ ok d) e h) in
                let same = sym (ok-injective made) in
                let member = candidates-open cells spacing c (
                  least-holds (farther planner g visited cells)
                    (candidates planner g visited cells spacing) c e) in
                Decides.selected _ (ap (λ (d : PoiGridDecision F). d.outcome) same)
                  (ap (λ (d : PoiGridDecision F). d.selection) same) member.0 member.1 refl refl
          ]

    select_cell-Decides :
        (start : Pose F) (cells : List (Cell × F)) (d : PoiGridDecision F)
        → select_cell planner g visited start cells ≡ ok d
        → Decides start cells d
    unfolding select_cell
    select_cell-Decides start [] d h =
        let same = sym (ok-injective h) in
        Decides.unreachable (ap (λ (d : PoiGridDecision F). d.outcome) same)
          (ap (λ (d : PoiGridDecision F). d.selection) same) refl
    select_cell-Decides start (item ∷ items) d h =
        let cells = item ∷ items in
        let choose : ℤ → Result (PoiGridDecision F) = λ spacing.
          choose_cell planner g visited start cells (
            least (farther planner g visited cells)
              (candidates planner g visited cells (at_least_one spacing))) in
        let (quotient, _, rest) =
          sequence-returns (divide planner.spacing_m g.resolution)
            (λ quotient. ar.round_f quotient >>= choose) h in
        let (spacing, _, made) = sequence-returns (ar.round_f quotient) choose rest in
        choose_cell-Decides start cells (at_least_one spacing) d made

  -- When `select` returns on a fresh map with a pose, `reachable_cells` has returned for it, and the
  -- decision is one of three: a cell that is reachable, far enough, and not among the visited ones,
  -- with the pose of its centre and the heading of the robot; that every reachable cell is visited
  -- or too near; or that no cell is reachable.
  pub select_poi-Decides :
      (planner : PoiGridPlanner F) (g : OccupancyGrid F) (start : Pose F)
      (visited_ids : List String) (d : PoiGridDecision F)
      → (g.freshness == "fresh") ≡ true
      → select_poi planner (some g) (some start) visited_ids ≡ ok d
      → (cells : List (Cell × F)) × (reachable_cells planner.reachability
            (some g)
            (start.x, start.y)
          ≡ ok cells)
        × Decides planner g (distinct visited_ids) start cells d
  unfolding select_poi select_on
  select_poi-Decides planner g start visited_ids d fresh h =
      let run =
        reachable_cells planner.reachability (some g) (start.x, start.y)
        >>= select_cell planner g (distinct visited_ids) start in
      let stale = ok (decision planner g (distinct visited_ids) "stale" "poi_grid_stale") in
      let (cells, found, made) =
        sequence-returns (reachable_cells planner.reachability (some g) (start.x, start.y))
          (select_cell planner g (distinct visited_ids) start)
          (subst (λ (b : Bool). (if b then run else stale) ≡ ok d) fresh h) in
      (cells, found, select_cell-Decides planner g (distinct visited_ids) start cells d made)

  -- A selected point of interest was not visited, and the preflight of its pose, with projections
  -- rejected, finds it reachable from the pose it was selected at, whenever the preflight returns
  -- and the centre of the selected cell lies in that cell after rounding.
  pub select_poi-IsReachable :
      (planner : PoiGridPlanner F) (g : OccupancyGrid F) (start : Pose F)
      (visited_ids : List String) (d : PoiGridDecision F) (s : PoiSelection F)
      (r : ReachabilityReport F)
      → (g.freshness == "fresh") ≡ true
      → world_to_cell g s.pose.x s.pose.y ≡ ok (some s.cell)
      → select_poi planner (some g) (some start) visited_ids ≡ ok d
      → d.selection ≡ some s
      → evaluate planner.reachability
          (some g)
          (start.x, start.y)
          (s.pose.x, s.pose.y)
          "reject"
          s.pose.heading
        ≡ ok r
      → (r.state ≡ ReachabilityState.reachable) × (any (λ id. s.poi_id == id) visited_ids ≡ false)
  select_poi-IsReachable planner g start visited_ids d s r fresh placed h chosen evaluated =
      let (cells, found, decides) = select_poi-Decides planner g start visited_ids d fresh h in
      elim decides [
        | Decides.selected t _ t_is member free id_is pose_is ↦
            let same : t ≡ s = ground (arith, t_is, chosen) in
            (
              (evaluate-reachable_cells planner.reachability g (start.x, start.y)
                    (s.pose.x, s.pose.y) s.pose.heading s.cell r cells placed evaluated found).1
                  (rw same at member),
              subst (λ (id : String). any (λ seen. id == seen) visited_ids ≡ false)
                  (sym id_is ∙ ap (λ (s : PoiSelection F). s.poi_id) same)
                  (sym (any-distinct (poi_id t.cell) visited_ids)
                    ∙ is_open-unvisited planner g (distinct visited_ids) cells t.cell free),
            )
        | Decides.exhausted _ e _ ↦ absurd (ground (arith, e, chosen))
        | Decides.unreachable _ e _ ↦ absurd (ground (arith, e, chosen))
      ]
