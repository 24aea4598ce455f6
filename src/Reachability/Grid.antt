-- ===== src/Reachability/Grid.antt =====
-- `OccupancyGrid` and the cells of a map (reachability.py).
use muto_rs_deployment_test.Prelude.{
  ◌-◌, ◌*◌, ◌/◌, ℕ, zero, suc, ◌+◌, Bool, not, ◌&&◌, ◌||◌, Option, none, some, List, [], ◌∷◌,
  String, Floats, any, length, get_elem?, if◌then◌else◌,
}
use muto_rs_deployment_test.Prelude.Integers.{ℤ, abs, pos_part, ◌+ℤ◌, ◌*ℤ◌, ltb_ℤ, leb_ℤ, eq_ℤ}
use muto_rs_deployment_test.Result.{Result, ok, err, value_error, other, ◌>>=◌, ◌>>◌, guard}

-- The arithmetic of floats that the planner uses. `floor` and `int` raise of a value that is not
-- finite.
pub record Arithmetic (F : Type 0) : Type 0 where
  pub sub_f : F → F → F
  pub mul_f : F → F → F
  pub div_f : F → F → F
  pub hypot_f : F → F → F
  pub of_int : ℤ → F
  pub floor_f : F → Result ℤ
  pub trunc_f : F → Result ℤ
  -- `round`, to the even one of two nearest
  pub round_f : F → Result ℤ
  -- 0.5, 0.999999 and `2 ** 0.5`
  pub half : F
  pub round_up : F
  pub diagonal : F

-- (x, y)
pub record Cell : Type 0 where
  pub x : ℤ
  pub y : ℤ

abbrev pub eq_cell : Cell → Cell → Bool
eq_cell a b = eq_ℤ a.x b.x && eq_ℤ a.y b.y

-- `cell in cells`
abbrev pub holds : List Cell → Cell → Bool
holds cells c = any (eq_cell c) cells

pub record OccupancyGrid (F : Type 0) : Type 0 where
  pub width : ℤ
  pub height : ℤ
  pub resolution : F
  pub origin_x : F
  pub origin_y : F
  -- `data`
  pub costs : List ℤ
  pub revision : ℕ
  pub freshness : String

pub record ReachabilityConfig (F : Type 0) : Type 0 where
  pub free_cost : ℤ
  pub unknown_cost : ℤ
  pub footprint_radius_m : F
  pub nominal_speed_mps : F
  pub snap_radius_cells : ℤ

-- `range(n)`, and `range(-n, n + 1)` for a bound that is not negative
abbrev pub range_from : ℤ → ℕ → List ℤ
range_from first zero = []
range_from first (suc n) = first ∷ range_from (first +ℤ ℤ.pos 1) n

abbrev pub range : ℤ → List ℤ
range n = range_from (ℤ.pos 0) (pos_part n)

module _ {F : Type 0} ⦃fl : Floats F⦄ ⦃ar : Arithmetic F⦄ where
  -- `x / y` on floats
  unfoldable pub divide : F → F → Result F
  divide x y =
      if fl.eq_f y fl.zero_f then err (other "float division by zero") else ok (ar.div_f x y)

  -- `OccupancyGrid.__post_init__`
  unfoldable pub occupancy_grid : OccupancyGrid F → Result (OccupancyGrid F)
  unfolding ◌*ℤ◌
  occupancy_grid g = do
    guard
        (not
          (leb_ℤ g.width (ℤ.pos 0) || (leb_ℤ g.height (ℤ.pos 0) || fl.le_f g.resolution fl.zero_f)))
        (value_error "grid dimensions and resolution must be positive")
    guard (eq_ℤ (ℤ.pos (length g.costs)) (g.width *ℤ g.height))
        (value_error "grid data length does not match dimensions")
    ok g

module _ {F : Type 0} where
  unfoldable pub index : OccupancyGrid F → Cell → ℤ
  unfolding ◌+ℤ◌ ◌*ℤ◌
  index g c = c.y *ℤ g.width +ℤ c.x

  unfoldable pub in_bounds : OccupancyGrid F → Cell → Bool
  in_bounds g c =
      leb_ℤ (ℤ.pos 0) c.x && (ltb_ℤ c.x g.width && (leb_ℤ (ℤ.pos 0) c.y && ltb_ℤ c.y g.height))

  -- `grid.data[self._index(grid, cell)]`, which is only read of a cell in bounds: the default of a
  -- missing cell is never seen in a grid that its constructor has passed
  unfoldable pub cost_at : OccupancyGrid F → ℤ → Cell → ℤ
  unfolding index
  cost_at g default c = elim (get_elem? g.costs (pos_part (index g c))) [
    | none ↦ default
    | some cost ↦ cost
  ]

module _ {F : Type 0} ⦃fl : Floats F⦄ ⦃ar : Arithmetic F⦄ where
  unfoldable pub world_to_cell : OccupancyGrid F → F → F → Result (Option Cell)
  unfolding divide in_bounds
  world_to_cell g px py = do
    qx ← divide (ar.sub_f px g.origin_x) g.resolution
    cx ← ar.floor_f qx
    qy ← divide (ar.sub_f py g.origin_y) g.resolution
    cy ← ar.floor_f qy
    let c : Cell = record { x = cx; y = cy } in ok (if in_bounds g c then some c else none)

  unfoldable pub cell_to_world : OccupancyGrid F → Cell → F × F
  cell_to_world g c = (
    fl.add_f g.origin_x (ar.mul_f (fl.add_f (ar.of_int c.x) ar.half) g.resolution),
    fl.add_f g.origin_y (ar.mul_f (fl.add_f (ar.of_int c.y) ar.half) g.resolution),
  )

-- Whole numbers, for tests and witnesses.
instance abbrev pub whole_arithmetic : Arithmetic (Option ℕ)
whole_arithmetic =
    let both : (ℕ → ℕ → ℕ) → Option ℕ → Option ℕ → Option ℕ =
      λ f x y. elim x [ none ↦ none | some a ↦ elim y [ none ↦ none | some b ↦ some (f a b) ] ] in
    let integer : Option ℕ → Result ℤ = λ x. elim x [
      | none ↦ err (value_error "cannot convert float NaN to integer")
      | some a ↦ ok (ℤ.pos a)
    ] in
    record {
      sub_f = both (λ a b. a - b);
      mul_f = both (λ a b. a * b);
      div_f = both (λ a b. a / b);
      hypot_f = both (λ a b. a + b);
      of_int = λ z. some (abs z);
      floor_f = integer;
      trunc_f = integer;
      round_f = integer;
      half = some 0;
      round_up = some 0;
      diagonal = some 1;
    }
