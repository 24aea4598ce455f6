-- ===== src/Reachability/Bounds.antt =====
-- The reads of a map's data (reachability.py, `_index` and `_in_bounds`).
use mathlib.Core.Path.{subst}
use native.Mathlib.Nat.{mul-le-mul, suc-mul, mul_comm, mul-zero, zero-mul}
use muto_rs_deployment_test.Prelude.{
  ℕ, suc, ◌+◌, ◌*◌, ◌≤◌, ◌<◌, Floats, some, get_elem?, length, true, List, zero, [], ◌∷◌, ◌≡◌, refl,
  sym, none, arith,
}
use muto_rs_deployment_test.Prelude.Integers.{ℤ, pos_part, ◌+ℤ◌, ◌*ℤ◌, eq_ℤ_iff}
use muto_rs_deployment_test.Result.{ok}
use muto_rs_deployment_test.Reachability.Grid.{
  Arithmetic, Cell, OccupancyGrid, occupancy_grid, in_bounds, index, cost_at,
}

offset-lt : (w h x y : ℕ) → x < w → y < h → y * w + x < w * h
offset-lt w h x y p q =
    let row : suc y ≤ h = omega arith in
    let column : w ≤ w = omega arith in
    omega (arith, mul-le-mul row column, suc-mul y w, mul_comm h w)

pos-mul : (a b : ℕ) → ℤ.pos a *ℤ ℤ.pos b ≡ ℤ.pos (a * b)
unfolding ◌*ℤ◌
pos-mul a b = ground (arith, mul-zero a, zero-mul b, mul-zero 0)

pos-add : (a b : ℕ) → ℤ.pos a +ℤ ℤ.pos b ≡ ℤ.pos (a + b)
unfolding ◌+ℤ◌
pos-add a b = ground arith

get_elem?-inside :
    {A : Type 0} (xs : List A) (i : ℕ) → i < length xs → (x : A) × (get_elem? xs i ≡ some x)
get_elem?-inside [] i h = absurd (omega arith)
get_elem?-inside (x ∷ xs) zero h = (x, refl)
get_elem?-inside (x ∷ xs) (suc i) h = get_elem?-inside xs i (omega arith)

module _ {F : Type 0} (g : OccupancyGrid F) where
  -- The bounds as numbers.
  record IsWithin (c : Cell) : Type 0 where
    x : ℕ
    y : ℕ
    w : ℕ
    h : ℕ
    x_is : c.x ≡ ℤ.pos x
    y_is : c.y ≡ ℤ.pos y
    w_is : g.width ≡ ℤ.pos w
    h_is : g.height ≡ ℤ.pos h
    x_lt : x < w
    y_lt : y < h

  in_bounds-IsWithin : (c : Cell) → in_bounds g c ≡ true → IsWithin c
  unfolding in_bounds
  in_bounds-IsWithin c h = record {
    x = pos_part c.x;
    y = pos_part c.y;
    w = pos_part g.width;
    h = pos_part g.height;
    x_is = ground arith;
    y_is = ground arith;
    w_is = ground arith;
    h_is = ground arith;
    x_lt = ground arith;
    y_lt = ground arith;
  }

  index-pos : (c : Cell) (b : IsWithin c) → index g c ≡ ℤ.pos (b.y * b.w + b.x)
  unfolding index
  index-pos c b = rw (b.x_is, b.y_is, b.w_is, pos-mul b.y b.w, pos-add (b.y * b.w) b.x) refl

  cost_at-read :
      (c : Cell) {i : ℕ} {cost : ℤ}
      → index g c ≡ ℤ.pos i
      → get_elem? g.costs i ≡ some cost
      → (default : ℤ) → cost_at g default c ≡ cost
  unfolding cost_at
  cost_at-read c {cost} placed read default =
      subst
        (λ (z : ℤ).
          elim (get_elem? g.costs (pos_part z)) [ none ↦ default | some found ↦ found ] ≡ cost)
        (sym placed) (rw read refl)

module _ {F : Type 0} ⦃fl : Floats F⦄ ⦃ar : Arithmetic F⦄ where
  occupancy_grid-size :
      (g made : OccupancyGrid F)
      → occupancy_grid g ≡ ok made
      → ℤ.pos (length g.costs) ≡ g.width *ℤ g.height
  unfolding occupancy_grid
  occupancy_grid-size g made h =
      (eq_ℤ_iff (ℤ.pos (length g.costs)) (g.width *ℤ g.height)).0 (ground arith)

  -- In a grid that its constructor passes, the index of a cell in bounds is that of an item of the
  -- data.
  pub index-IsInside :
      (g : OccupancyGrid F) (c : Cell)
      → occupancy_grid g ≡ ok g
      → in_bounds g c ≡ true
      → (i : ℕ) × (cost : ℤ) × (index g c ≡ ℤ.pos i)
        × (get_elem? g.costs i ≡ some cost)
        × ((default : ℤ) → cost_at g default c ≡ cost)
  index-IsInside g c made inside =
      let b = in_bounds-IsWithin g c inside in
      let size = occupancy_grid-size g g made in
      let same : ℤ.pos (length g.costs) ≡ ℤ.pos (b.w * b.h) =
        rw (b.w_is, b.h_is, pos-mul b.w b.h) at size in
      let (cost, read) =
        get_elem?-inside g.costs (b.y * b.w + b.x)
          (ground (arith, same, offset-lt b.w b.h b.x b.y b.x_lt b.y_lt)) in
      (
        b.y * b.w + b.x,
        cost,
        index-pos g c b,
        read,
        λ default. cost_at-read g c (index-pos g c b) read default,
      )
