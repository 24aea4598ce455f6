-- ===== src/Reachability/Reads.antt =====
-- The reads of a map's data in `_safe_cells` (reachability.py), as Python makes them: an index below
-- zero counts from the end, and one that is out of range raises.
use muto_rs_deployment_test.Prelude.{
  suc, ◌-◌, Bool, true, false, not, ◌&&◌, ◌||◌, Option, none, some, List, [], ◌∷◌, Floats, leb,
  length, get_elem?, all, select, Bool-cases, ◌≡◌, refl, sym, ◌∙◌, inl, inr, arith, if◌then◌else◌,
}
use muto_rs_deployment_test.Prelude.Integers.{ℤ, ltb_ℤ, eq_ℤ}
use muto_rs_deployment_test.Result.{Result, ok, err, other, ◌>>=◌}
use muto_rs_deployment_test.Reachability.Grid.{
  Arithmetic, Cell, holds, OccupancyGrid, ReachabilityConfig, range, occupancy_grid, in_bounds,
  index,
}
use muto_rs_deployment_test.Reachability.Planner.{
  offsets, in_disc, displaced, is_free, footprint_safe, all_cells, safe_within, footprint_radius,
  safe_cells,
}
use muto_rs_deployment_test.Reachability.Sets.{eq_cell_iff}
use muto_rs_deployment_test.Reachability.Bounds.{index-IsInside}
use muto_rs_deployment_test.Reachability.Footprint.{all_cells-inside}

module _ {A : Type 0} where
  -- `xs[i]`
  abbrev pub item_of : Option A → Result A
  item_of none = err (other "tuple index out of range")
  item_of (some x) = ok x

  abbrev pub item_at : List A → ℤ → Result A
  item_at xs (ℤ.pos i) = item_of (get_elem? xs i)
  item_at xs (ℤ.negsuc k) =
      if leb (suc k) (length xs)
      then item_of (get_elem? xs (length xs - suc k))
      else err (other "tuple index out of range")

  -- a loop that ends at the first test that fails, and a loop that collects: each may raise
  abbrev pub all_pass : (A → Result Bool) → List A → Result Bool
  all_pass p [] = ok true
  all_pass p (x ∷ xs) =
      let rest = all_pass p xs in p x >>= λ passes. if passes then rest else ok false

  abbrev pub collect : (A → Result Bool) → List A → Result (List A)
  collect p [] = ok []
  collect p (x ∷ xs) =
      let rest = collect p xs in p x >>= λ passes. rest >>= λ ys. ok (if passes then x ∷ ys else ys)

  all_pass-all :
      (p : A → Result Bool) (q : A → Bool) (xs : List A)
      → ((x : A) → p x ≡ ok (q x))
      → all_pass p xs ≡ ok (all q xs)
  all_pass-all p q [] h = refl
  all_pass-all p q (x ∷ xs) h = elim (Bool-cases (q x)) [
    | inl e ↦ rw (h x, e, all_pass-all p q xs h) refl
    | inr e ↦ rw (h x, e) refl
  ]

module _ {F : Type 0} where
  -- `grid.data[self._index(grid, cell)]`
  unfoldable pub read_cost : OccupancyGrid F → Cell → Result ℤ
  unfolding index
  read_cost g c = item_at g.costs (index g c)

module _ {F : Type 0} (config : ReachabilityConfig F) (g : OccupancyGrid F) where
  unfoldable pub read_free : Cell → Result Bool
  unfolding read_cost
  read_free c = read_cost g c >>= λ cost.
      ok (not (eq_ℤ cost config.unknown_cost || ltb_ℤ config.free_cost cost))

  -- a point of the disc, which is read if it is in the map
  abbrev pub read_point : ℤ → Cell → ℤ → ℤ → Result Bool
  read_point radius c dy dx =
      if in_disc radius dx dy
      then (if in_bounds g (displaced c dx dy) then read_free (displaced c dx dy) else ok false)
      else ok true

  -- `_footprint_safe`
  unfoldable pub read_footprint : ℤ → Cell → Result Bool
  unfolding read_free offsets in_disc in_bounds
  read_footprint radius c =
      all_pass (λ dy. all_pass (read_point radius c dy) (offsets radius)) (offsets radius)

  abbrev pub read_cell : ℤ → Cell → Result Bool
  read_cell radius c = read_free c >>= λ free. if free then read_footprint radius c else ok false

  -- `_safe_cells`, of a radius in cells
  unfoldable pub read_within : ℤ → Result (List Cell)
  unfolding read_free read_footprint
  read_within radius = collect (read_cell radius) (all_cells (range g.height) (range g.width))

module _ {F : Type 0} ⦃fl : Floats F⦄ ⦃ar : Arithmetic F⦄ where
  -- `_safe_cells`
  unfoldable pub read_safe_cells : ReachabilityConfig F → OccupancyGrid F → Result (List Cell)
  unfolding footprint_radius read_within
  read_safe_cells config g = footprint_radius config g >>= read_within config g

same-after :
    {A B : Type 0} (m : Result A) (f g : A → Result B) → ((a : A) → f a ≡ g a) → m >>= f ≡ m >>= g
same-after (ok a) f g h = h a
same-after (err e) f g h = refl

collect-select :
    (p : Cell → Result Bool) (q : Cell → Bool) (cs : List Cell)
    → ((c : Cell) → holds cs c ≡ true → p c ≡ ok (q c))
    → collect p cs ≡ ok (select q cs)
collect-select p q [] h = refl
collect-select p q (d ∷ cs) h =
    let first = h d (ground (arith, eq_cell_iff d d)) in
    let rest = collect-select p q cs (λ c m. h c (ground (arith, m))) in
    elim (Bool-cases (q d)) [ inl e ↦ rw (first, rest, e) refl | inr e ↦ rw (first, rest, e) refl ]

module _ {F : Type 0} ⦃fl : Floats F⦄ ⦃ar : Arithmetic F⦄ (config : ReachabilityConfig F)
    (g : OccupancyGrid F) (made : occupancy_grid g ≡ ok g) where
  read_free-inside :
      (c : Cell) → in_bounds g c ≡ true → read_free config g c ≡ ok (is_free config g c)
  unfolding read_free read_cost is_free
  read_free-inside c inside =
      let (i, cost, placed, read, default_unseen) = index-IsInside g c made inside in
      rw (placed, read, default_unseen config.unknown_cost) refl

  read_point-passes :
      (radius : ℤ) (c : Cell) (dy dx : ℤ)
      → read_point config g radius c dy dx
        ≡ ok (
            if in_disc radius dx dy
            then in_bounds g (displaced c dx dy) && is_free config g (displaced c dx dy)
            else true)
  read_point-passes radius c dy dx = elim (Bool-cases (in_disc radius dx dy)) [
    | inr e ↦ rw e refl
    | inl e ↦ elim (Bool-cases (in_bounds g (displaced c dx dy))) [
      | inl inside ↦ rw (e, inside, read_free-inside (displaced c dx dy) inside) refl
      | inr outside ↦ rw (e, outside) refl
    ]
  ]

  read_footprint-passes :
      (radius : ℤ) (c : Cell)
      → read_footprint config g radius c ≡ ok (footprint_safe config g c radius)
  unfolding read_footprint footprint_safe
  read_footprint-passes radius c =
      all_pass-all _ _ (offsets radius)
        λ dy. all_pass-all _ _ (offsets radius) (read_point-passes radius c dy)

  read_cell-passes :
      (radius : ℤ) (c : Cell)
      → in_bounds g c ≡ true
      → read_cell config g radius c ≡ ok (is_free config g c && footprint_safe config g c radius)
  read_cell-passes radius c inside = elim (Bool-cases (is_free config g c)) [
    | inl e ↦ rw (read_free-inside c inside, e, read_footprint-passes radius c) refl
    | inr e ↦ rw (read_free-inside c inside, e) refl
  ]

  read_within-passes : (radius : ℤ) → read_within config g radius ≡ ok (safe_within config g radius)
  unfolding read_within safe_within
  read_within-passes radius =
      collect-select (read_cell config g radius)
        (λ c. is_free config g c && footprint_safe config g c radius)
        (all_cells (range g.height) (range g.width))
        (λ c m. read_cell-passes radius c (sym (all_cells-inside config g c) ∙ m))

  -- In a grid that its constructor passes, no read of the data by `_safe_cells` is out of range or
  -- counts from the end: with reads that raise, or wrap, as Python's do, it returns the cells that it
  -- returns with a default for the cells that are missing, and raises only what the radius raises.
  pub read_safe_cells-safe_cells : read_safe_cells config g ≡ safe_cells config g
  unfolding read_safe_cells safe_cells
  read_safe_cells-safe_cells =
      same-after (footprint_radius config g) (read_within config g)
        (λ radius. ok (safe_within config g radius)) read_within-passes
