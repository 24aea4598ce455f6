-- ===== src/Reachability/Footprint.antt =====
-- The safe cells of a map (reachability.py, `_safe_cells` and `_footprint_safe`).
use native.Mathlib.Nat.{mul-le-mul, suc-mul, mul-suc, mul-zero, zero-mul}
use muto_rs_deployment_test.Prelude.{
  Floats, leb, ℕ, zero, suc, ◌+◌, ◌*◌, ◌≤◌, Bool, true, ◌&&◌, ◌||◌, List, [], ◌∷◌, ◌++◌, any, all,
  select, Bool-cases, ◌≡◌, refl, ◌↔◌, inl, inr, arith,
}
use muto_rs_deployment_test.Prelude.Integers.{
  ℤ, pos_part, abs, ◌+ℤ◌, ◌-ℤ◌, ◌*ℤ◌, ltb_ℤ, leb_ℤ, eq_ℤ, eq_ℤ_iff,
}
use muto_rs_deployment_test.Result.{ok}
use muto_rs_deployment_test.Reachability.Grid.{
  Arithmetic, Cell, holds, OccupancyGrid, ReachabilityConfig, range_from, range, in_bounds,
}
use muto_rs_deployment_test.Reachability.Planner.{
  footprint_radius, safe_cells, offsets, in_disc, displaced, is_free, footprint_safe, row_cells,
  all_cells, safe_within,
}
use muto_rs_deployment_test.Reachability.Sets.{eq_cell_iff}

square-le : (a b : ℕ) → a * a ≤ b * b → a ≤ b
square-le a b h = elim (Bool-cases (leb a b)) [
  | inl e ↦ ground arith
  | inr e ↦
      let above : suc b ≤ a = ground arith in
      absurd (omega (arith, mul-le-mul above above, suc-mul b (suc b), mul-suc b b))
]

square_ℤ : (z : ℤ) → z *ℤ z ≡ ℤ.pos (abs z * abs z)
unfolding ◌*ℤ◌
square_ℤ (ℤ.pos n) = ground (arith, mul-zero n, zero-mul n)
square_ℤ (ℤ.negsuc n) = ground (arith, mul-zero (suc n), zero-mul (suc n))

in_disc-le : (r : ℕ) (dx dy : ℤ) → in_disc (ℤ.pos r) dx dy ≡ true → (abs dx ≤ r) × (abs dy ≤ r)
unfolding in_disc ◌+ℤ◌
in_disc-le r dx dy h =
    let sum : abs dx * abs dx + abs dy * abs dy ≤ r * r =
      ground (arith, square_ℤ dx, square_ℤ dy, square_ℤ (ℤ.pos r)) in
    (square-le (abs dx) r (omega arith), square-le (abs dy) r (omega arith))

in_range : ℤ → ℕ → ℤ → Bool
in_range first n z = leb_ℤ first z && ltb_ℤ z (first +ℤ ℤ.pos n)

range-holds : (n : ℕ) (first z : ℤ) → any (eq_ℤ z) (range_from first n) ≡ in_range first n z
unfolding in_range ◌+ℤ◌
range-holds zero first z = ground arith
range-holds (suc n) first z = ground (arith, range-holds n (first +ℤ ℤ.pos 1) z)

all-in :
    (p : ℤ → Bool) (zs : List ℤ) (z : ℤ) → all p zs ≡ true → any (eq_ℤ z) zs ≡ true → p z ≡ true
all-in p [] z h k = cc
all-in p (y ∷ ys) z h k = ground (arith, eq_ℤ_iff z y, all-in p ys z)

in-all :
    (p : ℤ → Bool) (zs : List ℤ) → ((z : ℤ) → any (eq_ℤ z) zs ≡ true → p z ≡ true) → all p zs ≡ true
in-all p [] h = refl
in-all p (y ∷ ys) h = ground (arith, h y, eq_ℤ_iff y y, in-all p ys (λ z k. h z (ground arith)))

row-holds :
    (y : ℤ) (xs : List ℤ) (c : Cell) → holds (row_cells y xs) c ≡ (any (eq_ℤ c.x) xs && eq_ℤ c.y y)
row-holds y [] c = refl
row-holds y (x ∷ xs) c = ground (arith, row-holds y xs c)

holds-both : (xs ys : List Cell) (c : Cell) → holds (xs ++ ys) c ≡ (holds xs c || holds ys c)
holds-both [] ys c = refl
holds-both (x ∷ xs) ys c = ground (arith, holds-both xs ys c)

all_cells-holds :
    (ys xs : List ℤ) (c : Cell)
    → holds (all_cells ys xs) c ≡ (any (eq_ℤ c.y) ys && any (eq_ℤ c.x) xs)
all_cells-holds [] xs c = refl
all_cells-holds (y ∷ ys) xs c = ground (
  arith,
  holds-both (row_cells y xs) (all_cells ys xs) c,
  row-holds y xs c,
  all_cells-holds ys xs c,
)

pub select-holds :
    (p : Cell → Bool) (cs : List Cell) (c : Cell) → holds (select p cs) c ≡ (holds cs c && p c)
select-holds p [] c = refl
select-holds p (d ∷ cs) c = ground (arith, eq_cell_iff c d, select-holds p cs c)

offsets-hold : (r : ℕ) (z : ℤ) → abs z ≤ r → any (eq_ℤ z) (offsets (ℤ.pos r)) ≡ true
unfolding offsets in_range ◌+ℤ◌ ◌-ℤ◌
offsets-hold r z h =
    ground (arith, range-holds (pos_part (ℤ.pos r +ℤ ℤ.pos r +ℤ ℤ.pos 1)) (ℤ.pos 0 -ℤ ℤ.pos r) z)

module _ {F : Type 0} (config : ReachabilityConfig F) (g : OccupancyGrid F) where
  -- A cell of the map that is free, as is the map at every point of a disc around it.
  pub record IsSafe (radius : ℤ) (c : Cell) : Type 0 where
    pub inside : in_bounds g c ≡ true
    pub free : is_free config g c ≡ true
    pub around :
        (dx dy : ℤ)
        → in_disc radius dx dy ≡ true
        → (in_bounds g (displaced c dx dy) ≡ true) × (is_free config g (displaced c dx dy) ≡ true)

  footprint_safe-around :
      (r : ℕ) (c : Cell)
      → footprint_safe config g c (ℤ.pos r) ≡ true
      → (dx dy : ℤ) → in_disc (ℤ.pos r) dx dy ≡ true
      → (in_bounds g (displaced c dx dy) ≡ true) × (is_free config g (displaced c dx dy) ≡ true)
  unfolding footprint_safe
  footprint_safe-around r c h dx dy inside =
      let (near_x, near_y) = in_disc-le r dx dy inside in
      let row = all-in _ (offsets (ℤ.pos r)) dy h (offsets-hold r dy near_y) in
      let point = all-in _ (offsets (ℤ.pos r)) dx row (offsets-hold r dx near_x) in
      ground (arith, inside, point)

  around-footprint_safe :
      (r : ℕ) (c : Cell)
      → ((dx dy : ℤ)
          → in_disc (ℤ.pos r) dx dy ≡ true
          → (in_bounds g (displaced c dx dy) ≡ true)
            × (is_free config g (displaced c dx dy) ≡ true))
      → footprint_safe config g c (ℤ.pos r) ≡ true
  unfolding footprint_safe
  around-footprint_safe r c h = in-all _ (offsets (ℤ.pos r)) λ dy _.
      in-all _ (offsets (ℤ.pos r)) λ dx _. elim (Bool-cases (in_disc (ℤ.pos r) dx dy)) [
        | inl e ↦ ground (arith, e, h dx dy e)
        | inr e ↦ rw e refl
      ]

  pub all_cells-inside :
      (c : Cell) → holds (all_cells (range g.height) (range g.width)) c ≡ in_bounds g c
  unfolding in_bounds in_range ◌+ℤ◌
  all_cells-inside c = ground (
    arith,
    all_cells-holds (range g.height) (range g.width) c,
    range-holds (pos_part g.height) (ℤ.pos 0) c.y,
    range-holds (pos_part g.width) (ℤ.pos 0) c.x,
  )

  safe_within-IsSafe :
      (r : ℕ) (c : Cell) → (holds (safe_within config g (ℤ.pos r)) c ≡ true) ↔ IsSafe (ℤ.pos r) c
  unfolding safe_within
  safe_within-IsSafe r c =
      let chosen =
        select-holds (λ c. is_free config g c && footprint_safe config g c (ℤ.pos r))
          (all_cells (range g.height) (range g.width)) c in
      (
        λ h. record {
          inside = ground (arith, chosen, all_cells-inside c);
          free = ground (arith, chosen);
          around = footprint_safe-around r c (ground (arith, chosen));
        },
        λ safe. ground (
          arith,
          chosen,
          all_cells-inside c,
          safe.inside,
          safe.free,
          around-footprint_safe r c safe.around,
        ),
      )

module _ {F : Type 0} ⦃fl : Floats F⦄ ⦃ar : Arithmetic F⦄ where
  -- With a footprint that is no negative number of cells, `_safe_cells` returns a set, whose cells
  -- are exactly those of the map that are known and free, with every cell whose distance is at most
  -- the footprint in the map, known and free as well.
  pub safe_cells-IsSafe :
      (config : ReachabilityConfig F) (g : OccupancyGrid F) (r : ℕ)
      → footprint_radius config g ≡ ok (ℤ.pos r)
      → (safe : List Cell) × (safe_cells config g ≡ ok safe)
        × ((c : Cell) → (holds safe c ≡ true) ↔ IsSafe config g (ℤ.pos r) c)
  unfolding safe_cells
  safe_cells-IsSafe config g r h =
      (safe_within config g (ℤ.pos r), rw h refl, safe_within-IsSafe config g r)
