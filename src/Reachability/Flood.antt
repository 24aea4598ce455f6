-- ===== src/Reachability/Flood.antt =====
-- `_flood_fill` (reachability.py). A set is the list of its elements, and a dictionary the list of
-- its items in the order of their insertion.
use muto_rs_deployment_test.Prelude.{
  ℕ, zero, suc, Bool, not, ◌&&◌, ◌||◌, List, [], ◌∷◌, ◌++◌, map, Floats, length, if◌then◌else◌,
}
use muto_rs_deployment_test.Prelude.Integers.{ℤ, ◌+ℤ◌, eq_ℤ}
use muto_rs_deployment_test.Reachability.Grid.{Arithmetic, Cell, eq_cell, holds}

pub record Move (F : Type 0) : Type 0 where
  pub dx : ℤ
  pub dy : ℤ
  pub cost : F

-- `distances` and `queue`
pub record Fill (F : Type 0) : Type 0 where
  pub distances : List (Cell × F)
  pub queue : List Cell

-- `distances.keys()`
abbrev pub keys : {F : Type 0} → List (Cell × F) → List Cell
keys distances = map (λ item. item.0) distances

abbrev pub shift : {F : Type 0} → Cell → Move F → Cell
shift c m = record { x = c.x +ℤ m.dx; y = c.y +ℤ m.dy }

-- the two cells beside a diagonal move
abbrev pub corner_x : {F : Type 0} → Cell → Move F → Cell
corner_x c m = record { x = c.x +ℤ m.dx; y = c.y }

abbrev pub corner_y : {F : Type 0} → Cell → Move F → Cell
corner_y c m = record { x = c.x; y = c.y +ℤ m.dy }

-- `dx and dy`
abbrev pub is_diagonal : {F : Type 0} → Move F → Bool
is_diagonal m = not (eq_ℤ m.dx (ℤ.pos 0)) && not (eq_ℤ m.dy (ℤ.pos 0))

-- the test of the second `continue`: a diagonal move cuts no corner
abbrev pub is_clear : {F : Type 0} → List Cell → Cell → Move F → Bool
is_clear safe c m = not (is_diagonal m) || (holds safe (corner_x c m) && holds safe (corner_y c m))

module _ {F : Type 0} ⦃fl : Floats F⦄ where
  -- `distances[cell]`, which is only read of a key
  abbrev pub distance_of : List (Cell × F) → Cell → F
  distance_of [] c = fl.zero_f
  distance_of (item ∷ items) c =
      let rest = distance_of items c in if eq_cell c item.0 then item.1 else rest

  -- a new cell, with its distance, joins the dictionary and the queue
  abbrev pub visit : Cell → Fill F → Move F → Fill F
  visit current s m =
      let next = shift current m in
      record {
        distances = s.distances ++ (next, fl.add_f (distance_of s.distances current) m.cost) ∷ [];
        queue = s.queue ++ next ∷ [];
      }

  -- the tests of the two `continue`s
  abbrev pub admits : List Cell → Cell → Fill F → Move F → Bool
  admits safe current s m =
      let next = shift current m in
      holds safe next && (not (holds (keys s.distances) next) && is_clear safe current m)

  -- the body of the inner loop
  abbrev pub offer : List Cell → Cell → Fill F → Move F → Fill F
  offer safe current s m = if admits safe current s m then visit current s m else s

  -- `for dx, dy, cost in self._MOVES`
  abbrev pub scan : List Cell → Cell → List (Move F) → Fill F → Fill F
  scan safe current [] s = s
  scan safe current (m ∷ ms) s = scan safe current ms (offer safe current s m)

module _ {F : Type 0} ⦃fl : Floats F⦄ ⦃ar : Arithmetic F⦄ where
  abbrev pub moves : List (Move F)
  moves =
      let to : ℤ → ℤ → F → Move F = λ dx dy cost. record { dx = dx; dy = dy; cost = cost } in
      to (ℤ.negsuc 0) (ℤ.pos 0) fl.one_f
      ∷ to (ℤ.pos 1) (ℤ.pos 0) fl.one_f
      ∷ to (ℤ.pos 0) (ℤ.negsuc 0) fl.one_f
      ∷ to (ℤ.pos 0) (ℤ.pos 1) fl.one_f
      ∷ to (ℤ.negsuc 0) (ℤ.negsuc 0) ar.diagonal
      ∷ to (ℤ.negsuc 0) (ℤ.pos 1) ar.diagonal
      ∷ to (ℤ.pos 1) (ℤ.negsuc 0) ar.diagonal
      ∷ to (ℤ.pos 1) (ℤ.pos 1) ar.diagonal
      ∷ []

  -- `while queue`, for at most as many rounds as the fuel says
  unfoldable pub fill : List Cell → ℕ → Fill F → Fill F
  fill safe zero s = s
  fill safe (suc fuel) s = elim s.queue [
    | [] ↦ s
    | current ∷ rest ↦ fill safe fuel (scan safe current moves (record s { queue = rest }))
  ]

  abbrev pub begin : Cell → Fill F
  begin start = record { distances = (start, fl.zero_f) ∷ []; queue = start ∷ [] }

  -- with the fuel that `IsFinished` of Walks shows to be enough
  unfoldable pub flood_fill : Cell → List Cell → List (Cell × F)
  unfolding fill
  flood_fill start safe = (fill safe (suc (length safe)) (begin start)).distances
