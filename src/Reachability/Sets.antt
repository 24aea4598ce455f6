-- ===== src/Reachability/Sets.antt =====
-- Sets of cells, and dictionaries that grow at their end (reachability.py).
use muto_rs_deployment_test.Prelude.{
  ℕ, suc, ◌+◌, ◌≤◌, ◌<◌, true, false, ◌||◌, List, [], ◌∷◌, ◌++◌, Floats, ◌≡◌, refl, ap, ◌↔◌, length,
  arith, if◌then◌else◌,
}
use muto_rs_deployment_test.Prelude.Integers.{eq_ℤ_iff}
use muto_rs_deployment_test.Reachability.Grid.{Cell, eq_cell, holds}
use muto_rs_deployment_test.Reachability.Flood.{Fill, keys, distance_of}

pub eq_cell_iff : (a b : Cell) → (eq_cell a b ≡ true) ↔ (a ≡ b)
eq_cell_iff a b = ground (arith, eq_ℤ_iff a.x b.x, eq_ℤ_iff a.y b.y)

pub eq_cell_refl : (a : Cell) → eq_cell a a ≡ true
eq_cell_refl a = (eq_cell_iff a a).1 refl

pub holds-append :
    (xs : List Cell) (x c : Cell) → holds (xs ++ x ∷ []) c ≡ (holds xs c || eq_cell c x)
holds-append [] x c = ground arith
holds-append (y ∷ ys) x c = ground (arith, holds-append ys x c)

-- The cells of a list that are in no set.
abbrev pub unfound : List Cell → List Cell → ℕ
unfound [] found = 0
unfound (c ∷ cs) found = let rest = unfound cs found in if holds found c then rest else suc rest

-- What falls in each round of `_flood_fill`.
abbrev pub work : {F : Type 0} → List Cell → Fill F → ℕ
work safe s = unfound safe (keys s.distances) + length s.queue

pub unfound-le : (cs found : List Cell) → unfound cs found ≤ length cs
unfound-le [] found = omega arith
unfound-le (c ∷ cs) found = ground (arith, unfound-le cs found)

pub unfound-append_le :
    (cs found : List Cell) (n : Cell) → unfound cs (found ++ n ∷ []) ≤ unfound cs found
unfound-append_le [] found n = omega arith
unfound-append_le (c ∷ cs) found n =
    ground (arith, holds-append found n c, unfound-append_le cs found n)

-- A new cell of the list is one less that is not found.
pub unfound-append_lt :
    (cs found : List Cell) (n : Cell)
    → holds cs n ≡ true
    → holds found n ≡ false
    → unfound cs (found ++ n ∷ []) < unfound cs found
unfound-append_lt [] found n h k = cc
unfound-append_lt (c ∷ cs) found n h k = ground (
  arith,
  holds-append found n c,
  eq_cell_iff n c,
  eq_cell_refl c,
  unfound-append_le cs found n,
  unfound-append_lt cs found n,
)

module _ {F : Type 0} ⦃fl : Floats F⦄ where
  pub keys-append :
      (d : List (Cell × F)) (n : Cell) (x : F) → keys (d ++ (n, x) ∷ []) ≡ keys d ++ n ∷ []
  keys-append [] n x = refl
  keys-append ((c, y) ∷ d) n x = ap (λ (l : List Cell). c ∷ l) (keys-append d n x)

  pub distance_of-old :
      (d : List (Cell × F)) (n : Cell) (x : F) (c : Cell)
      → holds (keys d) c ≡ true
      → distance_of (d ++ (n, x) ∷ []) c ≡ distance_of d c
  distance_of-old [] n x c h = cc
  distance_of-old ((k, y) ∷ d) n x c h = ground (arith, distance_of-old d n x c)

  pub distance_of-new :
      (d : List (Cell × F)) (n : Cell) (x : F)
      → holds (keys d) n ≡ false
      → distance_of (d ++ (n, x) ∷ []) n ≡ x
  distance_of-new [] n x h = ground (arith, eq_cell_refl n)
  distance_of-new ((k, y) ∷ d) n x h = ground (arith, distance_of-new d n x)
