-- ===== src/Reachability/Walks.antt =====
-- The walks over safe cells, and what one round of `_flood_fill` keeps (reachability.py).
use mathlib.Core.List.{Memᴰ}
use muto_rs_deployment_test.Prelude.{
  true, false, List, Floats, Bool-cases, ◌≡◌, ◌⊎◌, inl, inr, arith,
}
use muto_rs_deployment_test.Reachability.Grid.{Arithmetic, Cell, eq_cell, holds}
use muto_rs_deployment_test.Reachability.Flood.{
  Move, Fill, keys, shift, corner_x, corner_y, is_diagonal, is_clear, distance_of, visit, moves,
}
use muto_rs_deployment_test.Reachability.Sets.{
  eq_cell_iff, holds-append, keys-append, distance_of-old, distance_of-new,
}

-- A diagonal move needs both of the cells beside it.
abbrev pub IsClear : {F : Type 0} → List Cell → Cell → Move F → Type 0
IsClear safe c m =
    is_diagonal m ≡ true → (holds safe (corner_x c m) ≡ true) × (holds safe (corner_y c m) ≡ true)

IsClear-is_clear :
    {F : Type 0} (safe : List Cell) (c : Cell) (m : Move F)
    → is_clear safe c m ≡ true
    → IsClear safe c m
IsClear-is_clear safe c m h diagonal = ground (arith, diagonal, h)

pub is_clear-IsClear :
    {F : Type 0} (safe : List Cell) (c : Cell) (m : Move F)
    → IsClear safe c m
    → is_clear safe c m ≡ true
is_clear-IsClear safe c m h = elim (Bool-cases (is_diagonal m)) [
  | inl e ↦ ground (arith, h e)
  | inr e ↦ ground arith
]

module _ {F : Type 0} ⦃fl : Floats F⦄ ⦃ar : Arithmetic F⦄ where
  -- The walks from a start to a cell, with the sum of the costs of their moves.
  pub data Walk (safe : List Cell) (start : Cell) : Cell → F → Type 0 where
    here : Walk safe start start fl.zero_f
    along :
        {c : Cell} {d : F} (m : Move F)
        → Walk safe start c d
        → Memᴰ m moves
        → holds safe (shift c m) ≡ true
        → IsClear safe c m
        → Walk safe start (shift c m) (fl.add_f d m.cost)

  module _ (safe : List Cell) (start : Cell) where
    -- While the moves from `current` are offered, the other cells that have left the queue have
    -- passed on theirs.
    pub record InScan (current : Cell) (s : Fill F) : Type 0 where
      pub begun : holds (keys s.distances) start ≡ true
      pub found : holds (keys s.distances) current ≡ true
      pub queued : (c : Cell) → holds s.queue c ≡ true → holds (keys s.distances) c ≡ true
      pub walked :
          (c : Cell)
          → holds (keys s.distances) c ≡ true
          → Walk safe start c (distance_of s.distances c)
      pub closed :
          (c : Cell) (m : Move F)
          → eq_cell c current ≡ false
          → holds (keys s.distances) c ≡ true
          → Memᴰ m moves
          → holds safe (shift c m) ≡ true
          → IsClear safe c m
          → (holds s.queue c ≡ true) ⊎ (holds (keys s.distances) (shift c m) ≡ true)

    pub visit-InScan :
        (current : Cell) (s : Fill F) (m : Move F)
        → Memᴰ m moves
        → holds safe (shift current m) ≡ true
        → holds (keys s.distances) (shift current m) ≡ false
        → is_clear safe current m ≡ true
        → InScan current s
        → InScan current (visit current s m)
    visit-InScan current s m member is_safe fresh clear i =
        let n = shift current m in
        let x = fl.add_f (distance_of s.distances current) m.cost in
        let grown = keys-append s.distances n x in
        let key = λ (c : Cell). holds-append (keys s.distances) n c in
        let waiting = λ (c : Cell). holds-append s.queue n c in
        record {
          begun = ground (arith, grown, key start, i.begun);
          found = ground (arith, grown, key current, i.found);
          queued = λ c h. ground (arith, grown, key c, waiting c, i.queued c);
          walked = λ c h. elim (Bool-cases (holds (keys s.distances) c)) [
            | inl old ↦ rw (distance_of-old s.distances n x c old) (i.walked c old)
            | inr new ↦
                let same = (eq_cell_iff c n).0 (ground (arith, grown, key c)) in
                rw (same, distance_of-new s.distances n x fresh)
                  (Walk.along m (i.walked current i.found) member is_safe
                    (IsClear-is_clear safe current m clear))
          ];
          closed = λ c k other h member_k safe_k clear_k.
              elim (Bool-cases (holds (keys s.distances) c)) [
                | inl old ↦ ground (
                  arith,
                  grown,
                  key (shift c k),
                  waiting c,
                  i.closed c k other old member_k safe_k clear_k,
                )
                | inr new ↦ ground (arith, grown, key c, waiting c)
              ];
        }
