-- ===== src/Reachability/Found.antt =====
-- `_flood_fill` finds the cells that walks over safe cells reach (reachability.py).
use mathlib.Core.Path.{subst}
use mathlib.Core.List.{Memᴰ}
use muto_rs_deployment_test.Prelude.{
  ℕ, zero, suc, ◌≤◌, true, List, [], ◌∷◌, Floats, Bool-cases, ◌≡◌, refl, sym, ap, List-cases, ◌⊎◌,
  inl, inr, length, arith,
}
use muto_rs_deployment_test.Reachability.Grid.{Arithmetic, Cell, eq_cell, holds}
use muto_rs_deployment_test.Reachability.Flood.{
  Move, Fill, keys, shift, distance_of, scan, moves, fill, begin, flood_fill,
}
use muto_rs_deployment_test.Reachability.Sets.{eq_cell_iff, eq_cell_refl, unfound-le, work}
use muto_rs_deployment_test.Reachability.Walks.{IsClear, is_clear-IsClear, Walk, InScan}
use muto_rs_deployment_test.Reachability.Scan.{scan-InScan, scan-work, scan-reaches}

module _ {F : Type 0} ⦃fl : Floats F⦄ ⦃ar : Arithmetic F⦄ (safe : List Cell) (start : Cell) where
  -- Between two rounds every cell that has left the queue has passed on its moves.
  record Inv (s : Fill F) : Type 0 where
    begun : holds (keys s.distances) start ≡ true
    queued : (c : Cell) → holds s.queue c ≡ true → holds (keys s.distances) c ≡ true
    walked :
        (c : Cell)
        → holds (keys s.distances) c ≡ true
        → Walk safe start c (distance_of s.distances c)
    closed :
        (c : Cell) (m : Move F)
        → holds (keys s.distances) c ≡ true
        → Memᴰ m moves
        → holds safe (shift c m) ≡ true
        → IsClear safe c m
        → (holds s.queue c ≡ true) ⊎ (holds (keys s.distances) (shift c m) ≡ true)

  begin-Inv : Inv (begin start)
  begin-Inv = record {
    begun = ground (arith, eq_cell_refl start);
    queued = λ c h. h;
    walked = λ c h.
        let same = (eq_cell_iff c start).0 (ground arith) in
        rw (same, eq_cell_refl start) Walk.here;
    closed = λ c m h member is_safe clear. inl h;
  }

  abbrev expand : Fill F → Cell → List Cell → Fill F
  expand s current rest = scan safe current moves (record s { queue = rest })

  expand-Inv :
      (s : Fill F) (current : Cell) (rest : List Cell)
      → s.queue ≡ current ∷ rest
      → Inv s
      → Inv (expand s current rest)
  expand-Inv s current rest e i =
      let opened : InScan safe start current (record s { queue = rest }) = record {
        begun = i.begun;
        found = i.queued current (ground (arith, e, eq_cell_refl current));
        queued = λ c h. i.queued c (ground (arith, e));
        walked = i.walked;
        closed = λ c m other h member is_safe clear.
            ground (arith, e, i.closed c m h member is_safe clear);
      } in
      let after =
        scan-InScan safe current start moves (record s { queue = rest }) (λ m h. h) opened in
      record {
        begun = after.begun;
        queued = after.queued;
        walked = after.walked;
        closed = λ c m h member is_safe clear. elim (Bool-cases (eq_cell c current)) [
          | inr other ↦ after.closed c m other h member is_safe clear
          | inl same ↦ inr (
              subst
                (λ (k : Cell).
                  holds safe (shift k m) ≡ true
                  → IsClear safe k m
                  → holds (keys (expand s current rest).distances) (shift k m) ≡ true)
                (sym ((eq_cell_iff c current).0 same))
                (λ a b.
                  scan-reaches safe current moves (record s { queue = rest }) m member a
                    (is_clear-IsClear safe current m b))
                is_safe clear)
        ];
      }

  fill-empty : (fuel : ℕ) (s : Fill F) → s.queue ≡ [] → fill safe fuel s ≡ s
  unfolding fill
  fill-empty zero s e = refl
  fill-empty (suc fuel) s e = rw e refl

  fill-next :
      (fuel : ℕ) (s : Fill F) (current : Cell) (rest : List Cell)
      → s.queue ≡ current ∷ rest
      → fill safe (suc fuel) s ≡ fill safe fuel (expand s current rest)
  unfolding fill
  fill-next fuel s current rest e = rw e refl

  abbrev IsDone : Fill F → Type 0
  IsDone s = Inv s × (s.queue ≡ [])

  -- Each round takes a cell from the queue, and queues only cells that it finds.
  fill-IsDone : (fuel : ℕ) (s : Fill F) → work safe s ≤ fuel → Inv s → IsDone (fill safe fuel s)
  fill-IsDone zero s f i = elim (List-cases s.queue) [
    | inl e ↦ subst IsDone (sym (fill-empty zero s e)) (i, e)
    | inr (current, rest, e) ↦ absurd (omega (arith, ap length e, f))
  ]
  fill-IsDone (suc fuel) s f i = elim (List-cases s.queue) [
    | inl e ↦ subst IsDone (sym (fill-empty (suc fuel) s e)) (i, e)
    | inr (current, rest, e) ↦ subst IsDone (sym (fill-next fuel s current rest e)) (
        fill-IsDone fuel (expand s current rest)
          (omega (arith, ap length e, scan-work safe current moves (record s { queue = rest })))
          (expand-Inv s current rest e i))
  ]

  -- With the queue empty, the keys are closed under the moves.
  Walk-found :
      (s : Fill F) {c : Cell} {d : F}
      → Inv s
      → s.queue ≡ []
      → Walk safe start c d
      → holds (keys s.distances) c ≡ true
  Walk-found s i e Walk.here = i.begun
  Walk-found s i e (Walk.along {c} m walk member is_safe clear) =
      ground (arith, e, i.closed c m (Walk-found s i e walk) member is_safe clear)

  -- The keys are the cells of the walks, each with the length of a walk.
  pub record FindsWalks (distances : List (Cell × F)) : Type 0 where
    pub sound :
        (c : Cell) → holds (keys distances) c ≡ true → Walk safe start c (distance_of distances c)
    pub complete : {c : Cell} {d : F} → Walk safe start c d → holds (keys distances) c ≡ true

  -- The loop of `_flood_fill` ends with its queue empty within one round more than there are safe
  -- cells. The keys of the dictionary that it returns are exactly the cells to which a walk from the
  -- start over safe cells leads, by the eight moves and with both neighbours of a diagonal move safe;
  -- and the distance of each is the sum of the costs along such a walk.
  pub flood_fill-FindsWalks :
      ((fill safe (suc (length safe)) (begin {F = F} start)).queue ≡ [])
      × FindsWalks (flood_fill start safe)
  unfolding flood_fill fill
  flood_fill-FindsWalks =
      let (i, e) =
        fill-IsDone (suc (length safe)) (begin start)
          (omega (arith, unfound-le safe (keys (begin {F = F} start).distances))) begin-Inv in
      (e, record { sound = i.walked; complete = λ walk. Walk-found _ i e walk })
