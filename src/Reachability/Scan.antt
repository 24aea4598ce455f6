-- ===== src/Reachability/Scan.antt =====
-- The inner loop of `_flood_fill`: all moves from one cell (reachability.py).
use mathlib.Core.Path.{subst}
use mathlib.Core.List.{Memᴰ}
use mathlib.Core.List.Memᴰ
use muto_rs_deployment_test.Prelude.{
  ◌≤◌, true, ◌||◌, List, [], ◌∷◌, Floats, if-cases, ◌≡◌, refl, inl, inr, length-append, arith,
}
use muto_rs_deployment_test.Reachability.Grid.{Arithmetic, Cell, eq_cell, holds}
use muto_rs_deployment_test.Reachability.Flood.{
  Move, Fill, keys, shift, is_clear, distance_of, visit, admits, offer, scan, moves,
}
use muto_rs_deployment_test.Reachability.Sets.{
  eq_cell_refl, holds-append, work, unfound-append_lt, keys-append,
}
use muto_rs_deployment_test.Reachability.Walks.{InScan, visit-InScan}

module _ {F : Type 0} ⦃fl : Floats F⦄ ⦃ar : Arithmetic F⦄ (safe : List Cell) where
  module _ (current : Cell) where
    offer-InScan :
        (start : Cell) (s : Fill F) (m : Move F)
        → Memᴰ m moves
        → InScan safe start current s
        → InScan safe start current (offer safe current s m)
    offer-InScan start s m member i =
        if-cases (InScan safe start current) (admits safe current s m)
          (λ t.
            visit-InScan safe start current s m member (ground arith) (ground arith) (ground arith)
              i)
          (λ _. i)

    visit-finds :
        (s : Fill F) (m : Move F) (c : Cell)
        → holds (keys (visit current s m).distances) c
          ≡ (holds (keys s.distances) c || eq_cell c (shift current m))
    visit-finds s m c =
        let n = shift current m in
        rw (keys-append s.distances n (fl.add_f (distance_of s.distances current) m.cost))
          (holds-append (keys s.distances) n c)

    offer-keeps :
        (s : Fill F) (m : Move F) (c : Cell)
        → holds (keys s.distances) c ≡ true
        → holds (keys (offer safe current s m).distances) c ≡ true
    offer-keeps s m c h =
        if-cases (λ (t : Fill F). holds (keys t.distances) c ≡ true) (admits safe current s m)
          (λ _. ground (arith, visit-finds s m c, h)) (λ _. h)

    offer-reaches :
        (s : Fill F) (m : Move F)
        → holds safe (shift current m) ≡ true
        → is_clear safe current m ≡ true
        → holds (keys (offer safe current s m).distances) (shift current m) ≡ true
    offer-reaches s m h k =
        let n = shift current m in
        if-cases (λ (t : Fill F). holds (keys t.distances) n ≡ true) (admits safe current s m)
          (λ _. ground (arith, visit-finds s m n, eq_cell_refl n)) (λ e. ground (arith, h, k, e))

    offer-work : (s : Fill F) (m : Move F) → work safe (offer safe current s m) ≤ work safe s
    offer-work s m =
        let n = shift current m in
        let d = fl.add_f (distance_of s.distances current) m.cost in
        if-cases (λ (t : Fill F). work safe t ≤ work safe s) (admits safe current s m)
          (λ t.
            let fewer = unfound-append_lt safe (keys s.distances) n (ground arith) (ground arith) in
            rw (keys-append s.distances n d, length-append s.queue (n ∷ [])) (omega arith))
          (λ _. omega arith)

    pub scan-InScan :
        (start : Cell) (ms : List (Move F)) (s : Fill F)
        → ((m : Move F) → Memᴰ m ms → Memᴰ m moves)
        → InScan safe start current s
        → InScan safe start current (scan safe current ms s)
    scan-InScan start [] s members i = i
    scan-InScan start (m ∷ ms) s members i =
        scan-InScan start ms (offer safe current s m) (λ k h. members k (Memᴰ.tail h))
          (offer-InScan start s m (members m (Memᴰ.head refl)) i)

    pub scan-keeps :
        (ms : List (Move F)) (s : Fill F) (c : Cell)
        → holds (keys s.distances) c ≡ true
        → holds (keys (scan safe current ms s).distances) c ≡ true
    scan-keeps [] s c h = h
    scan-keeps (m ∷ ms) s c h = scan-keeps ms (offer safe current s m) c (offer-keeps s m c h)

    pub scan-work :
        (ms : List (Move F)) (s : Fill F) → work safe (scan safe current ms s) ≤ work safe s
    scan-work [] s = omega arith
    scan-work (m ∷ ms) s = omega (arith, offer-work s m, scan-work ms (offer safe current s m))

    -- Every admitted move from `current` leads to a key.
    pub scan-reaches :
        (ms : List (Move F)) (s : Fill F) (m : Move F)
        → Memᴰ m ms
        → holds safe (shift current m) ≡ true
        → is_clear safe current m ≡ true
        → holds (keys (scan safe current ms s).distances) (shift current m) ≡ true
    scan-reaches [] s m member h k = absurd (Memᴰ.not-nil member)
    scan-reaches (n ∷ ms) s m member h k = elim (Memᴰ.cases_cons member) [
      | inl e ↦ scan-keeps ms (offer safe current s n) (shift current m) (
          subst
            (λ (k : Move F).
              holds (keys (offer safe current s k).distances) (shift current m) ≡ true)
            e (offer-reaches s m h k))
      | inr later ↦ scan-reaches ms (offer safe current s n) m later h k
    ]
