-- ===== src/Reachability/Snap.antt =====
-- The start that a preflight begins from (reachability.py, `_nearest_safe`).
use muto_rs_deployment_test.Prelude.{
  ℕ, ◌≤◌, Bool, true, false, ◌&&◌, ◌||◌, Option, none, some, List, [], ◌∷◌, select, least_from,
  least, Option-cases, if-cases, ltb, eqb, ◌≡◌, refl, ◌⊎◌, inl, inr, arith,
}
use muto_rs_deployment_test.Prelude.Integers.{ℤ}
use muto_rs_deployment_test.Reachability.Grid.{Cell, holds}
use muto_rs_deployment_test.Reachability.Planner.{is_near, manhattan, nearer, nearest_safe}
use muto_rs_deployment_test.Reachability.Sets.{eq_cell_iff, eq_cell_refl}
use muto_rs_deployment_test.Reachability.Footprint.{select-holds}

pub least_from-holds :
    (less : Cell → Cell → Bool) (best : Cell) (cs : List Cell)
    → holds (best ∷ cs) (least_from less best cs) ≡ true
least_from-holds less best [] = ground (arith, eq_cell_refl best)
least_from-holds less best (c ∷ cs) =
    if-cases (λ b. holds (best ∷ c ∷ cs) (least_from less b cs) ≡ true) (less c best)
      (λ _. ground (arith, least_from-holds less c cs))
      (λ _. ground (arith, least_from-holds less best cs))

-- The least of a list is one of it.
pub least-holds :
    (less : Cell → Cell → Bool) (cs : List Cell) (c : Cell)
    → least less cs ≡ some c
    → holds cs c ≡ true
least-holds less [] c h = cc
least-holds less (d ∷ cs) c h = ground (arith, h, least_from-holds less d cs)

least-none :
    (less : Cell → Cell → Bool) (cs : List Cell) (d : Cell)
    → least less cs ≡ none
    → holds cs d ≡ false
least-none less [] d h = refl
least-none less (c ∷ cs) d h = cc

-- An order that follows a measure gives the least measure.
module _ (less : Cell → Cell → Bool) (measure : Cell → ℕ)
    (lower : (a b : Cell) → less a b ≡ true → measure a ≤ measure b)
    (upper : (a b : Cell) → less a b ≡ false → measure b ≤ measure a) where
  least_from-le :
      (best : Cell) (cs : List Cell) (d : Cell)
      → holds (best ∷ cs) d ≡ true
      → measure (least_from less best cs) ≤ measure d
  least_from-le best [] d h = ground (arith, eq_cell_iff d best)
  least_from-le best (c ∷ cs) d h =
      if-cases (λ b. measure (least_from less b cs) ≤ measure d) (less c best)
        (λ t. ground (
          arith,
          eq_cell_iff d best,
          lower c best t,
          least_from-le c cs d,
          least_from-le c cs c,
          eq_cell_refl c,
        ))
        (λ f. ground (
          arith,
          eq_cell_iff d c,
          upper c best f,
          least_from-le best cs d,
          least_from-le best cs best,
          eq_cell_refl best,
        ))

  least-le :
      (cs : List Cell) (c d : Cell)
      → least less cs ≡ some c
      → holds cs d ≡ true
      → measure c ≤ measure d
  least-le [] c d h k = cc
  least-le (b ∷ cs) c d h k = ground (arith, h, least_from-le b cs d k)

before-le : (m n : ℕ) (tie : Bool) → (ltb m n || eqb m n && tie) ≡ true → m ≤ n
before-le m n tie h = ground arith

le-before : (m n : ℕ) (tie : Bool) → (ltb m n || eqb m n && tie) ≡ false → n ≤ m
le-before m n tie h = ground arith

nearer-le : (start a b : Cell) → nearer start a b ≡ true → manhattan start a ≤ manhattan start b
unfolding nearer
nearer-le start a b h = before-le _ _ _ h

le-nearer : (start a b : Cell) → nearer start a b ≡ false → manhattan start b ≤ manhattan start a
unfolding nearer
le-nearer start a b h = le-before _ _ _ h

-- What the snapped start is.
pub record IsSnapped (start : Cell) (safe : List Cell) (radius : ℤ) (c : Cell) : Type 0 where
  pub is_safe : holds safe c ≡ true
  pub is_start_or_near : (c ≡ start) ⊎ (is_near radius start c ≡ true)
  pub nearest :
      (d : Cell)
      → holds safe d ≡ true
      → is_near radius start d ≡ true
      → manhattan start c ≤ manhattan start d

pub data Snaps (start : Cell) (safe : List Cell) (radius : ℤ) : Option Cell → Type 0 where
  to : {c : Cell} → IsSnapped start safe radius c → Snaps start safe radius (some c)
  nowhere :
      holds safe start ≡ false
      → ((d : Cell) → holds safe d ≡ true → is_near radius start d ≡ false)
      → Snaps start safe radius none

manhattan_self : (c : Cell) → manhattan c c ≡ 0
unfolding manhattan
manhattan_self c = ground arith

least-cases :
    (start : Cell) (safe : List Cell) (radius : ℤ)
    → holds safe start ≡ false
    → Snaps start safe radius (least (nearer start) (select (is_near radius start) safe))
least-cases start safe radius h =
    let near = select (is_near radius start) safe in
    let member = select-holds (is_near radius start) safe in
    elim (Option-cases (least (nearer start) near)) [
      | inl e ↦
          rw e
            (Snaps.nowhere h λ d k. ground (arith, member d, k, least-none (nearer start) near d e))
      | inr (c, e) ↦ rw e (
          Snaps.to (record {
            is_safe = ground (arith, member c, least-holds (nearer start) near c e);
            is_start_or_near = inr (ground (arith, member c, least-holds (nearer start) near c e));
            nearest = λ d k n.
                least-le (nearer start) (manhattan start) (nearer-le start) (le-nearer start) near c
                  d e (ground (arith, member d, k, n));
          }))
    ]

-- `_nearest_safe` gives the start itself if it is safe, and else a safe cell within the radius in
-- each direction, no safe cell within it being nearer in steps along the axes; it gives none exactly
-- if no safe cell is within the radius.
pub nearest_safe-Snaps :
    (start : Cell) (safe : List Cell) (radius : ℤ)
    → Snaps start safe radius (nearest_safe start safe radius)
unfolding nearest_safe
nearest_safe-Snaps start safe radius =
    if-cases (Snaps start safe radius) (holds safe start)
      (λ h. Snaps.to (record {
        is_safe = h;
        is_start_or_near = inl refl;
        nearest = λ d k n. omega (arith, manhattan_self start);
      }))
      (λ h. least-cases start safe radius h)
