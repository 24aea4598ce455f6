-- ===== src/Gait/Cycle.antt =====
-- The plan keeps its phase inside the cycle and goes round it (movement/gait.py).
use muto_rs_deployment_test.Prelude.{
  ℕ, zero, suc, ◌+◌, ◌%◌, ◌<◌, Bool, Option, none, some, List, [], ◌∷◌, String, length, get_elem?,
  eqb, if-cases, ◌==◌, ◌≡◌, refl, arith, ap, ◌∙◌, ◌⊎◌, inl, inr,
}
use native.Mathlib.Nat.{mod-lt, mod-add-mod}
use mathlib.Core.Path.{subst}
use muto_rs_deployment_test.Result.{Result, ok}
use muto_rs_deployment_test.Gait.Plan.{
  Geometry, Levels, GaitPlan, CommandedGaitState, cycle_length, gait_of, configured, configure,
  stepped, state_for, next_step,
}

-- the calls of the plan
pub data Move (F : Type 0) : Type 0 where
  replace : String → Levels F → Bool → Move F
  next : Move F

get_elem?-lt :
    {P : Type 0} (xs : List P) (i : ℕ) → i < length xs → (p : P) × (get_elem? xs i ≡ some p)
get_elem?-lt [] i h = absurd (omega (arith, h))
get_elem?-lt (x ∷ xs) zero h = (x, refl)
get_elem?-lt (x ∷ xs) (suc i) h = get_elem?-lt xs i (omega (arith, h))

module _ {F P : Type 0} where
  abbrev pub move : Geometry F P → Move F → GaitPlan F P → GaitPlan F P
  move geo (Move.replace mode levels preserve) g = (configure geo mode levels preserve g).1
  move geo Move.next g = (next_step geo g).1

  -- a cycle that is not empty, and a phase in it
  pub record IsWell (g : GaitPlan F P) : Type 0 where
    pub phase : g.phase_index < cycle_length g

  -- every supported mode has a cycle of one target or of twenty
  abbrev IsCycle : Option (Levels F × List P) → Type 0
  IsCycle none = Unit
  IsCycle (some (levels, targets)) = 0 < length targets

  gait_of-IsCycle :
      (geo : Geometry F P) (mode : String) (levels : Levels F) → IsCycle (gait_of geo mode levels)
  gait_of-IsCycle geo mode levels =
      if-cases IsCycle (mode == "standby") (λ _. omega arith)
        λ _.
          if-cases IsCycle (mode == "move_x") (λ _. omega arith)
            λ _.
              if-cases IsCycle (mode == "move_y") (λ _. omega arith)
                λ _.
                  if-cases IsCycle (mode == "turn_z") (λ _. omega arith)
                    λ _. if-cases IsCycle (mode == "move_xz") (λ _. omega arith) λ _. tt

  configured-IsWell :
      (mode : String) (preserve : Bool) (g : GaitPlan F P) (o : Option (Levels F × List P))
      → IsCycle o
      → IsWell g
      → IsWell (configured mode preserve g o).1
  configured-IsWell mode preserve g none c w = w
  configured-IsWell mode preserve g (some (levels, targets)) c w = record {
    phase = if-cases (λ (n : ℕ). n < length targets) _ (λ _. mod-lt g.phase_index c) (λ _. c);
  }

  -- a step in a plan that is well
  pub next_step-returns :
      (geo : Geometry F P) (g : GaitPlan F P)
      → IsWell g
      → (target : P) × (get_elem? g.targets ((g.phase_index + 1) % cycle_length g) ≡ some target)
        × (next_step geo g ≡ (
          ok (
              state_for geo
                (eqb ((g.phase_index + 1) % cycle_length g) 0)
                (stepped ((g.phase_index + 1) % cycle_length g) target g)),
          stepped ((g.phase_index + 1) % cycle_length g) target g,
        ))
  unfolding next_step
  next_step-returns geo g w =
      let inside = mod-lt (g.phase_index + 1) (omega (arith, w.phase)) in
      let (target, e) = get_elem?-lt g.targets ((g.phase_index + 1) % cycle_length g) inside in
      (target, e, rw e refl)

  next_step-IsWell : (geo : Geometry F P) (g : GaitPlan F P) → IsWell g → IsWell (next_step geo g).1
  next_step-IsWell geo g w =
      let (target, _, e) = next_step-returns geo g w in
      rw e (record { phase = mod-lt (g.phase_index + 1) (omega (arith, w.phase)) })

  pub move-IsWell :
      (geo : Geometry F P) (m : Move F) (g : GaitPlan F P) → IsWell g → IsWell (move geo m g)
  unfolding configure
  move-IsWell geo (Move.replace mode levels preserve) g w =
      configured-IsWell mode preserve g (gait_of geo mode levels) (gait_of-IsCycle geo mode levels)
        w
  move-IsWell geo Move.next g w = next_step-IsWell geo g w

  -- `moves` in their order
  abbrev pub moves : Geometry F P → List (Move F) → GaitPlan F P → GaitPlan F P
  moves geo [] g = g
  moves geo (m ∷ ms) g = moves geo ms (move geo m g)

  -- Whatever gaits a plan is given and however it is stepped, those that are refused included, its
  -- phase stays inside its cycle, so that every step returns.
  pub moves-IsWell :
      (geo : Geometry F P) (ms : List (Move F)) (g : GaitPlan F P)
      → IsWell g
      → IsWell (moves geo ms g)
        × ((state : CommandedGaitState F P) × ((next_step geo (moves geo ms g)).0 ≡ ok state))
  moves-IsWell geo [] g w =
      let (_, _, e) = next_step-returns geo g w in
      (w, (_, ap (λ (out : Result (CommandedGaitState F P) × GaitPlan F P). out.0) e))
  moves-IsWell geo (m ∷ ms) g w = moves-IsWell geo ms (move geo m g) (move-IsWell geo m g w)

  -- `next_step` so many times
  abbrev pub steps : Geometry F P → ℕ → GaitPlan F P → GaitPlan F P
  steps geo zero g = g
  steps geo (suc n) g = (next_step geo (steps geo n g)).1

  -- where a plan stands after so many steps
  pub record HasStepped (n : ℕ) (g h : GaitPlan F P) : Type 0 where
    pub same_targets : h.targets ≡ g.targets
    pub phase : h.phase_index ≡ (g.phase_index + n) % cycle_length g
    pub numbered : h.sequence ≡ g.sequence + n
    pub at_target : n ≡ 0 ⊎ (get_elem? g.targets h.phase_index ≡ some h.current)

  steps-IsWell : (geo : Geometry F P) (n : ℕ) (g : GaitPlan F P) → IsWell g → IsWell (steps geo n g)
  steps-IsWell geo zero g w = w
  steps-IsWell geo (suc n) g w = next_step-IsWell geo (steps geo n g) (steps-IsWell geo n g w)

  one_more :
      (n : ℕ) (g h : GaitPlan F P)
      → HasStepped n g h
      → (h.phase_index + 1) % cycle_length h ≡ (g.phase_index + suc n) % cycle_length g
  one_more n g h s =
      ap (λ (targets : List P). (h.phase_index + 1) % length targets) s.same_targets
      ∙ ap (λ (k : ℕ). (k + 1) % cycle_length g) s.phase
      ∙ mod-add-mod (g.phase_index + n) (cycle_length g) 1
      ∙ ap (λ (k : ℕ). k % cycle_length g) (omega arith)

  -- After n steps of a plan, with no new gait between them, the phase has gone n places round the
  -- cycle, the sequence number has grown by n, and the feet are commanded to the target of the phase.
  pub steps-HasStepped :
      (geo : Geometry F P) (n : ℕ) (g : GaitPlan F P) → IsWell g → HasStepped n g (steps geo n g)
  steps-HasStepped geo zero g w = record {
    same_targets = refl;
    phase = grind (arith, w.phase);
    numbered = omega arith;
    at_target = inl refl;
  }
  steps-HasStepped geo (suc n) g w =
      let h = steps geo n g in
      let before = steps-HasStepped geo n g w in
      let (target, found, e) = next_step-returns geo h (steps-IsWell geo n g w) in
      rw (e, steps)
        (record {
          same_targets = before.same_targets;
          phase = one_more n g h before;
          numbered = omega (arith, before.numbered);
          at_target = inr (
              subst
                (λ (l : List P). get_elem? l ((h.phase_index + 1) % cycle_length h) ≡ some target)
                before.same_targets found);
        })
