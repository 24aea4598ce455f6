-- ===== src/Gait/Tests.antt =====
-- A plan whose feet are numbers (movement/gait.py) and its latch (core/hexapod.py), and the theorems
-- at them.
use muto_rs_deployment_test.Prelude.{
  ℕ, ◌+◌, ◌≤◌, ◌==◌, ◌||◌, ◌⊎◌, eqb, true, false, List, [], ◌∷◌, ◌≡◌, refl, arith,
}
use muto_rs_deployment_test.Result.{ok}
use muto_rs_deployment_test.Gait.Plan.{
  Geometry, Levels, GaitPlan, CommandedGaitState, new_plan, configure, next_step, cycle_length,
}
use muto_rs_deployment_test.Gait.Latch.{
  Amplitudes, Hexapod, new_hexapod, classify_command, apply_command, runs, set_command, advance,
}
use muto_rs_deployment_test.Gait.Latched.{advances}
use muto_rs_deployment_test.Gait.Commands.{Reached, set_command-runs, Reached-IsSmooth}
use muto_rs_deployment_test.Gait.Cycle.{
  Move, moves, IsWell, moves-IsWell, steps, HasStepped, steps-HasStepped,
}

abbrev numbers : Geometry ℕ ℕ
numbers = record {
  zero_level = 0;
  standby = 0;
  forward = λ x phase. x + phase;
  lateral = λ y phase. y + phase;
  twist = λ x z phase. x + z + phase;
  stance = λ p. true ∷ [];
}

abbrev ahead : Levels ℕ
ahead = record { x = 10; y = 0; z = 0 }

abbrev walk : List (Move ℕ)
walk =
    Move.replace "move_x" ahead false ∷ Move.next ∷ Move.replace "dance" ahead true ∷ Move.next ∷ []

abbrev at_rest : GaitPlan ℕ ℕ
at_rest = new_plan numbers

walk_test : (moves numbers walk at_rest).current ≡ 12
unfolding configure next_step
walk_test = refl

preserved_test :
    (moves numbers walk (
      moves numbers
        (Move.replace "move_xz" ahead true ∷ [])
        (moves numbers walk at_rest))).phase_index
    ≡ 2
unfolding configure next_step
preserved_test = refl

moves-IsWell_example :
    IsWell (moves numbers walk at_rest)
    × ((state : CommandedGaitState ℕ ℕ) × ((next_step numbers (moves numbers walk at_rest)).0
          ≡ ok state))
moves-IsWell_example = moves-IsWell numbers walk at_rest (record { phase = omega arith })

steps-HasStepped_example : HasStepped 3 at_rest (steps numbers 3 at_rest)
steps-HasStepped_example = steps-HasStepped numbers 3 at_rest (record { phase = omega arith })

instance number_amplitudes : Amplitudes ℕ
number_amplitudes = record { is_zero = λ n. eqb n 0; round6 = λ n. n; zero_key = 0; eq_key = eqb }

abbrev turn : Levels ℕ
turn = record { x = 0; y = 0; z = 7 }

-- two phases of a walk
abbrev walking : Hexapod ℕ ℕ
walking =
    (advance numbers (advance numbers (set_command numbers ahead (new_hexapod numbers)).1).1).1

walking-Reached : Reached numbers walking
walking-Reached = Reached.ticked (Reached.ticked (Reached.commanded ahead Reached.initial))

-- A turn waits for the end of the walk's cycle.
turn_waits_test :
    runs
      (classify_command turn)
      (advances numbers 1 (set_command numbers turn walking).1).command_key
    ≡ false
unfolding classify_command set_command advance apply_command configure next_step number_amplitudes
turn_waits_test = refl

set_command-runs_example :
    (n : ℕ) × (n ≤ cycle_length (set_command numbers turn walking).1.gait)
    × (runs
          (classify_command turn)
          (advances numbers n (set_command numbers turn walking).1).command_key
        ≡ true)
unfolding classify_command number_amplitudes
set_command-runs_example = set_command-runs numbers turn walking-Reached refl

Reached-IsSmooth_example :
    (((set_command numbers turn walking).1.gait.targets ≡ walking.gait.targets)
      ⊎ (((classify_command turn).mode == "standby" || walking.gait.mode == "standby") ≡ true))
    × (((advance numbers walking).1.gait.targets ≡ walking.gait.targets)
        ⊎ (walking.gait.phase_index ≡ 0))
Reached-IsSmooth_example = Reached-IsSmooth numbers turn walking-Reached
