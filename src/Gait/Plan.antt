-- ===== src/Gait/Plan.antt =====
-- `GaitPlan` (movement/gait.py). The positions of the feet are values of a type `P`, and the paths
-- that the trigonometry of the file computes are a parameter.
use muto_rs_deployment_test.Prelude.{
  ℕ, zero, suc, ◌+◌, ◌%◌, Bool, false, ◌&&◌, Option, none, some, List, [], ◌∷◌, String, ◌==◌, ◌<>◌,
  ltb, eqb, length, get_elem?, if◌then◌else◌,
}
use muto_rs_deployment_test.Result.{Result, ok, err, value_error, other}

abbrev pub gait_steps : ℕ
gait_steps = 20

-- The target of the feet at each phase, for the levels of a motion: `_forward_paths`,
-- `_lateral_paths` and `_twist_paths`, with `k_standby` added and rounded.
pub record Geometry (F P : Type 0) : Type 0 where
  pub zero_level : F
  pub standby : P
  pub forward : F → ℕ → P
  pub lateral : F → ℕ → P
  pub twist : F → F → ℕ → P
  -- whether each foot is on the nominal ground plane
  pub stance : P → List Bool

pub record Levels (F : Type 0) : Type 0 where
  pub x : F
  pub y : F
  pub z : F

pub record GaitPlan (F P : Type 0) : Type 0 where
  pub mode : String
  pub targets : List P
  pub phase_index : ℕ
  pub sequence : ℕ
  pub current : P
  pub active_levels : Levels F

-- what `_state_for` records of the plan at a step
pub record CommandedGaitState (F P : Type 0) : Type 0 where
  pub sequence : ℕ
  pub mode : String
  pub levels : Levels F
  pub phase_index : ℕ
  pub cycle_length : ℕ
  pub cycle_complete : Bool
  pub commanded_stance : List Bool
  pub foot_positions_mm : P
  pub replacement_pending : Bool

module _ {P : Type 0} where
  -- `[target(phase) for phase in range(first, first + n)]`
  abbrev pub targets_from : (ℕ → P) → ℕ → ℕ → List P
  targets_from target first zero = []
  targets_from target first (suc n) = target first ∷ targets_from target (first + 1) n

  -- `_targets_from_offsets`
  abbrev pub targets_from_offsets : (ℕ → P) → List P
  targets_from_offsets target = targets_from target 0 gait_steps

module _ {F P : Type 0} where
  abbrev pub cycle_length : GaitPlan F P → ℕ
  cycle_length g = length g.targets

  -- `GaitPlan()`
  abbrev pub new_plan : Geometry F P → GaitPlan F P
  new_plan geo = record {
    mode = "standby";
    targets = geo.standby ∷ [];
    phase_index = 0;
    sequence = 0;
    current = geo.standby;
    active_levels = record { x = geo.zero_level; y = geo.zero_level; z = geo.zero_level };
  }

  -- the levels and the targets of a mode, or none for a mode that is not supported
  abbrev pub gait_of : Geometry F P → String → Levels F → Option (Levels F × List P)
  gait_of geo mode levels =
      if mode == "standby"
      then some
          (record { x = geo.zero_level; y = geo.zero_level; z = geo.zero_level }, geo.standby ∷ [])
      else if mode == "move_x"
      then some (
        record { x = levels.x; y = geo.zero_level; z = geo.zero_level },
        targets_from_offsets (geo.forward levels.x),
      )
      else if mode == "move_y"
      then some (
        record { x = geo.zero_level; y = levels.y; z = geo.zero_level },
        targets_from_offsets (geo.lateral levels.y),
      )
      else if mode == "turn_z"
      then some (
        record { x = geo.zero_level; y = geo.zero_level; z = levels.z },
        targets_from_offsets (geo.twist geo.zero_level levels.z),
      )
      else if mode == "move_xz"
      then some (
        record { x = levels.x; y = geo.zero_level; z = levels.z },
        targets_from_offsets (geo.twist levels.x levels.z),
      )
      else none

  abbrev pub with_gait : String → Bool → Levels F → List P → GaitPlan F P → GaitPlan F P
  with_gait mode preserve levels targets g = record g {
    mode = mode;
    active_levels = levels;
    targets = targets;
    phase_index =
        if preserve && (ltb 1 (cycle_length g) && ltb 1 (length targets))
        then g.phase_index % length targets
        else 0;
  }

  abbrev pub configured :
      String → Bool → GaitPlan F P → Option (Levels F × List P) → Result (Unit {0}) × GaitPlan F P
  configured mode preserve g (some (levels, targets)) =
      (ok tt, with_gait mode preserve levels targets g)
  configured mode preserve g none = (err (value_error ("unsupported gait mode: " <> mode)), g)

  unfoldable pub configure :
      Geometry F P → String → Levels F → Bool → GaitPlan F P → Result (Unit {0}) × GaitPlan F P
  configure geo mode levels preserve g = configured mode preserve g (gait_of geo mode levels)

  abbrev pub state_for : Geometry F P → Bool → GaitPlan F P → CommandedGaitState F P
  state_for geo complete g = record {
    sequence = g.sequence;
    mode = g.mode;
    levels = g.active_levels;
    phase_index = g.phase_index;
    cycle_length = cycle_length g;
    cycle_complete = complete;
    commanded_stance = geo.stance g.current;
    foot_positions_mm = g.current;
    replacement_pending = false;
  }

  abbrev pub stepped : ℕ → P → GaitPlan F P → GaitPlan F P
  stepped phase target g = record g {
    phase_index = phase;
    current = target;
    sequence = g.sequence + 1;
  }

  abbrev pub step_to :
      Geometry F P → ℕ → Option P → GaitPlan F P → Result (CommandedGaitState F P) × GaitPlan F P
  step_to geo phase (some target) g =
      (ok (state_for geo (eqb phase 0) (stepped phase target g)), stepped phase target g)
  step_to geo phase none g = (err (other "list index out of range"), g)

  -- `next_step`, with the flag and the feet that it returns in the state
  unfoldable pub next_step :
      Geometry F P → GaitPlan F P → Result (CommandedGaitState F P) × GaitPlan F P
  next_step geo g =
      let phase = (g.phase_index + 1) % cycle_length g in
      step_to geo phase (get_elem? g.targets phase) g
