-- ===== src/Gait/Latch.antt =====
-- The command latch of the gait (core/hexapod.py): `Hexapod`, whose legs are a parameter.
use muto_rs_deployment_test.Prelude.{
  Bool, true, false, not, ◌&&◌, ◌||◌, Option, none, some, List, [], ◌∷◌, String, ◌==◌, eqb,
  if◌then◌else◌,
}
use muto_rs_deployment_test.Result.{Result, ok, err}
use muto_rs_deployment_test.Gait.Plan.{
  Geometry, Levels, GaitPlan, CommandedGaitState, configure, next_step, new_plan,
}

-- What the latch asks of floats: the comparison with 0, and the rounding to six digits of a level
-- that is not, of which keys are made, and their equality.
pub record Amplitudes (F : Type 0) : Type 0 where
  pub is_zero : F → Bool
  pub round6 : F → F
  pub zero_key : F
  pub eq_key : F → F → Bool

-- a tuple of a mode and the keys of its levels
pub record CommandKey (F : Type 0) : Type 0 where
  pub mode : String
  pub levels : List F

-- `(mode, command_key, x_level, y_level, z_level)`
pub record Command (F : Type 0) : Type 0 where
  pub mode : String
  pub key : CommandKey F
  pub levels : Levels F

pub record Hexapod (F P : Type 0) : Type 0 where
  pub gait : GaitPlan F P
  pub command_key : Option (CommandKey F)
  pub pending_command : Option (Command F)

module _ {F : Type 0} ⦃am : Amplitudes F⦄ where
  -- `_command_key_level`
  abbrev pub command_key_level : F → F
  command_key_level x = if am.is_zero x then am.zero_key else am.round6 x

  abbrev pub keyed : String → List F → CommandKey F
  keyed mode levels = record { mode = mode; levels = levels }

  -- `_classify_command`; the key of a command names its mode
  unfoldable pub classify_command : Levels F → CommandKey F
  classify_command l =
      if am.is_zero l.x && (am.is_zero l.y && am.is_zero l.z)
      then keyed "standby" []
      else if am.is_zero l.z
      then if not (am.is_zero l.x)
        then keyed "move_x" (command_key_level l.x ∷ [])
        else keyed "move_y" (command_key_level l.y ∷ [])
      else if am.is_zero l.x && am.is_zero l.y
      then keyed "turn_z" (command_key_level l.z ∷ [])
      else keyed "move_xz"
          (command_key_level l.x ∷ command_key_level l.y ∷ command_key_level l.z ∷ [])

  abbrev pub command_of : Levels F → Command F
  command_of l = record { mode = (classify_command l).mode; key = classify_command l; levels = l }

  abbrev pub same_levels : List F → List F → Bool
  same_levels [] [] = true
  same_levels (x ∷ xs) (y ∷ ys) =
      let rest = same_levels xs ys in if am.eq_key x y then rest else false
  same_levels _ _ = false

  abbrev pub same_key : CommandKey F → CommandKey F → Bool
  same_key a b = a.mode == b.mode && same_levels a.levels b.levels

  -- `command_key == self._command_key`
  abbrev pub runs : CommandKey F → Option (CommandKey F) → Bool
  runs key none = false
  runs key (some k) = same_key key k

  -- `self._pending_command is not None and command_key == self._pending_command[1]`
  abbrev pub waits : CommandKey F → Option (Command F) → Bool
  waits key none = false
  waits key (some c) = same_key key c.key

abbrev pub is_pending : {F : Type 0} → Option (Command F) → Bool
is_pending none = false
is_pending (some _) = true

module _ {F P : Type 0} (geo : Geometry F P) where
  abbrev pub new_hexapod : Hexapod F P
  new_hexapod = record { gait = new_plan geo; command_key = none; pending_command = none }

  abbrev pub with_key :
      CommandKey F
      → Hexapod F P
      → Result (Unit {0}) × GaitPlan F P
      → Result (Unit {0}) × Hexapod F P
  with_key key h (ok tt, g) = (ok tt, record h { gait = g; command_key = some key })
  with_key key h (err failure, g) = (err failure, record h { gait = g })

  -- `_apply_command`
  unfoldable pub apply_command : Command F → Hexapod F P → Result (Unit {0}) × Hexapod F P
  unfolding configure
  apply_command c h = with_key c.key h (configure geo c.mode c.levels false h.gait)

  abbrev pub answered : Bool → Result (Unit {0}) × Hexapod F P → Result Bool × Hexapod F P
  answered changed (ok tt, h) = (ok changed, h)
  answered changed (err failure, h) = (err failure, h)

module _ {F P : Type 0} ⦃am : Amplitudes F⦄ (geo : Geometry F P) where
  -- a return to standby, or a start from it
  abbrev pub set_at_once : Command F → Hexapod F P → Result Bool × Hexapod F P
  set_at_once c h =
      let cleared = record h { pending_command = none } in
      if runs c.key h.command_key
      then (ok (is_pending h.pending_command), cleared)
      else answered geo true (apply_command geo c cleared)

  -- a replacement of a gait
  abbrev pub set_replacement : Command F → Hexapod F P → Result Bool × Hexapod F P
  set_replacement c h =
      if runs c.key h.command_key
      then (ok (is_pending h.pending_command), record h { pending_command = none })
      else if waits c.key h.pending_command
      then (ok false, h)
      else (ok true, record h { pending_command = some c })

  -- `set_command`
  unfoldable pub set_command : Levels F → Hexapod F P → Result Bool × Hexapod F P
  unfolding set_at_once command_of
  set_command l h =
      let c = command_of l in
      if c.mode == "standby" || h.gait.mode == "standby"
      then set_at_once c h
      else set_replacement c h

  -- `GaitPlan.at_cycle_boundary`
  abbrev pub at_cycle_boundary : GaitPlan F P → Bool
  at_cycle_boundary g = eqb g.phase_index 0

  -- the replacement that a tick begins with
  abbrev pub replace_pending : Option (Command F) → Hexapod F P → Result (Unit {0}) × Hexapod F P
  replace_pending none h = (ok tt, h)
  replace_pending (some c) h =
      if at_cycle_boundary h.gait
      then apply_command geo c (record h { pending_command = none })
      else (ok tt, h)

  abbrev pub with_step :
      Hexapod F P
      → Result (CommandedGaitState F P) × GaitPlan F P
      → Result (CommandedGaitState F P) × Hexapod F P
  with_step h (ok state, g) = (
    ok (record state { replacement_pending = is_pending h.pending_command }),
    record h { gait = g },
  )
  with_step h (err failure, g) = (err failure, record h { gait = g })

  abbrev pub step_after :
      Result (Unit {0}) × Hexapod F P → Result (CommandedGaitState F P) × Hexapod F P
  step_after (ok tt, h) = with_step h (next_step geo h.gait)
  step_after (err failure, h) = (err failure, h)

  -- what a tick decides before the legs are moved
  unfoldable pub advance : Hexapod F P → Result (CommandedGaitState F P) × Hexapod F P
  unfolding replace_pending step_after
  advance h = step_after (replace_pending h.pending_command h)

-- The legs compute the angles of their joints and write them: to the targets of the feet.
abbrev pub Dispatch : Type 0 → Type 0 → Type 0
Dispatch P W = P → W → Result (Unit {0}) × W

module _ {F P W : Type 0} ⦃am : Amplitudes F⦄ (geo : Geometry F P) (dispatch : Dispatch P W) where
  abbrev pub legs_moved :
      CommandedGaitState F P
      → Hexapod F P
      → Result (Unit {0}) × W
      → Result (CommandedGaitState F P) × (Hexapod F P × W)
  legs_moved state h (ok tt, w) = (ok state, (h, w))
  legs_moved state h (err failure, w) = (err failure, (h, w))

  abbrev pub move_legs :
      Result (CommandedGaitState F P) × Hexapod F P
      → W
      → Result (CommandedGaitState F P) × (Hexapod F P × W)
  move_legs (ok state, h) w = legs_moved state h (dispatch state.foot_positions_mm w)
  move_legs (err failure, h) w = (err failure, (h, w))

  -- `tick`
  unfoldable pub tick : Hexapod F P → W → Result (CommandedGaitState F P) × (Hexapod F P × W)
  unfolding advance
  tick h w = move_legs (advance geo h) w
