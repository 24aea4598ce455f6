-- ===== src/Driver/Selection.antt =====
-- Selections of a velocity: the dataclasses of movement/velocity_calibration.py, and the mappings of
-- muto_driver.py that need no calibration.
use muto_rs_deployment_test.Prelude.{
  ℕ, Bool, false, not, ◌&&◌, ◌||◌, Option, none, some, String, Floats, if◌then◌else◌,
}
use muto_rs_deployment_test.Prelude.Integers.{ℤ, eq_ℤ}
use muto_rs_deployment_test.Result.{Result, ok, value_error, guard, ◌>>=◌, ◌>>◌}
use muto_rs_deployment_test.Reachability.Grid.{Arithmetic}
use muto_rs_deployment_test.Gait.Plan.{Levels}

pub record PlanarVelocity (F : Type 0) : Type 0 where
  pub linear_x_m_s : F
  pub linear_y_m_s : F
  pub angular_z_rad_s : F

pub record SaturationFlags : Type 0 where
  pub x : Bool
  pub y : Bool
  pub yaw : Bool
  pub unsupported_combination : Bool

pub record ProjectionFlags : Type 0 where
  pub x : Bool
  pub y : Bool
  pub yaw : Bool
  pub x_to_zero : Bool
  pub y_to_zero : Bool
  pub yaw_to_zero : Bool

pub record VelocitySelection (F : Type 0) : Type 0 where
  pub requested : PlanarVelocity F
  pub predicted : PlanarVelocity F
  pub levels : Levels F
  pub mode : String
  pub saturation : SaturationFlags
  pub profile_id : String
  pub phase_rate_hz : F
  pub projection : ProjectionFlags
  pub detail : String
  pub supported : Bool
  pub unsupported_reason : Option String

abbrev pub no_projection : ProjectionFlags
no_projection = record {
  x = false;
  y = false;
  yaw = false;
  x_to_zero = false;
  y_to_zero = false;
  yaw_to_zero = false;
}

abbrev pub is_some : ℤ → Bool
is_some n = not (eq_ℤ n (ℤ.pos 0))

abbrev pub legacy_mode : ℤ → ℤ → ℤ → String
legacy_mode x y z =
    if is_some y
    then if is_some x || is_some z then "standby" else "move_y"
    else if is_some x && is_some z
    then "move_xz"
    else if is_some x
    then "move_x"
    else if is_some z
    then "turn_z"
    else "standby"

abbrev pub legacy_detail : Bool → String
legacy_detail unsupported =
    if unsupported
    then "legacy_100 rollback mapping; simultaneous lateral motion is unsupported"
    else "legacy_100 rollback mapping; predicted twist is not calibrated"

module _ {F : Type 0} ⦃fl : Floats F⦄ where
  abbrev pub zero_levels : Levels F
  zero_levels = record { x = fl.zero_f; y = fl.zero_f; z = fl.zero_f }

  abbrev pub no_velocity : PlanarVelocity F
  no_velocity = record {
    linear_x_m_s = fl.zero_f;
    linear_y_m_s = fl.zero_f;
    angular_z_rad_s = fl.zero_f;
  }

  -- `_finite_float` and `_raw_level` of a float
  abbrev pub finite_float : String → F → Result F
  finite_float field_name x = do guard (fl.is_finite x) (value_error field_name); ok x

  abbrev pub raw_level : String → F → Result F
  raw_level field_name x = do
    guard (fl.is_finite x) (value_error field_name)
    ok (if fl.eq_f x fl.zero_f then fl.zero_f else x)

  -- `PlanarVelocity(...)`
  unfoldable pub planar_velocity : F → F → F → Result (PlanarVelocity F)
  planar_velocity x y z = do
    vx ← finite_float "linear_x_m_s must be a finite number" x
    vy ← finite_float "linear_y_m_s must be a finite number" y
    wz ← finite_float "angular_z_rad_s must be a finite number" z
    ok (record { linear_x_m_s = vx; linear_y_m_s = vy; angular_z_rad_s = wz })

  -- `MotionLevels(...)`
  unfoldable pub motion_levels : F → F → F → Result (Levels F)
  motion_levels x y z = do
    x_level ← raw_level "x_level must be a finite number" x
    y_level ← raw_level "y_level must be a finite number" y
    z_level ← raw_level "z_level must be a finite number" z
    ok (record { x = x_level; y = y_level; z = z_level })

  -- `max(low, min(high, x))`
  abbrev pub bounded : F → F → F → F
  bounded low high x =
      let capped = if fl.lt_f x high then x else high in if fl.lt_f low capped then capped else low

  abbrev pub standby_of : String → F → String → Bool → PlanarVelocity F → VelocitySelection F
  standby_of profile_id rate detail supported requested = record {
    requested = requested;
    predicted = no_velocity;
    levels = zero_levels;
    mode = "standby";
    saturation = record {
      x = not supported && not (fl.eq_f requested.linear_x_m_s fl.zero_f);
      y = not supported && not (fl.eq_f requested.linear_y_m_s fl.zero_f);
      yaw = not supported && not (fl.eq_f requested.angular_z_rad_s fl.zero_f);
      unsupported_combination = not supported;
    };
    profile_id = profile_id;
    phase_rate_hz = rate;
    projection = no_projection;
    detail = detail;
    supported = supported;
    unsupported_reason = if supported then none else some detail;
  }

module _ {F : Type 0} ⦃fl : Floats F⦄ ⦃ar : Arithmetic F⦄ where
  abbrev pub whole_f : ℕ → F
  whole_f n = ar.of_int (ℤ.pos n)

  abbrev pub negative_f : F → F
  negative_f x = ar.sub_f fl.zero_f x

  abbrev pub abs_f : F → F
  abs_f x = if fl.lt_f x fl.zero_f then negative_f x else x

  abbrev pub hundredths : ℕ → F
  hundredths n = ar.div_f (whole_f n) (whole_f 100)

  -- `int(max(-bound, min(bound, v * 100.0)))`
  abbrev pub legacy_level : ℕ → F → Result ℤ
  legacy_level bound v =
      ar.trunc_f (bounded (negative_f (whole_f bound)) (whole_f bound) (ar.mul_f v (whole_f 100)))

  -- the level of a rotation, which is 10 at least
  abbrev pub legacy_turn : F → Result ℤ
  legacy_turn wz =
      let raw = bounded (negative_f (whole_f 20)) (whole_f 20) (ar.mul_f wz (whole_f 100)) in
      if fl.lt_f fl.zero_f (abs_f raw) && fl.lt_f (abs_f raw) (whole_f 10)
      then ok (if fl.lt_f fl.zero_f raw then ℤ.pos 10 else ℤ.negsuc 9)
      else ar.trunc_f raw

  abbrev pub legacy_of :
      Bool
      → String
      → F × F × F
      → F
      → PlanarVelocity F
      → PlanarVelocity F
      → Levels F
      → VelocitySelection F
  legacy_of unsupported mode (vx, vy, wz) rate requested predicted levels = record {
    requested = requested;
    predicted = predicted;
    levels = levels;
    mode = mode;
    saturation = record {
      x = fl.lt_f (hundredths 30) (abs_f vx);
      y = fl.lt_f (hundredths 30) (abs_f vy) || unsupported;
      yaw = fl.lt_f (hundredths 20) (abs_f wz);
      unsupported_combination = unsupported;
    };
    profile_id = "legacy_100";
    phase_rate_hz = rate;
    projection = no_projection;
    detail = legacy_detail unsupported;
    supported = not unsupported;
    unsupported_reason = if unsupported then some (legacy_detail unsupported) else none;
  }

  abbrev pub legacy_predicted : Bool → Levels F → Result (PlanarVelocity F)
  legacy_predicted unsupported levels =
      if unsupported
      then planar_velocity fl.zero_f fl.zero_f fl.zero_f
      else planar_velocity (ar.div_f levels.x (whole_f 100)) (ar.div_f levels.y (whole_f 100))
          (ar.div_f levels.z (whole_f 100))

  -- `legacy_velocity_selection`
  unfoldable pub legacy_velocity_selection : F → F → F → F → Result (VelocitySelection F)
  unfolding planar_velocity motion_levels
  legacy_velocity_selection vx vy wz rate = do
    requested ← planar_velocity vx vy wz
    x ← legacy_level 30 vx
    y ← legacy_level 30 vy
    z ← legacy_turn wz
    given ← motion_levels (ar.of_int x) (ar.of_int y) (ar.of_int z)
    let unsupported = is_some y && (is_some x || is_some z)
    let levels = if unsupported then zero_levels else given
    predicted ← legacy_predicted unsupported levels
    ok (legacy_of unsupported (legacy_mode x y z) (vx, vy, wz) rate requested predicted levels)
