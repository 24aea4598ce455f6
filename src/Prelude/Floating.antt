-- ===== src/Prelude/Floating.antt =====
-- Python's floats, as far as the command layer computes with them: a type with the operations of
-- IEEE 754, whose rounding no theorem depends on.
use mathlib.Core.Path.{◌≡◌, refl}
use mathlib.Core.Bool.{Bool, true, false}
use mathlib.Core.Option.{Option, none, some}
use Prim.Native.Nat.{ℕ, ◌+◌}
use muto_rs_deployment_test.Prelude.Tests.{leb, ltb, eqb}

pub record Floats (F : Type 0) : Type 0 where
  pub zero_f : F
  pub one_f : F
  pub is_finite : F → Bool
  pub add_f : F → F → F
  pub lt_f : F → F → Bool
  pub le_f : F → F → Bool
  pub eq_f : F → F → Bool
  -- 0.0 is finite and not below itself
  pub zero_finite : is_finite zero_f ≡ true
  pub zero_not_negative : lt_f zero_f zero_f ≡ false

-- Whole numbers, with one value that is not finite, for tests and witnesses.
instance abbrev pub whole : Floats (Option ℕ)
whole = record {
  zero_f = some 0;
  one_f = some 1;
  is_finite = λ x. elim x [ none ↦ false | some _ ↦ true ];
  add_f = λ x y. elim x [ none ↦ none | some a ↦ elim y [ none ↦ none | some b ↦ some (a + b) ] ];
  lt_f = λ x y. elim x [ none ↦ false | some a ↦ elim y [ none ↦ true | some b ↦ ltb a b ] ];
  le_f = λ x y. elim x [ none ↦ false | some a ↦ elim y [ none ↦ true | some b ↦ leb a b ] ];
  eq_f = λ x y. elim x [
    | none ↦ elim y [ none ↦ true | some _ ↦ false ]
    | some a ↦ elim y [ none ↦ false | some b ↦ eqb a b ]
  ];
  zero_finite = refl;
  zero_not_negative = refl;
}
