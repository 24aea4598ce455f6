-- ===== src/Result.antt =====
-- Raised exceptions as values: the exception classes of the packages.
use muto_rs_deployment_test.Prelude.{Bool, true, false, String, ◌≡◌, refl, ◌⊎◌, inl, inr}

-- One constructor for each class that the code tells apart, with its message where it is stored; a
-- RuntimeError and an OSError are both an `io_error`.
pub data Failure : Type 0 where
  duplicate_mission terminal_mission overflow : Failure
  wrong_state contract planner_failure tool_execution value_error io_error other : String → Failure

-- `str(exc)`; `overflow` is what `float` raises of an integer that is too large for it.
abbrev pub message : Failure → String
message Failure.duplicate_mission = "a mission is already active"
message Failure.terminal_mission = "mission is already terminal"
message Failure.overflow = "int too large to convert to float"
message (Failure.wrong_state text) = text
message (Failure.contract text) = text
message (Failure.planner_failure text) = text
message (Failure.tool_execution text) = text
message (Failure.value_error text) = text
message (Failure.io_error text) = text
message (Failure.other text) = text

-- What a method gives back: the exception that it raised, or its value.
pub data Result {ℓ} (Value : Type ℓ) : Type ℓ where
  err : Failure → Result Value
  ok : Value → Result Value

-- `if not test: raise failure`
abbrev pub guard : Bool → Failure → Result (Unit {0})
guard false failure = err failure
guard true _ = ok tt

module _ {ℓ κ} {Value : Type ℓ} {Next : Type κ} where
  infixl 5 ◌>>=◌
  abbrev pub ◌>>=◌ : Result Value → (Value → Result Next) → Result Next
  err failure >>= next = err failure
  ok value >>= next = next value

  -- Statements in sequence return only if the first one does.
  pub sequence-returns :
      (first : Result Value) (next : Value → Result Next) {last : Next}
      → first >>= next ≡ ok last
      → (value : Value) × (first ≡ ok value) × (next value ≡ ok last)
  sequence-returns (err failure) next returned = cc
  sequence-returns (ok value) next returned = (value, refl, returned)

infixl 5 ◌>>◌
abbrev pub ◌>>◌ {ℓ} : {Next : Type ℓ} → Result (Unit {0}) → Result Next → Result Next
◌>>◌ first second = first >>= λ _. second

-- A check passes or raises.
pub Result-cases :
    (check : Result (Unit {0})) → (check ≡ ok tt) ⊎ ((failure : Failure) × (check ≡ err failure))
Result-cases (err failure) = inr (failure, refl)
Result-cases (ok tt) = inl refl

pub ok-injective {ℓ} : {Value : Type ℓ} {a b : Value} → ok a ≡ ok b → a ≡ b
ok-injective h = cc
