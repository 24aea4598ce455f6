-- ===== src/Tools/Json.antt =====
-- The values that `json.loads` gives the planner's output (commander.py), and what Python's `float`,
-- `isfinite`, `str` and `tuple` make of them.
use muto_rs_deployment_test.Prelude.{
  ℕ, Bool, true, false, Option, none, some, List, String, ◌==◌, Floats, ◌≡◌, any, map,
  if◌then◌else◌,
}
use muto_rs_deployment_test.Prelude
use muto_rs_deployment_test.Result.{Result, ok, err, value_error, overflow, ◌>>=◌}

-- An integer keeps its sign and its magnitude. An object lists its keys, each of them once.
mutual
  pub data Json (F : Type 0) : Type 0 where
    null : Json F
    truth : Bool → Json F
    integer : Bool → ℕ → Json F
    number : F → Json F
    text : String → Json F
    array : Values F → Json F
    object : Members F → Json F

  pub data Values (F : Type 0) : Type 0 where
    no_value : Values F
    value : Json F → Values F → Values F

  pub data Members (F : Type 0) : Type 0 where
    no_member : Members F
    member : String → Json F → Members F → Members F

-- What the code asks of Python's conversions: `float(n)` of an integer, which raises where the
-- integer is too large, `str(x)`, and the text of a list of keys.
pub record Coercions (F : Type 0) : Type 0 where
  pub float_of : Bool → ℕ → Option F
  pub str_of : Json F → String
  pub listing : List String → String
  pub str_of_text : (s : String) → str_of (Json.text s) ≡ s

module _ {F : Type 0} where
  abbrev pub elements : Values F → List (Json F)
  elements Values.no_value = Prelude.[]
  elements (Values.value v vs) = Prelude.◌∷◌ v (elements vs)

  abbrev pub keys : Members F → List String
  keys Members.no_member = Prelude.[]
  keys (Members.member k v ms) = Prelude.◌∷◌ k (keys ms)

  -- `payload.get(key)`; JSON's null is Python's None, so an absent key and a null are one
  unfoldable pub get : String → Members F → Json F
  get key Members.no_member = Json.null
  get key (Members.member k v ms) = let rest = get key ms in if k == key then v else rest

  -- `key in payload`
  unfoldable pub has_key : String → Members F → Bool
  has_key key ms = any (λ k. k == key) (keys ms)

  abbrev pub is_null : Json F → Bool
  is_null Json.null = true
  is_null _ = false

  -- `payload.get(key, default)`
  abbrev pub get_or : String → Json F → Members F → Json F
  unfolding has_key get
  get_or key default ms = if has_key key ms then get key ms else default

  -- `isinstance(x, str)` and its text
  abbrev pub as_text : Json F → Option String
  as_text (Json.text s) = some s
  as_text _ = none

  abbrev letters : String → List (Json F)
  letters String.[] = Prelude.[]
  letters (String.◌∷◌ c s) = Prelude.◌∷◌ (Json.text (String.◌∷◌ c String.[])) (letters s)

  -- `tuple(x)`: of an array its elements, of a text its characters, of an object its keys
  abbrev pub tuple_of : Json F → Result (List (Json F))
  tuple_of (Json.array vs) = ok (elements vs)
  tuple_of (Json.text s) = ok (letters s)
  tuple_of (Json.object ms) = ok (map Json.text (keys ms))
  tuple_of _ = err (value_error "object is not iterable")

module _ {F : Type 0} ⦃fl : Floats F⦄ ⦃co : Coercions F⦄ where
  abbrev truth_float : Bool → F
  truth_float b = if b then fl.one_f else fl.zero_f

  abbrev converted : Option F → Result Bool
  converted none = err overflow
  converted (some x) = ok (fl.is_finite x)

  -- `isinstance(x, (int, float)) and isfinite(float(x))`; a bool is an int
  abbrev pub is_finite_number : Json F → Result Bool
  is_finite_number (Json.truth b) = ok (fl.is_finite (truth_float b))
  is_finite_number (Json.integer negative n) = converted (co.float_of negative n)
  is_finite_number (Json.number x) = ok (fl.is_finite x)
  is_finite_number _ = ok false

  -- `all(...)` of it, which stops at the first one that fails
  unfoldable pub all_finite_numbers : List (Json F) → Result Bool
  all_finite_numbers Prelude.[] = ok true
  all_finite_numbers (Prelude.◌∷◌ x xs) =
      let rest = all_finite_numbers xs in
      is_finite_number x >>= λ finite. if finite then rest else ok false
