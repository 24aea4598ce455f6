-- ===== src/Backends/Attributes.antt =====
-- A list of attributes is what `_string_tuple` makes of it, once it has been made (contracts.py,
-- backend_adapters.py), so that evidence shows the same words as the decision behind it.
use Prim.Native.Char.{Char, code}
use muto_rs_deployment_test.Prelude.{
  true, false, ◌&&◌, List, [], ◌∷◌, String, ◌==◌, is_space, lstrip, rstrip, strip, nonempty,
  Bool-cases, ◌≡◌, refl, ap, ◌∙◌, inl, inr,
}
use muto_rs_deployment_test.Contracts.Evidence.{string_tuple}
use muto_rs_deployment_test.Contracts.Request.{
  from_keys, flat_tokens, attribute_terms, confirmation_matches_request,
}

rstrip_idem : (s : String) → rstrip (rstrip s) ≡ rstrip s
unfolding rstrip
rstrip_idem String.[] = refl
rstrip_idem (String.◌∷◌ c s) = elim (Bool-cases (rstrip s == "" && is_space (code c))) [
  | inl e ↦ rw e refl
  | inr e ↦ rw (e, rstrip_idem s, e) refl
]

lstrip-letter :
    (c : Char) (s : String) → is_space (code c) ≡ false → lstrip (String.◌∷◌ c s) ≡ String.◌∷◌ c s
unfolding lstrip
lstrip-letter c s e = rw e refl

rstrip-letter :
    (c : Char) (s : String)
    → is_space (code c) ≡ false
    → rstrip (String.◌∷◌ c s) ≡ String.◌∷◌ c (rstrip s)
unfolding rstrip
rstrip-letter c s e = elim (Bool-cases (rstrip s == "")) [
  | inl f ↦ rw (f, e) refl
  | inr f ↦ rw f refl
]

lstrip-space :
    (c : Char) (s : String) → is_space (code c) ≡ true → lstrip (String.◌∷◌ c s) ≡ lstrip s
unfolding lstrip
lstrip-space c s e = rw e refl

empty_strip : lstrip (rstrip (lstrip String.[])) ≡ rstrip (lstrip String.[])
unfolding lstrip rstrip
empty_strip = refl

lstrip-rstrip : (s : String) → lstrip (rstrip (lstrip s)) ≡ rstrip (lstrip s)
lstrip-rstrip String.[] = empty_strip
lstrip-rstrip (String.◌∷◌ c s) = elim (Bool-cases (is_space (code c))) [
  | inl e ↦ rw (lstrip-space c s e) (lstrip-rstrip s)
  | inr e ↦ rw (lstrip-letter c s e, rstrip-letter c s e) (lstrip-letter c (rstrip s) e)
]

strip_idem : (s : String) → strip (strip s) ≡ strip s
unfolding strip
strip_idem s = ap rstrip (lstrip-rstrip s) ∙ rstrip_idem (lstrip s)

string_tuple-kept :
    (w : String) (ws : List String)
    → nonempty (strip w) ≡ true
    → string_tuple (w ∷ ws) ≡ strip w ∷ string_tuple ws
unfolding string_tuple
string_tuple-kept w ws e = rw e refl

string_tuple-dropped :
    (w : String) (ws : List String)
    → nonempty (strip w) ≡ false
    → string_tuple (w ∷ ws) ≡ string_tuple ws
unfolding string_tuple
string_tuple-dropped w ws e = rw e refl

empty_tuple : string_tuple (string_tuple []) ≡ string_tuple []
unfolding string_tuple
empty_tuple = refl

pub string_tuple_idem : (vs : List String) → string_tuple (string_tuple vs) ≡ string_tuple vs
string_tuple_idem [] = empty_tuple
string_tuple_idem (v ∷ vs) = elim (Bool-cases (nonempty (strip v))) [
  | inl e ↦ rw (string_tuple-kept v vs e) (
      string_tuple-kept (strip v) (string_tuple vs) (ap nonempty (strip_idem v) ∙ e)
      ∙ (ap (λ (w : String). w ∷ string_tuple (string_tuple vs)) (strip_idem v)
          ∙ ap (λ (ws : List String). strip v ∷ ws) (string_tuple_idem vs)))
  | inr e ↦ rw (string_tuple-dropped v vs e) (string_tuple_idem vs)
]

pub attribute_terms-string_tuple :
    (vs : List String) → attribute_terms (string_tuple vs) ≡ attribute_terms vs
unfolding attribute_terms
attribute_terms-string_tuple vs =
    ap (λ (l : List String). from_keys [] (flat_tokens l)) (string_tuple_idem vs)

-- The predicate on a confirmation does not see the difference.
pub confirmation_matches_request-string_tuple :
    (request : String) (matched unmatched : List String)
    → confirmation_matches_request request (string_tuple matched) (string_tuple unmatched)
      ≡ confirmation_matches_request request matched unmatched
unfolding confirmation_matches_request
confirmation_matches_request-string_tuple request matched unmatched =
    rw (attribute_terms-string_tuple matched, attribute_terms-string_tuple unmatched) refl
