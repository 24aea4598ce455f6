-- ===== src/Contracts/Request.antt =====
-- The words of a request that a visual confirmation must show (contracts.py, lines 125 to 212).
use muto_rs_deployment_test.Prelude.{
  ℕ, Bool, true, false, not, ◌&&◌, List, [], ◌∷◌, ◌++◌, map, String, codes, codes_eq, find_tokens,
  lower, any, all, select, if◌then◌else◌, ◌≡◌, refl,
}
use muto_rs_deployment_test.Contracts.Evidence.{string_tuple}

-- The tokens are lists of code points.
abbrev pub contains_term : List (List ℕ) → List ℕ → Bool
contains_term ts t = any (codes_eq t) ts

-- `tuple(dict.fromkeys(ts))`: the first occurrence of each, in order
unfoldable pub from_keys : List (List ℕ) → List (List ℕ) → List (List ℕ)
unfolding codes_eq
from_keys seen [] = []
from_keys seen (t ∷ ts) =
    let again = from_keys seen ts in
    let new = t ∷ from_keys (t ∷ seen) ts in if contains_term seen t then again else new

-- `_REQUEST_MATCH_STOP_WORDS`
abbrev pub stop_words : List (List ℕ)
stop_words = map codes (
    "a" ∷ "an" ∷ "approach" ∷ "confirmed" ∷ "find" ∷ "for" ∷ "go" ∷ "identify" ∷ "look" ∷ "locate"
    ∷ "object" ∷ "please" ∷ "search" ∷ "target" ∷ "the" ∷ "to" ∷ [])

abbrev pub tokens : String → List (List ℕ)
unfolding find_tokens lower
tokens s = find_tokens (lower (codes s))

abbrev pub flat_tokens : List String → List (List ℕ)
unfolding tokens
flat_tokens [] = []
flat_tokens (v ∷ vs) = tokens v ++ flat_tokens vs

unfoldable pub request_match_terms : String → List (List ℕ)
unfolding from_keys tokens codes_eq
request_match_terms object_request =
    from_keys [] (select (λ t. not (contains_term stop_words t)) (tokens object_request))

-- `_attribute_terms`
unfoldable pub attribute_terms : List String → List (List ℕ)
unfolding from_keys flat_tokens string_tuple codes_eq
attribute_terms attributes = from_keys [] (flat_tokens (string_tuple attributes))

unfoldable pub missing_request_match_terms : String → List String → List (List ℕ)
unfolding request_match_terms attribute_terms codes_eq
missing_request_match_terms object_request matched =
    let found = attribute_terms matched in
    select (λ t. not (contains_term found t)) (request_match_terms object_request)

abbrev pub is_empty {ℓ} : {A : Type ℓ} → List A → Bool
is_empty [] = true
is_empty (_ ∷ _) = false

unfoldable pub confirmation_matches_request : String → List String → List String → Bool
unfolding request_match_terms attribute_terms codes_eq
confirmation_matches_request object_request matched unmatched =
    let required = request_match_terms object_request in
    let found = attribute_terms matched in
    not (is_empty required)
    && (is_empty (attribute_terms unmatched) && all (contains_term found) required)

blue_chair_test :
    confirmation_matches_request "find the Blue chair" ("chair, wooden" ∷ "blue" ∷ []) [] ≡ true
unfolding confirmation_matches_request
blue_chair_test = refl
