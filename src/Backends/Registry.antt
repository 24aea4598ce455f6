-- ===== src/Backends/Registry.antt =====
-- `query_registry` and `inspect_candidates` of `V2ToolBackend` (backend_adapters.py).
use Prim.Native.Char.{code}
use muto_rs_deployment_test.Prelude.{
  ℕ, Bool, true, false, not, ◌&&◌, ◌||◌, Option, none, some, List, [], ◌∷◌, ◌++◌, map, String, ◌==◌,
  ◌<>◌, Floats, all, select, nonempty, or_else, strip, if◌then◌else◌, eqb,
}
use muto_rs_deployment_test.Result.{Result, ok, err, other, ◌>>=◌}
use muto_rs_deployment_test.Contracts.Board.{MissionBoard}
use muto_rs_deployment_test.Contracts.Evidence.{CandidateEvidence, candidate_evidence, no_report}
use muto_rs_deployment_test.Contracts.Request.{
  confirmation_matches_request, missing_request_match_terms, is_empty,
}
use muto_rs_deployment_test.Executive.ToolReport.{among}
use muto_rs_deployment_test.Tools.Json.{Json}
use muto_rs_deployment_test.Tools.Call.{ToolCall, ToolResult, tool_result}
use muto_rs_deployment_test.Tools.Dispatcher.{Operation}
use muto_rs_deployment_test.Backends.Authorities.{
  RegistrySnapshot, CandidateDecision, RegistryAuthority, Adapter,
}

-- the text of a token, which is made of letters of `[a-z0-9]`
abbrev letter_of : String → ℕ → String
letter_of String.[] c = String.[]
letter_of (String.◌∷◌ letter rest) c =
    let later = letter_of rest c in
    if eqb (code letter) c then String.◌∷◌ letter String.[] else later

abbrev token_text : List ℕ → String
token_text [] = ""
token_text (c ∷ cs) = letter_of "abcdefghijklmnopqrstuvwxyz0123456789" c <> token_text cs

-- `tuple(dict.fromkeys(values))`
abbrev pub unique : List String → List String → List String
unique seen [] = []
unique seen (v ∷ vs) =
    let again = unique seen vs in
    let new = v ∷ unique (v ∷ seen) vs in if among v seen then again else new

abbrev pub ids_of : {F : Type 0} → List (CandidateDecision F) → List String
ids_of decisions = map (λ d. d.candidate_id) decisions

-- `set(xs) == set(ys)`
abbrev pub same_set : List String → List String → Bool
same_set xs ys = all (λ x. among x ys) xs && all (λ y. among y xs) ys

abbrev pub put_first : String → Option (List String) → Option (List String)
put_first s none = none
put_first s (some ss) = some (s ∷ ss)

abbrev pub snapshot_ids : RegistrySnapshot → List String
snapshot_ids s = map (λ c. c.candidate_id) s.candidates

module _ {F : Type 0} where
  -- `_enforce_request_match`
  unfoldable pub enforce_request_match : String → CandidateDecision F → CandidateDecision F
  unfolding confirmation_matches_request missing_request_match_terms
  enforce_request_match object_request d =
      if not d.confirmed
      then d
      else if confirmation_matches_request object_request d.matched_attributes
          d.unmatched_attributes
      then d
      else let missing =
          map token_text (missing_request_match_terms object_request d.matched_attributes) in
        record d {
          confirmed = false;
          reason_code = "requested_attributes_unconfirmed";
          unmatched_attributes = unique [] (d.unmatched_attributes ++ missing);
        }

  -- The identifiers of a call, if all are of the snapshot. A list or a dictionary is no member of a
  -- set, and raises.
  abbrev pub scoped : List String → List (Json F) → Result (Option (List String))
  scoped allowed [] = ok (some [])
  scoped allowed (Json.text s ∷ ids) =
      let rest = scoped allowed ids >>= λ o. ok (put_first s o) in
      if among s allowed then rest else ok none
  scoped allowed (Json.array _ ∷ ids) = err (other "unhashable type: 'list'")
  scoped allowed (Json.object _ ∷ ids) = err (other "unhashable type: 'dict'")
  scoped allowed (_ ∷ ids) = ok none

  -- `object_request` of a call that names another one than the board
  abbrev pub mismatched : ToolCall F → MissionBoard F → Bool
  mismatched c b =
      nonempty c.object_request && not (strip c.object_request == strip b.object_request)

module _ {F : Type 0} ⦃fl : Floats F⦄ where
  -- `ToolResult(success, reason_code)`, with the defaults of its other fields
  abbrev pub plain_result : Bool → String → ToolResult F
  plain_result success reason = record {
    success = success;
    reason_code = reason;
    detail = "";
    candidate_ids = [];
    rejected_candidate_ids = [];
    confirmed_target_id = "";
    registry_revision = "";
    progress_delta = fl.zero_f;
    reachability = no_report;
    evidence = [];
  }

  -- `_candidate_evidence`
  unfoldable pub evidence_of : String → CandidateDecision F → Result (CandidateEvidence F)
  unfolding candidate_evidence
  evidence_of revision d = candidate_evidence (record {
    candidate_id = d.candidate_id;
    registry_revision = revision;
    evidence_id = d.evidence_id;
    source = d.source;
    confidence = some d.confidence;
    observed_at_s = if fl.eq_f d.observed_at_s fl.zero_f then none else some d.observed_at_s;
    reason_code = d.reason_code;
    matched_attributes = d.matched_attributes;
    unmatched_attributes = d.unmatched_attributes;
  })

  unfoldable pub evidence_of_all :
      String → List (CandidateDecision F) → Result (List (CandidateEvidence F))
  unfolding evidence_of
  evidence_of_all revision [] = ok []
  evidence_of_all revision (d ∷ ds) =
      let rest = evidence_of_all revision ds in
      evidence_of revision d >>= λ e. rest >>= λ es. ok (e ∷ es)

  -- what the decisions come to: from `confirmed = [...]` on
  abbrev pub verdict : List (CandidateDecision F) → Bool × (String × String)
  verdict [] = (false, ("candidate_rejected", ""))
  verdict (d ∷ []) = (true, ("candidate_confirmed", d.candidate_id))
  verdict (_ ∷ _ ∷ _) = (false, ("multiple_candidates_confirmed", ""))

  abbrev pub concluded :
      List String → String → List (CandidateDecision F) → List (CandidateEvidence F) → ToolResult F
  concluded requested revision decisions evidence =
      let found = verdict (select (λ d. d.confirmed) decisions) in
      record (plain_result found.0 found.1.0) {
        candidate_ids = requested;
        confirmed_target_id = found.1.1;
        rejected_candidate_ids = ids_of (select (λ d. not d.confirmed) decisions);
        registry_revision = revision;
        evidence = evidence;
      }

  unfoldable pub conclude :
      List String → String → List (CandidateDecision F) → Result (ToolResult F)
  unfolding evidence_of_all tool_result
  conclude requested revision decisions = evidence_of_all revision decisions >>= λ evidence.
      tool_result (concluded requested revision decisions evidence)

  -- from the decisions of the registry on
  unfoldable pub weigh :
      String → List String → String → List (CandidateDecision F) → Result (ToolResult F)
  unfolding conclude enforce_request_match tool_result
  weigh object_request requested revision decisions =
      if same_set (ids_of decisions) requested
      then conclude requested revision (map (enforce_request_match object_request) decisions)
      else tool_result (plain_result false "inspection_incomplete")

  -- the guards of `inspect_candidates` before the candidates are looked at
  unfoldable pub unavailable : ToolCall F → MissionBoard F → RegistrySnapshot → Option String
  unfolding strip
  unavailable c b s =
      if mismatched c b
      then some "object_request_mismatch"
      else if not s.checked || not (nonempty s.revision)
      then some "registry_snapshot_unavailable"
      else if not (nonempty c.registry_revision)
      then some "registry_revision_required"
      else if not (c.registry_revision == s.revision)
      then some "registry_revision_mismatch"
      else none

  -- `not requested or any(...)`: the identifiers of a call that may be inspected
  abbrev pub requested_ids : ToolCall F → RegistrySnapshot → Result (Option (List String))
  requested_ids c s =
      if is_empty c.candidate_ids then ok none else scoped (snapshot_ids s) c.candidate_ids

module _ {F W : Type 0} ⦃fl : Floats F⦄ (registry : RegistryAuthority F W) where
  abbrev pub checked_result : RegistrySnapshot → ToolResult F
  checked_result s =
      record (plain_result s.checked
        (if s.checked then "registry_checked" else "registry_unavailable")) {
          candidate_ids = snapshot_ids s;
          registry_revision = s.revision;
        }

  -- what a query leaves: the snapshot that the registry returned
  abbrev pub queried : Adapter W → Result RegistrySnapshot × W → Result (ToolResult F) × Adapter W
  queried a (err failure, w) = (err failure, record a { world = w })
  queried a (ok s, w) = (tool_result (checked_result s), record { snapshot = s; world = w })

  unfoldable pub query_registry : Operation F (Adapter W)
  unfolding strip tool_result
  query_registry c b a =
      if mismatched c b
      then (tool_result (plain_result false "object_request_mismatch"), a)
      else queried a (registry.query (or_else c.object_request b.object_request) b a.world)

  abbrev pub inspected :
      String
      → List String
      → Adapter W
      → Result (List (CandidateDecision F)) × W
      → Result (ToolResult F) × Adapter W
  inspected object_request requested a (err failure, w) = (err failure, record a { world = w })
  inspected object_request requested a (ok decisions, w) =
      (weigh object_request requested a.snapshot.revision decisions, record a { world = w })

  abbrev pub inspect_requested :
      ToolCall F
      → MissionBoard F
      → Adapter W
      → Result (Option (List String))
      → Result (ToolResult F) × Adapter W
  inspect_requested c b a (err failure) = (err failure, a)
  inspect_requested c b a (ok none) =
      (tool_result (plain_result false "candidate_not_in_snapshot"), a)
  inspect_requested c b a (ok (some requested)) =
      let object_request = or_else c.object_request b.object_request in
      inspected object_request requested a
        (registry.inspect object_request a.snapshot requested b a.world)

  -- from `if not self._snapshot.checked` on, with the reason that the guards give
  abbrev pub inspect_available :
      ToolCall F → MissionBoard F → Adapter W → Option String → Result (ToolResult F) × Adapter W
  inspect_available c b a (some reason) = (tool_result (plain_result false reason), a)
  inspect_available c b a none = inspect_requested c b a (requested_ids c a.snapshot)

  unfoldable pub inspect_candidates : Operation F (Adapter W)
  unfolding unavailable weigh tool_result
  inspect_candidates c b a = inspect_available c b a (unavailable c b a.snapshot)
