-- ===== src/Backends/Confirmed.antt =====
-- What a confirmation by `V2ToolBackend` rests on (backend_adapters.py, `inspect_candidates`).
use mathlib.Core.Path.{subst}
use muto_rs_deployment_test.Prelude.{
  true, Option, none, some, List, String, ◌==◌, Floats, nonempty, or_else, Bool-cases, ◌≡◌, refl,
  sym, inl, inr, arith,
}
use muto_rs_deployment_test.Result.{Result, ok, err}
use muto_rs_deployment_test.Contracts.Board.{MissionBoard}
use muto_rs_deployment_test.Contracts.Request.{is_empty}
use muto_rs_deployment_test.Executive.ToolReport.{among}
use muto_rs_deployment_test.Tools.Call.{ToolCall, ToolResult}
use muto_rs_deployment_test.Backends.Authorities.{
  RegistrySnapshot, CandidateDecision, RegistryAuthority, Adapter,
}
use muto_rs_deployment_test.Backends.Registry.{
  snapshot_ids, unavailable, requested_ids, inspected, inspect_requested, inspect_available,
  inspect_candidates,
}
use muto_rs_deployment_test.Backends.Weighed.{
  scoped-among, Confirms, refused-success, weigh-Confirms,
}

module _ {F W : Type 0} ⦃fl : Floats F⦄ (registry : RegistryAuthority F W) where
  inspect_available-facts :
      (c : ToolCall F) (b : MissionBoard F) (a : Adapter W)
      → unavailable c b a.snapshot ≡ none
      → (a.snapshot.checked ≡ true)
        × (nonempty a.snapshot.revision ≡ true)
        × ((c.registry_revision == a.snapshot.revision) ≡ true)
  unfolding unavailable
  inspect_available-facts c b a h = ground arith

  abbrev Inspects : String → List String → Adapter W → ToolResult F → Adapter W → Type 0
  Inspects request requested a r after =
      (after.snapshot ≡ a.snapshot) × Confirms request a.snapshot.revision requested r

  inspected-Inspects :
      (request : String) (requested : List String) (a : Adapter W)
      (outcome : Result (List (CandidateDecision F)) × W) (r : ToolResult F)
      → (inspected registry request requested a outcome).0 ≡ ok r
      → r.success ≡ true
      → Inspects request requested a r (inspected registry request requested a outcome).1
  inspected-Inspects request requested a (err failure, w) r h success = cc
  inspected-Inspects request requested a (ok ds, w) r h success =
      (refl, weigh-Confirms request requested a.snapshot.revision ds r h success)

  inspect_requested-Inspects :
      (c : ToolCall F) (b : MissionBoard F) (a : Adapter W) (ids : Result (Option (List String)))
      (r : ToolResult F)
      → (inspect_requested registry c b a ids).0 ≡ ok r
      → r.success ≡ true
      → (requested : List String) × (ids ≡ ok (some requested))
        × Inspects
            (or_else c.object_request b.object_request)
            requested
            a
            r
            (inspect_requested registry c b a ids).1
  inspect_requested-Inspects c b a (err failure) r h success = cc
  inspect_requested-Inspects c b a (ok none) r h success =
      absurd (ground (arith, success, refused-success "candidate_not_in_snapshot" r h))
  inspect_requested-Inspects c b a (ok (some requested)) r h success =
      let request = or_else c.object_request b.object_request in
      (
        requested,
        refl,
        inspected-Inspects request requested a
            (registry.inspect request a.snapshot requested b a.world) r h success,
      )

  inspect_available-none :
      (c : ToolCall F) (b : MissionBoard F) (a : Adapter W) (o : Option String) (r : ToolResult F)
      → (inspect_available registry c b a o).0 ≡ ok r
      → r.success ≡ true
      → o ≡ none
  inspect_available-none c b a none r h success = refl
  inspect_available-none c b a (some reason) r h success =
      absurd (ground (arith, success, refused-success reason r h))

  requested_ids-among :
      (c : ToolCall F) (s : RegistrySnapshot) (requested : List String) (id : String)
      → requested_ids c s ≡ ok (some requested)
      → among id requested ≡ true
      → among id (snapshot_ids s) ≡ true
  requested_ids-among c s requested id h m = elim (Bool-cases (is_empty c.candidate_ids)) [
    | inl e ↦ absurd (ground (arith, rw e at h))
    | inr e ↦ scoped-among (snapshot_ids s) c.candidate_ids requested id (rw e at h) m
  ]

  -- A successful inspection by the adapter keeps its snapshot, which is checked and of the revision
  -- that the call names, and that is not empty. The candidates of the result are texts of the call
  -- and of the snapshot, and the confirmed one is among them. Evidence of this candidate and of the
  -- revision of the snapshot is in the result, and satisfies the full-request predicate for the
  -- request that was inspected.
  pub inspect_candidates-Confirms :
      (c : ToolCall F) (b : MissionBoard F) (a : Adapter W) (r : ToolResult F)
      → (inspect_candidates registry c b a).0 ≡ ok r
      → r.success ≡ true
      → ((inspect_candidates registry c b a).1.snapshot ≡ a.snapshot)
        × (a.snapshot.checked ≡ true)
        × (nonempty a.snapshot.revision ≡ true)
        × ((c.registry_revision == a.snapshot.revision) ≡ true)
        × ((requested : List String) × (requested_ids c a.snapshot ≡ ok (some requested))
            × Confirms (or_else c.object_request b.object_request) a.snapshot.revision requested r
            × ((id : String)
                → among id requested ≡ true
                → among id (snapshot_ids a.snapshot) ≡ true))
  unfolding inspect_candidates
  inspect_candidates-Confirms c b a r h success =
      let free = inspect_available-none c b a (unavailable c b a.snapshot) r h success in
      let (checked, revised, revision_is) = inspect_available-facts c b a free in
      let (requested, requested_is, (kept, confirms)) =
        inspect_requested-Inspects c b a (requested_ids c a.snapshot) r
          (subst (λ (o : Option String). (inspect_available registry c b a o).0 ≡ ok r) free h)
          success in
      (
        subst (λ (o : Option String). (inspect_available registry c b a o).1.snapshot ≡ a.snapshot)
            (sym free) kept,
        checked,
        revised,
        revision_is,
        (
          requested,
          requested_is,
          confirms,
          λ id m. requested_ids-among c a.snapshot requested id requested_is m,
        ),
      )
