-- ===== src/Backends/Weighed.antt =====
-- What the decisions on inspected candidates come to (backend_adapters.py, the end of
-- `inspect_candidates`): a success has the evidence of one confirmed candidate.
use mathlib.Core.List.{Memᴰ}
use mathlib.Core.List.Memᴰ
use mathlib.Core.Path.{subst}
use muto_rs_deployment_test.Prelude.{
  Bool, true, false, some, List, [], ◌∷◌, map, String, ◌==◌, eq_iff, eq_refl, Floats, all, select,
  Bool-cases, Option-cases, ◌≡◌, refl, sym, ap, ◌∙◌, inl, inr, arith,
}
use muto_rs_deployment_test.Result.{ok, ok-injective, ◌>>=◌, sequence-returns}
use muto_rs_deployment_test.Contracts.Evidence.{CandidateEvidence, string_tuple}
use muto_rs_deployment_test.Contracts.Request.{confirmation_matches_request}
use muto_rs_deployment_test.Executive.ToolReport.{among}
use muto_rs_deployment_test.Tools.Json.{Json}
use muto_rs_deployment_test.Tools.Call.{ToolResult, tool_result}
use muto_rs_deployment_test.Backends.Authorities.{CandidateDecision}
use muto_rs_deployment_test.Backends.Registry.{
  ids_of, same_set, enforce_request_match, scoped, put_first, plain_result, evidence_of,
  evidence_of_all, verdict, concluded, conclude, weigh,
}
use muto_rs_deployment_test.Backends.Attributes.{confirmation_matches_request-string_tuple}

all-among :
    (xs ys : List String) (x : String)
    → all (λ y. among y ys) xs ≡ true
    → among x xs ≡ true
    → among x ys ≡ true
all-among [] ys x h m = cc
all-among (z ∷ zs) ys x h m = elim (Bool-cases (z == x)) [
  | inl e ↦ subst (λ (w : String). among w ys ≡ true) ((eq_iff z x).0 e) (ground arith)
  | inr e ↦ all-among zs ys x (ground arith) (rw e at m)
]

pub scoped-among :
    {F : Type 0} (allowed : List String) (ids : List (Json F)) (ss : List String) (s : String)
    → scoped allowed ids ≡ ok (some ss)
    → among s ss ≡ true
    → among s allowed ≡ true
scoped-among allowed [] ss s h m = ground (arith, h, m)
scoped-among allowed (Json.text t ∷ ids) ss s h m = elim (Bool-cases (among t allowed)) [
  | inr e ↦ absurd (ground (arith, rw e at h))
  | inl e ↦
      let (o, o_is, made) =
        sequence-returns (scoped allowed ids) (λ o. ok (put_first t o)) (rw e at h) in
      elim (Option-cases o) [
        | inl none_is ↦
            absurd (ground (arith, subst (λ o. ok (put_first t o) ≡ ok (some ss)) none_is made))
        | inr (rest, some_is) ↦
            let whole = subst (λ o. ok (put_first t o) ≡ ok (some ss)) some_is made in
            let first : among s (t ∷ rest) ≡ true = ground (arith, whole, m) in
            elim (Bool-cases (t == s)) [
              | inl same ↦ subst (λ (w : String). among w allowed ≡ true) ((eq_iff t s).0 same) e
              | inr other ↦
                  scoped-among allowed ids rest s (o_is ∙ ap ok some_is) (rw other at first)
            ]
      ]
]
scoped-among allowed (Json.array _ ∷ ids) ss s h m = cc
scoped-among allowed (Json.object _ ∷ ids) ss s h m = cc
scoped-among allowed (_ ∷ ids) ss s h m = cc

module _ {F : Type 0} ⦃fl : Floats F⦄ where
  -- The evidence of a confirmed candidate shows the whole request.
  pub record IsShown (request revision target : String) (evidence : List (CandidateEvidence F))
      : Type 0 where
    pub shown : CandidateEvidence F
    pub member : Memᴰ shown evidence
    pub of_candidate : shown.candidate_id ≡ target
    pub of_revision : shown.registry_revision ≡ revision
    pub matches :
        confirmation_matches_request request shown.matched_attributes shown.unmatched_attributes
        ≡ true

  -- A decision that is confirmed after the check of the request satisfies it.
  enforced :
      (request : String) (d : CandidateDecision F)
      → (enforce_request_match request d).confirmed ≡ true
      → (enforce_request_match request d ≡ d)
        × (confirmation_matches_request request d.matched_attributes d.unmatched_attributes ≡ true)
  unfolding enforce_request_match
  enforced request d h = ground arith

  enforce-id :
      (request : String) (d : CandidateDecision F)
      → (enforce_request_match request d).candidate_id ≡ d.candidate_id
  unfolding enforce_request_match
  enforce-id request d = ground arith

  select-member :
      (p : CandidateDecision F → Bool) (ds : List (CandidateDecision F)) (d : CandidateDecision F)
      → Memᴰ d (select p ds)
      → Memᴰ d ds × (p d ≡ true)
  select-member p [] d h = absurd (Memᴰ.not-nil h)
  select-member p (x ∷ ds) d h = elim (Bool-cases (p x)) [
    | inr e ↦ let (m, t) = select-member p ds d (rw e at h) in (Memᴰ.tail m, t)
    | inl e ↦ elim (Memᴰ.cases_cons (rw e at h)) [
      | inl same ↦ (Memᴰ.head same, rw same e)
      | inr m ↦ let (n, t) = select-member p ds d m in (Memᴰ.tail n, t)
    ]
  ]

  evidence_of-fields :
      (revision : String) (d : CandidateDecision F) (e : CandidateEvidence F)
      → evidence_of revision d ≡ ok e
      → (e.candidate_id ≡ d.candidate_id)
        × (e.registry_revision ≡ revision)
        × (e.matched_attributes ≡ string_tuple d.matched_attributes)
        × (e.unmatched_attributes ≡ string_tuple d.unmatched_attributes)
  unfolding evidence_of
  evidence_of-fields revision d e h = ground arith

  evidence_of_all-member :
      (revision : String) (ds : List (CandidateDecision F)) (d : CandidateDecision F)
      (es : List (CandidateEvidence F))
      → Memᴰ d ds
      → evidence_of_all revision ds ≡ ok es
      → (e : CandidateEvidence F) × Memᴰ e es × (evidence_of revision d ≡ ok e)
  unfolding evidence_of_all
  evidence_of_all-member revision [] d es m h = absurd (Memᴰ.not-nil m)
  evidence_of_all-member revision (x ∷ ds) d es m h =
      let (e, first, more) =
        sequence-returns (evidence_of revision x)
          (λ e. evidence_of_all revision ds >>= λ es. ok (e ∷ es)) h in
      let (rest, others, made) =
        sequence-returns (evidence_of_all revision ds) (λ es. ok (e ∷ es)) more in
      elim (Memᴰ.cases_cons m) [
        | inl same ↦ (e, rw (sym (ok-injective made)) (Memᴰ.head refl), rw same first)
        | inr later ↦
            let (f, n, k) = evidence_of_all-member revision ds d rest later others in
            (f, rw (sym (ok-injective made)) (Memᴰ.tail n), k)
      ]

  ids-among :
      (ds : List (CandidateDecision F)) (d : CandidateDecision F)
      → Memᴰ d ds
      → among d.candidate_id (ids_of ds) ≡ true
  ids-among [] d m = absurd (Memᴰ.not-nil m)
  ids-among (x ∷ ds) d m = elim (Memᴰ.cases_cons m) [
    | inl same ↦
        ground
          (arith, ap (λ (d : CandidateDecision F). d.candidate_id) same, eq_refl x.candidate_id)
    | inr later ↦ ground (arith, ids-among ds d later)
  ]

  map-member :
      (f : CandidateDecision F → CandidateDecision F) (ds : List (CandidateDecision F))
      (d : CandidateDecision F)
      → Memᴰ d (map f ds)
      → (x : CandidateDecision F) × Memᴰ x ds × (d ≡ f x)
  map-member f [] d m = absurd (Memᴰ.not-nil m)
  map-member f (x ∷ ds) d m = elim (Memᴰ.cases_cons m) [
    | inl same ↦ (x, Memᴰ.head refl, same)
    | inr later ↦ let (y, n, e) = map-member f ds d later in (y, Memᴰ.tail n, e)
  ]

  verdict-success :
      (ds : List (CandidateDecision F))
      → (verdict ds).0 ≡ true
      → (d : CandidateDecision F) × Memᴰ d ds × ((verdict ds).1.1 ≡ d.candidate_id)
  verdict-success [] h = cc
  verdict-success (d ∷ []) h = (d, Memᴰ.head refl, refl)
  verdict-success (_ ∷ _ ∷ _) h = cc

  tool_result-same : (made r : ToolResult F) → tool_result made ≡ ok r → made ≡ r
  unfolding tool_result
  tool_result-same made r h = ground arith

  -- One decision is behind a successful conclusion, with its evidence.
  conclude-success :
      (requested : List String) (revision : String) (ds : List (CandidateDecision F))
      (r : ToolResult F)
      → conclude requested revision ds ≡ ok r
      → r.success ≡ true
      → (d : CandidateDecision F) × (e : CandidateEvidence F) × Memᴰ d ds
        × (d.confirmed ≡ true)
        × (r.confirmed_target_id ≡ d.candidate_id)
        × (r.candidate_ids ≡ requested)
        × (r.registry_revision ≡ revision)
        × Memᴰ e r.evidence
        × (evidence_of revision d ≡ ok e)
  unfolding conclude
  conclude-success requested revision ds r h success =
      let (evidence, collected, made) =
        sequence-returns (evidence_of_all revision ds)
          (λ evidence. tool_result (concluded requested revision ds evidence)) h in
      let same = tool_result-same (concluded requested revision ds evidence) r made in
      let (d, chosen, named) =
        verdict-success (select (λ d. d.confirmed) ds)
          (ap (λ (r : ToolResult F). r.success) same ∙ success) in
      let (member, confirmed) = select-member (λ d. d.confirmed) ds d chosen in
      let (e, shown, made_of) = evidence_of_all-member revision ds d evidence member collected in
      (
        d,
        e,
        member,
        confirmed,
        sym (ap (λ (r : ToolResult F). r.confirmed_target_id) same) ∙ named,
        sym (ap (λ (r : ToolResult F). r.candidate_ids) same),
        sym (ap (λ (r : ToolResult F). r.registry_revision) same),
        subst (λ (r : ToolResult F). Memᴰ e r.evidence) same shown,
        made_of,
      )

  -- What the result of an inspection of some candidates rests on, where it is a success.
  pub record Confirms (request revision : String) (requested : List String) (r : ToolResult F)
      : Type 0 where
    pub inspected_is : r.candidate_ids ≡ requested
    pub revision_is : r.registry_revision ≡ revision
    pub inspected_target : among r.confirmed_target_id requested ≡ true
    pub evidence_is : IsShown request revision r.confirmed_target_id r.evidence

  pub refused-success :
      (reason : String) (r : ToolResult F)
      → tool_result (plain_result false reason) ≡ ok r
      → r.success ≡ false
  refused-success reason r h =
      sym (ap (λ (r : ToolResult F). r.success) (tool_result-same (plain_result false reason) r h))

  -- The evidence of a confirmed decision shows what the decision shows.
  shown-matches :
      (request revision : String) (d : CandidateDecision F) (e : CandidateEvidence F)
      → evidence_of revision d ≡ ok e
      → confirmation_matches_request request d.matched_attributes d.unmatched_attributes ≡ true
      → confirmation_matches_request request e.matched_attributes e.unmatched_attributes ≡ true
  shown-matches request revision d e made h =
      let (_, _, matched, unmatched) = evidence_of-fields revision d e made in
      rw
        (
          matched,
          unmatched,
          confirmation_matches_request-string_tuple request d.matched_attributes
              d.unmatched_attributes,
        )
        h

  pub weigh-Confirms :
      (request : String) (requested : List String) (revision : String)
      (ds : List (CandidateDecision F)) (r : ToolResult F)
      → weigh request requested revision ds ≡ ok r
      → r.success ≡ true
      → Confirms request revision requested r
  unfolding weigh
  weigh-Confirms request requested revision ds r h success =
      elim (Bool-cases (same_set (ids_of ds) requested)) [
        | inr e ↦
            absurd (ground (arith, success, refused-success "inspection_incomplete" r (rw e at h)))
        | inl e ↦
            let (d, shown, member, confirmed, named, inspected_is, revision_is, in_evidence, made) =
              conclude-success requested revision (map (enforce_request_match request) ds) r
                (rw e at h) success in
            let (x, from, d_is) = map-member (enforce_request_match request) ds d member in
            let (kept, matches) =
              enforced request x
                (sym (ap (λ (d : CandidateDecision F). d.confirmed) d_is) ∙ confirmed) in
            let same = d_is ∙ kept in
            let (of_candidate, of_revision, _, _) = evidence_of-fields revision d shown made in
            record {
              inspected_is = inspected_is;
              revision_is = revision_is;
              inspected_target =
                  subst (λ (id : String). among id requested ≡ true)
                    (sym (named ∙ ap (λ (d : CandidateDecision F). d.candidate_id) same))
                    (all-among (ids_of ds) requested x.candidate_id (ground (arith, e))
                      (ids-among ds x from));
              evidence_is = record {
                shown = shown;
                member = in_evidence;
                of_candidate = of_candidate ∙ sym named;
                of_revision = of_revision;
                matches = shown-matches request revision d shown made (
                    subst
                      (λ (d : CandidateDecision F).
                        confirmation_matches_request request d.matched_attributes
                          d.unmatched_attributes
                        ≡ true)
                      (sym same) matches);
              };
            }
      ]
