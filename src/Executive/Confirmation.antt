-- ===== src/Executive/Confirmation.antt =====
-- How a target comes to be confirmed (executive.py, `record_tool_result`; contracts.py,
-- `confirmation_matches_request`): only by evidence for the whole request.
use muto_rs_deployment_test.Prelude.{
  Bool, true, false, not, Option, none, some, List, [], ◌∷◌, String, ◌==◌, eq_iff, Floats, ◌≡◌, ◌≢◌,
  refl, sym, ◌∙◌, ap, arith, ◌⊎◌, inl, inr, nonempty, any, find_first, Bool-cases,
}
use mathlib.Core.Bool.{false≢true}
use muto_rs_deployment_test.Result.{ok}
use muto_rs_deployment_test.Contracts.{LifecycleState, ToolName}
use muto_rs_deployment_test.Contracts.Evidence.{CandidateEvidence}
use muto_rs_deployment_test.Contracts.Request.{confirmation_matches_request}
use muto_rs_deployment_test.Contracts.Board.{MissionBoard}
use muto_rs_deployment_test.Executive.State.{MissionExecutive}
use muto_rs_deployment_test.Executive.ToolReport.{
  ToolReport, Selection, is_inspect, among, outside_shortlist, check_report, stale_reason, is_match,
  initial_selection, refresh_selection, query_selection, tool_selection, reject_candidates,
  reconcile,
}
use muto_rs_deployment_test.Executive.ToolResult.{result_board}
use muto_rs_deployment_test.Executive.Calls.{Call, perform}
use muto_rs_deployment_test.Executive.Steps.{Step}
use muto_rs_deployment_test.Executive.Simulation.{perform-Step}
use muto_rs_deployment_test.Executive.Selection.{
  IsConfirmation, reconcile-cases, reject_candidates-target,
}
use muto_rs_deployment_test.Executive.Soundness.{check_report-facts}

find_first-passes {ℓ} :
    {A : Type ℓ} (p : A → Bool) (xs : List A) {x : A} → find_first p xs ≡ some x → p x ≡ true
find_first-passes p [] h = cc
find_first-passes p (y ∷ ys) {x} h = ground (arith, find_first-passes p ys {x = x})

-- A text among those of which none passes a test does not pass it.
any-false-among :
    (p : String → Bool) (x : String) (xs : List String)
    → any p xs ≡ false
    → among x xs ≡ true
    → p x ≡ false
any-false-among p x [] h m = cc
any-false-among p x (y ∷ ys) h m = elim (Bool-cases (y == x)) [
  | inl e ↦ rw (sym ((eq_iff y x).0 e)) (ground arith)
  | inr e ↦ any-false-among p x ys (ground arith) (rw e at m)
]

module _ {F : Type 0} where
  -- Why a board names a target: an inspection of the current shortlist succeeded, and showed evidence
  -- of this candidate, of the registry revision of the board, for every word of the request.
  pub record IsConfirmedBy (b : MissionBoard F) (r : ToolReport F) (e : CandidateEvidence F)
      : Type 0 where
    pub running : b.lifecycle_state ≡ LifecycleState.running
    pub succeeded : r.success ≡ true
    pub inspects : is_inspect r.tool ≡ true
    pub shortlisted : among r.confirmed_target_id b.shortlisted_candidate_ids ≡ true
    pub first_match : find_first (is_match b r) r.evidence ≡ some e
    pub of_candidate : e.candidate_id ≡ r.confirmed_target_id
    pub of_registry : e.registry_revision ≡ b.registry_revision
    pub matches :
        confirmation_matches_request b.object_request e.matched_attributes e.unmatched_attributes
        ≡ true

  fresh_inspection :
      (b : MissionBoard F) (r : ToolReport F)
      → is_inspect r.tool ≡ true
      → nonempty r.registry_revision ≡ true
      → stale_reason b r ≡ none
      → ((r.registry_revision == b.registry_revision) ≡ true) × (outside_shortlist b r ≡ false)
  unfolding stale_reason
  fresh_inspection b r inspects registry fresh = ground arith

  inspected_shortlisted :
      (b : MissionBoard F) (r : ToolReport F)
      → outside_shortlist b r ≡ false
      → among r.confirmed_target_id r.candidate_ids ≡ true
      → among r.confirmed_target_id b.shortlisted_candidate_ids ≡ true
  inspected_shortlisted b r inside m = ground (
    arith,
    any-false-among (λ c. not (among c b.shortlisted_candidate_ids)) r.confirmed_target_id
        r.candidate_ids,
  )

  -- A selection either keeps the board's target, has none, or is confirmed by this result.
  tool_selection-target :
      (t : ToolName) (b : MissionBoard F) (r : ToolReport F) (sel : Selection F) {out : Selection F}
      → tool_selection t b r sel ≡ ok out
      → (out.target ≡ sel.target) ⊎ (out.target ≡ "")
  unfolding tool_selection query_selection refresh_selection
  tool_selection-target t b r sel e = ground arith

  initial_selection-target_cases :
      (b : MissionBoard F) (r : ToolReport F)
      → ((initial_selection b r).target ≡ b.confirmed_target_id)
        ⊎ ((initial_selection b r).target ≡ "")
  unfolding initial_selection
  initial_selection-target_cases b r = ground arith

  kept-target :
      (b : MissionBoard F) (r : ToolReport F) (first sel : Selection F)
      → tool_selection r.tool b r (initial_selection b r) ≡ ok first
      → sel ≡ reject_candidates r.rejected_candidate_ids first
      → (sel.target ≡ b.confirmed_target_id) ⊎ (sel.target ≡ "")
  kept-target b r first sel chosen same = ground (
    arith,
    reject_candidates-target r.rejected_candidate_ids first,
    tool_selection-target r.tool b r (initial_selection b r) {out = first} chosen,
    initial_selection-target_cases b r,
  )

  matched-some :
      (m : Option (CandidateEvidence F)) → m ≢ none → (e : CandidateEvidence F) × (m ≡ some e)
  matched-some none h = absurd (h refl)
  matched-some (some e) h = (e, refl)

module _ {F : Type 0} ⦃fl : Floats F⦄ where
  confirmation-IsConfirmedBy :
      (b : MissionBoard F) (r : ToolReport F) (out : Selection F)
      → check_report b r ≡ ok tt
      → stale_reason b r ≡ none
      → IsConfirmation b r out
      → (e : CandidateEvidence F) × IsConfirmedBy b r e
  confirmation-IsConfirmedBy b r out good fresh c =
      let (e, is_e) = matched-some out.matching c.matched in
      let (same, inside) = fresh_inspection b r c.inspects c.registry fresh in
      let passes = find_first-passes (is_match b r) r.evidence {x = e} (c.found ∙ is_e) in
      (
        e,
        record {
          running = (check_report-facts b r good).0;
          succeeded = c.succeeded;
          inspects = c.inspects;
          shortlisted = inspected_shortlisted b r inside c.inspected;
          first_match = c.found ∙ is_e;
          of_candidate = ground (arith, passes, eq_iff e.candidate_id r.confirmed_target_id);
          of_registry = ground (
            arith,
            passes,
            same,
            eq_iff e.registry_revision r.registry_revision,
            eq_iff r.registry_revision b.registry_revision,
          );
          matches = ground (arith, passes);
        },
      )

  -- What a call that names a new target must have been.
  abbrev pub NamesTarget : Call F → MissionBoard F → String → Type 0
  NamesTarget c b target =
      (r : ToolReport F) × (e : CandidateEvidence F) × (c ≡ Call.record_tool_result r)
      × IsConfirmedBy b r e
      × (target ≡ r.confirmed_target_id)

  report-target :
      (b : MissionBoard F) (r : ToolReport F) (sel : Selection F)
      → check_report b r ≡ ok tt
      → stale_reason b r ≡ none
      → reconcile b r ≡ ok sel
      → (sel.target ≡ b.confirmed_target_id)
        ⊎ (sel.target ≡ "")
        ⊎ NamesTarget (Call.record_tool_result r) b sel.target
  report-target b r sel good fresh e =
      let (first, chosen, rest) = reconcile-cases b r {out = sel} e in
      elim rest [
        | inl (named, c) ↦
            (let (proof, by) = confirmation-IsConfirmedBy b r sel good fresh c in
              inr (inr (r, proof, refl, by, c.target)))
        | inr (unnamed, same) ↦ elim (kept-target b r first sel chosen same) [
          | inl k ↦ inl k
          | inr k ↦ inr (inl k)
        ]
      ]

  Step-target :
      {c : Call F} {b b' : MissionBoard F}
      → Step c b b'
      → (b'.confirmed_target_id ≡ b.confirmed_target_id)
        ⊎ (b'.confirmed_target_id ≡ "")
        ⊎ NamesTarget c b b'.confirmed_target_id
  Step-target Step.stays = inl refl
  Step-target (Step.notes same) = inl same.target
  Step-target (Step.accepts a policy scenario number free) = inr (inl refl)
  Step-target (Step.starts live) = inl refl
  Step-target (Step.selects k run e) = inl refl
  Step-target (Step.requests tool detail run e) = inl refl
  Step-target (Step.goes_stale r good) = inl refl
  Step-target (Step.reports {b} r sel good fresh e) =
      unfold result_board in report-target b r sel good fresh e
  Step-target (Step.completes c e) = inl refl
  Step-target (Step.cancels reason live) = inl refl
  Step-target (Step.fails reason live) = inl refl

  -- A call after which the board names a target that it did not name before is the record of a tool
  -- result in a running mission: a successful inspection of a candidate of the current shortlist, whose
  -- evidence is of that candidate and of the board's registry revision, and satisfies the full-request
  -- predicate. The new target is the candidate that the result confirms.
  pub perform-NamesTarget :
      (c : Call F) (s : MissionExecutive F)
      → nonempty (perform c s).1.board.confirmed_target_id ≡ true
      → (perform c s).1.board.confirmed_target_id ≢ s.board.confirmed_target_id
      → NamesTarget c s.board (perform c s).1.board.confirmed_target_id
  perform-NamesTarget c s named new = elim (Step-target (perform-Step c s)) [
    | inl old ↦ absurd (new old)
    | inr (inl empty) ↦ absurd (false≢true (ap nonempty (sym empty) ∙ named))
    | inr (inr by) ↦ by
  ]
