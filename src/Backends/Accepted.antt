-- ===== src/Backends/Accepted.antt =====
-- What the executive makes of an inspection by the adapter (backend_adapters.py,
-- `inspect_candidates`, and executive.py, `record_tool_result`).
use mathlib.Core.List.{Memᴰ}
use mathlib.Core.List.Memᴰ
use muto_rs_deployment_test.Prelude.{
  Bool, true, false, not, ◌&&◌, any, none, some, List, [], ◌∷◌, String, ◌==◌, eq_iff, Floats,
  nonempty, or_else, remove_first, if-cases, find_first, Bool-cases, ◌≡◌, refl, sym, ap, ◌∙◌, ◌⊎◌,
  inl, inr, arith,
}
use mathlib.Core.Path.{subst}
use muto_rs_deployment_test.Result.{ok}
use muto_rs_deployment_test.Contracts.{ToolName, SkillName, LifecycleState}
use muto_rs_deployment_test.Contracts.Board.{MissionBoard, evolved, valid_board}
use muto_rs_deployment_test.Contracts.Evidence.{CandidateEvidence, nonnegative_finite}
use muto_rs_deployment_test.Contracts.Request.{confirmation_matches_request}
use muto_rs_deployment_test.Executive.ToolReport.{
  ToolReport, Selection, is_inspect, is_match, among, revision_changed, confirm_matching,
  confirm_target, outside_shortlist, stale_reason, tool_selection, initial_selection,
  reject_candidates, reconcile, check_report,
}
use muto_rs_deployment_test.Executive.State.{MissionExecutive}
use muto_rs_deployment_test.Executive.ToolResult.{result_board, accept_result, record_tool_result}
use muto_rs_deployment_test.Executive.Rules.{evolve_board-valid}
use muto_rs_deployment_test.Executive.Simulation.{emit_result-board}
use muto_rs_deployment_test.Backends.Weighed.{Confirms}
use muto_rs_deployment_test.Tools.Call.{ToolCall, ToolResult}
use muto_rs_deployment_test.Runtime.Rounds.{report_of}
use muto_rs_deployment_test.Backends.Authorities.{RegistryAuthority, Adapter}
use muto_rs_deployment_test.Backends.Registry.{inspect_candidates}
use muto_rs_deployment_test.Backends.Confirmed.{inspect_candidates-Confirms}

-- A search finds something if there is something to find.
find_first-member {ℓ} :
    {A : Type ℓ} (p : A → Bool) (xs : List A) (x : A)
    → Memᴰ x xs
    → p x ≡ true
    → (y : A) × (find_first p xs ≡ some y)
find_first-member p [] x m h = absurd (Memᴰ.not-nil m)
find_first-member p (z ∷ zs) x m h = elim (Bool-cases (p z)) [
  | inl e ↦ (z, rw e refl)
  | inr e ↦ elim (Memᴰ.cases_cons m) [
    | inl same ↦ absurd (ground (arith, ap p same, e, h))
    | inr later ↦ let (y, found) = find_first-member p zs x later h in (y, rw e found)
  ]
]

both_true : {p q : Bool} → p ≡ true → q ≡ true → (p && q) ≡ true
both_true h k = rw (h, k) refl

or_else-request :
    (called request : String)
    → (called ≡ request) ⊎ (called ≡ "")
    → or_else called request ≡ request
or_else-request called request (inl e) =
    if-cases (λ (s : String). s ≡ request) (nonempty called) (λ _. e) (λ _. refl)
or_else-request called request (inr e) = rw e refl

shortlisted :
    (shortlist ids : List String)
    → any (λ c. not (among c shortlist)) ids ≡ false
    → any (λ c. nonempty c && not (among c shortlist)) ids ≡ false
shortlisted shortlist [] h = refl
shortlisted shortlist (c ∷ cs) h = ground (arith, shortlisted shortlist cs)

module _ {F : Type 0} where
  abbrev confirming : ToolReport F → Selection F → CandidateEvidence F → Selection F
  confirming r before e = record before {
    target = r.confirmed_target_id;
    confirmed_revision = r.registry_revision;
    rejected = remove_first (λ y. y == r.confirmed_target_id) before.rejected;
    matching = some e;
  }

  confirm_target-accepts :
      (b : MissionBoard F) (r : ToolReport F) (before : Selection F) (e : CandidateEvidence F)
      → (r.success && is_inspect r.tool) ≡ true
      → among r.confirmed_target_id r.candidate_ids ≡ true
      → revision_changed b r ≡ false
      → nonempty r.registry_revision ≡ true
      → find_first (is_match b r) r.evidence ≡ some e
      → confirm_target b r before ≡ ok (confirming r before e)
  unfolding confirm_target confirm_matching
  confirm_target-accepts b r before e p q same revised found = rw (p, q, same, revised, found) refl

  same-unchanged :
      (b : MissionBoard F) (r : ToolReport F)
      → r.registry_revision ≡ b.registry_revision
      → revision_changed b r ≡ false
  same-unchanged b r e = ground (arith, eq_iff r.registry_revision b.registry_revision, e)

  -- what an inspection that is not stale shows of the board
  fresh-facts :
      (b : MissionBoard F) (r : ToolReport F)
      → is_inspect r.tool ≡ true
      → nonempty r.registry_revision ≡ true
      → stale_reason b r ≡ none
      → (r.registry_revision ≡ b.registry_revision) × (outside_shortlist b r ≡ false)
  unfolding stale_reason
  fresh-facts b r inspects revised fresh =
      ground (arith, fresh, eq_iff r.registry_revision b.registry_revision)

  inspection-stays :
      (t : ToolName) (b : MissionBoard F) (r : ToolReport F)
      → is_inspect t ≡ true
      → revision_changed b r ≡ false
      → outside_shortlist b r ≡ false
      → tool_selection t b r (initial_selection b r) ≡ ok (initial_selection b r)
  unfolding tool_selection initial_selection
  inspection-stays ToolName.inspect_candidates b r inspects same inside =
      rw (same, shortlisted b.shortlisted_candidate_ids r.candidate_ids (ground (arith, inside)))
        refl
  inspection-stays ToolName.query_registry b r inspects same inside =
      absurd (ground (arith, inspects))
  inspection-stays ToolName.observe b r inspects same inside = absurd (ground (arith, inspects))
  inspection-stays ToolName.rotate_to_heading b r inspects same inside =
      absurd (ground (arith, inspects))
  inspection-stays ToolName.go_to_point b r inspects same inside = absurd (ground (arith, inspects))

  reconcile-accepts :
      (b : MissionBoard F) (r : ToolReport F)
      → is_inspect r.tool ≡ true
      → revision_changed b r ≡ false
      → outside_shortlist b r ≡ false
      → nonempty r.confirmed_target_id ≡ true
      → ((before : Selection F)
          → (e : CandidateEvidence F) × (confirm_target b r before ≡ ok (confirming r before e)))
      → (out : Selection F) × (reconcile b r ≡ ok out)
        × (out.target ≡ r.confirmed_target_id)
        × (out.confirmed_revision ≡ r.registry_revision)
  unfolding reconcile
  reconcile-accepts b r inspects same inside named accepts =
      let left = reject_candidates r.rejected_candidate_ids (initial_selection b r) in
      let (e, accepted) = accepts left in
      (
        confirming r left e,
        rw (inspection-stays r.tool b r inspects same inside, named) accepted,
        refl,
        refl,
      )

module _ {F : Type 0} ⦃fl : Floats F⦄ where
  search-passes :
      (b : MissionBoard F) (r : ToolReport F)
      → r.tool ≡ ToolName.inspect_candidates
      → b.lifecycle_state ≡ LifecycleState.running
      → b.active_skill ≡ some SkillName.search_for_object
      → fl.lt_f r.progress_delta fl.zero_f ≡ false
      → check_report b r ≡ ok tt
  unfolding check_report
  search-passes b r tool_is running search forward =
      ground (arith, tool_is, running, search, forward)

  result_board-valid :
      (b : MissionBoard F) (r : ToolReport F) (sel : Selection F)
      → b.active_skill ≡ some SkillName.search_for_object
      → valid_board b ≡ true
      → nonnegative_finite (fl.add_f b.search_progress r.progress_delta) ≡ true
      → valid_board (evolved b (result_board b r sel)) ≡ true
  unfolding result_board
  result_board-valid b r sel search valid sum = rw search (ground (arith, valid, sum))

  -- The board that a result which is accepted leaves, whatever its events raise.
  record_tool_result-accepts :
      (r : ToolReport F) (s : MissionExecutive F) (sel : Selection F)
      → check_report s.board r ≡ ok tt
      → stale_reason s.board r ≡ none
      → reconcile s.board r ≡ ok sel
      → valid_board (evolved s.board (result_board s.board r sel)) ≡ true
      → (record_tool_result r s).1.board ≡ evolved s.board (result_board s.board r sel)
  unfolding record_tool_result accept_result
  record_tool_result-accepts r s sel passes fresh chosen valid =
      rw (passes, fresh, chosen, evolve_board-valid (result_board s.board r sel) s valid)
        (emit_result-board r sel _)

  -- The evidence of the adapter is found by the executive.
  evidence-found :
      (c : ToolCall F) (b : MissionBoard F) (r : ToolResult F) (revision : String)
      (requested : List String)
      → (c.object_request ≡ b.object_request) ⊎ (c.object_request ≡ "")
      → Confirms (or_else c.object_request b.object_request) revision requested r
      → (e : CandidateEvidence F) × (find_first (is_match b (report_of c r)) r.evidence ≡ some e)
  evidence-found c b r revision requested request_is confirms =
      let shown = confirms.evidence_is in
      let report = report_of c r in
      let request = or_else-request c.object_request b.object_request request_is in
      let matched : is_match b report shown.shown ≡ true =
        both_true ((eq_iff shown.shown.candidate_id r.confirmed_target_id).1 shown.of_candidate) (
          both_true
            ((eq_iff shown.shown.registry_revision r.registry_revision).1
              (shown.of_revision ∙ sym confirms.revision_is))
            (subst
              (λ (request : String).
                confirmation_matches_request request shown.shown.matched_attributes
                  shown.shown.unmatched_attributes
                ≡ true)
              request shown.matches)) in
      find_first-member (is_match b report) r.evidence shown.shown shown.member matched

module _ {F W : Type 0} ⦃fl : Floats F⦄ (registry : RegistryAuthority F W) where
  -- A successful inspection of the adapter, for a mission that runs its search, that names a target
  -- and no other request than the mission's, and whose record the executive does not find stale:
  -- recording it makes the board name the target of the result, with a confirmation of the revision
  -- that the board shows, whatever the target was before and whatever the events raise. The board is
  -- assumed valid, also with the progress of the result, which is not negative.
  pub inspect_candidates-IsAccepted :
      (c : ToolCall F) (s : MissionExecutive F) (a : Adapter W) (r : ToolResult F)
      → c.tool ≡ ToolName.inspect_candidates
      → (c.object_request ≡ s.board.object_request) ⊎ (c.object_request ≡ "")
      → (inspect_candidates registry c s.board a).0 ≡ ok r
      → r.success ≡ true
      → nonempty r.confirmed_target_id ≡ true
      → s.board.lifecycle_state ≡ LifecycleState.running
      → s.board.active_skill ≡ some SkillName.search_for_object
      → stale_reason s.board (report_of c r) ≡ none
      → valid_board s.board ≡ true
      → fl.lt_f r.progress_delta fl.zero_f ≡ false
      → nonnegative_finite (fl.add_f s.board.search_progress r.progress_delta) ≡ true
      → ((record_tool_result (report_of c r) s).1.board.confirmed_target_id ≡ r.confirmed_target_id)
        × ((record_tool_result (report_of c r) s).1.board.confirmed_registry_revision
            ≡ s.board.registry_revision)
        × ((record_tool_result (report_of c r) s).1.board.registry_revision
            ≡ s.board.registry_revision)
  unfolding result_board
  inspect_candidates-IsAccepted c s a r tool_is request_is h success named running search fresh
        valid forward sum =
      let b = s.board in
      let report = report_of c r in
      let inspects = ap is_inspect tool_is in
      let (_, _, revised, _, (requested, _, confirms, _)) =
        inspect_candidates-Confirms registry c b a r h success in
      let nonempty_is : nonempty r.registry_revision ≡ true = rw confirms.revision_is revised in
      let (rev, inside) = fresh-facts b report inspects nonempty_is fresh in
      let same = same-unchanged b report rev in
      let (e, found) = evidence-found c b r a.snapshot.revision requested request_is confirms in
      let (sel, chosen, target, of_registry) =
        reconcile-accepts b report inspects same inside named (λ before. (
          e,
          confirm_target-accepts b report before e (both_true success inspects)
              (rw confirms.inspected_is confirms.inspected_target) same nonempty_is found,
        )) in
      let is_b =
        record_tool_result-accepts report s sel
          (search-passes b report tool_is running search forward) fresh chosen
          (result_board-valid b report sel search valid sum) in
      (
        ap (λ (b : MissionBoard F). b.confirmed_target_id) is_b ∙ target,
        ap (λ (b : MissionBoard F). b.confirmed_registry_revision) is_b ∙ (of_registry ∙ rev),
        ap (λ (b : MissionBoard F). b.registry_revision) is_b ∙ (rw nonempty_is refl ∙ rev),
      )
