-- ===== src/Executive/Selection.antt =====
-- What a result may do to the target (executive.py, `record_tool_result`): the selection that
-- `reconcile` makes names a target only with a confirmation of the revision that the board will show.
use muto_rs_deployment_test.Prelude.{
  Bool, true, false, not, ◌&&◌, Option, none, some, List, [], ◌∷◌, String, eq_iff, ◌≡◌, refl, ◌≢◌,
  arith, nonempty, or_else, find_first, Bool-cases, if-cases, ◌⊎◌, inl, inr,
}
use muto_rs_deployment_test.Result.{ok, sequence-returns}
use muto_rs_deployment_test.Contracts.{ToolName}
use muto_rs_deployment_test.Contracts.Evidence.{CandidateEvidence}
use muto_rs_deployment_test.Contracts.Board.{MissionBoard}
use muto_rs_deployment_test.Executive.ToolReport.{
  ToolReport, Selection, is_query, is_inspect, among, same_revision, revision_changed, stale_reason,
  is_match, initial_selection, refresh_selection, query_selection, tool_selection,
  reject_candidates, confirm_matching, confirm_target, reconcile,
}

-- The tools that do not concern the registry.
abbrev pub is_motion_only : ToolName → Bool
is_motion_only t = not (is_query t) && not (is_inspect t)

module _ {F : Type 0} where
  -- A target comes with a confirmation, and that is of the revision given.
  pub record IsCurrent (revision : String) (sel : Selection F) : Type 0 where
    pub confirmed : nonempty sel.target ≡ true → nonempty sel.confirmed_revision ≡ true
    pub of_revision : nonempty sel.target ≡ true → sel.confirmed_revision ≡ revision

  -- The revision that the board shows after the result.
  abbrev pub next_revision : MissionBoard F → ToolReport F → String
  next_revision b r = or_else r.registry_revision b.registry_revision

  initial_selection-IsCurrent :
      (b : MissionBoard F) (r : ToolReport F)
      → (nonempty b.confirmed_target_id ≡ true → nonempty b.confirmed_registry_revision ≡ true)
      → (nonempty b.confirmed_target_id ≡ true
          → b.confirmed_registry_revision ≡ b.registry_revision)
      → IsCurrent (next_revision b r) (initial_selection b r)
  unfolding initial_selection
  initial_selection-IsCurrent b r h k =
      if-cases (IsCurrent (next_revision b r)) (revision_changed b r) (λ _. ground arith)
        λ same. ground (arith, eq_iff r.registry_revision b.registry_revision)

  refresh_selection-IsCurrent :
      (shortlist : List String) (q revision : String) (sel : Selection F)
      → IsCurrent revision sel
      → IsCurrent revision (refresh_selection shortlist q sel)
  unfolding refresh_selection
  refresh_selection-IsCurrent shortlist q revision sel h =
      if-cases (IsCurrent revision) (nonempty sel.target && not (among sel.target shortlist))
        (λ _. ground arith) λ _. record { confirmed = h.confirmed; of_revision = h.of_revision }

  query_selection-IsCurrent :
      (b : MissionBoard F) (r : ToolReport F) (revision : String) (sel : Selection F)
      → IsCurrent revision sel
      → IsCurrent revision (query_selection b r sel)
  unfolding query_selection
  query_selection-IsCurrent b r revision sel h =
      if-cases (IsCurrent revision) (same_revision b r)
        (λ _. refresh_selection-IsCurrent _ r.registry_revision revision sel h) λ _. ground arith

  tool_selection-IsCurrent :
      (t : ToolName) (b : MissionBoard F) (r : ToolReport F) (revision : String) (sel : Selection F)
      {out : Selection F}
      → IsCurrent revision sel
      → tool_selection t b r sel ≡ ok out
      → IsCurrent revision out
  unfolding tool_selection
  tool_selection-IsCurrent t b r revision sel h e =
      ground (arith, query_selection-IsCurrent b r revision sel h)

  pub reject_candidates-target :
      (cs : List String) (sel : Selection F)
      → ((reject_candidates cs sel).target ≡ sel.target)
        × ((reject_candidates cs sel).confirmed_revision ≡ sel.confirmed_revision)
        × ((reject_candidates cs sel).matching ≡ sel.matching)
  unfolding reject_candidates
  reject_candidates-target [] sel = (refl, refl, refl)
  reject_candidates-target (c ∷ cs) sel = reject_candidates-target cs _

  -- What `confirm_target` asks for before it names a target, and what it then does.
  pub record IsConfirmation (b : MissionBoard F) (r : ToolReport F) (out : Selection F)
      : Type 0 where
    pub succeeded : r.success ≡ true
    pub inspects : is_inspect r.tool ≡ true
    pub inspected : among r.confirmed_target_id r.candidate_ids ≡ true
    pub registry : nonempty r.registry_revision ≡ true
    pub found : find_first (is_match b r) r.evidence ≡ out.matching
    pub matched : out.matching ≢ none
    pub target : out.target ≡ r.confirmed_target_id
    pub of_registry : out.confirmed_revision ≡ r.registry_revision

  confirm_matching-ok :
      (r : ToolReport F) (sel : Selection F) (m : Option (CandidateEvidence F)) {out : Selection F}
      → confirm_matching r sel m ≡ ok out
      → (m ≡ out.matching)
        × (out.matching ≢ none)
        × (out.target ≡ r.confirmed_target_id)
        × (out.confirmed_revision ≡ r.registry_revision)
  unfolding confirm_matching
  confirm_matching-ok r sel none e = cc
  confirm_matching-ok r sel (some x) e = ground arith

  pub confirm_target-IsConfirmation :
      (b : MissionBoard F) (r : ToolReport F) (sel : Selection F) {out : Selection F}
      → confirm_target b r sel ≡ ok out
      → IsConfirmation b r out
  unfolding confirm_target
  confirm_target-IsConfirmation b r sel {out} e =
      ground (arith, confirm_matching-ok r sel (find_first (is_match b r) r.evidence) {out = out})

  fresh-unchanged :
      (b : MissionBoard F) (r : ToolReport F)
      → is_motion_only r.tool ≡ true
      → stale_reason b r ≡ none
      → revision_changed b r ≡ false
  unfolding stale_reason
  fresh-unchanged b r motion fresh = ground arith

  tool_selection-motion :
      (t : ToolName) (b : MissionBoard F) (r : ToolReport F) (sel : Selection F) {out : Selection F}
      → is_motion_only t ≡ true
      → tool_selection t b r sel ≡ ok out
      → out ≡ sel
  unfolding tool_selection
  tool_selection-motion t b r sel motion e = ground arith

  initial_selection-target :
      (b : MissionBoard F) (r : ToolReport F)
      → revision_changed b r ≡ false
      → ((initial_selection b r).target ≡ b.confirmed_target_id)
        × ((initial_selection b r).confirmed_revision ≡ b.confirmed_registry_revision)
  unfolding initial_selection
  initial_selection-target b r same = ground arith

  -- The board's own target is confirmed for the revision that the board shows.
  abbrev pub IsConfirmed : MissionBoard F → Type 0
  IsConfirmed b =
      (nonempty b.confirmed_target_id ≡ true → nonempty b.confirmed_registry_revision ≡ true)
      × (nonempty b.confirmed_target_id ≡ true
          → b.confirmed_registry_revision ≡ b.registry_revision)

  pub reconcile-cases :
      (b : MissionBoard F) (r : ToolReport F) {out : Selection F}
      → reconcile b r ≡ ok out
      → (sel : Selection F) × (tool_selection r.tool b r (initial_selection b r) ≡ ok sel)
        × ((nonempty r.confirmed_target_id ≡ true) × IsConfirmation b r out
            ⊎ (nonempty r.confirmed_target_id ≡ false)
              × (out ≡ reject_candidates r.rejected_candidate_ids sel))
  unfolding reconcile
  reconcile-cases b r {out} e =
      let (sel, first, second) =
        sequence-returns (tool_selection r.tool b r (initial_selection b r)) _ e in
      (
        sel,
        first,
        elim (Bool-cases (nonempty r.confirmed_target_id)) [
          | inl named ↦
              inl (named, confirm_target-IsConfirmation b r _ {out = out} (rw named at second))
          | inr unnamed ↦ inr (unnamed, ground (arith, rw unnamed at second))
        ],
      )

  pub reconcile-IsCurrent :
      (b : MissionBoard F) (r : ToolReport F) {out : Selection F}
      → IsConfirmed b
      → reconcile b r ≡ ok out
      → IsCurrent (next_revision b r) out
  reconcile-IsCurrent b r {out} h e =
      let (sel, first, rest) = reconcile-cases b r {out = out} e in
      elim rest [
        | inl (named, c) ↦ ground (arith, c.registry, c.of_registry)
        | inr (unnamed, same) ↦ ground (
          arith,
          reject_candidates-target r.rejected_candidate_ids sel,
          tool_selection-IsCurrent r.tool b r _ _ {out = sel}
              (initial_selection-IsCurrent b r h.0 h.1) first,
        )
      ]

  -- Outside the registry tools no result that is not stale names another target.
  pub reconcile_motion :
      (b : MissionBoard F) (r : ToolReport F) {out : Selection F}
      → is_motion_only r.tool ≡ true
      → stale_reason b r ≡ none
      → reconcile b r ≡ ok out
      → (out.target ≡ b.confirmed_target_id)
        × (out.confirmed_revision ≡ b.confirmed_registry_revision)
        × (revision_changed b r ≡ false)
  reconcile_motion b r {out} motion fresh e =
      let unchanged = fresh-unchanged b r motion fresh in
      let (sel, first, rest) = reconcile-cases b r {out = out} e in
      elim rest [
        | inl (named, c) ↦ ground (arith, c.inspects)
        | inr (unnamed, same) ↦ ground (
          arith,
          reject_candidates-target r.rejected_candidate_ids sel,
          tool_selection-motion r.tool b r _ {out = sel} motion first,
          initial_selection-target b r unchanged,
        )
      ]
