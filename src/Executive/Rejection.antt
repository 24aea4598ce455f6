-- ===== src/Executive/Rejection.antt =====
-- What a rejection does to the board (executive.py, the loop over `rejected_candidate_ids`).
use muto_rs_deployment_test.Prelude.{
  true, false, none, List, [], ◌∷◌, ◌++◌, String, ◌==◌, eq_iff, eq_refl, Floats, ◌≡◌, sym, ◌∙◌,
  arith, inl, inr, nonempty, Bool-cases,
}
use mathlib.Core.Path.{subst}
use muto_rs_deployment_test.Result.{ok}
use muto_rs_deployment_test.Contracts.{ToolName}
use muto_rs_deployment_test.Contracts.Board.{MissionBoard, evolved}
use muto_rs_deployment_test.Executive.ToolReport.{
  ToolReport, Selection, is_inspect, among, reject_one, reject_candidates, tool_selection,
  initial_selection, revision_changed, reconcile, check_report, stale_reason,
}
use muto_rs_deployment_test.Executive.State.{MissionExecutive, continue, get_board, emit}
use muto_rs_deployment_test.Executive.ToolResult.{
  record_tool_result, result_board, accept_result, emit_result, result_event, emit_rejected,
  emit_confirmed,
}
use muto_rs_deployment_test.Executive.Rules.{evolve_board-cases, continue-reports, continue-eq-ok}
use muto_rs_deployment_test.Executive.Simulation.{emit_result-board}
use muto_rs_deployment_test.Executive.Selection.{reconcile-cases, reject_candidates-target}

among-append : (x y : String) (xs : List String) → among x xs ≡ true → among x (xs ++ y ∷ []) ≡ true
among-append x y [] h = cc
among-append x y (z ∷ zs) h = ground (arith, among-append x y zs)

among-append_self : (x : String) (xs : List String) → among x (xs ++ x ∷ []) ≡ true
among-append_self x [] = ground (arith, eq_refl x)
among-append_self x (z ∷ zs) = ground (arith, among-append_self x zs)

module _ {F : Type 0} where
  fresh-same :
      (b : MissionBoard F) (r : ToolReport F)
      → is_inspect r.tool ≡ true
      → stale_reason b r ≡ none
      → revision_changed b r ≡ false
  unfolding stale_reason
  fresh-same b r inspects fresh = ground arith

  -- one round keeps what is rejected, and adds its own candidate
  reject_one-keeps :
      (x c : String) (sel : Selection F)
      → among x sel.rejected ≡ true
      → among x (reject_one c sel).rejected ≡ true
  reject_one-keeps x c sel h = ground (arith, among-append x c sel.rejected)

  reject_one-adds :
      (c : String) (sel : Selection F)
      → nonempty c ≡ true
      → among c (reject_one c sel).rejected ≡ true
  reject_one-adds c sel h = ground (arith, among-append_self c sel.rejected)

  reject_candidates-keeps :
      (x : String) (cs : List String) (sel : Selection F)
      → among x sel.rejected ≡ true
      → among x (reject_candidates cs sel).rejected ≡ true
  unfolding reject_candidates
  reject_candidates-keeps x [] sel h = h
  reject_candidates-keeps x (c ∷ cs) sel h =
      reject_candidates-keeps x cs (reject_one c sel) (reject_one-keeps x c sel h)

  added :
      (x c : String) (sel : Selection F)
      → nonempty x ≡ true
      → c ≡ x
      → among x (reject_one c sel).rejected ≡ true
  added x c sel n e =
      subst (λ z. among z (reject_one c sel).rejected ≡ true) e
        (reject_one-adds c sel (subst (λ z. nonempty z ≡ true) (sym e) n))

  reject_candidates-adds :
      (x : String) (cs : List String) (sel : Selection F)
      → nonempty x ≡ true
      → among x cs ≡ true
      → among x (reject_candidates cs sel).rejected ≡ true
  unfolding reject_candidates
  reject_candidates-adds x [] sel n h = cc
  reject_candidates-adds x (c ∷ cs) sel n h = elim (Bool-cases (c == x)) [
    | inl e ↦ reject_candidates-keeps x cs (reject_one c sel) (added x c sel n ((eq_iff c x).0 e))
    | inr e ↦ reject_candidates-adds x cs (reject_one c sel) n (rw e at h)
  ]

  inspection-keeps :
      (t : ToolName) (b : MissionBoard F) (r : ToolReport F) (sel : Selection F) {out : Selection F}
      → is_inspect t ≡ true
      → tool_selection t b r sel ≡ ok out
      → out ≡ sel
  unfolding tool_selection
  inspection-keeps t b r sel inspects e = ground arith

  initial-target :
      (b : MissionBoard F) (r : ToolReport F)
      → revision_changed b r ≡ false
      → (initial_selection b r).target ≡ b.confirmed_target_id
  unfolding initial_selection
  initial-target b r same = ground arith

  -- An inspection that names no target keeps the board's, and rejects what it is told to reject.
  reconcile_inspection :
      (b : MissionBoard F) (r : ToolReport F) {out : Selection F} (x : String)
      → is_inspect r.tool ≡ true
      → nonempty r.confirmed_target_id ≡ false
      → revision_changed b r ≡ false
      → nonempty x ≡ true
      → among x r.rejected_candidate_ids ≡ true
      → reconcile b r ≡ ok out
      → (out.target ≡ b.confirmed_target_id) × (among x out.rejected ≡ true)
  reconcile_inspection b r {out} x inspects unnamed same n m e =
      let (sel, first, rest) = reconcile-cases b r {out = out} e in
      elim rest [
        | inl (named, c) ↦ cc
        | inr (_, is_out) ↦ ground (
          arith,
          reject_candidates-target r.rejected_candidate_ids sel,
          reject_candidates-adds x r.rejected_candidate_ids sel n m,
          inspection-keeps r.tool b r (initial_selection b r) {out = sel} inspects first,
          initial-target b r same,
        )
      ]

get_board-returns :
    {F : Type 0} (s : MissionExecutive F) (b : MissionBoard F)
    → (get_board s).0 ≡ ok b
    → b ≡ s.board
get_board-returns s b h = ground arith

module _ {F : Type 0} ⦃fl : Floats F⦄ where
  emit_result-returns :
      (r : ToolReport F) (sel : Selection F) (s : MissionExecutive F) (b : MissionBoard F)
      → (emit_result r sel s).0 ≡ ok b
      → b ≡ (emit_result r sel s).1.board
  unfolding emit_result
  emit_result-returns r sel s b h =
      continue-reports (emit (result_event s.board r) s) _ b
        (λ _ t. continue-reports (emit_rejected r r.rejected_candidate_ids t) _ b λ _ u.
          continue-reports (emit_confirmed r sel sel.matching u) _ b (λ _ v. get_board-returns v b))
        h

  -- The board that an accepted result returns.
  accept_result-returns :
      (r : ToolReport F) (s : MissionExecutive F) (b : MissionBoard F)
      → (accept_result r s).0 ≡ ok b
      → (sel : Selection F) × (reconcile s.board r ≡ ok sel)
        × (b ≡ evolved s.board (result_board s.board r sel))
  unfolding accept_result
  accept_result-returns r s b h =
      let (sel, chosen, rest) = continue-eq-ok (reconcile s.board r, s) _ b h in
      (
        sel,
        chosen,
        elim (evolve_board-cases (result_board s.board r sel) s) [
          | inr (why, raised) ↦
              cc (subst (λ m. (continue m (λ _. emit_result r sel)).0 ≡ ok b) raised rest)
          | inl (done, _) ↦
              (emit_result-returns r sel _ b
                  (subst (λ m. (continue m (λ _. emit_result r sel)).0 ≡ ok b) done rest)
                ∙ emit_result-board r sel _)
        ],
      )

  -- The inspection that rejects the confirmed target: where the result is not stale and no call
  -- raises, the target stays confirmed, and stands among the rejected candidates too.
  pub record_tool_result-rejects_target :
      (r : ToolReport F) (s : MissionExecutive F) (b : MissionBoard F)
      → is_inspect r.tool ≡ true
      → stale_reason s.board r ≡ none
      → nonempty r.confirmed_target_id ≡ false
      → nonempty s.board.confirmed_target_id ≡ true
      → among s.board.confirmed_target_id r.rejected_candidate_ids ≡ true
      → (record_tool_result r s).0 ≡ ok b
      → (b.confirmed_target_id ≡ s.board.confirmed_target_id)
        × (among s.board.confirmed_target_id b.rejected_candidate_ids ≡ true)
  unfolding record_tool_result
  record_tool_result-rejects_target r s b inspects fresh unnamed named m h =
      let (_, _, rest) = continue-eq-ok (check_report s.board r, s) _ b h in
      let (sel, chosen, is_b) = accept_result-returns r s b (rw fresh at rest) in
      let (target, rejected) =
        reconcile_inspection s.board r {out = sel} s.board.confirmed_target_id inspects unnamed
          (fresh-same s.board r inspects fresh) named m chosen in
      unfold result_board in ground arith
