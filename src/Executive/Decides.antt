-- ===== src/Executive/Decides.antt =====
-- When the executive lets a skill be chosen and a mission be completed (executive.py, `select_skill`
-- and `complete`), in terms of the board alone.
use mathlib.Core.Path.{subst}
use muto_rs_deployment_test.Prelude.{
  true, Option, none, some, String, Floats, nonempty, eq_iff, ◌≡◌, ◌↔◌, ◌⊎◌, refl, sym, ap, ◌∙◌,
  arith,
}
use muto_rs_deployment_test.Result.{Result, ok, err}
use muto_rs_deployment_test.Contracts.{CompletionPolicy, LifecycleState, SkillName, EventType}
use muto_rs_deployment_test.Contracts.Board.{MissionBoard, evolved, valid_board}
use muto_rs_deployment_test.Contracts.Event.{EventFields, event_of, mission_event}
use muto_rs_deployment_test.Executive.State.{MissionExecutive, continue, emit, get_board, commit}
use muto_rs_deployment_test.Executive.Guards.{
  has_current_confirmation, require_state, check_handoff, Completion, check_policy,
  check_completion,
}
use muto_rs_deployment_test.Executive.Lifecycle.{with_skill, ended, select_skill, complete}
use muto_rs_deployment_test.Executive.Rules.{emit-board, evolve_board-valid, continue-eq-ok}
use muto_rs_deployment_test.Executive.Calls.{Call, perform}

nonempty-or : (s : String) → (s ≡ "") ⊎ (nonempty s ≡ true)
nonempty-or s = ground (arith, eq_iff s "")

module _ {F : Type 0} where
  -- A target is named, with a confirmation of the revision that the board shows.
  abbrev pub HasTarget : MissionBoard F → Type 0
  HasTarget b =
      (nonempty b.confirmed_target_id ≡ true)
      × (nonempty b.confirmed_registry_revision ≡ true)
      × (b.confirmed_registry_revision ≡ b.registry_revision)

  -- The search may begin or go on; the approach needs its target.
  abbrev pub MaySelect : SkillName → MissionBoard F → Type 0
  MaySelect SkillName.search_for_object b =
      (b.lifecycle_state ≡ LifecycleState.running)
      × ((b.active_skill ≡ none) ⊎ (b.active_skill ≡ some SkillName.search_for_object))
  MaySelect SkillName.approach_confirmed_object b =
      (b.lifecycle_state ≡ LifecycleState.running) × HasTarget b

  abbrev pub MeetsPolicy : Option CompletionPolicy → Completion → MissionBoard F → Type 0
  MeetsPolicy none c b = Unit
  MeetsPolicy (some CompletionPolicy.report_confirmed) c b = nonempty b.confirmed_target_id ≡ true
  MeetsPolicy (some CompletionPolicy.approach_confirmed) c b =
      (nonempty b.confirmed_target_id ≡ true) × (c.approach_complete ≡ true)
  MeetsPolicy (some CompletionPolicy.search_until_exhausted) c b =
      (c.search_exhausted ≡ true)
      × ((b.last_reason_code ≡ "poi_exhausted") ⊎ (b.last_reason_code ≡ "search_exhausted"))

  pub record MayComplete (c : Completion) (b : MissionBoard F) : Type 0 where
    pub running : b.lifecycle_state ≡ LifecycleState.running
    pub named : (c.confirmed_target_id ≡ "") ⊎ (c.confirmed_target_id ≡ b.confirmed_target_id)
    pub current : (b.confirmed_target_id ≡ "") ⊎ HasTarget b
    pub policy : MeetsPolicy b.completion_policy c b

  has_current_confirmation-HasTarget :
      (b : MissionBoard F) → (has_current_confirmation b ≡ true) ↔ HasTarget b
  has_current_confirmation-HasTarget b = (
    λ h. ground (arith, h, eq_iff b.confirmed_registry_revision b.registry_revision),
    λ t. ground (arith, t, eq_iff b.confirmed_registry_revision b.registry_revision),
  )

  require_running :
      (b : MissionBoard F)
      → (require_state LifecycleState.running b ≡ ok tt)
        ↔ (b.lifecycle_state ≡ LifecycleState.running)
  unfolding require_state
  require_running b = (λ h. ground (arith, h), λ e. ground (arith, e))

  handoff-MaySelect :
      (k : SkillName) (b : MissionBoard F)
      → b.lifecycle_state ≡ LifecycleState.running
      → check_handoff b.active_skill k (has_current_confirmation b) ≡ ok tt
      → MaySelect k b
  unfolding check_handoff
  handoff-MaySelect SkillName.search_for_object b running h = ground (arith, running, h)
  handoff-MaySelect SkillName.approach_confirmed_object b running h =
      (running, (has_current_confirmation-HasTarget b).0 (ground (arith, h)))

  MaySelect-running :
      (k : SkillName) (b : MissionBoard F)
      → MaySelect k b
      → b.lifecycle_state ≡ LifecycleState.running
  MaySelect-running SkillName.search_for_object b m = m.0
  MaySelect-running SkillName.approach_confirmed_object b m = m.0

  MaySelect-handoff :
      (k : SkillName) (b : MissionBoard F)
      → MaySelect k b
      → check_handoff b.active_skill k (has_current_confirmation b) ≡ ok tt
  unfolding check_handoff
  MaySelect-handoff SkillName.search_for_object b (running, free) = ground (arith, free)
  MaySelect-handoff SkillName.approach_confirmed_object b (running, target) =
      ground (arith, (has_current_confirmation-HasTarget b).1 target)

  policy-MeetsPolicy :
      (o : Option CompletionPolicy) (c : Completion) (b : MissionBoard F)
      → (check_policy o b c ≡ ok tt) ↔ MeetsPolicy o c b
  unfolding check_policy
  policy-MeetsPolicy none c b = (λ _. tt, λ _. refl)
  policy-MeetsPolicy (some CompletionPolicy.report_confirmed) c b =
      (λ h. ground (arith, h), λ m. ground (arith, m))
  policy-MeetsPolicy (some CompletionPolicy.approach_confirmed) c b =
      (λ h. ground (arith, h), λ m. ground (arith, m))
  policy-MeetsPolicy (some CompletionPolicy.search_until_exhausted) c b =
      let poi = eq_iff b.last_reason_code "poi_exhausted" in
      let search = eq_iff b.last_reason_code "search_exhausted" in
      (λ h. ground (arith, h, poi, search), λ m. ground (arith, m, poi, search))

  completion-MayComplete :
      (c : Completion) (b : MissionBoard F) → check_completion b c ≡ ok tt → MayComplete c b
  unfolding check_completion
  completion-MayComplete c b h = record {
    running = (require_running b).0 (ground (arith, h));
    named = ground (
      arith,
      h,
      nonempty-or c.confirmed_target_id,
      eq_iff c.confirmed_target_id b.confirmed_target_id,
    );
    current =
        ground
          (arith, h, nonempty-or b.confirmed_target_id, (has_current_confirmation-HasTarget b).0);
    policy = (policy-MeetsPolicy b.completion_policy c b).0 (ground (arith, h));
  }

  MayComplete-completion :
      (c : Completion) (b : MissionBoard F) → MayComplete c b → check_completion b c ≡ ok tt
  unfolding check_completion
  MayComplete-completion c b m =
      rw ((require_running b).1 m.running, (policy-MeetsPolicy b.completion_policy c b).1 m.policy)
        (ground (
          arith,
          m.named,
          m.current,
          eq_iff c.confirmed_target_id b.confirmed_target_id,
          eq_iff c.confirmed_target_id "",
          eq_iff b.confirmed_target_id "",
          (has_current_confirmation-HasTarget b).1,
        ))

module _ {F : Type 0} ⦃fl : Floats F⦄ where
  reports :
      (m : Result (Unit {0}) × MissionExecutive F)
      → m.0 ≡ ok tt
      → (continue m (λ _. get_board)).0 ≡ ok m.1.board
  reports (ok tt, s) e = refl
  reports (err why, s) e = absurd (ground (arith, e))

  emit-returns :
      (f : EventFields F) (s : MissionExecutive F)
      → f.evidence_confidence ≡ none
      → f.evidence_timestamp_s ≡ none
      → (emit f s).0 ≡ ok tt
  unfolding emit mission_event
  emit-returns f s e1 e2 = ground (arith, e1, e2)

  commit-returns :
      (changed : MissionBoard F) (f : EventFields F) (s : MissionExecutive F)
      → valid_board (evolved s.board changed) ≡ true
      → f.evidence_confidence ≡ none
      → f.evidence_timestamp_s ≡ none
      → (commit changed f s).0 ≡ ok (evolved s.board changed)
  commit-returns changed f s valid e1 e2 =
      let next = record s { board = evolved s.board changed } in
      subst
        (λ (m : Result (Unit {0}) × MissionExecutive F).
          (continue m (λ _ t. continue (emit f t) (λ _. get_board))).0
          ≡ ok (evolved s.board changed))
        (sym (evolve_board-valid changed s valid))
        (reports (emit f next) (emit-returns f next e1 e2) ∙ ap ok (emit-board f next))

  -- The call returns a board on which the skill is active, and the state and target are the same.
  abbrev pub Selected : SkillName → MissionExecutive F → Type 0
  Selected k s =
      (b : MissionBoard F) × ((perform (Call.select_skill k) s).0 ≡ ok b)
      × (b.active_skill ≡ some k)
      × (b.lifecycle_state ≡ s.board.lifecycle_state)
      × (b.confirmed_target_id ≡ s.board.confirmed_target_id)

  -- The call returns a board of the mission that has succeeded, with the same target.
  abbrev pub Completed : Completion → MissionExecutive F → Type 0
  Completed c s =
      (b : MissionBoard F) × ((perform (Call.complete c) s).0 ≡ ok b)
      × (b.lifecycle_state ≡ LifecycleState.succeeded)
      × (b.confirmed_target_id ≡ s.board.confirmed_target_id)

  -- On a valid board, `select_skill` returns with the skill active exactly if the mission runs and,
  -- for the search, no skill or the search is active, or, for the approach, the board names a target
  -- with a confirmation of the registry revision that it shows.
  pub select_skill-Decides :
      (k : SkillName) (s : MissionExecutive F)
      → valid_board s.board ≡ true
      → Selected k s ↔ MaySelect k s.board
  unfolding perform select_skill
  select_skill-Decides k s valid =
      let fields : EventFields F = record (event_of EventType.skill_selected) { skill = some k } in
      (
        λ (b, returned, _, _, _).
            let (_, running, rest) =
              continue-eq-ok (require_state LifecycleState.running s.board, s) _ b returned in
            let (_, handed, _) =
              continue-eq-ok
                (check_handoff s.board.active_skill k (has_current_confirmation s.board), s) _ b
                rest in
            handoff-MaySelect k s.board ((require_running s.board).0 running) handed,
        λ m. (
          evolved s.board (with_skill k s.board),
          rw
              (
                (require_running s.board).1 (MaySelect-running k s.board m),
                MaySelect-handoff k s.board m,
              )
              (commit-returns (with_skill k s.board) fields s valid refl refl),
          refl,
          refl,
          refl,
        ),
      )

  -- On a valid board, `complete` returns the mission succeeded exactly if it runs, the call names no
  -- target or that of the board, a target of the board has a confirmation of the registry revision
  -- that the board shows, and the policy is met: a target to report; a target and its approach; or a
  -- search that is exhausted, with a last reason that says so.
  pub complete-Decides :
      (c : Completion) (s : MissionExecutive F)
      → valid_board s.board ≡ true
      → Completed c s ↔ MayComplete c s.board
  unfolding perform complete
  complete-Decides c s valid =
      let changed : MissionBoard F =
        ended LifecycleState.succeeded EventType.mission_succeeded "succeeded" c.reason_code
          s.board in
      let fields : EventFields F = record (event_of EventType.mission_succeeded) {
        candidate_id = s.board.confirmed_target_id;
        reason_code = c.reason_code;
      } in
      (
        λ (b, returned, _, _).
            let (_, checked, _) = continue-eq-ok (check_completion s.board c, s) _ b returned in
            completion-MayComplete c s.board checked,
        λ m. (
          evolved s.board changed,
          rw (MayComplete-completion c s.board m) (commit-returns changed fields s valid refl refl),
          refl,
          refl,
        ),
      )
