-- ===== src/Commander/Decisions.antt =====
-- What a decision of the commander is, and what its parser raises (commander.py).
use muto_rs_deployment_test.Prelude.{
  true, false, Option, none, some, Floats, ◌≡◌, ◌⊎◌, inl, inr, arith, eq_iff, nonempty, Bool-cases,
  refl, sym, ap, ◌∙◌,
}
use mathlib.Core.Path.{subst}
use muto_rs_deployment_test.Executive.Guards.{same_skill}
use muto_rs_deployment_test.Result.{Failure, Result, ok, err, guard, sequence-returns}
use muto_rs_deployment_test.Contracts.{SkillName, ToolName, skill_tools}
use muto_rs_deployment_test.Contracts.Board.{MissionBoard}
use muto_rs_deployment_test.Contracts.Request.{is_empty}
use muto_rs_deployment_test.Tools.Json.{Json, Members, Coercions, get}
use muto_rs_deployment_test.Tools.Call.{ToolCall, tool_call}
use muto_rs_deployment_test.Commander.{
  CommanderDecision, Reply, both, may_choose, parse_decision, strict_dict, choose, tool_decision,
  build_call, assembled, allow_call, checked_call, unknown_fields, tool_fields, finish, skill_of,
  as_planner_failure, optional_candidates, optional_tuple, tool_of,
}

as_planner_failure-ok : {A : Type 0} (m : Result A) {a : A} → as_planner_failure m ≡ ok a → m ≡ ok a
as_planner_failure-ok (ok a) e = e
as_planner_failure-ok (err Failure.overflow) e = absurd (ground arith)
as_planner_failure-ok (err Failure.duplicate_mission) e = absurd (ground arith)
as_planner_failure-ok (err Failure.terminal_mission) e = absurd (ground arith)
as_planner_failure-ok (err (Failure.wrong_state _)) e = absurd (ground arith)
as_planner_failure-ok (err (Failure.contract _)) e = absurd (ground arith)
as_planner_failure-ok (err (Failure.planner_failure _)) e = absurd (ground arith)
as_planner_failure-ok (err (Failure.tool_execution _)) e = absurd (ground arith)
as_planner_failure-ok (err (Failure.value_error _)) e = absurd (ground arith)
as_planner_failure-ok (err (Failure.io_error _)) e = absurd (ground arith)
as_planner_failure-ok (err (Failure.other _)) e = absurd (ground arith)

same_skill-eq : (x y : SkillName) → same_skill x y ≡ true → x ≡ y
same_skill-eq x y e = ground arith

module _ {F : Type 0} where
  -- A call that the tool boundary may be given under the skill.
  pub record IsCall (skill : SkillName) (c : ToolCall F) : Type 0 where
    pub of_skill : skill_tools skill c.tool ≡ true
    pub in_map : c.frame_id ≡ "map"
    pub policy : (c.projection_policy ≡ "reject") ⊎ (c.projection_policy ≡ "allow")

  abbrev pub IsOptionalCall : SkillName → Option (ToolCall F) → Type 0
  IsOptionalCall skill none = Unit
  IsOptionalCall skill (some c) = IsCall skill c

  -- The skills that may be chosen on a board: any, where none is active; the active one; and the
  -- approach of a target that is named, with a confirmation of the revision that the board shows.
  abbrev pub MayChoose : MissionBoard F → SkillName → Type 0
  MayChoose b skill =
      (b.active_skill ≡ none)
      ⊎ ((b.active_skill ≡ some skill)
          ⊎ ((skill ≡ SkillName.approach_confirmed_object)
              × (nonempty b.confirmed_target_id ≡ true)
              × (nonempty b.confirmed_registry_revision ≡ true)
              × (b.confirmed_registry_revision ≡ b.registry_revision)))

  pub record IsDecision (b : MissionBoard F) (d : CommanderDecision F) : Type 0 where
    pub chooses : MayChoose b d.skill
    pub call : IsOptionalCall d.skill d.tool
    pub one_of_two : both d.tool d.completion_proposal ≡ false

  allowed-may :
      (b : MissionBoard F) (skill : SkillName) (active : Option SkillName)
      → b.active_skill ≡ active
      → may_choose b skill active ≡ true
      → MayChoose b skill
  allowed-may b skill none is_active e = inl is_active
  allowed-may b skill (some active) is_active e = elim (Bool-cases (same_skill skill active)) [
    | inl same ↦ inr (inl (is_active ∙ ap some (sym (same_skill-eq skill active same))))
    | inr other ↦ inr (
        inr (
          ground (
            arith,
            e,
            other,
            same_skill-eq skill SkillName.approach_confirmed_object,
            eq_iff b.confirmed_registry_revision b.registry_revision,
          )))
  ]

  chosen-allowed :
      (b : MissionBoard F) (skill : SkillName) {out : SkillName}
      → choose b (some skill) ≡ ok out
      → (may_choose b skill b.active_skill ≡ true) × (out ≡ skill)
  chosen-allowed b skill e = ground arith

  choose-may :
      (b : MissionBoard F) (o : Option SkillName) {out : SkillName}
      → choose b o ≡ ok out
      → MayChoose b out
  choose-may b none e = cc
  choose-may b (some skill) {out} e =
      let (allowed, same) = chosen-allowed b skill {out = out} e in
      subst (MayChoose b) (sym same) (allowed-may b skill b.active_skill refl allowed)

module _ {F : Type 0} ⦃fl : Floats F⦄ ⦃co : Coercions F⦄ where
  finish-facts :
      (ms : Members F) (skill : SkillName) (tool : Option (ToolCall F)) {d : CommanderDecision F}
      → finish ms skill tool ≡ ok d
      → (d.skill ≡ skill) × (d.tool ≡ tool) × (both d.tool d.completion_proposal ≡ false)
  unfolding finish
  finish-facts ms skill tool e = ground arith

  tool_call-lem :
      (c : ToolCall F) {c' : ToolCall F}
      → tool_call c ≡ ok c'
      → (c'.frame_id ≡ "map")
        × ((c'.projection_policy ≡ "reject") ⊎ (c'.projection_policy ≡ "allow"))
  unfolding tool_call
  tool_call-lem c e = ground (
    arith,
    eq_iff c.frame_id "map",
    eq_iff c.projection_policy "reject",
    eq_iff c.projection_policy "allow",
  )

  build_call-lem :
      (ms : Members F) (tool : Option ToolName) {c : ToolCall F}
      → build_call ms tool ≡ ok c
      → (c.frame_id ≡ "map") × ((c.projection_policy ≡ "reject") ⊎ (c.projection_policy ≡ "allow"))
  unfolding build_call
  build_call-lem ms none e = absurd (ground arith)
  build_call-lem ms (some tool) {c} e =
      let (candidates, _, rest) = sequence-returns (optional_candidates ms) _ e in
      let (point, _, last) = sequence-returns (optional_tuple (get "point" ms)) _ rest in
      tool_call-lem (assembled ms tool candidates point) last

  allow_call-IsOptionalCall :
      (skill : SkillName) (c : ToolCall F) (tool : Option (ToolCall F))
      → (c.frame_id ≡ "map") × ((c.projection_policy ≡ "reject") ⊎ (c.projection_policy ≡ "allow"))
      → allow_call skill c ≡ ok tool
      → IsOptionalCall skill tool
  allow_call-IsOptionalCall skill c none facts e = tt
  allow_call-IsOptionalCall skill c (some c') facts e = ground (arith, facts.0, facts.1)

  checked_call-IsOptionalCall :
      (skill : SkillName) (ms : Members F) {tool : Option (ToolCall F)}
      → checked_call skill ms ≡ ok tool
      → IsOptionalCall skill tool
  unfolding checked_call
  checked_call-IsOptionalCall skill ms e =
      let (call, built, allowed) =
        sequence-returns (as_planner_failure (build_call ms (tool_of (get "name" ms))))
          (allow_call skill) e in
      allow_call-IsOptionalCall skill call _ (build_call-lem ms _ (as_planner_failure-ok _ built))
        allowed

  tool_decision-IsOptionalCall :
      (skill : SkillName) (v : Json F) {tool : Option (ToolCall F)}
      → tool_decision skill v ≡ ok tool
      → IsOptionalCall skill tool
  unfolding tool_decision
  tool_decision-IsOptionalCall skill Json.null e = ground arith
  tool_decision-IsOptionalCall skill (Json.object ms) e =
      let (_, _, built) =
        sequence-returns (guard (is_empty (unknown_fields tool_fields ms)) _)
          (λ _. checked_call skill ms) e in
      checked_call-IsOptionalCall skill ms built
  tool_decision-IsOptionalCall skill (Json.truth b) e = absurd (ground arith)
  tool_decision-IsOptionalCall skill (Json.integer b n) e = absurd (ground arith)
  tool_decision-IsOptionalCall skill (Json.number x) e = absurd (ground arith)
  tool_decision-IsOptionalCall skill (Json.text s) e = absurd (ground arith)
  tool_decision-IsOptionalCall skill (Json.array vs) e = absurd (ground arith)

  -- A decision that the parser returns chooses the active skill, or any where none is active, or the
  -- approach of a target that the board names, with a confirmation of the board's revision; its tool belongs to the chosen skill, in the
  -- map frame and with a projection policy of the two; and it has no proposal beside a tool.
  pub parse_decision-IsDecision :
      (reply : Reply F) (b : MissionBoard F) {d : CommanderDecision F}
      → parse_decision reply b ≡ ok d
      → IsDecision b d
  unfolding parse_decision
  parse_decision-IsDecision reply b e =
      let (ms, _, e1) = sequence-returns (strict_dict reply) _ e in
      let (skill, chosen, e2) = sequence-returns (choose b (skill_of (get "skill" ms))) _ e1 in
      let (tool, used, e3) = sequence-returns (tool_decision skill (get "tool" ms)) _ e2 in
      let (same_skill, same_tool, single) = finish-facts ms skill tool e3 in
      record {
        chooses = rw same_skill (choose-may b _ chosen);
        call = rw (same_skill, same_tool) (tool_decision-IsOptionalCall skill (get "tool" ms) used);
        one_of_two = single;
      }
