-- ===== src/Tools/Lanes.antt =====
-- Threads that share one dispatcher (tools.py): the two locked blocks of `dispatch` of any number of
-- calls in any order, and what the lane and a cancellation do then.
use muto_rs_deployment_test.Prelude.{
  ℕ, ◌+◌, ◌≤◌, true, false, Option, none, some, List, [], ◌∷◌, ◌++◌, ◌≡◌, refl, ap, arith, ◌⊎◌, inl,
  inr, eq_iff, if◌then◌else◌,
}
use muto_rs_deployment_test.Result.{Failure, ok, err, Result-cases}
use muto_rs_deployment_test.Contracts.{SkillName, ToolName, skill_tools}
use muto_rs_deployment_test.Contracts.Board.{MissionBoard}
use muto_rs_deployment_test.Executive.Guards.{has_current_confirmation}
use muto_rs_deployment_test.Tools.Call.{ToolCall}
use muto_rs_deployment_test.Tools.Dispatcher.{
  ToolDispatcher, ToolBackend, is_motion, is_given, enter, leave, cancel_active, check_dispatch,
  dispatch,
}

-- The dispatcher, and the calls that stand between their two blocks.
pub record Lanes (F : Type 0) : Type 0 where
  pub dispatcher : ToolDispatcher F
  pub in_flight : List (ToolCall F)

module _ {F : Type 0} where
  abbrev pub new_dispatcher : ToolDispatcher F
  new_dispatcher = record { motion_active = false; active_call = none }

  abbrev pub motions : List (ToolCall F) → ℕ
  motions [] = 0
  motions (c ∷ cs) = (if is_motion c.tool then 1 else 0) + motions cs

  -- What any interleaving of the threads reaches.
  pub data Reached : Lanes F → Type 0 where
    initial : Reached (record { dispatcher = new_dispatcher; in_flight = [] })
    enters :
        {d : ToolDispatcher F} {cs : List (ToolCall F)}
        → Reached (record { dispatcher = d; in_flight = cs })
        → (c : ToolCall F) {d' : ToolDispatcher F} → enter c d ≡ ok d'
        → Reached (record { dispatcher = d'; in_flight = c ∷ cs })
    leaves :
        {d : ToolDispatcher F} (before : List (ToolCall F)) (c : ToolCall F)
        (after : List (ToolCall F)) {cs : List (ToolCall F)}
        → Reached (record { dispatcher = d; in_flight = cs })
        → cs ≡ before ++ c ∷ after
        → Reached (record { dispatcher = leave c d; in_flight = before ++ after })

  motions-append : (xs ys : List (ToolCall F)) → motions (xs ++ ys) ≡ motions xs + motions ys
  motions-append [] ys = omega arith
  motions-append (x ∷ xs) ys = omega (arith, motions-append xs ys)

  abbrev pub lane : ToolDispatcher F → ℕ
  lane d = if d.motion_active then 1 else 0

  enter-lane :
      (c : ToolCall F) (d : ToolDispatcher F) {d' : ToolDispatcher F}
      → enter c d ≡ ok d'
      → lane d' ≡ (if is_motion c.tool then 1 else 0) + lane d
  unfolding enter
  enter-lane c d e = ground arith

  leave-lane :
      (c : ToolCall F) (d : ToolDispatcher F)
      → (if is_motion c.tool then 1 else 0) ≤ lane d
      → lane d ≡ (if is_motion c.tool then 1 else 0) + lane (leave c d)
  unfolding leave
  leave-lane c d h = ground arith

  -- However the calls of the threads interleave, the number of motion calls in flight is one if the
  -- lane is taken, and none if it is free.
  pub Reached-motions :
      {s : Lanes F}
      → Reached s
      → motions s.in_flight ≡ (if s.dispatcher.motion_active then 1 else 0)
  Reached-motions Reached.initial = refl
  Reached-motions (Reached.enters {d} {cs} r c {d'} e) =
      omega (arith, Reached-motions r, enter-lane c d e)
  Reached-motions (Reached.leaves {d} before c after {cs} r e) =
      let held : (if is_motion c.tool then 1 else 0) + (motions before + motions after) ≡ lane d =
        omega (
          arith,
          ap (λ (l : List (ToolCall F)). motions l) e,
          motions-append before (c ∷ after),
          Reached-motions r,
        ) in
      omega (arith, held, leave-lane c d (omega (arith, held)), motions-append before after)

module _ {F W : Type 0} where
  -- While a motion tool is in flight, a call of another tool that starts and ends leaves the lane
  -- taken, and a cancellation after it reaches no authority: it reports false and changes nothing.
  pub cancel_active-misses_motion :
      (backend : ToolBackend F W) (c : ToolCall F) (d : ToolDispatcher F) {d' : ToolDispatcher F}
      (w : W)
      → d.motion_active ≡ true
      → is_motion c.tool ≡ false
      → enter c d ≡ ok d'
      → ((leave c d').motion_active ≡ true) × (cancel_active backend (leave c d') w ≡ (false, w))
  unfolding enter leave cancel_active
  cancel_active-misses_motion backend c d w moving other e = (ground arith, refl)

module _ {F : Type 0} where
  -- What the guards of `dispatch` ask of a call.
  pub record IsAllowed (b : MissionBoard F) (c : ToolCall F) : Type 0 where
    pub skill : SkillName
    pub selected : b.active_skill ≡ some skill
    pub of_skill : skill_tools skill c.tool ≡ true
    pub heads : c.tool ≡ ToolName.rotate_to_heading → is_given c.heading ≡ true
    pub approaches : c.tool ≡ ToolName.go_to_point → has_current_confirmation b ≡ true
    pub to_target : c.tool ≡ ToolName.go_to_point → c.candidate_id ≡ b.confirmed_target_id

  check_dispatch-IsAllowed :
      (c : ToolCall F) (b : MissionBoard F) → check_dispatch c b ≡ ok tt → IsAllowed b c
  unfolding check_dispatch
  check_dispatch-IsAllowed c b e = skill_allows b.active_skill refl e
    where
      skill_allows :
          (skill : Option SkillName)
          → b.active_skill ≡ skill
          → check_dispatch c b ≡ ok tt
          → IsAllowed b c
      skill_allows none chosen e = absurd (ground arith)
      skill_allows (some SkillName.search_for_object) chosen e = record {
        skill = SkillName.search_for_object;
        selected = chosen;
        of_skill = ground arith;
        heads = λ h. ground arith;
        approaches = λ h. ground arith;
        to_target = λ h. ground arith;
      }
      skill_allows (some SkillName.approach_confirmed_object) chosen e = record {
        skill = SkillName.approach_confirmed_object;
        selected = chosen;
        of_skill = ground arith;
        heads = λ h. ground arith;
        approaches = λ h. ground arith;
        to_target = λ h. ground (arith, eq_iff c.candidate_id b.confirmed_target_id);
      }

module _ {F W : Type 0} where
  -- The backend is called, and the world changes, only for a call that the guards allow: its tool is
  -- of the active skill, a rotation has a heading, and navigation is to the target whose confirmation
  -- is of the registry revision of the board. Any other call raises and changes nothing.
  pub dispatch-IsAllowed :
      (backend : ToolBackend F W) (c : ToolCall F) (b : MissionBoard F) (s : ToolDispatcher F × W)
      → IsAllowed b c ⊎ ((e : Failure) × (dispatch backend c b s ≡ (err e, s)))
  unfolding dispatch
  dispatch-IsAllowed backend c b s = elim (Result-cases (check_dispatch c b)) [
    | inl e ↦ inl (check_dispatch-IsAllowed c b e)
    | inr (why, e) ↦ inr (why, rw e refl)
  ]
