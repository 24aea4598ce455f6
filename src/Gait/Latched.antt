-- ===== src/Gait/Latched.antt =====
-- The latest command takes effect, and only where it may (core/hexapod.py, `set_command` and `tick`).
use native.Mathlib.Nat.{mod-lt, mod_self, mod-eq_of_lt}
use mathlib.Core.Path.{subst}
use muto_rs_deployment_test.Prelude.{
  ℕ, zero, suc, ◌+◌, ◌-◌, ◌%◌, ◌≤◌, ◌<◌, false, not, ◌&&◌, Option, none, some, List, eqb, length,
  Bool-cases, if-cases, ◌≡◌, refl, sym, ap, ◌∙◌, inl, inr, arith,
}
use muto_rs_deployment_test.Result.{Result, ok, err}
use muto_rs_deployment_test.Gait.Plan.{
  Geometry, Levels, GaitPlan, CommandedGaitState, cycle_length, gait_of, configured, configure,
}
use muto_rs_deployment_test.Gait.Cycle.{Move, IsWell, move-IsWell, next_step-returns}
use muto_rs_deployment_test.Gait.Latch.{
  Amplitudes, CommandKey, Command, Hexapod, classify_command, command_of, is_pending, with_key,
  apply_command, at_cycle_boundary, replace_pending, with_step, step_after, advance,
}

module _ {F P : Type 0} ⦃am : Amplitudes F⦄ (geo : Geometry F P) where
  IsSupported : Levels F → CommandKey F → Type 0
  IsSupported l key = (gait : Levels F × List P) × (gait_of geo key.mode l ≡ some gait)

  -- The five modes of the latch are gaits.
  classify_command-IsSupported : (l : Levels F) → IsSupported l (classify_command l)
  unfolding classify_command IsSupported
  classify_command-IsSupported l =
      if-cases (IsSupported l) (am.is_zero l.x && (am.is_zero l.y && am.is_zero l.z))
        (λ _. (_, refl))
        λ _.
          if-cases (IsSupported l) (am.is_zero l.z)
            (λ _. if-cases (IsSupported l) (not (am.is_zero l.x)) (λ _. (_, refl)) (λ _. (_, refl)))
            (λ _.
              if-cases (IsSupported l) (am.is_zero l.x && am.is_zero l.y) (λ _. (_, refl))
                (λ _. (_, refl)))

  -- What applying a command of the latch does.
  pub record HasApplied (l : Levels F) (h : Hexapod F P) (out : Result (Unit {0}) × Hexapod F P)
      : Type 0 where
    pub returns : out.0 ≡ ok tt
    pub key_is : out.1.command_key ≡ some (classify_command l)
    pub well : IsWell out.1.gait
    pub same_pending : out.1.pending_command ≡ h.pending_command

  with_key-HasApplied :
      (l : Levels F) (h : Hexapod F P) (out : Result (Unit {0}) × GaitPlan F P)
      → out.0 ≡ ok tt
      → IsWell out.1
      → HasApplied l h (with_key geo (classify_command l) h out)
  with_key-HasApplied l h (ok tt, g) e w = record {
    returns = refl;
    key_is = refl;
    well = w;
    same_pending = refl;
  }
  with_key-HasApplied l h (err failure, g) e w = cc

  configure-returns :
      (l : Levels F) (g : GaitPlan F P)
      → (configure geo (classify_command l).mode l false g).0 ≡ ok tt
  unfolding configure IsSupported
  configure-returns l g =
      let (gait, e) = classify_command-IsSupported l in
      subst
        (λ (o : Option (Levels F × List P)).
          (configured (classify_command l).mode false g o).0 ≡ ok tt)
        (sym e) refl

  pub apply_command-HasApplied :
      (l : Levels F) (h : Hexapod F P)
      → IsWell h.gait
      → HasApplied l h (apply_command geo (command_of l) h)
  unfolding apply_command
  apply_command-HasApplied l h w =
      with_key-HasApplied l h (configure geo (classify_command l).mode l false h.gait)
        (configure-returns l h.gait)
        (move-IsWell geo (Move.replace (classify_command l).mode l false) h.gait w)

  -- The states of a latch: a well gait, and a command of some levels that waits, if any.
  pub record IsLatched (h : Hexapod F P) : Type 0 where
    pub well : IsWell h.gait
    pub waiting : (c : Command F) → h.pending_command ≡ some c → (l : Levels F) × (c ≡ command_of l)

  -- What a step makes of the latch.
  pub record HasAdvanced (h : Hexapod F P) (out : Result (CommandedGaitState F P) × Hexapod F P)
      : Type 0 where
    pub same_key_is : out.1.command_key ≡ h.command_key
    pub same_waiting : out.1.pending_command ≡ h.pending_command
    pub well : IsWell out.1.gait
    pub phase_is : out.1.gait.phase_index ≡ (h.gait.phase_index + 1) % cycle_length h.gait
    pub same_targets : out.1.gait.targets ≡ h.gait.targets

  step-HasAdvanced : (h : Hexapod F P) → IsWell h.gait → HasAdvanced h (step_after geo (ok tt, h))
  step-HasAdvanced h w =
      let (target, _, e) = next_step-returns geo h.gait w in
      subst
        (λ (out : Result (CommandedGaitState F P) × GaitPlan F P).
          HasAdvanced h (with_step geo h out))
        (sym e)
        (record {
          same_key_is = refl;
          same_waiting = refl;
          well = record { phase = mod-lt (h.gait.phase_index + 1) (omega (arith, w.phase)) };
          phase_is = refl;
          same_targets = refl;
        })

  replace_pending-idle :
      (o : Option (Command F)) (h : Hexapod F P)
      → (is_pending o && at_cycle_boundary geo h.gait) ≡ false
      → replace_pending geo o h ≡ (ok tt, h)
  replace_pending-idle none h e = refl
  replace_pending-idle (some c) h e = rw e refl

  -- A tick that nothing waits for, or before the boundary.
  pub advance-HasAdvanced :
      (h : Hexapod F P)
      → IsWell h.gait
      → (is_pending h.pending_command && at_cycle_boundary geo h.gait) ≡ false
      → HasAdvanced h (advance geo h)
  unfolding advance
  advance-HasAdvanced h w e =
      subst (λ (out : Result (Unit {0}) × Hexapod F P). HasAdvanced h (step_after geo out))
        (sym (replace_pending-idle h.pending_command h e)) (step-HasAdvanced h w)

  -- The latch after the command of some levels has been applied.
  pub record HasTaken (l : Levels F) (h : Hexapod F P) : Type 0 where
    pub key_is : h.command_key ≡ some (classify_command l)
    pub none_waits : h.pending_command ≡ none
    pub well : IsWell h.gait

  step_after-HasTaken :
      (l : Levels F) (before : Hexapod F P) (out : Result (Unit {0}) × Hexapod F P)
      → before.pending_command ≡ none
      → HasApplied l before out
      → HasTaken l (step_after geo out).1
  step_after-HasTaken l before (ok tt, h) e a =
      let s = step-HasAdvanced h a.well in
      record {
        key_is = s.same_key_is ∙ a.key_is;
        none_waits = s.same_waiting ∙ (a.same_pending ∙ e);
        well = s.well;
      }
  step_after-HasTaken l before (err failure, h) e a = absurd (ground (arith, a.returns))

  -- At the boundary the command that waits is applied.
  pub advance-HasTaken :
      (h : Hexapod F P) (l : Levels F)
      → IsWell h.gait
      → h.pending_command ≡ some (command_of l)
      → h.gait.phase_index ≡ 0
      → HasTaken l (advance geo h).1
  unfolding advance
  advance-HasTaken h l w e boundary =
      let cleared = record h { pending_command = none } in
      let applied : replace_pending geo (some (command_of l)) h
          ≡ apply_command geo (command_of l) cleared =
        rw boundary refl in
      subst (λ (out : Result (Unit {0}) × Hexapod F P). HasTaken l (step_after geo out).1)
        (sym (ap (λ (o : Option (Command F)). replace_pending geo o h) e ∙ applied))
        (step_after-HasTaken l cleared (apply_command geo (command_of l) cleared) refl
          (apply_command-HasApplied l cleared w))

  -- `tick` so many times
  abbrev pub advances : ℕ → Hexapod F P → Hexapod F P
  advances zero h = h
  advances (suc n) h = advances n (advance geo h).1

  -- A command that waits is taken within the rest of the cycle.
  abbrev pub Within : ℕ → Levels F → Hexapod F P → Type 0
  Within bound l h = (n : ℕ) × (n ≤ bound) × HasTaken l (advances n h)

  advances-Within :
      (left : ℕ) (h : Hexapod F P) (l : Levels F)
      → IsWell h.gait
      → h.pending_command ≡ some (command_of l)
      → 0 < h.gait.phase_index
      → h.gait.phase_index + left ≡ cycle_length h.gait
      → Within (left + 1) l h
  advances-Within zero h l w e later total = absurd (omega (arith, w.phase))
  advances-Within (suc zero) h l w e later total =
      let s = advance-HasAdvanced h w (ground arith) in
      let boundary : (advance geo h).1.gait.phase_index ≡ 0 =
        s.phase_is
        ∙ (ap (λ (k : ℕ). k % cycle_length h.gait) total ∙ mod_self (cycle_length h.gait)) in
      (2, omega arith, advance-HasTaken (advance geo h).1 l s.well (s.same_waiting ∙ e) boundary)
  advances-Within (suc (suc left)) h l w e later total =
      let s = advance-HasAdvanced h w (ground arith) in
      let next : (advance geo h).1.gait.phase_index ≡ h.gait.phase_index + 1 =
        s.phase_is ∙ mod-eq_of_lt (omega (arith, total)) in
      let (n, bound, taken) =
        advances-Within (suc left) (advance geo h).1 l s.well (s.same_waiting ∙ e)
          (omega (arith, next)) (omega (arith, next, ap length s.same_targets)) in
      (suc n, omega (arith, bound), taken)

  -- A command that waits is taken within one cycle.
  pub waiting-Within :
      (h : Hexapod F P) (l : Levels F)
      → IsWell h.gait
      → h.pending_command ≡ some (command_of l)
      → Within (cycle_length h.gait) l h
  waiting-Within h l w e = elim (Bool-cases (eqb h.gait.phase_index 0)) [
    | inl boundary ↦ (1, omega (arith, w.phase), advance-HasTaken h l w e (ground arith))
    | inr inside ↦
        let (n, bound, taken) =
          advances-Within (cycle_length h.gait - h.gait.phase_index) h l w e (ground arith)
            (omega (arith, w.phase)) in
        (n, ground (arith, bound, w.phase), taken)
  ]
