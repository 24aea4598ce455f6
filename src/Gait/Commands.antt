-- ===== src/Gait/Commands.antt =====
-- The latest command takes effect within a cycle, and no gait is replaced inside one (core/hexapod.py,
-- `set_command` and `tick`).
use muto_rs_deployment_test.Prelude.{
  ℕ, ◌≤◌, Bool, true, ◌&&◌, ◌||◌, Option, none, some, ◌==◌, Bool-cases, Option-cases, if-cases, ◌≡◌,
  refl, sym, ap, ◌∙◌, ◌⊎◌, inl, inr, arith,
}
use muto_rs_deployment_test.Result.{Result, ok, err}
use muto_rs_deployment_test.Gait.Plan.{Geometry, Levels, cycle_length}
use muto_rs_deployment_test.Gait.Cycle.{IsWell}
use muto_rs_deployment_test.Gait.Latch.{
  Amplitudes, CommandKey, Command, Hexapod, classify_command, command_of, same_key, runs, waits,
  is_pending, new_hexapod, apply_command, answered, set_at_once, set_replacement, set_command,
  at_cycle_boundary, advance,
}
use muto_rs_deployment_test.Gait.Latched.{
  HasApplied, apply_command-HasApplied, IsLatched, HasAdvanced, advance-HasAdvanced, HasTaken,
  advance-HasTaken, advances, waiting-Within,
}

module _ {F P : Type 0} ⦃am : Amplitudes F⦄ (geo : Geometry F P) where
  -- What a command comes to: it runs, or one with the same key waits.
  data Accepts (key : CommandKey F) (h : Hexapod F P) : Type 0 where
    runs_now : runs key h.command_key ≡ true → Accepts key h
    waits_for :
        (l : Levels F)
        → IsWell h.gait
        → h.pending_command ≡ some (command_of l)
        → same_key key (classify_command l) ≡ true
        → Accepts key h

  answered-Accepts :
      (l : Levels F) (before : Hexapod F P) (out : Result (Unit {0}) × Hexapod F P)
      → same_key (classify_command l) (classify_command l) ≡ true
      → HasApplied geo l before out
      → Accepts (classify_command l) (answered geo true out).1
  answered-Accepts l before (ok tt, h) same a =
      Accepts.runs_now (ap (runs (classify_command l)) a.key_is ∙ same)
  answered-Accepts l before (err failure, h) same a = absurd (ground (arith, a.returns))

  set_at_once-Accepts :
      (l : Levels F) (h : Hexapod F P)
      → IsLatched geo h
      → same_key (classify_command l) (classify_command l) ≡ true
      → Accepts (classify_command l) (set_at_once geo (command_of l) h).1
  set_at_once-Accepts l h i same =
      let cleared = record h { pending_command = none } in
      if-cases (λ (out : Result Bool × Hexapod F P). Accepts (classify_command l) out.1)
        (runs (classify_command l) h.command_key) (λ e. Accepts.runs_now e)
        (λ _.
          answered-Accepts l cleared (apply_command geo (command_of l) cleared) same
            (apply_command-HasApplied geo l cleared i.well))

  waits-Accepts :
      (l : Levels F) (h : Hexapod F P)
      → IsLatched geo h
      → waits (classify_command l) h.pending_command ≡ true
      → Accepts (classify_command l) h
  waits-Accepts l h i e = elim (Option-cases h.pending_command) [
    | inl p ↦ absurd (ground (arith, ap (waits (classify_command l)) p, e))
    | inr (c, p) ↦
        let (m, c_is) = i.waiting c p in
        Accepts.waits_for m i.well (p ∙ ap some c_is) (
          ap (λ (c : Command F). same_key (classify_command l) c.key) (sym c_is)
          ∙ (ap (waits (classify_command l)) (sym p) ∙ e))
  ]

  set_replacement-Accepts :
      (l : Levels F) (h : Hexapod F P)
      → IsLatched geo h
      → same_key (classify_command l) (classify_command l) ≡ true
      → Accepts (classify_command l) (set_replacement geo (command_of l) h).1
  set_replacement-Accepts l h i same =
      if-cases (λ (out : Result Bool × Hexapod F P). Accepts (classify_command l) out.1)
        (runs (classify_command l) h.command_key) (λ e. Accepts.runs_now e)
        λ _.
          if-cases (λ (out : Result Bool × Hexapod F P). Accepts (classify_command l) out.1)
            (waits (classify_command l) h.pending_command) (λ e. waits-Accepts l h i e)
            (λ _. Accepts.waits_for l i.well refl same)

  set_command-Accepts :
      (l : Levels F) (h : Hexapod F P)
      → IsLatched geo h
      → same_key (classify_command l) (classify_command l) ≡ true
      → Accepts (classify_command l) (set_command geo l h).1
  unfolding set_command
  set_command-Accepts l h i same =
      if-cases (λ (out : Result Bool × Hexapod F P). Accepts (classify_command l) out.1)
        ((command_of l).mode == "standby" || h.gait.mode == "standby")
        (λ _. set_at_once-Accepts l h i same) (λ _. set_replacement-Accepts l h i same)

  Accepts-runs :
      (key : CommandKey F) (h : Hexapod F P)
      → Accepts key h
      → (n : ℕ) × (n ≤ cycle_length h.gait) × (runs key (advances geo n h).command_key ≡ true)
  Accepts-runs key h (Accepts.runs_now e) = (0, omega arith, e)
  Accepts-runs key h (Accepts.waits_for l w e same) =
      let (n, bound, taken) = waiting-Within geo h l w e in
      (n, bound, ap (runs key) taken.key_is ∙ same)

  -- The latch as it is used: commands of levels, and ticks.
  pub data Reached : Hexapod F P → Type 0 where
    initial : Reached (new_hexapod geo)
    commanded : {h : Hexapod F P} (l : Levels F) → Reached h → Reached (set_command geo l h).1
    ticked : {h : Hexapod F P} → Reached h → Reached (advance geo h).1

  answered-IsLatched :
      (l : Levels F) (before : Hexapod F P) (out : Result (Unit {0}) × Hexapod F P)
      → before.pending_command ≡ none
      → HasApplied geo l before out
      → IsLatched geo (answered geo true out).1
  answered-IsLatched l before (ok tt, h) e a = record {
    well = a.well;
    waiting = λ c p. absurd (ground (arith, a.same_pending, e, p));
  }
  answered-IsLatched l before (err failure, h) e a = absurd (ground (arith, a.returns))

  cleared-IsLatched :
      (h : Hexapod F P) → IsLatched geo h → IsLatched geo (record h { pending_command = none })
  cleared-IsLatched h i = record { well = i.well; waiting = λ c p. cc }

  set_command-IsLatched :
      (l : Levels F) (h : Hexapod F P) → IsLatched geo h → IsLatched geo (set_command geo l h).1
  unfolding set_command
  set_command-IsLatched l h i =
      let cleared = record h { pending_command = none } in
      let Keeps : Result Bool × Hexapod F P → Type 0 = λ out. IsLatched geo out.1 in
      if-cases Keeps ((command_of l).mode == "standby" || h.gait.mode == "standby")
        (λ _.
          if-cases Keeps (runs (classify_command l) h.command_key) (λ _. cleared-IsLatched h i)
            (λ _.
              answered-IsLatched l cleared (apply_command geo (command_of l) cleared) refl
                (apply_command-HasApplied geo l cleared i.well)))
        λ _.
          if-cases Keeps (runs (classify_command l) h.command_key) (λ _. cleared-IsLatched h i)
            λ _.
              if-cases Keeps (waits (classify_command l) h.pending_command) (λ _. i)
                (λ _. record { well = i.well; waiting = λ c p. (l, ground (arith, p)) })

  -- A tick is in the middle of a cycle, or nothing waits, or the command that waits is applied.
  advance-cases :
      (h : Hexapod F P)
      → IsLatched geo h
      → HasAdvanced geo h (advance geo h)
        ⊎ ((l : Levels F) × (h.gait.phase_index ≡ 0) × HasTaken geo l (advance geo h).1)
  advance-cases h i =
      elim (Bool-cases (is_pending h.pending_command && at_cycle_boundary geo h.gait)) [
        | inr e ↦ inl (advance-HasAdvanced geo h i.well e)
        | inl e ↦ elim (Option-cases h.pending_command) [
          | inl p ↦ absurd (ground (arith, ap (λ (o : Option (Command F)). is_pending o) p, e))
          | inr (c, p) ↦
              let (l, c_is) = i.waiting c p in
              let boundary : h.gait.phase_index ≡ 0 = ground (arith, e) in
              inr (l, boundary, advance-HasTaken geo h l i.well (p ∙ ap some c_is) boundary)
        ]
      ]

  advance-IsLatched : (h : Hexapod F P) → IsLatched geo h → IsLatched geo (advance geo h).1
  advance-IsLatched h i = elim (advance-cases h i) [
    | inl s ↦ record { well = s.well; waiting = λ c p. i.waiting c (sym s.same_waiting ∙ p) }
    | inr (l, _, taken) ↦ record {
      well = taken.well;
      waiting = λ c p. absurd (ground (arith, taken.none_waits, p));
    }
  ]

  Reached-IsLatched : {h : Hexapod F P} → Reached h → IsLatched geo h
  Reached-IsLatched Reached.initial = record {
    well = record { phase = omega arith };
    waiting = λ c p. cc;
  }
  Reached-IsLatched (Reached.commanded {h} l r) = set_command-IsLatched l h (Reached-IsLatched r)
  Reached-IsLatched (Reached.ticked {h} r) = advance-IsLatched h (Reached-IsLatched r)

  -- After any commands and ticks, a further command runs after at most as many ticks as the cycle
  -- that it leaves has phases, if no other command is given: the key of the executing gait is then
  -- that of the command. Its levels are assumed to be equal to themselves, so not NaN.
  pub set_command-runs :
      {h : Hexapod F P} (l : Levels F)
      → Reached h
      → same_key (classify_command l) (classify_command l) ≡ true
      → (n : ℕ) × (n ≤ cycle_length (set_command geo l h).1.gait)
        × (runs (classify_command l) (advances geo n (set_command geo l h).1).command_key ≡ true)
  set_command-runs {h} l r same =
      Accepts-runs (classify_command l) (set_command geo l h).1
        (set_command-Accepts l h (Reached-IsLatched r) same)

  -- After any commands and ticks, a command leaves the targets of the feet as they are unless it is
  -- for standby or the robot stands, and a tick leaves them as they are unless the last phase ended
  -- a cycle: no gait is replaced inside a cycle but by standby.
  pub Reached-IsSmooth :
      {h : Hexapod F P} (l : Levels F)
      → Reached h
      → (((set_command geo l h).1.gait.targets ≡ h.gait.targets)
          ⊎ (((classify_command l).mode == "standby" || h.gait.mode == "standby") ≡ true))
        × (((advance geo h).1.gait.targets ≡ h.gait.targets) ⊎ (h.gait.phase_index ≡ 0))
  unfolding set_command
  Reached-IsSmooth {h} l r =
      let Keeps : Result Bool × Hexapod F P → Type 0 = λ out.
        (out.1.gait.targets ≡ h.gait.targets)
        ⊎ (((classify_command l).mode == "standby" || h.gait.mode == "standby") ≡ true) in
      (
        if-cases Keeps ((command_of l).mode == "standby" || h.gait.mode == "standby") (λ e. inr e)
            λ _.
              if-cases Keeps (runs (classify_command l) h.command_key) (λ _. inl refl)
                λ _.
                  if-cases Keeps (waits (classify_command l) h.pending_command) (λ _. inl refl)
                    (λ _. inl refl),
        elim (advance-cases h (Reached-IsLatched r)) [
          | inl s ↦ inl s.same_targets
          | inr (l, boundary, _) ↦ inr boundary
        ],
      )
