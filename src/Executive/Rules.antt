-- ===== src/Executive/Rules.antt =====
-- How a method acts on the board, one rule for each way to build a method.
use muto_rs_deployment_test.Prelude.{
  sym, Bool, true, false, Floats, ◌≡◌, refl, arith, ◌⊎◌, inl, inr, if◌then◌else◌,
}
use mathlib.Core.Path.{subst}
use muto_rs_deployment_test.Result.{Result, ok, err, Failure}
use muto_rs_deployment_test.Contracts.Board.{
  MissionBoard, evolved, valid_board, mission_board, evolve,
}
use muto_rs_deployment_test.Contracts.Event.{EventFields}
use muto_rs_deployment_test.Executive.State.{
  store_board, MissionExecutive, Method, continue, emit, evolve_board, commit,
}

module _ {F A B : Type 0} where
  -- A raised check leaves the board; one that passes gives its value to the rest.
  pub lift-board :
      (P : MissionBoard F → Type 0) (r : Result A) (f : A → Method F B) (s : MissionExecutive F)
      → P s.board
      → ((a : A) → r ≡ ok a → P (f a s).1.board)
      → P (continue (r, s) f).1.board
  lift-board P (ok a) f s stay go = go a refl
  lift-board P (err e) f s stay go = stay

module _ {F A : Type 0} where
  pub if-board :
      (P : MissionBoard F → Type 0) (c : Bool) (m n : Method F A) (s : MissionExecutive F)
      → (c ≡ true → P (m s).1.board)
      → (c ≡ false → P (n s).1.board)
      → P ((if c then m else n) s).1.board
  if-board P true m n s yes_ no_ = yes_ refl
  if-board P false m n s yes_ no_ = no_ refl

module _ {F : Type 0} ⦃fl : Floats F⦄ where
  -- An event is no change of the board.
  pub emit-board : (f : EventFields F) (s : MissionExecutive F) → (emit f s).1.board ≡ s.board
  unfolding emit
  emit-board f s = ground arith

  mission_board-ok :
      (b : MissionBoard F) {out : MissionBoard F}
      → mission_board b ≡ ok out
      → (out ≡ b) × (valid_board b ≡ true)
  unfolding mission_board
  mission_board-ok b h = ground arith

  evolve-cases :
      (changed : MissionBoard F) (s : MissionExecutive F) (r : Result (MissionBoard F))
      → evolve s.board changed ≡ r
      → (evolve_board changed s ≡ (ok tt, record s { board = evolved s.board changed }))
          × (valid_board (evolved s.board changed) ≡ true)
        ⊎ ((e : Failure) × (evolve_board changed s ≡ (err e, s)))
  unfolding evolve_board
  evolve-cases changed s (ok b) h =
      let (same, valid) = mission_board-ok (evolved s.board changed) {out = b} h in
      inl (rw (h, store_board) (rw same refl), valid)
  evolve-cases changed s (err e) h = inr (e, rw (h, store_board) refl)

  -- The board evolves, or its constructor raises and nothing changes.
  pub evolve_board-cases :
      (changed : MissionBoard F) (s : MissionExecutive F)
      → (evolve_board changed s ≡ (ok tt, record s { board = evolved s.board changed }))
          × (valid_board (evolved s.board changed) ≡ true)
        ⊎ ((e : Failure) × (evolve_board changed s ≡ (err e, s)))
  evolve_board-cases changed s = evolve-cases changed s (evolve s.board changed) refl

  -- A board that its constructor passes is stored.
  pub evolve_board-valid :
      (changed : MissionBoard F) (s : MissionExecutive F)
      → valid_board (evolved s.board changed) ≡ true
      → evolve_board changed s ≡ (ok tt, record s { board = evolved s.board changed })
  unfolding evolve_board mission_board
  evolve_board-valid changed s valid = ground (arith, valid)

  commit-cases :
      (changed : MissionBoard F) (f : EventFields F) (s : MissionExecutive F)
      → ((commit changed f s).1.board ≡ evolved s.board changed)
          × (valid_board (evolved s.board changed) ≡ true)
        ⊎ ((commit changed f s).1.board ≡ s.board)
  unfolding evolve_board emit
  commit-cases changed f s = ground arith

  -- What holds of the old board and of the evolved one holds after a commit.
  pub commit-board :
      (P : MissionBoard F → Type 0) (changed : MissionBoard F) (f : EventFields F)
      (s : MissionExecutive F)
      → P s.board
      → (valid_board (evolved s.board changed) ≡ true → P (evolved s.board changed))
      → P (commit changed f s).1.board
  commit-board P changed f s stay go = elim (commit-cases changed f s) [
    | inl (e, valid) ↦ subst P (sym e) (go valid)
    | inr e ↦ subst P (sym e) stay
  ]

module _ {F A B : Type 0} where
  pub continue-board :
      (m : Result A × MissionExecutive F) (f : A → Method F B)
      → ((a : A) (s : MissionExecutive F) → (f a s).1.board ≡ s.board)
      → (continue m f).1.board ≡ m.1.board
  continue-board (ok a, s) f same = same a s
  continue-board (err e, s) f same = refl

  -- Inversion of a bind that does not raise.
  pub continue-eq-ok :
      (m : Result A × MissionExecutive F) (f : A → Method F B) (b : B)
      → (continue m f).0 ≡ ok b
      → (a : A) × (m.0 ≡ ok a) × ((f a m.1).0 ≡ ok b)
  continue-eq-ok (ok a, s) f b h = (a, refl, h)
  continue-eq-ok (err e, s) f b h = cc

module _ {F A : Type 0} where
  -- A method that ends in a report of its board reports that.
  pub continue-reports :
      (m : Result A × MissionExecutive F) (f : A → Method F (MissionBoard F)) (b : MissionBoard F)
      → ((a : A) (t : MissionExecutive F) → (f a t).0 ≡ ok b → b ≡ (f a t).1.board)
      → (continue m f).0 ≡ ok b
      → b ≡ (continue m f).1.board
  continue-reports (ok a, s) f b k h = k a s h
  continue-reports (err e, s) f b k h = cc
