-- ===== src/Runtime/State.antt =====
-- The state of `CommanderRuntime` (runtime.py), what its constructor is given, and the monad of its
-- methods.
use muto_rs_deployment_test.Prelude.{ℕ, Bool}
use muto_rs_deployment_test.Result.{Failure, Result, ok, err}
use muto_rs_deployment_test.Contracts.Board.{MissionBoard}
use muto_rs_deployment_test.Executive.State.{MissionExecutive}
use muto_rs_deployment_test.Tools.Dispatcher.{ToolDispatcher, ToolBackend}
use muto_rs_deployment_test.Commander.{Planner}

-- What the constructor is given: the planner and the backend, which act on a world of type `W`, the
-- test for a cancellation, which reads it, and the two limits.
pub record Settings (F W : Type 0) : Type 0 where
  pub planner : Planner F W
  pub backend : ToolBackend F W
  pub cancel_requested : W → Bool × W
  pub consecutive_failure_limit : ℕ
  pub no_progress_limit : ℕ

pub record Runtime (F W : Type 0) : Type 0 where
  pub executive : MissionExecutive F
  pub dispatcher : ToolDispatcher F
  pub world : W
  pub decisions : ℕ

-- A method may raise; what it did before stays done.
abbrev pub Method : Type 0 → Type 0 → Type 0 → Type 0
Method F W A = Runtime F W → Result A × Runtime F W

module _ {F W A B : Type 0} where
  abbrev pub continue : Result A × Runtime F W → (A → Method F W B) → Result B × Runtime F W
  continue (ok a, s) f = f a s
  continue (err e, s) f = (err e, s)

  infixl 10 ◌>>=◌ ◌>>◌
  abbrev pub ◌>>=◌ : Method F W A → (A → Method F W B) → Method F W B
  ◌>>=◌ m f s = continue (m s) f

  abbrev pub ◌>>◌ : Method F W A → Method F W B → Method F W B
  ◌>>◌ m n s = continue (m s) (λ _. n)

module _ {F W A : Type 0} where
  abbrev pub return : A → Method F W A
  return a s = (ok a, s)

  abbrev pub lift : Result A → Method F W A
  lift r s = (r, s)

  abbrev pub caught : Result A × Runtime F W → (Failure → Method F W A) → Result A × Runtime F W
  caught (ok a, s) handler = (ok a, s)
  caught (err e, s) handler = handler e s

  -- `try: ... except Exception as exc: ...`
  abbrev pub try : Method F W A → (Failure → Method F W A) → Method F W A
  try m handler s = caught (m s) handler

  abbrev pub with_board : (MissionBoard F → Method F W A) → Method F W A
  with_board f s = f s.executive.board s
