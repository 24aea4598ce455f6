-- ===== src/Executive/Log.antt =====
-- The event log (executive.py, `_emit` and its callers): every call appends, numbers the events from
-- one without a gap, and stamps them with the board that it leaves.
pub mod Methods
pub mod History
use muto_rs_deployment_test.Prelude.{
  ℕ, suc, ◌+◌, Bool, true, false, Option, none, some, List, [], ◌∷◌, ◌++◌, String, Floats, ◌≡◌,
  refl, sym, ◌∙◌, ap, arith, ◌⊎◌, inl, inr, nonempty, length, length-append, if◌then◌else◌,
}
use mathlib.Core.List.{append-nil, append_assoc}
use mathlib.Core.Path.{subst}
use muto_rs_deployment_test.Result.{Result, ok, err}
use muto_rs_deployment_test.Contracts.Evidence.{CandidateEvidence}
use muto_rs_deployment_test.Contracts.Board.{MissionBoard, evolved}
use muto_rs_deployment_test.Contracts.Event.{EventFields, MissionEvent, mission_event, normal_event}
use muto_rs_deployment_test.Executive.State.{
  MissionExecutive, Method, continue, with_board, get_board, new_event, emit, evolve_board, commit,
}

-- Events numbered from `n + 1` on, each with the revision, the state and the mission of the board.
abbrev pub IsStamped : {F : Type 0} → MissionBoard F → ℕ → List (MissionEvent F) → Type 0
IsStamped b n [] = Unit
IsStamped b n (e ∷ es) =
    (e.sequence ≡ suc n)
    × (e.board_revision ≡ b.board_revision)
    × (e.lifecycle_state ≡ b.lifecycle_state)
    × (e.mission_id ≡ b.mission_id)
    × IsStamped b (suc n) es

-- `t` comes after `s`, with new events of the board of `t`.
pub record Logs {F : Type 0} (s t : MissionExecutive F) : Type 0 where
  pub new : List (MissionEvent F)
  pub appended : t.events ≡ s.events ++ new
  pub stamped : IsStamped t.board (length s.events) new

module _ {F : Type 0} where
  IsStamped-append :
      (b : MissionBoard F) (n : ℕ) (es : List (MissionEvent F)) (e : MissionEvent F)
      → IsStamped b n es
      → e.sequence ≡ suc (n + length es)
      → e.board_revision ≡ b.board_revision
      → e.lifecycle_state ≡ b.lifecycle_state
      → e.mission_id ≡ b.mission_id
      → IsStamped b n (es ++ e ∷ [])
  IsStamped-append b n [] e h q r l m = (omega arith, r, l, m, tt)
  IsStamped-append b n (x ∷ es) e h q r l m =
      (h.0, h.1, h.2, h.3, IsStamped-append b (suc n) es e h.4 (omega arith) r l m)

  pub Logs-same : (s t : MissionExecutive F) → t.events ≡ s.events → Logs s t
  Logs-same s t e = record { new = []; appended = e ∙ sym (append-nil _); stamped = tt }

  -- one more event, of the same board
  Logs-event :
      (s t : MissionExecutive F) (e : MissionEvent F)
      → Logs s t
      → e.sequence ≡ length t.events + 1
      → e.board_revision ≡ t.board.board_revision
      → e.lifecycle_state ≡ t.board.lifecycle_state
      → e.mission_id ≡ t.board.mission_id
      → Logs s (record t { events = t.events ++ e ∷ [] })
  Logs-event s t e h q r l m = record {
    new = h.new ++ e ∷ [];
    appended =
        ap (λ (l : List (MissionEvent F)). l ++ e ∷ []) h.appended
        ∙ append_assoc s.events h.new (e ∷ []);
    stamped =
        IsStamped-append t.board (length s.events) h.new e h.stamped
          (omega (arith, ap length h.appended, length-append s.events h.new)) r l m;
  }

module _ {F : Type 0} ⦃fl : Floats F⦄ where
  emit-cases :
      (f : EventFields F) (s : MissionExecutive F)
      → (emit f s ≡ (ok tt, record s { events = s.events ++ normal_event (new_event s f) ∷ [] }))
        ⊎ ((emit f s).1 ≡ s)
  unfolding emit
  emit-cases f s = ground arith

  pub emit-Logs : (s t : MissionExecutive F) (f : EventFields F) → Logs s t → Logs s (emit f t).1
  emit-Logs s t f h = elim (emit-cases f t) [
    | inr e ↦ subst (Logs s) (sym e) h
    | inl e ↦
        subst (λ m. Logs s m.1) (sym e)
          (unfold normal_event in Logs-event s t _ h refl refl refl refl)
  ]

  evolve_board-events :
      (changed : MissionBoard F) (s : MissionExecutive F)
      → (evolve_board changed s).1.events ≡ s.events
  unfolding evolve_board
  evolve_board-events changed s = ground arith

  pub evolve_board-Logs :
      (changed : MissionBoard F) (s : MissionExecutive F) → Logs s (evolve_board changed s).1
  evolve_board-Logs changed s = Logs-same s _ (evolve_board-events changed s)

-- The whole method appends to the log.
abbrev pub IsLogged : {F A : Type 0} → Method F A → Type 0
IsLogged {F} m = (s : MissionExecutive F) → Logs s (m s).1

module _ {F A B : Type 0} where
  pub continue-Logs :
      (s : MissionExecutive F) (m : Result A × MissionExecutive F) (f : A → Method F B)
      → Logs s m.1
      → ((a : A) (t : MissionExecutive F) → Logs s t → Logs s (f a t).1)
      → Logs s (continue m f).1
  continue-Logs s (ok a, t) f h k = k a t h
  continue-Logs s (err e, t) f h k = h

  pub lift-IsLogged :
      (s : MissionExecutive F) (r : Result A) (f : A → Method F B)
      → ((a : A) → Logs s (f a s).1)
      → Logs s (continue (r, s) f).1
  lift-IsLogged s (ok a) f k = k a
  lift-IsLogged s (err e) f k = Logs-same s s refl

module _ {F A : Type 0} where
  pub if-IsLogged :
      (s : MissionExecutive F) (c : Bool) (m n : Method F A)
      → Logs s (m s).1
      → Logs s (n s).1
      → Logs s ((if c then m else n) s).1
  if-IsLogged s true m n h k = h
  if-IsLogged s false m n h k = k

module _ {F : Type 0} ⦃fl : Floats F⦄ where
  pub get_board-IsLogged : (s : MissionExecutive F) → Logs s (get_board s).1
  get_board-IsLogged s = Logs-same s s refl

  pub commit-IsLogged :
      (changed : MissionBoard F) (f : EventFields F) (s : MissionExecutive F)
      → Logs s (commit changed f s).1
  commit-IsLogged changed f s =
      continue-Logs s (evolve_board changed s) _ (evolve_board-Logs changed s)
        λ _ t h. continue-Logs s (emit f t) _ (emit-Logs s t f h) (λ _ _ k. k)
