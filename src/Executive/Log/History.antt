-- ===== src/Executive/Log/History.antt =====
-- The event log over many calls (executive.py): it is append-only and numbered from one.
use muto_rs_deployment_test.Prelude.{
  ℕ, suc, ◌+◌, List, [], ◌∷◌, ◌++◌, Floats, ◌≡◌, sym, ◌∙◌, ap, arith, length,
}
use mathlib.Core.List.{append-nil, append_assoc}
use mathlib.Core.Path.{subst}
use muto_rs_deployment_test.Contracts.Board.{MissionBoard}
use muto_rs_deployment_test.Contracts.Event.{MissionEvent}
use muto_rs_deployment_test.Executive.State.{MissionExecutive}
use muto_rs_deployment_test.Executive.Calls.{Call, perform, perform_all}
use muto_rs_deployment_test.Executive.Log.{IsStamped, Logs}
use muto_rs_deployment_test.Executive.Log.Methods.{perform-Logs}

-- The sequence numbers are `n + 1`, `n + 2` and so on.
abbrev pub IsNumbered : {F : Type 0} → ℕ → List (MissionEvent F) → Type 0
IsNumbered n [] = Unit
IsNumbered n (e ∷ es) = (e.sequence ≡ suc n) × IsNumbered (suc n) es

module _ {F : Type 0} where
  IsNumbered-append :
      (n : ℕ) (es fs : List (MissionEvent F))
      → IsNumbered n es
      → IsNumbered (n + length es) fs
      → IsNumbered n (es ++ fs)
  IsNumbered-append n [] fs h k = subst (λ m. IsNumbered m fs) (omega arith) k
  IsNumbered-append n (e ∷ es) fs h k =
      (h.0, IsNumbered-append (suc n) es fs h.1 (subst (λ m. IsNumbered m fs) (omega arith) k))

  IsStamped-IsNumbered :
      (b : MissionBoard F) (n : ℕ) (es : List (MissionEvent F)) → IsStamped b n es → IsNumbered n es
  IsStamped-IsNumbered b n [] h = tt
  IsStamped-IsNumbered b n (e ∷ es) h = (h.0, IsStamped-IsNumbered b (suc n) es h.4)

  Logs-IsNumbered :
      (s t : MissionExecutive F) → Logs s t → IsNumbered 0 s.events → IsNumbered 0 t.events
  Logs-IsNumbered s t h k = subst (IsNumbered 0) (sym h.appended) (
      IsNumbered-append 0 s.events h.new k (
        subst (λ m. IsNumbered m h.new) (omega arith)
          (IsStamped-IsNumbered t.board (length s.events) h.new h.stamped)))

module _ {F : Type 0} ⦃fl : Floats F⦄ where
  -- After any calls on an executive whose events are numbered 1, 2, 3 and so on, they still are, and the
  -- events that stood in the log stand at its beginning, unchanged.
  pub perform_all-IsNumbered :
      (cs : List (Call F)) (s : MissionExecutive F)
      → IsNumbered 0 s.events
      → IsNumbered 0 (perform_all cs s).events
        × ((new : List (MissionEvent F)) × ((perform_all cs s).events ≡ s.events ++ new))
  unfolding perform_all
  perform_all-IsNumbered [] s h = (h, ([], sym (append-nil s.events)))
  perform_all-IsNumbered (c ∷ cs) s h =
      let one = perform-Logs c s in
      let (numbered, (more, same)) =
        perform_all-IsNumbered cs (perform c s).1 (Logs-IsNumbered s (perform c s).1 one h) in
      (
        numbered,
        (
          one.new ++ more,
          same
              ∙ ap (λ (l : List (MissionEvent F)). l ++ more) one.appended
              ∙ append_assoc s.events one.new more,
        ),
      )
