-- ===== src/Executive/State.antt =====
-- The state of `MissionExecutive`, the monad of its methods, `_emit` and the evolution of the board.
use muto_rs_deployment_test.Prelude.{ℕ, ◌+◌, Option, List, [], ◌∷◌, ◌++◌, String, Floats, length}
use muto_rs_deployment_test.Result.{Result, ok, err}
use muto_rs_deployment_test.Contracts.{CompletionPolicy}
use muto_rs_deployment_test.Contracts.Board.{MissionBoard, empty_board, evolve}
use muto_rs_deployment_test.Contracts.Event.{EventFields, MissionEvent, mission_event}

pub record MissionExecutive (F : Type 0) : Type 0 where
  pub board : MissionBoard F
  pub events : List (MissionEvent F)
  pub mission_counter : ℕ
  pub scenario_completion_policy : Option CompletionPolicy
  pub scenario_id : String

-- A method may raise; what it wrote before stays written.
abbrev pub Method : Type 0 → Type 0 → Type 0
Method F A = MissionExecutive F → Result A × MissionExecutive F

module _ {F A B : Type 0} where
  abbrev pub continue :
      Result A × MissionExecutive F → (A → Method F B) → Result B × MissionExecutive F
  continue (ok a, s) f = f a s
  continue (err e, s) f = (err e, s)

  infixl 10 ◌>>=◌ ◌>>◌
  abbrev pub ◌>>=◌ : Method F A → (A → Method F B) → Method F B
  ◌>>=◌ m f s = continue (m s) f

  abbrev pub ◌>>◌ : Method F A → Method F B → Method F B
  ◌>>◌ m n s = continue (m s) (λ _. n)

module _ {F A : Type 0} where
  abbrev pub lift : Result A → Method F A
  lift r s = (r, s)

  -- the rest of a method, with the board that it reads
  abbrev pub with_board : (MissionBoard F → Method F A) → Method F A
  with_board f s = f s.board s

abbrev pub get_board : {F : Type 0} → Method F (MissionBoard F)
get_board s = (ok s.board, s)

module _ {F : Type 0} ⦃fl : Floats F⦄ where
  -- `MissionExecutive()`
  abbrev pub new_executive : Option CompletionPolicy → String → MissionExecutive F
  new_executive policy scenario = record {
    board = empty_board;
    events = [];
    mission_counter = 0;
    scenario_completion_policy = policy;
    scenario_id = scenario;
  }

  abbrev pub store_board : Result (MissionBoard F) → Method F (Unit {0})
  store_board (ok b) s = (ok tt, record s { board = b })
  store_board (err e) s = (err e, s)

  -- `self._board = self._board.evolve(...)`
  unfoldable pub evolve_board : MissionBoard F → Method F (Unit {0})
  unfolding evolve
  evolve_board changed s = store_board (evolve s.board changed) s

  abbrev pub append_event : Result (MissionEvent F) → Method F (Unit {0})
  append_event (ok e) s = (ok tt, record s { events = s.events ++ e ∷ [] })
  append_event (err e) s = (err e, s)

  -- the event that `_emit` makes of its keywords
  abbrev pub new_event : MissionExecutive F → EventFields F → MissionEvent F
  new_event s fields = record {
    sequence = length s.events + 1;
    mission_id = s.board.mission_id;
    request_id = s.board.request_id;
    board_revision = s.board.board_revision;
    lifecycle_state = s.board.lifecycle_state;
    fields = fields;
  }

  -- `self._emit(...)`
  unfoldable pub emit : EventFields F → Method F (Unit {0})
  unfolding mission_event
  emit fields s = append_event (mission_event (new_event s fields)) s

  -- the end of most methods: the board evolves, an event is emitted, the board is returned
  abbrev pub commit : MissionBoard F → EventFields F → Method F (MissionBoard F)
  commit changed fields = do evolve_board changed; emit fields; get_board
