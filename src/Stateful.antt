-- ===== src/Stateful.antt =====
-- `Stateful` of framework/services/stateful.py: the life of a service. What a service does when it
-- starts and stops acts on a world of any type; a stop procedure may raise, with the world changed
-- up to that point. Logging is left out.
pub mod Laws
use tempesta_test.Base.{
  Bool, true, false, not, ◌||◌, List, [], ◌∷◌, ◌++◌, Option, none, some, if◌then◌else◌, Error,
}

pub data State : Type 0 where
  begin_start started stopped error : State

abbrev pub is_error : State → Bool
is_error error = true
is_error _ = false

abbrev pub is_started : State → Bool
is_started started = true
is_started _ = false

pub record Service (W : Type 0) : Type 0 where
  pub state : State
  pub exceptions : List Error
  pub world : W

-- The world after a call, and the exception if it raises.
abbrev pub Procedure : Type 0 → Type 0
Procedure W = W → W × Option Error

abbrev is_stopped : State → Bool
is_stopped State.stopped = true
is_stopped _ = false

abbrev may_stop : State → Bool
may_stop State.started = true
may_stop State.begin_start = true
may_stop _ = false

module _ {W : Type 0} where
  -- `__init__`, once `clear_stats` has made the world.
  unfoldable pub new_service : W → Service W
  new_service w = record { state = State.stopped; exceptions = []; world = w }

  unfoldable pub append_exception : Error → Service W → Service W
  append_exception e s = record s { exceptions = s.exceptions ++ e ∷ []; state = State.error }

  -- `start`: the service, and the exception that `run_start` raises and `start` passes on.
  unfoldable pub start : Procedure W → Service W → Service W × Option Error
  start run_start s =
      let begun = record s { state = State.begin_start } in
      let (w, raised) = run_start s.world in
      if is_stopped s.state
      then (elim raised [
        | none ↦ (record begun { world = w; state = State.started }, none)
        | some e ↦ (record begun { world = w }, some e)
      ])
      else (s, none)

  -- One round of the loop of `force_stop`.
  unfoldable pub stop_step : Procedure W → Service W → Service W
  unfolding append_exception
  stop_step procedure s =
      let (w, raised) = procedure s.world in
      elim raised [
        | none ↦ record s { world = w; state = State.stopped }
        | some e ↦ append_exception e (record s { world = w })
      ]

  unfoldable pub force_stop : List (Procedure W) → Service W → Service W
  force_stop [] s = s
  force_stop (procedure ∷ l) s = force_stop l (stop_step procedure s)

  unfoldable pub stop : List (Procedure W) → Service W → Service W
  unfolding force_stop stop_step
  stop procedures s = if may_stop s.state then force_stop procedures s else s

  unfoldable pub restart : List (Procedure W) → Procedure W → Service W → Service W × Option Error
  unfolding stop start
  restart procedures run_start s = start run_start (stop procedures s)

  unfoldable pub is_running : Service W → Bool
  is_running s = elim s.state [ State.started ↦ true | _ ↦ false ]
