-- ===== src/Net/StateMachine.antt =====
-- The connection state machine, src/crates/bey-net/src/state_machine.rs. Each reading of the clock
-- is an argument of the operation, in the order in which the code reads it.
mod Tests
pub mod Relation
pub mod Handshake
pub mod Invariant
use bey.Base.{
  ℕ, suc, ltb, length, if◌then◌else◌, Bool, true, false, Option, none, some, List, [], ◌∷◌, ◌++◌,
  String, leb, ◌-◌,
}
use bey.Base.Errors.{
  NetResult, ok, err, panics, ErrorInfo, new_error, with_category, with_severity, validation,
  warning, ◌>>=◌,
}
use mathlib.Core.List.{tail}
use mathlib.Core.Logic.{ite}

pub data ConnectionState : Type 0 where
  idle connecting connected authenticating authenticated transferring : ConnectionState
  disconnecting disconnected error : ConnectionState

pub ConnectionState-discrete : Discrete ConnectionState
ConnectionState-discrete = hlevel

pub data StateEvent : Type 0 where
  connect connected authenticate authenticated auth_failed start_transfer : StateEvent
  transfer_complete disconnect connection_lost timeout : StateEvent
  error : String → StateEvent

pub record StateTransition : Type 0 where
  pub from : ConnectionState
  pub to : ConnectionState
  pub event : StateEvent
  pub timestamp : ℕ

pub record ConnectionStateMachine : Type 0 where
  pub current_state : ConnectionState
  pub state_history : List StateTransition
  pub max_history : ℕ
  pub connected_at : Option ℕ
  pub authenticated_at : Option ℕ

unfoldable pub new : ConnectionStateMachine
new = record {
  current_state = idle;
  state_history = [];
  max_history = 100;
  connected_at = none;
  authenticated_at = none;
}

abbrev pub transferable : ConnectionState → Bool
transferable authenticated = true
transferable transferring = true
transferable _ = false

unfoldable pub can_transfer : ConnectionStateMachine → Bool
can_transfer m = transferable m.current_state

-- The arms of the `match`, first match first.
unfoldable pub compute_next_state : ConnectionState → StateEvent → NetResult ConnectionState
compute_next_state idle connect = ok connecting
compute_next_state connecting StateEvent.connected = ok ConnectionState.connected
compute_next_state ConnectionState.connected authenticate = ok authenticating
compute_next_state authenticating StateEvent.authenticated = ok ConnectionState.authenticated
compute_next_state authenticating auth_failed = ok ConnectionState.error
compute_next_state ConnectionState.authenticated start_transfer = ok transferring
compute_next_state transferring transfer_complete = ok ConnectionState.authenticated
compute_next_state _ disconnect = ok disconnecting
compute_next_state disconnecting _ = ok disconnected
compute_next_state _ connection_lost = ok disconnected
compute_next_state connecting timeout = ok ConnectionState.error
compute_next_state authenticating timeout = ok ConnectionState.error
compute_next_state _ (StateEvent.error msg) = ok ConnectionState.error
compute_next_state ConnectionState.error connect = ok connecting
compute_next_state disconnected connect = ok connecting
compute_next_state current _ = ok current

-- The `matches!` of each state.
has_edge : ConnectionState → ConnectionState → Bool
has_edge idle connecting = true
has_edge connecting ConnectionState.connected = true
has_edge connecting ConnectionState.error = true
has_edge connecting disconnected = true
has_edge ConnectionState.connected authenticating = true
has_edge ConnectionState.connected disconnecting = true
has_edge ConnectionState.connected disconnected = true
has_edge authenticating ConnectionState.authenticated = true
has_edge authenticating ConnectionState.error = true
has_edge authenticating disconnected = true
has_edge ConnectionState.authenticated transferring = true
has_edge ConnectionState.authenticated disconnecting = true
has_edge ConnectionState.authenticated disconnected = true
has_edge transferring ConnectionState.authenticated = true
has_edge transferring disconnecting = true
has_edge transferring disconnected = true
has_edge transferring ConnectionState.error = true
has_edge disconnecting disconnected = true
has_edge disconnected connecting = true
has_edge ConnectionState.error connecting = true
has_edge ConnectionState.error disconnected = true
has_edge _ _ = false

unfoldable pub is_valid_transition : ConnectionState → ConnectionState → Bool
unfolding has_edge ConnectionState-discrete
is_valid_transition from to = ite (ConnectionState-discrete from to) true (has_edge from to)

-- `Vec::remove(0)`, called on a list that is not empty.
add_to_history : ConnectionStateMachine → StateTransition → ConnectionStateMachine
add_to_history m t =
    let h = m.state_history ++ t ∷ [] in
    record m { state_history = if ltb m.max_history (length h) then tail h else h }

abbrev pub set_times : ConnectionState → ℕ → ConnectionStateMachine → ConnectionStateMachine
set_times ConnectionState.connected now m = record m { connected_at = some now }
set_times ConnectionState.authenticated now m = record m { authenticated_at = some now }
set_times disconnected now m = record m { connected_at = none; authenticated_at = none }
set_times ConnectionState.error now m = record m { connected_at = none; authenticated_at = none }
set_times _ now m = m

abbrev pub invalid_transition : ErrorInfo
invalid_transition = with_severity (with_category (new_error 4101) validation) warning

-- An accepted transition. `stamp` and `now` are the two clock readings.
unfoldable pub enter :
    ConnectionStateMachine → StateEvent → ℕ → ℕ → ConnectionState → ConnectionStateMachine
unfolding add_to_history
enter m event stamp now new_state =
    let transition : StateTransition = record {
      from = m.current_state;
      to = new_state;
      event = event;
      timestamp = stamp;
    } in
    set_times new_state now (add_to_history (record m { current_state = new_state }) transition)

settle :
    ConnectionStateMachine
    → StateEvent
    → ℕ
    → ℕ
    → NetResult ConnectionState
    → ConnectionStateMachine × NetResult ConnectionState
settle m event stamp now (ok new_state) =
    if is_valid_transition m.current_state new_state
    then (enter m event stamp now new_state, ok new_state)
    else (m, err invalid_transition)
settle m event stamp now (err e) = (m, err e)
settle m event stamp now panics = (m, panics)

-- The machine after the call, and the call's result.
unfoldable pub handle_event :
    ConnectionStateMachine → StateEvent → ℕ → ℕ → ConnectionStateMachine × NetResult ConnectionState
unfolding settle
handle_event m event stamp now = settle m event stamp now (compute_next_state m.current_state event)

-- `duration_since` fails when the clock has gone back.
pub connection_duration : ConnectionStateMachine → ℕ → Option ℕ
connection_duration m now = elim m.connected_at [
  | none ↦ none
  | some t ↦ if leb t now then some (now - t) else none
]

pub reset : ConnectionStateMachine → ConnectionStateMachine
reset m = record m {
  current_state = idle;
  state_history = [];
  connected_at = none;
  authenticated_at = none;
}

-- A call of `handle_event` with its two clock readings.
pub record Call : Type 0 where
  pub event : StateEvent
  pub stamp : ℕ
  pub now : ℕ

abbrev pub step : ConnectionStateMachine → Call → ConnectionStateMachine
step m c = (handle_event m c.event c.stamp c.now).0

unfoldable pub run : ConnectionStateMachine → List Call → ConnectionStateMachine
run m [] = m
run m (c ∷ cs) = run (step m c) cs
