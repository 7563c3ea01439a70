-- ===== src/Net/StateMachine/Relation.antt =====
-- The moves of the connection state machine, written as a relation and apart from its code.
use bey.Base.{String, ◌≡◌, ◌≢◌, ◌↔◌, ◌⊎◌, ℕ, arith, refl, inl, inr, if◌then◌else◌}
use bey.Base.Errors.{NetResult, ErrorInfo, ok, err, ◌>>=◌}
use bey.Net.StateMachine.{
  ConnectionState, StateEvent, ConnectionStateMachine, idle, connecting, authenticating,
  transferring, disconnecting, disconnected, connect, authenticate, auth_failed, start_transfer,
  transfer_complete, disconnect, connection_lost, timeout, invalid_transition, compute_next_state,
  is_valid_transition, handle_event,
}

-- The states from which a connection can be opened.
pub data IsClosed : ConnectionState → Type 0 where
  never_opened : IsClosed idle
  was_disconnected : IsClosed disconnected
  has_failed : IsClosed ConnectionState.error

-- The states that can be disconnected in an orderly way.
pub data IsOpen : ConnectionState → Type 0 where
  open_connected : IsOpen ConnectionState.connected
  open_authenticated : IsOpen ConnectionState.authenticated
  open_transferring : IsOpen transferring

-- The states in which the connection is being made.
pub data IsPending : ConnectionState → Type 0 where
  pending_connect : IsPending connecting
  pending_auth : IsPending authenticating

-- `Moves s e t`: event `e` takes state `s` to another state `t`.
pub data Moves : ConnectionState → StateEvent → ConnectionState → Type 0 where
  dial : {s : ConnectionState} → IsClosed s → Moves s connect connecting
  established : Moves connecting StateEvent.connected ConnectionState.connected
  challenge : Moves ConnectionState.connected authenticate authenticating
  accept : Moves authenticating StateEvent.authenticated ConnectionState.authenticated
  reject : Moves authenticating auth_failed ConnectionState.error
  begin : Moves ConnectionState.authenticated start_transfer transferring
  finish : Moves transferring transfer_complete ConnectionState.authenticated
  close : {s : ConnectionState} → IsOpen s → Moves s disconnect disconnecting
  closed : {e : StateEvent} → e ≢ disconnect → Moves disconnecting e disconnected
  lose_open : {s : ConnectionState} → IsOpen s → Moves s connection_lost disconnected
  lose_pending : {s : ConnectionState} → IsPending s → Moves s connection_lost disconnected
  lose_failed : Moves ConnectionState.error connection_lost disconnected
  expire : {s : ConnectionState} → IsPending s → Moves s timeout ConnectionState.error
  fail_pending :
      {s : ConnectionState} (msg : String)
      → IsPending s
      → Moves s (StateEvent.error msg) ConnectionState.error
  fail_transfer : (msg : String) → Moves transferring (StateEvent.error msg) ConnectionState.error

-- `Refuses s e`: event `e` is refused in state `s`.
pub data Refuses : ConnectionState → StateEvent → Type 0 where
  close_closed : {s : ConnectionState} → IsClosed s → Refuses s disconnect
  close_pending : {s : ConnectionState} → IsPending s → Refuses s disconnect
  lose_idle : Refuses idle connection_lost
  fail_idle : (msg : String) → Refuses idle (StateEvent.error msg)
  fail_connected : (msg : String) → Refuses ConnectionState.connected (StateEvent.error msg)
  fail_authenticated : (msg : String) → Refuses ConnectionState.authenticated (StateEvent.error msg)
  fail_disconnected : (msg : String) → Refuses disconnected (StateEvent.error msg)

ruleset states = (
  never_opened, was_disconnected, has_failed, open_connected, open_authenticated, open_transferring,
  pending_connect, pending_auth,
)

ruleset moves = (
  dial, established, challenge, accept, reject, begin, finish, close, closed, lose_open,
  lose_pending, lose_failed, expire, fail_pending, fail_transfer,
)

ruleset refusals = (
  close_closed, close_pending, lose_idle, fail_idle, fail_connected, fail_authenticated,
  fail_disconnected,
)

-- The result of a call depends on the state and the event alone.
abbrev pub outcome : ConnectionState → StateEvent → NetResult ConnectionState
outcome s e =
    compute_next_state s e >>= λ t. if is_valid_transition s t then ok t else err invalid_transition

pub handle_event-outcome :
    (m : ConnectionStateMachine) (e : StateEvent) (stamp now : ℕ)
    → (handle_event m e stamp now).1 ≡ outcome m.current_state e
unfolding handle_event
handle_event-outcome m e stamp now = ground arith

outcome-ok :
    (s : ConnectionState) (e : StateEvent) (t : ConnectionState)
    → outcome s e ≡ ok t
    → (t ≡ s) ⊎ Moves s e t
unfolding compute_next_state is_valid_transition
outcome-ok idle e t h = grind (arith, states, moves)
outcome-ok _ e t h = grind (arith, states, moves)

outcome-err :
    (s : ConnectionState) (e : StateEvent) (i : ErrorInfo)
    → outcome s e ≡ err i
    → Refuses s e × (i ≡ invalid_transition)
unfolding compute_next_state is_valid_transition
outcome-err idle e i h = grind (arith, states, refusals)
outcome-err _ e i h = grind (arith, states, refusals)

closing : (e : StateEvent) → e ≢ disconnect → outcome disconnecting e ≡ ok disconnected
unfolding compute_next_state is_valid_transition
closing e h = ground arith

Moves-outcome :
    {s : ConnectionState} {e : StateEvent} {t : ConnectionState} → Moves s e t → outcome s e ≡ ok t
unfolding compute_next_state is_valid_transition
Moves-outcome (dial never_opened) = refl
Moves-outcome (dial was_disconnected) = refl
Moves-outcome (dial has_failed) = refl
Moves-outcome established = refl
Moves-outcome challenge = refl
Moves-outcome accept = refl
Moves-outcome reject = refl
Moves-outcome begin = refl
Moves-outcome finish = refl
Moves-outcome (close open_connected) = refl
Moves-outcome (close open_authenticated) = refl
Moves-outcome (close open_transferring) = refl
Moves-outcome (closed {e = e} h) = closing e h
Moves-outcome (lose_open open_connected) = refl
Moves-outcome (lose_open open_authenticated) = refl
Moves-outcome (lose_open open_transferring) = refl
Moves-outcome (lose_pending pending_connect) = refl
Moves-outcome (lose_pending pending_auth) = refl
Moves-outcome lose_failed = refl
Moves-outcome (expire pending_connect) = refl
Moves-outcome (expire pending_auth) = refl
Moves-outcome (fail_pending msg pending_connect) = refl
Moves-outcome (fail_pending msg pending_auth) = refl
Moves-outcome (fail_transfer msg) = refl

Refuses-outcome :
    {s : ConnectionState} {e : StateEvent} → Refuses s e → outcome s e ≡ err invalid_transition
unfolding compute_next_state is_valid_transition
Refuses-outcome (close_closed never_opened) = refl
Refuses-outcome (close_closed was_disconnected) = refl
Refuses-outcome (close_closed has_failed) = refl
Refuses-outcome (close_pending pending_connect) = refl
Refuses-outcome (close_pending pending_auth) = refl
Refuses-outcome lose_idle = refl
Refuses-outcome (fail_idle msg) = refl
Refuses-outcome (fail_connected msg) = refl
Refuses-outcome (fail_authenticated msg) = refl
Refuses-outcome (fail_disconnected msg) = refl

module _ (m : ConnectionStateMachine) (e : StateEvent) (stamp now : ℕ) where
  -- A call of `handle_event` moves the machine to a state other than its own exactly when the relation
  -- has that move, and answers with error 4101 exactly when the relation refuses the event.
  pub handle_event-Moves :
      (t : ConnectionState)
      → t ≢ m.current_state
      → (((handle_event m e stamp now).1 ≡ ok t) ↔ Moves m.current_state e t)
        × (((handle_event m e stamp now).1 ≡ err invalid_transition) ↔ Refuses m.current_state e)
  handle_event-Moves t ne = rw (handle_event-outcome m e stamp now) (
    (
      λ h. elim (outcome-ok m.current_state e t h) [
        | inl same ↦ absurd (ne same)
        | inr move ↦ move
      ],
      Moves-outcome,
    ),
    (λ h. (outcome-err m.current_state e invalid_transition h).0, Refuses-outcome),
  )
