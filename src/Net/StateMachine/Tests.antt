-- ===== src/Net/StateMachine/Tests.antt =====
-- Runs of the connection state machine, and the theorems about it at concrete inputs.
use mathlib.Core.List.{Sublistᴰ}
use bey.Base.{◌≡◌, ◌≢◌, ◌↔◌, List, [], ◌∷◌, true, arith}
use bey.Base.Errors.{ok, err}
use bey.Net.StateMachine.{
  Call, StateEvent, connect, authenticate, disconnect, connecting, new, handle_event,
  invalid_transition, can_transfer, run, compute_next_state, is_valid_transition, enter,
}
use bey.Net.StateMachine.Relation.{Moves, Refuses, handle_event-Moves}
use bey.Net.StateMachine.Invariant.{IsValid, new-IsValid, run-IsValid}
use bey.Net.StateMachine.Handshake.{handshake, events, can_transfer-handshake}

abbrev opening : List Call
opening =
    record { event = connect; stamp = 1; now = 1 }
    ∷ record { event = StateEvent.connected; stamp = 2; now = 3 }
    ∷ record { event = authenticate; stamp = 4; now = 4 }
    ∷ record { event = StateEvent.authenticated; stamp = 5; now = 6 }
    ∷ []

opened : can_transfer (run new opening) ≡ true
unfolding can_transfer run new handle_event compute_next_state is_valid_transition enter
opened = ground arith

refused : (handle_event new disconnect 1 2).1 ≡ err invalid_transition
unfolding new handle_event compute_next_state is_valid_transition enter
refused = ground arith

not_idle : connecting ≢ new.current_state
unfolding new
not_idle = ground arith

handle_event-Moves_example :
    (((handle_event new connect 1 2).1 ≡ ok connecting)
      ↔ Moves new.current_state connect connecting)
    × (((handle_event new connect 1 2).1 ≡ err invalid_transition)
        ↔ Refuses new.current_state connect)
handle_event-Moves_example = handle_event-Moves new connect 1 2 connecting not_idle

run-IsValid_example : IsValid (run new opening)
run-IsValid_example = run-IsValid new opening new-IsValid

can_transfer-handshake_example : Sublistᴰ handshake (events opening)
can_transfer-handshake_example = can_transfer-handshake opening opened
