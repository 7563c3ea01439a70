-- ===== src/Net/Engine/Sending/Tests.antt =====
-- The theorem about sending at a concrete input: two messages through a window of ten bytes.
use bey.Base.{ℕ, false, ◌≡◌, refl, none, List, [], ◌∷◌, string_eq, lookup}
use bey.Base.Errors.{ok}
use bey.Net.StateMachine
use bey.Net.Token.{new_meta}
use bey.Net.PriorityQueue.{enqueue}
use bey.Net.PriorityQueue
use bey.Net.FlowControl.{can_send, on_send}
use bey.Net.FlowControl
use bey.Net.Metrics.{record_send}
use bey.Net.Metrics
use bey.Net.Engine.Sending.{
  Engine, Surroundings, new_engine, acknowledge, send_token, begin_send, send_to, poll,
}
use bey.Net.Engine.Sending.Stalling.{Call, sends, polls, acknowledges, step, run, waiting_bytes}

abbrev plain : Surroundings
plain = record {
  cipher = record { seal = λ key nonce bytes. none; unseal = λ key nonce bytes. none };
  source = record { digest = λ pem name. []; name = "alice"; certificate = none };
  serialize = λ t. ok t.payload;
}

abbrev six : List ℕ
six = 1 ∷ 2 ∷ 3 ∷ 4 ∷ 5 ∷ 6 ∷ []

abbrev calls : List Call
calls =
    sends "bob" six "chat" "a" 0 0
    ∷ polls 0 []
    ∷ acknowledges "a"
    ∷ sends "bob" six "chat" "b" 1 1
    ∷ polls 0 []
    ∷ []

abbrev after_calls : Engine
after_calls = run plain (new_engine "alice" false 5 3 10 100 0) calls

second_waits :
    (after_calls.flow_controller.bytes_in_flight ≡ 6) × (waiting_bytes after_calls.waiting ≡ 6)
unfolding run step new_engine send_to begin_send poll send_token can_send on_send record_send
    enqueue acknowledge PriorityQueue.acknowledge PriorityQueue.new FlowControl.new Metrics.new
    StateMachine.new StateMachine.can_transfer new_meta lookup
second_waits = (refl, refl)
