-- ===== src/Net/Engine/Sending/Stalling.antt =====
-- What becomes of everything that the engine sends (src/crates/bey-net/src/engine.rs).
use bey.Base.{ℕ, ◌+◌, ◌<◌, ◌≤◌, ◌≡◌, Option, List, [], ◌∷◌, length, All, String, string_eq, HashMap}
use bey.Net.StateMachine.{ConnectionStateMachine}
use bey.Net.Token.{Token, TokenId}
use bey.Net.PriorityQueue.{PriorityQueue, size}
use bey.Net.PriorityQueue
use bey.Net.FlowControl.{FlowController, effective_window}
use bey.Net.FlowControl
use bey.Net.Metrics.{MetricsCollector, record_timeout}
use bey.Net.Metrics
use bey.Net.Engine.Sending.{
  DeviceEntry, Engine, Surroundings, poll, send_to, send_urgent, send_chunk, acknowledge,
  monitor_queue, update_metrics,
}

-- What may happen to an engine. `changes` is any other part of the code, which may replace the
-- state machine, the table of devices and the key.
pub data Call : Type 0 where
  sends sends_urgently : String → List ℕ → String → TokenId → ℕ → ℕ → Call
  sends_chunk : String → Token → ℕ → Call
  polls : ℕ → List ℕ → Call
  acknowledges : TokenId → Call
  checks updates : ℕ → Call
  changes : ConnectionStateMachine → HashMap String DeviceEntry → Option (List ℕ) → Call

module _ (outside : Surroundings) where
  unfoldable pub step : Engine → Call → Engine
  step e (sends device bytes message_type fresh stamp now) =
      send_to e device bytes message_type fresh stamp now
  step e (sends_urgently device bytes message_type fresh stamp now) =
      send_urgent e device bytes message_type fresh stamp now
  step e (sends_chunk device token now) = send_chunk e device token now
  step e (polls i nonce) = (poll outside i nonce e).0
  step e (acknowledges token_id) = (acknowledge e token_id).0
  step e (checks now) = monitor_queue e now
  step e (updates now) = update_metrics e now
  step e (changes machine devices key) = record e {
    state_machine = machine;
    discovered_devices = devices;
    master_key = key;
  }

  unfoldable pub run : Engine → List Call → Engine
  run e [] = e
  run e (call ∷ calls) = run (step e call) calls

-- The bytes that wait for the window.
abbrev pub waiting_bytes : List Token → ℕ
waiting_bytes [] = 0
waiting_bytes (token ∷ tokens) = length token.payload + waiting_bytes tokens

abbrev pub IsShort : Token → Type 0
IsShort token = length token.payload < 9223372036854775808

-- No payload has 2 ^ 63 bytes.
abbrev pub IsCall : Call → Type 0
IsCall (sends device bytes message_type fresh stamp now) = length bytes < 9223372036854775808
IsCall (sends_urgently device bytes message_type fresh stamp now) =
    length bytes < 9223372036854775808
IsCall (sends_chunk device token now) = IsShort token
IsCall _ = Unit

-- With a window of `w` bytes: nothing waits for an acknowledgement, the window stays as it is, and
-- what was sent is in flight or waits for the window.
pub record Stalls (w : ℕ) (e : Engine) : Type 0 where
  pub none_pending : e.priority_queue.pending_acks ≡ []
  pub window : effective_window e.flow_controller ≡ w
  pub in_flight : e.flow_controller.bytes_in_flight ≤ w
  pub conserved :
      e.flow_controller.bytes_in_flight + waiting_bytes e.waiting ≡ e.metrics.metrics.bytes_sent
  pub queued : length e.priority_queue.heap ≡ e.metrics.metrics.tokens_sent
  pub short : All IsShort e.waiting
