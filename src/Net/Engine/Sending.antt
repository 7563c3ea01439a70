-- ===== src/Net/Engine/Sending.antt =====
-- How the engine sends, src/crates/bey-net/src/engine.rs: send_to, send_urgent and the chunks of
-- send_large_file, which all wait in send_with_flow_control and then call send_token; acknowledge;
-- and the background tasks that check the timeouts and update the metrics. A task that waits is
-- an element of `waiting`, and each of its tests of the window, every 10 milliseconds, is a step of
-- its own, so that tasks interleave in any way. Fresh identifiers, the clock, the random nonce and
-- the serialisation of tokens are arguments.
pub mod Stalling
mod Tests
use bey.Base.{
  ℕ, ltb, Bool, true, false, not, ◌&&◌, if◌then◌else◌, Option, none, some, List, [], ◌∷◌, ◌++◌,
  length, take, drop, String, string_eq, HashMap, lookup,
}
use bey.Base.Errors.{
  NetResult, ok, err, panics, ◌>>=◌, ErrorInfo, new_error, with_category, with_severity, network,
  system, warning,
}
use bey.Net.StateMachine
use bey.Net.StateMachine.{ConnectionStateMachine, can_transfer}
use bey.Net.Token.{Token, TokenMeta, TokenId, new_meta, high}
use bey.Net.PriorityQueue.{PriorityQueue, enqueue, check_timeouts, size}
use bey.Net.PriorityQueue
use bey.Net.FlowControl
use bey.Net.FlowControl.{FlowController, can_send, on_send, on_ack}
use bey.Net.Metrics
use bey.Net.Metrics.{
  MetricsCollector, record_send, record_rtt, record_timeout, update_rates, update_queue_size,
  update_connections,
}
use bey.Net.Engine.Crypto.{Cipher, KeySource, encrypt_token}

-- The address and the port.
abbrev pub SocketAddr : Type 0
SocketAddr = String × ℕ

pub record DeviceEntry : Type 0 where
  pub name : String
  pub addresses : List SocketAddr
  pub authenticated : Bool
  pub cert_fingerprint : Option String
  pub last_seen : ℕ

-- The fields of the engine that sending uses, and the tokens whose senders wait for the window.
pub record Engine : Type 0 where
  pub name : String
  pub enable_encryption : Bool
  pub state_machine : ConnectionStateMachine
  pub discovered_devices : HashMap String DeviceEntry
  pub master_key : Option (List ℕ)
  pub priority_queue : PriorityQueue
  pub flow_controller : FlowController
  pub metrics : MetricsCollector
  pub waiting : List Token

-- The engine that `new` gives, from the fields of its configuration and a reading of the clock.
unfoldable pub new_engine : String → Bool → ℕ → ℕ → ℕ → ℕ → ℕ → Engine
new_engine name enable_encryption ack_timeout max_retries initial_window max_window now = record {
  name = name;
  enable_encryption = enable_encryption;
  state_machine = StateMachine.new;
  discovered_devices = [];
  master_key = none;
  priority_queue = PriorityQueue.new ack_timeout max_retries;
  flow_controller = FlowControl.new initial_window max_window;
  metrics = Metrics.new now;
  waiting = [];
}

-- The code outside that sending calls.
pub record Surroundings : Type 0 where
  pub cipher : Cipher
  pub source : KeySource
  pub serialize : Token → NetResult (List ℕ)

abbrev pub Answer : Type 0
Answer = Engine × NetResult (Unit {0})

abbrev pub problem : ℕ → ErrorInfo
problem code = with_severity (with_category (new_error code) network) warning

-- The address of a device: the first one.
abbrev pub find_address : Option DeviceEntry → NetResult (Unit {0})
find_address none = err (problem 4331)
find_address (some entry) = elim entry.addresses [ [] ↦ err (problem 4330) | _ ∷ _ ↦ ok tt ]

abbrev pub find_receiver : HashMap String DeviceEntry → Option String → NetResult (Unit {0})
find_receiver devices none = ok tt
find_receiver devices (some receiver_id) = find_address (lookup receiver_id devices)

module _ (outside : Surroundings) where
  -- The end of `send_token`, which looks up the address and sends nothing.
  abbrev pub dispatch : Engine → NetResult Token → Answer
  dispatch e token = (
    e,
    do
      t ← token
      bytes ← outside.serialize t
      find_receiver e.discovered_devices t.meta.receiver_id,
  )

  abbrev pub dispatch_encrypted : Engine → Option (List ℕ) × NetResult Token → Answer
  dispatch_encrypted e (key, token) = dispatch (record e { master_key = key }) token

  unfoldable pub send_token : List ℕ → Engine → Token → Answer
  send_token nonce e token =
      if can_transfer e.state_machine
      then (if e.enable_encryption && not token.meta.encrypted
          then dispatch_encrypted e
              (encrypt_token outside.cipher outside.source nonce e.master_key token)
          else dispatch e (ok token))
      else (e, err (with_severity (with_category (new_error 4305) system) warning))

  -- One test of the window by the sender of a token, who waits behind `before` and before `after`;
  -- where the window allows it the send is recorded and the token sent.
  abbrev pub try_token : List ℕ → Engine → List Token → List Token → Token → Answer
  try_token nonce e before after token =
      if can_send e.flow_controller (length token.payload)
      then send_token nonce
          (record e {
            flow_controller = on_send e.flow_controller (length token.payload);
            waiting = before ++ after;
          })
          token
      else (e, ok tt)

  abbrev pub poll_in : List ℕ → Engine → List Token → List Token → Answer
  poll_in nonce e before [] = (e, ok tt)
  poll_in nonce e before (token ∷ after) = try_token nonce e before after token

  -- A round of the loop of send_with_flow_control, by the i-th task that waits.
  unfoldable pub poll : ℕ → List ℕ → Engine → Answer
  poll i nonce e = poll_in nonce e (take i e.waiting) (drop i e.waiting)

-- What every send begins with: the metrics and the queue; then it waits.
unfoldable pub begin_send : Engine → Token → ℕ → Engine
begin_send e token now = record e {
  metrics = record_send e.metrics (length token.payload);
  priority_queue = enqueue e.priority_queue token now;
  waiting = e.waiting ++ token ∷ [];
}

unfoldable pub send_to : Engine → String → List ℕ → String → TokenId → ℕ → ℕ → Engine
send_to e device_name bytes message_type fresh stamp now =
    let meta = new_meta fresh stamp message_type e.name in
    begin_send e
      (record {
        meta = record meta { receiver_id = some device_name; requires_ack = true };
        payload = bytes;
      })
      now

unfoldable pub send_urgent : Engine → String → List ℕ → String → TokenId → ℕ → ℕ → Engine
send_urgent e device_name bytes message_type fresh stamp now =
    let meta = new_meta fresh stamp message_type e.name in
    begin_send e
      (record {
        meta = record meta { receiver_id = some device_name; priority = high; requires_ack = true };
        payload = bytes;
      })
      now

-- One chunk of send_large_file, as the token that `to_token` made of it.
unfoldable pub send_chunk : Engine → String → Token → ℕ → Engine
send_chunk e device_name token now =
    begin_send e (record token { meta = record token.meta { receiver_id = some device_name } }) now

abbrev pub after_ack : Engine → NetResult FlowController → Answer
after_ack e (ok f) = (record e { flow_controller = f; metrics = record_rtt e.metrics 50 }, ok tt)
after_ack e (err cause) = (e, err cause)
after_ack e panics = (e, panics)

abbrev pub after_confirm : Engine → PriorityQueue × NetResult (Unit {0}) → Answer
after_confirm e (q, ok u) =
    after_ack (record e { priority_queue = q }) (on_ack e.flow_controller 1024 50)
after_confirm e (q, err cause) = (record e { priority_queue = q }, err cause)
after_confirm e (q, panics) = (record e { priority_queue = q }, panics)

unfoldable pub acknowledge : Engine → TokenId → Answer
acknowledge e token_id = after_confirm e (PriorityQueue.acknowledge e.priority_queue token_id)

abbrev pub after_check : Engine → PriorityQueue × ℕ → Engine
after_check e (q, timeout_count) = record e {
  priority_queue = q;
  metrics = if ltb 0 timeout_count then record_timeout e.metrics else e.metrics;
}

-- A tick of the task of start_priority_queue_monitor.
unfoldable pub monitor_queue : Engine → ℕ → Engine
monitor_queue e now = after_check e (check_timeouts e.priority_queue now)

-- A tick of the task of start_metrics_updater.
unfoldable pub update_metrics : Engine → ℕ → Engine
update_metrics e now = record e {
  metrics =
      update_connections (update_queue_size (update_rates e.metrics now) (size e.priority_queue))
        (length e.discovered_devices);
}
