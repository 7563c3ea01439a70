-- ===== src/Net/Engine/Devices/Strangers.antt =====
-- Which devices count as authenticated (src/crates/bey-net/src/engine.rs).
use bey.Base.{ℕ, ◌≡◌, true, Option, List, [], ◌∷◌, String, string_eq, Unique, All}
use bey.Base.Errors.{NetResult}
use bey.Net.StateMachine.{ConnectionStateMachine}
use bey.Net.Token.{Token}
use bey.Net.PriorityQueue.{PriorityQueue}
use bey.Net.FlowControl.{FlowController}
use bey.Net.Metrics.{MetricsCollector}
use bey.Net.Engine.Crypto.{KeySource}
use bey.Net.Engine.Sending.{Engine, DeviceEntry, SocketAddr}
use bey.Net.Engine.Devices.{
  Service, Devices, Verifier, discover, cleanup_devices, perform_authentication,
}

-- What may happen to the table. `changes` is any other part of the code, which may replace all
-- else but the name of the engine.
pub data Call : Type 0 where
  discovers : NetResult (List (Service × ℕ)) → ℕ → Call
  cleans : ℕ → Call
  authenticates : Verifier → KeySource → SocketAddr → ℕ → Call
  changes :
      ConnectionStateMachine
      → Option (List ℕ)
      → PriorityQueue
      → FlowController
      → MetricsCollector
      → List Token
      → Call

unfoldable pub step : Engine → Call → Engine
step e (discovers answer now) = discover answer now e
step e (cleans now) = (cleanup_devices now e).0
step e (authenticates verifier source remote_addr now) =
    (perform_authentication verifier source remote_addr now e).0
step e (changes machine key queue controller collector tokens) = record e {
  state_machine = machine;
  master_key = key;
  priority_queue = queue;
  flow_controller = controller;
  metrics = collector;
  waiting = tokens;
}

unfoldable pub run : Engine → List Call → Engine
run e [] = e
run e (call ∷ calls) = run (step e call) calls

-- Only the name of the engine itself may be authenticated.
IsSelf : String → String × DeviceEntry → Type 0
IsSelf own (name, entry) = entry.authenticated ≡ true → name ≡ own

record OnlySelf (own : String) (e : Engine) : Type 0 where
  is_own : e.name ≡ own
  unique : Unique e.discovered_devices
  selves : All (IsSelf own) e.discovered_devices
