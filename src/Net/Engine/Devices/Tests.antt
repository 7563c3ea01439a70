-- ===== src/Net/Engine/Devices/Tests.antt =====
-- The theorems about the table of devices at concrete inputs: bob is found, and alice, whose
-- engine it is, authenticates towards him.
use bey.Base.{ℕ, ◌≡◌, refl, true, false, some, List, [], ◌∷◌, String, string_eq, lookup, insert}
use bey.Base.Errors.{ok}
use bey.Net.StateMachine
use bey.Net.PriorityQueue
use bey.Net.FlowControl
use bey.Net.Metrics
use bey.Net.Engine.Crypto.{KeySource, derive_master_key}
use bey.Net.Engine.Sending.{Engine, DeviceEntry, new_engine}
use bey.Net.Engine.Devices.{
  Service, Verifier, discover, perform_authentication, connection_stats, list_discovered_devices,
  get_device_addresses, resolve_device,
}
use bey.Net.Engine.Devices.Strangers.{Call, discovers, authenticates, step, run}

abbrev bob : Service
bob = record { service_name = "bob"; addresses = "10.0.0.2" ∷ []; port = 8000 }

abbrev found : List (Service × ℕ)
found = (bob, 1000) ∷ []

abbrev alice : Engine
alice = new_engine "alice" false 5 3 10 100 0

abbrev trusting : Verifier
trusting = record { verify = λ pem. ok true; fingerprint = λ pem. pem }

abbrev certified : KeySource
certified = record {
  digest = λ pem name. 7 ∷ [];
  name = "alice";
  certificate = some (ok (some "pem"));
}

abbrev calls : List Call
calls = discovers (ok found) 1500 ∷ authenticates trusting certified ("10.0.0.2", 8000) 2000 ∷ []

abbrev herself : DeviceEntry
herself = record {
  name = "alice";
  addresses = ("10.0.0.2", 8000) ∷ [];
  authenticated = true;
  cert_fingerprint = some "pem";
  last_seen = 2000;
}

queries :
    (list_discovered_devices (run alice calls) ≡ "bob" ∷ "alice" ∷ [])
    × (get_device_addresses (run alice calls) "bob" ≡ some (("10.0.0.2", 8000) ∷ []))
    × (connection_stats (run alice calls) ≡ (2, 1))
    × (resolve_device (some (ok (bob ∷ []))) "bob" ≡ ok ("10.0.0.2", 8000))
unfolding run step new_engine discover perform_authentication derive_master_key connection_stats
    lookup insert StateMachine.new PriorityQueue.new FlowControl.new Metrics.new
queries = (refl, refl, refl, refl)

abbrev own : String
own = "alice"
