-- ===== src/Net/Engine/Session/Tests.antt =====
-- The theorems about the engine's session at concrete inputs.
use bey.Base.{true, none}
use bey.Base.Errors.{ok}
use bey.Net.StateMachine.{ConnectionStateMachine, new, disconnecting}
use bey.Net.StateMachine.Relation.{IsClosed, never_opened}
use bey.Net.Engine.Session.{Answers, EngineConfig, start_server, connect_to}
use bey.Net.Engine.Session.Opening.{Agrees, opening-can_transfer}

abbrev with_auth : EngineConfig
with_auth = record { enable_auth = true; has_cert_manager = true }

abbrev good : Answers
good = record { transport = ok tt; mdns = none; authentication = ok tt }

abbrev leaving : ConnectionStateMachine
leaving = record new { current_state = disconnecting }

new-IsClosed : IsClosed new.current_state
unfolding new
new-IsClosed = never_opened

opening-can_transfer_example :
    Agrees with_auth (start_server with_auth good (λ n. n) new)
    × Agrees with_auth (connect_to with_auth good (λ n. n) new)
opening-can_transfer_example = opening-can_transfer with_auth good (λ n. n) new new-IsClosed
