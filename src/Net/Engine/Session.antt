-- ===== src/Net/Engine/Session.antt =====
-- How the engine opens and closes a session: `start_server`, `connect` and `disconnect` of
-- src/crates/bey-net/src/engine.rs, as they act on its state machine. What the transport, mDNS and
-- the authentication answer is an argument, and so is the clock: `clock n` is its n-th reading.
mod Tests
pub mod Opening
use bey.Base.{ℕ, ◌+◌, ◌*◌, Bool, Option, none, some, if◌then◌else◌, ◌&&◌}
use bey.Base.Errors.{
  NetResult, ok, err, panics, ErrorInfo, new_error, with_category, with_severity, network, warning,
  error,
}
use bey.Net.StateMachine.{
  ConnectionStateMachine, ConnectionState, StateEvent, connect, authenticate, auth_failed,
  disconnect, handle_event,
}

-- What the code outside the engine answers to it.
pub record Answers : Type 0 where
  pub transport : NetResult (Unit {0})
  pub mdns : Option (NetResult (Unit {0}))
  pub authentication : NetResult (Unit {0})

-- The field of the configuration that these calls read, and whether there is a certificate manager.
pub record EngineConfig : Type 0 where
  pub enable_auth : Bool
  pub has_cert_manager : Bool

-- Code that acts on the state machine and may fail; the machine stays as it was at the failure.
abbrev pub Session : Type 0 → Type 0
Session A = ConnectionStateMachine → ConnectionStateMachine × NetResult A

abbrev pub returns : {A : Type 0} → A → Session A
returns a m = (m, ok a)

abbrev pub lift : {A : Type 0} → NetResult A → Session A
lift r m = (m, r)

abbrev pub fails : {A : Type 0} → ErrorInfo → Session A
fails e m = (m, err e)

abbrev continue :
    {A B : Type 0}
    → (A → Session B)
    → ConnectionStateMachine
    → NetResult A
    → ConnectionStateMachine × NetResult B
continue f m (ok a) = f a m
continue f m (err e) = (m, err e)
continue f m panics = (m, panics)

infixl 5 ◌>>=◌ ◌>>◌
abbrev pub ◌>>=◌ : {A B : Type 0} → Session A → (A → Session B) → Session B
◌>>=◌ x f m = let (n, r) = x m in continue f n r

abbrev pub ◌>>◌ : {A B : Type 0} → Session A → Session B → Session B
x >> y = x >>= λ _. y

-- `map_err`.
abbrev pub map_err : {A : Type 0} → (ErrorInfo → ErrorInfo) → NetResult A → NetResult A
map_err f (ok a) = ok a
map_err f (err e) = err (f e)
map_err f panics = panics

fire : StateEvent → ℕ → ℕ → Session ConnectionState
fire e stamp now m = handle_event m e stamp now

abbrev transport_failed : ErrorInfo → ErrorInfo
transport_failed e = with_severity (with_category (new_error 4303) network) error

abbrev connect_failed : ErrorInfo → ErrorInfo
connect_failed e = with_severity (with_category (new_error 4304) network) error

abbrev mdns_failed : ErrorInfo → ErrorInfo
mdns_failed e = with_severity (with_category (new_error 4325) network) warning

abbrev announce : Option (NetResult (Unit {0})) → Session (Unit {0})
announce none = returns tt
announce (some r) = lift (map_err mdns_failed r)

-- The `match` on the answer of `perform_authentication`.
abbrev conclude : NetResult (Unit {0}) → (ℕ → ℕ) → Session (Unit {0})
conclude (ok _) clock = do fire StateEvent.authenticated (clock 6) (clock 7); returns tt
conclude (err e) clock = do fire auth_failed (clock 6) (clock 7); fails e
conclude panics clock = lift panics

-- The last part of `start_server` and of `connect`.
sign_in : EngineConfig → NetResult (Unit {0}) → (ℕ → ℕ) → Session (Unit {0})
unfolding fire
sign_in config answer clock =
    if config.enable_auth && config.has_cert_manager
    then (do fire authenticate (clock 4) (clock 5); conclude answer clock)
    else (do fire StateEvent.authenticated (clock 4) (clock 5); returns tt)

unfoldable pub start_server : EngineConfig → Answers → (ℕ → ℕ) → Session (Unit {0})
unfolding sign_in
start_server config answers clock = do
  fire connect (clock 0) (clock 1)
  lift (map_err transport_failed answers.transport)
  fire StateEvent.connected (clock 2) (clock 3)
  announce answers.mdns
  sign_in config answers.authentication clock

unfoldable pub connect_to : EngineConfig → Answers → (ℕ → ℕ) → Session (Unit {0})
unfolding sign_in
connect_to config answers clock = do
  fire connect (clock 0) (clock 1)
  lift (map_err connect_failed answers.transport)
  fire StateEvent.connected (clock 2) (clock 3)
  sign_in config answers.authentication clock

unfoldable pub close : (ℕ → ℕ) → Session (Unit {0})
unfolding fire
close clock = do
  fire disconnect (clock 0) (clock 1)
  fire disconnect (clock 2) (clock 3)
  returns tt
