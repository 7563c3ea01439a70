-- ===== src/Net/Engine/Session/Opening.antt =====
-- What a machine may do once the engine has opened or closed its session.
use bey.Base.{ℕ, sym, subst, ◌≡◌, ◌⊎◌, Bool, true, false, ◌&&◌, none, some, arith}
use bey.Base.Errors.{NetResult, ok}
use bey.Net.StateMachine.{
  ConnectionState, ConnectionStateMachine, disconnecting, disconnected, can_transfer,
  compute_next_state, is_valid_transition, enter, handle_event,
}
use bey.Net.StateMachine.Relation.{IsClosed, never_opened, was_disconnected, has_failed, IsOpen}
use bey.Net.Engine.Session.{Answers, EngineConfig, start_server, connect_to}

abbrev pub succeeds : {A : Type 0} → NetResult A → Bool
succeeds (ok a) = true
succeeds _ = false

abbrev at : ConnectionStateMachine → ConnectionState → ConnectionStateMachine
at m s = record m { current_state = s }

abbrev pub Agrees : EngineConfig → ConnectionStateMachine × NetResult (Unit {0}) → Type 0
Agrees config r =
    can_transfer r.0 ≡ (succeeds r.1 && (config.enable_auth && config.has_cert_manager))

module _ (config : EngineConfig) (answers : Answers) (clock : ℕ → ℕ)
    (m : ConnectionStateMachine) where
  server_at :
      {s : ConnectionState}
      → IsClosed s
      → Agrees config (start_server config answers clock (at m s))
  unfolding start_server handle_event enter compute_next_state is_valid_transition can_transfer
  server_at never_opened = ground arith
  server_at was_disconnected = ground arith
  server_at has_failed = ground arith

  client_at :
      {s : ConnectionState} → IsClosed s → Agrees config (connect_to config answers clock (at m s))
  unfolding connect_to handle_event enter compute_next_state is_valid_transition can_transfer
  client_at never_opened = ground arith
  client_at was_disconnected = ground arith
  client_at has_failed = ground arith

  -- From a closed state, after `start_server` or `connect` the machine may transfer data exactly when
  -- the call succeeded with authentication in force (enabled, and with a certificate manager). So
  -- without authentication a successful call leaves a machine that may not transfer.
  pub opening-can_transfer :
      IsClosed m.current_state
      → Agrees config (start_server config answers clock m)
        × Agrees config (connect_to config answers clock m)
  opening-can_transfer c = (server_at c, client_at c)

  reopening_at :
      answers.transport ≡ ok tt
      → (answers.mdns ≡ none) ⊎ (answers.mdns ≡ some (ok tt))
      → answers.authentication ≡ ok tt
      → let r = start_server config answers clock (at m disconnecting) in
        (r.1 ≡ ok tt) × (r.0.current_state ≡ disconnected)
  unfolding start_server handle_event enter compute_next_state is_valid_transition
  reopening_at t d a = ground arith

  -- A machine that is disconnecting, as `disconnect` leaves it, is not opened again by
  -- `start_server`: with every answer good the call succeeds, and the machine is disconnected.
  pub start_server-disconnecting :
      m.current_state ≡ disconnecting
      → answers.transport ≡ ok tt
      → (answers.mdns ≡ none) ⊎ (answers.mdns ≡ some (ok tt))
      → answers.authentication ≡ ok tt
      → let r = start_server config answers clock m in
        (r.1 ≡ ok tt) × (r.0.current_state ≡ disconnected)
  start_server-disconnecting h t d a =
      subst
        (λ s.
          let r = start_server config answers clock (at m s) in
          (r.1 ≡ ok tt) × (r.0.current_state ≡ disconnected))
        (sym h) (reopening_at t d a)

-- How `disconnect` ends: from an open or disconnecting state it succeeds and the machine is
-- disconnecting; in any other state it fails and the machine is as before.
abbrev pub Closes : ConnectionStateMachine → ConnectionStateMachine × NetResult (Unit {0}) → Type 0
Closes m r =
    ((IsOpen m.current_state ⊎ (m.current_state ≡ disconnecting))
      × (r.1 ≡ ok tt)
      × (r.0.current_state ≡ disconnecting))
    ⊎ ((succeeds r.1 ≡ false) × (r.0 ≡ m))
