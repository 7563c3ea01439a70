-- ===== src/Net/StateMachine/Handshake.antt =====
-- What a connection has been through before it may carry data, and how it is taken down.
use mathlib.Core.List.{Sublistᴰ}
use bey.Base.{sym, subst, ◌≡◌, refl, ◌⊎◌, inl, inr, true, List, [], ◌∷◌, arith, map}
use bey.Base.Errors.{ok}
use bey.Net.StateMachine.{
  ConnectionState, ConnectionStateMachine, StateEvent, Call, idle, connecting, authenticating,
  transferring, connect, authenticate, new, can_transfer, compute_next_state, is_valid_transition,
  enter, step, run, transferable,
}
use bey.Net.StateMachine.Invariant.{step_cases}

abbrev pub handshake : List StateEvent
handshake = connect ∷ StateEvent.connected ∷ authenticate ∷ StateEvent.authenticated ∷ []

-- The events that a connection still needs before it is authenticated.
abbrev needed : ConnectionState → List StateEvent
needed connecting = StateEvent.connected ∷ authenticate ∷ StateEvent.authenticated ∷ []
needed ConnectionState.connected = authenticate ∷ StateEvent.authenticated ∷ []
needed authenticating = StateEvent.authenticated ∷ []
needed ConnectionState.authenticated = []
needed transferring = []
needed _ = handshake

abbrev pub events : List Call → List StateEvent
events = map λ c. c.event

sublist-tail : {a : StateEvent} {xs ys : List StateEvent} → Sublistᴰ (a ∷ xs) ys → Sublistᴰ xs ys
sublist-tail (Sublistᴰ.cons p) = Sublistᴰ.cons (sublist-tail p)
sublist-tail (Sublistᴰ.cons-cons e p) = Sublistᴰ.cons p

-- Whoever still needs the whole handshake needs what any state needs.
needed-sublist :
    (s : ConnectionState) {es : List StateEvent} → Sublistᴰ handshake es → Sublistᴰ (needed s) es
needed-sublist connecting p = sublist-tail p
needed-sublist ConnectionState.connected p = sublist-tail (sublist-tail p)
needed-sublist authenticating p = sublist-tail (sublist-tail (sublist-tail p))
needed-sublist ConnectionState.authenticated p =
    sublist-tail (sublist-tail (sublist-tail (sublist-tail p)))
needed-sublist transferring p = sublist-tail (sublist-tail (sublist-tail (sublist-tail p)))
needed-sublist idle p = p
needed-sublist _ p = p

-- An event brings a state forward by the first event that it needs, or not at all.
needed-step :
    (s t : ConnectionState) (e : StateEvent)
    → compute_next_state s e ≡ ok t
    → is_valid_transition s t ≡ true
    → (needed t ≡ needed s) ⊎ (needed t ≡ handshake) ⊎ (needed s ≡ e ∷ needed t)
unfolding compute_next_state is_valid_transition
needed-step idle t e h v = ground arith
needed-step _ t e h v = ground arith

enter_state :
    (m : ConnectionStateMachine) (c : Call) (t : ConnectionState)
    → (enter m c.event c.stamp c.now t).current_state ≡ t
unfolding enter
enter_state m c idle = refl
enter_state m c _ = refl

step-sublist :
    (m : ConnectionStateMachine) (c : Call) {es : List StateEvent}
    → Sublistᴰ (needed (step m c).current_state) es
    → Sublistᴰ (needed m.current_state) (c.event ∷ es)
step-sublist m c {es} = step_cases Wanted m c Sublistᴰ.cons λ t e valid p.
    let q = subst (λ s. Sublistᴰ (needed s) es) (enter_state m c t) p in
    elim (needed-step m.current_state t c.event e valid) [
      | inl same ↦ Sublistᴰ.cons (subst (λ xs. Sublistᴰ xs es) same q)
      | inr (inl back) ↦
          Sublistᴰ.cons (needed-sublist m.current_state (subst (λ xs. Sublistᴰ xs es) back q))
      | inr (inr on) ↦ subst (λ xs. Sublistᴰ xs (c.event ∷ es)) (sym on) (Sublistᴰ.cons-cons refl q)
    ]
  where
    Wanted : ConnectionStateMachine → Type 0
    Wanted n =
        Sublistᴰ (needed n.current_state) es → Sublistᴰ (needed m.current_state) (c.event ∷ es)

needed-done : (s : ConnectionState) → transferable s ≡ true → Sublistᴰ (needed s) []
needed-done ConnectionState.authenticated h = Sublistᴰ.slnil
needed-done transferring h = Sublistᴰ.slnil
needed-done idle h = cc
needed-done _ h = cc

run-sublist :
    (m : ConnectionStateMachine) (cs : List Call)
    → can_transfer (run m cs) ≡ true
    → Sublistᴰ (needed m.current_state) (events cs)
unfolding run can_transfer
run-sublist m [] h = needed-done m.current_state h
run-sublist m (c ∷ cs) h = step-sublist m c (run-sublist (step m c) cs h)

-- A machine that may transfer data was sent, after its creation, the events connect, connected,
-- authenticate and authenticated, in this order.
pub can_transfer-handshake :
    (cs : List Call) → can_transfer (run new cs) ≡ true → Sublistᴰ handshake (events cs)
unfolding new
can_transfer-handshake cs h = run-sublist new cs h
