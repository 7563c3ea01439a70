-- ===== src/Net/StateMachine/Invariant.antt =====
-- What holds of a connection state machine between two calls.
use mathlib.Core.List.{tail}
use bey.Base.{
  ℕ, ◌≤◌, ◌≡◌, refl, inl, inr, Bool, true, false, Option, none, some, List, [], ◌∷◌, ◌++◌, arith,
  ◌∙◌, sym, ◌-◌, Bool-cases, length, length-append, All, All-append,
}
use bey.Base.Errors.{NetResult, ok, err, panics}
use bey.Net.StateMachine.{
  ConnectionState, ConnectionStateMachine, StateTransition, Call, idle, authenticating,
  transferring, disconnecting, new, compute_next_state, is_valid_transition, set_times,
  handle_event, settle, enter, reset, step, run, transferable,
}

-- The states of a session, from its connection on.
abbrev pub in_session : ConnectionState → Bool
in_session ConnectionState.connected = true
in_session authenticating = true
in_session ConnectionState.authenticated = true
in_session transferring = true
in_session _ = false

-- The states in which a connection time may still be set.
abbrev pub may_be_timed : ConnectionState → Bool
may_be_timed disconnecting = true
may_be_timed s = in_session s

abbrev pub is_some {ℓ} : {A : Type ℓ} → Option A → Bool
is_some none = false
is_some (some a) = true

abbrev pub implies : Bool → Bool → Bool
implies true b = b
implies false b = true

-- Each entry starts where the one before it ended, and the last one ended in `s`.
abbrev pub Linked : List StateTransition → ConnectionState → Type 0
Linked [] s = Unit {0}
Linked (t ∷ []) s = t.to ≡ s
Linked (t ∷ u ∷ ts) s = (t.to ≡ u.from) × Linked (u ∷ ts) s

abbrev pub IsEdge : StateTransition → Type 0
IsEdge t = is_valid_transition t.from t.to ≡ true

pub record TimesFit (m : ConnectionStateMachine) : Type 0 where
  pub connected_in_session : implies (in_session m.current_state) (is_some m.connected_at) ≡ true
  pub transfer_authenticated :
      implies (transferable m.current_state) (is_some m.authenticated_at) ≡ true
  pub connected_cleared : implies (is_some m.connected_at) (may_be_timed m.current_state) ≡ true
  pub authenticated_cleared :
      implies (is_some m.authenticated_at) (may_be_timed m.current_state) ≡ true

pub record HistoryFits (m : ConnectionStateMachine) : Type 0 where
  pub bounded : length m.state_history ≤ m.max_history
  pub linked : Linked m.state_history m.current_state
  pub edges : All IsEdge m.state_history

pub record IsValid (m : ConnectionStateMachine) : Type 0 where
  pub times : TimesFit m
  pub history : HistoryFits m

pub new-IsValid : IsValid new
unfolding new
new-IsValid = ground arith

settle_cases {ℓ} :
    (P : ConnectionStateMachine → Type ℓ) (m : ConnectionStateMachine) (c : Call)
    (r : NetResult ConnectionState)
    → P m
    → ((t : ConnectionState)
        → r ≡ ok t
        → is_valid_transition m.current_state t ≡ true
        → P (enter m c.event c.stamp c.now t))
    → P (settle m c.event c.stamp c.now r).0
unfolding settle
settle_cases P m c (ok t) unchanged moved =
    elim (Bool-cases (is_valid_transition m.current_state t)) [
      | inl valid ↦ rw valid (moved t refl valid)
      | inr invalid ↦ rw invalid unchanged
    ]
settle_cases P m c (err i) unchanged moved = unchanged
settle_cases P m c panics unchanged moved = unchanged

-- A call leaves the machine as it is, or enters the computed state by an edge.
pub step_cases {ℓ} :
    (P : ConnectionStateMachine → Type ℓ) (m : ConnectionStateMachine) (c : Call)
    → P m
    → ((t : ConnectionState)
        → compute_next_state m.current_state c.event ≡ ok t
        → is_valid_transition m.current_state t ≡ true
        → P (enter m c.event c.stamp c.now t))
    → P (step m c)
unfolding handle_event
step_cases P m c unchanged moved =
    settle_cases P m c (compute_next_state m.current_state c.event) unchanged moved

Linked-append :
    (h : List StateTransition) (s : ConnectionState) (t : StateTransition)
    → Linked h s
    → t.from ≡ s
    → Linked (h ++ t ∷ []) t.to
Linked-append [] s t l e = refl
Linked-append (u ∷ []) s t l e = (l ∙ sym e, refl)
Linked-append (u ∷ v ∷ h) s t l e = (l.0, Linked-append (v ∷ h) s t l.1 e)

Linked-tail : (h : List StateTransition) (s : ConnectionState) → Linked h s → Linked (tail h) s
Linked-tail [] s l = tt
Linked-tail (t ∷ []) s l = tt
Linked-tail (t ∷ u ∷ h) s l = l.1

All-tail : (h : List StateTransition) → All IsEdge h → All IsEdge (tail h)
All-tail [] a = tt
All-tail (t ∷ h) a = a.1

length-tail : (h : List StateTransition) → length (tail h) ≡ length h - 1
length-tail [] = omega arith
length-tail (t ∷ h) = omega arith

set_times_state :
    (t : ConnectionState) (now : ℕ) (m : ConnectionStateMachine)
    → ((set_times t now m).current_state ≡ m.current_state)
      × ((set_times t now m).state_history ≡ m.state_history)
      × ((set_times t now m).max_history ≡ m.max_history)
set_times_state idle now m = (refl, refl, refl)
set_times_state _ now m = (refl, refl, refl)

enter-HistoryFits :
    (m : ConnectionStateMachine) (c : Call) (t : ConnectionState)
    → is_valid_transition m.current_state t ≡ true
    → HistoryFits m
    → HistoryFits (enter m c.event c.stamp c.now t)
unfolding enter
enter-HistoryFits m c t valid v =
    let tr : StateTransition = record {
      from = m.current_state;
      to = t;
      event = c.event;
      timestamp = c.stamp;
    } in
    let h = m.state_history ++ tr ∷ [] in
    let linked = Linked-append m.state_history m.current_state tr v.linked refl in
    let edges = All-append IsEdge m.state_history (tr ∷ []) v.edges (valid, tt) in
    ground (
      arith,
      length-append m.state_history (tr ∷ []),
      length-tail h,
      linked,
      edges,
      Linked-tail h t linked,
      All-tail h edges,
      set_times_state t c.now,
    )

enter-TimesFit :
    (m : ConnectionStateMachine) (c : Call) (t : ConnectionState)
    → is_valid_transition m.current_state t ≡ true
    → TimesFit m
    → TimesFit (enter m c.event c.stamp c.now t)
unfolding enter is_valid_transition
enter-TimesFit m c idle valid v = ground arith
enter-TimesFit m c _ valid v = ground arith

step-IsValid : (m : ConnectionStateMachine) (c : Call) → IsValid m → IsValid (step m c)
step-IsValid m c v = step_cases IsValid m c v λ t e valid. record {
  times = enter-TimesFit m c t valid v.times;
  history = enter-HistoryFits m c t valid v.history;
}

-- Every call keeps the invariant, whatever the events and the clock readings are: a session has its
-- connection time and an authenticated one its authentication time, both are cleared outside a
-- session, the history is within its limit, holds valid transitions only, each one starting where
-- the one before ended, and ends in the current state.
pub run-IsValid : (m : ConnectionStateMachine) (cs : List Call) → IsValid m → IsValid (run m cs)
unfolding run
run-IsValid m [] v = v
run-IsValid m (c ∷ cs) v = run-IsValid (step m c) cs (step-IsValid m c v)

pub reset-IsValid : (m : ConnectionStateMachine) → IsValid (reset m)
unfolding reset
reset-IsValid m = ground arith
