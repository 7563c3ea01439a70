-- ===== src/Net/FlowControl/Windows.antt =====
-- The windows of the flow controller: what they are bounded by, and what they bound.
use bey.Base.{ℕ, ◌≤◌, ◌<◌, ◌≡◌, refl, false, arith, max, List, [], ◌∷◌, All}
use bey.Base.Errors.{NetResult, ok, err, panics, ◌>>=◌}
use bey.Net.FlowControl.{
  CongestionState, slow_start, FlowController, Call, sends, acks, losses, advertises, new, step,
  run, can_send, on_send, on_ack, on_loss, update_recv_window, try_send,
}

-- The largest congestion window.
abbrev pub cap : FlowController → ℕ
cap f = max f.max_window 1024

-- The least congestion window of a state; in slow start it may be any.
abbrev pub least_window : CongestionState → ℕ
least_window slow_start = 0
least_window _ = 1024

pub record IsValid (f : FlowController) : Type 0 where
  pub least : f.min_window ≡ 1024
  pub bounded : f.congestion_window ≤ cap f
  pub threshold : f.ssthresh ≤ cap f
  pub floor : least_window f.congestion_state ≤ f.congestion_window
  pub in_flight : f.bytes_in_flight ≤ f.send_window

abbrev pub IsCall : Call → Type 0
IsCall (sends size) = size < 9223372036854775808
IsCall _ = Unit

-- The result is a controller with `P`.
abbrev pub Returns : {A : Type 0} → (A → Type 0) → NetResult A → Type 0
Returns P (ok a) = P a
Returns P _ = ⊥

-- A valid controller with the fixed windows of `f`.
abbrev pub Follows : FlowController → FlowController → Type 0
Follows f g = IsValid g × (g.send_window ≡ f.send_window) × (g.max_window ≡ f.max_window)

-- What a step may rely on.
abbrev pub IsReady : FlowController → Type 0
IsReady f = IsValid f × (f.send_window < 9223372036854775808)

pub step-Follows :
    (f : FlowController) (c : Call) → IsCall c → IsReady f → Returns (Follows f) (step f c)
unfolding step try_send can_send on_send on_ack on_loss update_recv_window
step-Follows f (sends size) i v = ground arith
step-Follows f (acks size rtt) i v = ground arith
step-Follows f losses i v = ground arith
step-Follows f (advertises size) i v = ground arith

-- To prove what a run returns, prove what each step returns.
pub Returns-bind :
    {A B : Type 0} (P : A → Type 0) (Q : B → Type 0) (r : NetResult A) (f : A → NetResult B)
    → Returns P r
    → ((a : A) → P a → Returns Q (f a))
    → Returns Q (r >>= f)
Returns-bind P Q (ok a) f p k = k a p
Returns-bind P Q (err e) f p k = absurd p
Returns-bind P Q panics f p k = absurd p

pub Returns-mono :
    {A : Type 0} (P Q : A → Type 0) (r : NetResult A)
    → ((a : A) → P a → Q a)
    → Returns P r
    → Returns Q r
Returns-mono P Q (ok a) f p = f a p
Returns-mono P Q (err e) f p = p
Returns-mono P Q panics f p = p

Follows-IsReady : (f g : FlowController) → IsReady f → Follows f g → IsReady g
Follows-IsReady f g r h = ground arith

Follows-trans : (f g h : FlowController) → Follows f g → Follows g h → Follows f h
Follows-trans f g h p q = ground arith

pub run-Follows :
    (f : FlowController) (cs : List Call)
    → IsReady f
    → All IsCall cs
    → Returns (Follows f) (run f cs)
unfolding run
run-Follows f [] r i = (r.0, refl, refl)
run-Follows f (c ∷ cs) r i =
    Returns-bind (Follows f) (Follows f) (step f c) (λ g. run g cs) (step-Follows f c i.0 r)
      λ g h.
        Returns-mono (Follows g) (Follows f) (run g cs) (λ k q. Follows-trans f g k h q)
          (run-Follows g cs (Follows-IsReady f g r h) i.1)

oversized :
    (f : FlowController) (size : ℕ)
    → IsReady f
    → IsCall (sends size)
    → f.send_window < size
    → can_send f size ≡ false
unfolding can_send
oversized f size r i h = ground arith

-- A message longer than the send window is never allowed out, whatever has happened before it.
pub can_send-oversized :
    (f : FlowController) (cs : List Call) (size : ℕ)
    → IsReady f
    → All IsCall cs
    → IsCall (sends size)
    → f.send_window < size
    → Returns (λ g. can_send g size ≡ false) (run f cs)
can_send-oversized f cs size r i s h =
    Returns-mono (Follows f) (λ g. can_send g size ≡ false) (run f cs)
      (λ g q. oversized g size (Follows-IsReady f g r q) s (omega arith)) (run-Follows f cs r i)

pub new-IsValid : (initial max : ℕ) → initial ≤ max → IsValid (new initial max)
unfolding new
new-IsValid initial max h = ground arith
