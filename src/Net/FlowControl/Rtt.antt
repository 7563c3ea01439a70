-- ===== src/Net/FlowControl/Rtt.antt =====
-- The estimate of the round-trip time and the timeout that follows from it.
use bey.Base.{ℕ, ◌*◌, ◌≤◌, arith, List, [], ◌∷◌, All, max}
use bey.Net.FlowControl.{
  FlowController, Call, sends, acks, losses, advertises, step, run, on_ack, on_loss, on_send,
  try_send, update_recv_window, can_send, get_timeout,
}
use bey.Net.FlowControl.Windows.{IsCall, IsReady, Returns, Returns-bind}

abbrev pub IsSample : ℕ → Call → Type 0
IsSample b (acks size rtt) = rtt ≤ b
IsSample b _ = Unit

abbrev pub RttFits : ℕ → FlowController → Type 0
RttFits b f = (f.rtt_ms ≤ b) × (f.rtt_var_ms ≤ b)

-- A step keeps the controller ready and its times within `b`.
step-RttFits :
    (b : ℕ) (f : FlowController) (c : Call)
    → IsCall c
    → IsSample b c
    → IsReady f
    → RttFits b f
    → Returns (λ g. IsReady g × RttFits b g) (step f c)
unfolding step try_send can_send on_send on_ack on_loss update_recv_window
step-RttFits b f (sends size) i s r h = ground arith
step-RttFits b f (acks size rtt) i s r h = ground arith
step-RttFits b f losses i s r h = ground arith
step-RttFits b f (advertises size) i s r h = ground arith

abbrev pub TimeoutFits : ℕ → FlowController → Type 0
TimeoutFits b g = (1000 ≤ get_timeout g) × (get_timeout g ≤ max (5 * b) 1000)

timeout_fits : (b : ℕ) (f : FlowController) → RttFits b f → TimeoutFits b f
unfolding get_timeout
timeout_fits b f h = omega arith

-- While every measured round trip takes at most `b` milliseconds, and the first estimates do, the
-- timeout stays between one second and the larger of `5 * b` milliseconds and one second.
pub run-timeout :
    (b : ℕ) (f : FlowController) (cs : List Call)
    → All IsCall cs
    → All (IsSample b) cs
    → IsReady f
    → RttFits b f
    → Returns (TimeoutFits b) (run f cs)
unfolding run
run-timeout b f [] i s r h = timeout_fits b f h
run-timeout b f (c ∷ cs) i s r h =
    Returns-bind (λ g. IsReady g × RttFits b g) (TimeoutFits b) (step f c) (λ g. run g cs)
      (step-RttFits b f c i.0 s.0 r h) λ g q. run-timeout b g cs i.1 s.1 q.0 q.1
