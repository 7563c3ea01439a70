-- ===== src/Net/FlowControl/Loss.antt =====
-- The congestion window after a loss.
use bey.Base.{◌≤◌, ◌≡◌, arith, List, [], ◌∷◌}
use bey.Net.FlowControl.{
  FlowController, fast_recovery, Call, sends, acks, losses, advertises, step, run, on_ack, on_loss,
  on_send, try_send, update_recv_window,
}
use bey.Net.FlowControl.Windows.{Returns, Returns-bind}

-- A controller in fast recovery whose congestion window is at most that of `f`.
abbrev pub Recovers : FlowController → FlowController → Type 0
Recovers f g =
    (g.congestion_state ≡ fast_recovery)
    × (1024 ≤ g.congestion_window)
    × (g.min_window ≡ 1024)
    × (g.congestion_window ≤ f.congestion_window)

step-Recovers : (f g : FlowController) (c : Call) → Recovers f g → Returns (Recovers f) (step g c)
unfolding step try_send on_send on_ack on_loss update_recv_window
step-Recovers f g (sends size) r = ground arith
step-Recovers f g (acks size rtt) r = ground arith
step-Recovers f g losses r = ground arith
step-Recovers f g (advertises size) r = ground arith

run-Recovers :
    (f g : FlowController) (cs : List Call) → Recovers f g → Returns (Recovers f) (run g cs)
unfolding run
run-Recovers f g [] r = r
run-Recovers f g (c ∷ cs) r =
    Returns-bind (Recovers f) (Recovers f) (step g c) (λ h. run h cs) (step-Recovers f g c r)
      λ h s. run-Recovers f h cs s

-- Fast recovery is never left, and its window never grows: after a loss, whatever calls follow, the
-- state is fast recovery and the congestion window at most what the loss made of it.
pub on_loss-Recovers :
    (f : FlowController) (cs : List Call)
    → f.min_window ≡ 1024
    → Returns (Recovers (on_loss f)) (run (on_loss f) cs)
unfolding on_loss
on_loss-Recovers f cs h = run-Recovers (on_loss f) (on_loss f) cs (start f h)
  where
    start : (f : FlowController) → f.min_window ≡ 1024 → Recovers (on_loss f) (on_loss f)
    start f h = ground arith
