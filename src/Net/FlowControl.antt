-- ===== src/Net/FlowControl.antt =====
-- The flow controller, src/crates/bey-net/src/flow_control.rs, and the engine's use of it,
-- `send_with_flow_control` of engine.rs. A usize and a u64 are numbers below 2 ^ 64, whose sums and
-- products wrap, as in the release profile. The two averages that the code takes in f64 are taken
-- in whole numbers, which agree with it while the times stay below 2 ^ 51 milliseconds.
mod Tests
pub mod Windows
pub mod Loss
pub mod Rtt
pub mod RateLimiter
use bey.Base.{
  u64, ℕ, ◌+◌, ◌-◌, ◌*◌, ◌/◌, ◌%◌, min, max, leb, eqb, Bool, if◌then◌else◌, List, [], ◌∷◌,
}
use bey.Base.Errors.{NetResult, ok, err, panics, ◌>>=◌}

pub data CongestionState : Type 0 where
  slow_start congestion_avoidance fast_recovery : CongestionState

pub record FlowController : Type 0 where
  pub send_window : ℕ
  pub recv_window : ℕ
  pub congestion_window : ℕ
  pub ssthresh : ℕ
  pub congestion_state : CongestionState
  pub max_window : ℕ
  pub min_window : ℕ
  pub bytes_in_flight : ℕ
  pub rtt_ms : ℕ
  pub rtt_var_ms : ℕ

unfoldable pub new : ℕ → ℕ → FlowController
new initial_window max_window = record {
  send_window = initial_window;
  recv_window = initial_window;
  congestion_window = initial_window;
  ssthresh = max_window / 2;
  congestion_state = slow_start;
  max_window = max_window;
  min_window = 1024;
  bytes_in_flight = 0;
  rtt_ms = 100;
  rtt_var_ms = 50;
}

abbrev pub effective_window : FlowController → ℕ
effective_window f = min (min f.send_window f.recv_window) f.congestion_window

unfoldable pub can_send : FlowController → ℕ → Bool
can_send f size = leb (u64 (f.bytes_in_flight + size)) (effective_window f)

unfoldable pub on_send : FlowController → ℕ → FlowController
on_send f size = record f { bytes_in_flight = u64 (f.bytes_in_flight + size) }

-- `(a as i64 - b as i64).abs()`.
abbrev pub distance : ℕ → ℕ → ℕ
distance a b = (a - b) + (b - a)

unfoldable pub update_rtt : FlowController → ℕ → FlowController
update_rtt f rtt = record f {
  rtt_var_ms = (3 * f.rtt_var_ms + distance f.rtt_ms rtt) / 4;
  rtt_ms = (7 * f.rtt_ms + rtt) / 8;
}

abbrev pub slow_start_ack : FlowController → ℕ → FlowController
slow_start_ack f size =
    let cwnd = u64 (f.congestion_window + size) in
    record f {
      congestion_window = cwnd;
      congestion_state = if leb f.ssthresh cwnd then congestion_avoidance else slow_start;
    }

-- A division by zero panics.
abbrev pub avoidance_ack : FlowController → ℕ → NetResult FlowController
avoidance_ack f size =
    if eqb f.congestion_window 0
    then panics
    else ok (record f {
      congestion_window = u64 (f.congestion_window + u64 (size * size) / f.congestion_window);
    })

abbrev pub grow : CongestionState → FlowController → ℕ → NetResult FlowController
grow slow_start f size = ok (slow_start_ack f size)
grow congestion_avoidance f size = avoidance_ack f size
grow fast_recovery f size = ok f

abbrev pub limit_window : FlowController → FlowController
limit_window f = record f {
  congestion_window = max (min f.congestion_window f.max_window) f.min_window;
}

unfoldable pub on_ack : FlowController → ℕ → ℕ → NetResult FlowController
unfolding update_rtt
on_ack f size rtt = do
  let acked = update_rtt (record f { bytes_in_flight = f.bytes_in_flight - size }) rtt
  grown ← grow acked.congestion_state acked size
  ok (limit_window grown)

unfoldable pub on_loss : FlowController → FlowController
on_loss f =
    let half = max (f.congestion_window / 2) f.min_window in
    record f { ssthresh = half; congestion_window = half; congestion_state = fast_recovery }

unfoldable pub get_timeout : FlowController → ℕ
get_timeout f = max (f.rtt_ms + 4 * f.rtt_var_ms) 1000

unfoldable pub update_recv_window : FlowController → ℕ → FlowController
update_recv_window f size = record f { recv_window = size }

-- One round of the engine's loop: the send is recorded once `can_send` allows it.
unfoldable pub try_send : FlowController → ℕ → FlowController
try_send f size = if can_send f size then on_send f size else f

-- The calls of the controller.
pub data Call : Type 0 where
  sends : ℕ → Call
  acks : ℕ → ℕ → Call
  losses : Call
  advertises : ℕ → Call

unfoldable pub step : FlowController → Call → NetResult FlowController
step f (sends size) = ok (try_send f size)
step f (acks size rtt) = on_ack f size rtt
step f losses = ok (on_loss f)
step f (advertises size) = ok (update_recv_window f size)

unfoldable pub run : FlowController → List Call → NetResult FlowController
run f [] = ok f
run f (c ∷ cs) = step f c >>= λ g. run g cs
