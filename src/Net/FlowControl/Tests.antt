-- ===== src/Net/FlowControl/Tests.antt =====
-- The theorems about flow control at concrete inputs.
use bey.Base.{ℕ, ◌≡◌, ◌<◌, ◌*◌, ◌/◌, refl, List, [], ◌∷◌, arith}
use bey.Net.FlowControl.{FlowController, new, Call, sends, acks, losses, advertises, run, on_loss}
use bey.Net.FlowControl.Windows.{Returns}
use bey.Net.FlowControl.Loss.{Recovers, on_loss-Recovers}
use bey.Net.FlowControl.RateLimiter.{RateLimiter, set_rate, acquire, out_of_tokens}
use bey.Net.FlowControl.RateLimiter as RateLimiter

abbrev fresh : FlowController
fresh = new 65536 1048576

abbrev calls : List Call
calls = sends 4096 ∷ acks 4096 80 ∷ losses ∷ sends 1000 ∷ acks 1000 120 ∷ advertises 2048 ∷ []

too_long : fresh.send_window < 70000
unfolding new
too_long = ground arith

least : fresh.min_window ≡ 1024
unfolding new
least = refl

on_loss-Recovers_example : Returns (Recovers (on_loss fresh)) (run (on_loss fresh) calls)
on_loss-Recovers_example = on_loss-Recovers fresh calls least

-- Whole bytes for each second.
abbrev by_second : ℕ → ℕ → ℕ
by_second rate elapsed = rate * elapsed / 1000000000

abbrev bucket : RateLimiter
bucket = record { max_rate = 1000; bucket_capacity = 1000; tokens = 1000; last_refill = 0 }
