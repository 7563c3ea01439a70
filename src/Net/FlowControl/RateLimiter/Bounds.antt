-- ===== src/Net/FlowControl/RateLimiter/Bounds.antt =====
-- How much the rate limiter lets through.
use bey.Base.{◌⊎◌, ℕ, ◌≤◌, ◌<◌, ◌≡◌, arith}
use bey.Base.Errors.{ok, err}
use bey.Net.FlowControl.RateLimiter.{RateLimiter, set_rate, refill_tokens, acquire, out_of_tokens}

module _ (amount : ℕ → ℕ → ℕ) where
  -- While the tokens are within the bucket's capacity they stay so, and a request above the capacity
  -- fails with error 4601.
  pub acquire-capacity :
      (r : RateLimiter) (size now : ℕ)
      → r.tokens ≤ r.bucket_capacity
      → let (s, result) = acquire amount r size now in
        (s.tokens ≤ s.bucket_capacity)
        × (s.bucket_capacity ≡ r.bucket_capacity)
        × ((size ≤ r.bucket_capacity) ⊎ (result ≡ err out_of_tokens))
  unfolding acquire refill_tokens
  acquire-capacity r size now h = ground arith

  -- `set_rate` leaves the tokens: after a change to a rate below them, a request of all of them, more
  -- than the new capacity, is granted at once if no time has gone by.
  pub acquire-set_rate :
      (r : RateLimiter) (rate : ℕ)
      → amount rate 0 ≡ 0
      → rate < r.tokens
      → let s = set_rate r rate in
        (s.bucket_capacity < r.tokens) × ((acquire amount s r.tokens r.last_refill).1 ≡ ok tt)
  unfolding acquire refill_tokens set_rate
  acquire-set_rate r rate z h = ground arith
