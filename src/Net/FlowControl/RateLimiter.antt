-- ===== src/Net/FlowControl/RateLimiter.antt =====
-- The rate limiter of src/crates/bey-net/src/flow_control.rs. The amount that the code computes in
-- f64 from the rate and the time gone is an argument, `amount`, for any function of these two; a
-- time is a number of nanoseconds.
pub mod Bounds
use bey.Base.{
  u64, ℕ, ◌+◌, ◌-◌, ◌%◌, ◌≤◌, ◌<◌, ◌≡◌, refl, min, leb, ltb, Bool, true, false, if◌then◌else◌, List,
  [], ◌∷◌, arith, Option,
}
use bey.Base.Errors.{
  NetResult, ok, err, panics, ErrorInfo, new_error, with_category, with_severity, system, warning,
}

pub record RateLimiter : Type 0 where
  pub max_rate : ℕ
  pub bucket_capacity : ℕ
  pub tokens : ℕ
  pub last_refill : ℕ

unfoldable pub new : ℕ → ℕ → RateLimiter
new max_rate now = record {
  max_rate = max_rate;
  bucket_capacity = max_rate;
  tokens = max_rate;
  last_refill = now;
}

unfoldable pub set_rate : RateLimiter → ℕ → RateLimiter
set_rate r new_rate = record r { max_rate = new_rate; bucket_capacity = new_rate }

abbrev pub out_of_tokens : ErrorInfo
out_of_tokens = with_severity (with_category (new_error 4601) system) warning

module _ (amount : ℕ → ℕ → ℕ) where
  -- The tokens that a refill at `now` adds; none when the clock has gone back.
  abbrev pub refill_amount : RateLimiter → ℕ → ℕ
  refill_amount r now = if leb r.last_refill now then amount r.max_rate (now - r.last_refill) else 0

  unfoldable pub refill_tokens : RateLimiter → ℕ → RateLimiter
  refill_tokens r now =
      if ltb 0 (refill_amount r now)
      then record r {
        tokens = min (u64 (r.tokens + refill_amount r now)) r.bucket_capacity;
        last_refill = now;
      }
      else r

  unfoldable pub acquire : RateLimiter → ℕ → ℕ → RateLimiter × NetResult (Unit {0})
  acquire r size now =
      let s = refill_tokens r now in
      if leb size s.tokens
      then (record s { tokens = s.tokens - size }, ok tt)
      else (s, err out_of_tokens)

  -- A history of requests, each with its size and time: the limiter after it, the bytes granted in
  -- it, and the tokens that its refills offered.
  unfoldable pub run : RateLimiter → List (ℕ × ℕ) → RateLimiter
  run r [] = r
  run r ((size, now) ∷ cs) = run (acquire r size now).0 cs

  unfoldable pub granted : RateLimiter → List (ℕ × ℕ) → ℕ
  granted r [] = 0
  granted r ((size, now) ∷ cs) =
      let rest = granted (acquire r size now).0 cs in
      if leb size (refill_tokens r now).tokens then size + rest else rest

  unfoldable pub offered : RateLimiter → List (ℕ × ℕ) → ℕ
  offered r [] = 0
  offered r ((size, now) ∷ cs) = refill_amount r now + offered (acquire r size now).0 cs
