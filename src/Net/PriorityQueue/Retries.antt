-- ===== src/Net/PriorityQueue/Retries.antt =====
-- The number of times that a token is sent again.
use bey.Base.{ℕ, ◌≤◌, ◌<◌, ◌≡◌, Option, none, some, List, [], ◌∷◌, arith, All, Unique, string_eq}
use bey.Net.Token.{Token, TokenId}
use bey.Net.PriorityQueue.{
  PriorityQueueEntry, PriorityQueue, PendingAck, new, enqueue, dequeue, acknowledge, check_timeouts,
  clear,
}

abbrev pub RetriesFit : ℕ → PriorityQueueEntry → Type 0
RetriesFit n e = e.retry_count ≤ n

abbrev pub WaitFits : ℕ → TokenId × PendingAck → Type 0
WaitFits n (k, p) = (p.retry_count ≤ n) × (p.max_retries ≡ n)

pub record IsValid (q : PriorityQueue) : Type 0 where
  pub unique : Unique q.pending_acks
  pub queued : All (RetriesFit q.max_retries) q.heap
  pub waiting : All (WaitFits q.max_retries) q.pending_acks
  pub u32 : q.max_retries < 4294967296

abbrev PoppedFit : ℕ → Option (PriorityQueueEntry × List PriorityQueueEntry) → Type 0
PoppedFit n none = Unit {0}
PoppedFit n (some (e, rest)) = RetriesFit n e × All (RetriesFit n) rest

-- The calls of the queue, with their clock readings.
pub data Call : Type 0 where
  enqueues : Token → ℕ → Call
  dequeues : ℕ → Call
  acknowledges : TokenId → Call
  checks : ℕ → Call
  clears : Call

pub step : PriorityQueue → Call → PriorityQueue
step q (enqueues t now) = enqueue q t now
step q (dequeues now) = (dequeue q now).0
step q (acknowledges k) = (acknowledge q k).0
step q (checks now) = (check_timeouts q now).0
step q clears = clear q

pub run : PriorityQueue → List Call → PriorityQueue
run q [] = q
run q (c ∷ cs) = run (step q c) cs

pub new-IsValid : (timeout n : ℕ) → n < 4294967296 → IsValid (new timeout n)
unfolding new
new-IsValid timeout n h = ground arith
