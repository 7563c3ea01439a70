-- ===== src/Net/PriorityQueue/Tests.antt =====
-- The theorems about the priority queue at concrete inputs.
use bey.Base.{ℕ, true, List, [], ◌∷◌, string_eq}
use bey.Net.Token.{Token, low, normal, high}
use bey.Net.Token.Tests.{token_of}
use bey.Net.PriorityQueue.{PriorityQueue, PriorityQueueEntry, PendingAck}
use bey.Net.PriorityQueue.Retries.{Call, enqueues, dequeues, acknowledges, checks}
use bey.Net.PriorityQueue.Acknowledge.{Acknowledges, acknowledge-Acknowledges}

-- Two tokens queued and one sent, with a timeout of 5 and 3 retries.
abbrev entry_of : Token → ℕ → PriorityQueueEntry
entry_of t now = record { token = t; enqueued_at = now; requires_ack = true; retry_count = 0 }

abbrev waiting_one : PendingAck
waiting_one = record {
  token = token_of "c" low;
  sent_at = 2;
  timeout = 5;
  retry_count = 1;
  max_retries = 3;
}

abbrev busy : PriorityQueue
busy = record {
  heap = entry_of (token_of "a" normal) 1 ∷ entry_of (token_of "b" high) 2 ∷ [];
  pending_acks = ("c", waiting_one) ∷ [];
  ack_notify = [];
  default_ack_timeout = 5;
  max_retries = 3;
}

abbrev calls : List Call
calls =
    enqueues (token_of "a" normal) 1
    ∷ enqueues (token_of "b" high) 2
    ∷ dequeues 3
    ∷ checks 20
    ∷ dequeues 21
    ∷ acknowledges "b"
    ∷ []

acknowledge-Acknowledges_example : Acknowledges busy "c"
acknowledge-Acknowledges_example = acknowledge-Acknowledges busy "c"
