-- ===== src/Net/PriorityQueue.antt =====
-- The priority queue, src/crates/bey-net/src/priority_queue.rs. Times and durations are numbers of
-- one unit. `BinaryHeap` is the list of its elements: `pop` takes a greatest one, and of several
-- equal ones (Rust leaves the choice open) the first in the list. The notification channel is the
-- list of what was sent on it, newest first.

mod Tests
pub mod Order
pub mod Timeouts
pub mod Retries
pub mod Acknowledge
use bey.Base.{
  u32, ℕ, ◌+◌, ◌-◌, ◌*◌, ◌%◌, compare, Ordering, leb, ltb, ◌&&◌, Bool, true, false, not,
  if◌then◌else◌, Option, none, some, List, [], ◌∷◌, length, String, HashMap, lookup, insert, remove,
  string_eq,
}
use bey.Base.Errors.{
  NetResult, ok, err, ErrorInfo, new_error, with_category, with_severity, system, warning,
}
use bey.Net.Token.{Token, TokenId, rank}

pub record PriorityQueueEntry : Type 0 where
  pub token : Token
  pub enqueued_at : ℕ
  pub requires_ack : Bool
  pub retry_count : ℕ  -- u32

abbrev pub priority_of : PriorityQueueEntry → ℕ
priority_of e = rank e.token.meta.priority

-- `PartialEq::eq`.
abbrev pub entry_eq : PriorityQueueEntry → PriorityQueueEntry → Bool
entry_eq a b = elim (compare (priority_of a) (priority_of b)) [ Ordering.eq ↦ true | _ ↦ false ]

-- `Ord::cmp`: the higher priority is greater, and of one priority the earlier entry.
abbrev pub cmp : PriorityQueueEntry → PriorityQueueEntry → Ordering
cmp a b = elim (compare (priority_of a) (priority_of b)) [
  | Ordering.eq ↦ compare b.enqueued_at a.enqueued_at
  | Ordering.lt ↦ Ordering.lt
  | Ordering.gt ↦ Ordering.gt
]

abbrev pub is_greater : PriorityQueueEntry → PriorityQueueEntry → Bool
is_greater a b = elim (cmp a b) [ Ordering.gt ↦ true | _ ↦ false ]

pub record PendingAck : Type 0 where
  pub token : Token
  pub sent_at : ℕ
  pub timeout : ℕ
  pub retry_count : ℕ  -- u32
  pub max_retries : ℕ  -- u32

pub record PriorityQueue : Type 0 where
  pub heap : List PriorityQueueEntry
  pub pending_acks : HashMap TokenId PendingAck
  pub ack_notify : List TokenId
  pub default_ack_timeout : ℕ
  pub max_retries : ℕ  -- u32

unfoldable pub new : ℕ → ℕ → PriorityQueue
new default_ack_timeout max_retries = record {
  heap = [];
  pending_acks = [];
  ack_notify = [];
  default_ack_timeout = default_ack_timeout;
  max_retries = max_retries;
}

unfoldable pub enqueue : PriorityQueue → Token → ℕ → PriorityQueue
enqueue q token now =
    let entry : PriorityQueueEntry = record {
      token = token;
      enqueued_at = now;
      requires_ack = token.meta.requires_ack;
      retry_count = 0;
    } in
    record q { heap = entry ∷ q.heap }

abbrev pub keep_greater :
    PriorityQueueEntry
    → List PriorityQueueEntry
    → Option (PriorityQueueEntry × List PriorityQueueEntry)
    → Option (PriorityQueueEntry × List PriorityQueueEntry)
keep_greater x xs none = some (x, xs)
keep_greater x xs (some (y, ys)) = if is_greater y x then some (y, x ∷ ys) else some (x, xs)

-- `BinaryHeap::pop`.
unfoldable pub pop : List PriorityQueueEntry → Option (PriorityQueueEntry × List PriorityQueueEntry)
pop [] = none
pop (x ∷ xs) = keep_greater x xs (pop xs)

unfoldable pub pending_of : PriorityQueue → PriorityQueueEntry → ℕ → PendingAck
pending_of q e now = record {
  token = e.token;
  sent_at = now;
  timeout = q.default_ack_timeout;
  retry_count = e.retry_count;
  max_retries = q.max_retries;
}

abbrev pub track : PriorityQueue → PriorityQueueEntry → ℕ → HashMap TokenId PendingAck
track q e now =
    if e.requires_ack
    then insert e.token.meta.id (pending_of q e now) q.pending_acks
    else q.pending_acks

abbrev pub take_popped :
    PriorityQueue
    → ℕ
    → Option (PriorityQueueEntry × List PriorityQueueEntry)
    → PriorityQueue × Option Token
take_popped q now none = (q, none)
take_popped q now (some (e, rest)) =
    (record q { heap = rest; pending_acks = track q e now }, some e.token)

unfoldable pub dequeue : PriorityQueue → ℕ → PriorityQueue × Option Token
dequeue q now = take_popped q now (pop q.heap)

abbrev pub unknown_token : ErrorInfo
unknown_token = with_severity (with_category (new_error 4501) system) warning

abbrev pub confirm :
    PriorityQueue → TokenId → Option PendingAck → PriorityQueue × NetResult (Unit {0})
confirm q token_id (some _) = (
  record q { pending_acks = remove token_id q.pending_acks; ack_notify = token_id ∷ q.ack_notify },
  ok tt,
)
confirm q token_id none = (q, err unknown_token)

unfoldable pub acknowledge : PriorityQueue → TokenId → PriorityQueue × NetResult (Unit {0})
acknowledge q token_id = confirm q token_id (lookup token_id q.pending_acks)

-- `now.duration_since(sent_at)` is a length of time unless the clock has gone back.
abbrev pub is_due : ℕ → PendingAck → Bool
is_due now p = leb p.sent_at now && ltb p.timeout (now - p.sent_at)

abbrev pub can_retry : PendingAck → Bool
can_retry p = ltb p.retry_count p.max_retries

-- The two lists that the scan of the pending tokens fills.
unfoldable pub to_retry : ℕ → HashMap TokenId PendingAck → List TokenId
to_retry now [] = []
to_retry now ((k, p) ∷ m) =
    let rest = to_retry now m in if is_due now p && can_retry p then k ∷ rest else rest

unfoldable pub timed_out : ℕ → HashMap TokenId PendingAck → List TokenId
timed_out now [] = []
timed_out now ((k, p) ∷ m) =
    let rest = timed_out now m in if is_due now p && not (can_retry p) then k ∷ rest else rest

unfoldable pub remove_all : List TokenId → HashMap TokenId PendingAck → HashMap TokenId PendingAck
remove_all [] m = m
remove_all (k ∷ ks) m = remove_all ks (remove k m)

unfoldable pub retry_entry : ℕ → PendingAck → PriorityQueueEntry
retry_entry now p = record {
  token = p.token;
  enqueued_at = now;
  requires_ack = true;
  retry_count = u32 (p.retry_count + 1);
}

abbrev pub retry_one :
    ℕ
    → TokenId
    → Option PendingAck
    → HashMap TokenId PendingAck × List PriorityQueueEntry
    → HashMap TokenId PendingAck × List PriorityQueueEntry
retry_one now k none s = s
retry_one now k (some p) (m, heap) = (remove k m, retry_entry now p ∷ heap)

unfoldable pub retry_all :
    ℕ
    → List TokenId
    → HashMap TokenId PendingAck × List PriorityQueueEntry
    → HashMap TokenId PendingAck × List PriorityQueueEntry
retry_all now [] s = s
retry_all now (k ∷ ks) s = retry_all now ks (retry_one now k (lookup k s.0) s)

unfoldable pub check_timeouts : PriorityQueue → ℕ → PriorityQueue × ℕ
check_timeouts q now =
    let out = timed_out now q.pending_acks in
    let again = to_retry now q.pending_acks in
    let (m, heap) = retry_all now again (remove_all out q.pending_acks, q.heap) in
    (record q { heap = heap; pending_acks = m }, length out + length again)

unfoldable pub size : PriorityQueue → ℕ
size q = length q.heap

unfoldable pub pending_acks_count : PriorityQueue → ℕ
pending_acks_count q = length q.pending_acks

unfoldable pub clear : PriorityQueue → PriorityQueue
clear q = record q { heap = []; pending_acks = [] }
