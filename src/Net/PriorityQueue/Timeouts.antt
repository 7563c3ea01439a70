-- ===== src/Net/PriorityQueue/Timeouts.antt =====
-- What `check_timeouts` does to the tokens that wait for their acknowledgement.
use mathlib.Core.List.{Perm}
use mathlib.Core.List.Perm
use bey.Base.{
  ℕ, ◌+◌, ◌≡◌, refl, inl, inr, Bool, false, not, ◌&&◌, ◌||◌, none, List, [], ◌∷◌, ◌++◌, map, arith,
  length, retain, Option-cases, if◌then◌else◌, HashMap, lookup, remove, Unique, ◌==◌, string_eq,
  beq_refl, remove-absent, lookup-retain,
}
use text.Mathlib.TextEquality.{eq_iff}
use bey.Net.Token.{TokenId}
use bey.Net.PriorityQueue.{
  PriorityQueueEntry, PriorityQueue, PendingAck, is_due, can_retry, to_retry, timed_out, remove_all,
  retry_entry, retry_all, check_timeouts,
}

-- The three fates of a waiting token, of which each has one: it is dropped, it is queued again, or
-- it waits on.
abbrev pub is_dropped : ℕ → TokenId × PendingAck → Bool
is_dropped now (k, p) = is_due now p && not (can_retry p)

abbrev pub is_retried : ℕ → TokenId × PendingAck → Bool
is_retried now (k, p) = is_due now p && can_retry p

abbrev pub waits_on : ℕ → TokenId × PendingAck → Bool
waits_on now (k, p) = not (is_due now p)

abbrev is_kept : ℕ → TokenId × PendingAck → Bool
is_kept now (k, p) = not (is_dropped now (k, p))

contains : List TokenId → TokenId → Bool
contains [] k = false
contains (j ∷ js) k = j == k || contains js k

-- The heap after the tokens of `m` that are retried have been pushed, in order.
abbrev pub requeued :
    ℕ → HashMap TokenId PendingAck → List PriorityQueueEntry → List PriorityQueueEntry
requeued now [] heap = heap
requeued now ((k, p) ∷ m) heap =
    requeued now m (if is_retried now (k, p) then retry_entry now p ∷ heap else heap)

timed_out-absent :
    (now : ℕ) (k : TokenId) (m : HashMap TokenId PendingAck)
    → lookup k m ≡ none
    → contains (timed_out now m) k ≡ false
unfolding lookup contains timed_out
timed_out-absent now k [] h = refl
timed_out-absent now k ((j, p) ∷ m) h = ground (arith, timed_out-absent now k m)

to_retry-absent :
    (now : ℕ) (k : TokenId) (m : HashMap TokenId PendingAck)
    → lookup k m ≡ none
    → contains (to_retry now m) k ≡ false
unfolding lookup contains to_retry
to_retry-absent now k [] h = refl
to_retry-absent now k ((j, p) ∷ m) h = ground (arith, to_retry-absent now k m)

-- A key that is not removed keeps its place at the front.
remove_all-cons :
    (ks : List TokenId) (k : TokenId) (p : PendingAck) (m : HashMap TokenId PendingAck)
    → contains ks k ≡ false
    → remove_all ks ((k, p) ∷ m) ≡ (k, p) ∷ remove_all ks m
unfolding remove_all remove contains
remove_all-cons [] k p m h = refl
remove_all-cons (j ∷ ks) k p m h =
    ground (arith, eq_iff j k, eq_iff k j, remove_all-cons ks k p (remove j m))

remove_all-timed_out :
    (now : ℕ) (m : HashMap TokenId PendingAck)
    → Unique m
    → remove_all (timed_out now m) m ≡ retain (is_kept now) m
unfolding timed_out remove_all remove
remove_all-timed_out now [] u = refl
remove_all-timed_out now ((k, p) ∷ m) u = ground (
  arith,
  beq_refl k,
  remove-absent k m u.0,
  remove_all-timed_out now m u.1,
  remove_all-cons (timed_out now m) k p m (timed_out-absent now k m u.0),
)

retry_all-cons :
    (now : ℕ) (ks : List TokenId) (k : TokenId) (p : PendingAck) (m : HashMap TokenId PendingAck)
    (heap : List PriorityQueueEntry)
    → contains ks k ≡ false
    → retry_all now ks ((k, p) ∷ m, heap)
      ≡ ((k, p) ∷ (retry_all now ks (m, heap)).0, (retry_all now ks (m, heap)).1)
unfolding retry_all remove contains lookup
retry_all-cons now [] k p m heap h = refl
retry_all-cons now (j ∷ ks) k p m heap h = elim (Option-cases (lookup j m)) [
  | inl e ↦ ground (arith, e, eq_iff j k, eq_iff k j, retry_all-cons now ks k p m heap)
  | inr (v, e) ↦ ground (
    arith,
    e,
    eq_iff j k,
    eq_iff k j,
    retry_all-cons now ks k p (remove j m) (retry_entry now v ∷ heap),
  )
]

retry_all-kept :
    (now : ℕ) (m : HashMap TokenId PendingAck) (heap : List PriorityQueueEntry)
    → Unique m
    → retry_all now (to_retry now m) (retain (is_kept now) m, heap)
      ≡ (retain (waits_on now) m, requeued now m heap)
unfolding to_retry retry_all remove lookup
retry_all-kept now [] heap u = refl
retry_all-kept now ((k, p) ∷ m) heap u = ground (
  arith,
  beq_refl k,
  remove-absent k (retain (is_kept now) m) (lookup-retain (is_kept now) k m u.0),
  retry_all-kept now m heap u.1,
  retry_all-kept now m (retry_entry now p ∷ heap) u.1,
  retry_all-cons now (to_retry now m) k p (retain (is_kept now) m) heap
      (to_retry-absent now k m u.0),
)

abbrev pub retries : ℕ → HashMap TokenId PendingAck → List PriorityQueueEntry
retries now m = map (λ kp. retry_entry now kp.1) (retain (is_retried now) m)

pub check_timeouts_lem :
    (q : PriorityQueue) (now : ℕ)
    → Unique q.pending_acks
    → check_timeouts q now ≡ (
      record q {
        heap = requeued now q.pending_acks q.heap;
        pending_acks = retain (waits_on now) q.pending_acks;
      },
      length (timed_out now q.pending_acks) + length (to_retry now q.pending_acks),
    )
unfolding check_timeouts
check_timeouts_lem q now u =
    rw (remove_all-timed_out now q.pending_acks u, retry_all-kept now q.pending_acks q.heap u)

-- What `check_timeouts` at time `now` leaves of the queue `q`, and returns.
pub record Checks (q : PriorityQueue) (now : ℕ) (r : PriorityQueue × ℕ) : Type 0 where
  pub waiting : r.0.pending_acks ≡ retain (waits_on now) q.pending_acks
  pub queued : Perm r.0.heap (retries now q.pending_acks ++ q.heap)
  pub counted : r.1 + length r.0.pending_acks ≡ length q.pending_acks
