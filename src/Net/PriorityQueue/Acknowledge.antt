-- ===== src/Net/PriorityQueue/Acknowledge.antt =====
-- What `acknowledge` does to the tokens that wait.
use text.Mathlib.TextEquality.{eq_iff}
use bey.Base.{
  ◌⊎◌, inl, inr, Option-cases, ◌≡◌, none, some, arith, Option-cases, inl, inr, if◌then◌else◌,
  lookup, lookup-remove, ◌==◌, string_eq, beq_refl,
}
use bey.Base.Errors.{ok, err}
use bey.Net.Token.{TokenId}
use bey.Net.PriorityQueue.{PriorityQueue, PendingAck, acknowledge, unknown_token}

-- What `acknowledge k` does where the table gives `o` for `k`, and that it can be done once.
pub record Acknowledges (q : PriorityQueue) (k : TokenId) : Type 0 where
  pub outcome :
      ((p : PendingAck) × (lookup k q.pending_acks ≡ some p) × ((acknowledge q k).1 ≡ ok tt))
      ⊎ ((lookup k q.pending_acks ≡ none) × (acknowledge q k ≡ (q, err unknown_token)))
  pub others :
      (j : TokenId)
      → lookup j (acknowledge q k).0.pending_acks
        ≡ (if k == j then none else lookup j q.pending_acks)
  pub once : acknowledge (acknowledge q k).0 k ≡ ((acknowledge q k).0, err unknown_token)

-- `acknowledge` succeeds for a waiting token, after which the token waits no more and no other
-- token is touched. For any other identifier, and so at the second time, it fails with error 4501
-- and changes nothing.
pub acknowledge-Acknowledges : (q : PriorityQueue) (k : TokenId) → Acknowledges q k
unfolding acknowledge
acknowledge-Acknowledges q k = record {
  outcome = elim (Option-cases (lookup k q.pending_acks)) [
    | inl e ↦ inr (e, ground arith)
    | inr (p, e) ↦ inl (p, e, ground arith)
  ];
  others = λ j. ground (arith, eq_iff k j, lookup-remove k j q.pending_acks);
  once = ground (arith, beq_refl k, lookup-remove k k q.pending_acks);
}
