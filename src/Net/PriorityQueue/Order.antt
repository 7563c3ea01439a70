-- ===== src/Net/PriorityQueue/Order.antt =====
-- The order of delivery: what `dequeue` takes from the heap.
use mathlib.Core.List.{Perm}
use mathlib.Core.List.Perm
use bey.Base.{
  lookup, string_eq, ◌==◌, ◌&&◌, ℕ, ◌≡◌, refl, inl, inr, true, false, Option, none, some, List, [],
  ◌∷◌, arith, All, All-mono, Bool-cases, if◌then◌else◌,
}
use bey.Net.Token.{Token, TokenId}
use bey.Net.PriorityQueue.{
  pending_of, PriorityQueueEntry, PriorityQueue, is_greater, pop, keep_greater,
}

is_greater_asym : (a b : PriorityQueueEntry) → is_greater a b ≡ true → is_greater b a ≡ false
is_greater_asym a b h = ground arith

is_greater_irrefl : (a : PriorityQueueEntry) → is_greater a a ≡ false
is_greater_irrefl a = ground arith

-- Being no greater is transitive.
not_greater_trans :
    (a b c : PriorityQueueEntry)
    → is_greater a b ≡ false
    → is_greater b c ≡ false
    → is_greater a c ≡ false
not_greater_trans a b c h k = ground arith

-- `e` is a greatest entry of the heap `h`, and `rest` is what remains without it.
abbrev pub Best : List PriorityQueueEntry → PriorityQueueEntry → List PriorityQueueEntry → Type 0
Best h e rest = Perm h (e ∷ rest) × All (λ x. is_greater x e ≡ false) h

abbrev pub Pops :
    List PriorityQueueEntry → Option (PriorityQueueEntry × List PriorityQueueEntry) → Type 0
Pops h none = h ≡ []
Pops h (some (e, rest)) = Best h e rest

keep_greater-Pops :
    (x : PriorityQueueEntry) (xs : List PriorityQueueEntry)
    (r : Option (PriorityQueueEntry × List PriorityQueueEntry))
    → Pops xs r
    → Pops (x ∷ xs) (keep_greater x xs r)
keep_greater-Pops x xs none p = (Perm.rfl, (is_greater_irrefl x, rw p tt))
keep_greater-Pops x xs (some (y, ys)) p = elim (Bool-cases (is_greater y x)) [
  | inl above ↦
      rw above (Perm.trans (Perm.cons x p.0) (Perm.swap y x ys), (is_greater_asym y x above, p.1))
  | inr below ↦ rw below (
    Perm.rfl,
    (
      is_greater_irrefl x,
      All-mono (λ z. is_greater z y ≡ false) (λ z. is_greater z x ≡ false) xs
          (λ z h. not_greater_trans z y x h below) p.1,
    ),
  )
]

-- `BinaryHeap::pop` takes a greatest entry, and fails on the empty heap only.
pub pop-Pops : (h : List PriorityQueueEntry) → Pops h (pop h)
unfolding pop
pop-Pops [] = refl
pop-Pops (x ∷ xs) = keep_greater-Pops x xs (pop xs) (pop-Pops xs)

-- What a call of `dequeue` on `q` that delivers entry `e` leaves and returns.
pub record Delivers (q : PriorityQueue) (now : ℕ) (e : PriorityQueueEntry)
    (r : PriorityQueue × Option Token) : Type 0 where
  pub best : Best q.heap e r.0.heap
  pub token : r.1 ≡ some e.token
  pub pending :
      (k : TokenId)
      → lookup k r.0.pending_acks ≡ (
          if e.requires_ack && (e.token.meta.id == k)
          then some (pending_of q e now)
          else lookup k q.pending_acks)
