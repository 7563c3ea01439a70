-- ===== src/FileTransfer/TransferQueue/Draining.antt =====
-- What `process_queue` does to the tasks of the transfer queue.
use bey.Base.{
  is_some, ℕ, zero, suc, ◌<◌, ◌≡◌, refl, ap, ◌∙◌, true, false, if◌then◌else◌, Bool-cases, inl, inr,
  Option, none, some, List, [], ◌∷◌, length, All, All-mono, String, string_eq, lookup, insert,
  remove, arith, beq_refl,
}
use bey.Base.Integers.{ℤ, leb_int, leb_int_refl, leb_int_trans, leb_int_total}
use bey.FileTransfer.TransferQueue.{
  TransferQueue, TransferTask, QueueItem, PendingTaskInfo, is_greater, keep_greater, pop, activate,
  take_item, dequeue_next, drain, process_queue, enqueue, add_permit,
}

-- An item of the lowest priority, and all the others left, by number.
abbrev pub Lowest : List QueueItem → Option (QueueItem × List QueueItem) → Type 0
Lowest h none = h ≡ []
Lowest h (some (x, rest)) =
    All (λ y. leb_int x.priority y.priority ≡ true) h × (suc (length rest) ≡ length h)

keep_greater-Lowest :
    (x : QueueItem) (xs : List QueueItem) (o : Option (QueueItem × List QueueItem))
    → Lowest xs o
    → Lowest (x ∷ xs) (keep_greater x xs o)
keep_greater-Lowest x xs none p = ground (arith, p, leb_int_refl x.priority)
keep_greater-Lowest x xs (some (y, ys)) p = elim (Bool-cases (is_greater y x)) [
  | inl above ↦ rw above ((lower_of above, p.0), omega (arith, p.1))
  | inr below ↦ rw below (
    (
      leb_int_refl x.priority,
      All-mono _ _ xs (λ z h. leb_int_trans x.priority y.priority z.priority (not_above below) h)
          p.0,
    ),
    refl,
  )
]
  where
    lower_of : is_greater y x ≡ true → leb_int y.priority x.priority ≡ true
    lower_of h =
        ground (arith, leb_int_total y.priority x.priority, leb_int_total x.priority y.priority)

    not_above : is_greater y x ≡ false → leb_int x.priority y.priority ≡ true
    not_above h = ground (arith, leb_int_total y.priority x.priority)

-- The heap gives an item of the lowest priority: no item has a priority below that of the item popped,
-- and one item less is left. Only the empty heap gives none.
pub pop-Lowest : (h : List QueueItem) → Lowest h (pop h)
unfolding pop
pop-Lowest [] = refl
pop-Lowest (x ∷ xs) = keep_greater-Lowest x xs (pop xs) (pop-Lowest xs)

-- Nothing queued and nothing waiting, and a permit there, so that `dequeue_next` does not wait.
abbrev pub Idle : TransferQueue → Type 0
Idle q = (q.priority_queue ≡ []) × (q.pending_tasks ≡ []) × (0 < q.permits)

pub process_queue-Idle : (q : TransferQueue) (now : ℕ) → Idle q → process_queue q now ≡ add_permit q
unfolding process_queue drain dequeue_next pop
process_queue-Idle q now i = ground (arith, i)

pub enqueue-Idle :
    (q : TransferQueue) (t : TransferTask) (p : ℤ) (estimate now : ℕ)
    → Idle q
    → Idle (enqueue q t p estimate now)
unfolding enqueue process_queue drain dequeue_next pop lookup insert remove
enqueue-Idle q t p estimate now i = ground (arith, i, beq_refl t.task_id)

activate-heap :
    (q : TransferQueue) (id : String) (now : ℕ) (o : Option PendingTaskInfo)
    → (activate q id now o).0.priority_queue ≡ q.priority_queue
activate-heap q id now none = refl
activate-heap q id now (some p) = refl

-- A round that yields a task takes one item off the heap.
take_item-length :
    (q : TransferQueue) (now : ℕ) (o : Option (QueueItem × List QueueItem))
    → Lowest q.priority_queue o
    → is_some (take_item q now o).1 ≡ true
    → suc (length (take_item q now o).0.priority_queue) ≡ length q.priority_queue
take_item-length q now none l h = ground (arith, h)
take_item-length q now (some (x, rest)) l h =
    ap (λ xs. suc (length xs)) (activate-heap _ x.task_id now _) ∙ l.1

drain-more :
    (n m : ℕ) (q : TransferQueue) (now : ℕ)
    → length q.priority_queue < n
    → length q.priority_queue < m
    → drain n q now ≡ drain m q now
unfolding drain dequeue_next
drain-more zero m q now h k = absurd (omega arith)
drain-more (suc n) zero q now h k = absurd (omega arith)
drain-more (suc n) (suc m) q now h k =
    let s = dequeue_next q now in
    elim (Bool-cases (is_some s.1)) [
      | inl going ↦
          let fewer =
            take_item-length q now (pop q.priority_queue) (pop-Lowest q.priority_queue) going in
          ap (λ r. if is_some s.1 then r else s.0)
            (drain-more n m s.0 now (omega (arith, fewer, h)) (omega (arith, fewer, k)))
      | inr over ↦ rw over refl
    ]

-- The loop of `process_queue` ends: any fuel above the heap's length gives what `process_queue` gives.
pub drain-process_queue :
    (fuel : ℕ) (q : TransferQueue) (now : ℕ)
    → length q.priority_queue < fuel
    → drain fuel q now ≡ process_queue q now
unfolding process_queue
drain-process_queue fuel q now h =
    drain-more fuel (suc (length q.priority_queue)) q now h (omega arith)
