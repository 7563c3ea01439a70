-- ===== src/FileTransfer/TransferQueue/Retrying.antt =====
-- What becomes of the tasks of the transfer queue.
use bey.Base.{
  ℕ, suc, ◌<◌, ◌≡◌, refl, ap, Bool, true, false, ltb, Option, none, some, List, [], ◌∷◌, length,
  String, string_eq, lookup, insert, remove, lookup-remove, length-insert_new, arith, beq_refl,
}
use bey.Base.Integers.{ℤ}
use bey.Base.Errors.{ok}
use bey.FileTransfer.TransferQueue.{
  TransferQueue, TransferTask, ActiveTaskInfo, pop, dequeue_next, drain, process_queue, enqueue,
  complete, mark_task_completed, fail, mark_task_failed, clear_queue, new, release, retry_or_drop,
}
use bey.FileTransfer.TransferQueue.Draining.{Idle, process_queue-Idle, enqueue-Idle}

-- The calls of the queue, with their clock readings.
pub data Call : Type 0 where
  enqueues : TransferTask → ℤ → ℕ → ℕ → Call
  dequeues : ℕ → Call
  completes : String → ℕ → Call
  fails : String → ℕ → Call
  clears : Call

unfoldable pub step : TransferQueue → Call → TransferQueue
step q (enqueues t p estimate now) = enqueue q t p estimate now
step q (dequeues now) = (dequeue_next q now).0
step q (completes id now) = (mark_task_completed q id now).0
step q (fails id now) = (mark_task_failed q id now).0
step q clears = (clear_queue q).0

unfoldable pub run : TransferQueue → List Call → TransferQueue
run q [] = q
run q (c ∷ cs) = run (step q c) cs

processed :
    (q : TransferQueue) (id : String) (now : ℕ) (a : ActiveTaskInfo)
    → Idle q
    → Idle (complete q id now (some a)).0
unfolding process_queue drain dequeue_next pop
processed q id now a i = ground (arith, i)

complete-Idle :
    (q : TransferQueue) (id : String) (now : ℕ) (o : Option ActiveTaskInfo)
    → Idle q
    → Idle (complete q id now o).0
complete-Idle q id now none i = i
complete-Idle q id now (some a) i = processed q id now a i

-- A task that has failed is neither queued nor waiting nor active.
released-Gone :
    (q : TransferQueue) (id : String) (now retries : ℕ) (b : Bool)
    → Idle q
    → let s =
        process_queue
          (release
            (retry_or_drop b (record q { active_tasks = remove id q.active_tasks }) id retries))
          now in
      Idle s × (lookup id s.active_tasks ≡ none)
released-Gone q id now retries true i =
    rw
      (process_queue-Idle
        (release
          (retry_or_drop true (record q { active_tasks = remove id q.active_tasks }) id retries))
        now (i.0, i.1, omega arith))
      ((i.0, i.1, omega arith), ground (arith, lookup-remove id id q.active_tasks, beq_refl id))
released-Gone q id now retries false i =
    rw
      (process_queue-Idle
        (release
          (retry_or_drop false (record q { active_tasks = remove id q.active_tasks }) id retries))
        now (i.0, i.1, omega arith))
      ((i.0, i.1, omega arith), ground (arith, lookup-remove id id q.active_tasks, beq_refl id))

fail-Idle :
    (q : TransferQueue) (id : String) (now : ℕ) (o : Option ActiveTaskInfo)
    → Idle q
    → Idle (fail q id now o).0
fail-Idle q id now none i = i
fail-Idle q id now (some a) i =
    (released-Gone q id now a.retry_count (ltb a.retry_count q.max_retries) i).0

step-Idle : (q : TransferQueue) (c : Call) → Idle q → Idle (step q c)
unfolding step dequeue_next pop mark_task_completed mark_task_failed clear_queue
step-Idle q (enqueues t p estimate now) i = enqueue-Idle q t p estimate now i
step-Idle q (dequeues now) i = ground (arith, i)
step-Idle q (completes id now) i = complete-Idle q id now (lookup id q.active_tasks) i
step-Idle q (fails id now) i = fail-Idle q id now (lookup id q.active_tasks) i
step-Idle q clears i = (refl, refl, i.2)

run-Idle : (q : TransferQueue) (cs : List Call) → Idle q → Idle (run q cs)
unfolding run
run-Idle q [] i = i
run-Idle q (c ∷ cs) i = run-Idle (step q c) cs (step-Idle q c i)

new-Idle :
    (max_concurrency max_retries : ℕ) → 0 < max_concurrency → Idle (new max_concurrency max_retries)
unfolding new
new-Idle max_concurrency max_retries h = (refl, refl, h)

-- After any calls of a new queue with a positive `max_concurrency` there is a permit, and `dequeue_next`
-- returns no task: every task is taken out of the queue by the `process_queue` that ends the very call
-- of `enqueue` that put it there.
pub dequeue_next-none :
    (max_concurrency max_retries : ℕ) (calls : List Call) (now : ℕ)
    → 0 < max_concurrency
    → let q = run (new max_concurrency max_retries) calls in
      (0 < q.permits) × ((dequeue_next q now).1 ≡ none)
unfolding dequeue_next pop
dequeue_next-none max_concurrency max_retries calls now some_permit =
    let i =
      run-Idle (new max_concurrency max_retries) calls
        (new-Idle max_concurrency max_retries some_permit) in
    (i.2, ground (arith, i))

-- What is left of a task that has failed: no trace, in the heap, among the waiting or the active.
abbrev pub Gone : String → TransferQueue → Type 0
Gone id q =
    (q.priority_queue ≡ []) × (lookup id q.pending_tasks ≡ none) × (lookup id q.active_tasks ≡ none)

failed-Gone :
    (q : TransferQueue) (id : String) (now : ℕ) (a : ActiveTaskInfo)
    → Idle q
    → lookup id q.active_tasks ≡ some a
    → ((mark_task_failed q id now).1 ≡ ok (ltb a.retry_count q.max_retries))
      × Gone id (mark_task_failed q id now).0
unfolding mark_task_failed lookup
failed-Gone q id now a i h =
    let (idle, left) = released-Gone q id now a.retry_count (ltb a.retry_count q.max_retries) i in
    rw (h, mark_task_failed) (refl, (idle.0, ap (lookup id) idle.1, left))

-- After any calls of a new queue with a positive `max_concurrency`, `mark_task_failed` on an active task
-- answers whether the task will be retried, and in both cases the task is gone: it is not queued, not
-- waiting and not active.
pub mark_task_failed-Gone :
    (max_concurrency max_retries : ℕ) (calls : List Call) (id : String) (now : ℕ)
    (a : ActiveTaskInfo)
    → 0 < max_concurrency
    → lookup id (run (new max_concurrency max_retries) calls).active_tasks ≡ some a
    → let q = run (new max_concurrency max_retries) calls in
      ((mark_task_failed q id now).1 ≡ ok (ltb a.retry_count q.max_retries))
      × Gone id (mark_task_failed q id now).0
mark_task_failed-Gone max_concurrency max_retries calls id now a some_permit active =
    failed-Gone (run (new max_concurrency max_retries) calls) id now a
      (run-Idle (new max_concurrency max_retries) calls
        (new-Idle max_concurrency max_retries some_permit))
      active

activated :
    (q : TransferQueue) (t : TransferTask) (p : ℤ) (estimate now : ℕ)
    → Idle q
    → lookup t.task_id q.active_tasks ≡ none
    → let s = enqueue q t p estimate now in
      (length s.active_tasks ≡ suc (length q.active_tasks)) × (s.permits ≡ suc q.permits)
unfolding enqueue process_queue drain dequeue_next pop lookup insert remove
activated q t p estimate now i h = ground (
  arith,
  i,
  beq_refl t.task_id,
  length-insert_new t.task_id (record { started_at = now; retry_count = 0 }) q.active_tasks h,
)

-- The queue does not limit how many tasks are active: after any calls of a new queue, whatever its
-- positive `max_concurrency` and however many tasks are active, a task enqueued that is not active makes
-- one more active task, and the semaphore gains a permit.
pub enqueue-activates :
    (max_concurrency max_retries : ℕ) (calls : List Call) (t : TransferTask) (p : ℤ)
    (estimate now : ℕ)
    → 0 < max_concurrency
    → lookup t.task_id (run (new max_concurrency max_retries) calls).active_tasks ≡ none
    → let q = run (new max_concurrency max_retries) calls in
      let s = enqueue q t p estimate now in
      (length s.active_tasks ≡ suc (length q.active_tasks)) × (s.permits ≡ suc q.permits)
enqueue-activates max_concurrency max_retries calls t p estimate now some_permit h =
    activated (run (new max_concurrency max_retries) calls) t p estimate now
      (run-Idle (new max_concurrency max_retries) calls
        (new-Idle max_concurrency max_retries some_permit))
      h
