-- ===== src/FileTransfer/TransferQueue/Tests.antt =====
-- The theorems about the transfer queue at concrete inputs.
use bey.Base.{
  ℕ, ◌≡◌, ◌<◌, refl, ltb, none, some, List, [], ◌∷◌, String, string_eq, lookup, insert, remove,
  arith,
}
use bey.Base.Integers.{ℤ, pos, negsuc}
use bey.Base.Errors.{ok}
use bey.FileTransfer.TransferQueue.{
  TransferQueue, TransferTask, QueueItem, ActiveTaskInfo, upload, download, pop, dequeue_next,
  drain, process_queue, enqueue, mark_task_failed, new,
}
use bey.FileTransfer.TransferQueue.Retrying.{
  Call, enqueues, run, step, Gone, dequeue_next-none, mark_task_failed-Gone,
}

abbrev item_of : String → ℤ → ℕ → QueueItem
item_of id priority now = record {
  task_id = id;
  priority = priority;
  created_at = now;
  task_type = upload;
}

abbrev items : List QueueItem
items = item_of "a" (pos 2) 1 ∷ item_of "b" (negsuc 0) 2 ∷ item_of "c" (pos 4) 3 ∷ []

abbrev queued : TransferQueue
queued = record (new 1 3) { priority_queue = items }

abbrev task_a : TransferTask
task_a = record { task_id = "a"; direction = upload }

abbrev task_b : TransferTask
task_b = record { task_id = "b"; direction = download }

abbrev calls : List Call
calls = enqueues task_a (pos 2) 1 10 ∷ []

abbrev active_a : ActiveTaskInfo
active_a = record { started_at = 10; retry_count = 0 }

a_active : lookup "a" (run (new 1 3) calls).active_tasks ≡ some active_a
unfolding run step new enqueue process_queue drain dequeue_next pop lookup insert remove
a_active = refl

b_not_active : lookup "b" (run (new 1 3) calls).active_tasks ≡ none
unfolding run step new enqueue process_queue drain dequeue_next pop lookup insert remove
b_not_active = refl

dequeue_next-none_example :
    let q = run (new 1 3) calls in (0 < q.permits) × ((dequeue_next q 20).1 ≡ none)
dequeue_next-none_example = dequeue_next-none 1 3 calls 20 (omega arith)

mark_task_failed-Gone_example :
    let q = run (new 1 3) calls in
    ((mark_task_failed q "a" 20).1 ≡ ok (ltb 0 q.max_retries))
    × Gone "a" (mark_task_failed q "a" 20).0
mark_task_failed-Gone_example =
    mark_task_failed-Gone 1 3 calls "a" 20 active_a (omega arith) a_active
