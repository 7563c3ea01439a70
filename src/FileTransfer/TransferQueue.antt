-- ===== src/FileTransfer/TransferQueue.antt =====
-- The transfer queue, src/crates/bey-file-transfer/src/transfer_queue.rs. `BinaryHeap` is the list
-- of its elements, as in the priority queue of the network crate. The permits of the semaphore are
-- a number. The answers of `convert_priority` and `estimate_duration` and the readings of the
-- clock, in milliseconds, are arguments, one reading for a whole call; notifications are left out.
-- Counters are unbounded, but those that the code lowers wrap at zero.
pub mod Draining
pub mod Retrying
mod Tests
use bey.Base.{
  min, u32, ◌^◌, ℕ, zero, suc, ◌+◌, ◌-◌, ◌*◌, ◌/◌, Bool, true, false, ◌&&◌, ◌||◌, if◌then◌else◌,
  ltb, Option, none, some, List, [], ◌∷◌, length, is_some, String, string_eq, HashMap, lookup,
  insert, remove,
}
use bey.Base.Integers.{ℤ, leb_int}
use bey.Base.Errors.{
  NetResult, ok, err, panics, ErrorInfo, new_error, with_category, with_severity, file_system,
  warning,
}

pub data TaskType : Type 0 where
  upload download : TaskType

-- The fields of a `TransferTask` that the queue reads.
pub record TransferTask : Type 0 where
  pub task_id : String
  pub direction : TaskType

pub record QueueItem : Type 0 where
  pub task_id : String
  pub priority : ℤ
  pub created_at : ℕ
  pub task_type : TaskType

-- `Ord::cmp` gives `Greater`: the lower priority is greater, and of one priority the later item.
abbrev pub is_greater : QueueItem → QueueItem → Bool
is_greater a b =
    if leb_int b.priority a.priority
    then leb_int a.priority b.priority && ltb b.created_at a.created_at
    else true

pub record ActiveTaskInfo : Type 0 where
  pub started_at : ℕ
  pub retry_count : ℕ

pub record PendingTaskInfo : Type 0 where
  pub task : TransferTask
  pub queued_at : ℕ
  pub estimated_duration_secs : ℕ
  pub max_retries : ℕ
  pub current_retries : ℕ

pub record QueueStatistics : Type 0 where
  pub total_enqueued : ℕ
  pub total_dequeued : ℕ
  pub completed_tasks : ℕ
  pub failed_tasks : ℕ
  pub current_queue_length : ℕ
  pub active_tasks_count : ℕ
  pub average_execution_time_ms : ℕ

pub record TransferQueue : Type 0 where
  pub priority_queue : List QueueItem
  pub active_tasks : HashMap String ActiveTaskInfo
  pub pending_tasks : HashMap String PendingTaskInfo
  pub permits : ℕ
  pub statistics : QueueStatistics
  pub max_retries : ℕ

-- `new`, with the two limits of the configuration.
unfoldable pub new : ℕ → ℕ → TransferQueue
new max_concurrency max_retries = record {
  priority_queue = [];
  active_tasks = [];
  pending_tasks = [];
  permits = max_concurrency;
  statistics = record {
    total_enqueued = 0;
    total_dequeued = 0;
    completed_tasks = 0;
    failed_tasks = 0;
    current_queue_length = 0;
    active_tasks_count = 0;
    average_execution_time_ms = 0;
  };
  max_retries = max_retries;
}

-- `fetch_sub` of one.
abbrev pub lower : ℕ → ℕ
lower zero = 18446744073709551615
lower (suc n) = n

abbrev pub keep_greater :
    QueueItem
    → List QueueItem
    → Option (QueueItem × List QueueItem)
    → Option (QueueItem × List QueueItem)
keep_greater x xs none = some (x, xs)
keep_greater x xs (some (y, ys)) = if is_greater y x then some (y, x ∷ ys) else some (x, xs)

-- `BinaryHeap::pop`.
unfoldable pub pop : List QueueItem → Option (QueueItem × List QueueItem)
pop [] = none
pop (x ∷ xs) = keep_greater x xs (pop xs)

abbrev pub add_permit : TransferQueue → TransferQueue
add_permit q = record q { permits = suc q.permits }

-- A task found for the popped item becomes active; otherwise a permit is added.
abbrev pub activate :
    TransferQueue → String → ℕ → Option PendingTaskInfo → TransferQueue × Option TransferTask
activate q id now none = (add_permit q, none)
activate q id now (some p) = (
  record q {
    active_tasks =
        insert id (record { started_at = now; retry_count = p.current_retries }) q.active_tasks;
    statistics = record q.statistics {
      total_dequeued = suc q.statistics.total_dequeued;
      current_queue_length = lower q.statistics.current_queue_length;
      active_tasks_count = suc q.statistics.active_tasks_count;
    };
  },
  some p.task,
)

abbrev pub take_item :
    TransferQueue → ℕ → Option (QueueItem × List QueueItem) → TransferQueue × Option TransferTask
take_item q now none = (add_permit q, none)
take_item q now (some (item, rest)) =
    activate
      (record q { priority_queue = rest; pending_tasks = remove item.task_id q.pending_tasks })
      item.task_id now (lookup item.task_id q.pending_tasks)

-- `dequeue_next`, once a permit is there: the permit acquired is given back at once, since its guard
-- is dropped at the end of the test.
unfoldable pub dequeue_next : TransferQueue → ℕ → TransferQueue × Option TransferTask
dequeue_next q now = take_item q now (pop q.priority_queue)

-- The loop of `process_queue`, on fuel.
unfoldable pub drain : ℕ → TransferQueue → ℕ → TransferQueue
drain zero q now = q
drain (suc fuel) q now =
    let (s, task) = dequeue_next q now in
    let rest = drain fuel s now in if is_some task then rest else s

-- Each round but the last takes an item off the heap.
unfoldable pub process_queue : TransferQueue → ℕ → TransferQueue
process_queue q now = drain (suc (length q.priority_queue)) q now

unfoldable pub enqueue : TransferQueue → TransferTask → ℤ → ℕ → ℕ → TransferQueue
enqueue q task priority estimate now =
    let item : QueueItem = record {
      task_id = task.task_id;
      priority = priority;
      created_at = now;
      task_type = task.direction;
    } in
    let info : PendingTaskInfo = record {
      task = task;
      queued_at = now;
      estimated_duration_secs = estimate;
      max_retries = q.max_retries;
      current_retries = 0;
    } in
    process_queue
      (record q {
        priority_queue = item ∷ q.priority_queue;
        pending_tasks = insert task.task_id info q.pending_tasks;
        statistics = record q.statistics {
          total_enqueued = suc q.statistics.total_enqueued;
          current_queue_length = suc q.statistics.current_queue_length;
        };
      })
      now

abbrev pub not_active : ℕ → ErrorInfo
not_active code = with_severity (with_category (new_error code) file_system) warning

-- The average over `completed` tasks, this one counted.
abbrev pub average : ℕ → ℕ → ℕ → ℕ
average old completed elapsed =
    if ltb 0 completed then (old * (completed - 1) + elapsed) / completed else old

abbrev pub complete :
    TransferQueue → String → ℕ → Option ActiveTaskInfo → TransferQueue × NetResult (Unit {0})
complete q id now none = (q, err (not_active 7501))
complete q id now (some a) = (
  process_queue
      (record q {
        active_tasks = remove id q.active_tasks;
        permits = suc q.permits;
        statistics = record q.statistics {
          completed_tasks = suc q.statistics.completed_tasks;
          active_tasks_count = lower q.statistics.active_tasks_count;
          average_execution_time_ms =
              average q.statistics.average_execution_time_ms (suc q.statistics.completed_tasks)
                (now - a.started_at);
        };
      })
      now,
  ok tt,
)

unfoldable pub mark_task_completed :
    TransferQueue → String → ℕ → TransferQueue × NetResult (Unit {0})
mark_task_completed q id now = complete q id now (lookup id q.active_tasks)

-- The delay in seconds, doubled with each retry and at most a minute.
abbrev pub retry_delay : ℕ → ℕ
retry_delay retry_count = min (u32 (2 ^ (retry_count - 1))) 60

abbrev pub scheduled : ℕ → Option PendingTaskInfo → Option ℕ
scheduled retry_count none = none
scheduled retry_count (some p) = some (retry_delay retry_count)

-- `retry_task`: the queue after it, and the delay after which it writes to the log, where the task is
-- found among the waiting ones.
abbrev pub retry_task : TransferQueue → String → ℕ → TransferQueue × Option ℕ
retry_task q id retry_count = (q, scheduled retry_count (lookup id q.pending_tasks))

-- The two branches of `mark_task_failed`.
abbrev pub retry_or_drop : Bool → TransferQueue → String → ℕ → TransferQueue
retry_or_drop true q id retry_count = (retry_task q id (suc retry_count)).0
retry_or_drop false q id retry_count = record q {
  statistics = record q.statistics { failed_tasks = suc q.statistics.failed_tasks };
}

abbrev pub release : TransferQueue → TransferQueue
release q = record q {
  permits = suc q.permits;
  statistics = record q.statistics { active_tasks_count = lower q.statistics.active_tasks_count };
}

abbrev pub fail :
    TransferQueue → String → ℕ → Option ActiveTaskInfo → TransferQueue × NetResult Bool
fail q id now none = (q, err (not_active 7502))
fail q id now (some a) =
    let should_retry = ltb a.retry_count q.max_retries in
    let removed = record q { active_tasks = remove id q.active_tasks } in
    (
      process_queue (release (retry_or_drop should_retry removed id a.retry_count)) now,
      ok should_retry,
    )

unfoldable pub mark_task_failed : TransferQueue → String → ℕ → TransferQueue × NetResult Bool
mark_task_failed q id now = fail q id now (lookup id q.active_tasks)

unfoldable pub clear_queue : TransferQueue → TransferQueue × ℕ
clear_queue q = (
  record q {
    priority_queue = [];
    pending_tasks = [];
    statistics = record q.statistics { current_queue_length = 0 };
  },
  length q.priority_queue,
)
