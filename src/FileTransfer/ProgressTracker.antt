-- ===== src/FileTransfer/ProgressTracker.antt =====
-- The tracker of progress, src/crates/bey-file-transfer/src/progress_tracker.rs. Times are in
-- milliseconds, a sender is the list of what it broadcast, and the smoothing of speeds, which is
-- in f64, is an argument. Percentages, which are f64, are left out.
mod States
mod Counting
mod Tests
use bey.Base.{
  ℕ, ◌+◌, ◌-◌, ◌/◌, ltb, eqb, u64, Bool, ◌||◌, if◌then◌else◌, Option, none, some, List, [], ◌∷◌,
  ◌++◌, length, drop, String, string_eq, HashMap, lookup, insert, remove,
}
use bey.Base.Errors.{
  NetResult, ok, err, panics, new_error, with_category, with_severity, file_system, warning,
}
unfoldable pub use States.*

pub record GlobalPerformanceStats : Type 0 where
  pub total_bytes_transferred : ℕ
  pub total_tasks : ℕ
  pub successful_tasks : ℕ
  pub failed_tasks : ℕ
  pub average_speed : ℕ
  pub peak_speed : ℕ
  pub total_transfer_time : ℕ
  pub last_updated : ℕ

pub record ProgressTracker : Type 0 where
  pub progress_data : HashMap String ProgressState
  pub progress_senders : HashMap String (List TransferProgress)
  pub global_stats : GlobalPerformanceStats
  pub active_tasks : ℕ

unfoldable pub new : ProgressTracker
new = record {
  progress_data = [];
  progress_senders = [];
  global_stats = record {
    total_bytes_transferred = 0;
    total_tasks = 0;
    successful_tasks = 0;
    failed_tasks = 0;
    average_speed = 0;
    peak_speed = 0;
    total_transfer_time = 0;
    last_updated = 0;
  };
  active_tasks = 0;
}

-- A task is registered with three readings of the clock.
unfoldable pub register_task : ProgressTracker → String → ℕ → ℕ → ℕ → ℕ → ProgressTracker
register_task t task_id total_bytes started updated now = record t {
  progress_data =
      insert task_id
        (record {
          total_bytes = total_bytes;
          transferred_bytes = 0;
          status = pending;
          start_time = started;
          last_update = updated;
          speed_history = [];
          progress_history = [];
          error_info = none;
        })
        t.progress_data;
  progress_senders = insert task_id [] t.progress_senders;
  global_stats = record t.global_stats {
    total_tasks = u64 (t.global_stats.total_tasks + 1);
    last_updated = now;
  };
  active_tasks = u64 (t.active_tasks + 1);
}

-- `fetch_sub` wraps.
unfoldable pub unregister_task : ProgressTracker → String → ProgressTracker
unregister_task t task_id = record t {
  progress_data = remove task_id t.progress_data;
  progress_senders = remove task_id t.progress_senders;
  active_tasks = u64 (t.active_tasks + 18446744073709551615);
}

-- `send` for a task with a sender; without one nothing happens.
abbrev pub broadcast_to :
    ProgressTracker → String → TransferProgress → Option (List TransferProgress) → ProgressTracker
broadcast_to t task_id progress none = t
broadcast_to t task_id progress (some messages) = record t {
  progress_senders = insert task_id (messages ++ progress ∷ []) t.progress_senders;
}

abbrev pub broadcast_progress_update : ProgressTracker → String → TransferProgress → ProgressTracker
broadcast_progress_update t task_id progress =
    broadcast_to t task_id progress (lookup task_id t.progress_senders)

unfoldable pub update_global_stats : GlobalPerformanceStats → ℕ → ℕ → ℕ → GlobalPerformanceStats
update_global_stats stats transferred_bytes speed now =
    let total = u64 (stats.total_bytes_transferred + transferred_bytes) in
    record stats {
      total_bytes_transferred = total;
      average_speed =
          if ltb 0 stats.total_transfer_time
          then total / stats.total_transfer_time
          else stats.average_speed;
      peak_speed = if ltb stats.peak_speed speed then speed else stats.peak_speed;
      last_updated = now;
    }

abbrev pub counted : ProgressTracker → ℕ → ℕ → ℕ → ProgressTracker
counted t transferred_bytes speed now = record t {
  global_stats = update_global_stats t.global_stats transferred_bytes speed now;
}

abbrev pub update_state :
    (ℕ → ℕ → ℕ)
    → ProgressTracker
    → String
    → ℕ
    → TransferStatus
    → ℕ
    → ℕ
    → ℕ
    → Option ProgressState
    → ProgressTracker × NetResult (Unit {0})
update_state smooth t task_id transferred_bytes status updated now after none =
    (t, err (with_severity (with_category (new_error 7301) file_system) warning))
update_state smooth t task_id transferred_bytes status updated now after (some s) =
    let state = advanced smooth s transferred_bytes status updated now in
    let speed = speed_at s transferred_bytes now in
    (
      counted
          (broadcast_progress_update
            (record t { progress_data = insert task_id state t.progress_data }) task_id
            (progress_of task_id state speed now))
          transferred_bytes speed after,
      ok tt,
    )

unfoldable pub update_progress :
    (ℕ → ℕ → ℕ)
    → ProgressTracker
    → String
    → ℕ
    → TransferStatus
    → ℕ
    → ℕ
    → ℕ
    → ProgressTracker × NetResult (Unit {0})
update_progress smooth t task_id transferred_bytes status updated now after =
    update_state smooth t task_id transferred_bytes status updated now after
      (lookup task_id t.progress_data)

abbrev pub fail_state :
    ProgressTracker → String → String → ℕ → Option ProgressState → ProgressTracker
fail_state t task_id error_message now none = t
fail_state t task_id error_message now (some s) =
    broadcast_progress_update
      (record t {
        progress_data =
            insert task_id (record s { error_info = some error_message; status = failed })
              t.progress_data;
      })
      task_id
      (record {
        task_id = task_id;
        transferred_bytes = s.transferred_bytes;
        total_bytes = s.total_bytes;
        speed = 0;
        eta_seconds = none;
        error = some error_message;
        updated_at = now;
      })

unfoldable pub set_error : ProgressTracker → String → String → ℕ → ProgressTracker
set_error t task_id error_message now =
    fail_state t task_id error_message now (lookup task_id t.progress_data)

abbrev pub read_state : String → ℕ → Option ProgressState → Option TransferProgress
read_state task_id now none = none
read_state task_id now (some s) =
    some (progress_of task_id s (speed_at s s.transferred_bytes now) s.last_update)

unfoldable pub get_progress : ProgressTracker → String → ℕ → Option TransferProgress
get_progress t task_id now = read_state task_id now (lookup task_id t.progress_data)

-- Not updated for more than an hour.
abbrev pub expired_tasks : ℕ → HashMap String ProgressState → List String
expired_tasks now [] = []
expired_tasks now ((task_id, s) ∷ states) =
    let rest = expired_tasks now states in
    if ltb 3600000 (now - s.last_update) then task_id ∷ rest else rest

abbrev pub unregister_all : ProgressTracker → List String → ProgressTracker
unregister_all t [] = t
unregister_all t (task_id ∷ task_ids) = unregister_all (unregister_task t task_id) task_ids

unfoldable pub cleanup_expired_data : ProgressTracker → ℕ → ProgressTracker × ℕ
cleanup_expired_data t now =
    let expired = expired_tasks now t.progress_data in (unregister_all t expired, length expired)
