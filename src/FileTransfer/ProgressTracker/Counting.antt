-- ===== src/FileTransfer/ProgressTracker/Counting.antt =====
-- What the tracker counts, and how long its histories get
-- (src/crates/bey-file-transfer/src/progress_tracker.rs).
use bey.Base.{
  ℕ, ◌+◌, ◌≤◌, ◌≡◌, refl, subst, u64, Option, none, some, List, [], ◌∷◌, ◌++◌, length,
  length-append, length-drop, String, string_eq, lookup, insert, All, insert-All, remove-All,
  lookup-All_at, arith,
}
use bey.FileTransfer.ProgressTracker.{
  TransferStatus, TransferProgress, ProgressState, ProgressTracker, new, register_task,
  unregister_task, update_progress, update_state, set_error, fail_state, cleanup_expired_data,
  unregister_all, expired_tasks, advanced, update_speed_history, update_progress_history,
  push_limited, update_global_stats, broadcast_to, counted,
}

pub data Call : Type 0 where
  registers : String → ℕ → ℕ → ℕ → ℕ → Call
  unregisters : String → Call
  updates : String → ℕ → TransferStatus → ℕ → ℕ → ℕ → Call
  fails : String → String → ℕ → Call
  cleans : ℕ → Call

-- No more than 60 speeds and 100 snapshots.
abbrev pub IsBounded : ProgressState → Type 0
IsBounded s = (length s.speed_history ≤ 60) × (length s.progress_history ≤ 100)

push_limited-le :
    {A : Type 0} (limit : ℕ) (xs : List A) (x : A)
    → length xs ≤ limit
    → length (push_limited limit xs x) ≤ limit
push_limited-le limit xs x h =
    ground (arith, h, length-append xs (x ∷ []), length-drop 1 (xs ++ x ∷ []))

-- Once `n` bytes were reported in all.
pub record Counts (n : ℕ) (t : ProgressTracker) : Type 0 where
  pub total : t.global_stats.total_bytes_transferred ≡ u64 n
  pub no_time : t.global_stats.total_transfer_time ≡ 0
  pub no_average : t.global_stats.average_speed ≡ 0
  pub bounded : All (λ (p : String × ProgressState). IsBounded p.1) t.progress_data

abbrev reported_to : Option ProgressState → ℕ → ℕ
reported_to none transferred_bytes = 0
reported_to (some s) transferred_bytes = transferred_bytes

module _ (smooth : ℕ → ℕ → ℕ) where
  unfoldable pub step : ProgressTracker → Call → ProgressTracker
  step t (registers task_id total_bytes started updated now) =
      register_task t task_id total_bytes started updated now
  step t (unregisters task_id) = unregister_task t task_id
  step t (updates task_id transferred_bytes status updated now after) =
      (update_progress smooth t task_id transferred_bytes status updated now after).0
  step t (fails task_id message now) = set_error t task_id message now
  step t (cleans now) = (cleanup_expired_data t now).0

  -- The bytes that a call reports for a task that is registered.
  unfoldable pub reports : ProgressTracker → Call → ℕ
  reports t (updates task_id transferred_bytes status updated now after) =
      reported_to (lookup task_id t.progress_data) transferred_bytes
  reports t _ = 0

  unfoldable pub run : ProgressTracker → List Call → ProgressTracker
  run t [] = t
  run t (call ∷ calls) = run (step t call) calls

  unfoldable pub all_reports : ProgressTracker → List Call → ℕ
  all_reports t [] = 0
  all_reports t (call ∷ calls) = reports t call + all_reports (step t call) calls

  advanced-IsBounded :
      (s : ProgressState) (bytes : ℕ) (status : TransferStatus) (updated now : ℕ)
      → IsBounded s
      → IsBounded (advanced smooth s bytes status updated now)
  unfolding update_speed_history update_progress_history
  advanced-IsBounded s bytes status updated now b =
      (push_limited-le 60 s.speed_history _ b.0, push_limited-le 100 s.progress_history _ b.1)

  broadcast_to-Counts :
      (n : ℕ) (t : ProgressTracker) (task_id : String) (progress : TransferProgress)
      (o : Option (List TransferProgress))
      → Counts n t
      → Counts n (broadcast_to t task_id progress o)
  broadcast_to-Counts n t task_id progress none c = c
  broadcast_to-Counts n t task_id progress (some messages) c = record {
    total = c.total;
    no_time = c.no_time;
    no_average = c.no_average;
    bounded = c.bounded;
  }

  set-Counts :
      (n : ℕ) (t : ProgressTracker) (task_id : String) (s : ProgressState)
      → IsBounded s
      → Counts n t
      → Counts n (record t { progress_data = insert task_id s t.progress_data })
  set-Counts n t task_id s b c = record {
    total = c.total;
    no_time = c.no_time;
    no_average = c.no_average;
    bounded =
        insert-All (λ (p : String × ProgressState). IsBounded p.1) task_id s t.progress_data b
          c.bounded;
  }

  counted-Counts :
      (n : ℕ) (t : ProgressTracker) (bytes speed now : ℕ)
      → Counts n t
      → Counts (n + bytes) (counted t bytes speed now)
  unfolding update_global_stats
  counted-Counts n t bytes speed now c = record {
    total = omega (arith, c.total);
    no_time = c.no_time;
    no_average = ground (arith, c.no_time, c.no_average);
    bounded = c.bounded;
  }

  update_state-Counts :
      (n : ℕ) (t : ProgressTracker) (task_id : String) (bytes : ℕ) (status : TransferStatus)
      (updated now after : ℕ) (o : Option ProgressState)
      → lookup task_id t.progress_data ≡ o
      → Counts n t
      → Counts
          (n + reported_to o bytes)
          (update_state smooth t task_id bytes status updated now after o).0
  update_state-Counts n t task_id bytes status updated now after none h c =
      subst (λ k. Counts k t) (omega arith) c
  update_state-Counts n t task_id bytes status updated now after (some s) h c =
      counted-Counts n _ bytes _ after (
        broadcast_to-Counts n _ task_id _ (lookup task_id t.progress_senders) (
          set-Counts n t task_id (advanced smooth s bytes status updated now)
            (advanced-IsBounded s bytes status updated now (
              lookup-All_at (λ (p : String × ProgressState). IsBounded p.1) task_id s
                t.progress_data c.bounded h))
            c))

  fail_state-Counts :
      (n : ℕ) (t : ProgressTracker) (task_id message : String) (now : ℕ) (o : Option ProgressState)
      → lookup task_id t.progress_data ≡ o
      → Counts n t
      → Counts n (fail_state t task_id message now o)
  fail_state-Counts n t task_id message now none h c = c
  fail_state-Counts n t task_id message now (some s) h c =
      broadcast_to-Counts n _ task_id _ (lookup task_id t.progress_senders) (
        set-Counts n t task_id _
          (lookup-All_at (λ (p : String × ProgressState). IsBounded p.1) task_id s t.progress_data
            c.bounded h)
          c)

  unregister_task-Counts :
      (n : ℕ) (t : ProgressTracker) (task_id : String)
      → Counts n t
      → Counts n (unregister_task t task_id)
  unfolding unregister_task
  unregister_task-Counts n t task_id c = record {
    total = c.total;
    no_time = c.no_time;
    no_average = c.no_average;
    bounded =
        remove-All (λ (p : String × ProgressState). IsBounded p.1) task_id t.progress_data
          c.bounded;
  }

  unregister_all-Counts :
      (n : ℕ) (task_ids : List String) (t : ProgressTracker)
      → Counts n t
      → Counts n (unregister_all t task_ids)
  unregister_all-Counts n [] t c = c
  unregister_all-Counts n (task_id ∷ task_ids) t c =
      unregister_all-Counts n task_ids (unregister_task t task_id)
        (unregister_task-Counts n t task_id c)

  none_more : (n : ℕ) (t : ProgressTracker) → Counts n t → Counts (n + 0) t
  none_more n t c = subst (λ k. Counts k t) (omega arith) c

  step-Counts :
      (n : ℕ) (t : ProgressTracker) (call : Call)
      → Counts n t
      → Counts (n + reports t call) (step t call)
  unfolding step reports register_task update_progress set_error cleanup_expired_data
  step-Counts n t (registers task_id total_bytes started updated now) c = none_more n _ (record {
    total = c.total;
    no_time = c.no_time;
    no_average = c.no_average;
    bounded =
        insert-All (λ (p : String × ProgressState). IsBounded p.1) task_id _ t.progress_data
          (omega arith, omega arith) c.bounded;
  })
  step-Counts n t (unregisters task_id) c = none_more n _ (unregister_task-Counts n t task_id c)
  step-Counts n t (updates task_id bytes status updated now after) c =
      update_state-Counts n t task_id bytes status updated now after
        (lookup task_id t.progress_data) refl c
  step-Counts n t (fails task_id message now) c =
      none_more n _
        (fail_state-Counts n t task_id message now (lookup task_id t.progress_data) refl c)
  step-Counts n t (cleans now) c =
      none_more n _ (unregister_all-Counts n (expired_tasks now t.progress_data) t c)

  steps-Counts :
      (calls : List Call) (n : ℕ) (t : ProgressTracker)
      → Counts n t
      → Counts (n + all_reports t calls) (run t calls)
  unfolding run all_reports
  steps-Counts [] n t c = none_more n t c
  steps-Counts (call ∷ calls) n t c =
      subst (λ k. Counts k (run (step t call) calls)) (omega arith)
        (steps-Counts calls (n + reports t call) (step t call) (step-Counts n t call c))

  -- After any calls of a new tracker total_bytes_transferred is the sum, modulo 2 ^ 64, of the
  -- counts that update_progress was given for registered tasks, each of which counts from the start
  -- of the task, so bytes are counted again with every report; the average speed and the time of
  -- transfer are still 0; and no task has more than 60 speeds or 100 snapshots in its histories.
  pub run-Counts : (calls : List Call) → Counts (all_reports new calls) (run new calls)
  unfolding new
  run-Counts calls =
      subst (λ k. Counts k (run new calls)) (omega arith)
        (steps-Counts calls 0 new
          (record { total = refl; no_time = refl; no_average = refl; bounded = tt }))
