-- ===== src/FileTransfer/ProgressTracker/States.antt =====
-- What the tracker of progress keeps of a task, src/crates/bey-file-transfer/src/progress_tracker.rs:
-- its counts, its two histories, and the estimates from them.
use bey.Base.{
  ℕ, ◌+◌, ◌-◌, ◌/◌, ltb, eqb, ◌||◌, if◌then◌else◌, Option, none, some, List, [], ◌∷◌, ◌++◌, length,
  drop, String,
}

pub data TransferStatus : Type 0 where
  pending preparing transferring paused completed cancelled failed resuming : TransferStatus

pub record TransferProgress : Type 0 where
  pub task_id : String
  pub transferred_bytes : ℕ
  pub total_bytes : ℕ
  pub speed : ℕ
  pub eta_seconds : Option ℕ
  pub error : Option String
  pub updated_at : ℕ

pub record SpeedRecord : Type 0 where
  pub timestamp : ℕ
  pub instant_speed : ℕ
  pub smooth_speed : ℕ

pub record ProgressSnapshot : Type 0 where
  pub timestamp : ℕ
  pub transferred_bytes : ℕ
  pub speed : ℕ

pub record ProgressState : Type 0 where
  pub total_bytes : ℕ
  pub transferred_bytes : ℕ
  pub status : TransferStatus
  pub start_time : ℕ
  pub last_update : ℕ
  pub speed_history : List SpeedRecord
  pub progress_history : List ProgressSnapshot
  pub error_info : Option String

abbrev pub speed_history_size : ℕ
speed_history_size = 60

abbrev pub progress_history_size : ℕ
progress_history_size = 100

-- `push_back`, and `pop_front` of a history that is too long.
abbrev pub push_limited : {A : Type 0} → ℕ → List A → A → List A
push_limited limit xs x =
    if ltb limit (length (xs ++ x ∷ [])) then drop 1 (xs ++ x ∷ []) else xs ++ x ∷ []

-- `back`.
abbrev pub last_speed : List SpeedRecord → Option ℕ
last_speed [] = none
last_speed (r ∷ rs) = elim (last_speed rs) [ some speed ↦ some speed | none ↦ some r.smooth_speed ]

abbrev pub smoothed : (ℕ → ℕ → ℕ) → ℕ → Option ℕ → ℕ
smoothed smooth instant_speed none = instant_speed
smoothed smooth instant_speed (some last) = smooth instant_speed last

unfoldable pub update_speed_history : (ℕ → ℕ → ℕ) → ProgressState → ℕ → ℕ → ProgressState
update_speed_history smooth s instant_speed now = record s {
  speed_history = push_limited speed_history_size s.speed_history (record {
    timestamp = now;
    instant_speed = instant_speed;
    smooth_speed = smoothed smooth instant_speed (last_speed s.speed_history);
  });
}

unfoldable pub update_progress_history : ProgressState → ℕ → ℕ → ℕ → ProgressState
update_progress_history s transferred_bytes speed now = record s {
  progress_history =
      push_limited progress_history_size s.progress_history
        (record { timestamp = now; transferred_bytes = transferred_bytes; speed = speed });
}

abbrev pub sum_speeds : List SpeedRecord → ℕ
sum_speeds [] = 0
sum_speeds (r ∷ rs) = r.smooth_speed + sum_speeds rs

-- The last five records.
abbrev pub recent : List SpeedRecord → List SpeedRecord
recent records = drop (length records - 5) records

abbrev pub eta_at : ℕ → ℕ → Option ℕ
eta_at remaining_bytes average = if ltb 0 average then some (remaining_bytes / average) else none

-- The sum of five speeds is taken to be below 2 ^ 64.
unfoldable pub calculate_eta : ProgressState → Option ℕ
calculate_eta s =
    if eqb s.transferred_bytes 0 || eqb s.total_bytes 0 || eqb (length (recent s.speed_history)) 0
    then none
    else eta_at (s.total_bytes - s.transferred_bytes)
        (sum_speeds (recent s.speed_history) / length (recent s.speed_history))

-- Bytes for each whole second since the start.
abbrev pub speed_at : ProgressState → ℕ → ℕ → ℕ
speed_at s transferred_bytes now =
    let elapsed = (now - s.start_time) / 1000 in
    if ltb 0 elapsed then transferred_bytes / elapsed else 0

abbrev pub progress_of : String → ProgressState → ℕ → ℕ → TransferProgress
progress_of task_id s speed now = record {
  task_id = task_id;
  transferred_bytes = s.transferred_bytes;
  total_bytes = s.total_bytes;
  speed = speed;
  eta_seconds = calculate_eta s;
  error = s.error_info;
  updated_at = now;
}

-- The state after an update, from the readings of the clock `updated` and `now`.
abbrev pub advanced : (ℕ → ℕ → ℕ) → ProgressState → ℕ → TransferStatus → ℕ → ℕ → ProgressState
advanced smooth s transferred_bytes status updated now =
    update_progress_history
      (update_speed_history smooth
        (record s { transferred_bytes = transferred_bytes; status = status; last_update = updated })
        (speed_at s transferred_bytes now) now)
      transferred_bytes (speed_at s transferred_bytes now) now
