-- ===== src/FileTransfer/ProgressTracker/Tests.antt =====
-- The theorem about the tracker at a concrete input: ten bytes reported twice.
use bey.Base.{ℕ, ◌+◌, ◌/◌, ◌≡◌, refl, List, [], ◌∷◌, string_eq, lookup, insert}
use bey.FileTransfer.ProgressTracker.{
  new, register_task, update_progress, update_speed_history, update_progress_history, calculate_eta,
  update_global_stats, cleanup_expired_data, transferring,
}
use bey.FileTransfer.ProgressTracker.Counting.{
  Call, registers, updates, cleans, step, run, all_reports, Counts, run-Counts,
}

abbrev average : ℕ → ℕ → ℕ
average instant last = (instant + last) / 2

abbrev calls : List Call
calls =
    registers "t" 10 0 0 0
    ∷ updates "t" 10 transferring 2000 2000 2000
    ∷ updates "t" 10 transferring 4000 4000 4000
    ∷ cleans 5000
    ∷ []

counted_twice : (run average new calls).global_stats.total_bytes_transferred ≡ 20
unfolding run step new register_task update_progress update_speed_history update_progress_history
    calculate_eta update_global_stats cleanup_expired_data lookup insert
counted_twice = refl

run-Counts_example : Counts (all_reports average new calls) (run average new calls)
run-Counts_example = run-Counts average calls
