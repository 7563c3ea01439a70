-- ===== src/Net/Stream/Manager/Cleanup.antt =====
-- The clean-up of sessions that have been idle too long.
use bey.Base.{ℕ, Option, none, some, string_eq, if◌then◌else◌}
use bey.Net.Stream.{StreamSession}
use bey.Net.Stream.Manager.{has_timed_out}

abbrev pub live_or_none : ℕ → ℕ → Option StreamSession → Option StreamSession
live_or_none timeout now none = none
live_or_none timeout now (some s) = if has_timed_out timeout now s then none else some s
