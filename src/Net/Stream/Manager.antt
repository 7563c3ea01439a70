-- ===== src/Net/Stream/Manager.antt =====
-- The receiving side of the stream manager of src/crates/bey-net/src/stream.rs: its sessions by
-- stream identifier.
pub mod Delivery
pub mod Cleanup
use bey.Base.{
  ℕ, ◌-◌, ◌/◌, Bool, true, not, false, ◌&&◌, if◌then◌else◌, leb, ltb, Option, none, some, List, [],
  ◌∷◌, length, retain, String, HashMap, lookup, insert, remove, string_eq,
}
use bey.Base.Errors.{NetResult, ok, err, panics}
use bey.Net.Stream.{
  StreamFlag, StreamChunk, StreamMeta, StreamSession, start, data_block, end, abort, new_session,
  add_chunk, is_complete, get_data,
}

abbrev pub Sessions : Type 0
Sessions = HashMap String StreamSession

abbrev pub open_session : Sessions → StreamChunk → ℕ → ℕ → Option StreamMeta → Sessions
open_session m chunk created now none = m
open_session m chunk created now (some meta) =
    insert chunk.stream_id (new_session chunk.stream_id meta created now) m

-- A session that is complete gives its data and is removed; an error leaves it in the table.
abbrev pub finish : Sessions → String → NetResult (List ℕ) → Sessions × NetResult (Option (List ℕ))
finish m id (ok bytes) = (remove id m, ok (some bytes))
finish m id (err e) = (m, err e)
finish m id panics = (m, panics)

abbrev pub after_add :
    Sessions
    → String
    → StreamSession × NetResult (Unit {0})
    → Sessions × NetResult (Option (List ℕ))
after_add m id (s, ok _) =
    let m' = insert id s m in if is_complete s then finish m' id (get_data s) else (m', ok none)
after_add m id (s, err e) = (insert id s m, err e)
after_add m id (s, panics) = (insert id s m, panics)

-- `get_mut` finds the session or not.
abbrev pub continue_session :
    Sessions → StreamChunk → ℕ → Option StreamSession → Sessions × NetResult (Option (List ℕ))
continue_session m chunk now none = (m, ok none)
continue_session m chunk now (some s) = after_add m chunk.stream_id (add_chunk s chunk now)

abbrev pub by_flag :
    StreamFlag → Sessions → StreamChunk → ℕ → ℕ → Sessions × NetResult (Option (List ℕ))
by_flag start m chunk created now = (open_session m chunk created now chunk.meta, ok none)
by_flag _ m chunk created now = continue_session m chunk now (lookup chunk.stream_id m)

-- `created` is the clock's reading for a new session's creation, `now` the last one.
unfoldable pub handle_chunk :
    Sessions → StreamChunk → ℕ → ℕ → Sessions × NetResult (Option (List ℕ))
handle_chunk m chunk created now = by_flag chunk.flag m chunk created now

-- A session idle for more than `timeout_secs` seconds; none when the clock has gone back.
abbrev pub has_timed_out : ℕ → ℕ → StreamSession → Bool
has_timed_out timeout_secs now s =
    leb s.last_active now && ltb timeout_secs ((now - s.last_active) / 1000000000)

unfoldable pub cleanup_timeout_sessions : Sessions → ℕ → ℕ → Sessions × ℕ
cleanup_timeout_sessions m timeout_secs now =
    let kept = retain (λ ks. not (has_timed_out timeout_secs now ks.1)) m in
    (kept, length m - length kept)
