-- ===== src/Net/Stream.antt =====
-- Streams, src/crates/bey-net/src/stream.rs. Bytes are numbers, times are nanoseconds, and each
-- reading of the clock is an argument.
mod Tests
pub mod Manager
pub mod RoundTrip
pub mod Arrival
pub mod Chunks
use bey.Base.{
  ℕ, zero, suc, ◌+◌, ◌-◌, ◌/◌, Bool, true, false, ◌&&◌, if◌then◌else◌, leb, eqb, Option, none, some,
  List, [], ◌∷◌, ◌++◌, take, drop, length, String, HashMap, lookup, insert, u64, nat_eq,
}
use bey.Base.Errors.{
  NetResult, ok, err, panics, ErrorInfo, new_error, with_category, with_severity, system, warning,
  error,
}

pub data StreamFlag : Type 0 where
  start data_block end abort : StreamFlag

pub record StreamMeta : Type 0 where
  pub stream_id : String
  pub total_size : ℕ
  pub chunk_size : ℕ
  pub total_chunks : ℕ
  pub stream_type : String
  pub metadata : HashMap String String

pub record StreamChunk : Type 0 where
  pub stream_id : String
  pub chunk_index : ℕ
  pub content : List ℕ
  pub flag : StreamFlag
  pub meta : Option StreamMeta

unfoldable pub start_chunk : String → StreamMeta → StreamChunk
start_chunk stream_id meta = record {
  stream_id = stream_id;
  chunk_index = 0;
  content = [];
  flag = start;
  meta = some meta;
}

unfoldable pub data_chunk : String → ℕ → List ℕ → StreamChunk
data_chunk stream_id chunk_index content = record {
  stream_id = stream_id;
  chunk_index = chunk_index;
  content = content;
  flag = data_block;
  meta = none;
}

unfoldable pub end_chunk : String → ℕ → StreamChunk
end_chunk stream_id chunk_index = record {
  stream_id = stream_id;
  chunk_index = chunk_index;
  content = [];
  flag = end;
  meta = none;
}

pub data StreamState : Type 0 where
  initialized transferring completed aborted failed : StreamState

pub record StreamSession : Type 0 where
  pub stream_id : String
  pub meta : StreamMeta
  pub state : StreamState
  pub received_chunks : HashMap ℕ (List ℕ)
  pub received_count : ℕ
  pub created_at : ℕ
  pub last_active : ℕ

unfoldable pub new_session : String → StreamMeta → ℕ → ℕ → StreamSession
new_session stream_id meta created_at last_active = record {
  stream_id = stream_id;
  meta = meta;
  state = initialized;
  received_chunks = [];
  received_count = 0;
  created_at = created_at;
  last_active = last_active;
}

abbrev pub not_transferring : ErrorInfo
not_transferring = with_severity (with_category (new_error 4402) system) warning

abbrev pub not_complete : ErrorInfo
not_complete = with_severity (with_category (new_error 4403) system) warning

abbrev pub missing_chunk : ErrorInfo
missing_chunk = with_severity (with_category (new_error 4404) system) error

abbrev pub is_transferring : StreamState → Bool
is_transferring transferring = true
is_transferring _ = false

abbrev pub is_completed : StreamState → Bool
is_completed completed = true
is_completed _ = false

-- The `match` on the chunk's flag; an error leaves the session as it was.
abbrev pub add_by_flag :
    StreamFlag → StreamSession → StreamChunk → ℕ → StreamSession × NetResult (Unit {0})
add_by_flag start s chunk now = (record s { state = transferring; last_active = now }, ok tt)
add_by_flag data_block s chunk now =
    if is_transferring s.state
    then (
      record s {
        received_chunks = insert chunk.chunk_index chunk.content s.received_chunks;
        received_count = u64 (s.received_count + 1);
        last_active = now;
      },
      ok tt,
    )
    else (s, err not_transferring)
add_by_flag end s chunk now = (record s { state = completed; last_active = now }, ok tt)
add_by_flag abort s chunk now = (record s { state = aborted; last_active = now }, ok tt)

unfoldable pub add_chunk : StreamSession → StreamChunk → ℕ → StreamSession × NetResult (Unit {0})
add_chunk s chunk now = add_by_flag chunk.flag s chunk now

unfoldable pub is_complete : StreamSession → Bool
is_complete s = is_completed s.state && leb s.meta.total_chunks s.received_count

-- The loop of `get_data` from index `i`, with its rounds left and the bytes collected before.
unfoldable pub collect : HashMap ℕ (List ℕ) → ℕ → ℕ → List ℕ → NetResult (List ℕ)
collect chunks i zero bytes = ok bytes
collect chunks i (suc n) bytes = elim (lookup i chunks) [
  | none ↦ err missing_chunk
  | some content ↦ collect chunks (suc i) n (bytes ++ content)
]

unfoldable pub get_data : StreamSession → NetResult (List ℕ)
get_data s =
    if is_complete s then collect s.received_chunks 0 s.meta.total_chunks [] else err not_complete

-- `slice::chunks`, with fuel: the slice's own length is enough for a positive size.
unfoldable pub chunks : ℕ → ℕ → List ℕ → List (List ℕ)
chunks zero size xs = []
chunks (suc fuel) size [] = []
chunks (suc fuel) size (x ∷ xs) = take size (x ∷ xs) ∷ chunks fuel size (drop size (x ∷ xs))

-- The data chunks, numbered from `i`.
unfoldable pub data_chunks : String → ℕ → List (List ℕ) → List StreamChunk
data_chunks stream_id i [] = []
data_chunks stream_id i (c ∷ cs) = data_chunk stream_id i c ∷ data_chunks stream_id (suc i) cs

unfoldable pub send_meta : ℕ → String → List ℕ → String → StreamMeta
send_meta chunk_size stream_id bytes stream_type = record {
  stream_id = stream_id;
  total_size = length bytes;
  chunk_size = chunk_size;
  total_chunks = u64 (length bytes + chunk_size - 1) / chunk_size;
  stream_type = stream_type;
  metadata = [];
}

-- A chunk size of zero is a division by zero, which panics.
unfoldable pub create_send_stream : ℕ → String → List ℕ → String → NetResult (List StreamChunk)
create_send_stream chunk_size stream_id bytes stream_type =
    let meta = send_meta chunk_size stream_id bytes stream_type in
    if eqb chunk_size 0
    then panics
    else ok (
        start_chunk stream_id meta
        ∷ (data_chunks stream_id 0 (chunks (length bytes) chunk_size bytes)
            ++ end_chunk stream_id meta.total_chunks ∷ []))
