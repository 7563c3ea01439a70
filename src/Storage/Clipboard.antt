-- ===== src/Storage/Clipboard.antt =====
-- The clipboard that devices share, src/crates/bey-storage/src/clipboard.rs. The database and the
-- serialisation of entries are a parameter, fresh identifiers and the clock are arguments.
pub mod Merging
pub mod Converging
pub mod Newest
mod Tests
use bey.Base.{
  ℕ, ltb, leb, eqb, Bool, true, false, ◌||◌, ◌&&◌, if◌then◌else◌, Option, none, some, List, [], ◌∷◌,
  String,
}
use bey.Base.Errors.{
  NetResult, ok, err, panics, ErrorInfo, ErrorCategory, new_error, with_category, parse, database,
  storage,
}

pub record ClipboardEntry : Type 0 where
  pub id : String
  pub content : List ℕ
  pub content_type : String
  pub source_device_id : String
  pub timestamp : ℕ
  pub version : ℕ

pub data ClipboardEvent : Type 0 where
  add update : ClipboardEntry → ClipboardEvent
  delete : String → ℕ → ClipboardEvent
  request_full_sync : String → ClipboardEvent
  full_sync_response : List ClipboardEntry → ClipboardEvent

-- The operations of the database that the clipboard calls, each of which may fail, and serde_json.
-- `entries` is what its iteration reads, in its order; `remove` answers whether the key was there.
pub record Store (Db Bytes : Type 0) : Type 0 where
  pub get : Db → String → Option (Option Bytes)
  pub insert : Db → String → Bytes → Db × Bool
  pub remove : Db → String → Db × Option Bool
  pub clear : Db → Db × Bool
  pub len : Db → ℕ
  pub entries : Db → List (String × Bytes)
  pub to_vec : ClipboardEntry → Option Bytes
  pub from_slice : Bytes → Option ClipboardEntry

abbrev pub problem : ℕ → ErrorCategory → ErrorInfo
problem code category = with_category (new_error code) category

abbrev pub max_entries : ℕ
max_entries = 1000

-- Whether an entry replaces another one of its identifier.
abbrev pub is_newer : ClipboardEntry → ClipboardEntry → Bool
is_newer remote local =
    ltb local.version remote.version
    || (eqb remote.version local.version && ltb local.timestamp remote.timestamp)

abbrev pub should_update : ClipboardEntry → NetResult ClipboardEntry → Bool
should_update remote (ok local) = is_newer remote local
should_update remote (err e) = true
should_update remote panics = true

-- The later entry where it is strictly later.
abbrev pub later : Option ClipboardEntry × ℕ → ClipboardEntry → Option ClipboardEntry × ℕ
later (latest, latest_timestamp) entry =
    if ltb latest_timestamp entry.timestamp
    then (some entry, entry.timestamp)
    else (latest, latest_timestamp)

unfoldable pub latest_from :
    Option ClipboardEntry × ℕ → List ClipboardEntry → Option ClipboardEntry × ℕ
latest_from best [] = best
latest_from best (entry ∷ entries) = latest_from (later best entry) entries

abbrev pub older : Option String × ℕ → String → ClipboardEntry → Option String × ℕ
older (oldest_key, oldest_timestamp) key entry =
    if ltb entry.timestamp oldest_timestamp
    then (some key, entry.timestamp)
    else (oldest_key, oldest_timestamp)

unfoldable pub oldest_from : Option String × ℕ → List (String × ClipboardEntry) → Option String × ℕ
oldest_from best [] = best
oldest_from best ((key, entry) ∷ entries) = oldest_from (older best key entry) entries

-- `sort_by`, which is stable, with the comparison of the timestamps reversed.
unfoldable pub insert_entry : ClipboardEntry → List ClipboardEntry → List ClipboardEntry
insert_entry e [] = e ∷ []
insert_entry e (f ∷ fs) =
    let rest = insert_entry e fs in if leb f.timestamp e.timestamp then e ∷ f ∷ fs else f ∷ rest

unfoldable pub sort_entries : List ClipboardEntry → List ClipboardEntry
sort_entries [] = []
sort_entries (e ∷ es) = insert_entry e (sort_entries es)

unfoldable pub changed_since : ℕ → List ClipboardEntry → List ClipboardEntry
changed_since since [] = []
changed_since since (e ∷ es) =
    let rest = changed_since since es in if ltb since e.timestamp then e ∷ rest else rest

module _ {Db Bytes : Type 0} (store : Store Db Bytes) where
  abbrev pub Answer : Type 0
  Answer = Db × NetResult (Unit {0})

  abbrev pub parsed : Option ClipboardEntry → NetResult ClipboardEntry
  parsed none = err (problem 6207 parse)
  parsed (some entry) = ok entry

  abbrev pub fetched : Option (Option Bytes) → NetResult ClipboardEntry
  fetched none = err (problem 6205 database)
  fetched (some none) = err (problem 6206 storage)
  fetched (some (some bytes)) = parsed (store.from_slice bytes)

  unfoldable pub get_entry : Db → String → NetResult ClipboardEntry
  get_entry db id = fetched (store.get db id)

  -- Serialise and insert, with the codes of the two errors.
  abbrev pub written : ℕ → Db × Bool → Answer
  written code (db, true) = (db, ok tt)
  written code (db, false) = (db, err (problem code database))

  abbrev pub write : ℕ → ℕ → Db → String → Option Bytes → Answer
  write parse_code code db id none = (db, err (problem parse_code parse))
  write parse_code code db id (some bytes) = written code (store.insert db id bytes)

  -- The entries that can be read and parsed.
  abbrev pub readable : List (String × Bytes) → List (String × ClipboardEntry)
  readable [] = []
  readable ((key, bytes) ∷ items) = elim (store.from_slice bytes) [
    | none ↦ readable items
    | some entry ↦ (key, entry) ∷ readable items
  ]

  abbrev pub values : List (String × ClipboardEntry) → List ClipboardEntry
  values [] = []
  values ((key, entry) ∷ items) = entry ∷ values items

  abbrev pub find_oldest_entry_key : Db → Option String
  find_oldest_entry_key db =
      (oldest_from (none, 18446744073709551615) (readable (store.entries db))).0

  abbrev pub drop_key : Db → Option String → Db
  drop_key db none = db
  drop_key db (some key) = (store.remove db key).0

  abbrev pub limited : Db → Db
  limited db = if ltb max_entries (store.len db) then drop_key db (find_oldest_entry_key db) else db

  abbrev pub added : String → Answer → Db × NetResult String
  added id (db, ok u) = (limited db, ok id)
  added id (db, err e) = (db, err e)
  added id (db, panics) = (db, panics)

  -- With the identifier of the device, a fresh identifier and the time in seconds.
  unfoldable pub add_entry : String → String → ℕ → List ℕ → String → Db → Db × NetResult String
  add_entry device_id fresh now content content_type db = added fresh (
      write 6203 6204 db fresh (
        store.to_vec (record {
          id = fresh;
          content = content;
          content_type = content_type;
          source_device_id = device_id;
          timestamp = now;
          version = 1;
        })))

  unfoldable pub get_latest : Db → Option ClipboardEntry
  get_latest db = (latest_from (none, 0) (values (readable (store.entries db)))).0

  unfoldable pub list_entries : Db → List ClipboardEntry
  list_entries db = sort_entries (values (readable (store.entries db)))

  unfoldable pub get_diff : ℕ → Db → List ClipboardEntry
  get_diff since_timestamp db = changed_since since_timestamp (values (readable (store.entries db)))

  abbrev pub deleted : Db × Option Bool → Answer
  deleted (db, none) = (db, err (problem 6208 database))
  deleted (db, some false) = (db, err (problem 6209 storage))
  deleted (db, some true) = (db, ok tt)

  unfoldable pub delete_entry : Db → String → Answer
  delete_entry db id = deleted (store.remove db id)

  unfoldable pub clear_entries : Db → Answer
  clear_entries db = written 6212 (store.clear db)

  unfoldable pub merge_entry : Db → ClipboardEntry → Answer
  merge_entry db remote_entry =
      if should_update remote_entry (get_entry db remote_entry.id)
      then write 6210 6211 db remote_entry.id (store.to_vec remote_entry)
      else (db, ok tt)

  abbrev pub and_then : Answer → (Db → Answer) → Answer
  and_then (db, ok u) f = f db
  and_then (db, err e) f = (db, err e)
  and_then (db, panics) f = (db, panics)

  unfoldable pub merge_all : Db → List ClipboardEntry → Answer
  merge_all db [] = (db, ok tt)
  merge_all db (entry ∷ entries) = and_then (merge_entry db entry) (λ next. merge_all next entries)

  unfoldable pub handle_sync_event : Db → ClipboardEvent → Answer
  handle_sync_event db (add entry) = merge_entry db entry
  handle_sync_event db (update entry) = merge_entry db entry
  handle_sync_event db (delete id timestamp) = ((delete_entry db id).0, ok tt)
  handle_sync_event db (request_full_sync requester_id) = (db, ok tt)
  handle_sync_event db (full_sync_response entries) = merge_all db entries
