-- ===== src/Storage/Clipboard/Tests.antt =====
-- The theorems about the clipboard at concrete inputs, over a map that never fails.
use mathlib.Core.List.{Permᴰ}
use bey.Base.{
  ℕ, ◌≡◌, refl, true, some, List, [], ◌∷◌, length, String, string_eq, HashMap, lookup, insert,
  remove, is_some, if◌then◌else◌, ◌==◌, lookup-insert, arith,
}
use bey.Base.Errors.{ok}
use bey.Storage.Clipboard.{
  ClipboardEntry, Store, get_entry, merge_entry, merge_all, add_entry, list_entries, sort_entries,
  insert_entry, full_sync_response, handle_sync_event,
}
use bey.Storage.Clipboard.Merging.{IsReliable}
use bey.Storage.Clipboard.Converging.{full_sync-Converges}

abbrev Table : Type 0
Table = HashMap String ClipboardEntry

abbrev in_memory : Store Table ClipboardEntry
in_memory = record {
  get = λ db id. some (lookup id db);
  insert = λ db id entry. (insert id entry db, true);
  remove = λ db id. (remove id db, some (is_some (lookup id db)));
  clear = λ db. ([], true);
  len = λ db. length db;
  entries = λ db. db;
  to_vec = λ entry. some entry;
  from_slice = λ entry. some entry;
}

in_memory-IsReliable : IsReliable in_memory
in_memory-IsReliable = record {
  inserted = λ db id entry. refl;
  get-insert = λ db id other entry. get_after db id other entry;
  parses = λ entry. (entry, refl, refl);
}
  where
    get_after :
        (db : Table) (id other : String) (entry : ClipboardEntry)
        → in_memory.get (insert id entry db) other
          ≡ (if id == other then some (some entry) else in_memory.get db other)
    get_after db id other entry = ground (arith, lookup-insert id other entry db)

abbrev edit : ℕ → ℕ → ClipboardEntry
edit timestamp version = record {
  id = "a";
  content = timestamp ∷ [];
  content_type = "text";
  source_device_id = "alice";
  timestamp = timestamp;
  version = version;
}

abbrev edits : List ClipboardEntry
edits = edit 5 1 ∷ edit 3 2 ∷ []

abbrev reversed_edits : List ClipboardEntry
reversed_edits = edit 3 2 ∷ edit 5 1 ∷ []

higher_version_wins :
    get_entry in_memory (handle_sync_event in_memory [] (full_sync_response edits)).0 "a"
    ≡ ok (edit 3 2)
unfolding get_entry handle_sync_event merge_all merge_entry lookup insert
higher_version_wins = refl

two_entries :
    let db = (add_entry in_memory "alice" "b" 9 [] "text" (("a", edit 5 1) ∷ [])).0 in
    length (list_entries in_memory db) ≡ 2
unfolding add_entry list_entries sort_entries insert_entry lookup insert
two_entries = refl

full_sync-Converges_example :
    let left = handle_sync_event in_memory [] (full_sync_response edits) in
    let right = handle_sync_event in_memory [] (full_sync_response reversed_edits) in
    (left.1 ≡ ok tt)
    × (right.1 ≡ ok tt)
    × (get_entry in_memory left.0 "a" ≡ get_entry in_memory right.0 "a")
full_sync-Converges_example =
    full_sync-Converges in_memory [] [] "a" {xs = edits} {ys = reversed_edits} in_memory-IsReliable
      refl (Permᴰ.swap refl refl)
      (
        ((λ i v t. refl), ((λ i v t. ground arith), tt)),
        (((λ i v t. ground arith), ((λ i v t. refl), tt)), tt),
      )
