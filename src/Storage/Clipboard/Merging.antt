-- ===== src/Storage/Clipboard/Merging.antt =====
-- What merging entries leaves under each identifier.
use text.Mathlib.TextEquality.{eq_iff}
use bey.Base.{
  ℕ, ◌≡◌, refl, sym, ap, ◌∙◌, subst, Bool, true, false, Bool-cases, inl, inr, ◌&&◌, if◌then◌else◌,
  if_true, if_false, some, List, [], ◌∷◌, String, string_eq, ◌==◌, arith,
}
use bey.Base.Errors.{NetResult, ok, err, panics}
use bey.Storage.Clipboard.{
  ClipboardEntry, Store, should_update, fetched, get_entry, written, write, merge_entry, and_then,
  merge_all,
}

-- What a database and serde_json promise where nothing fails: every insertion succeeds and is read
-- back, under its key only, and an entry that is serialised parses as itself.
pub record IsReliable {Db Bytes : Type 0} (store : Store Db Bytes) : Type 0 where
  pub inserted : (db : Db) (id : String) (bytes : Bytes) → (store.insert db id bytes).1 ≡ true
  pub get-insert :
      (db : Db) (id other : String) (bytes : Bytes)
      → store.get (store.insert db id bytes).0 other
        ≡ (if id == other then some (some bytes) else store.get db other)
  pub parses :
      (entry : ClipboardEntry)
      → (bytes : Bytes) × (store.to_vec entry ≡ some bytes) × (store.from_slice bytes ≡ some entry)

-- What is under an identifier after an entry was merged.
abbrev pub merged : String → NetResult ClipboardEntry → ClipboardEntry → NetResult ClipboardEntry
merged id before entry = if (entry.id == id) && should_update entry before then ok entry else before

unfoldable pub merged_all :
    String → NetResult ClipboardEntry → List ClipboardEntry → NetResult ClipboardEntry
merged_all id before [] = before
merged_all id before (entry ∷ entries) = merged_all id (merged id before entry) entries

module _ {Db Bytes : Type 0} (store : Store Db Bytes) where
  -- The call succeeded and left this under the identifier.
  abbrev pub Leaves : String → NetResult ClipboardEntry → Db × NetResult (Unit {0}) → Type 0
  Leaves id result (db, answer) = (answer ≡ ok tt) × (get_entry store db id ≡ result)

  written-Leaves :
      (id : String) (result : NetResult ClipboardEntry) (code : ℕ) (db : Db) (flag : Bool)
      → flag ≡ true
      → get_entry store db id ≡ result
      → Leaves id result (written store code (db, flag))
  written-Leaves id result code db true h g = (refl, g)
  written-Leaves id result code db false h g = cc

  write-Leaves :
      (db : Db) (entry : ClipboardEntry) (id : String)
      → IsReliable store
      → Leaves id
          (if entry.id == id then ok entry else get_entry store db id)
          (write store 6210 6211 db entry.id (store.to_vec entry))
  unfolding get_entry
  write-Leaves db entry id r =
      let (bytes, encoded, decoded) = r.parses entry in
      subst
        (λ o.
          Leaves id (if entry.id == id then ok entry else get_entry store db id)
            (write store 6210 6211 db entry.id o))
        (sym encoded)
        (written-Leaves id _ 6211 (store.insert db entry.id bytes).0
          (store.insert db entry.id bytes).1 (r.inserted db entry.id bytes)
          (ap (fetched store) (r.get-insert db entry.id id bytes) ∙ split bytes decoded))
    where
      split :
          (bytes : Bytes)
          → store.from_slice bytes ≡ some entry
          → fetched store (if entry.id == id then some (some bytes) else store.get db id)
            ≡ (if entry.id == id then ok entry else get_entry store db id)
      split bytes decoded = elim (Bool-cases (entry.id == id)) [
        | inl hit ↦ rw (hit, decoded) refl
        | inr miss ↦ rw miss refl
      ]

  merged-decided :
      (db : Db) (entry : ClipboardEntry) (id : String) (b : Bool)
      → should_update entry (get_entry store db entry.id) ≡ b
      → (if (entry.id == id) && b then ok entry else get_entry store db id)
        ≡ merged id (get_entry store db id) entry
  merged-decided db entry id b h = elim (Bool-cases (entry.id == id)) [
    | inl hit ↦
        ap (λ c. if (entry.id == id) && c then ok entry else get_entry store db id)
          (sym (
            subst (λ i. should_update entry (get_entry store db i) ≡ b) ((eq_iff entry.id id).0 hit)
              h))
    | inr miss ↦ rw miss refl
  ]

  pub merge_entry-Leaves :
      (db : Db) (entry : ClipboardEntry) (id : String)
      → IsReliable store
      → Leaves id (merged id (get_entry store db id) entry) (merge_entry store db entry)
  unfolding merge_entry
  merge_entry-Leaves db entry id r =
      elim (Bool-cases (should_update entry (get_entry store db entry.id))) [
        | inl newer ↦
            if_true (Leaves id (merged id (get_entry store db id) entry))
              (should_update entry (get_entry store db entry.id)) _ _ newer
              (subst (λ g. Leaves id g (write store 6210 6211 db entry.id (store.to_vec entry)))
                (drop_true ∙ merged-decided db entry id true newer) (write-Leaves db entry id r))
        | inr held ↦
            if_false (Leaves id (merged id (get_entry store db id) entry))
              (should_update entry (get_entry store db entry.id)) _ _ held
              (refl, drop_false ∙ merged-decided db entry id false held)
      ]
    where
      drop_true :
          (if entry.id == id then ok entry else get_entry store db id)
          ≡ (if (entry.id == id) && true then ok entry else get_entry store db id)
      drop_true = ground arith

      drop_false :
          get_entry store db id
          ≡ (if (entry.id == id) && false then ok entry else get_entry store db id)
      drop_false = ground arith

  following-Leaves :
      (id : String) (before : NetResult ClipboardEntry) (entries : List ClipboardEntry)
      (a : Db × NetResult (Unit {0}))
      → ((next : Db)
          → Leaves id
              (merged_all id (get_entry store next id) entries)
              (merge_all store next entries))
      → Leaves id before a
      → Leaves id
          (merged_all id before entries)
          (and_then store a (λ next. merge_all store next entries))
  following-Leaves id before entries (next, ok u) f h =
      subst (λ g. Leaves id (merged_all id g entries) (merge_all store next entries)) h.1 (f next)
  following-Leaves id before entries (next, err e) f h = cc (h.0)
  following-Leaves id before entries (next, panics) f h = cc (h.0)

  pub merge_all-Leaves :
      (entries : List ClipboardEntry) (db : Db) (id : String)
      → IsReliable store
      → Leaves id (merged_all id (get_entry store db id) entries) (merge_all store db entries)
  unfolding merge_all merged_all
  merge_all-Leaves [] db id r = (refl, refl)
  merge_all-Leaves (entry ∷ entries) db id r =
      following-Leaves id (merged id (get_entry store db id) entry) entries
        (merge_entry store db entry) (λ next. merge_all-Leaves entries next id r)
        (merge_entry-Leaves db entry id r)
