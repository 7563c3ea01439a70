-- ===== src/Storage/Clipboard/Newest.antt =====
-- What a full synchronisation leaves is the newest of what was offered.
use bey.Base.{◌≡◌, Bool, ◌&&◌, String, string_eq, ◌==◌}
use bey.Base.Errors.{NetResult, ok}
use bey.Storage.Clipboard.{ClipboardEntry, should_update}

module _ (id : String) where
  -- An entry that would replace what is under the identifier.
  abbrev pub beats : ClipboardEntry → NetResult ClipboardEntry → Bool
  beats entry held = (entry.id == id) && should_update entry held

  -- What is held came from this entry.
  abbrev pub Came : NetResult ClipboardEntry → ClipboardEntry → Type 0
  Came held entry = (entry.id ≡ id) × (held ≡ ok entry)
