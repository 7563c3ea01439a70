-- ===== src/Plugin/Hooks.antt =====
-- The registry of hooks, src/crates/bey-plugin/src/hooks.rs. What a `dyn Hook` does is a parameter:
-- it may read and change a world of its own.
pub mod Chain
use bey.Base.{
  ℕ, zero, suc, true, ◌≡◌, refl, ap, ◌∙◌, sym, ◌↔◌, eqb, eqb_iff, Option, none, some, List, [], ◌∷◌,
  ◌++◌, length, String, HashMap, HashKey, lookup, insert,
}
use bey.Base.Errors.{NetResult, ok, err, panics, ErrorInfo, new_error, with_category, system}

pub data HookPoint : Type 0 where
  network_before_send network_after_send network_before_receive network_after_receive : HookPoint
  network_connection_established network_connection_closed : HookPoint
  storage_before_write storage_after_write storage_before_read storage_after_read : HookPoint
  storage_before_delete storage_after_delete : HookPoint
  message_before_send message_after_send message_received message_processed : HookPoint
  clipboard_before_sync clipboard_after_sync clipboard_entry_added : HookPoint
  clipboard_entry_deleted : HookPoint
  cloud_storage_before_upload cloud_storage_after_upload : HookPoint
  cloud_storage_before_download cloud_storage_after_download : HookPoint

-- `HookPoint::name`.
unfoldable pub point_name : HookPoint → String
point_name network_before_send = "network.before_send"
point_name network_after_send = "network.after_send"
point_name network_before_receive = "network.before_receive"
point_name network_after_receive = "network.after_receive"
point_name network_connection_established = "network.connection_established"
point_name network_connection_closed = "network.connection_closed"
point_name storage_before_write = "storage.before_write"
point_name storage_after_write = "storage.after_write"
point_name storage_before_read = "storage.before_read"
point_name storage_after_read = "storage.after_read"
point_name storage_before_delete = "storage.before_delete"
point_name storage_after_delete = "storage.after_delete"
point_name message_before_send = "message.before_send"
point_name message_after_send = "message.after_send"
point_name message_received = "message.received"
point_name message_processed = "message.processed"
point_name clipboard_before_sync = "clipboard.before_sync"
point_name clipboard_after_sync = "clipboard.after_sync"
point_name clipboard_entry_added = "clipboard.entry_added"
point_name clipboard_entry_deleted = "clipboard.entry_deleted"
point_name cloud_storage_before_upload = "cloud_storage.before_upload"
point_name cloud_storage_after_upload = "cloud_storage.after_upload"
point_name cloud_storage_before_download = "cloud_storage.before_download"
point_name cloud_storage_after_download = "cloud_storage.after_download"

-- The variants by number, for the derived equality.
abbrev points : List HookPoint
points =
    network_before_send ∷ network_after_send ∷ network_before_receive ∷ network_after_receive
    ∷ network_connection_established ∷ network_connection_closed ∷ storage_before_write
    ∷ storage_after_write ∷ storage_before_read ∷ storage_after_read ∷ storage_before_delete
    ∷ storage_after_delete ∷ message_before_send ∷ message_after_send ∷ message_received
    ∷ message_processed ∷ clipboard_before_sync ∷ clipboard_after_sync ∷ clipboard_entry_added
    ∷ clipboard_entry_deleted ∷ cloud_storage_before_upload ∷ cloud_storage_after_upload
    ∷ cloud_storage_before_download ∷ cloud_storage_after_download ∷ []

abbrev point_index : HookPoint → ℕ
point_index network_before_send = 0
point_index network_after_send = 1
point_index network_before_receive = 2
point_index network_after_receive = 3
point_index network_connection_established = 4
point_index network_connection_closed = 5
point_index storage_before_write = 6
point_index storage_after_write = 7
point_index storage_before_read = 8
point_index storage_after_read = 9
point_index storage_before_delete = 10
point_index storage_after_delete = 11
point_index message_before_send = 12
point_index message_after_send = 13
point_index message_received = 14
point_index message_processed = 15
point_index clipboard_before_sync = 16
point_index clipboard_after_sync = 17
point_index clipboard_entry_added = 18
point_index clipboard_entry_deleted = 19
point_index cloud_storage_before_upload = 20
point_index cloud_storage_after_upload = 21
point_index cloud_storage_before_download = 22
point_index cloud_storage_after_download = 23

abbrev nth : ℕ → List HookPoint → HookPoint
nth i [] = network_before_send
nth zero (x ∷ xs) = x
nth (suc i) (x ∷ xs) = nth i xs

nth-point_index : (p : HookPoint) → nth (point_index p) points ≡ p
nth-point_index network_before_send = refl
nth-point_index network_after_send = refl
nth-point_index network_before_receive = refl
nth-point_index network_after_receive = refl
nth-point_index network_connection_established = refl
nth-point_index network_connection_closed = refl
nth-point_index storage_before_write = refl
nth-point_index storage_after_write = refl
nth-point_index storage_before_read = refl
nth-point_index storage_after_read = refl
nth-point_index storage_before_delete = refl
nth-point_index storage_after_delete = refl
nth-point_index message_before_send = refl
nth-point_index message_after_send = refl
nth-point_index message_received = refl
nth-point_index message_processed = refl
nth-point_index clipboard_before_sync = refl
nth-point_index clipboard_after_sync = refl
nth-point_index clipboard_entry_added = refl
nth-point_index clipboard_entry_deleted = refl
nth-point_index cloud_storage_before_upload = refl
nth-point_index cloud_storage_after_upload = refl
nth-point_index cloud_storage_before_download = refl
nth-point_index cloud_storage_after_download = refl

pub point_index_iff : (p q : HookPoint) → (eqb (point_index p) (point_index q) ≡ true) ↔ (p ≡ q)
point_index_iff p q = (
  λ h.
      sym (nth-point_index p)
      ∙ ap (λ i. nth i points) ((eqb_iff (point_index p) (point_index q)).0 h)
      ∙ nth-point_index q,
  λ e. (eqb_iff (point_index p) (point_index q)).1 (ap point_index e),
)

-- The derived `PartialEq` and `Hash`.
instance abbrev pub point_eq : HashKey HookPoint
point_eq = record {
  matches = λ p q. eqb (point_index p) (point_index q);
  matches_iff = point_index_iff;
}

-- `H` is a hook, an `Arc<dyn Hook>`.
pub record HookRegistry (H : Type 0) : Type 0 where
  pub hooks : HashMap HookPoint (List H)

module _ {H : Type 0} where
  abbrev pub new : HookRegistry H
  new = record { hooks = [] }

  abbrev pub or_none : Option (List H) → List H
  or_none none = []
  or_none (some hooks) = hooks

  abbrev pub hooks_at : HookRegistry H → HookPoint → List H
  hooks_at r point = or_none (lookup point r.hooks)

  unfoldable pub register_hook : HookRegistry H → HookPoint → H → HookRegistry H
  register_hook r point hook = record {
    hooks = insert point (hooks_at r point ++ hook ∷ []) r.hooks;
  }

  abbrev pub hook_count : HookRegistry H → HookPoint → ℕ
  hook_count r point = length (hooks_at r point)

  abbrev pub clear_hooks : HookRegistry H → HookRegistry H
  clear_hooks r = record { hooks = [] }

-- The error of a hook is replaced by one of code 8100.
abbrev pub hook_failed : ErrorInfo → ErrorInfo
hook_failed e = with_category (new_error 8100) system

module _ {H W : Type 0} (run_hook : H → List ℕ → W → NetResult (List ℕ) × W) where
  -- What follows the call of one hook; `rest` is the rest of the loop.
  abbrev pub after_hook :
      (List ℕ → W → NetResult (List ℕ) × W) → NetResult (List ℕ) × W → NetResult (List ℕ) × W
  after_hook rest (ok bytes, w) = rest bytes w
  after_hook rest (err e, w) = (err (hook_failed e), w)
  after_hook rest (panics, w) = (panics, w)

  -- The loop over the hooks of a point.
  unfoldable pub run_hooks : List H → List ℕ → W → NetResult (List ℕ) × W
  run_hooks [] bytes w = (ok bytes, w)
  run_hooks (hook ∷ hooks) bytes w = after_hook (run_hooks hooks) (run_hook hook bytes w)

  unfoldable pub execute : HookRegistry H → HookPoint → List ℕ → W → NetResult (List ℕ) × W
  execute r point bytes w = run_hooks (hooks_at r point) bytes w
