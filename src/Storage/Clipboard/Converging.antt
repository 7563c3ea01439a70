-- ===== src/Storage/Clipboard/Converging.antt =====
-- Devices that are given the same entries hold the same clipboard, whatever the order.
use mathlib.Core.List.{Permᴰ}
use text.Mathlib.TextEquality.{eq_iff}
use bey.Base.{
  ◌≡◌, refl, sym, ap, ◌∙◌, true, false, Bool-cases, inl, inr, if◌then◌else◌, List, ◌∷◌, String,
  string_eq, ◌==◌, All, perm-All, All-mono, arith,
}
use bey.Base.Errors.{NetResult, ok, err, panics}
use bey.Storage.Clipboard.{
  ClipboardEntry, Store, is_newer, should_update, get_entry, full_sync_response, handle_sync_event,
}
use bey.Storage.Clipboard.Merging.{IsReliable, merged, merged_all, merge_all-Leaves}

-- Two entries of one identifier and one version and timestamp are the same.
abbrev pub Settled : ClipboardEntry → ClipboardEntry → Type 0
Settled a b = a.id ≡ b.id → a.version ≡ b.version → a.timestamp ≡ b.timestamp → a ≡ b

abbrev pub AllSettled : List ClipboardEntry → Type 0
AllSettled entries = All (λ a. All (Settled a) entries) entries

newer_not_older : (a b : ClipboardEntry) → is_newer a b ≡ true → is_newer b a ≡ false
newer_not_older a b h = ground (arith, h)

newer-between :
    (a b l : ClipboardEntry) → is_newer a l ≡ true → is_newer b l ≡ false → is_newer b a ≡ false
newer-between a b l h k = ground (arith, h, k)

ties_agree :
    (a b : ClipboardEntry)
    → is_newer a b ≡ false
    → is_newer b a ≡ false
    → (a.version ≡ b.version) × (a.timestamp ≡ b.timestamp)
ties_agree a b h k = (ground (arith, h, k), ground (arith, h, k))

-- Two entries of one identifier that are merged one after the other.
module _ (a b : ClipboardEntry) where
  either_last :
      (is_newer a b ≡ false → is_newer b a ≡ false → a ≡ b)
      → (if is_newer b a then ok b else ok a) ≡ (if is_newer a b then ok a else ok b)
  either_last f = elim (Bool-cases (is_newer a b)) [
    | inl ab ↦ rw (ab, newer_not_older a b ab) refl
    | inr not_ab ↦ elim (Bool-cases (is_newer b a)) [
      | inl ba ↦ rw (not_ab, ba) refl
      | inr not_ba ↦ rw (not_ab, not_ba) (ap ok (f not_ab not_ba))
    ]
  ]

  abbrev pick : NetResult ClipboardEntry → ClipboardEntry → NetResult ClipboardEntry
  pick o e = if should_update e o then ok e else o

  pick-swap :
      (o : NetResult ClipboardEntry)
      → (is_newer a b ≡ false → is_newer b a ≡ false → a ≡ b)
      → pick (pick o a) b ≡ pick (pick o b) a
  pick-swap (err e) f = either_last f
  pick-swap panics f = either_last f
  pick-swap (ok l) f = elim (Bool-cases (is_newer a l)) [
    | inl al ↦ elim (Bool-cases (is_newer b l)) [
      | inl bl ↦ rw (al, bl) (either_last f)
      | inr not_bl ↦ rw (al, not_bl) (rw (newer-between a b l al not_bl, al) refl)
    ]
    | inr not_al ↦ elim (Bool-cases (is_newer b l)) [
      | inl bl ↦ rw (not_al, bl) (rw (newer-between b a l bl not_al) refl)
      | inr not_bl ↦ rw (not_al, not_bl) (rw not_al refl)
    ]
  ]

  merged-swap :
      (id : String) (o : NetResult ClipboardEntry)
      → Settled a b
      → merged id (merged id o a) b ≡ merged id (merged id o b) a
  merged-swap id o s = elim (Bool-cases (a.id == id)) [
    | inl same_a ↦ elim (Bool-cases (b.id == id)) [
      | inl same_b ↦
          rw (same_a, same_b)
            (pick-swap o λ h k.
              s ((eq_iff a.id id).0 same_a ∙ sym ((eq_iff b.id id).0 same_b)) (ties_agree a b h k).0
                (ties_agree a b h k).1)
      | inr other_b ↦ rw (same_a, other_b) refl
    ]
    | inr other_a ↦ elim (Bool-cases (b.id == id)) [
      | inl same_b ↦ rw (other_a, same_b) refl
      | inr other_b ↦ rw (other_a, other_b) refl
    ]
  ]

AllSettled-tail :
    (entry : ClipboardEntry) (entries : List ClipboardEntry)
    → AllSettled (entry ∷ entries)
    → AllSettled entries
AllSettled-tail entry entries s =
    All-mono (λ a. All (Settled a) (entry ∷ entries)) (λ a. All (Settled a) entries) entries
      (λ a h. h.1) s.1

AllSettled-perm : {xs ys : List ClipboardEntry} → Permᴰ xs ys → AllSettled xs → AllSettled ys
AllSettled-perm {xs} {ys} p s =
    perm-All (λ a. All (Settled a) ys) p
      (All-mono (λ a. All (Settled a) xs) (λ a. All (Settled a) ys) xs
        (λ a h. perm-All (Settled a) p h) s)

merged_all-perm :
    {xs ys : List ClipboardEntry} (id : String) (o : NetResult ClipboardEntry)
    → Permᴰ xs ys
    → AllSettled xs
    → merged_all id o xs ≡ merged_all id o ys
unfolding merged_all
merged_all-perm id o Permᴰ.nil s = refl
merged_all-perm id o (Permᴰ.cons {a} {b} {l₁} {l₂} e p) s =
    merged_all-perm id (merged id o a) p (AllSettled-tail a l₁ s)
    ∙ ap (λ x. merged_all id (merged id o x) l₂) e
merged_all-perm id o (Permᴰ.swap {a = a} {b = b} {a' = c} {l = l} e f) s =
    ap (λ x. merged_all id x l) (merged-swap a b id o s.0.1.0)
    ∙ ap (λ x. merged_all id (merged id (merged id o x) a) l) f
    ∙ ap (λ x. merged_all id (merged id (merged id o c) x) l) e
merged_all-perm id o (Permᴰ.trans p q) s =
    merged_all-perm id o p s ∙ merged_all-perm id o q (AllSettled-perm p s)

-- Two devices that hold the same under an identifier, and that are given the same entries in any
-- two orders by a full synchronisation: both succeed and again hold the same under it. Where two
-- entries have the identifier, the version and the timestamp in common they are the same, and no
-- operation of the databases fails.
pub full_sync-Converges :
    {Db Bytes : Type 0} (store : Store Db Bytes) (here there : Db) (id : String)
    {xs ys : List ClipboardEntry}
    → IsReliable store
    → get_entry store here id ≡ get_entry store there id
    → Permᴰ xs ys
    → AllSettled xs
    → let left = handle_sync_event store here (full_sync_response xs) in
      let right = handle_sync_event store there (full_sync_response ys) in
      (left.1 ≡ ok tt)
      × (right.1 ≡ ok tt)
      × (get_entry store left.0 id ≡ get_entry store right.0 id)
unfolding handle_sync_event
full_sync-Converges store here there id {xs} {ys} r same p s =
    let left = merge_all-Leaves store xs here id r in
    let right = merge_all-Leaves store ys there id r in
    (
      left.0,
      right.0,
      left.1
          ∙ ap (λ g. merged_all id g xs) same
          ∙ merged_all-perm id (get_entry store there id) p s
          ∙ sym right.1,
    )
