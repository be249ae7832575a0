-- ===== src/Sync/Receipts.antt =====
-- `syncReceipts` of frontend/src/lib/sync.js: the receipts of this device's own messages, pulled down.
-- What the relay answers is an argument, `none` a request that fails.
use Prim.Native.String.{◌++◌}
use timber_chat.Prelude.{
  ℕ, ◌+◌, String, Option, none, some, List, [], ◌∷◌, map, keep, length, truthy,
}
use timber_chat.Store.{ReceiptField, delivered, read, mark_receipt}
use timber_chat.ChatStore.{Shapes, ChatStore}
use timber_chat.ChatStore.{mark_receipt as show_receipt}
use timber_chat.Contacts.{Note, since, relay_failed, Device, Archive, Outcome, returned, threw}
use timber_chat.Threads.{get_meta, set_meta}

-- An entry of what the relay answers about receipts.
pub record ReceiptEntry : Type 0 where
  pub id : String
  pub delivered_at : Option ℕ
  pub read_at : Option ℕ

module _ (V : Device) (X : Shapes) where
  -- The ids of the entries that have the stamp.
  abbrev stamped : (ReceiptEntry → Option ℕ) → List ReceiptEntry → List String
  stamped stamp_of entries = map (λ e. e.id) (keep (λ e. truthy (stamp_of e)) entries)

  -- `if (ids.length)`, a receipt is marked in the database and in the view; the clock is read for each.
  unfoldable pub mark_both :
      List String
      → ReceiptField
      → (at shown_at : ℕ) → Archive V × ChatStore X
      → Archive V × ChatStore X
  mark_both [] field at shown_at s = s
  mark_both (id ∷ ids) field at shown_at (a, view) = (
    record a { store = (mark_receipt V.database (id ∷ ids) field at a.store).1 },
    show_receipt X (id ∷ ids) field shown_at view,
  )

  abbrev cursor_of : Option Note → Option ℕ
  cursor_of (some (since at)) = some at
  cursor_of _ = none

  -- `clock` gives the time at each of the five places that read it.
  unfoldable pub sync_receipts :
      (clock : ℕ → ℕ) (get_receipts : Option ℕ → Option (List ReceiptEntry))
      → String
      → Archive V × ChatStore X
      → Outcome ℕ × (Archive V × ChatStore X)
  unfolding mark_both
  sync_receipts clock get_receipts id s =
      let view = s.1 in
      let key = "receipts:" ++ id in
      let (found, a) = get_meta V key s.0 in
      elim found [
        | threw e ↦ (threw e, (a, view))
        | returned note ↦ elim (get_receipts (cursor_of note)) [
          | none ↦ (threw relay_failed, (a, view))
          | some entries ↦
              let told = stamped (λ e. e.delivered_at) entries in
              let opened = stamped (λ e. e.read_at) entries in
              let marked =
                mark_both opened read (clock 2) (clock 3)
                  (mark_both told delivered (clock 0) (clock 1) (a, view)) in
              (
                returned (length told + length opened),
                (set_meta V key (since (clock 4)) marked.0, marked.1),
              )
        ]
      ]
