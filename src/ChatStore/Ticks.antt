-- ===== src/ChatStore/Ticks.antt =====
-- The thread and the database agree on the ticks of a message.
use timber_chat.Prelude.{
  ℕ, ◌<◌, String, Bool, ◌||◌, sym, true, false, not, ◌&&◌, ◌≡◌, refl, ap, ◌∙◌, some, List, [], ◌∷◌,
  contains, truthy, arith, eq_iff, ◌==◌, if◌then◌else◌, Option-cases, Bool-cases, inl, inr,
}
use timber_chat.Database.{StoredMessage, Database}
use timber_chat.Presentation.{ConversationMessage, presented, undecryptable, Base, base_of}
use timber_chat.Store
use timber_chat.Store.{ReceiptField, delivered, read, Store, stamp, mark_receipt_one}
use timber_chat.Store.Receipts.{mark_receipt_one_present}
use timber_chat.ChatStore.{mark_message}

-- `base` of `decryptRecord` in frontend/src/db/localStore.ts
unfoldable pub base_of_row : StoredMessage → Base
base_of_row r = record {
  id = r.id;
  conversation_id = r.conversation_id;
  sender_id = r.sender_id;
  created_at = r.created_at;
  delivered_at = r.delivered_at;
  read_at = r.read_at;
  pending = r.pending;
  seen = r.seen;
}

-- The columns of a message, with a stamp as the tick that it shows.
pub record Ticked : Type 0 where
  pub id : String
  pub conversation_id : String
  pub sender_id : String
  pub created_at : ℕ
  pub delivered : Bool
  pub read : Bool
  pub pending : Bool
  pub seen : Bool

abbrev pub ticked : Base → Ticked
ticked b = record {
  id = b.id;
  conversation_id = b.conversation_id;
  sender_id = b.sender_id;
  created_at = b.created_at;
  delivered = truthy b.delivered_at;
  read = truthy b.read_at;
  pending = b.pending;
  seen = b.seen;
}

-- What `markReceipt` of the database makes of one row.
abbrev marked_row : List String → ReceiptField → ℕ → String → StoredMessage → StoredMessage
marked_row ids field at k row =
    if contains k ids && not (truthy (Store.stamp_of field row)) then stamp field at row else row

stamp-truthy :
    (field : ReceiptField) (at : ℕ) (row : StoredMessage)
    → 0 < at
    → truthy (Store.stamp_of field (stamp field at row)) ≡ true
unfolding stamp
stamp-truthy delivered at row h = ground arith
stamp-truthy read at row h = ground arith

module _ (D : Database) where
  mark_receipt_one_other :
      (field : ReceiptField) (at : ℕ) (id k : String) (s : Store D)
      → (id == k) ≡ false
      → D.messages.get (mark_receipt_one D field at id s).1.messages k ≡ D.messages.get s.messages k
  mark_receipt_one_other field at id k s ne = elim (Option-cases (D.messages.get s.messages id)) [
    | inl e ↦ unfold mark_receipt_one in ground arith
    | inr (row, e) ↦ mark_receipt_one_present D field at id s row e k ∙ (rw ne refl)
  ]

  get-mark_receipt :
      (field : ReceiptField) (at : ℕ) (ids : List String) (k : String) (s : Store D)
      (row : StoredMessage)
      → 0 < at
      → D.messages.get s.messages k ≡ some row
      → D.messages.get (Store.mark_receipt D ids field at s).1.messages k
        ≡ some (marked_row ids field at k row)
  unfolding Store.mark_receipt
  get-mark_receipt field at [] k s row pos e = e
  get-mark_receipt field at (id ∷ ids) k s row pos e = elim (Bool-cases (id == k)) [
    | inl same ↦
        let next : StoredMessage =
          if truthy (Store.stamp_of field row) then row else stamp field at row in
        let there : D.messages.get (mark_receipt_one D field at id s).1.messages k ≡ some next =
          mark_receipt_one_present D field at id s row
            (ap (D.messages.get s.messages) ((eq_iff id k).0 same) ∙ e) k
          ∙ (rw same refl) in
        get-mark_receipt field at ids k (mark_receipt_one D field at id s).1 next pos there
        ∙ ground (arith, same, stamp-truthy field at row pos)
    | inr other ↦
        get-mark_receipt field at ids k (mark_receipt_one D field at id s).1 row pos
          (mark_receipt_one_other field at id k s other ∙ e)
        ∙ (rw other refl)
  ]

  -- Reading implies delivery.
  tick : List String → ReceiptField → Ticked → Ticked
  tick ids delivered t = record t { delivered = contains t.id ids || t.delivered }
  tick ids read t = record t {
    delivered = (contains t.id ids && not t.read) || t.delivered;
    read = contains t.id ids || t.read;
  }

  tick-base_of :
      (ids : List String) (field : ReceiptField) (at : ℕ) (m : ConversationMessage)
      → 0 < at
      → ticked (base_of (mark_message ids field at m)) ≡ tick ids field (ticked (base_of m))
  unfolding mark_message tick
  tick-base_of ids delivered at (presented p) pos = ground arith
  tick-base_of ids delivered at (undecryptable b r) pos = ground arith
  tick-base_of ids read at (presented p) pos = ground arith
  tick-base_of ids read at (undecryptable b r) pos = ground arith

  tick-base_of_row :
      (ids : List String) (field : ReceiptField) (at : ℕ) (row : StoredMessage)
      → 0 < at
      → ticked (base_of_row (marked_row ids field at row.id row))
        ≡ tick ids field (ticked (base_of_row row))
  unfolding base_of_row stamp tick
  tick-base_of_row ids delivered at row pos = ground arith
  tick-base_of_row ids read at row pos = ground arith

  -- A receipt is applied to the database and to the thread, each at the time its own clock shows. If
  -- they agree on a message before, its ticks included, they agree after: all its columns are equal but
  -- the times of the stamps, and a stamp is there in both or in neither.
  pub ticks_agree :
      (field : ReceiptField) (at shown_at : ℕ) (ids : List String) (s : Store D)
      (row : StoredMessage) (m : ConversationMessage)
      → 0 < at
      → 0 < shown_at
      → D.messages.get s.messages row.id ≡ some row
      → ticked (base_of m) ≡ ticked (base_of_row row)
      → (row' : StoredMessage) × (D.messages.get
            (Store.mark_receipt D ids field at s).1.messages
            row.id
          ≡ some row')
        × (ticked (base_of (mark_message ids field shown_at m)) ≡ ticked (base_of_row row'))
  ticks_agree field at shown_at ids s row m pos pos' e h = (
    marked_row ids field at row.id row,
    get-mark_receipt field at ids row.id s row pos e,
    tick-base_of ids field shown_at m pos'
        ∙ ap (tick ids field) h
        ∙ sym (tick-base_of_row ids field at row pos),
  )
