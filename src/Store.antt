-- ===== src/Store.antt =====
-- frontend/src/db/localStore.ts: the message rows, their receipts and their flags.
pub mod Receipts
pub mod Rows
pub mod Progress
pub mod Unread
mod Tests
use timber_chat.Prelude.{
  ℕ, zero, suc, String, Bool, true, false, not, ◌&&◌, ◌||◌, Option, none, some, List, [], ◌∷◌, ◌++◌,
  Dict, lookup, insert, remove, truthy, coalesce, or_else, ltb, ◌==◌, if◌then◌else◌, ◌+◌, keep,
  take,
}
use timber_chat.Database.{
  SealedEnvelope, StoredMessage, ConversationRow, Database, ObjectStore, message_key,
}

-- A message on its way into storage; an absent flag is `none`.
pub record IncomingMessage : Type 0 where
  pub id : String
  pub conversation_id : String
  pub sender_id : String
  pub created_at : ℕ
  pub envelope : SealedEnvelope
  pub pending : Option Bool
  pub seen : Option Bool
  pub delivered_ack : Option Bool
  pub read_ack : Option Bool
  pub delivered_at : Option ℕ
  pub read_at : Option ℕ

pub data ReceiptField : Type 0 where
  delivered read : ReceiptField

pub data AckField : Type 0 where
  delivered_ack read_ack : AckField

-- An entry of `deferredReceipts`.
pub record Parked : Type 0 where
  pub delivered_at : Option ℕ
  pub read_at : Option ℕ

-- `Boolean(value)` of a flag that may be undefined.
abbrev pub flag : Option Bool → Bool
flag none = false
flag (some b) = b

-- `record[field] && …`, `{ ...record, [field]: at }`
abbrev pub stamp_of : ReceiptField → StoredMessage → Option ℕ
stamp_of delivered m = m.delivered_at
stamp_of read m = m.read_at

abbrev pub with_stamp : ReceiptField → ℕ → StoredMessage → StoredMessage
with_stamp delivered at m = record m { delivered_at = some at }
with_stamp read at m = record m { read_at = some at }

abbrev pub ack_of : AckField → StoredMessage → Bool
ack_of delivered_ack m = m.delivered_ack
ack_of read_ack m = m.read_ack

abbrev pub with_ack : AckField → StoredMessage → StoredMessage
with_ack delivered_ack m = record m { delivered_ack = true }
with_ack read_ack m = record m { read_ack = true }

-- The record that `putMessage` builds from the message and the row that is there.
unfoldable pub merge_row : IncomingMessage → Option StoredMessage → StoredMessage
merge_row m existing = record {
  id = m.id;
  conversation_id = m.conversation_id;
  sender_id = m.sender_id;
  created_at = m.created_at;
  pending = flag m.pending;
  seen = flag (coalesce m.seen (elim existing [ none ↦ none | some e ↦ some e.seen ]));
  delivered_ack =
      flag
        (coalesce m.delivered_ack (elim existing [ none ↦ none | some e ↦ some e.delivered_ack ]));
  read_ack = flag (coalesce m.read_ack (elim existing [ none ↦ none | some e ↦ some e.read_ack ]));
  delivered_at = coalesce m.delivered_at (elim existing [ none ↦ none | some e ↦ e.delivered_at ]);
  read_at = coalesce m.read_at (elim existing [ none ↦ none | some e ↦ e.read_at ]);
  envelope = m.envelope;
}

-- `if (at !== undefined && !record[field]) record[field] = at`
abbrev fill : Option ℕ → Option ℕ → Option ℕ
fill none old = old
fill (some at) old = if truthy old then old else some at

-- A parked receipt is applied to the record; read implies delivery.
unfoldable pub apply_parked : Option Parked → StoredMessage → StoredMessage
apply_parked none m = m
apply_parked (some p) m =
    let at_delivery = fill p.delivered_at m.delivered_at in
    let at_reading = fill p.read_at m.read_at in
    record m {
      delivered_at =
          if truthy at_reading && not (truthy at_delivery) then at_reading else at_delivery;
      read_at = at_reading;
    }

-- `{ ...record, [field]: at }`, and a reading fills an absent delivery.
unfoldable pub stamp : ReceiptField → ℕ → StoredMessage → StoredMessage
stamp delivered at m = record m { delivered_at = some at }
stamp read at m = record m {
  read_at = some at;
  delivered_at = if truthy m.delivered_at then m.delivered_at else some at;
}

-- `{ ...(deferredReceipts.get(id) ?? {}), [field]: at }`
unfoldable pub park : ReceiptField → ℕ → Option Parked → Parked
park delivered at none = record { delivered_at = some at; read_at = none }
park read at none = record { delivered_at = none; read_at = some at }
park delivered at (some p) = record p { delivered_at = some at }
park read at (some p) = record p { read_at = some at }

module _ (D : Database) where
  -- The object stores, and the module's map `deferredReceipts`.
  pub record Store : Type 0 where
    pub messages : D.messages.Table
    pub conversations : D.conversations.Table
    pub deferred : Dict Parked

  unfoldable pub touch_conversation : String → ℕ → Store → Store
  touch_conversation id updated_at s = elim (D.conversations.get s.conversations id) [
    | none ↦ s
    | some row ↦
        if ltb (or_else row.updated_at 0) updated_at
        then record s {
          conversations =
              D.conversations.put s.conversations (record row { updated_at = some updated_at });
        }
        else s
  ]

  unfoldable pub put_message : IncomingMessage → Store → StoredMessage × Store
  unfolding merge_row apply_parked
  put_message m s =
      let row =
        apply_parked (lookup m.id s.deferred) (merge_row m (D.messages.get s.messages m.id)) in
      (
        row,
        touch_conversation m.conversation_id m.created_at (record s {
          messages = D.messages.put s.messages row;
          deferred = remove m.id s.deferred;
        }),
      )

  unfoldable pub confirm_message : String → IncomingMessage → Store → StoredMessage × Store
  unfolding put_message
  confirm_message temporary_id confirmed s =
      put_message (record confirmed { pending = some false })
        (record s { messages = D.messages.delete s.messages temporary_id })

  -- One id of `markReceipt`: the store, and the ids that were changed.
  unfoldable pub mark_receipt_one : ReceiptField → ℕ → String → Store → List String × Store
  unfolding stamp park
  mark_receipt_one field at id s = elim (D.messages.get s.messages id) [
    | none ↦
        ([], record s { deferred = insert id (park field at (lookup id s.deferred)) s.deferred })
    | some row ↦
        if truthy (stamp_of field row)
        then ([], s)
        else (id ∷ [], record s { messages = D.messages.put s.messages (stamp field at row) })
  ]

  unfoldable pub mark_receipt : List String → ReceiptField → ℕ → Store → List String × Store
  unfolding mark_receipt_one
  mark_receipt [] field at s = ([], s)
  mark_receipt (id ∷ ids) field at s =
      let (changed, t) = mark_receipt_one field at id s in
      let (rest, u) = mark_receipt ids field at t in (changed ++ rest, u)

  -- One id of `markAck`.
  unfoldable pub mark_ack_one : AckField → String → Store → Store
  mark_ack_one field id s = elim (D.messages.get s.messages id) [
    | none ↦ s
    | some row ↦
        if ack_of field row
        then s
        else record s { messages = D.messages.put s.messages (with_ack field row) }
  ]

  unfoldable pub mark_ack : List String → AckField → Store → Store
  unfolding mark_ack_one
  mark_ack [] field s = s
  mark_ack (id ∷ ids) field s = mark_ack ids field (mark_ack_one field id s)

  -- An unread message of the peer.
  abbrev pub is_unread : String → StoredMessage → Bool
  is_unread self m = not m.seen && not (m.sender_id == self)

  -- The cursor of `markSeen`, over the rows that it visits.
  unfoldable pub mark_rows_seen :
      String → List StoredMessage → D.messages.Table → List String × D.messages.Table
  mark_rows_seen self [] t = ([], t)
  mark_rows_seen self (m ∷ ms) t =
      let rest =
        mark_rows_seen self ms
          (if is_unread self m then D.messages.put t (record m { seen = true }) else t) in
      (if is_unread self m then m.id ∷ rest.0 else rest.0, rest.1)

  unfoldable pub mark_seen : String → String → Store → List String × Store
  unfolding mark_rows_seen
  mark_seen conversation_id self s =
      let (marked, t) = mark_rows_seen self (D.rows s.messages conversation_id) s.messages in
      (marked, record s { messages = t })

  abbrev count_unread : String → List StoredMessage → ℕ
  count_unread self [] = 0
  count_unread self (m ∷ ms) = (if is_unread self m then 1 else 0) + count_unread self ms

  unfoldable pub unread_count : String → String → Store → ℕ
  unread_count conversation_id self s = count_unread self (D.rows s.messages conversation_id)

  -- `unsentReceiptIds`: what a sweep of one conversation still has to tell.
  abbrev pub is_unsent : String → AckField → (StoredMessage → Bool) → StoredMessage → Bool
  is_unsent self field extra m =
      not (m.sender_id == self) && (not m.pending && (not (ack_of field m) && extra m))

  abbrev pub collect_unsent : (StoredMessage → Bool) → ℕ → List StoredMessage → List String
  collect_unsent test limit [] = []
  collect_unsent test zero (m ∷ ms) = []
  collect_unsent test (suc n) (m ∷ ms) = elim (test m) [
    | true ↦ m.id ∷ collect_unsent test n ms
    | false ↦ collect_unsent test (suc n) ms
  ]

  unfoldable pub unsent_receipt_ids :
      String → String → AckField → (StoredMessage → Bool) → ℕ → Store → List String
  unsent_receipt_ids conversation_id self field extra limit s =
      collect_unsent (is_unsent self field extra) limit (D.rows s.messages conversation_id)

  unfoldable pub unacknowledged_message_ids : String → String → ℕ → Store → List String
  unfolding unsent_receipt_ids
  unacknowledged_message_ids conversation_id self limit s =
      unsent_receipt_ids conversation_id self delivered_ack (λ m. true) limit s

  unfoldable pub unread_acked_message_ids : String → String → ℕ → Store → List String
  unfolding unsent_receipt_ids
  unread_acked_message_ids conversation_id self limit s =
      unsent_receipt_ids conversation_id self read_ack (λ m. m.seen) limit s
