-- ===== src/Sync/Sweep.antt =====
-- `sweepReceipts`, `acknowledgeDelivery`, `acknowledgeRead` and `markConversationRead` of
-- frontend/src/lib/sync.js. What the socket takes and whether a request succeeds are parameters.
pub mod Told
pub mod Opened
pub mod Once
use timber_chat.Prelude.{
  ℕ, String, Bool, true, false, Option, none, some, List, [], ◌∷◌, length, if◌then◌else◌,
}
use timber_chat.Database.{Database}
use timber_chat.Store.{
  Store, AckField, delivered_ack, read_ack, mark_ack, mark_seen, unacknowledged_message_ids,
  unread_acked_message_ids,
}
use timber_chat.ChatStore.{Shapes, ChatStore, clear_unread}

-- `limit = 500` of the id queries.
abbrev pub sweep_limit : ℕ
sweep_limit = 500

module _ (D : Database) (emit : (event conversation_id : String) (message_ids : List String) → Bool)
    (post_read_receipts : (conversation_id : String) (message_ids : List String) → Bool) where
  unfoldable pub sweep_receipts :
      String
      → List String
      → (event : String) → AckField
      → Option (String → List String → Bool)
      → Store D
      → ℕ × Store D
  sweep_receipts conversation_id [] event field fallback s = (0, s)
  sweep_receipts conversation_id (id ∷ ids) event field fallback s =
      let sent : ℕ × Store D = (length (id ∷ ids), mark_ack D (id ∷ ids) field s) in
      if emit event conversation_id (id ∷ ids) then sent else elim fallback [
        | none ↦ (0, s)
        | some post ↦ if post conversation_id (id ∷ ids) then sent else (0, s)
      ]

  unfoldable pub acknowledge_delivery : String → String → Store D → ℕ × Store D
  unfolding sweep_receipts
  acknowledge_delivery conversation_id self s =
      sweep_receipts conversation_id
        (unacknowledged_message_ids D conversation_id self sweep_limit s) "receipt.delivered"
        delivered_ack none s

  unfoldable pub acknowledge_read : String → String → Store D → ℕ × Store D
  unfolding sweep_receipts
  acknowledge_read conversation_id self s =
      sweep_receipts conversation_id (unread_acked_message_ids D conversation_id self sweep_limit s)
        "receipt.read" read_ack (some post_read_receipts) s

  -- The database and the view: seen here first, and then the sender is told.
  unfoldable pub mark_conversation_read :
      (X : Shapes) → String → String → Store D → ChatStore X → ℕ × Store D × ChatStore X
  unfolding acknowledge_read
  mark_conversation_read X conversation_id self s view =
      let swept = acknowledge_read conversation_id self (mark_seen D conversation_id self s).1 in
      (swept.0, swept.1, clear_unread X conversation_id view)
