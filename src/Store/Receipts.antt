-- ===== src/Store/Receipts.antt =====
-- Receipts that overtake their message, and receipts that never go back.
use timber_chat.Prelude.{
  ℕ, ◌<◌, String, true, Option, none, some, [], ◌∷◌, ◌≡◌, refl, ap, ◌∙◌, lookup, insert, remove,
  truthy, lookup-insert, lookup-remove, arith, eq_iff, eq_refl, if◌then◌else◌, ◌==◌,
}
use timber_chat.Database.{StoredMessage, Database}
use timber_chat.Store.{
  IncomingMessage, ReceiptField, delivered, read, Parked, stamp_of, stamp, park, apply_parked,
  merge_row, Store, touch_conversation, put_message, mark_receipt_one, mark_receipt,
}

-- Read implies delivered, as the relay sends it.
abbrev pub IsCoherent : IncomingMessage → Type 0
IsCoherent m = truthy m.read_at ≡ true → truthy m.delivered_at ≡ true

apply_parked-park :
    (field : ReceiptField) (at : ℕ) (row : StoredMessage)
    → 0 < at
    → (truthy row.read_at ≡ true → truthy row.delivered_at ≡ true)
    → apply_parked (some (park field at none)) row
      ≡ (if truthy (stamp_of field row) then row else stamp field at row)
unfolding apply_parked park stamp
apply_parked-park delivered at row pos h = ground arith
apply_parked-park read at row pos h = ground arith

merge_row-coherent :
    (m : IncomingMessage)
    → IsCoherent m
    → truthy (merge_row m none).read_at ≡ true
    → truthy (merge_row m none).delivered_at ≡ true
unfolding merge_row
merge_row-coherent m h e = ground (arith, h)

marked-id :
    (field : ReceiptField) (at : ℕ) (row : StoredMessage)
    → (if truthy (stamp_of field row) then row else stamp field at row).id ≡ row.id
unfolding stamp
marked-id delivered at row = ground arith
marked-id read at row = ground arith

get_put_over :
    (D : Database) (t : D.messages.Table) (a b : StoredMessage) (id k : String)
    → a.id ≡ id
    → b.id ≡ id
    → D.messages.get (D.messages.put t a) k
      ≡ (if id == k then some a else D.messages.get (D.messages.put t b) k)
get_put_over D t a b id k e f =
    ground (arith, e, f, D.messages.get-put t a k, D.messages.get-put t b k)

pub apply_parked-id :
    (p : Option Parked) (m : IncomingMessage) (e : Option StoredMessage)
    → (apply_parked p (merge_row m e)).id ≡ m.id
unfolding apply_parked merge_row
apply_parked-id none m e = refl
apply_parked-id (some p) m e = refl

-- Two stores that answer every query alike.
pub record SameStore (D : Database) (s t : Store D) : Type 0 where
  pub messages : (k : String) → D.messages.get s.messages k ≡ D.messages.get t.messages k
  pub deferred : (k : String) → lookup k s.deferred ≡ lookup k t.deferred
  pub conversations : s.conversations ≡ t.conversations

module _ (D : Database) where
  touch-messages :
      (id : String) (at : ℕ) (s : Store D) → (touch_conversation D id at s).messages ≡ s.messages
  unfolding touch_conversation
  touch-messages id at s = ground arith

  touch-deferred :
      (id : String) (at : ℕ) (s : Store D) → (touch_conversation D id at s).deferred ≡ s.deferred
  unfolding touch_conversation
  touch-deferred id at s = ground arith

  touch-conversations :
      (id : String) (at : ℕ) (s t : Store D)
      → s.conversations ≡ t.conversations
      → (touch_conversation D id at s).conversations ≡ (touch_conversation D id at t).conversations
  unfolding touch_conversation
  touch-conversations id at s t h = ground arith

  pub put_message-messages :
      (m : IncomingMessage) (s : Store D)
      → (put_message D m s).1.messages
        ≡ D.messages.put s.messages
            (apply_parked (lookup m.id s.deferred) (merge_row m (D.messages.get s.messages m.id)))
  unfolding put_message
  put_message-messages m s = touch-messages m.conversation_id m.created_at _

  put_message-deferred :
      (m : IncomingMessage) (s : Store D) → (put_message D m s).1.deferred ≡ remove m.id s.deferred
  unfolding put_message
  put_message-deferred m s = touch-deferred m.conversation_id m.created_at _

  put_message-conversations :
      (m : IncomingMessage) (s t : Store D)
      → s.conversations ≡ t.conversations
      → (put_message D m s).1.conversations ≡ (put_message D m t).1.conversations
  unfolding put_message
  put_message-conversations m s t h = touch-conversations m.conversation_id m.created_at _ _ h

  mark_receipt_one_absent :
      (field : ReceiptField) (at : ℕ) (id : String) (s : Store D)
      → D.messages.get s.messages id ≡ none
      → lookup id s.deferred ≡ none
      → (mark_receipt_one D field at id s).1
        ≡ record s { deferred = insert id (park field at none) s.deferred }
  unfolding mark_receipt_one
  mark_receipt_one_absent field at id s h p = ground arith

  -- What `markReceipt` does to the row of one id that is there.
  pub mark_receipt_one_present :
      (field : ReceiptField) (at : ℕ) (id : String) (s : Store D) (row : StoredMessage)
      → D.messages.get s.messages id ≡ some row
      → (k : String)
      → D.messages.get (mark_receipt_one D field at id s).1.messages k ≡ (
          if id == k
          then some (if truthy (stamp_of field row) then row else stamp field at row)
          else D.messages.get s.messages k)
  unfolding mark_receipt_one
  mark_receipt_one_present delivered at id s row h k = ground (
    arith,
    D.messages.get-put s.messages (stamp delivered at row) k,
    D.messages.get_key s.messages id row h,
    eq_iff id k,
  )
  mark_receipt_one_present read at id s row h k = ground (
    arith,
    D.messages.get-put s.messages (stamp read at row) k,
    D.messages.get_key s.messages id row h,
    eq_iff id k,
  )

  mark_receipt_one_rest :
      (field : ReceiptField) (at : ℕ) (id : String) (s : Store D) (row : StoredMessage)
      → D.messages.get s.messages id ≡ some row
      → ((mark_receipt_one D field at id s).1.deferred ≡ s.deferred)
        × ((mark_receipt_one D field at id s).1.conversations ≡ s.conversations)
  unfolding mark_receipt_one
  mark_receipt_one_rest field at id s row h = ground arith

  -- A receipt for a message that is not stored yet is parked, and storing the message applies it:
  -- the store is the one that the other order gives. The receipt's time is not 0, and a read mark on
  -- the message itself comes with a delivery mark.
  pub mark_receipt-put_message :
      (field : ReceiptField) (at : ℕ) (m : IncomingMessage) (s : Store D)
      → 0 < at
      → IsCoherent m
      → D.messages.get s.messages m.id ≡ none
      → lookup m.id s.deferred ≡ none
      → SameStore D
          (put_message D m (mark_receipt D (m.id ∷ []) field at s).1).1
          (mark_receipt D (m.id ∷ []) field at (put_message D m s).1).1
  unfolding mark_receipt
  mark_receipt-put_message field at m s pos coherent absent unparked =
      let parked : Store D = record s { deferred = insert m.id (park field at none) s.deferred } in
      let first : (mark_receipt_one D field at m.id s).1 ≡ parked =
        mark_receipt_one_absent field at m.id s absent unparked in
      let row : StoredMessage = merge_row m none in
      let merge_row-id : row.id ≡ m.id = unfold merge_row in refl in
      let put_late : (put_message D m s).1.messages ≡ D.messages.put s.messages row =
        put_message-messages m s ∙ (rw (absent, unparked) (unfold apply_parked in refl)) in
      let there : D.messages.get (put_message D m s).1.messages m.id ≡ some row =
        rw (put_late, D.messages.get-put) (unfold merge_row in rw eq_refl refl) in
      let marked : StoredMessage =
        if truthy (stamp_of field row) then row else stamp field at row in
      let put_early : (put_message D m parked).1.messages ≡ D.messages.put s.messages marked =
        put_message-messages m parked
        ∙ (rw (absent, lookup-insert, eq_refl)
            (ap (D.messages.put s.messages)
              (apply_parked-park field at row pos (merge_row-coherent m coherent)))) in
      let (same_deferred, same_conversations) =
        mark_receipt_one_rest field at m.id (put_message D m s).1 row there in
      record {
        messages = λ k.
            rw
              (
                first,
                put_early,
                mark_receipt_one_present field at m.id (put_message D m s).1 row there k,
                put_late,
              )
              (get_put_over D s.messages marked row m.id k (marked-id field at row ∙ merge_row-id)
                merge_row-id);
        deferred = λ k.
            rw
              (
                first, same_deferred, put_message-deferred, put_message-deferred, lookup-remove,
                lookup-remove, lookup-insert,
              )
              (ground arith);
        conversations = rw (first, same_conversations) (put_message-conversations m parked s refl);
      }
