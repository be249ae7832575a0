-- ===== src/Store/Rows.antt =====
-- What `putMessage` leaves under each key, and which columns are the message's own.
use timber_chat.Prelude.{
  String, ◌≡◌, refl, ap, ◌∙◌, Option, none, some, lookup, ◌==◌, if◌then◌else◌,
}
use timber_chat.Database.{StoredMessage, Database}
use timber_chat.Store.{IncomingMessage, Parked, flag, apply_parked, merge_row, Store, put_message}
use timber_chat.Store.Receipts.{put_message-messages}

-- The columns that neither a parked receipt nor the row that was there changes.
pub record IsRowOf (m : IncomingMessage) (row : StoredMessage) : Type 0 where
  pub id : row.id ≡ m.id
  pub conversation_id : row.conversation_id ≡ m.conversation_id
  pub sender_id : row.sender_id ≡ m.sender_id
  pub pending : row.pending ≡ flag m.pending
  pub envelope : row.envelope ≡ m.envelope

apply_parked-IsRowOf :
    (o : Option Parked) (m : IncomingMessage) (e : Option StoredMessage)
    → IsRowOf m (apply_parked o (merge_row m e))
unfolding apply_parked merge_row
apply_parked-IsRowOf none m e = record {
  id = refl;
  conversation_id = refl;
  sender_id = refl;
  pending = refl;
  envelope = refl;
}
apply_parked-IsRowOf (some p) m e = record {
  id = refl;
  conversation_id = refl;
  sender_id = refl;
  pending = refl;
  envelope = refl;
}

module _ (D : Database) where
  pub put_message-IsRowOf : (m : IncomingMessage) (s : Store D) → IsRowOf m (put_message D m s).0
  unfolding put_message
  put_message-IsRowOf m s =
      apply_parked-IsRowOf (lookup m.id s.deferred) m (D.messages.get s.messages m.id)

  pub get-put_message :
      (m : IncomingMessage) (s : Store D) (k : String)
      → D.messages.get (put_message D m s).1.messages k
        ≡ (if m.id == k then some (put_message D m s).0 else D.messages.get s.messages k)
  unfolding put_message
  get-put_message m s k =
      let row =
        apply_parked (lookup m.id s.deferred) (merge_row m (D.messages.get s.messages m.id)) in
      ap (λ t. D.messages.get t k) (put_message-messages D m s)
      ∙ D.messages.get-put s.messages row k
      ∙ ap (λ i. if i == k then some row else D.messages.get s.messages k)
          (put_message-IsRowOf m s).id
