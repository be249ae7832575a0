-- ===== src/Sync/Sweep/Opened.antt =====
-- `markConversationRead`: the badge does not wait for the network.
use timber_chat.Prelude.{
  String, Bool, ◌≡◌, inl, inr, refl, Option, none, some, List, [], ◌∷◌, arith, lookup,
  lookup-insert, eq_refl, Bool-cases, Option-cases, All-map,
}
use timber_chat.Database.{StoredMessage, Database}
use timber_chat.Store.{Store, AckField, delivered_ack, read_ack, mark_ack, mark_seen, unread_count}
use timber_chat.Store.Unread.{IsSettled, mark_seen-IsSettled, count_unread-zero}
use timber_chat.ChatStore.{Shapes, ChatStore, clear_unread}
use timber_chat.Sync.Sweep.{sweep_receipts, acknowledge_read, mark_conversation_read}
use timber_chat.Sync.Sweep.Told.{acked, get-mark_ack}

module _ (D : Database) (c self : String) where
  acked-IsSettled :
      (ids : List String) (field : AckField) (k : String) (o : Option StoredMessage)
      → IsSettled D c self o
      → IsSettled D c self (acked ids field k o)
  acked-IsSettled ids field k none h m e same = h m e same
  acked-IsSettled ids delivered_ack k (some row) h m e same = ground (arith, e, h row refl, same)
  acked-IsSettled ids read_ack k (some row) h m e same = ground (arith, e, h row refl, same)

  module _ (emit : (event conversation_id : String) (message_ids : List String) → Bool)
      (post : (conversation_id : String) (message_ids : List String) → Bool) where
    -- A sweep changes no row's `seen`.
    swept-IsSettled :
        (d : String) (ids : List String) (event : String) (field : AckField)
        (fallback : Option (String → List String → Bool)) (s : Store D)
        → ((k : String) → IsSettled D c self (D.messages.get s.messages k))
        → (k : String)
        → IsSettled D c self
            (D.messages.get (sweep_receipts D emit post d ids event field fallback s).1.messages k)
    unfolding sweep_receipts
    swept-IsSettled d [] event field fallback s h k = h k
    swept-IsSettled d (id ∷ ids) event field fallback s h k =
        let marked : IsSettled D c self
            (D.messages.get (mark_ack D (id ∷ ids) field s).messages k) =
          rw (get-mark_ack D field (id ∷ ids) k s)
            (acked-IsSettled (id ∷ ids) field k (D.messages.get s.messages k) (h k)) in
        elim (Bool-cases (emit event d (id ∷ ids))) [
          | inl e ↦ rw e marked
          | inr e ↦ elim (Option-cases fallback) [
            | inl f ↦ rw (e, f) (h k)
            | inr (post_it, f) ↦ elim (Bool-cases (post_it d (id ∷ ids))) [
              | inl e' ↦ rw (e, f, e') marked
              | inr e' ↦ rw (e, f, e') (h k)
            ]
          ]
        ]

-- Opening a conversation clears its badge, in the database and in the view, whether or not the socket
-- or the request takes the receipt.
pub mark_conversation_read_lem :
    (D : Database) (emit : (event conversation_id : String) (message_ids : List String) → Bool)
    (post : (conversation_id : String) (message_ids : List String) → Bool) (X : Shapes)
    (c self : String) (s : Store D) (view : ChatStore X)
    → (unread_count D c self (mark_conversation_read D emit post X c self s view).1 ≡ 0)
      × (lookup c (mark_conversation_read D emit post X c self s view).2.unread ≡ some 0)
unfolding mark_conversation_read unread_count acknowledge_read clear_unread
mark_conversation_read_lem D emit post X c self s view =
    let seen = (mark_seen D c self s).1 in
    let after = (acknowledge_read D emit post c self seen).1 in
    let settled : (k : String) → IsSettled D c self (D.messages.get after.messages k) =
      swept-IsSettled D c self emit post c _ "receipt.read" read_ack (some post) seen
        (mark_seen-IsSettled D c self s) in
    (
      count_unread-zero D c self (D.rows after.messages c) (
          All-map _ _ (λ m h. settled m.id m h.0 h.1) (D.rows after.messages c)
            (D.rows_sound after.messages c)),
      rw (lookup-insert, eq_refl) refl,
    )
