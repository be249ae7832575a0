-- ===== src/Store/Tests.antt =====
-- The store over rows in lists: runs, and the theorems at concrete rows.
use timber_chat.Prelude.{
  ℕ, ◌≤◌, String, ◌≡◌, refl, none, some, List, [], ◌∷◌, inl, lookup, remove, ne_of_test, arith,
}
use timber_chat.Database.{StoredMessage, SealedEnvelope}
use timber_chat.Database.InMemory.{database}
use timber_chat.Store.{
  IncomingMessage, read, Store, put_message, mark_receipt, mark_seen, touch_conversation,
  unread_count, unacknowledged_message_ids,
}
use timber_chat.Store.Receipts.{SameStore, mark_receipt-put_message}
use timber_chat.Store.Progress.{
  Operation, put, confirm, receipt, see, perform_all, progress_at, perform_all-progress,
}
use timber_chat.Store.Unread.{elsewhere, unread_count-mark_seen}

abbrev sealed : SealedEnvelope
sealed = record { envelope_version = 2; nonce = "n"; ciphertext = "x" }

abbrev incoming : String → String → String → ℕ → IncomingMessage
incoming id conversation sender at = record {
  id = id;
  conversation_id = conversation;
  sender_id = sender;
  created_at = at;
  envelope = sealed;
  pending = none;
  seen = none;
  delivered_ack = none;
  read_ack = none;
  delivered_at = none;
  read_at = none;
}

abbrev empty : Store database
empty = record {
  messages = [];
  conversations = record { id = "c"; updated_at = none; contents = record { n = ""; c = "" } } ∷ [];
  deferred = [];
}

abbrev stored : Store database
stored = (put_message database (incoming "m1" "c" "bob" 7) empty).1

abbrev two : Store database
two = (put_message database (incoming "m2" "d" "bob" 8) stored).1

tests :
    (unread_count database "c" "ann" two ≡ 1)
    × (unread_count database "c" "bob" two ≡ 0)
    × (unacknowledged_message_ids database "d" "ann" 500 two ≡ "m2" ∷ [])
    × ((mark_seen database "c" "ann" two).0 ≡ "m1" ∷ [])
unfolding unread_count put_message unacknowledged_message_ids mark_seen lookup remove
    touch_conversation
tests = (refl, refl, refl, refl)

mark_receipt-put_message_example :
    SameStore database
      (put_message database
        (incoming "m1" "c" "ann" 7)
        (mark_receipt database ("m1" ∷ []) read 9 empty).1).1
      (mark_receipt database
        ("m1" ∷ [])
        read
        9
        (put_message database (incoming "m1" "c" "ann" 7) empty).1).1
unfolding lookup
mark_receipt-put_message_example =
    mark_receipt-put_message database read 9 (incoming "m1" "c" "ann" 7) empty (omega arith)
      (λ e. cc) refl refl

abbrev other_row : StoredMessage
other_row = (put_message database (incoming "m2" "d" "bob" 8) stored).0

other_row_stands : database.messages.get two.messages "m2" ≡ some other_row
unfolding put_message touch_conversation lookup remove
other_row_stands = refl

abbrev history : List Operation
history =
    receipt ("m1" ∷ []) read 9
    ∷ see "c" "ann"
    ∷ put (incoming "m1" "c" "bob" 7)
    ∷ confirm "pending-1" (incoming "m3" "c" "ann" 9)
    ∷ []

perform_all-progress_example :
    progress_at database "m1" two ≤ progress_at database "m1" (perform_all database history two)
perform_all-progress_example = perform_all-progress database "m1" history two (
  tt,
  (tt, ((refl, inl refl, inl refl), ((ne_of_test "pending-1" "m1" refl, inl refl, inl refl), tt))),
)

unread_count-mark_seen_example :
    (unread_count database "c" "ann" (mark_seen database "c" "ann" two).1 ≡ 0)
    × (elsewhere database "c" "ann"
          (database.messages.get (mark_seen database "c" "ann" two).1.messages "m2")
        ≡ elsewhere database "c" "ann" (database.messages.get two.messages "m2"))
unread_count-mark_seen_example = unread_count-mark_seen database "c" "ann" two "m2"
