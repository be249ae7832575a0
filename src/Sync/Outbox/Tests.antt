-- ===== src/Sync/Outbox/Tests.antt =====
-- A message that is composed on a device in memory.
use timber_chat.Prelude.{◌≡◌, true, false, refl, none, some, lookup, map, All}
use timber_chat.Database.{StoredMessage, IsIn, IsOrdered}
use timber_chat.ChatStore.{ChatStore}
use timber_chat.Contacts.{Archive}
use timber_chat.Contacts.InMemory.{device}
use timber_chat.Envelope.Plain.{plain_text}
use timber_chat.Store.{put_message, touch_conversation}
use timber_chat.Contacts.Conversations.{key_for_conversation}
use timber_chat.Envelope.{conversation_key, seal}
use timber_chat.Threads.{pending_messages, compose_message}
use timber_chat.Sync.Fixtures.{shapes, ann, as_it_is, ready, blank, message, envelope}
use timber_chat.Sync.Inbox.Arrivals.{store_received}
use timber_chat.Sync.Outbox.{frame_of, flush_outbox, Prepared, prepare_outgoing_payload}
use timber_chat.Sync.Outbox.Resent.{IsFront, flush_outbox_lem}
use timber_chat.Sync.Outbox.Echo.{prepare_outgoing_payload-store_received}

abbrev prepared : Prepared
prepared = record { client_id = "pending-1"; envelope = envelope }

unfoldable after : Archive device × ChatStore shapes
unfolding prepare_outgoing_payload ready
after = (prepare_outgoing_payload device shapes ann "c" (plain_text "hello") "1" 7 (ready, blank)).1

prepare_outgoing_payload-store_received_example :
    ((row : StoredMessage) × IsIn row (pending_messages device after.0)
      × (row.id ≡ "pending-1")
      × (row.conversation_id ≡ "c")
      × (row.envelope ≡ envelope))
    × (device.database.messages.get
          (store_received device shapes ann as_it_is 9
            (some "pending-1")
            true
            (message "m1" "ann")
            after.0).store.messages
          "pending-1"
        ≡ none)
unfolding after compose_message key_for_conversation conversation_key lookup seal
prepare_outgoing_payload-store_received_example =
    prepare_outgoing_payload-store_received device ann shapes as_it_is 9 "c" "1"
      (plain_text "hello") 7 (ready, blank) after prepared true (message "m1" "ann") refl refl refl

abbrev waiting : StoredMessage
waiting = record {
  id = "pending-1";
  conversation_id = "c";
  sender_id = "ann";
  created_at = 7;
  pending = true;
  seen = false;
  delivered_ack = false;
  read_ack = false;
  delivered_at = none;
  read_at = none;
  envelope = envelope;
}

flush_outbox_lem_example :
    IsIn waiting (pending_messages device after.0)
    × IsOrdered (pending_messages device after.0)
    × All
        (λ n.
          (device.database.messages.get after.0.store.messages n.id ≡ some n) × (n.pending ≡ true))
        (pending_messages device after.0)
    × IsFront
        (flush_outbox device (λ _. false) after.0)
        (map frame_of (pending_messages device after.0))
    × (flush_outbox device (λ _. true) after.0 ≡ map frame_of (pending_messages device after.0))
unfolding after compose_message key_for_conversation conversation_key lookup seal put_message
    touch_conversation
flush_outbox_lem_example = flush_outbox_lem device (λ _. false) after.0 waiting refl refl
