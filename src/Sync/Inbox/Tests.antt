-- ===== src/Sync/Inbox/Tests.antt =====
-- A message that comes in on a device in memory.
use timber_chat.Prelude.{
  true, false, refl, none, some, [], ◌∷◌, ◌≡◌, map, or_else, lookup, insert, remove,
}
use timber_chat.Presentation.Order.{message_id}
use timber_chat.Presentation.{ConversationMessage, undecryptable, waiting_for_key, present_messages}
use timber_chat.Store.{put_message, touch_conversation}
use timber_chat.ChatStore.{ChatStore, prepend_messages}
use timber_chat.Contacts.{Archive}
use timber_chat.Contacts.InMemory.{device}
use timber_chat.Contacts.Conversations.{get_conversation, key_for_conversation, list_conversations}
use timber_chat.Threads.{messages_for}
use timber_chat.Sync.Fixtures.{shapes, ann, as_it_is, keyless, blank, message, envelope}
use timber_chat.Sync.Inbox.Arrivals.{Arrival, receive_message}
use timber_chat.Database.{StoredMessage}
use timber_chat.Sync.Inbox.{load_older}
use timber_chat.Sync.Inbox.Received.{InStep, IsStored, receive_message_lem}

abbrev before : Archive device × ChatStore shapes
before = (keyless, blank)

-- The message has no key yet, so its bubble waits.
abbrev told : Arrival
told = record {
  is_active = false;
  mine = false;
  message = some (
      undecryptable
        (record {
          id = "m1";
          conversation_id = "c";
          sender_id = "bob";
          created_at = 7;
          delivered_at = none;
          read_at = none;
          pending = false;
          seen = false;
        })
        waiting_for_key);
}

unfoldable after : Archive device × ChatStore shapes
unfolding receive_message
after = (receive_message device shapes ann as_it_is 9 none true none (message "m1" "bob") before).1

receive_message_lem_example :
    IsStored device shapes ann as_it_is 9 (message "m1" "bob") after.0.store
    × InStep device shapes ann as_it_is 9 "c" after
unfolding after keyless present_messages lookup insert remove get_conversation messages_for
    key_for_conversation put_message touch_conversation list_conversations
receive_message_lem_example =
    receive_message_lem device shapes ann as_it_is 9 none true none (message "m1" "bob") before
      after told refl

abbrev old_row : StoredMessage
old_row = record {
  id = "m0";
  conversation_id = "c";
  sender_id = "bob";
  created_at = 3;
  pending = false;
  seen = true;
  delivered_ack = true;
  read_ack = true;
  delivered_at = none;
  read_at = none;
  envelope = envelope;
}

abbrev bubble : ConversationMessage
bubble =
    undecryptable
      (record {
        id = "m1";
        conversation_id = "c";
        sender_id = "bob";
        created_at = 7;
        delivered_at = none;
        read_at = none;
        pending = false;
        seen = false;
      })
      waiting_for_key

unfoldable kept : Archive device
unfolding keyless
kept = record keyless { store = record keyless.store { messages = old_row ∷ [] } }

abbrev showing : ChatStore shapes
showing = record blank { messages = ("c", bubble ∷ []) ∷ [] }

unfoldable older : Archive device × ChatStore shapes
unfolding load_older kept
older = (load_older device shapes ann as_it_is 9 "c" (kept, showing)).1

-- The older row comes before the bubble that is shown.
tests_older : map message_id (or_else (lookup "c" older.1.messages) []) ≡ "m0" ∷ "m1" ∷ []
unfolding older present_messages lookup insert messages_for key_for_conversation prepend_messages
tests_older = refl
