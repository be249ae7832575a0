-- ===== src/Contacts/Tests.antt =====
-- Deleting a conversation of a device in memory.
use timber_chat.Prelude.{String, false, ◌≡◌, none, some, [], ◌∷◌}
use timber_chat.Database.{StoredMessage, ConversationRow}
use timber_chat.Contacts.{Archive}
use timber_chat.Contacts.InMemory.{device}
use timber_chat.Contacts.Conversations.{delete_conversation}
use timber_chat.Contacts.Conversations.Deletion.{delete_conversation_lem}

abbrev message : String → String → StoredMessage
message id conversation_id = record {
  id = id;
  conversation_id = conversation_id;
  sender_id = "bob";
  created_at = 7;
  pending = false;
  seen = false;
  delivered_ack = false;
  read_ack = false;
  delivered_at = none;
  read_at = none;
  envelope = record { envelope_version = 2; nonce = "n"; ciphertext = "hello" };
}

abbrev kept_row : ConversationRow
kept_row = record { id = "d"; updated_at = none; contents = record { n = ""; c = "" } }

abbrev two_threads : Archive device
two_threads = record {
  store = record {
    messages = message "m1" "c" ∷ message "d" "d" ∷ [];
    conversations = kept_row ∷ [];
    deferred = [];
  };
  peers = [];
  metas = [];
  keys = [];
  drawn = 0;
}

delete_conversation_lem_example :
    let after = (delete_conversation device "c" none two_threads).store in
    (device.database.messages.get after.messages "d" ≡ some (message "d" "d"))
    × (device.database.rows after.messages "c" ≡ [])
    × (device.database.conversations.get after.conversations "d" ≡ some kept_row)
delete_conversation_lem_example = delete_conversation_lem device "c" none two_threads "d"
