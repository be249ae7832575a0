-- ===== src/Contacts/InMemory.antt =====
-- A device that keeps its rows in lists and seals without a secret: what is asked of one can be met.
use timber_chat.Prelude.{◌==◌, ◌∙◌}
use timber_chat.Database.{message_key, conversation_key}
use timber_chat.Database.InMemory.{
  database, object_store, current, current_sound, get-current, IsIn-get,
}
use timber_chat.Envelope.Plain.{suite}
use timber_chat.Contacts.{Device, peer_key, meta_key}
use timber_chat.Contacts.Columns.{peer_sealer, conversation_sealer, note_sealer}

-- A profile is signed when its signature says so.
abbrev pub device : Device
device = record {
  database = database;
  peers = object_store peer_key;
  metas = object_store meta_key;
  all_peers = current peer_key;
  all_conversations = current conversation_key;
  all_messages = current message_key;
  all_conversations_sound = current_sound conversation_key;
  all_messages_sound = current_sound message_key;
  all_messages_complete = λ t m h.
      IsIn-get message_key (current message_key t) m.id m (get-current message_key t m.id ∙ h);
  peer_sealer = peer_sealer;
  conversation_sealer = conversation_sealer;
  note_sealer = note_sealer;
  suite = suite;
  is_bound = λ p. p.kex_key_signature == "signed";
  nonce = λ n. "n";
}
