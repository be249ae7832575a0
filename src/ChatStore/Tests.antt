-- ===== src/ChatStore/Tests.antt =====
-- The view store at concrete threads.
use timber_chat.Prelude.{
  ℕ, String, true, false, ◌≡◌, refl, none, some, [], ◌∷◌, lookup, remove, map, arith,
}
use timber_chat.Database.{StoredMessage}
use timber_chat.Database.InMemory.{database}
use timber_chat.Presentation.{ConversationMessage, undecryptable, waiting_for_key, Base, base_of}
use timber_chat.Presentation.Order.{message_id}
use timber_chat.Store
use timber_chat.Store.{read, Store}
use timber_chat.ChatStore.{
  Shapes, ChatStore, Conversation, remove_conversation, appended, mark_message,
}
use timber_chat.ChatStore.Ticks.{ticked, base_of_row, ticks_agree}

abbrev shapes : Shapes
shapes = record { User = ℕ; Ladder = ℕ; Friend = ℕ; Request = ℕ; Streak = ℕ; LevelUp = ℕ }

abbrev base_at : String → ℕ → Base
base_at id at = record {
  id = id;
  conversation_id = "c";
  sender_id = "ann";
  created_at = at;
  delivered_at = none;
  read_at = none;
  pending = false;
  seen = true;
}

abbrev bubble : String → ℕ → ConversationMessage
bubble id at = undecryptable (base_at id at) waiting_for_key

abbrev row : String → String → Conversation
row id peer = record { id = id; peer_id = peer; preview = none; unread = 2 }

abbrev opened : ChatStore shapes
opened = record {
  me = some 1;
  ladder = none;
  conversations = row "c" "bob" ∷ row "d" "eve" ∷ [];
  messages = ("c", bubble "m1" 5 ∷ bubble "pending-1" 9 ∷ []) ∷ ("d", bubble "m9" 3 ∷ []) ∷ [];
  unread = ("c", 2) ∷ ("d", 2) ∷ [];
  active_conversation_id = some "c";
  friends = [];
  pending_received = [];
  pending_sent = [];
  typing = ("c", "bob") ∷ [];
  online_users = [];
  level_up = none;
  streaks = [];
  syncing = false;
  call_active = false;
}

tests :
    (map message_id (
        appended
          (some "pending-1")
          (bubble "m2" 7)
          (bubble "m1" 5 ∷ bubble "pending-1" 9 ∷ bubble "m3" 8 ∷ []))
      ≡ "m1" ∷ "m2" ∷ "m3" ∷ [])
    × (lookup "d" (remove_conversation shapes "c" opened).unread ≡ some 2)
unfolding appended remove_conversation lookup remove
tests = (refl, refl)

abbrev stored : StoredMessage
stored = record {
  id = "m1";
  conversation_id = "c";
  sender_id = "ann";
  created_at = 5;
  envelope = record { envelope_version = 2; nonce = "n"; ciphertext = "x" };
  pending = false;
  seen = true;
  delivered_ack = false;
  read_ack = false;
  delivered_at = none;
  read_at = none;
}

abbrev holding : Store database
holding = record { messages = stored ∷ []; conversations = []; deferred = [] }

ticks_agree_example :
    (row' : StoredMessage) × (database.messages.get
        (Store.mark_receipt database ("m1" ∷ []) read 8 holding).1.messages
        "m1"
      ≡ some row')
    × (ticked (base_of (mark_message ("m1" ∷ []) read 9 (bubble "m1" 5)))
        ≡ ticked (base_of_row row'))
unfolding base_of_row
ticks_agree_example =
    ticks_agree database read 8 9 ("m1" ∷ []) holding stored (bubble "m1" 5) (omega arith)
      (omega arith) refl refl
