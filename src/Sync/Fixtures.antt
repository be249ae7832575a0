-- ===== src/Sync/Fixtures.antt =====
-- A device in memory with one thread, and a view that shows nothing yet, for the runs.
use timber_chat.Prelude.{ℕ, String, false, none, some, []}
use timber_chat.Database.{SealedEnvelope}
use timber_chat.ChatStore.{Shapes, ChatStore}
use timber_chat.Contacts.{PeerProfile, Archive, Self, Conversation}
use timber_chat.Contacts.InMemory.{device}
use timber_chat.Contacts.Peers.{write_peer}
use timber_chat.Contacts.Conversations.{write_conversation}
use timber_chat.Sync.Backfill.{ServerMessage}

abbrev pub shapes : Shapes
shapes = record {
  User = String;
  Ladder = String;
  Friend = String;
  Request = String;
  Streak = String;
  LevelUp = String;
}

abbrev pub ann : Self
ann = record { user_id = "ann"; kex_sk = "s" }

abbrev pub as_it_is : ℕ → ℕ
as_it_is t = t

abbrev pub thread : Conversation
thread = record {
  id = "c";
  peer_id = some "bob";
  peer_username = some "Bob";
  peer_level = none;
  peer_level_name = none;
  created_at = some 5;
  updated_at = some 5;
  security_error = none;
  draft = none;
}

abbrev pub empty : Archive device
empty = record {
  store = record { messages = []; conversations = []; deferred = [] };
  peers = [];
  metas = [];
  keys = [];
  drawn = 0;
}

-- `bob k s` publishes the key `k` with the signature `s`.
abbrev pub bob : (kex_pk signature : String) → PeerProfile
bob kex_pk signature = record {
  id = "bob";
  username = "Bob";
  level = none;
  level_name = none;
  identity_pk = "ik";
  kex_pk = kex_pk;
  kex_key_signature = signature;
}

-- The thread is here, and its peer's key is not.
unfoldable pub keyless : Archive device
unfolding write_conversation
keyless = write_conversation device (some 5) thread empty

unfoldable pub ready : Archive device
unfolding write_peer keyless
ready = write_peer device (bob "k1" "signed") keyless

abbrev pub envelope : SealedEnvelope
envelope = record { envelope_version = 2; nonce = "n"; ciphertext = "hello" }

abbrev pub blank : ChatStore shapes
blank = record {
  me = none;
  ladder = none;
  conversations = [];
  messages = [];
  unread = [];
  active_conversation_id = none;
  friends = [];
  pending_received = [];
  pending_sent = [];
  typing = [];
  online_users = [];
  level_up = none;
  streaks = [];
  syncing = false;
  call_active = false;
}

abbrev pub message : (id sender_id : String) → ServerMessage
message id sender_id = record {
  id = id;
  conversation_id = "c";
  sender_id = sender_id;
  created_at = 7;
  envelope = envelope;
  delivered_at = none;
  read_at = none;
}
