-- ===== src/Sync/Conversations/Tests.antt =====
-- Profiles as a relay may publish them, mirrored on a device in memory.
use timber_chat.Prelude.{ℕ, String, ◌≡◌, true, refl, none, some, [], ◌∷◌}
use timber_chat.Presentation.{delete}
use timber_chat.Contacts.{
  PeerProfile, Conversation, Archive, Self, unverified_key, not_ready, returned, threw,
}
use timber_chat.Contacts.InMemory.{device}
use timber_chat.Contacts.Peers.{put_peer, delete_peer}
use timber_chat.Contacts.Peers.Pins.{pin_of, keys_of, is_trusted}
use timber_chat.Contacts.Conversations.{upsert_conversation}
use timber_chat.Threads.{compose_message}
use timber_chat.Sync.Conversations.{
  ServerConversation, trust_peer, sync_one, sync_all, security_message,
}
use timber_chat.Sync.Conversations.Pinned.{
  sync_all-pins, sync_all-is_trusted, trust_peer-trust_peer,
}
use timber_chat.Sync.Conversations.Blocked.{compose_message-sync_one}

abbrev bob : (kex_pk signature : String) → PeerProfile
bob kex_pk signature = record {
  id = "bob";
  username = "Bob";
  level = none;
  level_name = none;
  identity_pk = "ik";
  kex_pk = kex_pk;
  kex_key_signature = signature;
}

abbrev listed : PeerProfile → ServerConversation
listed p = record { id = "c"; peer = p; created_at = 5; last_message_at = some 9 }

abbrev as_it_is : ℕ → ℕ
as_it_is t = t

abbrev empty : Archive device
empty = record {
  store = record { messages = []; conversations = []; deferred = [] };
  peers = [];
  metas = [];
  keys = [];
  drawn = 0;
}

abbrev pinned : Archive device
pinned = (put_peer device (bob "k1" "signed") empty).1

abbrev ann : Self
ann = record { user_id = "ann"; kex_sk = "s" }

sync_all-pins_example :
    keys_of device (
      pin_of device
        (sync_all device as_it_is (listed (bob "k2" "signed") ∷ []) pinned).1.peers
        "bob")
    ≡ some ("ik", "k1")
unfolding put_peer
sync_all-pins_example =
    sync_all-pins device as_it_is (listed (bob "k2" "signed") ∷ []) pinned "bob" ("ik", "k1")
      (refl, tt) refl

-- The profile of the one peer is not signed.
sync_all-is_trusted_example :
    is_trusted device (
      pin_of device
        (sync_all device as_it_is (listed (bob "k2" "forged") ∷ []) pinned).1.peers
        "bob")
    ≡ true
unfolding put_peer
sync_all-is_trusted_example =
    sync_all-is_trusted device as_it_is (listed (bob "k2" "forged") ∷ []) pinned "bob" refl

trust_peer-trust_peer_example :
    let once = trust_peer device as_it_is (bob "k1" "forged") pinned in
    let twice = trust_peer device as_it_is (bob "k2" "signed") once.1 in
    (once.0 ≡ returned (security_message unverified_key))
    × (twice.0 ≡ returned none)
    × (pin_of device twice.1.peers "bob" ≡ some (bob "k2" "signed"))
trust_peer-trust_peer_example =
    trust_peer-trust_peer device as_it_is (bob "k1" "forged") (bob "k2" "signed") pinned refl refl
      refl

abbrev refused : Conversation
refused = record {
  id = "c";
  peer_id = some "bob";
  peer_username = some "Bob";
  peer_level = none;
  peer_level_name = none;
  created_at = some 5;
  updated_at = some 9;
  security_error = security_message unverified_key;
  draft = none;
}

abbrev synced : Archive device
synced = (sync_one device as_it_is (listed (bob "k1" "forged")) pinned).1

compose_message-sync_one_example :
    compose_message device ann "c" (delete "m1") "pending-1" 9 synced ≡ (threw not_ready, synced)
unfolding put_peer sync_one upsert_conversation delete_peer
compose_message-sync_one_example =
    compose_message-sync_one device as_it_is ann (listed (bob "k1" "forged")) pinned synced refused
      unverified_key (delete "m1") "pending-1" 9 refl refl
