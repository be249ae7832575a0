-- ===== src/Sync/Conversations.antt =====
-- `syncConversations` of frontend/src/lib/sync.js: the relay's list of conversations, mirrored. The
-- list is an argument, and the view loses the conversations that the list no longer has.
pub mod Pinned
pub mod Blocked
mod Tests
use timber_chat.Prelude.{
  ℕ, String, Bool, true, false, not, Option, none, some, List, [], ◌∷◌, map, keep, contains, truthy,
  if◌then◌else◌,
}
use timber_chat.Contacts.{
  PeerProfile, Conversation, Device, Archive, Action, Failure, unverified_key, changed_key, Outcome,
  returned, threw, pure, throw, ◌>>=◌, ◌>>◌,
}
use timber_chat.Contacts.Peers.{put_peer, delete_peer}
use timber_chat.Contacts.Conversations.{
  ConversationPatch, upsert_conversation, list_conversations, delete_conversation,
}
use timber_chat.ChatStore.{Shapes, ChatStore, remove_conversation}

-- A conversation of the relay's list; its times are as the relay writes them.
pub record ServerConversation : Type 0 where
  pub id : String
  pub peer : PeerProfile
  pub created_at : ℕ
  pub last_message_at : Option ℕ

-- The messages of `PeerKeyVerificationError`; `none` is another error.
unfoldable pub security_message : Failure → Option String
security_message unverified_key =
    some
      "This contact's identity key could not be verified. Messaging is blocked to protect your conversation."
security_message changed_key =
    some
      "This contact's identity key changed unexpectedly. Compare safety numbers before messaging again."
security_message _ = none

abbrev retains_existing : Failure → Bool
retains_existing changed_key = true
retains_existing _ = false

module _ (V : Device) (to_millis : ℕ → ℕ) where
  unfoldable pub patch_of : ServerConversation → Option String → ConversationPatch
  patch_of c security_error = record {
    id = c.id;
    peer_id = some (some c.peer.id);
    peer_username = some (some c.peer.username);
    peer_level = some c.peer.level;
    peer_level_name = some c.peer.level_name;
    created_at = some (some (to_millis c.created_at));
    updated_at = some (some (elim c.last_message_at [ none ↦ 0 | some t ↦ to_millis t ]));
    security_error = some security_error;
    draft = none;
  }

  -- What the `try` of one conversation makes of `putPeer`: the security error that its row gets.
  abbrev pub settle_trust :
      PeerProfile → Outcome (Unit {0}) × Archive V → Outcome (Option String) × Archive V
  settle_trust peer (returned _, a) = (returned none, a)
  settle_trust peer (threw e, a) = elim (security_message e) [
    | none ↦ (threw e, a)
    | some message ↦
        (returned (some message), if retains_existing e then a else delete_peer V peer.id a)
  ]

  unfoldable pub trust_peer : PeerProfile → Action V (Option String)
  unfolding put_peer security_message
  trust_peer peer a = settle_trust peer (put_peer V peer a)

  unfoldable pub sync_one : ServerConversation → Action V Conversation
  unfolding trust_peer patch_of
  sync_one c = do
    security_error ← trust_peer c.peer
    upsert_conversation V (patch_of c security_error)

  unfoldable pub sync_all : List ServerConversation → Action V (Unit {0})
  unfolding sync_one
  sync_all [] = pure tt
  sync_all (c ∷ cs) = do _ ← sync_one c; sync_all cs

  abbrev id_of : ServerConversation → String
  id_of c = c.id

  abbrev is_stale : List ServerConversation → Conversation → Bool
  is_stale current c = not (contains c.id (map id_of current))

  module _ (X : Shapes) where
    unfoldable pub forget_stale :
        List Conversation → Archive V × ChatStore X → Archive V × ChatStore X
    forget_stale [] s = s
    forget_stale (c ∷ cs) s =
        forget_stale cs (delete_conversation V c.id c.peer_id s.0, remove_conversation X c.id s.1)

    unfoldable pub sync_conversations :
        (reconcile : Bool)
        → List ServerConversation
        → Archive V × ChatStore X
        → Outcome (List ServerConversation) × (Archive V × ChatStore X)
    unfolding sync_all forget_stale
    sync_conversations reconcile current (a, view) =
        let (mirrored, b) = sync_all current a in
        elim mirrored [
          | threw e ↦ (threw e, (b, view))
          | returned _ ↦
              if not reconcile
              then (returned current, (b, view))
              else let (listed, c) = list_conversations V b in
                elim listed [
                  | threw e ↦ (threw e, (c, view))
                  | returned local ↦
                      (returned current, forget_stale (keep (is_stale current) local) (c, view))
                ]
        ]
