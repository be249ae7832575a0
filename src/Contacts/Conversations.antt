-- ===== src/Contacts/Conversations.antt =====
-- The conversations of frontend/src/db/localStore.ts, and the key of each.
pub mod Deletion
use timber_chat.Prelude.{
  ℕ, String, Bool, not, ◌&&◌, ◌||◌, Option, none, some, List, [], ◌∷◌, ◌==◌, if◌then◌else◌, suc,
  or_else, leb, coalesce, ◌*◌,
}
use timber_chat.Database.{ConversationRow, StoredMessage, SealedEnvelope}
use timber_chat.Presentation.{Payload}
use timber_chat.Store.{Store}
use timber_chat.Envelope.{conversation_key, seal, open_envelope}
use timber_chat.Contacts.{
  PeerProfile, Conversation, Device, Archive, Action, Self, unreadable, not_ready, too_long,
  bad_key, Outcome, returned, threw, pure, throw, or_throw, ◌>>=◌, is_set,
}
use timber_chat.Contacts.Peers.{get_peer, delete_peer}

-- `ConversationPatch`: a field that the patch does not have is `none`.
pub record ConversationPatch : Type 0 where
  pub id : String
  pub peer_id : Option (Option String)
  pub peer_username : Option (Option String)
  pub peer_level : Option (Option ℕ)
  pub peer_level_name : Option (Option String)
  pub created_at : Option (Option ℕ)
  pub updated_at : Option (Option ℕ)
  pub security_error : Option (Option String)
  pub draft : Option (Option String)

-- `{ ...existing, ...patch }`
unfoldable pub merge_conversation : ConversationPatch → Option Conversation → Conversation
merge_conversation p none = record {
  id = p.id;
  peer_id = or_else p.peer_id none;
  peer_username = or_else p.peer_username none;
  peer_level = or_else p.peer_level none;
  peer_level_name = or_else p.peer_level_name none;
  created_at = or_else p.created_at none;
  updated_at = or_else p.updated_at none;
  security_error = or_else p.security_error none;
  draft = or_else p.draft none;
}
merge_conversation p (some c) = record {
  id = p.id;
  peer_id = or_else p.peer_id c.peer_id;
  peer_username = or_else p.peer_username c.peer_username;
  peer_level = or_else p.peer_level c.peer_level;
  peer_level_name = or_else p.peer_level_name c.peer_level_name;
  created_at = or_else p.created_at c.created_at;
  updated_at = or_else p.updated_at c.updated_at;
  security_error = or_else p.security_error c.security_error;
  draft = or_else p.draft c.draft;
}

-- Most recently active first, `sort((a, b) => (b.updatedAt ?? 0) - (a.updatedAt ?? 0))`.
abbrev place_row : ConversationRow → List ConversationRow → List ConversationRow
place_row r [] = r ∷ []
place_row r (q ∷ qs) =
    if leb (or_else q.updated_at 0) (or_else r.updated_at 0) then r ∷ q ∷ qs else q ∷ place_row r qs

unfoldable pub sort_rows : List ConversationRow → List ConversationRow
sort_rows [] = []
sort_rows (r ∷ rs) = place_row r (sort_rows rs)

module _ (V : Device) where
  -- `db.put(STORE_CONVERSATIONS, …)`
  unfoldable pub write_conversation : Option ℕ → Conversation → Archive V → Archive V
  write_conversation updated_at c a = record a {
    store = record a.store {
      conversations = V.database.conversations.put a.store.conversations (record {
        id = c.id;
        updated_at = updated_at;
        contents = V.conversation_sealer.seal (V.nonce a.drawn) c;
      });
    };
    drawn = suc a.drawn;
  }

  -- The patch over what is there, and the time of the row: its own, or the one it had, or 0.
  abbrev pub upsert_over :
      ConversationPatch → Option Conversation → Option ℕ → Action V Conversation
  upsert_over p existing old a =
      let merged = merge_conversation p existing in
      let at = coalesce (or_else p.updated_at none) old in
      (returned merged, write_conversation (some (or_else at 0)) merged a)

  unfoldable pub upsert_conversation : ConversationPatch → Action V Conversation
  unfolding merge_conversation write_conversation
  upsert_conversation p a = elim (V.database.conversations.get a.store.conversations p.id) [
    | none ↦ upsert_over p none none a
    | some row ↦ elim (V.conversation_sealer.unseal row.contents) [
      | none ↦ (threw unreadable, a)
      | some existing ↦ upsert_over p (some existing) row.updated_at a
    ]
  ]

  unfoldable pub get_conversation : String → Action V (Option Conversation)
  get_conversation id a = elim (V.database.conversations.get a.store.conversations id) [
    | none ↦ (returned none, a)
    | some row ↦ elim (V.conversation_sealer.unseal row.contents) [
      | none ↦ (threw unreadable, a)
      | some c ↦ (returned (some c), a)
    ]
  ]

  abbrev open_rows : List ConversationRow → Outcome (List Conversation)
  open_rows [] = returned []
  open_rows (row ∷ rows) = elim (V.conversation_sealer.unseal row.contents) [
    | none ↦ threw unreadable
    | some c ↦ elim (open_rows rows) [ threw e ↦ threw e | returned cs ↦ returned (c ∷ cs) ]
  ]

  unfoldable pub list_conversations : Action V (List Conversation)
  unfolding sort_rows
  list_conversations a = (open_rows (sort_rows (V.all_conversations a.store.conversations)), a)

  -- The cursor of `deleteConversation`, over the rows that it visits.
  unfoldable pub delete_rows :
      List StoredMessage → V.database.messages.Table → V.database.messages.Table
  delete_rows [] t = t
  delete_rows (m ∷ ms) t = delete_rows ms (V.database.messages.delete t m.id)

  -- `if (peerId) await … delete(peerId)`
  abbrev forget_peer : Option String → Archive V → Archive V
  forget_peer none a = a
  forget_peer (some peer_id) a = record a {
    peers = if peer_id == "" then a.peers else V.peers.delete a.peers peer_id;
  }

  unfoldable pub delete_conversation : String → Option String → Archive V → Archive V
  unfolding delete_rows
  delete_conversation id peer_id a = forget_peer peer_id (record a {
    store = record a.store {
      messages = delete_rows (V.database.rows a.store.messages id) a.store.messages;
      conversations = V.database.conversations.delete a.store.conversations id;
    };
  })

  module _ (self : Self) where
    -- `conversationKey` with its cache; a key of the relay that cannot be read throws.
    abbrev derive_key : String → String → String → Action V (Option String)
    derive_key conversation_id peer_id kex_pk a =
        let found =
          conversation_key V.suite conversation_id self.kex_sk kex_pk self.user_id peer_id a.keys in
        elim found.0 [
          | none ↦ (threw bad_key, a)
          | some key ↦ (returned (some key), record a { keys = found.1 })
        ]

    -- What `keyForConversation` makes of the peer, and of the conversation.
    abbrev pub key_with : String → Option PeerProfile → Action V (Option String)
    key_with id none = pure none
    key_with id (some peer) =
        if peer.kex_pk == "" then pure none else derive_key id peer.id peer.kex_pk

    abbrev pub key_of : String → Option Conversation → Action V (Option String)
    key_of id none = pure none
    key_of id (some c) = if is_set c.security_error then pure none else elim c.peer_id [
      | none ↦ throw bad_key
      | some peer_id ↦ get_peer V peer_id >>= key_with id
    ]

    unfoldable pub key_for_conversation : String → Action V (Option String)
    unfolding get_conversation get_peer
    key_for_conversation id = get_conversation id >>= key_of id

    -- `MAX_CALL_SIGNAL_CIPHERTEXT_BYTES`
    abbrev pub max_signal_bytes : ℕ
    max_signal_bytes = 48 * 1024

    -- A nonce is drawn, and the payload sealed under it.
    abbrev pub seal_with : ℕ → String → String → Payload → Action V SealedEnvelope
    seal_with max_bytes key conversation_id payload a =
        or_throw (seal V.suite key conversation_id self.user_id payload max_bytes (V.nonce a.drawn))
          too_long (record a { drawn = suc a.drawn })

    unfoldable pub seal_call_signal : String → Payload → Action V SealedEnvelope
    unfolding key_for_conversation
    seal_call_signal conversation_id payload = do
      key ← key_for_conversation conversation_id
      elim key [
        | none ↦ throw not_ready
        | some k ↦ seal_with max_signal_bytes k conversation_id payload
      ]

    unfoldable pub open_call_signal : String → String → SealedEnvelope → Action V Payload
    unfolding key_for_conversation
    open_call_signal conversation_id sender_id envelope = do
      key ← key_for_conversation conversation_id
      elim key [
        | none ↦ throw not_ready
        | some k ↦ or_throw (open_envelope V.suite k conversation_id sender_id envelope) unreadable
      ]
