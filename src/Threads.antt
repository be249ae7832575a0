-- ===== src/Threads.antt =====
-- frontend/src/db/localStore.ts: the pages of a thread as they are opened, what this device sends, the
-- outbox, and the cursors.
pub mod Saved
mod Tests
use timber_chat.Prelude.{
  ℕ, suc, String, Bool, true, false, Option, none, some, List, [], ◌∷◌, map, keep, take, reverse,
  last, or_else, leb, ltb, if◌then◌else◌,
}
use timber_chat.Database.{StoredMessage, SealedEnvelope}
use timber_chat.Presentation.{
  Payload, Base, ConversationMessage, presented, undecryptable, waiting_for_key,
  verification_failed,
}
use timber_chat.Store.{IncomingMessage, put_message}
use timber_chat.Envelope.{open_envelope, max_ciphertext_bytes}
use timber_chat.Contacts.{
  Note, Device, Archive, Action, Self, unreadable, not_ready, Outcome, returned, threw, pure, throw,
  ◌>>=◌,
}
use timber_chat.Contacts.Conversations.{key_for_conversation, seal_with}

-- `Number.MAX_SAFE_INTEGER`
abbrev pub max_safe_integer : ℕ
max_safe_integer = 9007199254740991

abbrev pub base_of : StoredMessage → Base
base_of m = record {
  id = m.id;
  conversation_id = m.conversation_id;
  sender_id = m.sender_id;
  created_at = m.created_at;
  delivered_at = m.delivered_at;
  read_at = m.read_at;
  pending = m.pending;
  seen = m.seen;
}

-- A message with what `presentMessages` has not yet folded into it.
abbrev pub opened : Base → Payload → ConversationMessage
opened base payload = presented (record {
  base = base;
  payload = payload;
  reactions = [];
  votes = [];
  pinned = none;
  deleted = false;
  expired = false;
})

-- `sort((a, b) => a.createdAt - b.createdAt)`
abbrev pub place_pending : StoredMessage → List StoredMessage → List StoredMessage
place_pending m [] = m ∷ []
place_pending m (n ∷ ns) =
    if leb m.created_at n.created_at then m ∷ n ∷ ns else n ∷ place_pending m ns

unfoldable pub sort_pending : List StoredMessage → List StoredMessage
sort_pending [] = []
sort_pending (m ∷ ms) = place_pending m (sort_pending ms)

-- The cursor "prev" of `messagesFor`, up to `limit` rows before a time, and the page reversed.
unfoldable pub page_before : Option ℕ → ℕ → List StoredMessage → List StoredMessage
page_before before limit rows =
    reverse
      (take limit (reverse (keep (λ m. ltb m.created_at (or_else before max_safe_integer)) rows)))

module _ (V : Device) where
  unfoldable pub decrypt_record : String → Option String → StoredMessage → ConversationMessage
  decrypt_record conversation_id none m = undecryptable (base_of m) waiting_for_key
  decrypt_record conversation_id (some key) m =
      elim (open_envelope V.suite key conversation_id m.sender_id m.envelope) [
        | none ↦ undecryptable (base_of m) verification_failed
        | some payload ↦ opened (base_of m) payload
      ]

  -- Messages awaiting delivery, oldest first; `getAllFromIndex` gives the rows in the order of `getAll`.
  unfoldable pub pending_messages : Archive V → List StoredMessage
  unfolding sort_pending
  pending_messages a = sort_pending (keep (λ m. m.pending) (V.all_messages a.store.messages))

  unfoldable pub get_meta : String → Action V (Option Note)
  get_meta key a = elim (V.metas.get a.metas key) [
    | none ↦ (returned none, a)
    | some row ↦ elim (V.note_sealer.unseal row.contents) [
      | none ↦ (threw unreadable, a)
      | some value ↦ (returned (some value), a)
    ]
  ]

  unfoldable pub set_meta : String → Note → Archive V → Archive V
  set_meta key value a = record a {
    metas =
        V.metas.put a.metas
          (record { id = key; contents = V.note_sealer.seal (V.nonce a.drawn) value });
    drawn = suc a.drawn;
  }

  abbrev pub outgoing : String → String → String → ℕ → SealedEnvelope → IncomingMessage
  outgoing self conversation_id id created_at envelope = record {
    id = id;
    conversation_id = conversation_id;
    sender_id = self;
    created_at = created_at;
    envelope = envelope;
    pending = some true;
    seen = none;
    delivered_ack = none;
    read_ack = none;
    delivered_at = none;
    read_at = none;
  }

  abbrev pub store_message : IncomingMessage → Archive V → Archive V
  store_message m a = record a { store = (put_message V.database m a.store).1 }

  module _ (self : Self) where
    unfoldable pub messages_for :
        (conversation_id : String) (before : Option ℕ) (limit : ℕ)
        → Action V (List ConversationMessage)
    unfolding page_before decrypt_record
    messages_for conversation_id before limit a =
        let page = page_before before limit (V.database.rows a.store.messages conversation_id) in
        (key_for_conversation V self conversation_id >>= λ key.
        pure (map (decrypt_record conversation_id key) page))
          a

    unfoldable pub last_message : String → Action V (Option ConversationMessage)
    unfolding messages_for
    last_message conversation_id = do
      page ← messages_for conversation_id none 1
      elim page [ [] ↦ pure none | m ∷ ms ↦ pure (some m) ]

    -- `composeMessage`, when the key is looked up.
    abbrev pub compose_with :
        (conversation_id : String)
        → Payload
        → (id : String) (created_at : ℕ) → Option String
        → Action V SealedEnvelope
    compose_with conversation_id payload id created_at none = throw not_ready
    compose_with conversation_id payload id created_at (some key) = do
      envelope ← seal_with V self max_ciphertext_bytes key conversation_id payload
      λ a. (
        returned envelope,
        store_message (outgoing self.user_id conversation_id id created_at envelope) a,
      )

    unfoldable pub compose_message :
        (conversation_id : String)
        → Payload
        → (id : String) (created_at : ℕ) → Action V SealedEnvelope
    compose_message conversation_id payload id created_at =
        key_for_conversation V self conversation_id
        >>= compose_with conversation_id payload id created_at
