-- ===== src/Contacts.antt =====
-- frontend/src/db/localStore.ts: the device that the history stands on, with the rows of
-- frontend/src/types/db.ts that are sealed under the key of the local database, and actions on it.
mod Throwing
pub use Throwing.*
pub mod Peers
pub mod Conversations
mod Columns
pub mod InMemory
mod Tests
use timber_chat.Prelude.{
  ℕ, String, Bool, false, not, ◌≡◌, Option, none, some, List, All, Dict, ◌==◌, arith, ap, refl, ◌⊎◌,
  inl, inr,
}
use timber_chat.Database.{SealedLocal, StoredMessage, ConversationRow, Database, ObjectStore, IsIn}
use timber_chat.Store.{Store}
use timber_chat.Envelope.{Suite}

-- A peer as the relay publishes it.
pub record PeerProfile : Type 0 where
  pub id : String
  pub username : String
  pub level : Option ℕ
  pub level_name : Option String
  pub identity_pk : String
  pub kex_pk : String
  pub kex_key_signature : String

-- A conversation as this device holds it; a field may be missing until a sync has written it.
pub record Conversation : Type 0 where
  pub id : String
  pub peer_id : Option String
  pub peer_username : Option String
  pub peer_level : Option ℕ
  pub peer_level_name : Option String
  pub created_at : Option ℕ
  pub updated_at : Option ℕ
  pub security_error : Option String
  pub draft : Option String

-- An entry of the list of saved messages.
pub record SavedEntry : Type 0 where
  pub id : String
  pub conversation_id : String

-- The values that this model keeps in the store of cursors and settings.
pub data Note : Type 0 where
  since : (at : ℕ) → Note
  saved : List SavedEntry → Note

pub record PeerRow : Type 0 where
  pub id : String
  pub contents : SealedLocal

pub record MetaRow : Type 0 where
  pub id : String
  pub contents : SealedLocal

abbrev pub peer_key : PeerRow → String
peer_key p = p.id

abbrev pub meta_key : MetaRow → String
meta_key m = m.id

-- `sealLocal` and `openLocal` with the cipher, JSON and base64; `none` is a row that does not open.
pub record Sealer (A : Type 0) : Type 0 where
  pub seal : (nonce : String) → A → SealedLocal
  pub unseal : SealedLocal → Option A
  pub unseal-seal : (n : String) (a : A) → unseal (seal n a) ≡ some a

-- What the code stands on: IndexedDB with its other stores, `getAll`, the rows of the index `byPending`,
-- the ciphers, the check of a published profile, and random nonces in the order they are drawn.
pub record Device : Type 1 where
  pub database : Database
  pub peers : ObjectStore PeerRow peer_key
  pub metas : ObjectStore MetaRow meta_key
  pub all_peers : peers.Table → List PeerRow
  pub all_conversations : database.conversations.Table → List ConversationRow
  pub all_messages : database.messages.Table → List StoredMessage
  pub all_conversations_sound :
      (t : database.conversations.Table)
      → All (λ r. database.conversations.get t r.id ≡ some r) (all_conversations t)
  pub all_messages_sound :
      (t : database.messages.Table)
      → All (λ m. database.messages.get t m.id ≡ some m) (all_messages t)
  pub all_messages_complete :
      (t : database.messages.Table) (m : StoredMessage)
      → database.messages.get t m.id ≡ some m
      → IsIn m (all_messages t)
  pub peer_sealer : Sealer PeerProfile
  pub conversation_sealer : Sealer Conversation
  pub note_sealer : Sealer Note
  pub suite : Suite
  pub is_bound : PeerProfile → Bool
  pub nonce : ℕ → String

-- The identity of the session that is open.
pub record Self : Type 0 where
  pub user_id : String
  pub kex_sk : String

module _ (V : Device) where
  -- The stores, the cache of conversation keys, and how many nonces were drawn.
  pub record Archive : Type 0 where
    pub store : Store V.database
    pub peers : V.peers.Table
    pub metas : V.metas.Table
    pub keys : Dict String
    pub drawn : ℕ

  -- A call that may throw; what it wrote before that stays.
  abbrev pub Action : Type 0 → Type 0
  Action A = Archive → Outcome A × Archive

-- `Boolean(text)` of a text that may be missing.
abbrev pub is_set : Option String → Bool
is_set none = false
is_set (some t) = not (t == "")
