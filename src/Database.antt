-- ===== src/Database.antt =====
-- The rows of frontend/src/types/db.ts and frontend/src/types/message.ts, and IndexedDB, which the
-- program only calls: object stores with a key path, and the index `byConversation` on
-- [conversationId, createdAt], by the behaviour that their standard documents.
pub mod InMemory
use timber_chat.Prelude.{
  ℕ, ◌≤◌, String, Bool, ◌≡◌, Option, none, some, List, [], ◌∷◌, All, ◌==◌, if◌then◌else◌, ◌⊎◌,
}

pub record SealedEnvelope : Type 0 where
  pub envelope_version : ℕ
  pub nonce : String
  pub ciphertext : String

-- The flags 0 and 1 of `StoredFlag` are Booleans here.
pub record StoredMessage : Type 0 where
  pub id : String
  pub conversation_id : String
  pub sender_id : String
  pub created_at : ℕ
  pub pending : Bool
  pub seen : Bool
  pub delivered_ack : Bool
  pub read_ack : Bool
  pub delivered_at : Option ℕ
  pub read_at : Option ℕ
  pub envelope : SealedEnvelope

pub record SealedLocal : Type 0 where
  pub n : String
  pub c : String

pub record ConversationRow : Type 0 where
  pub id : String
  pub updated_at : Option ℕ
  pub contents : SealedLocal

abbrev pub IsIn : {A : Type 0} → A → List A → Type 0
IsIn a [] = ⊥
IsIn a (x ∷ xs) = (a ≡ x) ⊎ IsIn a xs

-- In order of time, as the index is.
abbrev pub IsOrdered : List StoredMessage → Type 0
IsOrdered [] = Unit
IsOrdered (m ∷ ms) = All (λ n. m.created_at ≤ n.created_at) ms × IsOrdered ms

-- An object store whose key path is `key`.
pub record ObjectStore (V : Type 0) (key : V → String) : Type 1 where
  pub Table : Type 0
  pub get : Table → String → Option V
  pub put : Table → V → Table
  pub delete : Table → String → Table
  pub get-put :
      (t : Table) (v : V) (k : String) → get (put t v) k ≡ (if key v == k then some v else get t k)
  pub get-delete :
      (t : Table) (j k : String) → get (delete t j) k ≡ (if j == k then none else get t k)
  pub get_key : (t : Table) (k : String) (v : V) → get t k ≡ some v → key v ≡ k

abbrev pub message_key : StoredMessage → String
message_key m = m.id

abbrev pub conversation_key : ConversationRow → String
conversation_key c = c.id

-- `rows t c` is what a cursor over `byConversation` visits between the least and the greatest time.
pub record Database : Type 1 where
  pub messages : ObjectStore StoredMessage message_key
  pub conversations : ObjectStore ConversationRow conversation_key
  pub rows : messages.Table → String → List StoredMessage
  pub rows_sound :
      (t : messages.Table) (c : String)
      → All (λ m. (messages.get t m.id ≡ some m) × (m.conversation_id ≡ c)) (rows t c)
  pub rows_complete :
      (t : messages.Table) (m : StoredMessage)
      → messages.get t m.id ≡ some m
      → IsIn m (rows t m.conversation_id)
  pub rows_ordered : (t : messages.Table) (c : String) → IsOrdered (rows t c)
