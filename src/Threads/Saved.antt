-- ===== src/Threads/Saved.antt =====
-- The saved messages and the search of frontend/src/db/localStore.ts. Case, blanks and the finding of a
-- text in another are parameters.
pub mod Toggled
use Prim.Native.String.{◌++◌}
use timber_chat.Prelude.{
  ℕ, String, Bool, true, false, not, Option, none, some, List, [], ◌∷◌, ◌++◌ as ◌⊕◌, map, keep,
  contains, Dict, lookup, insert, add, set_of, leb, take, ◌==◌, if◌then◌else◌,
}
use timber_chat.Database.{StoredMessage}
use timber_chat.Presentation.{
  Payload, text, file, reaction, edit, delete, pin, decision, decision_vote, postcard, call,
  call_update, ConversationMessage, presented, undecryptable, Presented, base_of,
}
use timber_chat.Contacts.{
  SavedEntry, Note, saved, Device, Archive, Action, Self, Outcome, returned, threw, pure, ◌>>=◌,
}
use timber_chat.Contacts.Conversations.{key_for_conversation}
use timber_chat.Threads.{get_meta, set_meta, decrypt_record}

abbrev pub saved_key : String
saved_key = "saved-messages"

-- `(await getMeta(…)) ?? []`
abbrev pub entries_of : Option Note → List SavedEntry
entries_of (some (saved es)) = es
entries_of _ = []

abbrev pub entry_id : SavedEntry → String
entry_id e = e.id

-- The list after a toggle.
unfoldable pub toggled : SavedEntry → List SavedEntry → List SavedEntry
toggled m es =
    if contains m.id (map entry_id es) then keep (λ e. not (e.id == m.id)) es else es ⊕ (m ∷ [])

-- `[...].sort((a, b) => b.createdAt - a.createdAt)`
abbrev place_latest : ConversationMessage → List ConversationMessage → List ConversationMessage
place_latest m [] = m ∷ []
place_latest m (n ∷ ns) =
    if leb (base_of n).created_at (base_of m).created_at then m ∷ n ∷ ns else n ∷ place_latest m ns

unfoldable pub latest_first : List ConversationMessage → List ConversationMessage
latest_first [] = []
latest_first (m ∷ ms) = place_latest m (latest_first ms)

abbrev pub is_open : ConversationMessage → Bool
is_open (presented p) = true
is_open (undecryptable b r) = false

-- The fields `body`, `name`, `mime`, `prompt` and `kind` in this order, and the options.
abbrev pub searchable_values : Payload → List String
searchable_values (text t) = t.body ∷ []
searchable_values (file f) = f.name ∷ f.mime ∷ (if f.is_voice then "voice" else "file") ∷ []
searchable_values (edit i body) = body ∷ []
searchable_values (decision d) = d.prompt ∷ (if d.is_poll then "poll" else "decision") ∷ d.options
searchable_values (postcard p) = p.body ∷ p.kind ∷ []
searchable_values _ = []

abbrev pub join : List String → String
join [] = ""
join (v ∷ []) = v
join (v ∷ w ∷ vs) = v ++ " " ++ join (w ∷ vs)

module _ (V : Device) (self : Self) where
  -- What `toggleSavedMessage` writes over the note that it read.
  abbrev pub write_toggled : SavedEntry → Option Note → Action V Bool
  write_toggled m note a = (
    returned (not (contains m.id (map entry_id (entries_of note)))),
    set_meta V saved_key (saved (toggled m (entries_of note))) a,
  )

  unfoldable pub toggle_saved_message : SavedEntry → Action V Bool
  unfolding get_meta set_meta toggled
  toggle_saved_message m = do note ← get_meta V saved_key; write_toggled m note

  unfoldable pub saved_message_ids : Action V (List String)
  unfolding get_meta
  saved_message_ids = do note ← get_meta V saved_key; pure (set_of (map entry_id (entries_of note)))

  -- The entries whose row is still in its conversation, opened one after the other.
  unfoldable pub open_saved : List SavedEntry → Action V (List ConversationMessage)
  unfolding decrypt_record
  open_saved [] a = pure [] a
  open_saved (e ∷ es) a = elim (V.database.messages.get a.store.messages e.id) [
    | none ↦ open_saved es a
    | some row ↦ elim (row.conversation_id == e.conversation_id) [
      | false ↦ open_saved es a
      | true ↦
          (do
            key ← key_for_conversation V self e.conversation_id
            rest ← open_saved es
            pure (decrypt_record V e.conversation_id key row ∷ rest))
            a
    ]
  ]

  unfoldable pub saved_messages : Action V (List ConversationMessage)
  unfolding open_saved latest_first
  saved_messages = do
    note ← get_meta V saved_key
    found ← open_saved (entries_of note)
    pure (latest_first (keep is_open found))

  module _ (lower trim : String → String) (includes : (text term : String) → Bool) where
    -- `searchableText`
    abbrev pub searchable_text : Payload → String
    searchable_text payload = lower (join (searchable_values payload))

    abbrev pub is_match : String → ConversationMessage → Bool
    is_match term (presented p) = includes (searchable_text p.payload) term
    is_match term (undecryptable b r) = false

    -- The key of a conversation, looked up once.
    abbrev key_once : String → Dict (Option String) → Action V (Option String)
    key_once id keys = elim (lookup id keys) [
      | some key ↦ pure key
      | none ↦ key_for_conversation V self id
    ]

    unfoldable pub scan :
        String → List StoredMessage → Dict (Option String) → Action V (List ConversationMessage)
    unfolding decrypt_record
    scan term [] keys = pure []
    scan term (row ∷ rows) keys = do
      key ← key_once row.conversation_id keys
      rest ← scan term rows (insert row.conversation_id key keys)
      let message = decrypt_record V row.conversation_id key row
      pure (if is_match term message then message ∷ rest else rest)

    unfoldable pub search_messages :
        (query : String) (limit : ℕ) → Action V (List ConversationMessage)
    unfolding scan latest_first
    search_messages query limit a =
        let term = lower (trim query) in
        if term == ""
        then (returned [], a)
        else (do
          matches ← scan term (V.all_messages a.store.messages) []
          pure (take limit (latest_first matches)))
            a
