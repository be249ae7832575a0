-- ===== src/Sync/Inbox.antt =====
-- frontend/src/lib/sync.js: the pages of a thread and the chat list, from the database to the view. Each
-- function is one run of the code in which nothing else comes between its awaits; what the relay answers
-- is an argument, `none` a request that fails.
pub mod Refresh
pub mod Arrivals
pub mod Received
mod Tests
use timber_chat.Prelude.{
  ℕ, String, Bool, true, false, ◌&&◌, ◌||◌, eqb, ◌+◌, Option, none, some, List, [], ◌∷◌, map, find,
  last, length, lookup, or_else, keep, truthy, ltb, ◌==◌, if◌then◌else◌,
}
use Prim.Native.String.{◌++◌}
use timber_chat.Presentation.{ConversationMessage, base_of, present_messages}
use timber_chat.Presentation.Order.{message_id}
use timber_chat.Store.{
  IncomingMessage, ReceiptField, delivered, read, mark_receipt, confirm_message, unread_count,
}
use timber_chat.ChatStore.{
  Shapes, ChatStore, set_messages, set_unread, set_conversations, prepend_messages, is_text_of,
}
use timber_chat.ChatStore as View
use timber_chat.Contacts.{
  Conversation, Note, since, relay_failed, Device, Archive, Action, Self, Outcome, returned, threw,
  pure, throw, ◌>>=◌, is_set,
}
use timber_chat.Contacts.Conversations.{get_conversation, list_conversations}
use timber_chat.Threads.{messages_for, get_meta, set_meta, store_message}
use timber_chat.Sync.Backfill.{ServerMessage, failed, incoming, page_size, backfill}
use timber_chat.Sync.Conversations.{ServerConversation, sync_conversations}

-- A row of the chat list, for a conversation of the database.
abbrev pub row_of : Conversation → Option ConversationMessage → ℕ → View.Conversation
row_of c preview unread = record {
  id = c.id;
  peer_id = or_else c.peer_id "";
  preview = preview;
  unread = unread;
}

module _ (V : Device) (X : Shapes) (self : Self) (to_millis : ℕ → ℕ) (now : ℕ) where
  abbrev pub Both : Type 0
  Both = Archive V × ChatStore X

  -- An action on the database, and one on the view.
  abbrev pub on_archive : {A : Type 0} → Action V A → Both → Outcome A × Both
  on_archive m (a, view) = let (r, b) = m a in (r, (b, view))

  abbrev pub on_view : (ChatStore X → ChatStore X) → Both → Outcome (Unit {0}) × Both
  on_view f (a, view) = (returned tt, (a, f view))

  unfoldable pub unread_of : String → Archive V → ℕ
  unread_of id a = unread_count V.database id self.user_id a.store

  -- The page of a thread as it is shown.
  unfoldable pub shown_page : String → Action V (List ConversationMessage)
  shown_page id = do page ← messages_for V self id none page_size; pure (present_messages now page)

  -- `setMessages` with the page.
  unfoldable pub show_page : String → Both → Outcome (List ConversationMessage) × Both
  unfolding shown_page
  show_page id = do
    page ← on_archive (shown_page id)
    λ s. (returned page, (s.0, set_messages X id page s.1))

  -- The rows of the chat list, one after the other.
  abbrev pub finish_row :
      Conversation
      → List ConversationMessage
      → List View.Conversation
      → Action V (List View.Conversation)
  finish_row c page rest a = (returned (row_of c (last page) (unread_of c.id a) ∷ rest), a)

  unfoldable pub preview_rows : List Conversation → Action V (List View.Conversation)
  unfolding shown_page unread_of
  preview_rows [] = pure []
  preview_rows (c ∷ cs) = do page ← shown_page c.id; rest ← preview_rows cs; finish_row c page rest

  unfoldable pub set_counts : List View.Conversation → ChatStore X → ChatStore X
  set_counts [] view = view
  set_counts (r ∷ rs) view = set_counts rs (set_unread X r.id r.unread view)

  abbrev pub show_rows : List View.Conversation → ChatStore X → ChatStore X
  show_rows rows view = set_counts rows (set_conversations X rows view)

  abbrev pub list_rows : List Conversation → Both → Outcome (Unit {0}) × Both
  list_rows local = do rows ← on_archive (preview_rows local); on_view (show_rows rows)

  unfoldable pub refresh_conversation_list : Both → Outcome (Unit {0}) × Both
  unfolding preview_rows set_counts
  refresh_conversation_list = do local ← on_archive (list_conversations V); list_rows local

  -- `backfill` and what it stored; a fetch that fails is caught by its callers.
  unfoldable pub load_conversation :
      (fuel : ℕ) (get_history : Option ℕ → Option (List ServerMessage))
      → String
      → Both
      → Outcome (Unit {0}) × Both
  unfolding show_page unread_of
  load_conversation fuel get_history id = do
    _ ← show_page id
    _ ← again
    λ s. (returned tt, (s.0, set_unread X id (unread_of id s.0) s.1))
    where
      caught : Outcome (List ConversationMessage) × Both → Outcome (Unit {0}) × Both
      caught r = (returned tt, r.1)

      again : Both → Outcome (Unit {0}) × Both
      again (a, view) =
          let filled = backfill V.database to_millis get_history fuel id a.store in
          let b = record a { store = filled.store } in
          elim filled.ending [
            | failed ↦ (returned tt, (b, view))
            | _ ↦
                if eqb filled.stored 0
                then (returned tt, (b, view))
                else caught (show_page id (b, view))
          ]

  -- A page that was read goes before what the view shows, folded by itself.
  abbrev pub prepend_older : String → List ConversationMessage → Both → Outcome ℕ × Both
  prepend_older id [] s = (returned 0, s)
  prepend_older id (m ∷ ms) s =
      (returned (length (m ∷ ms)), (s.0, prepend_messages X id (present_messages now (m ∷ ms)) s.1))

  -- Pages further back from the first message that the view shows.
  abbrev pub older_than : String → List ConversationMessage → Both → Outcome ℕ × Both
  older_than id [] = pure 0
  older_than id (first ∷ rest) = do
    older ← on_archive (messages_for V self id (some (base_of first).created_at) page_size)
    prepend_older id older

  unfoldable pub load_older : String → Both → Outcome ℕ × Both
  load_older id s = older_than id (or_else (lookup id s.1.messages) []) s
