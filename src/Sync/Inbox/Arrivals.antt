-- ===== src/Sync/Inbox/Arrivals.antt =====
-- `receiveMessage` of frontend/src/lib/sync.js.
use timber_chat.Prelude.{
  ℕ, String, Bool, true, false, ◌&&◌, ◌||◌, Option, none, some, List, find, or_else, ◌==◌,
  if◌then◌else◌,
}
use timber_chat.Presentation.{ConversationMessage}
use timber_chat.Presentation.Order.{message_id}
use timber_chat.Store.{IncomingMessage, confirm_message}
use timber_chat.ChatStore.{Shapes, ChatStore, set_unread, is_text_of}
use timber_chat.Contacts.{
  Conversation, Device, Archive, Self, Outcome, returned, threw, pure, ◌>>=◌, is_set,
}
use timber_chat.Contacts.Conversations.{get_conversation}
use timber_chat.Threads.{store_message}
use timber_chat.Sync.Backfill.{ServerMessage, incoming}
use timber_chat.Sync.Conversations.{ServerConversation, sync_conversations}
use timber_chat.Sync.Inbox.{Both, on_archive, unread_of, show_page, refresh_conversation_list}

pub record Arrival : Type 0 where
  pub is_active : Bool
  pub mine : Bool
  pub message : Option ConversationMessage

module _ (V : Device) (X : Shapes) (self : Self) (to_millis : ℕ → ℕ) (now : ℕ) where
  -- The row that `message.new` gives for a message of this device, and for another.
  abbrev pub echoed : ServerMessage → IncomingMessage
  echoed m = record (incoming V.database to_millis m) {
    seen = some true;
    delivered_at = none;
    read_at = none;
  }

  abbrev pub arrived : (seen : Bool) → ServerMessage → IncomingMessage
  arrived seen m = record (incoming V.database to_millis m) {
    seen = some seen;
    delivered_at = none;
    read_at = none;
  }

  abbrev pub is_mine : ServerMessage → Bool
  is_mine m = m.sender_id == self.user_id

  -- `mine && payload.client_id`: the optimistic row is replaced.
  unfoldable pub store_received :
      (client_id : Option String) (active : Bool) → ServerMessage → Archive V → Archive V
  store_received client_id active m a =
      if is_mine m && is_set client_id
      then record a {
        store = (confirm_message V.database (or_else client_id "") (echoed m) a.store).1;
      }
      else store_message V (arrived (is_mine m || active) m) a

  abbrev pub count_unread :
      String → Both V X self to_millis now → Outcome (Unit {0}) × Both V X self to_millis now
  count_unread id s =
      (returned tt, (s.0, set_unread X id (unread_of V X self to_millis now id s.0) s.1))

  -- The end of `receiveMessage`, when the message is stored: the whole local page is folded again.
  abbrev pub arrival : (active : Bool) → ServerMessage → List ConversationMessage → Arrival
  arrival active m page = record {
    is_active = active;
    mine = is_mine m;
    message = find (λ e. message_id e == m.id) page;
  }

  abbrev pub finish_received :
      (active : Bool)
      → ServerMessage
      → List ConversationMessage
      → Both V X self to_millis now
      → Outcome (Option Arrival) × Both V X self to_millis now
  finish_received active m page = do
    _ ← count_unread m.conversation_id
    _ ← refresh_conversation_list V X self to_millis now
    pure (some (arrival active m page))

  unfoldable pub fold_received :
      (active : Bool)
      → ServerMessage
      → Both V X self to_millis now
      → Outcome (Option Arrival) × Both V X self to_millis now
  unfolding show_page refresh_conversation_list unread_of
  fold_received active m = do
    page ← show_page V X self to_millis now m.conversation_id
    finish_received active m page

  abbrev pub is_active : (visible : Bool) → ServerMessage → ChatStore X → Bool
  is_active visible m view = is_text_of view.active_conversation_id m.conversation_id && visible

  -- The message is stored and the thread folded, for a conversation that is here.
  abbrev pub receive_known :
      (active : Bool) (client_id : Option String)
      → ServerMessage
      → Both V X self to_millis now
      → Outcome (Option Arrival) × Both V X self to_millis now
  receive_known active client_id m s =
      fold_received active m (store_received client_id active m s.0, s.1)

  -- What follows the mirroring of a conversation that was not here; its errors are caught.
  abbrev pub receive_synced :
      (active : Bool) (client_id : Option String)
      → ServerMessage
      → Outcome (List ServerConversation) × Both V X self to_millis now
      → Outcome (Option Arrival) × Both V X self to_millis now
  receive_synced active client_id m (threw _, t) = (returned none, t)
  receive_synced active client_id m (returned _, t) = receive_known active client_id m t

  -- A conversation that this device has not seen is fetched first; `none` is the return when that fails.
  abbrev pub receive_new :
      (get_conversations : Option (List ServerConversation)) (active : Bool)
      → (client_id : Option String) → ServerMessage
      → Both V X self to_millis now
      → Outcome (Option Arrival) × Both V X self to_millis now
  receive_new none active client_id m s = (returned none, s)
  receive_new (some current) active client_id m s =
      receive_synced active client_id m (sync_conversations V to_millis X false current s)

  abbrev pub receive_found :
      (get_conversations : Option (List ServerConversation)) (active : Bool)
      → (client_id : Option String) → ServerMessage
      → Outcome (Option Conversation) × Both V X self to_millis now
      → Outcome (Option Arrival) × Both V X self to_millis now
  receive_found gc active client_id m (threw e, t) = (threw e, t)
  receive_found gc active client_id m (returned (some _), t) = receive_known active client_id m t
  receive_found gc active client_id m (returned none, t) = receive_new gc active client_id m t

  unfoldable pub receive_message :
      (get_conversations : Option (List ServerConversation)) (visible : Bool)
      → (client_id : Option String) → ServerMessage
      → Both V X self to_millis now
      → Outcome (Option Arrival) × Both V X self to_millis now
  unfolding fold_received store_received
  receive_message get_conversations visible client_id m s =
      receive_found get_conversations (is_active visible m s.1) client_id m
        (on_archive V X self to_millis now (get_conversation V m.conversation_id) s)
