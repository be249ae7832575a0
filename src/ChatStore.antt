-- ===== src/ChatStore.antt =====
-- frontend/src/store/chatStore.js: the reactive view that the screens render from. An action is a
-- function on the whole state, as `set` merges what it returns.
pub mod Removal
pub mod Append
pub mod Ticks
mod Tests
use timber_chat.Prelude.{
  ℕ, String, Bool, true, false, not, ◌&&◌, ◌||◌, Option, none, some, List, [], ◌∷◌, ◌++◌, map, Dict,
  lookup, insert, remove, add, discard, contains, keep, find, truthy, or_else, leb, ltb, ◌==◌,
  if◌then◌else◌,
}
use timber_chat.Presentation.{
  ConversationMessage, presented, undecryptable, Presented, Base, base_of,
}
use timber_chat.Presentation.Order.{message_id}
use timber_chat.Store.{ReceiptField, delivered, read}

-- What the store holds and never looks into.
pub record Shapes : Type 1 where
  pub User : Type 0
  pub Ladder : Type 0
  pub Friend : Type 0
  pub Request : Type 0
  pub Streak : Type 0
  pub LevelUp : Type 0

-- A row of the chat list.
pub record Conversation : Type 0 where
  pub id : String
  pub peer_id : String
  pub preview : Option ConversationMessage
  pub unread : ℕ

-- The stamps of a message as the thread shows it.
abbrev pub stamp_of : ReceiptField → Base → Option ℕ
stamp_of delivered b = b.delivered_at
stamp_of read b = b.read_at

-- `{ ...message, [field]: at }`, and a reading fills an absent delivery.
unfoldable pub stamp_base : ReceiptField → ℕ → Base → Base
stamp_base delivered at b = record b { delivered_at = some at }
stamp_base read at b = record b {
  read_at = some at;
  delivered_at = if truthy b.delivered_at then b.delivered_at else some at;
}

abbrev with_base : Base → ConversationMessage → ConversationMessage
with_base b (presented p) = presented (record p { base = b })
with_base b (undecryptable _ r) = undecryptable b r

unfoldable pub mark_message :
    List String → ReceiptField → ℕ → ConversationMessage → ConversationMessage
unfolding stamp_base
mark_message ids field at m =
    if not (contains (message_id m) ids) || truthy (stamp_of field (base_of m))
    then m
    else with_base (stamp_base field at (base_of m)) m

abbrev pub time_of : ConversationMessage → ℕ
time_of m = (base_of m).created_at

-- `sort((a, b) => a.createdAt - b.createdAt)`, which is stable.
abbrev pub place : ConversationMessage → List ConversationMessage → List ConversationMessage
place m [] = m ∷ []
place m (n ∷ ns) = if leb (time_of m) (time_of n) then m ∷ n ∷ ns else n ∷ place m ns

unfoldable pub sort_by_time : List ConversationMessage → List ConversationMessage
sort_by_time [] = []
sort_by_time (m ∷ ms) = place m (sort_by_time ms)

abbrev pub is_text_of : Option String → String → Bool
is_text_of none id = false
is_text_of (some client_id) id = id == client_id

-- The new list of one thread; `client_id` is `message.clientId`.
unfoldable pub appended :
    Option String → ConversationMessage → List ConversationMessage → List ConversationMessage
unfolding sort_by_time
appended client_id m existing = sort_by_time (
    keep (λ e. not (message_id e == message_id m) && not (is_text_of client_id (message_id e)))
      existing
    ++ m ∷ [])

-- Every list of a dictionary, `Object.entries` and a copy.
abbrev map_values {ℓ κ} : {A : Type ℓ} {B : Type κ} → (A → B) → Dict A → Dict B
map_values f [] = []
map_values f ((k, v) ∷ rest) = (k, f v) ∷ map_values f rest

module _ (X : Shapes) where
  pub record ChatStore : Type 0 where
    pub me : Option X.User
    pub ladder : Option X.Ladder
    pub conversations : List Conversation
    pub messages : Dict (List ConversationMessage)
    pub unread : Dict ℕ
    pub active_conversation_id : Option String
    pub friends : List X.Friend
    pub pending_received : List X.Request
    pub pending_sent : List X.Request
    pub typing : Dict String
    pub online_users : List String
    pub level_up : Option X.LevelUp
    pub streaks : Dict X.Streak
    pub syncing : Bool
    pub call_active : Bool

  abbrev pub set_me : Option X.User → ChatStore → ChatStore
  set_me me s = record s { me = me }

  abbrev pub set_streaks : Dict X.Streak → ChatStore → ChatStore
  set_streaks streaks s = record s { streaks = streaks }

  abbrev pub set_ladder : Option X.Ladder → ChatStore → ChatStore
  set_ladder ladder s = record s { ladder = ladder }

  abbrev pub set_syncing : Bool → ChatStore → ChatStore
  set_syncing syncing s = record s { syncing = syncing }

  abbrev pub set_call_active : Bool → ChatStore → ChatStore
  set_call_active call_active s = record s { call_active = call_active }

  abbrev pub show_level_up : Option X.LevelUp → ChatStore → ChatStore
  show_level_up level_up s = record s { level_up = level_up }

  abbrev pub dismiss_level_up : ChatStore → ChatStore
  dismiss_level_up s = record s { level_up = none }

  abbrev pub set_streak : String → X.Streak → ChatStore → ChatStore
  set_streak peer_id streak s = record s { streaks = insert peer_id streak s.streaks }

  abbrev pub set_conversations : List Conversation → ChatStore → ChatStore
  set_conversations conversations s = record s { conversations = conversations }

  abbrev pub set_active_conversation : Option String → ChatStore → ChatStore
  set_active_conversation id s = record s { active_conversation_id = id }

  unfoldable pub remove_conversation : String → ChatStore → ChatStore
  remove_conversation id s = record s {
    conversations = keep (λ c. not (c.id == id)) s.conversations;
    messages = remove id s.messages;
    unread = remove id s.unread;
    typing = remove id s.typing;
    active_conversation_id =
        if is_text_of s.active_conversation_id id then none else s.active_conversation_id;
  }

  unfoldable pub set_messages : String → List ConversationMessage → ChatStore → ChatStore
  set_messages id messages s = record s { messages = insert id messages s.messages }

  unfoldable pub append_message :
      String → Option String → ConversationMessage → ChatStore → ChatStore
  unfolding appended
  append_message id client_id m s = record s {
    messages = insert id (appended client_id m (or_else (lookup id s.messages) [])) s.messages;
  }

  unfoldable pub prepend_messages : String → List ConversationMessage → ChatStore → ChatStore
  prepend_messages id older s = record s {
    messages = insert id (older ++ or_else (lookup id s.messages) []) s.messages;
  }

  unfoldable pub set_unread : String → ℕ → ChatStore → ChatStore
  set_unread id count s = record s { unread = insert id count s.unread }

  unfoldable pub clear_unread : String → ChatStore → ChatStore
  clear_unread id s = record s { unread = insert id 0 s.unread }

  abbrev pub set_friends :
      Option (List X.Friend)
      → Option (List X.Request)
      → Option (List X.Request)
      → ChatStore
      → ChatStore
  set_friends friends received sent s = record s {
    friends = or_else friends [];
    pending_received = or_else received [];
    pending_sent = or_else sent [];
  }

  unfoldable pub set_typing : String → String → Bool → ChatStore → ChatStore
  set_typing id username is_typing s = record s {
    typing = if is_typing then insert id username s.typing else remove id s.typing;
  }

  unfoldable pub set_user_online : String → Bool → ChatStore → ChatStore
  set_user_online user_id online s = record s {
    online_users = if online then add user_id s.online_users else discard user_id s.online_users;
  }

  unfoldable pub mark_receipt : List String → ReceiptField → ℕ → ChatStore → ChatStore
  unfolding mark_message
  mark_receipt ids field at s = record s {
    messages = map_values (map (mark_message ids field at)) s.messages;
  }

  unfoldable pub conversation_by_id : String → ChatStore → Option Conversation
  conversation_by_id id s = find (λ c. c.id == id) s.conversations

  -- `ladder` and `syncing` are not among the fields that `reset` sets.
  unfoldable pub reset : ChatStore → ChatStore
  reset s = record s {
    me = none;
    call_active = false;
    conversations = [];
    messages = [];
    unread = [];
    active_conversation_id = none;
    friends = [];
    pending_received = [];
    pending_sent = [];
    typing = [];
    online_users = [];
    level_up = none;
    streaks = [];
  }
