-- ===== src/ChatStore/Removal.antt =====
-- `removeConversation`.
use timber_chat.Prelude.{
  String, false, not, ◌≡◌, ◌≢◌, refl, Option, none, some, List, [], ◌∷◌, lookup, keep, find,
  lookup-remove, arith, eq_iff, eq_refl, ◌==◌, if◌then◌else◌,
}
use timber_chat.ChatStore.{
  is_text_of, Shapes, ChatStore, Conversation, remove_conversation, conversation_by_id,
}

find-keep_self :
    (id : String) (cs : List Conversation)
    → find (λ (c : Conversation). c.id == id) (keep (λ c. not (c.id == id)) cs) ≡ none
find-keep_self id [] = refl
find-keep_self id (c ∷ cs) = ground (arith, find-keep_self id cs)

find-keep_other :
    (id other : String) (cs : List Conversation)
    → other ≢ id
    → find (λ (c : Conversation). c.id == other) (keep (λ c. not (c.id == id)) cs)
      ≡ find (λ (c : Conversation). c.id == other) cs
find-keep_other id other [] h = refl
find-keep_other id other (c ∷ cs) h =
    ground (arith, find-keep_other id other cs h, eq_iff c.id id, eq_iff c.id other)

-- A removed conversation leaves no messages, badge, typing mark, chat-list row or active mark behind,
-- and every other conversation keeps all of these.
pub remove_conversation_lem :
    (X : Shapes) (id other : String) (s : ChatStore X)
    → other ≢ id
    → (lookup id (remove_conversation X id s).messages ≡ none)
      × (lookup id (remove_conversation X id s).unread ≡ none)
      × (lookup id (remove_conversation X id s).typing ≡ none)
      × (conversation_by_id X id (remove_conversation X id s) ≡ none)
      × (is_text_of (remove_conversation X id s).active_conversation_id id ≡ false)
      × (lookup other (remove_conversation X id s).messages ≡ lookup other s.messages)
      × (lookup other (remove_conversation X id s).unread ≡ lookup other s.unread)
      × (lookup other (remove_conversation X id s).typing ≡ lookup other s.typing)
      × (conversation_by_id X other (remove_conversation X id s) ≡ conversation_by_id X other s)
      × (is_text_of (remove_conversation X id s).active_conversation_id other
          ≡ is_text_of s.active_conversation_id other)
unfolding remove_conversation conversation_by_id
remove_conversation_lem X id other s h = (
  rw (lookup-remove, eq_refl),
  rw (lookup-remove, eq_refl),
  rw (lookup-remove, eq_refl),
  find-keep_self id s.conversations,
  inactive s.active_conversation_id,
  ground (arith, lookup-remove id other s.messages, eq_iff id other),
  ground (arith, lookup-remove id other s.unread, eq_iff id other),
  ground (arith, lookup-remove id other s.typing, eq_iff id other),
  find-keep_other id other s.conversations h,
  active s.active_conversation_id,
)
  where
    inactive : (a : Option String) → is_text_of (if is_text_of a id then none else a) id ≡ false
    inactive none = refl
    inactive (some a) = ground (arith, eq_iff id a)

    active :
        (a : Option String)
        → is_text_of (if is_text_of a id then none else a) other ≡ is_text_of a other
    active none = refl
    active (some a) = ground (arith, h, eq_iff id a, eq_iff other a)
