-- ===== src/Sync/Inbox/Received.antt =====
-- `receiveMessage`: the view after a message came in.
use mathlib.Core.Path.{subst}
use timber_chat.Prelude.{
  ℕ, String, Bool, false, inl, inr, ◌≡◌, refl, sym, ap, ◌∙◌, Option, none, some, List, lookup,
  lookup-insert, arith, eq_refl, Bool-cases, ◌&&◌, ◌||◌, or_else,
}
use timber_chat.Presentation.{ConversationMessage}
use timber_chat.Database.{StoredMessage}
use timber_chat.Store.{Store, IncomingMessage, flag, unread_count, put_message, confirm_message}
use timber_chat.Store.Rows.{get-put_message, put_message-IsRowOf}
use timber_chat.ChatStore.{Shapes, ChatStore, set_messages, set_unread}
use timber_chat.Contacts.{
  Device, Archive, Self, Outcome, returned, threw, Holds, Holds-map, bind-Holds, pure, Conversation,
  is_set,
}
use timber_chat.Contacts.Conversations.{get_conversation}
use timber_chat.Sync.Backfill.{ServerMessage}
use timber_chat.Sync.Conversations.{ServerConversation, sync_conversations}
use timber_chat.Sync.Inbox.{show_page, shown_page, refresh_conversation_list, unread_of, on_archive}
use timber_chat.Sync.Inbox.Arrivals.{
  Arrival, arrival, receive_message, receive_known, receive_synced, receive_found, is_active,
  is_mine, echoed, arrived, fold_received, finish_received, count_unread, store_received,
}
use timber_chat.Sync.Inbox.Refresh.{
  Folded, Refreshed, folded, shown_page-Holds, on_archive-Holds, refresh_conversation_list-Holds,
}

module _ (V : Device) (X : Shapes) (self : Self) (to_millis : ℕ → ℕ) (now : ℕ) where
  -- The thread is the fold of the rows that the database now has, and its badge their count.
  abbrev pub InStep : String → Archive V × ChatStore X → Type 0
  InStep id (a, view) =
      ((key : Option String) × (lookup id view.messages ≡ some (folded V self now id key a.store)))
      × (lookup id view.unread ≡ some (unread_count V.database id self.user_id a.store))

  -- The row of a message stands in its conversation, and waits for nothing.
  abbrev pub IsStored : ServerMessage → Store V.database → Type 0
  IsStored m s =
      (row : StoredMessage) × (V.database.messages.get s.messages m.id ≡ some row)
      × (row.conversation_id ≡ m.conversation_id)
      × (row.pending ≡ false)

  -- An arrival that is told comes with its row, and with a view in step.
  abbrev pub Told : ServerMessage → Option Arrival → Archive V × ChatStore X → Type 0
  Told m none both = Unit
  Told m (some r) both = IsStored m both.0.store × InStep m.conversation_id both

  InStep-Refreshed :
      (id : String) (s : Store V.database) (page : List ConversationMessage) (key : Option String)
      (both : Archive V × ChatStore X)
      → page ≡ folded V self now id key s
      → Refreshed V X self to_millis now id s page both
      → InStep id both
  InStep-Refreshed id s page key both e (same, thread, count) = (
    (key, thread ∙ ap some (e ∙ ap (folded V self now id key) (sym same))),
    count
        ∙ ap (λ (t : Store V.database). some (unread_count V.database id self.user_id t))
            (sym same),
  )

  IsStored-put_message :
      (m : ServerMessage) (i : IncomingMessage) (s : Store V.database)
      → i.id ≡ m.id
      → i.conversation_id ≡ m.conversation_id
      → flag i.pending ≡ false
      → IsStored m (put_message V.database i s).1
  IsStored-put_message m i s e f g =
      let is_row = put_message-IsRowOf V.database i s in
      (
        (put_message V.database i s).0,
        ground (arith, get-put_message V.database i s m.id, e, eq_refl m.id),
        is_row.conversation_id ∙ f,
        is_row.pending ∙ g,
      )

  IsStored-store_received :
      (client_id : Option String) (active : Bool) (m : ServerMessage) (a : Archive V)
      → IsStored m (store_received V X self to_millis now client_id active m a).store
  unfolding store_received confirm_message
  IsStored-store_received client_id active m a =
      elim (Bool-cases (is_mine V X self to_millis now m && is_set client_id)) [
        | inl mine ↦ rw mine (
            IsStored-put_message m
              (record (echoed V X self to_millis now m) { pending = some false })
              (record a.store {
                messages = V.database.messages.delete a.store.messages (or_else client_id "");
              })
              refl refl refl)
        | inr other ↦ rw other (
            IsStored-put_message m
              (arrived V X self to_millis now (is_mine V X self to_millis now m || active) m)
              a.store refl refl refl)
      ]

  finish_received-Holds :
      (active : Bool) (m : ServerMessage) (page : List ConversationMessage) (key : Option String)
      (a : Archive V) (view : ChatStore X)
      → IsStored m a.store
      → page ≡ folded V self now m.conversation_id key a.store
      → lookup m.conversation_id view.messages ≡ some page
      → Holds (Told m) (λ _. Unit) (finish_received V X self to_millis now active m page (a, view))
  unfolding unread_of set_unread
  finish_received-Holds active m page key a view stored made shown =
      let id = m.conversation_id in
      let counted = count_unread V X self to_millis now id (a, view) in
      let before : Refreshed V X self to_millis now id a.store page counted.1 = (
        refl,
        shown,
        ground (
          arith,
          lookup-insert id id (unread_count V.database id self.user_id a.store) view.unread,
          eq_refl id,
        ),
      ) in
      bind-Holds (λ _. Refreshed V X self to_millis now id a.store page) (Told m) (λ _. Unit)
        (refresh_conversation_list V X self to_millis now)
        (λ _. pure (some (arrival V X self to_millis now active m page))) counted.1
        (Holds-map (λ _. Refreshed V X self to_millis now id a.store page)
          (λ _. Refreshed V X self to_millis now id a.store page)
          (Refreshed V X self to_millis now id a.store page) (λ _. Unit)
          (refresh_conversation_list V X self to_millis now counted.1) (λ _ _ h. h) (λ _ _. tt)
          (refresh_conversation_list-Holds V X self to_millis now id a.store page counted.1 before))
        (λ _ both h.
          (subst (IsStored m) (sym h.0) stored, InStep-Refreshed id a.store page key both made h))

  show_page-Holds :
      (id : String) (a : Archive V) (view : ChatStore X)
      → Holds {S = Archive V × ChatStore X}
          (λ page both.
            Folded V X self to_millis now id a.store page both.0
            × (lookup id both.1.messages ≡ some page))
          (λ _. Unit)
          (show_page V X self to_millis now id (a, view))
  unfolding show_page set_messages
  show_page-Holds id a view =
      bind-Holds {S = Archive V × ChatStore X}
        (λ page both. Folded V X self to_millis now id a.store page both.0 × (both.1 ≡ view))
        (λ page both.
          Folded V X self to_millis now id a.store page both.0
          × (lookup id both.1.messages ≡ some page))
        (λ _. Unit) (on_archive V X self to_millis now (shown_page V X self to_millis now id))
        (λ page both. (returned page, (both.0, set_messages X id page both.1))) (a, view)
        (Holds-map {S = Archive V × ChatStore X}
          (λ page both. Folded V X self to_millis now id a.store page both.0 × (both.1 ≡ view))
          (λ page both. Folded V X self to_millis now id a.store page both.0 × (both.1 ≡ view))
          (λ both. (both.0.store ≡ a.store) × (both.1 ≡ view)) (λ _. Unit)
          (on_archive V X self to_millis now (shown_page V X self to_millis now id) (a, view))
          (λ _ _ h. h) (λ _ _. tt)
          (on_archive-Holds V X self to_millis now (Folded V X self to_millis now id a.store)
            (λ b. b.store ≡ a.store) (shown_page V X self to_millis now id) a view
            (shown_page-Holds V X self to_millis now id a.store a refl)))
        (λ page both h. (h.0, ground (arith, lookup-insert id id page both.1.messages, eq_refl id)))

  fold_received-Holds :
      (active : Bool) (m : ServerMessage) (both : Archive V × ChatStore X)
      → IsStored m both.0.store
      → Holds (Told m) (λ _. Unit) (fold_received V X self to_millis now active m both)
  unfolding fold_received
  fold_received-Holds active m (a, view) stored =
      bind-Holds {S = Archive V × ChatStore X}
        (λ page both.
          Folded V X self to_millis now m.conversation_id a.store page both.0
          × (lookup m.conversation_id both.1.messages ≡ some page))
        (Told m) (λ _. Unit) (show_page V X self to_millis now m.conversation_id)
        (finish_received V X self to_millis now active m) (a, view)
        (show_page-Holds m.conversation_id a view)
        (λ page both h.
          finish_received-Holds active m page h.0.1.0 both.0 both.1
            (subst (IsStored m) (sym h.0.0) stored)
            (h.0.1.1 ∙ ap (folded V self now m.conversation_id h.0.1.0) (sym h.0.0)) h.1)

  receive_known-Holds :
      (active : Bool) (client_id : Option String) (m : ServerMessage)
      (both : Archive V × ChatStore X)
      → Holds (Told m) (λ _. Unit) (receive_known V X self to_millis now active client_id m both)
  receive_known-Holds active client_id m both =
      fold_received-Holds active m
        (store_received V X self to_millis now client_id active m both.0, both.1)
        (IsStored-store_received client_id active m both.0)

  receive_synced-Holds :
      (active : Bool) (client_id : Option String) (m : ServerMessage)
      (r : Outcome (List ServerConversation)) (both : Archive V × ChatStore X)
      → Holds
          (Told m)
          (λ _. Unit)
          (receive_synced V X self to_millis now active client_id m (r, both))
  receive_synced-Holds active client_id m (threw e) both = tt
  receive_synced-Holds active client_id m (returned _) both =
      receive_known-Holds active client_id m both

  receive_found-Holds :
      (gc : Option (List ServerConversation)) (active : Bool) (client_id : Option String)
      (m : ServerMessage) (r : Outcome (Option Conversation)) (both : Archive V × ChatStore X)
      → Holds
          (Told m)
          (λ _. Unit)
          (receive_found V X self to_millis now gc active client_id m (r, both))
  receive_found-Holds gc active client_id m (threw e) both = tt
  receive_found-Holds gc active client_id m (returned (some c)) both =
      receive_known-Holds active client_id m both
  receive_found-Holds none active client_id m (returned none) both = tt
  receive_found-Holds (some current) active client_id m (returned none) both =
      let synced = sync_conversations V to_millis X false current both in
      receive_synced-Holds active client_id m synced.0 synced.1

  receive_message-Holds :
      (gc : Option (List ServerConversation)) (visible : Bool) (client_id : Option String)
      (m : ServerMessage) (both : Archive V × ChatStore X)
      → Holds
          (Told m)
          (λ _. Unit)
          (receive_message V X self to_millis now gc visible client_id m both)
  unfolding receive_message
  receive_message-Holds gc visible client_id m both =
      let found = on_archive V X self to_millis now (get_conversation V m.conversation_id) both in
      receive_found-Holds gc (is_active V X self to_millis now visible m both.1) client_id m found.0
        found.1

  -- A run of `receiveMessage` that tells of an arrival has stored the message under its id and its
  -- conversation, waiting for nothing; the thread that is shown is the fold of the newest rows that the
  -- database then has, and the badge their count of unread ones.
  pub receive_message_lem :
      (gc : Option (List ServerConversation)) (visible : Bool) (client_id : Option String)
      (m : ServerMessage) (before after : Archive V × ChatStore X) (r : Arrival)
      → receive_message V X self to_millis now gc visible client_id m before
        ≡ (returned (some r), after)
      → IsStored m after.0.store × InStep m.conversation_id after
  receive_message_lem gc visible client_id m before after r run =
      subst (Holds (Told m) (λ _. Unit)) run (receive_message-Holds gc visible client_id m before)
