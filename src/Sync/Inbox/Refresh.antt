-- ===== src/Sync/Inbox/Refresh.antt =====
-- What the refreshing of the chat list leaves alone.
use mathlib.Core.Path.{subst}
use timber_chat.Prelude.{
  ℕ, String, ◌≡◌, refl, sym, ap, ◌∙◌, Option, none, some, List, [], ◌∷◌, lookup, lookup-insert,
  arith, inl, inr, All, eq_iff, Bool-cases, Option-cases, map,
}
use timber_chat.Presentation.{ConversationMessage, present_messages}
use timber_chat.Store.{Store, unread_count}
use timber_chat.Sync.Backfill.{page_size}
use timber_chat.ChatStore.{Shapes, ChatStore, set_unread, set_conversations}
use timber_chat.ChatStore as View
use timber_chat.Contacts.{
  PeerProfile, Conversation, Device, Archive, Self, Outcome, returned, threw, is_set, bind-keeps,
  Holds, Holds-both, Holds-map, bind-Holds, ◌>>=◌, pure,
}
use timber_chat.Contacts.Peers.{get_peer}
use timber_chat.Contacts.Conversations.{
  get_conversation, key_for_conversation, key_of, key_with, list_conversations,
}
use timber_chat.Threads.{messages_for, decrypt_record, page_before}
use timber_chat.Sync.Inbox.{
  shown_page, preview_rows, refresh_conversation_list, finish_row, unread_of, set_counts,
  on_archive, on_view, show_rows, list_rows,
}

module _ (V : Device) (self : Self) where
  store-get_peer : (id : String) (a : Archive V) → (get_peer V id a).1.store ≡ a.store
  unfolding get_peer
  store-get_peer id a = ground arith

  store-key_with :
      (id : String) (o : Option PeerProfile) (a : Archive V)
      → (key_with V self id o a).1.store ≡ a.store
  store-key_with id none a = refl
  store-key_with id (some peer) a = ground arith

  store-key_of :
      (id : String) (o : Option Conversation) (a : Archive V)
      → (key_of V self id o a).1.store ≡ a.store
  store-key_of id none a = refl
  store-key_of id (some c) a = elim (Bool-cases (is_set c.security_error)) [
    | inl e ↦ rw e refl
    | inr e ↦ elim (Option-cases c.peer_id) [
      | inl f ↦ rw (e, f) refl
      | inr (peer_id, f) ↦
          rw (e, f)
            (bind-keeps (λ b. b.store ≡ a.store) (get_peer V peer_id) (key_with V self id) a
              (store-get_peer peer_id a) (λ o b g. store-key_with id o b ∙ g))
    ]
  ]

  pub store-key_for_conversation :
      (id : String) (a : Archive V) → (key_for_conversation V self id a).1.store ≡ a.store
  unfolding key_for_conversation
  store-key_for_conversation id a =
      bind-keeps (λ b. b.store ≡ a.store) (get_conversation V id) (key_of V self id) a
        (unfold get_conversation in ground arith) (λ o b e. store-key_of id o b ∙ e)

  -- The fold of the newest rows of a thread, opened with a key if there is one.
  abbrev pub folded :
      (now : ℕ) → String → Option String → Store V.database → List ConversationMessage
  folded now id key s =
      present_messages now
        (map (decrypt_record V id key) (page_before none page_size (V.database.rows s.messages id)))

module _ (V : Device) (X : Shapes) (self : Self) (to_millis : ℕ → ℕ) (now : ℕ) where
  abbrev Same : Store V.database → Archive V → Type 0
  Same s b = b.store ≡ s

  abbrev pub Folded : String → Store V.database → List ConversationMessage → Archive V → Type 0
  Folded id s page b = (b.store ≡ s) × ((key : Option String) × (page ≡ folded V self now id key s))

  abbrev pub Counted : Store V.database → List View.Conversation → Archive V → Type 0
  Counted s rows b =
      (b.store ≡ s) × All (λ r. r.unread ≡ unread_count V.database r.id self.user_id s) rows

  -- A page leaves the rows alone, and is the fold of them.
  pub shown_page-Holds :
      (id : String) (s : Store V.database) (a : Archive V)
      → a.store ≡ s
      → Holds (Folded id s) (Same s) (shown_page V X self to_millis now id a)
  unfolding shown_page messages_for
  shown_page-Holds id s a e =
      let rows = page_before none page_size (V.database.rows a.store.messages id) in
      bind-Holds
        (λ ms b.
          (b.store ≡ s) × ((key : Option String) × (ms ≡ map (decrypt_record V id key) rows)))
        (Folded id s) (Same s) (messages_for V self id none page_size)
        (λ page. pure (present_messages now page)) a
        (bind-Holds (λ key. Same s)
          (λ ms b.
            (b.store ≡ s) × ((key : Option String) × (ms ≡ map (decrypt_record V id key) rows)))
          (Same s) (key_for_conversation V self id)
          (λ key. pure (map (decrypt_record V id key) rows)) a
          (Holds-both (Same s) (key_for_conversation V self id a)
            (store-key_for_conversation V self id a ∙ e))
          (λ key b f. (f, (key, refl))))
        (λ ms b h.
          (h.0, (h.1.0, ap (present_messages now) h.1.1 ∙ ap (folded V self now id h.1.0) e)))

  -- The count that a row has is the one of the database.
  pub preview_rows-Holds :
      (cs : List Conversation) (s : Store V.database) (a : Archive V)
      → a.store ≡ s
      → Holds (Counted s) (Same s) (preview_rows V X self to_millis now cs a)
  unfolding preview_rows unread_of
  preview_rows-Holds [] s a e = (e, tt)
  preview_rows-Holds (c ∷ cs) s a e =
      bind-Holds (λ page. Same s) (Counted s) (Same s) (shown_page V X self to_millis now c.id)
        (λ page.
          preview_rows V X self to_millis now cs >>= finish_row V X self to_millis now c page)
        a
        (Holds-map (Folded c.id s) (λ _. Same s) (Same s) (Same s)
          (shown_page V X self to_millis now c.id a) (λ _ _ h. h.0) (λ _ h. h)
          (shown_page-Holds c.id s a e))
        (λ page b f.
          bind-Holds (Counted s) (Counted s) (Same s) (preview_rows V X self to_millis now cs)
            (finish_row V X self to_millis now c page) b (preview_rows-Holds cs s b f)
            (λ rows d h. (h.0, (ap (unread_count V.database c.id self.user_id) h.0, h.1))))

  -- Counts that are those of the database leave a count that is.
  set_counts-unread :
      (rows : List View.Conversation) (view : ChatStore X) (count : String → ℕ) (id : String)
      → All (λ r. r.unread ≡ count r.id) rows
      → lookup id view.unread ≡ some (count id)
      → lookup id (set_counts V X self to_millis now rows view).unread ≡ some (count id)
  unfolding set_counts set_unread
  set_counts-unread [] view count id h e = e
  set_counts-unread (r ∷ rs) view count id h e =
      set_counts-unread rs (set_unread X r.id r.unread view) count id h.1
        (ground (arith, lookup-insert r.id id r.unread view.unread, h.0, e, eq_iff r.id id))

  set_counts-messages :
      (rows : List View.Conversation) (view : ChatStore X)
      → (set_counts V X self to_millis now rows view).messages ≡ view.messages
  unfolding set_counts set_unread
  set_counts-messages [] view = refl
  set_counts-messages (r ∷ rs) view = set_counts-messages rs (set_unread X r.id r.unread view)

  -- An action on the database leaves the view.
  pub on_archive-Holds :
      {A : Type 0} (P : A → Archive V → Type 0) (E : Archive V → Type 0)
      (m : Archive V → Outcome A × Archive V) (a : Archive V) (view : ChatStore X)
      → Holds P E (m a)
      → Holds {S = Archive V × ChatStore X}
          (λ x s. P x s.0 × (s.1 ≡ view))
          (λ s. E s.0 × (s.1 ≡ view))
          (on_archive V X self to_millis now m (a, view))
  on_archive-Holds {A = A} P E m a view h = lifted (m a).0 (m a).1 h
    where
      lifted :
          (r : Outcome A) (b : Archive V)
          → Holds P E (r, b)
          → Holds {S = Archive V × ChatStore X}
              (λ x s. P x s.0 × (s.1 ≡ view))
              (λ s. E s.0 × (s.1 ≡ view))
              (r, (b, view))
      lifted (returned x) b h = (h, refl)
      lifted (threw e) b h = (h, refl)

  -- The two parts of the state: what a thread shows, and its count.
  abbrev pub Refreshed :
      String → Store V.database → List ConversationMessage → Archive V × ChatStore X → Type 0
  Refreshed id s page (b, view) =
      (b.store ≡ s)
      × (lookup id view.messages ≡ some page)
      × (lookup id view.unread ≡ some (unread_count V.database id self.user_id s))

  Refreshed-of :
      (id : String) (s : Store V.database) (page : List ConversationMessage) (b : Archive V)
      (old view : ChatStore X)
      → b.store ≡ s
      → view ≡ old
      → (lookup id old.messages ≡ some page)
        × (lookup id old.unread ≡ some (unread_count V.database id self.user_id s))
      → Refreshed id s page (b, view)
  Refreshed-of id s page b old view e f h = (
    e,
    subst (λ v. lookup id v.messages ≡ some page) (sym f) h.0,
    subst (λ v. lookup id v.unread ≡ some (unread_count V.database id self.user_id s)) (sym f) h.1,
  )

  list_rows-Holds :
      (id : String) (s : Store V.database) (page : List ConversationMessage)
      (cs : List Conversation) (both : Archive V × ChatStore X)
      → Refreshed id s page both
      → Holds
          (λ _. Refreshed id s page)
          (Refreshed id s page)
          (list_rows V X self to_millis now cs both)
  list_rows-Holds id s page cs (a, view) (e, thread, count) =
      let shown : (lookup id view.messages ≡ some page)
          × (lookup id view.unread ≡ some (unread_count V.database id self.user_id s)) =
        (thread, count) in
      bind-Holds (λ rows both. Counted s rows both.0 × (both.1 ≡ view)) (λ _. Refreshed id s page)
        (Refreshed id s page)
        (on_archive V X self to_millis now (preview_rows V X self to_millis now cs))
        (λ rows. on_view V X self to_millis now (show_rows V X self to_millis now rows)) (a, view)
        (Holds-map (λ rows both. Counted s rows both.0 × (both.1 ≡ view))
          (λ rows both. Counted s rows both.0 × (both.1 ≡ view))
          (λ both. Same s both.0 × (both.1 ≡ view)) (Refreshed id s page)
          (on_archive V X self to_millis now (preview_rows V X self to_millis now cs) (a, view))
          (λ _ _ h. h) (λ both h. Refreshed-of id s page both.0 view both.1 h.0 h.1 shown)
          (on_archive-Holds (Counted s) (Same s) (preview_rows V X self to_millis now cs) a view
            (preview_rows-Holds cs s a e)))
        (λ rows both h.
          let counts : String → ℕ = λ i. unread_count V.database i self.user_id s in
          let before = Refreshed-of id s page both.0 view both.1 h.0.0 h.1 shown in
          (
            h.0.0,
            ap (lookup id) (set_counts-messages rows (set_conversations X rows both.1)) ∙ before.1,
            set_counts-unread rows (set_conversations X rows both.1) counts id h.0.1 before.2,
          ))

  pub refresh_conversation_list-Holds :
      (id : String) (s : Store V.database) (page : List ConversationMessage)
      (both : Archive V × ChatStore X)
      → Refreshed id s page both
      → Holds
          (λ _. Refreshed id s page)
          (Refreshed id s page)
          (refresh_conversation_list V X self to_millis now both)
  unfolding refresh_conversation_list list_conversations
  refresh_conversation_list-Holds id s page (a, view) h =
      bind-Holds (λ _. Refreshed id s page) (λ _. Refreshed id s page) (Refreshed id s page)
        (on_archive V X self to_millis now (list_conversations V))
        (list_rows V X self to_millis now) (a, view)
        (Holds-both (Refreshed id s page)
          (on_archive V X self to_millis now (list_conversations V) (a, view)) h)
        (λ cs both g. list_rows-Holds id s page cs both g)
