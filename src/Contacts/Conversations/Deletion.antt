-- ===== src/Contacts/Conversations/Deletion.antt =====
-- What `deleteConversation` leaves of the history.
use mathlib.Core.Path.{subst}
use timber_chat.Prelude.{
  String, true, ◌≡◌, refl, ap, ◌∙◌, Option, none, some, List, [], ◌∷◌, map, contains, ◌==◌,
  if◌then◌else◌, arith, eq_iff, eq_refl, Bool-cases, Option-cases, inl, inr, All,
}
use timber_chat.Database.{StoredMessage, Database, IsIn}
use timber_chat.Contacts.{Device, Archive}
use timber_chat.Contacts.Conversations.{delete_rows, delete_conversation}

-- A row, unless it is one of the conversation.
abbrev pub outside : String → Option StoredMessage → Option StoredMessage
outside c none = none
outside c (some m) = if m.conversation_id == c then none else some m

module _ (V : Device) where
  abbrev D : Database
  D = V.database

  abbrev id_of : StoredMessage → String
  id_of m = m.id

  get-delete_rows :
      (ms : List StoredMessage) (t : D.messages.Table) (k : String)
      → D.messages.get (delete_rows V ms t) k
        ≡ (if contains k (map id_of ms) then none else D.messages.get t k)
  unfolding delete_rows
  get-delete_rows [] t k = refl
  get-delete_rows (m ∷ ms) t k =
      ground
        (arith, get-delete_rows ms (D.messages.delete t m.id) k, D.messages.get-delete t m.id k)

  contains-IsIn :
      (m : StoredMessage) (ms : List StoredMessage)
      → IsIn m ms
      → contains m.id (map id_of ms) ≡ true
  contains-IsIn m [] i = absurd i
  contains-IsIn m (n ∷ ns) i = elim i [
    | inl e ↦ rw (ap (λ (x : StoredMessage). x.id) e, eq_refl n.id) refl
    | inr j ↦ ground (arith, contains-IsIn m ns j)
  ]

  conversation_of_visited :
      (c k : String) (m : StoredMessage) (t : D.messages.Table) (ms : List StoredMessage)
      → All (λ n. (D.messages.get t n.id ≡ some n) × (n.conversation_id ≡ c)) ms
      → D.messages.get t k ≡ some m
      → contains k (map id_of ms) ≡ true
      → m.conversation_id ≡ c
  conversation_of_visited c k m t [] sound e h = absurd (ground arith)
  conversation_of_visited c k m t (n ∷ ns) sound e h = elim (Bool-cases (n.id == k)) [
    | inl same ↦ ground (arith, sound.0.0, sound.0.1, e, eq_iff n.id k, same)
    | inr other ↦ conversation_of_visited c k m t ns sound.1 e (ground (arith, h, other))
  ]

  get-delete_visited :
      (t : D.messages.Table) (c k : String)
      → D.messages.get (delete_rows V (D.rows t c) t) k ≡ outside c (D.messages.get t k)
  get-delete_visited t c k = elim (Option-cases (D.messages.get t k)) [
    | inl e ↦ ground (arith, get-delete_rows (D.rows t c) t k, e)
    | inr (m, e) ↦
        let key : m.id ≡ k = D.messages.get_key t k m e in
        let stands : D.messages.get t m.id ≡ some m = ap (D.messages.get t) key ∙ e in
        elim (Bool-cases (m.conversation_id == c)) [
          | inl here ↦
              let visited : IsIn m (D.rows t c) =
                subst (λ x. IsIn m (D.rows t x)) ((eq_iff m.conversation_id c).0 here)
                  (D.rows_complete t m stands) in
              let hit : contains k (map id_of (D.rows t c)) ≡ true =
                subst (λ x. contains x (map id_of (D.rows t c)) ≡ true) key
                  (contains-IsIn m (D.rows t c) visited) in
              ground (arith, get-delete_rows (D.rows t c) t k, e, hit, here)
          | inr away ↦ elim (Bool-cases (contains k (map id_of (D.rows t c)))) [
            | inl hit ↦ ground (
              arith,
              away,
              eq_iff m.conversation_id c,
              conversation_of_visited c k m t (D.rows t c) (D.rows_sound t c) e hit,
            )
            | inr miss ↦ ground (arith, get-delete_rows (D.rows t c) t k, e, miss, away)
          ]
        ]
  ]

  -- A table that holds nothing of the conversation has no rows of it.
  no_rows :
      (t u : D.messages.Table) (c : String) (ms : List StoredMessage)
      (left : (k : String) → D.messages.get u k ≡ outside c (D.messages.get t k))
      → All (λ m. (D.messages.get u m.id ≡ some m) × (m.conversation_id ≡ c)) ms
      → ms ≡ []
  no_rows t u c [] left h = refl
  no_rows t u c (m ∷ ms) left h = absurd (elim (Option-cases (D.messages.get t m.id)) [
    | inl e ↦ ground (arith, left m.id, e, h.0.0)
    | inr (n, e) ↦ ground (arith, left m.id, e, h.0.0, h.0.1, eq_iff n.conversation_id c)
  ])

  emptied :
      (t : D.messages.Table) (r : D.conversations.Table) (c k : String)
      → (D.messages.get (delete_rows V (D.rows t c) t) k ≡ outside c (D.messages.get t k))
        × (D.rows (delete_rows V (D.rows t c) t) c ≡ [])
        × (D.conversations.get (D.conversations.delete r c) k
            ≡ (if c == k then none else D.conversations.get r k))
  emptied t r c k =
      let u = delete_rows V (D.rows t c) t in
      (
        get-delete_visited t c k,
        no_rows t u c (D.rows u c) (get-delete_visited t c) (D.rows_sound u c),
        D.conversations.get-delete r c k,
      )

  -- Deleting a conversation takes away its row and every one of its messages, and no other row or
  -- message: the cursor then finds none of it.
  pub delete_conversation_lem :
      (c : String) (peer_id : Option String) (a : Archive V) (k : String)
      → let after = (delete_conversation V c peer_id a).store in
        (D.messages.get after.messages k ≡ outside c (D.messages.get a.store.messages k))
        × (D.rows after.messages c ≡ [])
        × (D.conversations.get after.conversations k
            ≡ (if c == k then none else D.conversations.get a.store.conversations k))
  unfolding delete_conversation
  delete_conversation_lem c none a k = emptied a.store.messages a.store.conversations c k
  delete_conversation_lem c (some p) a k = emptied a.store.messages a.store.conversations c k
