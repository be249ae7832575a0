-- ===== src/Store/Unread.antt =====
-- The unread badge: `markSeen` and `unreadCount`.
use mathlib.Core.Path.{subst}
use mathlib.Core.Bool.{false≢true}
use timber_chat.Prelude.{
  String, true, false, Option, some, List, [], ◌∷◌, ◌≡◌, refl, sym, ap, ◌∙◌, arith, eq_iff, eq_refl,
  none, if◌then◌else◌, ◌==◌, Option-cases, Bool-cases, inl, inr, All, All-map,
}
use timber_chat.Database.{StoredMessage, Database, IsIn}
use timber_chat.Store.{Store, mark_rows_seen, mark_seen, is_unread, count_unread, unread_count}

module _ (D : Database) (c self : String) where
  -- What stands under a key is no unread message of the conversation.
  abbrev pub IsSettled : Option StoredMessage → Type 0
  IsSettled o =
      (m : StoredMessage) → o ≡ some m → m.conversation_id ≡ c → is_unread D self m ≡ false

  abbrev seen_row : StoredMessage → StoredMessage
  seen_row m = record m { seen = true }

  put-IsSettled :
      (u : D.messages.Table) (m : StoredMessage) (k : String)
      → IsSettled (D.messages.get u k)
      → IsSettled (D.messages.get (D.messages.put u (seen_row m)) k)
  put-IsSettled u m k h n e same = ground (arith, h n, same, D.messages.get-put u (seen_row m) k)

  mark_rows_seen-IsSettled :
      (ms : List StoredMessage) (u : D.messages.Table) (k : String)
      → IsSettled (D.messages.get u k)
      → IsSettled (D.messages.get (mark_rows_seen D self ms u).1 k)
  unfolding mark_rows_seen
  mark_rows_seen-IsSettled [] u k h = h
  mark_rows_seen-IsSettled (m ∷ ms) u k h = elim (Bool-cases (is_unread D self m)) [
    | inl fresh ↦
        rw fresh
          (mark_rows_seen-IsSettled ms (D.messages.put u (seen_row m)) k (put-IsSettled u m k h))
    | inr old ↦ rw old (mark_rows_seen-IsSettled ms u k h)
  ]

  -- The row under `k` is one that the cursor visits.
  visited-IsSettled :
      (ms : List StoredMessage) (t u : D.messages.Table) (k : String) (n : StoredMessage)
      → All (λ m. D.messages.get t m.id ≡ some m) ms
      → D.messages.get t k ≡ some n
      → D.messages.get u k ≡ some n
      → IsIn n ms
      → IsSettled (D.messages.get (mark_rows_seen D self ms u).1 k)
  unfolding mark_rows_seen
  visited-IsSettled [] t u k n h et eu i = absurd i
  visited-IsSettled (m ∷ ms) t u k n h et eu i = elim (Bool-cases (is_unread D self m)) [
    | inl fresh ↦ rw fresh (elim (Bool-cases (m.id == k)) [
      | inl same ↦
          mark_rows_seen-IsSettled ms (D.messages.put u (seen_row m)) k
            (λ x e _. ground (arith, D.messages.get-put u (seen_row m) k))
      | inr other ↦
          visited-IsSettled ms t (D.messages.put u (seen_row m)) k n h.1 et
            (ground (arith, eu, D.messages.get-put u (seen_row m) k)) (later other)
    ])
    | inr old ↦ rw old (elim (Bool-cases (m.id == k)) [
      | inl same ↦
          mark_rows_seen-IsSettled ms u k
            (λ x e _. ground (arith, h.0, et, eu, (eq_iff m.id k).0 same))
      | inr other ↦ visited-IsSettled ms t u k n h.1 et eu (later other)
    ])
  ]
    where
      later : (m.id == k) ≡ false → IsIn n ms
      later other = elim i [
        | inl e ↦ absurd (
            false≢true (
              sym other
              ∙ (eq_iff m.id k).1
                  (ap (λ (x : StoredMessage). x.id) (sym e) ∙ D.messages.get_key t k n et)))
        | inr j ↦ j
      ]

  -- What stands under a key, if it is a row of another conversation.
  abbrev pub elsewhere : Option StoredMessage → Option StoredMessage
  elsewhere none = none
  elsewhere (some m) = if m.conversation_id == c then none else some m

  elsewhere-here : (m : StoredMessage) → m.conversation_id ≡ c → elsewhere (some m) ≡ none
  elsewhere-here m e = ground (arith, e, eq_refl c)

  untouched :
      (ms : List StoredMessage) (t u : D.messages.Table) (k : String)
      → All (λ m. (D.messages.get t m.id ≡ some m) × (m.conversation_id ≡ c)) ms
      → elsewhere (D.messages.get u k) ≡ elsewhere (D.messages.get t k)
      → elsewhere (D.messages.get (mark_rows_seen D self ms u).1 k) ≡ elsewhere (D.messages.get t k)
  unfolding mark_rows_seen
  untouched [] t u k h same = same
  untouched (m ∷ ms) t u k h same = elim (Bool-cases (is_unread D self m)) [
    | inl fresh ↦ rw fresh (untouched ms t (D.messages.put u (seen_row m)) k h.1 put_here)
    | inr old ↦ rw old (untouched ms t u k h.1 same)
  ]
    where
      put_here :
          elsewhere (D.messages.get (D.messages.put u (seen_row m)) k)
          ≡ elsewhere (D.messages.get t k)
      put_here = elim (Bool-cases (m.id == k)) [
        | inl e ↦
            rw (D.messages.get-put u (seen_row m) k, e)
              (elsewhere-here (seen_row m) h.0.1
                ∙ sym (
                    ap elsewhere (sym (ap (D.messages.get t) ((eq_iff m.id k).0 e)) ∙ h.0.0)
                    ∙ elsewhere-here m h.0.1))
        | inr e ↦ rw (D.messages.get-put u (seen_row m) k, e) same
      ]

  pub count_unread-zero :
      (ms : List StoredMessage)
      → All (λ m. is_unread D self m ≡ false) ms
      → count_unread D self ms ≡ 0
  count_unread-zero [] h = refl
  count_unread-zero (m ∷ ms) h = rw h.0 (omega (arith, count_unread-zero ms h.1))

  pub mark_seen-IsSettled :
      (s : Store D) (k : String) → IsSettled (D.messages.get (mark_seen D c self s).1.messages k)
  unfolding mark_seen
  mark_seen-IsSettled s k = elim (Option-cases (D.messages.get s.messages k)) [
    | inl e ↦ mark_rows_seen-IsSettled (D.rows s.messages c) s.messages k (λ m f _. cc (e, f))
    | inr (n, e) ↦ elim (Bool-cases (n.conversation_id == c)) [
      | inl here ↦
          visited-IsSettled (D.rows s.messages c) s.messages s.messages k n
            (All-map _ _ (λ m h. h.0) (D.rows s.messages c) (D.rows_sound s.messages c)) e e
            (subst (λ x. IsIn n (D.rows s.messages x)) ((eq_iff n.conversation_id c).0 here)
              (D.rows_complete s.messages n
                (ap (D.messages.get s.messages) (D.messages.get_key s.messages k n e) ∙ e)))
      | inr away ↦
          mark_rows_seen-IsSettled (D.rows s.messages c) s.messages k
            (λ m f g. ground (arith, e, f, g, away, eq_iff n.conversation_id c))
    ]
  ]

-- Marking a conversation seen clears its badge, whatever is stored, and under every key the rows of
-- other conversations are what they were.
pub unread_count-mark_seen :
    (D : Database) (c self : String) (s : Store D) (k : String)
    → (unread_count D c self (mark_seen D c self s).1 ≡ 0)
      × (elsewhere D c self (D.messages.get (mark_seen D c self s).1.messages k)
          ≡ elsewhere D c self (D.messages.get s.messages k))
unfolding unread_count
unread_count-mark_seen D c self s k =
    let after = (mark_seen D c self s).1.messages in
    (
      count_unread-zero D c self (D.rows after c) (
          All-map _ _ (λ m h. mark_seen-IsSettled D c self s m.id m h.0 h.1) (D.rows after c)
            (D.rows_sound after c)),
      unfold mark_seen in
          untouched D c self (D.rows s.messages c) s.messages s.messages k
            (D.rows_sound s.messages c) refl,
    )
