-- ===== src/Sync/Backfill/Outrun.antt =====
-- A row that is newer than what the relay holds: `since` of `backfill` is the time of the newest row,
-- also of one that was composed here and waits to be sent.
use mathlib.Core.Path.{subst}
use timber_chat.Prelude.{
  ℕ, zero, suc, ◌≤◌, ◌<◌, Bool, true, false, ◌≡◌, inl, inr, refl, sym, ap, ◌∙◌, Option, none, some,
  List, [], ◌∷◌, arith, All, All-map,
}
use timber_chat.Database.{StoredMessage, Database, IsIn, IsOrdered}
use timber_chat.Store.{Store}
use timber_chat.Sync.Backfill.{
  ServerMessage, page_size, finished, newest, is_known, store_page, backfill,
}
use timber_chat.Sync.Backfill.Fetch.{List-cases, fetched_none, fetched_some}
use timber_chat.Sync.Backfill.Pages.{page_before, take_last, drop, keep-all}

-- The newest row is as new as any.
newest-IsOrdered :
    (m : StoredMessage) (ms : List StoredMessage)
    → IsOrdered ms
    → IsIn m ms
    → (t : ℕ) × (newest ms ≡ some t) × (m.created_at ≤ t)
newest-IsOrdered m [] h i = elim i [ ]
newest-IsOrdered m (n ∷ []) h (inl e) =
    (n.created_at, refl, omega (arith, ap (λ (x : StoredMessage). x.created_at) e))
newest-IsOrdered m (n ∷ []) h (inr i) = elim i [ ]
newest-IsOrdered m (n ∷ o ∷ os) h (inl e) =
    let last = newest-IsOrdered o (o ∷ os) h.1 (inl refl) in
    (last.0, last.1, omega (arith, last.2, h.0.0, ap (λ (x : StoredMessage). x.created_at) e))
newest-IsOrdered m (n ∷ o ∷ os) h (inr i) =
    let last = newest-IsOrdered m (o ∷ os) h.1 i in (last.0, last.1, last.2)

abbrev is_page : List ServerMessage → Bool
is_page [] = false
is_page (m ∷ ms) = true

module _ (D : Database) (to_millis : ℕ → ℕ) where
  store_page-known :
      (since : Option ℕ) (ms : List ServerMessage) (s : Store D)
      → All (λ n. is_known D to_millis since n ≡ true) ms
      → ((store_page D to_millis since ms s).0 ≡ is_page ms)
        × ((store_page D to_millis since ms s).1 ≡ 0)
        × ((store_page D to_millis since ms s).2 ≡ s)
  unfolding store_page
  store_page-known since [] s h = (refl, refl, refl)
  store_page-known since (m ∷ ms) s h = (
    rw h.0 refl,
    rw h.0 (store_page-known since ms s h.1).1,
    rw h.0 (store_page-known since ms s h.1).2,
  )

All-drop : {A : Type 0} (P : A → Type 0) (n : ℕ) (xs : List A) → All P xs → All P (drop n xs)
All-drop P zero xs h = h
All-drop P (suc n) [] h = tt
All-drop P (suc n) (x ∷ xs) h = All-drop P n xs h.1

-- While a row stands here that is as new as all of the history, such as a message written offline,
-- `backfill` stores nothing, whichever messages of the history are missing here.
pub backfill-newest :
    (D : Database) (to_millis : ℕ → ℕ) (get_history : Option ℕ → Option (List ServerMessage))
    (history : List ServerMessage) (s : Store D) (fuel : ℕ) (row : StoredMessage)
    → D.messages.get s.messages row.id ≡ some row
    → 0 < row.created_at
    → All (λ n. to_millis n.created_at ≤ row.created_at) history
    → get_history none ≡ some (page_before history none)
    → backfill D to_millis get_history (suc fuel) row.conversation_id s
      ≡ record { stored = 0; store = s; ending = finished }
unfolding backfill
backfill-newest D to_millis get_history history s fuel row here real old serves =
    let last =
      newest-IsOrdered row (D.rows s.messages row.conversation_id)
        (D.rows_ordered s.messages row.conversation_id) (D.rows_complete s.messages row here) in
    let known : All (λ n. is_known D to_millis (some last.0) n ≡ true) (page_before history none) =
      subst (λ l. All (λ n. is_known D to_millis (some last.0) n ≡ true) (take_last page_size l))
        (sym (keep-all history))
        (All-drop _ _ history
          (All-map _ _ (λ n le. ground (arith, le, last.2, real)) history old)) in
    rw last.1 (elim (List-cases (page_before history none)) [
      | inl e ↦ fetched_none D to_millis get_history (some last.0) fuel none s (serves ∙ ap some e)
      | inr (m, ms, e) ↦
          let all_known = subst (All (λ n. is_known D to_millis (some last.0) n ≡ true)) e known in
          let stays = store_page-known D to_millis (some last.0) (m ∷ ms) s all_known in
          fetched_some D to_millis get_history (some last.0) fuel none m ms s (serves ∙ ap some e)
          ∙ (rw (stays.0, stays.1, stays.2) refl)
    ])
