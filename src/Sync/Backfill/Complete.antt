-- ===== src/Sync/Backfill/Complete.antt =====
-- `backfill` ends, and misses nothing.
use mathlib.Core.Path.{subst}
use timber_chat.Prelude.{
  ℕ, zero, suc, ◌-◌, ◌≤◌, ◌<◌, String, true, false, ◌≡◌, inl, inr, refl, sym, ap, ◌∙◌, Option, none,
  some, List, [], ◌∷◌, ◌++◌, length, length-append, take, keep, ltb, not, ◌||◌, arith, All,
  Bool-cases,
}
use timber_chat.Database.{Database, IsIn}
use timber_chat.Store.{Store}
use timber_chat.Sync.Backfill.{
  ServerMessage, page_size, finished, newest, is_known, store_page, backfill_pages, backfill,
}
use timber_chat.Sync.Backfill.Pages.{
  drop, take-drop, length-drop, length-take, append_assoc, take_last, is_before, page_before,
  IsAscending, keep-before, keep-all, All-older,
}
use timber_chat.Sync.Backfill.Fetch.{
  List-cases, rest_after, page_and_rest, fetched_none, fetched_some,
}
use timber_chat.Sync.Backfill.Steps.{
  is_held, count_new, reached-known, All-known, last_page, earlier_pages, IsComplete,
}

IsIn-left : (n : ServerMessage) (xs ys : List ServerMessage) → IsIn n xs → IsIn n (xs ++ ys)
IsIn-left n [] ys i = elim i [ ]
IsIn-left n (x ∷ xs) ys (inl e) = inl e
IsIn-left n (x ∷ xs) ys (inr i) = inr (IsIn-left n xs ys i)

module _ (D : Database) (to_millis : ℕ → ℕ)
    (monotone : (a b : ℕ) → a ≤ b → to_millis a ≤ to_millis b)
    (get_history : Option ℕ → Option (List ServerMessage)) (history : List ServerMessage)
    (ascending : IsAscending history)
    (serves : (before : Option ℕ) → get_history before ≡ some (page_before history before))
    (since : Option ℕ) where
  -- A page that is not empty, and what follows it.
  one_page :
      (fuel : ℕ) (m : ServerMessage) (ms front : List ServerMessage) (s : Store D)
      → ((n : ServerMessage) → IsIn n (m ∷ ms) → All (λ x. x.created_at < n.created_at) front)
      → (ltb (length (m ∷ ms)) page_size ≡ true → front ≡ [])
      → IsComplete D to_millis since front
          (store_page D to_millis since (m ∷ ms) s).2
          (rest_after D to_millis get_history since fuel m ms s)
      → IsComplete D to_millis since
          (front ++ m ∷ ms)
          s
          (page_and_rest D to_millis get_history since fuel m ms s)
  one_page fuel m ms front s older short rest =
      elim (Bool-cases (store_page D to_millis since (m ∷ ms) s).0) [
        | inl reached ↦
            let at = reached-known D to_millis since (m ∷ ms) s reached in
            rw reached (
              last_page D to_millis since front (m ∷ ms) s
                (All-known D to_millis monotone since at.0 front (older at.0 at.1) at.2))
        | inr far ↦ elim (Bool-cases (ltb (length (m ∷ ms)) page_size)) [
          | inl last ↦
              rw (far, last) (last_page D to_millis since front (m ∷ ms) s (rw (short last) tt))
          | inr full ↦
              rw (far, full)
                (earlier_pages D to_millis since front (m ∷ ms) s
                  (rest_after D to_millis get_history since fuel m ms s) rest)
        ]
      ]

  backfill_pages-IsComplete :
      (fuel : ℕ) (before : Option ℕ) (older newer : List ServerMessage) (s : Store D)
      → length older < fuel
      → history ≡ older ++ newer
      → keep (is_before before) history ≡ older
      → IsComplete D to_millis since older s
          (backfill_pages D to_millis get_history fuel since before s)
  backfill_pages-IsComplete zero before older newer s enough cut old =
      absurd (omega (arith, enough))
  backfill_pages-IsComplete (suc fuel) before older newer s enough cut old =
      let k = length older - page_size in
      let front = take k older in
      let page = drop k older in
      let served : get_history before ≡ some page =
        serves before ∙ ap (λ l. some (take_last page_size l)) old in
      let whole : older ≡ front ++ page = take-drop k older in
      let long : length page ≡ length older - k = length-drop k older in
      elim (List-cases page) [
        | inl e ↦
            let nothing : older ≡ [] = no_entries older (omega (arith, long, ap length e)) in
            rw
              (
                fetched_none D to_millis get_history since fuel before s (served ∙ ap some e),
                nothing,
              )
              (refl, refl, (λ k h. h), λ m i. elim i [ ])
        | inr (m, ms, e) ↦
            let parts : older ≡ front ++ m ∷ ms = whole ∙ ap (λ l. front ++ l) e in
            let all : history ≡ front ++ m ∷ (ms ++ newer) =
              cut ∙ ap (λ l. l ++ newer) parts ∙ append_assoc front (m ∷ ms) newer in
            let ordered : IsAscending (front ++ m ∷ (ms ++ newer)) =
              subst IsAscending all ascending in
            let shorter : length front < fuel =
              omega (arith, enough, ap length parts, length-append front (m ∷ ms)) in
            let older_page : keep (is_before (some m.created_at)) history ≡ front =
              ap (keep (is_before (some m.created_at))) all
              ∙ (keep-before front (ms ++ newer) m ordered).0 in
            rw (fetched_some D to_millis get_history since fuel before m ms s (served ∙ ap some e))
              (subst
                (λ l.
                  IsComplete D to_millis since l s
                    (page_and_rest D to_millis get_history since fuel m ms s))
                (sym parts)
                (one_page fuel m ms front s
                  (λ n i.
                    All-older front (m ∷ (ms ++ newer)) n ordered (IsIn-left n (m ∷ ms) newer i))
                  (λ last. no_entries front (
                    omega (
                      arith,
                      length-take k older (omega arith),
                      long,
                      ap length e,
                      shown_short m ms last,
                    )))
                  (backfill_pages-IsComplete fuel (some m.created_at) front (m ∷ (ms ++ newer))
                    (store_page D to_millis since (m ∷ ms) s).2 shorter all older_page)))
      ]
    where
      shown_short :
          (m : ServerMessage) (ms : List ServerMessage)
          → ltb (length (m ∷ ms)) page_size ≡ true
          → length (m ∷ ms) < page_size
      shown_short m ms h = ground (arith, h)

      no_entries : (ms : List ServerMessage) → length ms ≡ 0 → ms ≡ []
      no_entries [] h = refl
      no_entries (m ∷ ms) h = absurd (omega (arith, h))

  -- A message that was not known is held, and what was held still is.
  All-held :
      (ms : List ServerMessage) (t : Store D)
      → ((m : ServerMessage)
          → IsIn m ms
          → is_known D to_millis since m ≡ false
          → is_held D to_millis m.id t ≡ true)
      → All (λ m. (is_known D to_millis since m || is_held D to_millis m.id t) ≡ true) ms
  All-held [] t h = tt
  All-held (m ∷ ms) t h = (
    elim (Bool-cases (is_known D to_millis since m)) [
      | inl known ↦ ground (arith, known)
      | inr fresh ↦ ground (arith, fresh, h m (inl refl) fresh)
    ],
    All-held ms t (λ n i. h n (inr i)),
  )

-- For a history without two messages at one time, whose pages the relay serves as it documents, and
-- dates whose reading keeps their order: the pages come to an end, and then every message of the history
-- is stored that is newer than the newest row that was here, or every message where there was none; the
-- count is that of the newer ones; and each row that was stored still is.
pub backfill_lem :
    (D : Database) (to_millis : ℕ → ℕ) (get_history : Option ℕ → Option (List ServerMessage))
    (history : List ServerMessage) (conversation_id : String) (s : Store D) (fuel : ℕ) (k : String)
    → ((a b : ℕ) → a ≤ b → to_millis a ≤ to_millis b)
    → IsAscending history
    → ((before : Option ℕ) → get_history before ≡ some (page_before history before))
    → length history < fuel
    → let since = newest (D.rows s.messages conversation_id) in
      let after = backfill D to_millis get_history fuel conversation_id s in
      (after.ending ≡ finished)
      × (after.stored ≡ count_new D to_millis since history)
      × All
          (λ m. (is_known D to_millis since m || is_held D to_millis m.id after.store) ≡ true)
          history
      × ((not (is_held D to_millis k s) || is_held D to_millis k after.store) ≡ true)
unfolding backfill
backfill_lem D to_millis get_history history conversation_id s fuel k monotone ascending serves
      enough =
    let since = newest (D.rows s.messages conversation_id) in
    let h =
      backfill_pages-IsComplete D to_millis monotone get_history history ascending serves since fuel
        none history [] s enough (sym (append_nil history)) (keep-all history) in
    let after = backfill_pages D to_millis get_history fuel since none s in
    (
      h.0,
      h.1,
      All-held D to_millis monotone get_history history ascending serves since history after.store
          h.3,
      elim (Bool-cases (is_held D to_millis k s)) [
        | inl held ↦ ground (arith, h.2 k held)
        | inr free ↦ ground (arith, free)
      ],
    )
  where
    append_nil : (ms : List ServerMessage) → ms ++ [] ≡ ms
    append_nil [] = refl
    append_nil (m ∷ ms) = ap (λ l. m ∷ l) (append_nil ms)
