-- ===== src/Sync/Backfill/Fetch.antt =====
-- One round of the loop of `backfill`, by what the relay answers.
use timber_chat.Prelude.{
  ℕ, suc, ◌≡◌, ◌⊎◌, inl, inr, refl, Option, some, List, [], ◌∷◌, ◌||◌, length, ltb,
}
use timber_chat.Database.{Database}
use timber_chat.Store.{Store}
use timber_chat.Sync.Backfill.{
  ServerMessage, page_size, finished, Backfilled, store_page, after_page, backfill_pages,
}

pub List-cases :
    {A : Type 0} (xs : List A) → (xs ≡ []) ⊎ ((x : A) × (rest : List A) × (xs ≡ x ∷ rest))
List-cases [] = inl refl
List-cases (x ∷ xs) = inr (x, xs, refl)

module _ (D : Database) (to_millis : ℕ → ℕ) (get_history : Option ℕ → Option (List ServerMessage))
    (since : Option ℕ) where
  pub fetched_none :
      (fuel : ℕ) (before : Option ℕ) (s : Store D)
      → get_history before ≡ some []
      → backfill_pages D to_millis get_history (suc fuel) since before s
        ≡ record { stored = 0; store = s; ending = finished }
  unfolding backfill_pages
  fetched_none fuel before s e = rw (backfill_pages, e) refl

  abbrev pub rest_after : ℕ → ServerMessage → List ServerMessage → Store D → Backfilled (Store D)
  rest_after fuel m ms s =
      backfill_pages D to_millis get_history fuel since (some m.created_at)
        (store_page D to_millis since (m ∷ ms) s).2

  abbrev pub page_and_rest : ℕ → ServerMessage → List ServerMessage → Store D → Backfilled (Store D)
  page_and_rest fuel m ms s =
      let page = store_page D to_millis since (m ∷ ms) s in
      after_page D to_millis get_history (page.0 || ltb (length (m ∷ ms)) page_size) page.1
        (record { stored = page.1; store = page.2; ending = finished }) (rest_after fuel m ms s)

  pub fetched_some :
      (fuel : ℕ) (before : Option ℕ) (m : ServerMessage) (ms : List ServerMessage) (s : Store D)
      → get_history before ≡ some (m ∷ ms)
      → backfill_pages D to_millis get_history (suc fuel) since before s ≡ page_and_rest fuel m ms s
  unfolding backfill_pages
  fetched_some fuel before m ms s e = rw (backfill_pages, e) refl
