-- ===== src/Sync/Backfill/Steps.antt =====
-- One page of `backfill`: what it stores, and what the older pages then need not be asked for.
use mathlib.Core.Bool.{false≢true}
use timber_chat.Prelude.{
  ℕ, ◌+◌, ◌≤◌, ◌<◌, String, Bool, true, false, ◌||◌, ◌≡◌, inl, inr, refl, sym, ap, ◌∙◌, Option,
  none, some, List, [], ◌∷◌, ◌++◌, arith, eq_iff, eq_refl, lookup, ◌==◌, All, All-map,
  if◌then◌else◌, Bool-cases,
}
use timber_chat.Database.{Database, IsIn}
use timber_chat.Store.{Store, put_message, merge_row, apply_parked}
use timber_chat.Store.Receipts.{put_message-messages, apply_parked-id}
use timber_chat.Sync.Backfill.{ServerMessage, finished, Backfilled, incoming, is_known, store_page}
use timber_chat.Sync.Backfill.Pages.{IsIn-append, All-IsIn}

abbrev pub is_some {ℓ} : {A : Type ℓ} → Option A → Bool
is_some none = false
is_some (some a) = true

module _ (D : Database) (to_millis : ℕ → ℕ) where
  -- A row stands under the id.
  abbrev pub is_held : String → Store D → Bool
  is_held k s = is_some (D.messages.get s.messages k)

  -- How many are not known yet.
  abbrev pub count_new : Option ℕ → List ServerMessage → ℕ
  count_new since [] = 0
  count_new since (m ∷ ms) = (if is_known D to_millis since m then 0 else 1) + count_new since ms

  count_new-append :
      (since : Option ℕ) (xs ys : List ServerMessage)
      → count_new since (xs ++ ys) ≡ count_new since xs + count_new since ys
  count_new-append since [] ys = omega arith
  count_new-append since (x ∷ xs) ys = omega (arith, count_new-append since xs ys)

  is_held-put_message :
      (k : String) (m : ServerMessage) (s : Store D)
      → is_held k (put_message D (incoming D to_millis m) s).1 ≡ (m.id == k) || is_held k s
  is_held-put_message k m s =
      let parked = lookup m.id s.deferred in
      let before = D.messages.get s.messages m.id in
      let row = apply_parked parked (merge_row (incoming D to_millis m) before) in
      rw (put_message-messages D (incoming D to_millis m) s) (
        ground (
          arith,
          D.messages.get-put s.messages row k,
          apply_parked-id parked (incoming D to_millis m) before,
          eq_iff m.id k,
        ))

  -- What a page does: it holds what it did not know, forgets nothing, and counts what it stored.
  pub record PageStored (since : Option ℕ) (ms : List ServerMessage) (s : Store D) : Type 0 where
    pub keeps :
        (k : String) → is_held k s ≡ true → is_held k (store_page D to_millis since ms s).2 ≡ true
    pub holds :
        (m : ServerMessage)
        → IsIn m ms
        → is_known D to_millis since m ≡ false
        → is_held m.id (store_page D to_millis since ms s).2 ≡ true
    pub counts : (store_page D to_millis since ms s).1 ≡ count_new since ms

  pub store_page-PageStored :
      (since : Option ℕ) (ms : List ServerMessage) (s : Store D) → PageStored since ms s
  unfolding store_page
  store_page-PageStored since [] s = record {
    keeps = λ k h. h;
    holds = λ m i. elim i [ ];
    counts = refl;
  }
  store_page-PageStored since (m ∷ ms) s = elim (Bool-cases (is_known D to_millis since m)) [
    | inl known ↦
        let more = store_page-PageStored since ms s in
        record {
          keeps = λ k h. rw known (more.keeps k h);
          holds = λ n i fresh. rw known (elim i [
            | inl e ↦ ground (arith, known, fresh, e)
            | inr later ↦ more.holds n later fresh
          ]);
          counts = rw known (omega (arith, more.counts));
        }
    | inr fresh ↦
        let t = (put_message D (incoming D to_millis m) s).1 in
        let more = store_page-PageStored since ms t in
        record {
          keeps = λ k h. rw fresh (more.keeps k (is_held-put_message k m s ∙ ground (arith, h)));
          holds = λ n i new. rw fresh (elim i [
            | inl e ↦ more.keeps n.id (
                is_held-put_message n.id m s
                ∙ ground (arith, ap (λ (x : ServerMessage). x.id) e, eq_refl n.id))
            | inr later ↦ more.holds n later new
          ]);
          counts = rw fresh (omega (arith, more.counts));
        }
  ]

  -- The page reached the local history at some message of its own.
  pub reached-known :
      (since : Option ℕ) (ms : List ServerMessage) (s : Store D)
      → (store_page D to_millis since ms s).0 ≡ true
      → (m : ServerMessage) × IsIn m ms × (is_known D to_millis since m ≡ true)
  unfolding store_page
  reached-known since [] s h = absurd (false≢true h)
  reached-known since (m ∷ ms) s h = elim (Bool-cases (is_known D to_millis since m)) [
    | inl known ↦ (m, inl refl, known)
    | inr fresh ↦
        let t = (put_message D (incoming D to_millis m) s).1 in
        let found = reached-known since ms t ((rw fresh refl) ∙ h) in
        (found.0, inr found.1, found.2)
  ]

  module _ (monotone : (a b : ℕ) → a ≤ b → to_millis a ≤ to_millis b) where
    -- What is older than a known message is known.
    is_known-older :
        (since : Option ℕ) (m n : ServerMessage)
        → n.created_at ≤ m.created_at
        → is_known D to_millis since m ≡ true
        → is_known D to_millis since n ≡ true
    is_known-older since m n le h = ground (arith, h, monotone n.created_at m.created_at le)

    pub All-known :
        (since : Option ℕ) (m : ServerMessage) (front : List ServerMessage)
        → All (λ n. n.created_at < m.created_at) front
        → is_known D to_millis since m ≡ true
        → All (λ n. is_known D to_millis since n ≡ true) front
    All-known since m front h known =
        All-map _ _ (λ n lt. is_known-older since m n (omega (arith, lt)) known) front h

  count_new-known :
      (since : Option ℕ) (ms : List ServerMessage)
      → All (λ n. is_known D to_millis since n ≡ true) ms
      → count_new since ms ≡ 0
  count_new-known since [] h = refl
  count_new-known since (m ∷ ms) h = rw h.0 (omega (arith, count_new-known since ms h.1))

  -- What the pages of `ms` do, from the store `s` to the end.
  abbrev pub IsComplete : Option ℕ → List ServerMessage → Store D → Backfilled (Store D) → Type 0
  IsComplete since ms s r =
      (r.ending ≡ finished)
      × (r.stored ≡ count_new since ms)
      × ((k : String) → is_held k s ≡ true → is_held k r.store ≡ true)
      × ((m : ServerMessage)
          → IsIn m ms
          → is_known D to_millis since m ≡ false
          → is_held m.id r.store ≡ true)

  -- The last page, when all that is older is known.
  pub last_page :
      (since : Option ℕ) (front page : List ServerMessage) (s : Store D)
      → All (λ n. is_known D to_millis since n ≡ true) front
      → IsComplete since (front ++ page) s (record {
        stored = (store_page D to_millis since page s).1;
        store = (store_page D to_millis since page s).2;
        ending = finished;
      })
  last_page since front page s known =
      let did = store_page-PageStored since page s in
      (
        refl,
        omega (
          arith,
          did.counts,
          count_new-append since front page,
          count_new-known since front known,
        ),
        did.keeps,
        λ m i fresh. elim (IsIn-append m front page i) [
          | inl early ↦ absurd (false≢true (sym fresh ∙ All-IsIn _ m front known early))
          | inr here ↦ did.holds m here fresh
        ],
      )

  -- A page, and then the older pages.
  pub earlier_pages :
      (since : Option ℕ) (front page : List ServerMessage) (s : Store D)
      (rest : Backfilled (Store D))
      → IsComplete since front (store_page D to_millis since page s).2 rest
      → IsComplete since
          (front ++ page)
          s
          (record rest { stored = (store_page D to_millis since page s).1 + rest.stored })
  earlier_pages since front page s rest h =
      let did = store_page-PageStored since page s in
      (
        h.0,
        omega (arith, h.1, did.counts, count_new-append since front page),
        (λ k held. h.2 k (did.keeps k held)),
        λ m i fresh. elim (IsIn-append m front page i) [
          | inl early ↦ h.3 m early fresh
          | inr here ↦ h.2 m.id (did.holds m here fresh)
        ],
      )
