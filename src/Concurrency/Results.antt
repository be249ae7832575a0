-- ===== src/Concurrency/Results.antt =====
-- What the slots hold, and what the caller gets.
use timber_chat.Prelude.{
  ℕ, zero, suc, ◌+◌, ◌≤◌, ◌<◌, true, false, ◌&&◌, ◌≡◌, ◌⊎◌, inl, inr, refl, sym, ap, ◌∙◌, Option,
  none, some, List, [], ◌∷◌, length, get_elem?, replicate, ltb, eqb, if◌then◌else◌, Bool-cases,
  Option-cases, arith,
}
use timber_chat.Concurrency.{
  Outcome, set_elem, pick, Pool, outcome_at, claim, settle, start_workers, pool_size, start_pool,
  run_pool, map_with_limit,
}
use timber_chat.Concurrency.Bounds.{
  count, count-append, pick-count, pick-length, get_elem?-set_elem, length-set_elem, settle-none,
  IsFlying, settle-IsFlying, run_pool-IsFlying, start_workers-IsFlying,
}

get_elem?-replicate {ℓ} :
    {C : Type ℓ} (n : ℕ) (c : C) (j : ℕ)
    → get_elem? (replicate n c) j ≡ (if ltb j n then some c else none)
get_elem?-replicate zero c j = ground arith
get_elem?-replicate (suc n) c zero = ground arith
get_elem?-replicate (suc n) c (suc j) = ground (arith, get_elem?-replicate n c j)

length-replicate {ℓ} : {C : Type ℓ} (n : ℕ) (c : C) → length (replicate n c) ≡ n
length-replicate zero c = refl
length-replicate (suc n) c = omega (arith, length-replicate n c)

-- Two lists with the same entries are the same.
get_elem?-injective {ℓ} :
    {C : Type ℓ} (xs ys : List C) → ((j : ℕ) → get_elem? xs j ≡ get_elem? ys j) → xs ≡ ys
get_elem?-injective [] [] h = refl
get_elem?-injective [] (y ∷ ys) h = let e = h 0 in cc
get_elem?-injective (x ∷ xs) [] h = let e = h 0 in cc
get_elem?-injective (x ∷ xs) (y ∷ ys) h =
    let head : x ≡ y = let e = h 0 in cc in
    rw (head, get_elem?-injective xs ys (λ j. h (suc j))) refl

module _ {A B E : Type 0} (items : List A) (job : A → ℕ → Outcome B E) where
  -- A slot holds its outcome when its job has settled, and is undefined before.
  abbrev IsFilled : Pool B E → Type 0
  IsFilled s =
      (j : ℕ)
      → get_elem? s.results j ≡ (
          if ltb j (length items)
          then some
              (if ltb j s.next && eqb (count j s.running) 0 then outcome_at items job j else none)
          else none)

  claim-IsFilled :
      (w k : ℕ) (s : Pool B E)
      → IsFlying items job w k s
      → IsFilled s
      → IsFilled (claim items job s)
  claim-IsFilled w k s h filled j = elim (Bool-cases (ltb s.next (length items))) [
    | inl e ↦ rw e (filled j ∙ ground (arith, e, h.2 j, count-append j s.running (s.next ∷ [])))
    | inr e ↦ rw e (filled j)
  ]

  settle-IsFilled :
      (p w k : ℕ) (s : Pool B E)
      → 0 < w
      → length s.results ≡ length items
      → IsFlying items job w k s
      → IsFilled s
      → IsFilled (settle items job p s)
  settle-IsFilled p zero k s some_worker len h filled j = absurd (omega (arith, some_worker))
  settle-IsFilled p (suc w) k s some_worker len h filled j =
      elim (Option-cases (pick p s.running)) [
        | inl e ↦ rw (e, settle) (filled j)
        | inr ((i, rest), e) ↦
            rw (e, settle)
              (claim-IsFilled w (suc k)
                (record s {
                  running = rest;
                  results = set_elem s.results i (outcome_at items job i);
                })
                (
                  omega (arith, h.0, pick-length p s.running i rest e),
                  omega (arith, h.1),
                  λ j. ground (arith, h.2 j, pick-count p s.running i rest e j),
                )
                (λ j.
                  get_elem?-set_elem s.results i (outcome_at items job i) j
                  ∙ ground (arith, len, filled j, h.2 j, pick-count p s.running i rest e j))
                j)
      ]

  length-claim : (s : Pool B E) → length (claim items job s).results ≡ length s.results
  length-claim s = elim (Bool-cases (ltb s.next (length items))) [
    | inl e ↦ rw e refl
    | inr e ↦ rw e refl
  ]

  length-settle : (p : ℕ) (s : Pool B E) → length (settle items job p s).results ≡ length s.results
  length-settle p s = elim (Option-cases (pick p s.running)) [
    | inl e ↦ rw (e, settle) refl
    | inr ((i, rest), e) ↦
        rw (e, settle)
          (length-claim
              (record s { running = rest; results = set_elem s.results i (outcome_at items job i) })
            ∙ length-set_elem s.results i (outcome_at items job i))
  ]

  run_pool-IsFilled :
      (ps : List ℕ) (w k : ℕ) (s : Pool B E)
      → 0 < w
      → k ≤ length items
      → length s.results ≡ length items
      → IsFlying items job w k s
      → IsFilled s
      → IsFilled (run_pool items job ps s)
  run_pool-IsFilled [] w k s some_worker le len h filled = filled
  run_pool-IsFilled (p ∷ ps) w k s some_worker le len h filled =
      elim (Bool-cases (ltb k (length items))) [
        | inl more ↦
            run_pool-IsFilled ps w (suc k) (settle items job p s) some_worker (ground (arith, more))
              (length-settle p s ∙ len)
              (settle-IsFlying items job p w k s (ground (arith, more)) some_worker h)
              (settle-IsFilled p w k s some_worker len h filled)
        | inr done ↦
            let all : k ≡ length items = ground (arith, done, le) in
            rw (run_pool, settle-none items job p s (omega (arith, h.0, h.1, all)))
              (run_pool-IsFilled ps w k s some_worker le len h filled)
      ]

  abbrev empty : Pool B E
  empty = record { next = 0; running = []; results = replicate (length items) none }

  start_workers-IsFilled :
      (w : ℕ)
      → (length (start_workers items job w empty).results ≡ length items)
        × IsFilled (start_workers items job w empty)
  start_workers-IsFilled zero = (
    length-replicate (length items) none,
    λ j. get_elem?-replicate (length items) none j ∙ ground arith,
  )
  start_workers-IsFilled (suc w) =
      let h = start_workers-IsFilled w in
      (
        length-claim (start_workers items job w empty) ∙ h.0,
        claim-IsFilled w 0 (start_workers items job w empty) (start_workers-IsFlying items job w)
            h.1,
      )

  -- What a plain `map` over the items gives, `k` items in.
  abbrev pub outcomes_from : ℕ → List A → List (Option (Outcome B E))
  outcomes_from k [] = []
  outcomes_from k (a ∷ more) = some (job a k) ∷ outcomes_from (suc k) more

  abbrev slot_of : ℕ → Option A → Option (Option (Outcome B E))
  slot_of i none = none
  slot_of i (some a) = some (some (job a i))

  get_elem?-outcomes_from :
      (k : ℕ) (more : List A) (j : ℕ)
      → get_elem? (outcomes_from k more) j ≡ slot_of (k + j) (get_elem? more j)
  get_elem?-outcomes_from k [] j = refl
  get_elem?-outcomes_from k (a ∷ more) zero = ground arith
  get_elem?-outcomes_from k (a ∷ more) (suc j) =
      let same : suc k + j ≡ k + suc j = omega arith in
      get_elem?-outcomes_from (suc k) more j ∙ ap (λ i. slot_of i (get_elem? more j)) same

  get_elem?-cases :
      (more : List A) (j : ℕ)
      → ((get_elem? more j ≡ none) × (ltb j (length more) ≡ false))
        ⊎ ((a : A) × (get_elem? more j ≡ some a) × (ltb j (length more) ≡ true))
  get_elem?-cases [] j = inl (refl, ground arith)
  get_elem?-cases (a ∷ more) zero = inr (a, refl, ground arith)
  get_elem?-cases (a ∷ more) (suc j) = elim (get_elem?-cases more j) [
    | inl h ↦ inl (h.0, ground (arith, h.1))
    | inr h ↦ inr (h.0, h.1, ground (arith, h.2))
  ]

  -- With nothing in flight and nothing to start, every slot is filled.
  all_filled :
      (s : Pool B E) (j : ℕ)
      → s.running ≡ []
      → s.next ≡ length items
      → (if ltb j (length items)
          then some
              (if ltb j s.next && eqb (count j s.running) 0 then outcome_at items job j else none)
          else none)
        ≡ slot_of j (get_elem? items j)
  all_filled s j landed all =
      rw (landed, all)
        (elim (get_elem?-cases items j) [
          | inl h ↦ rw (h.0, h.1) refl
          | inr h ↦ rw (outcome_at, h.1, h.2) refl
        ])

  -- In whatever order the jobs settle: after as many of them as there are items, all have settled, and
  -- the results are those of a plain `map`, in the order of the items, a rejected job in its own slot.
  pub map_with_limit_lem :
      (limit : ℕ) (picks : List ℕ)
      → length items ≤ length picks
      → ((map_with_limit items job limit picks).running ≡ [])
        × ((map_with_limit items job limit picks).results ≡ outcomes_from 0 items)
  unfolding map_with_limit
  map_with_limit_lem limit picks enough =
      let start = start_workers-IsFilled (pool_size items job limit) in
      let flying =
        run_pool-IsFlying items job picks (pool_size items job limit) 0 (start_pool items job limit)
          (omega arith) (omega arith)
          (start_workers-IsFlying items job (pool_size items job limit)) in
      let filled =
        run_pool-IsFilled picks (pool_size items job limit) 0 (start_pool items job limit)
          (omega arith) (omega arith) start.0
          (start_workers-IsFlying items job (pool_size items job limit)) start.1 in
      let last = run_pool items job picks (start_pool items job limit) in
      let landed = no_entries last.running (omega (arith, flying.0, flying.1, enough)) in
      (
        landed,
        get_elem?-injective last.results (outcomes_from 0 items) (λ j.
            filled j
            ∙ all_filled last j landed (omega (arith, flying.1, enough))
            ∙ sym (
                get_elem?-outcomes_from 0 items j
                ∙ ap (λ i. slot_of i (get_elem? items j)) (omega arith))),
      )
    where
      no_entries : (is : List ℕ) → length is ≡ 0 → is ≡ []
      no_entries [] h = refl
      no_entries (i ∷ is) h = absurd (omega (arith, h))
