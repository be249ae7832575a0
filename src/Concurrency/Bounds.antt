-- ===== src/Concurrency/Bounds.antt =====
-- What holds of the pool at every await.
use timber_chat.Prelude.{
  ℕ, zero, suc, ◌+◌, ◌≤◌, ◌<◌, ◌-◌, min, max, ◌&&◌, ◌≡◌, inl, inr, refl, none, some, List, [], ◌∷◌,
  ◌++◌, length, get_elem?, replicate, ltb, eqb, if◌then◌else◌, Bool-cases, Option-cases,
  length-append, arith,
}
use timber_chat.Concurrency.{
  Outcome, set_elem, pick, Pool, outcome_at, claim, settle, start_workers, pool_size, start_pool,
  run_pool, map_with_limit,
}

abbrev pub count : ℕ → List ℕ → ℕ
count i [] = 0
count i (j ∷ js) = (if eqb i j then 1 else 0) + count i js

pub count-append : (i : ℕ) (js ks : List ℕ) → count i (js ++ ks) ≡ count i js + count i ks
count-append i [] ks = omega arith
count-append i (j ∷ js) ks = omega (arith, count-append i js ks)

pub pick-count :
    (p : ℕ) (js : List ℕ) (k : ℕ) (rest : List ℕ)
    → pick p js ≡ some (k, rest)
    → (i : ℕ) → count i js ≡ (if eqb i k then 1 else 0) + count i rest
pick-count p [] k rest e i = ground (arith, e)
pick-count zero (j ∷ js) k rest e i = ground (arith, e)
pick-count (suc p) (j ∷ []) k rest e i = ground (arith, e)
pick-count (suc p) (j ∷ l ∷ ls) k rest e i = elim (Option-cases (pick p (l ∷ ls))) [
  | inl none_left ↦ ground (arith, e, none_left)
  | inr ((m, others), found) ↦ ground (arith, e, found, pick-count p (l ∷ ls) m others found i)
]

pub pick-length :
    (p : ℕ) (js : List ℕ) (k : ℕ) (rest : List ℕ)
    → pick p js ≡ some (k, rest)
    → length js ≡ suc (length rest)
pick-length p [] k rest e = ground (arith, e)
pick-length zero (j ∷ js) k rest e = ground (arith, e)
pick-length (suc p) (j ∷ []) k rest e = ground (arith, e)
pick-length (suc p) (j ∷ l ∷ ls) k rest e = elim (Option-cases (pick p (l ∷ ls))) [
  | inl none_left ↦ ground (arith, e, none_left)
  | inr ((m, others), found) ↦ ground (arith, e, found, pick-length p (l ∷ ls) m others found)
]

pick-none : (p : ℕ) (js : List ℕ) → pick p js ≡ none → length js ≡ 0
pick-none p [] e = refl
pick-none zero (j ∷ js) e = ground (arith, e)
pick-none (suc p) (j ∷ []) e = ground (arith, e)
pick-none (suc p) (j ∷ l ∷ ls) e = elim (Option-cases (pick p (l ∷ ls))) [
  | inl none_left ↦ ground (arith, e, none_left)
  | inr ((m, others), found) ↦ ground (arith, e, found)
]

pub get_elem?-set_elem {ℓ} :
    {C : Type ℓ} (xs : List C) (i : ℕ) (v : C) (j : ℕ)
    → get_elem? (set_elem xs i v) j
      ≡ (if eqb i j && ltb j (length xs) then some v else get_elem? xs j)
get_elem?-set_elem [] i v j = ground arith
get_elem?-set_elem (x ∷ xs) zero v zero = ground arith
get_elem?-set_elem (x ∷ xs) zero v (suc j) = ground arith
get_elem?-set_elem (x ∷ xs) (suc i) v zero = ground arith
get_elem?-set_elem (x ∷ xs) (suc i) v (suc j) = ground (arith, get_elem?-set_elem xs i v j)

pub length-set_elem {ℓ} :
    {C : Type ℓ} (xs : List C) (i : ℕ) (v : C) → length (set_elem xs i v) ≡ length xs
length-set_elem [] i v = refl
length-set_elem (x ∷ xs) zero v = refl
length-set_elem (x ∷ xs) (suc i) v = omega (arith, length-set_elem xs i v)

module _ {ℓ κ μ} {A : Type ℓ} {B : Type κ} {E : Type μ} (items : List A)
    (job : A → ℕ → Outcome B E) where
  -- `workers` have started and `settled` jobs are done: what is in flight, each index once.
  abbrev pub IsFlying : (workers settled : ℕ) → Pool B E → Type 0
  IsFlying workers settled s =
      (length s.running + settled ≡ s.next)
      × (s.next ≡ min (length items) (workers + settled))
      × ((i : ℕ) → count i s.running ≤ (if ltb i s.next then 1 else 0))

  claim-IsFlying :
      (w k : ℕ) (s : Pool B E) → IsFlying w k s → IsFlying (suc w) k (claim items job s)
  claim-IsFlying w k s h = elim (Bool-cases (ltb s.next (length items))) [
    | inl e ↦ rw e (
      omega (arith, h.0, length-append s.running (s.next ∷ [])),
      ground (arith, h.1, e),
      λ i. ground (arith, h.2 i, count-append i s.running (s.next ∷ [])),
    )
    | inr e ↦ rw e (h.0, ground (arith, h.1, e), h.2)
  ]

  pub settle-IsFlying :
      (p w k : ℕ) (s : Pool B E)
      → k < length items
      → 0 < w
      → IsFlying w k s
      → IsFlying w (suc k) (settle items job p s)
  settle-IsFlying p zero k s more some_worker h = omega (arith, some_worker)
  settle-IsFlying p (suc w) k s more some_worker h = elim (Option-cases (pick p s.running)) [
    | inl e ↦ omega (arith, h.0, h.1, more, pick-none p s.running e)
    | inr ((i, rest), e) ↦
        rw (e, settle)
          (claim-IsFlying w (suc k)
            (record s { running = rest; results = set_elem s.results i (outcome_at items job i) })
            (
              omega (arith, h.0, pick-length p s.running i rest e),
              omega (arith, h.1),
              λ j. ground (arith, h.2 j, pick-count p s.running i rest e j),
            ))
  ]

  -- Nothing is in flight, so nothing can settle.
  pub settle-none : (p : ℕ) (s : Pool B E) → length s.running ≡ 0 → settle items job p s ≡ s
  settle-none p s h = elim (Option-cases (pick p s.running)) [
    | inl e ↦ rw (e, settle) refl
    | inr ((i, rest), e) ↦ absurd (omega (arith, h, pick-length p s.running i rest e))
  ]

  pub run_pool-IsFlying :
      (ps : List ℕ) (w k : ℕ) (s : Pool B E)
      → 0 < w
      → k ≤ length items
      → IsFlying w k s
      → IsFlying w (min (length items) (k + length ps)) (run_pool items job ps s)
  run_pool-IsFlying [] w k s some_worker le h =
      let same : min (length items) (k + 0) ≡ k = omega arith in rw same h
  run_pool-IsFlying (p ∷ ps) w k s some_worker le h = elim (Bool-cases (ltb k (length items))) [
    | inl more ↦
        let same : min (length items) (k + suc (length ps))
            ≡ min (length items) (suc k + length ps) =
          omega arith in
        rw same (
          run_pool-IsFlying ps w (suc k) (settle items job p s) some_worker (ground (arith, more))
            (settle-IsFlying p w k s (ground (arith, more)) some_worker h))
    | inr done ↦
        let all : k ≡ length items = ground (arith, done, le) in
        let same : min (length items) (k + suc (length ps)) ≡ min (length items) (k + length ps) =
          omega (arith, all) in
        rw (run_pool, settle-none p s (omega (arith, h.0, h.1, all)), same)
          (run_pool-IsFlying ps w k s some_worker le h)
  ]

  pub start_workers-IsFlying :
      (w : ℕ)
      → IsFlying w 0 (
          start_workers items job w
            (record { next = 0; running = []; results = replicate (length items) none }))
  start_workers-IsFlying zero = (refl, omega arith, λ i. omega arith)
  start_workers-IsFlying (suc w) = claim-IsFlying w 0 _ (start_workers-IsFlying w)

  -- Whichever jobs settle first: at every await, as many jobs are in flight as the limit and the jobs
  -- left allow, at least one where any is left, and no index is in flight twice.
  pub map_with_limit-running :
      (limit : ℕ) (picks : List ℕ) (i : ℕ)
      → (length (map_with_limit items job limit picks).running
          ≡ min (pool_size items job limit) (length items - length picks))
        × (length (map_with_limit items job limit picks).running ≤ max 1 limit)
        × (count i (map_with_limit items job limit picks).running ≤ 1)
  unfolding map_with_limit
  map_with_limit-running limit picks i =
      let h =
        run_pool-IsFlying picks (pool_size items job limit) 0 (start_pool items job limit)
          (omega arith) (omega arith) (start_workers-IsFlying (pool_size items job limit)) in
      (omega (arith, h.0, h.1), omega (arith, h.0, h.1), ground (arith, h.2 i))
