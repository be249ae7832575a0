-- ===== src/Concurrency.antt =====
-- frontend/src/lib/concurrency.js: `mapWithLimit`. Between two awaits the code runs alone, so a state
-- of the pool is what stands at an await, and a step is one job that settles.
use timber_chat.Prelude.{
  ℕ, zero, suc, ◌+◌, min, max, Bool, true, false, Option, none, some, List, [], ◌∷◌, ◌++◌, length,
  get_elem?, replicate, ltb, eqb, if◌then◌else◌,
}
pub mod Bounds
pub mod Results
mod Tests

-- `{ ok: true, value }` or `{ ok: false, error }`
pub data Outcome {ℓ κ} (B : Type ℓ) (E : Type κ) : Type (ℓ ⊔ κ) where
  fulfilled : B → Outcome B E
  rejected : E → Outcome B E

-- `results[index] = outcome`
abbrev pub set_elem {ℓ} : {A : Type ℓ} → List A → ℕ → A → List A
set_elem [] i v = []
set_elem (x ∷ xs) zero v = v ∷ xs
set_elem (x ∷ xs) (suc i) v = x ∷ set_elem xs i v

-- Which of the jobs in flight settles: the `p`th, and the last one for a `p` beyond.
abbrev pub pick : ℕ → List ℕ → Option (ℕ × List ℕ)
pick p [] = none
pick zero (i ∷ is) = some (i, is)
pick (suc p) (i ∷ []) = some (i, [])
pick (suc p) (i ∷ j ∷ js) = elim (pick p (j ∷ js)) [
  | none ↦ some (i, j ∷ js)
  | some (k, rest) ↦ some (k, i ∷ rest)
]

-- `running` are the indices whose jobs are in flight; a slot of `results` is undefined until then.
pub record Pool {ℓ κ} (B : Type ℓ) (E : Type κ) : Type (ℓ ⊔ κ) where
  pub next : ℕ
  pub running : List ℕ
  pub results : List (Option (Outcome B E))

module _ {ℓ κ μ} {A : Type ℓ} {B : Type κ} {E : Type μ} (items : List A)
    (job : A → ℕ → Outcome B E) where
  -- How the job of `list[index]` settles.
  abbrev pub outcome_at : ℕ → Option (Outcome B E)
  outcome_at i = elim (get_elem? items i) [ none ↦ none | some a ↦ some (job a i) ]

  -- The head of a worker's loop: it takes the next index and starts its job, or returns.
  abbrev pub claim : Pool B E → Pool B E
  claim s =
      if ltb s.next (length items)
      then record s { next = s.next + 1; running = s.running ++ s.next ∷ [] }
      else s

  -- A job settles: its worker stores the outcome and goes on.
  abbrev pub settle : ℕ → Pool B E → Pool B E
  settle p s = elim (pick p s.running) [
    | none ↦ s
    | some (i, rest) ↦
        claim (record s { running = rest; results = set_elem s.results i (outcome_at i) })
  ]

  -- `Array.from({ length: size }, worker)`
  abbrev pub start_workers : ℕ → Pool B E → Pool B E
  start_workers zero s = s
  start_workers (suc size) s = claim (start_workers size s)

  abbrev pub pool_size : ℕ → ℕ
  pool_size limit = max 1 (min limit (length items))

  abbrev pub start_pool : ℕ → Pool B E
  start_pool limit =
      start_workers (pool_size limit)
        (record { next = 0; running = []; results = replicate (length items) none })

  -- The pool after jobs have settled in the order that the picks say.
  abbrev pub run_pool : List ℕ → Pool B E → Pool B E
  run_pool [] s = s
  run_pool (p ∷ ps) s = run_pool ps (settle p s)

  unfoldable pub map_with_limit : ℕ → List ℕ → Pool B E
  map_with_limit limit picks = run_pool picks (start_pool limit)
