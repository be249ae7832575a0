-- ===== src/Concurrency/Tests.antt =====
-- Four jobs over two workers.
use timber_chat.Prelude.{
  ℕ, ◌+◌, ◌≤◌, ◌-◌, min, max, ◌≡◌, refl, none, some, List, [], ◌∷◌, length, leb, if◌then◌else◌,
  arith,
}
use timber_chat.Concurrency.{Outcome, fulfilled, rejected, Pool, pool_size, map_with_limit}
use timber_chat.Concurrency.Bounds.{count, map_with_limit-running}
use timber_chat.Concurrency.Results.{outcomes_from, map_with_limit_lem}

abbrev items : List ℕ
items = 7 ∷ 40 ∷ 8 ∷ 9 ∷ []

-- Items above 30 fail.
abbrev job : ℕ → ℕ → Outcome ℕ ℕ
job a i = if leb a 30 then fulfilled (a + i) else rejected a

-- The second job in flight settles first, then its successor.
abbrev midway : Pool ℕ ℕ
midway = map_with_limit items job 2 (1 ∷ 1 ∷ [])

tests :
    (midway.running ≡ 0 ∷ 3 ∷ [])
    × (midway.results ≡ none ∷ some (rejected 40) ∷ some (fulfilled 10) ∷ none ∷ [])
unfolding map_with_limit
tests = (refl, refl)

map_with_limit-running_example :
    (length midway.running
      ≡ min (pool_size items job 2) (length items - length {A = ℕ} (1 ∷ 1 ∷ [])))
    × (length midway.running ≤ max 1 2)
    × (count 3 midway.running ≤ 1)
map_with_limit-running_example = map_with_limit-running items job 2 (1 ∷ 1 ∷ []) 3

map_with_limit_lem_example :
    ((map_with_limit items job 2 (1 ∷ 0 ∷ 1 ∷ 0 ∷ [])).running ≡ [])
    × ((map_with_limit items job 2 (1 ∷ 0 ∷ 1 ∷ 0 ∷ [])).results ≡ outcomes_from items job 0 items)
map_with_limit_lem_example = map_with_limit_lem items job 2 (1 ∷ 0 ∷ 1 ∷ 0 ∷ []) (omega arith)
