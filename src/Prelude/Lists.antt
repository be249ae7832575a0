-- ===== src/Prelude/Lists.antt =====
-- Lists measured by native numbers, predicates on all their entries, and sets of texts.
use Prim.Native.Nat.{ℕ, zero, suc, ◌+◌}
use Prim.Native.String.{String}
use mathlib.Core.Path.{◌≡◌, refl}
use mathlib.Core.Bool.{Bool, true, false, ◌||◌, ◌&&◌, not}
use mathlib.Core.List.{List, [], ◌∷◌, ◌++◌}
use mathlib.Core.Option.{Option, none, some}
use native.Mathlib.Omega.{arith}
use text.Mathlib.Text.{◌==◌}
use text.Mathlib.TextEquality.{eq_iff}
use timber_chat.Prelude.Tests.{if◌then◌else◌}

module _ {ℓ} {A : Type ℓ} where
  abbrev pub length : List A → ℕ
  length [] = 0
  length (x ∷ xs) = suc (length xs)

  abbrev pub take : ℕ → List A → List A
  take zero xs = []
  take (suc n) [] = []
  take (suc n) (x ∷ xs) = x ∷ take n xs

  -- `list.at(-1)`
  abbrev pub last : List A → Option A
  last [] = none
  last (x ∷ xs) = elim (last xs) [ none ↦ some x | some y ↦ some y ]

  abbrev pub reverse_onto : List A → List A → List A
  reverse_onto [] done = done
  reverse_onto (x ∷ xs) done = reverse_onto xs (x ∷ done)

  -- `list.reverse()`
  abbrev pub reverse : List A → List A
  reverse xs = reverse_onto xs []

  abbrev pub get_elem? : List A → ℕ → Option A
  get_elem? [] i = none
  get_elem? (x ∷ xs) zero = some x
  get_elem? (x ∷ xs) (suc i) = get_elem? xs i

  abbrev pub replicate : ℕ → A → List A
  replicate zero x = []
  replicate (suc n) x = x ∷ replicate n x

  abbrev pub keep : (A → Bool) → List A → List A
  keep p [] = []
  keep p (x ∷ xs) = if p x then x ∷ keep p xs else keep p xs

  -- `list.find(p)`
  abbrev pub find : (A → Bool) → List A → Option A
  find p [] = none
  find p (x ∷ xs) = if p x then some x else find p xs

  -- The entry at a place, and the others.
  abbrev pub pull : ℕ → List A → Option (A × List A)
  pull p [] = none
  pull zero (x ∷ rest) = some (x, rest)
  pull (suc p) (x ∷ rest) = elim (pull p rest) [
    | none ↦ none
    | some (y, others) ↦ some (y, x ∷ others)
  ]

  abbrev pub All {κ} : (A → Type κ) → List A → Type κ
  All P [] = Unit
  All P (x ∷ xs) = P x × All P xs

  pub length-append : (xs ys : List A) → length (xs ++ ys) ≡ length xs + length ys
  length-append [] ys = omega arith
  length-append (x ∷ xs) ys = omega (arith, length-append xs ys)

  pub All-append {κ} :
      (Q : A → Type κ) (front back : List A) → All Q front → All Q back → All Q (front ++ back)
  All-append Q [] back _ held = held
  All-append Q (a ∷ front) back (now, more) held = (now, All-append Q front back more held)

  pub All-map {κ κ'} :
      (P : A → Type κ) (Q : A → Type κ') (f : (a : A) → P a → Q a) (xs : List A)
      → All P xs
      → All Q xs
  All-map P Q f [] h = tt
  All-map P Q f (x ∷ xs) h = (f x h.0, All-map P Q f xs h.1)

abbrev pub contains : String → List String → Bool
contains a [] = false
contains a (x ∷ xs) = (x == a) || contains a xs

-- `set.add(a)`: a `Set` keeps the order of insertion.
abbrev pub add : String → List String → List String
add a xs = if contains a xs then xs else xs ++ a ∷ []

-- `set.delete(a)`
abbrev pub discard : String → List String → List String
discard a xs = keep (λ x. not (x == a)) xs

add_each : List String → List String → List String
add_each [] s = s
add_each (x ∷ xs) s = add_each xs (add x s)

-- `new Set(list)`
unfoldable pub set_of : List String → List String
unfolding add_each
set_of xs = add_each xs []

abbrev pub distinct : List String → Bool
distinct [] = true
distinct (x ∷ xs) = not (contains x xs) && distinct xs

pub contains-append :
    (a : String) (xs ys : List String) → contains a (xs ++ ys) ≡ (contains a xs || contains a ys)
contains-append a [] ys = refl
contains-append a (x ∷ xs) ys = ground (arith, contains-append a xs ys)

contains-keep :
    (a : String) (p : String → Bool) (xs : List String)
    → contains a xs ≡ false
    → contains a (keep p xs) ≡ false
contains-keep a p [] h = refl
contains-keep a p (x ∷ xs) h = ground (arith, contains-keep a p xs)

pub distinct-discard :
    (a : String) (xs : List String) → distinct xs ≡ true → distinct (discard a xs) ≡ true
distinct-discard a [] h = refl
distinct-discard a (x ∷ xs) h =
    ground (arith, distinct-discard a xs, contains-keep x (λ y. not (y == a)) xs)

distinct-append_one :
    (a : String) (xs : List String)
    → distinct xs ≡ true
    → contains a xs ≡ false
    → distinct (xs ++ a ∷ []) ≡ true
distinct-append_one a [] h n = refl
distinct-append_one a (x ∷ xs) h n =
    ground (arith, distinct-append_one a xs, contains-append x xs (a ∷ []), eq_iff a x, eq_iff x a)

pub distinct-add : (a : String) (xs : List String) → distinct xs ≡ true → distinct (add a xs) ≡ true
distinct-add a xs h = ground (arith, distinct-append_one a xs h)

distinct-add_each : (xs s : List String) → distinct s ≡ true → distinct (add_each xs s) ≡ true
unfolding add_each
distinct-add_each [] s h = h
distinct-add_each (x ∷ xs) s h = distinct-add_each xs (add x s) (distinct-add x s h)

pub distinct-set_of : (xs : List String) → distinct (set_of xs) ≡ true
unfolding set_of
distinct-set_of xs = distinct-add_each xs [] refl
