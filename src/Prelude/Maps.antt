-- ===== src/Prelude/Maps.antt =====
-- JavaScript's `Map` and its objects with text keys: an association list in order of insertion.
use Prim.Native.String.{String}
use mathlib.Core.Path.{◌≡◌, refl, subst}
use mathlib.Core.Logic.{inl, inr}
use mathlib.Core.Option.{Option, none, some}
use mathlib.Core.List.{List, [], ◌∷◌}
use native.Mathlib.Omega.{arith}
use text.Mathlib.Text.{◌==◌}
use text.Mathlib.TextEquality.{eq_iff}
use timber_chat.Prelude.Tests.{if◌then◌else◌, Bool-cases}

abbrev pub Dict {ℓ} : Type ℓ → Type ℓ
Dict V = List (String × V)

module _ {ℓ} {V : Type ℓ} where
  -- `map.delete(key)`
  unfoldable pub remove : String → Dict V → Dict V
  remove key [] = []
  remove key (entry ∷ rest) =
      let others = remove key rest in if entry.0 == key then others else entry ∷ others

  -- `map.set(key, value)`: a key that is there keeps its place.
  unfoldable pub insert : String → V → Dict V → Dict V
  insert key value [] = (key, value) ∷ []
  insert key value (entry ∷ rest) =
      if entry.0 == key then (entry.0, value) ∷ rest else entry ∷ insert key value rest

  -- `map.get(key)`
  unfoldable pub lookup : String → Dict V → Option V
  lookup key [] = none
  lookup key (entry ∷ rest) = if entry.0 == key then some entry.1 else lookup key rest

  pub lookup-remove :
      (key other : String) (dict : Dict V)
      → lookup other (remove key dict) ≡ (if key == other then none else lookup other dict)
  unfolding remove lookup
  lookup-remove key other [] = ground arith
  lookup-remove key other (entry ∷ rest) = ground (
    arith,
    eq_iff key other,
    eq_iff entry.0 other,
    eq_iff entry.0 key,
    lookup-remove key other rest,
  )

  pub lookup-insert :
      (key other : String) (value : V) (dict : Dict V)
      → lookup other (insert key value dict)
        ≡ (if key == other then some value else lookup other dict)
  unfolding insert lookup
  lookup-insert key other value [] = refl
  lookup-insert key other value (entry ∷ rest) = ground (
    arith,
    eq_iff key other,
    eq_iff entry.0 other,
    eq_iff entry.0 key,
    lookup-insert key other value rest,
  )

pub lookup-empty {ℓ} : {V : Type ℓ} (k : String) → lookup {V = V} k [] ≡ none
unfolding lookup
lookup-empty k = refl

pub ruleset dict_laws = (lookup-insert, lookup-remove, lookup-empty)

-- A property of every entry.
module _ {ℓ κ} {V : Type ℓ} (P : V → Type κ) where
  abbrev pub Each : Dict V → Type κ
  Each [] = Unit
  Each ((k, v) ∷ m) = P v × Each m

  pub Each-insert : (k : String) (v : V) (m : Dict V) → P v → Each m → Each (insert k v m)
  unfolding insert
  Each-insert k v [] p h = (p, tt)
  Each-insert k v ((j, w) ∷ m) p h = elim (Bool-cases (j == k)) [
    | inl same ↦ rw same (p, h.1)
    | inr other ↦ rw other (h.0, Each-insert k v m p h.1)
  ]

  pub Each-remove : (k : String) (m : Dict V) → Each m → Each (remove k m)
  unfolding remove
  Each-remove k [] h = tt
  Each-remove k ((j, w) ∷ m) h = elim (Bool-cases (j == k)) [
    | inl same ↦ rw same (Each-remove k m h.1)
    | inr other ↦ rw other (h.0, Each-remove k m h.1)
  ]

  pub Each-lookup : (k : String) (m : Dict V) (v : V) → Each m → lookup k m ≡ some v → P v
  unfolding lookup
  Each-lookup k [] v h e = absurd (ground arith)
  Each-lookup k ((j, w) ∷ m) v h e = elim (Bool-cases (j == k)) [
    | inl same ↦ let w_is : w ≡ v = ground arith in subst P w_is h.0
    | inr other ↦ Each-lookup k m v h.1 (ground arith)
  ]
