-- ===== src/Database/InMemory.antt =====
-- A database that keeps its rows in lists: what is asked of IndexedDB can be met, and it runs.
use native.Mathlib.Nat.{le_trans}
use mathlib.Core.Bool.{false≢true}
use timber_chat.Prelude.{
  ◌≤◌, String, true, ◌≡◌, ◌≢◌, refl, sym, ap, ◌∙◌, Option, none, some, List, [], ◌∷◌, All, All-map,
  ◌==◌, if◌then◌else◌, ◌⊎◌, inl, inr, keep, leb, arith, eq_iff, eq_refl, Bool-cases,
}
use timber_chat.Database.{
  StoredMessage, ObjectStore, Database, IsIn, IsOrdered, message_key, conversation_key,
}

module _ {V : Type 0} (key : V → String) where
  abbrev pub get : List V → String → Option V
  get [] k = none
  get (v ∷ vs) k = if key v == k then some v else get vs k

  abbrev pub delete : List V → String → List V
  delete [] j = []
  delete (v ∷ vs) j = if key v == j then delete vs j else v ∷ delete vs j

  pub get-delete :
      (t : List V) (j k : String) → get (delete t j) k ≡ (if j == k then none else get t k)
  get-delete [] j k = ground arith
  get-delete (v ∷ vs) j k =
      ground (arith, get-delete vs j k, eq_iff (key v) j, eq_iff (key v) k, eq_iff j k)

  pub get_key : (t : List V) (k : String) (v : V) → get t k ≡ some v → key v ≡ k
  get_key [] k v h = cc
  get_key (w ∷ ws) k v h = ground (arith, eq_iff (key w) k, get_key ws k v)

  -- The first row of each key.
  abbrev pub current : List V → List V
  current [] = []
  current (v ∷ vs) = v ∷ delete (current vs) (key v)

  pub get-current : (t : List V) (k : String) → get (current t) k ≡ get t k
  get-current [] k = refl
  get-current (v ∷ vs) k =
      ground (arith, get-delete (current vs) (key v) k, get-current vs k, eq_iff (key v) k)

  All-delete {κ} :
      (P : V → Type κ) (t : List V) (j : String)
      → All P t
      → All (λ v. P v × (key v ≢ j)) (delete t j)
  All-delete P [] j h = tt
  All-delete P (v ∷ vs) j h = elim (Bool-cases (key v == j)) [
    | inl same ↦ rw same (All-delete P vs j h.1)
    | inr other ↦ rw other (
      (h.0, λ e. absurd (false≢true (sym other ∙ (eq_iff (key v) j).1 e))),
      All-delete P vs j h.1,
    )
  ]

  pub current_sound : (t : List V) → All (λ v. get t (key v) ≡ some v) (current t)
  current_sound [] = tt
  current_sound (v ∷ vs) = (
    rw eq_refl refl,
    All-map _ _ (λ w h. ground (arith, h.0, h.1, eq_iff (key v) (key w)))
        (delete (current vs) (key v)) (All-delete _ (current vs) (key v) (current_sound vs)),
  )

  pub IsIn-get : (t : List V) (k : String) (v : V) → get t k ≡ some v → IsIn v t
  IsIn-get [] k v h = cc
  IsIn-get (w ∷ ws) k v h = elim (Bool-cases (key w == k)) [
    | inl same ↦ inl (ground arith)
    | inr other ↦ inr (IsIn-get ws k v (ground arith))
  ]

  abbrev pub object_store : ObjectStore V key
  object_store = record {
    Table = List V;
    get = get;
    put = λ t v. v ∷ t;
    delete = delete;
    get-put = λ t v k. refl;
    get-delete = get-delete;
    get_key = get_key;
  }

-- Insertion by time, for the index.
abbrev pub place : StoredMessage → List StoredMessage → List StoredMessage
place m [] = m ∷ []
place m (n ∷ ns) = if leb m.created_at n.created_at then m ∷ n ∷ ns else n ∷ place m ns

abbrev pub arrange : List StoredMessage → List StoredMessage
arrange [] = []
arrange (m ∷ ms) = place m (arrange ms)

abbrev pub rows : List StoredMessage → String → List StoredMessage
rows t c = arrange (keep (λ m. m.conversation_id == c) (current message_key t))

All-place {κ} :
    (P : StoredMessage → Type κ) (m : StoredMessage) (ms : List StoredMessage)
    → P m
    → All P ms
    → All P (place m ms)
All-place P m [] p h = (p, tt)
All-place P m (n ∷ ns) p h = elim (Bool-cases (leb m.created_at n.created_at)) [
  | inl e ↦ rw e (p, h)
  | inr e ↦ rw e (h.0, All-place P m ns p h.1)
]

pub All-arrange {κ} :
    (P : StoredMessage → Type κ) (ms : List StoredMessage) → All P ms → All P (arrange ms)
All-arrange P [] h = tt
All-arrange P (m ∷ ms) h = All-place P m (arrange ms) h.0 (All-arrange P ms h.1)

place-IsOrdered :
    (m : StoredMessage) (ms : List StoredMessage) → IsOrdered ms → IsOrdered (place m ms)
place-IsOrdered m [] h = (tt, tt)
place-IsOrdered m (n ∷ ns) h = elim (Bool-cases (leb m.created_at n.created_at)) [
  | inl e ↦
      let first : m.created_at ≤ n.created_at = ground arith in
      rw e ((first, All-map _ _ (λ x le. le_trans first le) ns h.0), h)
  | inr e ↦
      let first : n.created_at ≤ m.created_at = ground arith in
      rw e (All-place _ m ns first h.0, place-IsOrdered m ns h.1)
]

pub arrange-IsOrdered : (ms : List StoredMessage) → IsOrdered (arrange ms)
arrange-IsOrdered [] = tt
arrange-IsOrdered (m ∷ ms) = place-IsOrdered m (arrange ms) (arrange-IsOrdered ms)

IsIn-place :
    (x m : StoredMessage) (ms : List StoredMessage) → (x ≡ m) ⊎ IsIn x ms → IsIn x (place m ms)
IsIn-place x m [] h = h
IsIn-place x m (n ∷ ns) h = elim (Bool-cases (leb m.created_at n.created_at)) [
  | inl e ↦ rw e h
  | inr e ↦ rw e (elim h [
    | inl q ↦ inr (IsIn-place x m ns (inl q))
    | inr q ↦ elim q [ inl r ↦ inl r | inr r ↦ inr (IsIn-place x m ns (inr r)) ]
  ])
]

pub IsIn-arrange : (x : StoredMessage) (ms : List StoredMessage) → IsIn x ms → IsIn x (arrange ms)
IsIn-arrange x [] h = h
IsIn-arrange x (m ∷ ms) h =
    IsIn-place x m (arrange ms) (elim h [ inl e ↦ inl e | inr i ↦ inr (IsIn-arrange x ms i) ])

pub All-keep :
    (P : StoredMessage → Type 0) (c : String) (ms : List StoredMessage)
    → All P ms
    → All (λ m. P m × (m.conversation_id ≡ c)) (keep (λ m. m.conversation_id == c) ms)
All-keep P c [] h = tt
All-keep P c (m ∷ ms) h = elim (Bool-cases (m.conversation_id == c)) [
  | inl e ↦ rw e ((h.0, (eq_iff m.conversation_id c).0 e), All-keep P c ms h.1)
  | inr e ↦ rw e (All-keep P c ms h.1)
]

pub IsIn-keep :
    (x : StoredMessage) (ms : List StoredMessage)
    → IsIn x ms
    → IsIn x (keep (λ m. m.conversation_id == x.conversation_id) ms)
IsIn-keep x [] h = h
IsIn-keep x (m ∷ ms) h = elim h [
  | inl e ↦
      let hit : (m.conversation_id == x.conversation_id) ≡ true =
        (eq_iff m.conversation_id x.conversation_id).1
          (ap (λ (y : StoredMessage). y.conversation_id) (sym e)) in
      rw hit (inl e)
  | inr i ↦ elim (Bool-cases (m.conversation_id == x.conversation_id)) [
    | inl e ↦ rw e (inr (IsIn-keep x ms i))
    | inr e ↦ rw e (IsIn-keep x ms i)
  ]
]

abbrev pub database : Database
database = record {
  messages = object_store message_key;
  conversations = object_store conversation_key;
  rows = rows;
  rows_sound =
      λ t c. All-arrange _ _ (All-keep _ c (current message_key t) (current_sound message_key t));
  rows_complete = λ t m h. IsIn-arrange m _ (
      IsIn-keep m (current message_key t)
        (IsIn-get message_key (current message_key t) m.id m (get-current message_key t m.id ∙ h)));
  rows_ordered =
      λ t c. arrange-IsOrdered (keep (λ m. m.conversation_id == c) (current message_key t));
}
