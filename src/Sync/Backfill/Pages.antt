-- ===== src/Sync/Backfill/Pages.antt =====
-- What the relay documents of a page of history, `get_messages` of backend/src/routes/conversations.rs:
-- the newest `page_size` messages before the cursor, oldest first.
use mathlib.Core.Path.{subst}
use timber_chat.Prelude.{
  ℕ, zero, suc, ◌-◌, ◌≤◌, ◌<◌, Bool, true, ◌≡◌, ◌⊎◌, inl, inr, refl, sym, ap, Option, none, some,
  List, [], ◌∷◌, ◌++◌, length, take, keep, ltb, arith, All, All-map,
}
use timber_chat.Database.{IsIn}
use timber_chat.Sync.Backfill.{ServerMessage, page_size}

module _ {A : Type 0} where
  abbrev pub drop : ℕ → List A → List A
  drop zero xs = xs
  drop (suc n) [] = []
  drop (suc n) (x ∷ xs) = drop n xs

  pub take-drop : (n : ℕ) (xs : List A) → xs ≡ take n xs ++ drop n xs
  take-drop zero xs = refl
  take-drop (suc n) [] = refl
  take-drop (suc n) (x ∷ xs) = ap (λ ys. x ∷ ys) (take-drop n xs)

  pub length-drop : (n : ℕ) (xs : List A) → length (drop n xs) ≡ length xs - n
  length-drop zero xs = omega arith
  length-drop (suc n) [] = omega arith
  length-drop (suc n) (x ∷ xs) = omega (arith, length-drop n xs)

  pub length-take : (n : ℕ) (xs : List A) → n ≤ length xs → length (take n xs) ≡ n
  length-take zero xs h = refl
  length-take (suc n) [] h = absurd (omega (arith, h))
  length-take (suc n) (x ∷ xs) h =
      let less : n ≤ length xs = omega (arith, h) in omega (arith, length-take n xs less)

  pub IsIn-append : (a : A) (xs ys : List A) → IsIn a (xs ++ ys) → IsIn a xs ⊎ IsIn a ys
  IsIn-append a [] ys i = inr i
  IsIn-append a (x ∷ xs) ys (inl e) = inl (inl e)
  IsIn-append a (x ∷ xs) ys (inr i) = elim (IsIn-append a xs ys i) [
    | inl here ↦ inl (inr here)
    | inr later ↦ inr later
  ]

  pub append_assoc : (xs ys zs : List A) → (xs ++ ys) ++ zs ≡ xs ++ (ys ++ zs)
  append_assoc [] ys zs = refl
  append_assoc (x ∷ xs) ys zs = ap (λ l. x ∷ l) (append_assoc xs ys zs)

  pub All-IsIn : (P : A → Type 0) (a : A) (xs : List A) → All P xs → IsIn a xs → P a
  All-IsIn P a [] h i = elim i [ ]
  All-IsIn P a (x ∷ xs) h (inl e) = subst P (sym e) h.0
  All-IsIn P a (x ∷ xs) h (inr i) = All-IsIn P a xs h.1 i

abbrev pub take_last : ℕ → List ServerMessage → List ServerMessage
take_last n xs = drop (length xs - n) xs

-- `m.created_at < before`, or no cursor.
abbrev pub is_before : Option ℕ → ServerMessage → Bool
is_before none m = true
is_before (some t) m = ltb m.created_at t

abbrev pub page_before : List ServerMessage → Option ℕ → List ServerMessage
page_before history before = take_last page_size (keep (is_before before) history)

-- No two messages of a conversation share their time, and the older come first.
abbrev pub IsAscending : List ServerMessage → Type 0
IsAscending [] = Unit
IsAscending (m ∷ ms) = All (λ n. m.created_at < n.created_at) ms × IsAscending ms

-- Nothing from `t` on is before `t`.
keep-none_before :
    (t : ℕ) (ms : List ServerMessage)
    → All (λ n. t ≤ n.created_at) ms
    → keep (is_before (some t)) ms ≡ []
keep-none_before t [] h = refl
keep-none_before t (n ∷ ns) h = ground (arith, keep-none_before t ns h.1, h.0)

-- The entry after the front is later than all of the front.
All-front :
    (front rest : List ServerMessage) (t : ℕ) (m : ServerMessage)
    → All (λ n. t < n.created_at) (front ++ m ∷ rest)
    → t < m.created_at
All-front [] rest t m h = h.0
All-front (n ∷ front) rest t m h = All-front front rest t m h.1

-- Cut at `m`: what is before it, by time, is what stands before it.
pub keep-before :
    (front rest : List ServerMessage) (m : ServerMessage)
    → IsAscending (front ++ m ∷ rest)
    → (keep (is_before (some m.created_at)) (front ++ m ∷ rest) ≡ front)
      × All (λ n. n.created_at < m.created_at) front
keep-before [] rest m h = (
  keep-none_before m.created_at (m ∷ rest)
      (omega arith, All-map _ _ (λ n le. omega (arith, le)) rest h.0),
  tt,
)
keep-before (n ∷ front) rest m h =
    let more = keep-before front rest m h.1 in
    let first = All-front front rest n.created_at m h.0 in
    (ground (arith, more.0, first), (first, more.1))

pub keep-all : (ms : List ServerMessage) → keep (is_before none) ms ≡ ms
keep-all [] = refl
keep-all (m ∷ ms) = ap (λ l. m ∷ l) (keep-all ms)

IsIn-right : (n : ServerMessage) (xs ys : List ServerMessage) → IsIn n ys → IsIn n (xs ++ ys)
IsIn-right n [] ys i = i
IsIn-right n (x ∷ xs) ys i = inr (IsIn-right n xs ys i)

-- All that stands before a part is older than each entry of the part.
pub All-older :
    (front part : List ServerMessage) (n : ServerMessage)
    → IsAscending (front ++ part)
    → IsIn n part
    → All (λ x. x.created_at < n.created_at) front
All-older [] part n h i = tt
All-older (x ∷ front) part n h i =
    (All-IsIn _ n (front ++ part) h.0 (IsIn-right n front part i), All-older front part n h.1 i)
