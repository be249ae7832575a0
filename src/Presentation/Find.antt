-- ===== src/Presentation/Find.antt =====
-- Looking a message up in what `presentMessages` returns.
use mathlib.Core.Bool.{false≢true}
use timber_chat.Prelude.{
  Option-cases, ℕ, String, ◌≡◌, refl, ap, true, false, Option, some, List, [], ◌∷◌, ◌++◌, Dict,
  lookup, arith, eq_iff, eq_refl, ◌==◌, All, find, contains, Bool-cases, inl, inr, ◌∙◌,
  lookup-insert,
}
use timber_chat.Presentation.{
  ConversationMessage, presented, Presented, Projection, fold_message, fold_messages, collect,
  present_messages, show, entry_for,
}
use timber_chat.Presentation.View.{is_control, seen_as, bubble_payload}
use timber_chat.Presentation.Order.{message_id, fold_messages-IsIndexed, fold_messages-order}

abbrev pub find_message : String → List ConversationMessage → Option ConversationMessage
find_message id ms = find (λ m. message_id m == id) ms

abbrev pub start : Projection
start = record { visible = []; order = [] }

contains-append_left :
    (a : String) (xs ys : List String) → contains a xs ≡ true → contains a (xs ++ ys) ≡ true
contains-append_left a [] ys h = absurd (false≢true h)
contains-append_left a (x ∷ xs) ys h = ground (arith, contains-append_left a xs ys)

contains-append_right :
    (a : String) (xs ys : List String) → contains a ys ≡ true → contains a (xs ++ ys) ≡ true
contains-append_right a [] ys h = h
contains-append_right a (x ∷ xs) ys h = ground (arith, contains-append_right a xs ys h)

find-collect :
    (visible : Dict ConversationMessage) (id : String) (order : List String)
    → All (λ k. seen_as message_id (lookup k visible) ≡ some k) order
    → contains id order ≡ true
    → find_message id (collect visible order) ≡ lookup id visible
unfolding collect
find-collect visible id [] h c = absurd (false≢true c)
find-collect visible id (k ∷ ks) h c = elim (Option-cases (lookup k visible)) [
  | inl e ↦ ground (arith, h.0)
  | inr (m, e) ↦ elim (Bool-cases (k == id)) [
    | inl same ↦ ground (arith, h.0, (eq_iff k id).0 same, eq_iff (message_id m) id)
    | inr other ↦
        ground (arith, h.0, find-collect visible id ks h.1, eq_iff (message_id m) id, eq_iff k id)
  ]
]

pub fold_messages-append :
    (now : ℕ) (s : Projection) (xs ys : List ConversationMessage)
    → fold_messages now s (xs ++ ys) ≡ fold_messages now (fold_messages now s xs) ys
unfolding fold_messages
fold_messages-append now s [] ys = refl
fold_messages-append now s (x ∷ xs) ys = fold_messages-append now (fold_message now s x) xs ys

contains-fold_messages :
    (now : ℕ) (id : String) (s : Projection) (ms : List ConversationMessage)
    → contains id s.order ≡ true
    → contains id (fold_messages now s ms).order ≡ true
contains-fold_messages now id s ms h = rw fold_messages-order (contains-append_left id s.order _ h)

fold_message_bubble :
    (now : ℕ) (s : Projection) (p : Presented)
    → is_control p.payload ≡ false
    → fold_message now s (presented p) ≡ show p.id (presented (entry_for now p)) s
unfolding fold_message
fold_message_bubble now s p c = bubble_payload now p.payload p s c

-- The projection just after the bubble `p` was shown.
abbrev pub shown : ℕ → List ConversationMessage → Presented → Projection
shown now before p = show p.id (presented (entry_for now p)) (fold_messages now start before)

pub lookup-shown :
    (now : ℕ) (before : List ConversationMessage) (p : Presented)
    → lookup p.id (shown now before p).visible ≡ some (presented (entry_for now p))
lookup-shown now before p = rw (lookup-insert, eq_refl)

-- A bubble is found under its id in what the rest of the fold has made of it.
pub find-present_messages :
    (now : ℕ) (before : List ConversationMessage) (p : Presented) (after : List ConversationMessage)
    → is_control p.payload ≡ false
    → find_message p.id (present_messages now (before ++ presented p ∷ after))
      ≡ lookup p.id (fold_messages now (shown now before p) after).visible
unfolding present_messages
find-present_messages now before p after c =
    let all = before ++ presented p ∷ after in
    let same : fold_messages now start all ≡ fold_messages now (shown now before p) after =
      fold_messages-append now start before (presented p ∷ after)
      ∙ (unfold fold_messages in
          rw (fold_message_bubble now (fold_messages now start before) p c) refl) in
    let there : contains p.id (fold_messages now (shown now before p) after).order ≡ true =
      contains-fold_messages now p.id (shown now before p) after (
        contains-append_right p.id (fold_messages now start before).order (p.id ∷ [])
          (rw eq_refl refl)) in
    find-collect (fold_messages now start all).visible p.id (fold_messages now start all).order
      (fold_messages-IsIndexed now start all tt) (rw same there)
    ∙ ap (λ (s : Projection). lookup p.id s.visible) same
