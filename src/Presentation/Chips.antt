-- ===== src/Presentation/Chips.antt =====
-- What holds of every bubble that `presentMessages` returns: its reaction chips, and its expiry.
use mathlib.Core.Bool.{false≢true}
use timber_chat.Prelude.{
  All-map, ◌&&◌, ◌||◌, not, ℕ, String, ◌≡◌, ◌≢◌, refl, sym, Bool, true, false, Option, none, some,
  List, [], ◌∷◌, lookup, arith, eq_refl, ◌==◌, All, ◌∙◌, Dict, distinct, distinct-add,
  distinct-discard, distinct-set_of, Each, Each-insert, Each-remove, Each-lookup, insert, set_of,
  or_else, Bool-cases, inl, inr, Option-cases,
}
use timber_chat.Presentation.{
  Payload, text, reaction, edit, delete, pin, decision_vote, postcard, call_update, CallStatus,
  hold, is_card_of, is_expired, ConversationMessage, presented, undecryptable, Presented,
  Projection, alter, react, edit_by, delete_by, vote_by, amend_by, amend_card, fold_message,
  fold_messages, present_messages, entry_for, target_of, fold_payload, collect, blank_body,
}
use timber_chat.Presentation.View.{lookup-target_of}
use timber_chat.Presentation.Retraction.{body_of, is_blank}
use timber_chat.Presentation.Find.{start}

-- A chip of the reaction bar: somebody holds it, and nobody twice.
abbrev pub IsChip : List String → Type 0
IsChip people = (people ≢ []) × (distinct people ≡ true)

abbrev is_text : Payload → Bool
is_text (text t) = true
is_text _ = false

abbrev IsNeat : ConversationMessage → Type 0
IsNeat (presented p) =
    Each IsChip p.reactions
    × (p.expired ≡ true → (is_text p.payload ≡ false) × (is_blank (body_of p.payload) ≡ true))
IsNeat (undecryptable b r) = Unit

-- A message as the database returns it, before any control was folded in.
abbrev pub IsFresh : ConversationMessage → Type 0
IsFresh (presented p) = (p.reactions ≡ []) × (p.expired ≡ false)
IsFresh (undecryptable b r) = Unit

Each-hold :
    (emoji : String) (people : List String) (reactions : Dict (List String))
    → distinct people ≡ true
    → Each IsChip reactions
    → Each IsChip (hold emoji people reactions)
Each-hold emoji [] reactions d h = Each-remove IsChip emoji reactions h
Each-hold emoji (p ∷ ps) reactions d h =
    Each-insert IsChip emoji (p ∷ ps) reactions ((λ e. cc), d) h

react-IsNeat :
    (emoji : String) (removed : Bool) (sender : String) (p : Presented)
    → IsNeat (presented p)
    → IsNeat (presented (react emoji removed sender p))
unfolding react
react-IsNeat emoji true sender p h =
    let people = set_of (or_else (lookup emoji p.reactions) []) in
    (Each-hold emoji _ p.reactions (distinct-discard sender people (distinct-set_of _)) h.0, h.1)
react-IsNeat emoji false sender p h =
    let people = set_of (or_else (lookup emoji p.reactions) []) in
    (Each-hold emoji _ p.reactions (distinct-add sender people (distinct-set_of _)) h.0, h.1)

abbrev IsBlankIfExpired : Presented → Type 0
IsBlankIfExpired p =
    p.expired ≡ true → (is_text p.payload ≡ false) × (is_blank (body_of p.payload) ≡ true)

-- An alteration that leaves the reactions alone.
IsNeat-reactions :
    (p q : Presented)
    → q.reactions ≡ p.reactions
    → IsBlankIfExpired q
    → IsNeat (presented p)
    → IsNeat (presented q)
IsNeat-reactions p q same h t = (rw same t.0, h)

blank_body-blank :
    (payload : Payload)
    → is_text payload ≡ false
    → (is_text (blank_body payload) ≡ false) × (is_blank (body_of (blank_body payload)) ≡ true)
unfolding blank_body
blank_body-blank (text t) h = absurd (false≢true (sym h))
blank_body-blank (edit i b) h = (refl, eq_refl "")
blank_body-blank (postcard p) h = (refl, eq_refl "")
blank_body-blank _ h = (refl, refl)

edit_by-IsNeat :
    (sender body : String) (p : Presented)
    → IsNeat (presented p)
    → IsNeat (presented (edit_by sender body p))
unfolding edit_by
edit_by-IsNeat sender body p h =
    IsNeat-reactions p (edit_by sender body p) (ground arith) (λ e. ground (arith, h.1)) h

delete_by-IsNeat :
    (sender : String) (p : Presented)
    → IsNeat (presented p)
    → IsNeat (presented (delete_by sender p))
unfolding delete_by
delete_by-IsNeat sender p h =
    IsNeat-reactions p (delete_by sender p) (ground arith)
      (λ e. ground (arith, h.1, blank_body-blank p.payload)) h

vote_by-IsNeat :
    (sender value : String) (p : Presented)
    → IsNeat (presented p)
    → IsNeat (presented (vote_by sender value p))
unfolding vote_by
vote_by-IsNeat sender value p h =
    IsNeat-reactions p (vote_by sender value p) (ground arith) (λ e. ground (arith, h.1)) h

amend_by-IsNeat :
    (sender : String) (status : CallStatus) (duration : Option ℕ) (m : ConversationMessage)
    → IsNeat m
    → IsNeat (amend_by sender status duration m)
unfolding amend_by
amend_by-IsNeat sender status duration (undecryptable b r) h = h
amend_by-IsNeat sender status duration (presented p) h = elim (Bool-cases (p.sender_id == sender)) [
  | inl same ↦ rw same (h.0, λ e. ground (arith, h.1))
  | inr other ↦ rw other h
]

entry_for-IsNeat :
    (now : ℕ) (p : Presented) → IsFresh (presented p) → IsNeat (presented (entry_for now p))
unfolding entry_for
entry_for-IsNeat now p h = elim (Bool-cases (is_expired now p.payload)) [
  | inl late ↦ rw late (rw h.0 tt, λ e. blank_body-blank p.payload (ground arith))
  | inr live ↦ rw live (rw h.0 tt, λ e. absurd (false≢true (sym h.1 ∙ e)))
]

abbrev AllNeat : Projection → Type 0
AllNeat s = Each IsNeat s.visible

alter-AllNeat :
    (id : String) (change : Presented → Presented) (s : Projection)
    → ((p : Presented) → IsNeat (presented p) → IsNeat (presented (change p)))
    → AllNeat s
    → AllNeat (alter id change s)
unfolding alter
alter-AllNeat id change s keeps h = go (target_of s.visible id) refl
  where
    go :
        (o : Option Presented)
        → target_of s.visible id ≡ o
        → AllNeat (elim o [
          | none ↦ s
          | some original ↦ record s { visible = insert id (presented (change original)) s.visible }
        ])
    go none e = h
    go (some p) e =
        Each-insert IsNeat id (presented (change p)) s.visible
          (keeps p
            (Each-lookup IsNeat id s.visible (presented p) h (lookup-target_of s.visible id p e)))
          h

amend_card-AllNeat :
    (sender call_id : String) (status : CallStatus) (duration : Option ℕ)
    (visible : Dict ConversationMessage)
    → Each IsNeat visible
    → Each IsNeat (amend_card sender call_id status duration visible)
unfolding amend_card
amend_card-AllNeat sender call_id status duration [] h = tt
amend_card-AllNeat sender call_id status duration ((k, m) ∷ rest) h =
    elim (Bool-cases (is_card_of call_id m)) [
      | inl hit ↦ rw hit (amend_by-IsNeat sender status duration m h.0, h.1)
      | inr miss ↦ rw miss (h.0, amend_card-AllNeat sender call_id status duration rest h.1)
    ]

fold_payload-AllNeat :
    (now : ℕ) (payload : Payload) (p : Presented) (s : Projection)
    → p.payload ≡ payload
    → IsFresh (presented p)
    → AllNeat s
    → AllNeat (fold_payload now payload p s)
unfolding fold_payload
fold_payload-AllNeat now (reaction id emoji removed) p s e f h =
    alter-AllNeat id _ s (react-IsNeat emoji removed p.sender_id) h
fold_payload-AllNeat now (edit id body) p s e f h =
    alter-AllNeat id _ s (edit_by-IsNeat p.sender_id body) h
fold_payload-AllNeat now (delete id) p s e f h =
    alter-AllNeat id _ s (delete_by-IsNeat p.sender_id) h
fold_payload-AllNeat now (pin id pinned) p s e f h = alter-AllNeat id _ s (λ q t. t) h
fold_payload-AllNeat now (decision_vote id value) p s e f h =
    alter-AllNeat id _ s (vote_by-IsNeat p.sender_id value) h
fold_payload-AllNeat now (call_update id status duration) p s e f h =
    amend_card-AllNeat p.sender_id id status duration s.visible h
fold_payload-AllNeat now _ p s e f h =
    Each-insert IsNeat p.id _ s.visible (entry_for-IsNeat now p f) h

fold_messages-AllNeat :
    (now : ℕ) (s : Projection) (ms : List ConversationMessage)
    → All IsFresh ms
    → AllNeat s
    → AllNeat (fold_messages now s ms)
unfolding fold_messages fold_message
fold_messages-AllNeat now s [] f h = h
fold_messages-AllNeat now s (undecryptable b r ∷ ms) f h =
    fold_messages-AllNeat now (fold_message now s (undecryptable b r)) ms f.1
      (Each-insert IsNeat b.id (undecryptable b r) s.visible tt h)
fold_messages-AllNeat now s (presented p ∷ ms) f h =
    fold_messages-AllNeat now (fold_message now s (presented p)) ms f.1
      (fold_payload-AllNeat now p.payload p s refl f.0 h)

All-collect :
    (visible : Dict ConversationMessage) (order : List String)
    → Each IsNeat visible
    → All IsNeat (collect visible order)
unfolding collect
All-collect visible [] h = tt
All-collect visible (k ∷ ks) h = elim (Option-cases (lookup k visible)) [
  | inl e ↦ rw e (All-collect visible ks h)
  | inr (m, e) ↦ rw e (Each-lookup IsNeat k visible m h e, All-collect visible ks h)
]

-- An expired message that still shows a text.
abbrev shows_text : Presented → Bool
shows_text p = p.expired && (is_text p.payload || not (is_blank (body_of p.payload)))

abbrev pub IsTidy : ConversationMessage → Type 0
IsTidy (presented p) = Each IsChip p.reactions × (shows_text p ≡ false)
IsTidy (undecryptable b r) = Unit

tidy : (m : ConversationMessage) → IsNeat m → IsTidy m
tidy (presented p) h = (
  h.0,
  elim (Bool-cases p.expired) [ inl e ↦ rw (e, (h.1 e).0, (h.1 e).1) refl | inr e ↦ rw e refl ],
)
tidy (undecryptable b r) h = tt

-- Of messages as the database returns them: every reaction chip shown is held by somebody and by
-- nobody twice, and a message shown as expired has no text, nor a kind whose text can be edited.
pub present_messages-IsTidy :
    (now : ℕ) (ms : List ConversationMessage)
    → All IsFresh ms
    → All IsTidy (present_messages now ms)
unfolding present_messages
present_messages-IsTidy now ms f =
    let s = fold_messages now start ms in
    All-map IsNeat IsTidy tidy (collect s.visible s.order)
      (All-collect s.visible s.order (fold_messages-AllNeat now start ms f tt))
