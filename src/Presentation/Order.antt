-- ===== src/Presentation/Order.antt =====
-- Which bubbles `presentMessages` shows, and in which order.
use mathlib.Core.Bool.{false≢true}
use mathlib.Core.Path.{subst}
use mathlib.Core.List.{append-nil, append_assoc}
use timber_chat.Prelude.{
  Dict, eq_refl, Bool-cases, ℕ, String, ◌≡◌, refl, sym, ap, Bool, true, false, Option, some, List,
  [], ◌∷◌, ◌++◌, map, lookup, lookup-insert, arith, eq_iff, if◌then◌else◌, All, All-append, All-map,
  keep, ◌∙◌, inl, inr,
}
use timber_chat.Presentation.{
  CallStatus, show, Payload, reaction, edit, delete, pin, decision_vote, call_update,
  ConversationMessage, presented, undecryptable, Presented, Projection, base_of, alter, react,
  edit_by, delete_by, vote_by, amend_by, entry_for, fold_payload, fold_message, fold_messages,
  collect, present_messages,
}
use timber_chat.Presentation.View.{
  bubble_payload, is_control, seen_as, seen_as-alter, seen_as-amend_card,
}

abbrev pub message_id : ConversationMessage → String
message_id m = (base_of m).id

abbrev pub is_bubble : ConversationMessage → Bool
is_bubble (presented p) = if is_control p.payload then false else true
is_bubble (undecryptable b r) = true

-- Every id of `order` finds a message with that id.
abbrev IsIndexed : Projection → Type 0
IsIndexed s = All (λ k. seen_as message_id (lookup k s.visible) ≡ some k) s.order

-- What one turn of the loop does to `order`.
abbrev extended : ConversationMessage → List String → List String
extended m order = if is_bubble m then order ++ message_id m ∷ [] else order

abbrev KeepsIds : Projection → Projection → Type 0
KeepsIds s t =
    (k : String)
    → seen_as message_id (lookup k s.visible) ≡ some k
    → seen_as message_id (lookup k t.visible) ≡ some k

alter-KeepsIds :
    (id : String) (change : Presented → Presented) (s : Projection)
    → ((p : Presented) → (change p).base ≡ p.base)
    → KeepsIds s (alter id change s)
alter-KeepsIds id change s same k h =
    seen_as-alter message_id id change s k (λ p e _. ap (λ b. b.id) (same p)) ∙ h

react-base :
    (emoji : String) (removed : Bool) (sender : String) (p : Presented)
    → (react emoji removed sender p).base ≡ p.base
unfolding react
react-base emoji removed sender p = refl

edit_by-base : (sender body : String) (p : Presented) → (edit_by sender body p).base ≡ p.base
unfolding edit_by
edit_by-base sender body p = ground arith

delete_by-base : (sender : String) (p : Presented) → (delete_by sender p).base ≡ p.base
unfolding delete_by
delete_by-base sender p = ground arith

vote_by-base : (sender value : String) (p : Presented) → (vote_by sender value p).base ≡ p.base
unfolding vote_by
vote_by-base sender value p = ground arith

amend_by-base :
    (sender : String) (status : CallStatus) (duration : Option ℕ) (m : ConversationMessage)
    → message_id (amend_by sender status duration m) ≡ message_id m
unfolding amend_by
amend_by-base sender status duration (presented p) = ground arith
amend_by-base sender status duration (undecryptable b r) = refl

entry_for-base : (now : ℕ) (p : Presented) → (entry_for now p).base ≡ p.base
unfolding entry_for
entry_for-base now p = ground arith

control-KeepsIds :
    (now : ℕ) (payload : Payload) (p : Presented) (s : Projection)
    → is_control payload ≡ true
    → KeepsIds s (fold_payload now payload p s)
unfolding fold_payload
control-KeepsIds now (reaction id emoji removed) p s h =
    alter-KeepsIds id _ s (react-base emoji removed p.sender_id)
control-KeepsIds now (edit id body) p s h = alter-KeepsIds id _ s (edit_by-base p.sender_id body)
control-KeepsIds now (delete id) p s h = alter-KeepsIds id _ s (delete_by-base p.sender_id)
control-KeepsIds now (pin id pinned) p s h = alter-KeepsIds id _ s (λ o. refl)
control-KeepsIds now (decision_vote id value) p s h =
    alter-KeepsIds id _ s (vote_by-base p.sender_id value)
control-KeepsIds now (call_update id status duration) p s h = λ k e.
    seen_as-amend_card message_id p.sender_id id status duration s.visible k
      (λ m _. amend_by-base p.sender_id status duration m)
    ∙ e
control-KeepsIds now _ p s h = absurd (false≢true h)

show-KeepsIds : (m : ConversationMessage) (s : Projection) → KeepsIds s (show (message_id m) m s)
show-KeepsIds m s k h = rw lookup-insert (ground (arith, eq_iff (message_id m) k))

alter-order :
    (id : String) (change : Presented → Presented) (s : Projection)
    → (alter id change s).order ≡ s.order
unfolding alter
alter-order id change s = ground arith

fold_payload-order :
    (now : ℕ) (payload : Payload) (p : Presented) (s : Projection)
    → (fold_payload now payload p s).order
      ≡ (if is_control payload then s.order else s.order ++ p.id ∷ [])
unfolding fold_payload
fold_payload-order now (reaction id emoji removed) p s = alter-order id _ s
fold_payload-order now (edit id body) p s = alter-order id _ s
fold_payload-order now (delete id) p s = alter-order id _ s
fold_payload-order now (pin id pinned) p s = alter-order id _ s
fold_payload-order now (decision_vote id value) p s = alter-order id _ s
fold_payload-order now (call_update id status duration) p s = refl
fold_payload-order now _ p s = refl

fold_message-order :
    (now : ℕ) (s : Projection) (m : ConversationMessage)
    → (fold_message now s m).order ≡ extended m s.order
unfolding fold_message
fold_message-order now s (undecryptable b r) = refl
fold_message-order now s (presented p) = elim (Bool-cases (is_control p.payload)) [
  | inl c ↦ rw c (fold_payload-order now p.payload p s ∙ (rw c refl))
  | inr c ↦ rw c (fold_payload-order now p.payload p s ∙ (rw c refl))
]

show-IsIndexed :
    (m : ConversationMessage) (s : Projection) → IsIndexed s → IsIndexed (show (message_id m) m s)
show-IsIndexed m s h =
    All-append _ s.order (message_id m ∷ []) (All-map _ _ (show-KeepsIds m s) s.order h)
      (rw (lookup-insert, eq_refl) refl, tt)

fold_payload-IsIndexed :
    (now : ℕ) (p : Presented) (s : Projection)
    → IsIndexed s
    → IsIndexed (fold_payload now p.payload p s)
fold_payload-IsIndexed now p s h = elim (Bool-cases (is_control p.payload)) [
  | inl c ↦
      let same : (fold_payload now p.payload p s).order ≡ s.order =
        fold_payload-order now p.payload p s ∙ (rw c refl) in
      rw same (All-map _ _ (control-KeepsIds now p.payload p s c) s.order h)
  | inr c ↦ rw (bubble_payload now p.payload p s c) (
      subst (λ i. IsIndexed (show i (presented (entry_for now p)) s))
        (ap (λ b. b.id) (entry_for-base now p)) (show-IsIndexed (presented (entry_for now p)) s h))
]

fold_message-IsIndexed :
    (now : ℕ) (s : Projection) (m : ConversationMessage)
    → IsIndexed s
    → IsIndexed (fold_message now s m)
unfolding fold_message
fold_message-IsIndexed now s (undecryptable b r) h = show-IsIndexed (undecryptable b r) s h
fold_message-IsIndexed now s (presented p) h = fold_payload-IsIndexed now p s h

pub fold_messages-IsIndexed :
    (now : ℕ) (s : Projection) (ms : List ConversationMessage)
    → IsIndexed s
    → IsIndexed (fold_messages now s ms)
unfolding fold_messages
fold_messages-IsIndexed now s [] h = h
fold_messages-IsIndexed now s (m ∷ ms) h =
    fold_messages-IsIndexed now (fold_message now s m) ms (fold_message-IsIndexed now s m h)

pub fold_messages-order :
    (now : ℕ) (s : Projection) (ms : List ConversationMessage)
    → (fold_messages now s ms).order ≡ s.order ++ map message_id (keep is_bubble ms)
unfolding fold_messages
fold_messages-order now s [] = sym (append-nil s.order)
fold_messages-order now s (m ∷ ms) = elim (Bool-cases (is_bubble m)) [
  | inl e ↦ rw e (
      fold_messages-order now (fold_message now s m) ms
      ∙ (rw (fold_message-order now s m, e)
          (append_assoc s.order (message_id m ∷ []) (map message_id (keep is_bubble ms)))))
  | inr e ↦
      rw e
        (fold_messages-order now (fold_message now s m) ms ∙ (rw (fold_message-order now s m, e)))
]

map-collect :
    (visible : Dict ConversationMessage) (order : List String)
    → All (λ k. seen_as message_id (lookup k visible) ≡ some k) order
    → map message_id (collect visible order) ≡ order
unfolding collect
map-collect visible [] h = refl
map-collect visible (k ∷ ks) h = ground (arith, map-collect visible ks h.1)

-- The bubbles shown are exactly the messages whose payload is no control, one for each, in the
-- order in which they were read.
pub map-present_messages :
    (now : ℕ) (ms : List ConversationMessage)
    → map message_id (present_messages now ms) ≡ map message_id (keep is_bubble ms)
unfolding present_messages
map-present_messages now ms =
    let start : Projection = record { visible = []; order = [] } in
    let done = fold_messages now start ms in
    map-collect done.visible done.order (fold_messages-IsIndexed now start ms tt)
    ∙ fold_messages-order now start ms
