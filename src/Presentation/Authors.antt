-- ===== src/Presentation/Authors.antt =====
-- Nobody but its author can alter the content of a message.
use timber_chat.Prelude.{
  ℕ, String, ◌≡◌, ◌≢◌, refl, false, Option, none, some, List, [], ◌∷◌, ◌++◌, lookup, arith, eq_iff,
  ◌==◌, if◌then◌else◌, All, ◌∙◌,
}
use timber_chat.Presentation.{
  Payload, text, ConversationMessage, presented, undecryptable, Presented, Projection, base_of,
  react, edit_by, delete_by, vote_by, amend_by, fold_message, fold_messages, present_messages,
  entry_for,
}
use timber_chat.Presentation.View.{is_control, seen_as, effect, fold_message-Unaffected}
use timber_chat.Presentation.Order.{message_id}
use timber_chat.Presentation.Find.{find_message, find-present_messages, shown, lookup-shown}

-- What a message says: all but the reactions, the votes and the pin, which both people may change.
abbrev pub content : ConversationMessage → ConversationMessage
content (presented p) = presented (record p { reactions = []; votes = []; pinned = none })
content (undecryptable b r) = undecryptable b r

abbrev pub sender_of : ConversationMessage → String
sender_of m = (base_of m).sender_id

abbrev authored : String → ConversationMessage → Option ConversationMessage
authored author m = if sender_of m == author then some (content m) else none

effect-authored :
    (author k sender : String) (payload : Payload) (q : Presented)
    → sender ≢ author
    → authored author (effect k sender payload q) ≡ authored author (presented q)
unfolding react edit_by delete_by vote_by amend_by
effect-authored author k sender (text t) q ne = refl
effect-authored author k sender payload q ne =
    ground (arith, eq_iff q.sender_id sender, eq_iff q.sender_id author)

abbrev pub IsForeign : String → String → ConversationMessage → Type 0
IsForeign id author m = (message_id m ≢ id) × (sender_of m ≢ author)

fold_messages-authored :
    (now : ℕ) (author k : String) (s : Projection) (ms : List ConversationMessage)
    → All (IsForeign k author) ms
    → seen_as (authored author) (lookup k (fold_messages now s ms).visible)
      ≡ seen_as (authored author) (lookup k s.visible)
unfolding fold_messages
fold_messages-authored now author k s [] h = refl
fold_messages-authored now author k s (m ∷ ms) h =
    fold_messages-authored now author k (fold_message now s m) ms h.1
    ∙ fold_message-Unaffected (authored author) k s now m h.0.0
        (λ p e q at. effect-authored author k p.sender_id p.payload q (rw e at h.0.1))

authored-content :
    (author : String) (o : Option ConversationMessage) (m : ConversationMessage)
    → seen_as (authored author) o ≡ some (some m)
    → seen_as content o ≡ some m
authored-content author none m h = cc
authored-content author (some x) m h = ground arith

entry_for-sender : (now : ℕ) (p : Presented) → (entry_for now p).sender_id ≡ p.sender_id
unfolding entry_for
entry_for-sender now p = ground arith

-- Whatever the other person sends after a message, its text, its kind, its times and its retracted
-- and expired marks stay as they were shown: only reactions, votes and the pin may differ.
pub present_messages-authored :
    (now : ℕ) (before : List ConversationMessage) (p : Presented) (after : List ConversationMessage)
    → is_control p.payload ≡ false
    → All (IsForeign p.id p.sender_id) after
    → seen_as content (find_message p.id (present_messages now (before ++ presented p ∷ after)))
      ≡ some (content (presented (entry_for now p)))
present_messages-authored now before p after c h = rw (find-present_messages now before p after c) (
    authored-content p.sender_id _ _ (
      fold_messages-authored now p.sender_id p.id (shown now before p) after h
      ∙ rw (lookup-shown now before p)
          (ground (arith, entry_for-sender now p, eq_iff (entry_for now p).sender_id p.sender_id))))
