-- ===== src/Presentation/Retraction.antt =====
-- Retraction and expiry: the text must not reach the thread or the chat-list preview.
use timber_chat.Prelude.{
  ℕ, String, ◌≡◌, ◌≢◌, refl, sym, ap, Bool, true, false, ◌&&◌, Option, none, some, List, [], ◌∷◌,
  ◌++◌, lookup, arith, eq_iff, eq_refl, ◌==◌, All, ◌∙◌, lookup-insert,
}
use timber_chat.Presentation.{
  Payload, text, edit, delete, postcard, ConversationMessage, presented, undecryptable, Presented,
  Projection, alter, react, edit_by, delete_by, vote_by, amend_by, fold_message, fold_messages,
  present_messages, entry_for, blank_body, target_of,
}
use timber_chat.Presentation.View.{is_control, seen_as, effect, fold_message-Unaffected}
use timber_chat.Presentation.Order.{message_id}
use timber_chat.Presentation.Find.{
  find_message, find-present_messages, shown, lookup-shown, fold_messages-append,
}

-- The `body` of a payload that has one.
abbrev pub body_of : Payload → Option String
body_of (text t) = some t.body
body_of (edit i b) = some b
body_of (postcard p) = some p.body
body_of _ = none

abbrev pub is_blank : Option String → Bool
is_blank none = true
is_blank (some b) = b == ""

-- A message of `author` that is marked as retracted, with no text left.
abbrev pub is_retracted : String → ConversationMessage → Bool
is_retracted author (presented p) =
    (p.sender_id == author) && (p.deleted && is_blank (body_of p.payload))
is_retracted author (undecryptable b r) = false

-- An opened message of `author`.
abbrev is_opened_of : String → ConversationMessage → Bool
is_opened_of author (presented p) = p.sender_id == author
is_opened_of author (undecryptable b r) = false

abbrev is_edit_of : String → Payload → Bool
is_edit_of id (edit i b) = i == id
is_edit_of id _ = false

-- `m` is no second copy of the message, and no edit of it by its author.
abbrev pub LeavesRetracted : String → String → ConversationMessage → Type 0
LeavesRetracted id author (presented p) =
    (p.id ≢ id) × ((is_edit_of id p.payload && (p.sender_id == author)) ≡ false)
LeavesRetracted id author (undecryptable b r) = b.id ≢ id

blank_body-body : (payload : Payload) → is_blank (body_of (blank_body payload)) ≡ true
unfolding blank_body
blank_body-body (text t) = eq_refl ""
blank_body-body (edit i b) = eq_refl ""
blank_body-body (postcard p) = eq_refl ""
blank_body-body _ = refl

effect-is_opened_of :
    (author k sender : String) (payload : Payload) (q : Presented)
    → is_opened_of author (effect k sender payload q) ≡ is_opened_of author (presented q)
unfolding react edit_by delete_by vote_by amend_by
effect-is_opened_of author k sender (text t) q = refl
effect-is_opened_of author k sender payload q = ground arith

effect-is_retracted :
    (author k sender : String) (payload : Payload) (q : Presented)
    → (is_edit_of k payload && (sender == author)) ≡ false
    → is_retracted author (presented q) ≡ true
    → is_retracted author (effect k sender payload q) ≡ true
unfolding react edit_by delete_by vote_by amend_by
effect-is_retracted author k sender (text t) q ne h = h
effect-is_retracted author k sender payload q ne h =
    ground (
      arith,
      eq_iff q.sender_id author,
      eq_iff q.sender_id sender,
      eq_iff sender author,
      eq_refl "",
    )

fold_messages-is_opened_of :
    (now : ℕ) (author k : String) (s : Projection) (ms : List ConversationMessage)
    → All (λ m. message_id m ≢ k) ms
    → seen_as (is_opened_of author) (lookup k (fold_messages now s ms).visible)
      ≡ seen_as (is_opened_of author) (lookup k s.visible)
unfolding fold_messages
fold_messages-is_opened_of now author k s [] h = refl
fold_messages-is_opened_of now author k s (m ∷ ms) h =
    fold_messages-is_opened_of now author k (fold_message now s m) ms h.1
    ∙ fold_message-Unaffected (is_opened_of author) k s now m h.0
        (λ p e q at. effect-is_opened_of author k p.sender_id p.payload q)

fold_message-delete :
    (now : ℕ) (author id : String) (s : Projection) (d : Presented)
    → d.payload ≡ delete id
    → d.sender_id ≡ author
    → seen_as (is_opened_of author) (lookup id s.visible) ≡ some true
    → seen_as (is_retracted author) (lookup id (fold_message now s (presented d)).visible)
      ≡ some true
unfolding fold_message alter delete_by target_of
fold_message-delete now author id s d e own h =
    rw (e, own) (delete_step (lookup id s.visible) refl h)
  where
    delete_step :
        (o : Option ConversationMessage)
        → lookup id s.visible ≡ o
        → seen_as (is_opened_of author) o ≡ some true
        → seen_as (is_retracted author) (lookup id (alter id (delete_by author) s).visible)
          ≡ some true
    delete_step none at o = cc
    delete_step (some (undecryptable b r)) at o = cc
    delete_step (some (presented p)) at o = ground (
      arith,
      at,
      eq_refl id,
      eq_iff p.sender_id author,
      blank_body-body p.payload,
      lookup-insert id id (presented (delete_by author p)) s.visible,
    )

LeavesRetracted-Unaffected :
    (now : ℕ) (author k : String) (s : Projection) (m : ConversationMessage)
    → LeavesRetracted k author m
    → seen_as (is_retracted author) (lookup k s.visible) ≡ some true
    → seen_as (is_retracted author) (lookup k (fold_message now s m).visible) ≡ some true
LeavesRetracted-Unaffected now author k s (undecryptable b r) h done =
    fold_message-Unaffected (is_retracted author) k s now (undecryptable b r) h (λ p e. cc) ∙ done
LeavesRetracted-Unaffected now author k s (presented m) h done =
    fold_message-Unaffected (is_retracted author) k s now (presented m) h.0 (λ p e q at.
      let was : is_retracted author (presented q) ≡ true = ground arith in
      let kind : (is_edit_of k p.payload && (p.sender_id == author)) ≡ false =
        ground (arith, h.1) in
      effect-is_retracted author k p.sender_id p.payload q kind was ∙ sym was)
    ∙ done

fold_messages-is_retracted :
    (now : ℕ) (author k : String) (s : Projection) (ms : List ConversationMessage)
    → All (LeavesRetracted k author) ms
    → seen_as (is_retracted author) (lookup k s.visible) ≡ some true
    → seen_as (is_retracted author) (lookup k (fold_messages now s ms).visible) ≡ some true
unfolding fold_messages
fold_messages-is_retracted now author k s [] h done = done
fold_messages-is_retracted now author k s (m ∷ ms) h done =
    fold_messages-is_retracted now author k (fold_message now s m) ms h.1
      (LeavesRetracted-Unaffected now author k s m h.0 done)

entry_for-is_opened_of :
    (now : ℕ) (p : Presented) → is_opened_of p.sender_id (presented (entry_for now p)) ≡ true
unfolding entry_for
entry_for-is_opened_of now p = ground (arith, eq_refl p.sender_id)

-- Once its author has retracted a message, it is shown as retracted and with no text, whatever came
-- between, and whatever follows but an edit of it by that author.
pub present_messages-is_retracted :
    (now : ℕ) (before : List ConversationMessage) (p : Presented)
    (between : List ConversationMessage) (d : Presented) (after : List ConversationMessage)
    → is_control p.payload ≡ false
    → d.payload ≡ delete p.id
    → d.sender_id ≡ p.sender_id
    → All (λ m. message_id m ≢ p.id) between
    → All (LeavesRetracted p.id p.sender_id) after
    → seen_as (is_retracted p.sender_id) (
        find_message p.id
          (present_messages now (before ++ presented p ∷ (between ++ presented d ∷ after))))
      ≡ some true
unfolding fold_messages
present_messages-is_retracted now before p between d after c e own hb ha =
    let s = shown now before p in
    let t = fold_messages now s between in
    let open_before : seen_as (is_opened_of p.sender_id) (lookup p.id t.visible) ≡ some true =
      fold_messages-is_opened_of now p.sender_id p.id s between hb
      ∙ (rw (lookup-shown now before p) (ap some (entry_for-is_opened_of now p))) in
    rw
      (
        find-present_messages now before p (between ++ presented d ∷ after) c,
        fold_messages-append now s between (presented d ∷ after),
      )
      (fold_messages-is_retracted now p.sender_id p.id (fold_message now t (presented d)) after ha
        (fold_message-delete now p.sender_id p.id t d e own open_before))
