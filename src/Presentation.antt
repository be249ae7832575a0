-- ===== src/Presentation.antt =====
-- frontend/src/db/localStore.ts, `presentMessages`: the fold of opened envelopes into bubbles, over
-- the payload union of frontend/src/types/message.ts.
mod View
pub mod Order
mod Find
pub mod Authors
pub mod Retraction
pub mod Chips
pub mod Inherited
mod Tests
use timber_chat.Prelude.{
  ℕ, String, Bool, true, false, ◌&&◌, Option, none, some, List, [], ◌∷◌, ◌++◌, Dict, lookup, insert,
  remove, add, discard, set_of, truthy, or_else, leb, ◌==◌, if◌then◌else◌,
}

pub data CallMode : Type 0 where
  audio video : CallMode

pub data CallStatus : Type 0 where
  calling ringing active completed declined no_answer unavailable failed : CallStatus

pub record Text : Type 0 where
  pub body : String
  pub quiet : Bool
  pub edited : Bool
  pub reply_to : Option String

pub record FileCard : Type 0 where
  pub attachment_id : String
  pub key : String
  pub name : String
  pub mime : String
  pub size : ℕ
  pub is_voice : Bool
  pub duration_ms : Option ℕ
  pub expires_at : Option ℕ

pub record Decision : Type 0 where
  pub is_poll : Bool
  pub prompt : String
  pub options : List String
  pub due_at : Option ℕ

pub record Postcard : Type 0 where
  pub kind : String
  pub body : String
  pub expires_at : ℕ
  pub reply_to : Option String

pub record CallCard : Type 0 where
  pub call_id : String
  pub mode : CallMode
  pub status : CallStatus
  pub duration_ms : Option ℕ

pub data Payload : Type 0 where
  text : Text → Payload
  file : FileCard → Payload
  reaction : (message_id emoji : String) (removed : Bool) → Payload
  edit : (message_id body : String) → Payload
  delete : (message_id : String) → Payload
  pin : (message_id : String) (pinned : Bool) → Payload
  decision : Decision → Payload
  decision_vote : (decision_id value : String) → Payload
  postcard : Postcard → Payload
  call : CallCard → Payload
  call_update : (call_id : String) (status : CallStatus) (duration_ms : Option ℕ) → Payload

pub data Reason : Type 0 where
  waiting_for_key verification_failed : Reason

-- The columns that need no key.
pub record Base : Type 0 where
  pub id : String
  pub conversation_id : String
  pub sender_id : String
  pub created_at : ℕ
  pub delivered_at : Option ℕ
  pub read_at : Option ℕ
  pub pending : Bool
  pub seen : Bool

pub record Presented : Type 0 where
  pub base : Base
  pub open base use *
  pub payload : Payload
  pub reactions : Dict (List String)
  pub votes : Dict String
  pub pinned : Option Bool
  pub deleted : Bool
  pub expired : Bool

pub data ConversationMessage : Type 0 where
  presented : Presented → ConversationMessage
  undecryptable : Base → Reason → ConversationMessage

abbrev pub base_of : ConversationMessage → Base
base_of (presented p) = p.base
base_of (undecryptable b r) = b

-- `"body" in payload ? { ...payload, body: "" } : payload`
unfoldable pub blank_body : Payload → Payload
blank_body (text t) = text (record t { body = "" })
blank_body (edit i b) = edit i ""
blank_body (postcard p) = postcard (record p { body = "" })
blank_body (file f) = file f
blank_body (reaction i e r) = reaction i e r
blank_body (delete i) = delete i
blank_body (pin i b) = pin i b
blank_body (decision d) = decision d
blank_body (decision_vote i v) = decision_vote i v
blank_body (call c) = call c
blank_body (call_update i s d) = call_update i s d

-- `"expires_at" in payload ? payload.expires_at : undefined`
abbrev pub expiry_of : Payload → Option ℕ
expiry_of (file f) = f.expires_at
expiry_of (postcard p) = some p.expires_at
expiry_of _ = none

-- `visible` and `order`
pub record Projection : Type 0 where
  pub visible : Dict ConversationMessage
  pub order : List String

abbrev opened : Option ConversationMessage → Option Presented
opened none = none
opened (some (presented p)) = some p
opened (some (undecryptable b r)) = none

unfoldable pub target_of : Dict ConversationMessage → String → Option Presented
target_of visible id = opened (lookup id visible)

-- A control alters the object that `visible` holds under `id`, if `targetOf` finds one.
unfoldable pub alter : String → (Presented → Presented) → Projection → Projection
unfolding target_of
alter id change s = elim (target_of s.visible id) [
  | none ↦ s
  | some original ↦ record s { visible = insert id (presented (change original)) s.visible }
]

abbrev hold : String → List String → Dict (List String) → Dict (List String)
hold emoji [] reactions = remove emoji reactions
hold emoji (p ∷ ps) reactions = insert emoji (p ∷ ps) reactions

-- An emoji that is the name of something that every object inherits, as `constructor` is, makes the
-- source throw here; that is in Inherited.
unfoldable pub react : String → Bool → String → Presented → Presented
react emoji removed sender original =
    let people = set_of (or_else (lookup emoji original.reactions) []) in
    record original {
      reactions =
          hold emoji (if removed then discard sender people else add sender people)
            original.reactions;
    }

abbrev edit_payload : String → Payload → Payload
edit_payload body (text t) = text (record t { body = body; edited = true })
edit_payload body other = other

unfoldable pub edit_by : String → String → Presented → Presented
edit_by sender body original =
    if original.sender_id == sender
    then record original { payload = edit_payload body original.payload }
    else original

unfoldable pub delete_by : String → Presented → Presented
unfolding blank_body
delete_by sender original =
    if original.sender_id == sender
    then record original { deleted = true; payload = blank_body original.payload }
    else original

abbrev pub pin_to : Bool → Presented → Presented
pin_to pinned original = record original { pinned = some pinned }

abbrev is_decision : Payload → Bool
is_decision (decision d) = true
is_decision _ = false

unfoldable pub vote_by : String → String → Presented → Presented
vote_by sender value original =
    if is_decision original.payload
    then record original { votes = insert sender value original.votes }
    else original

abbrev pub is_card_of : String → ConversationMessage → Bool
is_card_of call_id (presented p) = elim p.payload [ call c ↦ c.call_id == call_id | _ ↦ false ]
is_card_of call_id (undecryptable b r) = false

abbrev amend_payload : CallStatus → Option ℕ → Payload → Payload
amend_payload status none (call c) = call (record c { status = status })
amend_payload status (some d) (call c) = call (record c { status = status; duration_ms = some d })
amend_payload status duration other = other

unfoldable pub amend_by : String → CallStatus → Option ℕ → ConversationMessage → ConversationMessage
amend_by sender status duration (undecryptable b r) = undecryptable b r
amend_by sender status duration (presented p) =
    if p.sender_id == sender
    then presented (record p { payload = amend_payload status duration p.payload })
    else presented p

-- `[...visible.values()].find(...)`, and the amendment of the card that it finds.
unfoldable pub amend_card :
    String → String → CallStatus → Option ℕ → Dict ConversationMessage → Dict ConversationMessage
unfolding amend_by
amend_card sender call_id status duration [] = []
amend_card sender call_id status duration ((k, m) ∷ rest) =
    if is_card_of call_id m
    then (k, amend_by sender status duration m) ∷ rest
    else (k, m) ∷ amend_card sender call_id status duration rest

-- `expiresAt && new Date(expiresAt).getTime() <= now`
abbrev pub is_expired : ℕ → Payload → Bool
is_expired now payload = truthy (expiry_of payload) && leb (or_else (expiry_of payload) 0) now

unfoldable pub entry_for : ℕ → Presented → Presented
unfolding blank_body
entry_for now message =
    if is_expired now message.payload
    then record message { expired = true; payload = blank_body message.payload }
    else message

abbrev pub show : String → ConversationMessage → Projection → Projection
show id entry s = record { visible = insert id entry s.visible; order = s.order ++ id ∷ [] }

-- One turn of the loop for an opened message: the control payloads, then the bubbles.
unfoldable pub fold_payload : ℕ → Payload → Presented → Projection → Projection
unfolding alter react edit_by delete_by vote_by amend_card entry_for
fold_payload now (reaction id emoji removed) m s = alter id (react emoji removed m.sender_id) s
fold_payload now (edit id body) m s = alter id (edit_by m.sender_id body) s
fold_payload now (delete id) m s = alter id (delete_by m.sender_id) s
fold_payload now (pin id pinned) m s = alter id (pin_to pinned) s
fold_payload now (decision_vote id value) m s = alter id (vote_by m.sender_id value) s
fold_payload now (call_update id status duration) m s = record s {
  visible = amend_card m.sender_id id status duration s.visible;
}
fold_payload now _ m s = show m.id (presented (entry_for now m)) s

unfoldable pub fold_message : ℕ → Projection → ConversationMessage → Projection
unfolding fold_payload
fold_message now s (undecryptable b r) = show b.id (undecryptable b r) s
fold_message now s (presented p) = fold_payload now p.payload p s

unfoldable pub fold_messages : ℕ → Projection → List ConversationMessage → Projection
unfolding fold_message
fold_messages now s [] = s
fold_messages now s (m ∷ ms) = fold_messages now (fold_message now s m) ms

abbrev kept : Option ConversationMessage → List ConversationMessage → List ConversationMessage
kept none rest = rest
kept (some m) rest = m ∷ rest

-- `order.map((id) => visible.get(id)).filter(...)`
unfoldable pub collect : Dict ConversationMessage → List String → List ConversationMessage
collect visible [] = []
collect visible (id ∷ ids) = kept (lookup id visible) (collect visible ids)

unfoldable pub present_messages : ℕ → List ConversationMessage → List ConversationMessage
unfolding fold_messages collect
present_messages now messages =
    let s = fold_messages now (record { visible = []; order = [] }) messages in
    collect s.visible s.order
