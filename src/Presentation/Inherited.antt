-- ===== src/Presentation/Inherited.antt =====
-- A reaction whose emoji is the name of something that every object inherits: `presentMessages` of
-- frontend/src/db/localStore.ts looks the emoji up in a plain object, and `new Set` of what it finds
-- throws.
use timber_chat.Prelude.{
  ℕ, String, Bool, true, false, not, ◌&&◌, ◌≡◌, refl, ap, Option, none, some, List, [], ◌∷◌, Dict,
  lookup, contains, arith, All, if◌then◌else◌,
}
use timber_chat.Presentation.{
  Payload, reaction, Presented, ConversationMessage, presented, undecryptable, Projection,
  target_of, fold_message, fold_messages, collect, present_messages,
}

-- The names that `Object.prototype` has.
abbrev pub inherited : List String
inherited =
    "constructor" ∷ "__defineGetter__" ∷ "__defineSetter__" ∷ "hasOwnProperty" ∷ "__lookupGetter__"
    ∷ "__lookupSetter__" ∷ "isPrototypeOf" ∷ "propertyIsEnumerable" ∷ "toString" ∷ "valueOf"
    ∷ "__proto__" ∷ "toLocaleString" ∷ []

abbrev is_none {ℓ} : {A : Type ℓ} → Option A → Bool
is_none none = true
is_none (some a) = false

-- The name is found on the prototype when the object has no such key of its own.
abbrev finds_inherited : String → Option Presented → Bool
finds_inherited emoji none = false
finds_inherited emoji (some original) =
    contains emoji inherited && is_none (lookup emoji original.reactions)

abbrev throws_for : Dict ConversationMessage → Payload → Bool
throws_for visible (reaction id emoji removed) = finds_inherited emoji (target_of visible id)
throws_for visible _ = false

abbrev pub throws_at : Projection → ConversationMessage → Bool
throws_at s (undecryptable b r) = false
throws_at s (presented p) = throws_for s.visible p.payload

unfoldable pub fold_or_throw : ℕ → Projection → List ConversationMessage → Option Projection
unfolding fold_message
fold_or_throw now s [] = some s
fold_or_throw now s (m ∷ ms) =
    let rest = fold_or_throw now (fold_message now s m) ms in if throws_at s m then none else rest

abbrev collected : Option Projection → Option (List ConversationMessage)
collected none = none
collected (some s) = some (collect s.visible s.order)

-- The bubbles, or `none` where the function throws.
unfoldable pub present_or_throw : ℕ → List ConversationMessage → Option (List ConversationMessage)
unfolding fold_or_throw collect
present_or_throw now messages =
    collected (fold_or_throw now (record { visible = []; order = [] }) messages)

-- The message brings no such name.
abbrev is_plain_payload : Payload → Bool
is_plain_payload (reaction id emoji removed) = not (contains emoji inherited)
is_plain_payload _ = true

abbrev pub is_plain : ConversationMessage → Bool
is_plain (undecryptable b r) = true
is_plain (presented p) = is_plain_payload p.payload

finds_inherited-plain :
    (emoji : String) (o : Option Presented)
    → not (contains emoji inherited) ≡ true
    → finds_inherited emoji o ≡ false
finds_inherited-plain emoji none plain = refl
finds_inherited-plain emoji (some p) plain =
    plain_first (contains emoji inherited) (is_none (lookup emoji p.reactions)) plain
  where
    plain_first : (a b : Bool) → not a ≡ true → (a && b) ≡ false
    plain_first a b h = ground (arith, h)

throws_for-plain :
    (visible : Dict ConversationMessage) (p : Payload)
    → is_plain_payload p ≡ true
    → throws_for visible p ≡ false
throws_for-plain visible (reaction id emoji removed) plain =
    finds_inherited-plain emoji (target_of visible id) plain
throws_for-plain visible _ plain = refl

throws_at-plain :
    (s : Projection) (m : ConversationMessage) → is_plain m ≡ true → throws_at s m ≡ false
throws_at-plain s (undecryptable b r) plain = refl
throws_at-plain s (presented p) plain = throws_for-plain s.visible p.payload plain

fold_or_throw-plain :
    (now : ℕ) (s : Projection) (ms : List ConversationMessage)
    → All (λ m. is_plain m ≡ true) ms
    → fold_or_throw now s ms ≡ some (fold_messages now s ms)
unfolding fold_or_throw fold_messages
fold_or_throw-plain now s [] plain = refl
fold_or_throw-plain now s (m ∷ ms) plain =
    rw (throws_at-plain s m plain.0) (fold_or_throw-plain now (fold_message now s m) ms plain.1)

-- Where no reaction brings the name of something that objects inherit, nothing throws, and the bubbles
-- are those of the fold.
present_or_throw-plain :
    (now : ℕ) (ms : List ConversationMessage)
    → All (λ m. is_plain m ≡ true) ms
    → present_or_throw now ms ≡ some (present_messages now ms)
unfolding present_or_throw present_messages
present_or_throw-plain now ms plain =
    ap collected (fold_or_throw-plain now (record { visible = []; order = [] }) ms plain)
