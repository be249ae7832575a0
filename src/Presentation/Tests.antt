-- ===== src/Presentation/Tests.antt =====
-- A conversation between two people, folded, and the theorems about it at that conversation.
use timber_chat.Prelude.{
  String, ◌≡◌, ◌≢◌, refl, true, false, none, some, List, [], ◌∷◌, ◌++◌, map, keep, All, lookup,
  insert, set_of, ne_of_test,
}
use timber_chat.Presentation.{
  Payload, text, reaction, edit, delete, postcard, ConversationMessage, presented, undecryptable,
  Presented, verification_failed, present_messages, entry_for, Base,
}
use timber_chat.Presentation.View.{seen_as}
use timber_chat.Presentation.Order.{message_id, is_bubble, map-present_messages}
use timber_chat.Presentation.Find.{find_message}
use timber_chat.Presentation.Authors.{content, present_messages-authored}
use timber_chat.Presentation.Retraction.{is_retracted, present_messages-is_retracted}
use timber_chat.Presentation.Inherited.{present_or_throw}
use timber_chat.Presentation.Chips.{IsTidy, present_messages-IsTidy}

abbrev row : String → String → Base
row id sender = record {
  id = id;
  conversation_id = "c";
  sender_id = sender;
  created_at = 1;
  delivered_at = none;
  read_at = none;
  pending = false;
  seen = true;
}

abbrev said : String → String → Payload → Presented
said id sender payload = record {
  base = row id sender;
  payload = payload;
  reactions = [];
  votes = [];
  pinned = none;
  deleted = false;
  expired = false;
}

abbrev words : String → Payload
words body = text (record { body = body; quiet = false; edited = false; reply_to = none })

abbrev hello : Presented
hello = said "m1" "ann" (words "hello")

abbrev torn : ConversationMessage
torn = undecryptable (row "m2" "bob") verification_failed

abbrev late : ConversationMessage
late = presented (
    said "m3" "bob"
      (postcard (record { kind = "text"; body = "soon"; expires_at = 5; reply_to = none })))

abbrev forged : ConversationMessage
forged = presented (said "m4" "bob" (edit "m1" "forged"))

abbrev liked : ConversationMessage
liked = presented (said "m5" "bob" (reaction "m1" "heart" false))

abbrev unliked : ConversationMessage
unliked = presented (said "m6" "bob" (reaction "m1" "heart" true))

abbrev retract : Presented
retract = said "m7" "ann" (delete "m1")

abbrev foreign : List ConversationMessage
foreign = torn ∷ late ∷ forged ∷ liked ∷ unliked ∷ []

folded :
    present_messages 9 (presented hello ∷ forged ∷ liked ∷ [])
    ≡ presented (record hello { reactions = ("heart", "bob" ∷ []) ∷ [] }) ∷ []
unfolding present_messages lookup insert set_of
folded = refl

bob_ne_ann : ◌≢◌ {A = String} "bob" "ann"
bob_ne_ann = ne_of_test "bob" "ann" refl

apart : (id : String) → (id ≢ "m1") → (id ≢ "m1") × (◌≢◌ {A = String} "bob" "ann")
apart id h = (h, bob_ne_ann)

present_messages-authored_example :
    seen_as content (find_message "m1" (present_messages 9 (presented hello ∷ foreign)))
    ≡ some (content (presented (entry_for 9 hello)))
present_messages-authored_example = present_messages-authored 9 [] hello foreign refl (
  apart "m2" (ne_of_test "m2" "m1" refl),
  (
    apart "m3" (ne_of_test "m3" "m1" refl),
    (
      apart "m4" (ne_of_test "m4" "m1" refl),
      (apart "m5" (ne_of_test "m5" "m1" refl), (apart "m6" (ne_of_test "m6" "m1" refl), tt)),
    ),
  ),
)

present_messages-is_retracted_example :
    seen_as (is_retracted "ann") (
      find_message "m1" (
        present_messages 9
          (presented hello ∷ (torn ∷ []) ++ presented retract ∷ forged ∷ liked ∷ [])))
    ≡ some true
present_messages-is_retracted_example =
    present_messages-is_retracted 9 [] hello (torn ∷ []) retract (forged ∷ liked ∷ []) refl refl
      refl (ne_of_test "m2" "m1" refl, tt)
      ((ne_of_test "m4" "m1" refl, refl), ((ne_of_test "m5" "m1" refl, refl), tt))

present_messages-IsTidy_example : All IsTidy (present_messages 9 (presented hello ∷ foreign))
present_messages-IsTidy_example =
    present_messages-IsTidy 9 (presented hello ∷ foreign)
      ((refl, refl), (tt, ((refl, refl), ((refl, refl), ((refl, refl), ((refl, refl), tt))))))

map-present_messages_example :
    map message_id (present_messages 9 (presented hello ∷ foreign))
    ≡ map message_id (keep is_bubble (presented hello ∷ foreign))
map-present_messages_example = map-present_messages 9 (presented hello ∷ foreign)

-- A reaction that names what an object inherits.
abbrev poisoned : ConversationMessage
poisoned = presented (said "m5" "bob" (reaction "m1" "constructor" false))

throws : present_or_throw 9 (presented hello ∷ poisoned ∷ []) ≡ none
unfolding present_or_throw lookup insert
throws = refl
