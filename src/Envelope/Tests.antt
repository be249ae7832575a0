-- ===== src/Envelope/Tests.antt =====
-- Two devices with a suite that keeps no secret.
use timber_chat.Prelude.{String, ◌≡◌, refl, some, [], lookup-empty}
use timber_chat.Database.{SealedEnvelope}
use timber_chat.Envelope.{conversation_key, seal, open_envelope, max_ciphertext_bytes}
use timber_chat.Envelope.Plain.{suite, plain_text}
use timber_chat.Envelope.Agreement.{open_envelope-conversation_key}

abbrev sealed : SealedEnvelope
sealed = record { envelope_version = 2; nonce = "n"; ciphertext = "hello" }

open_envelope-conversation_key_example :
    ((conversation_key suite "c" "two" "one" "bob" "ann" []).0 ≡ some "one")
    × (open_envelope suite "one" "c" "ann" sealed ≡ some (plain_text "hello"))
unfolding seal conversation_key timber_chat.Prelude.lookup
open_envelope-conversation_key_example =
    open_envelope-conversation_key suite "c" "one" "two" "ann" "bob" "n" "one" [] []
      (plain_text "hello") max_ciphertext_bytes sealed (lookup-empty "ann:c") (lookup-empty "bob:c")
      refl refl refl
