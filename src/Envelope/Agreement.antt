-- ===== src/Envelope/Agreement.antt =====
-- Two devices of one conversation: the key that each derives, and what one seals for the other.
use timber_chat.Prelude.{ℕ, String, true, ◌≡◌, sym, ◌∙◌, none, some, Dict, lookup, arith}
use timber_chat.Database.{SealedEnvelope}
use timber_chat.Presentation.{Payload}
use timber_chat.Envelope.{
  Suite, aad, conversation_info, conversation_key, cache_key, seal, open_envelope,
}

pub conversation_info_comm :
    (S : Suite) (a b : String) → conversation_info S a b ≡ conversation_info S b a
unfolding conversation_info
conversation_info_comm S a b = ground (arith, S.ascending_total a b, S.ascending_antisym a b)

pub open_envelope-seal :
    (S : Suite) (k c sender nonce : String) (p : Payload) (n : ℕ) (e : SealedEnvelope)
    → S.is_plain p ≡ true
    → seal S k c sender p n nonce ≡ some e
    → open_envelope S k c sender e ≡ some p
unfolding seal open_envelope
open_envelope-seal S k c sender nonce p n e plain h = ground (
  arith,
  S.from_base64-to_base64 nonce,
  S.from_base64-to_base64 (S.encrypt k nonce (aad S 2 c sender) (S.to_json p)),
  S.decrypt-encrypt k nonce (aad S 2 c sender) (S.to_json p),
  S.from_json-to_json p,
)

conversation_key-agrees :
    (S : Suite) (c mine theirs a b : String) (here there : Dict String)
    → lookup (cache_key a c) here ≡ none
    → lookup (cache_key b c) there ≡ none
    → (conversation_key S c mine (S.to_base64 (S.public_of theirs)) a b here).0
      ≡ (conversation_key S c theirs (S.to_base64 (S.public_of mine)) b a there).0
unfolding conversation_key
conversation_key-agrees S c mine theirs a b here there new_here new_there = ground (
  arith,
  S.from_base64-to_base64 (S.public_of theirs),
  S.from_base64-to_base64 (S.public_of mine),
  S.agreement mine theirs,
  conversation_info_comm S a b,
)

-- Two devices that hold each other's published key and have no key of the conversation cached derive
-- the same one, and what the first seals under it the second opens to the same payload.
pub open_envelope-conversation_key :
    (S : Suite) (c mine theirs a b nonce k : String) (here there : Dict String) (p : Payload)
    (n : ℕ) (e : SealedEnvelope)
    → lookup (cache_key a c) here ≡ none
    → lookup (cache_key b c) there ≡ none
    → S.is_plain p ≡ true
    → (conversation_key S c mine (S.to_base64 (S.public_of theirs)) a b here).0 ≡ some k
    → seal S k c a p n nonce ≡ some e
    → ((conversation_key S c theirs (S.to_base64 (S.public_of mine)) b a there).0 ≡ some k)
      × (open_envelope S k c a e ≡ some p)
open_envelope-conversation_key S c mine theirs a b nonce k here there p n e fh ft plain key sealed =
    (
      sym (conversation_key-agrees S c mine theirs a b here there fh ft) ∙ key,
      open_envelope-seal S k c a nonce p n e plain sealed,
    )
