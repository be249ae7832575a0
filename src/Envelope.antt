-- ===== src/Envelope.antt =====
-- frontend/src/crypto/envelope.ts: the key of a conversation, with its cache, and the sealing of a
-- payload. The curve, the key derivation, the cipher, base64 and JSON are the fields of `Suite`; bytes
-- are texts, a byte to a character.
pub mod Plain
pub mod Agreement
mod Tests
use timber_chat.Prelude.{
  ℕ, String, Bool, true, false, not, ◌&&◌, ◌||◌, ◌≡◌, Option, none, some, Dict, lookup, insert, ltb,
  eqb, if◌then◌else◌,
}
use timber_chat.Database.{SealedEnvelope}
use timber_chat.Presentation.{Payload}
use Prim.Native.String.{◌++◌}

-- `is_ascending a b` is `a <= b` on texts, `public_of` the public half of a secret key. What was sealed
-- opens under the same key, nonce and additional data; a payload that JSON can carry is read back.
pub record Suite : Type 0 where
  pub is_ascending : String → String → Bool
  pub to_base64 : String → String
  pub from_base64 : String → Option String
  pub digits : ℕ → String
  pub size : String → ℕ
  pub public_of : String → String
  pub shared_secret : (secret public : String) → Option String
  pub hkdf : (shared info : String) → String
  pub encrypt : (key nonce aad plaintext : String) → String
  pub decrypt : (key nonce aad ciphertext : String) → Option String
  pub to_json : Payload → String
  pub from_json : String → Option Payload
  pub is_plain : Payload → Bool
  pub ascending_total : (a b : String) → (is_ascending a b || is_ascending b a) ≡ true
  pub ascending_antisym : (a b : String) → is_ascending a b ≡ true → is_ascending b a ≡ true → a ≡ b
  pub from_base64-to_base64 : (b : String) → from_base64 (to_base64 b) ≡ some b
  pub agreement : (a b : String) → shared_secret a (public_of b) ≡ shared_secret b (public_of a)
  pub decrypt-encrypt : (k n a p : String) → decrypt k n a (encrypt k n a p) ≡ some p
  pub from_json-to_json : (p : Payload) → is_plain p ≡ true → from_json (to_json p) ≡ some p

abbrev pub envelope_version : ℕ
envelope_version = 2

abbrev pub max_ciphertext_bytes : ℕ
max_ciphertext_bytes = 8192

-- `SUPPORTED_ENVELOPE_VERSIONS.has(version)`
abbrev pub is_supported : ℕ → Bool
is_supported version = eqb version 1 || eqb version envelope_version

abbrev pub cache_key : (user_id conversation_id : String) → String
cache_key user_id conversation_id = user_id ++ ":" ++ conversation_id

module _ (S : Suite) where
  -- The ids in order, so that both devices derive from the same text.
  unfoldable pub conversation_info : String → String → String
  conversation_info a b =
      if S.is_ascending a b
      then "timber/dm/v1:" ++ a ++ ":" ++ b
      else "timber/dm/v1:" ++ b ++ ":" ++ a

  -- The key and the cache `conversationKeys`; `none` is a key that cannot be read or agreed on.
  unfoldable pub conversation_key :
      (conversation_id kex_sk peer_kex_pk user_id peer_user_id : String)
      → Dict String
      → Option String × Dict String
  unfolding conversation_info
  conversation_key conversation_id kex_sk peer_kex_pk user_id peer_user_id cache =
      elim (lookup (cache_key user_id conversation_id) cache) [
        | some cached ↦ (some cached, cache)
        | none ↦ elim (S.from_base64 peer_kex_pk) [
          | none ↦ (none, cache)
          | some peer ↦ elim (S.shared_secret kex_sk peer) [
            | none ↦ (none, cache)
            | some shared ↦
                let key = S.hkdf shared (conversation_info user_id peer_user_id) in
                (some key, insert (cache_key user_id conversation_id) key cache)
          ]
        ]
      ]

  abbrev pub aad : ℕ → (conversation_id sender_id : String) → String
  aad version conversation_id sender_id =
      S.digits version ++ ":" ++ conversation_id ++ ":" ++ sender_id

  -- `none` is the error for a message that is too long.
  unfoldable pub seal :
      (key conversation_id sender_id : String)
      → Payload
      → (max_bytes : ℕ) → (nonce : String) → Option SealedEnvelope
  seal key conversation_id sender_id payload max_bytes nonce =
      let ciphertext =
        S.encrypt key nonce (aad envelope_version conversation_id sender_id) (S.to_json payload) in
      if ltb max_bytes (S.size ciphertext)
      then none
      else some (record {
        envelope_version = envelope_version;
        nonce = S.to_base64 nonce;
        ciphertext = S.to_base64 ciphertext;
      })

  -- `none` is an envelope of an unknown version, or one that was altered.
  unfoldable pub open_envelope :
      (key conversation_id sender_id : String) → SealedEnvelope → Option Payload
  open_envelope key conversation_id sender_id envelope =
      if not (is_supported envelope.envelope_version)
      then none
      else elim (S.from_base64 envelope.nonce) [
        | none ↦ none
        | some nonce ↦ elim (S.from_base64 envelope.ciphertext) [
          | none ↦ none
          | some ciphertext ↦
              let aad = aad envelope.envelope_version conversation_id sender_id in
              elim (S.decrypt key nonce aad ciphertext) [
                | none ↦ none
                | some plaintext ↦ S.from_json plaintext
              ]
        ]
      ]
