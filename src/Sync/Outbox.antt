-- ===== src/Sync/Outbox.antt =====
-- frontend/src/lib/sync.js: what this device sends. `emit` is the socket: whether it takes a frame.
pub mod Resent
pub mod Echo
mod Tests
use timber_chat.Prelude.{
  ℕ, suc, String, Bool, true, false, Option, none, some, List, [], ◌∷◌, not, if◌then◌else◌,
}
use Prim.Native.String.{◌++◌}
use timber_chat.Database.{StoredMessage, SealedEnvelope}
use timber_chat.Presentation.{Payload, ConversationMessage, Text, text, Base}
use timber_chat.ChatStore.{Shapes, ChatStore, append_message}
use timber_chat.Contacts.{
  Device, Archive, Self, no_connection, Outcome, returned, threw, pure, throw, ◌>>=◌,
}
use timber_chat.Threads.{compose_message, pending_messages, opened}

-- A `message.send` frame.
pub record Frame : Type 0 where
  pub conversation_id : String
  pub client_id : String
  pub envelope : SealedEnvelope

pub record Prepared : Type 0 where
  pub client_id : String
  pub envelope : SealedEnvelope

abbrev pub frame_of : StoredMessage → Frame
frame_of m = record { conversation_id = m.conversation_id; client_id = m.id; envelope = m.envelope }

abbrev pub sent_frame : String → Prepared → Frame
sent_frame conversation_id p = record {
  conversation_id = conversation_id;
  client_id = p.client_id;
  envelope = p.envelope;
}

-- The loop of `flushOutbox`, with the frames that the socket took.
unfoldable pub resend : (emit : Frame → Bool) → List StoredMessage → List Frame
resend emit [] = []
resend emit (m ∷ ms) =
    let rest = resend emit ms in if emit (frame_of m) then frame_of m ∷ rest else []

module _ (V : Device) where
  unfoldable pub flush_outbox : (emit : Frame → Bool) → Archive V → List Frame
  unfolding resend
  flush_outbox emit a = resend emit (pending_messages V a)

  module _ (X : Shapes) (self : Self) where
    abbrev pub optimistic : String → String → ℕ → Payload → ConversationMessage
    optimistic conversation_id id created_at payload =
        opened
          (record {
            id = id;
            conversation_id = conversation_id;
            sender_id = self.user_id;
            created_at = created_at;
            delivered_at = none;
            read_at = none;
            pending = true;
            seen = true;
          })
          payload

    -- The optimistic bubble, when the message is sealed and stored.
    abbrev pub show_prepared :
        (conversation_id client_id : String) (created_at : ℕ)
        → Payload
        → ChatStore X
        → Outcome SealedEnvelope × Archive V
        → Outcome Prepared × (Archive V × ChatStore X)
    show_prepared conversation_id client_id created_at payload view (threw e, a) =
        (threw e, (a, view))
    show_prepared conversation_id client_id created_at payload view (returned envelope, a) = (
      returned (record { client_id = client_id; envelope = envelope }),
      (
        a,
        append_message X conversation_id none
            (optimistic conversation_id client_id created_at payload) view,
      ),
    )

    -- `uuid` is the random part of the client's id. No caller gives a `scheduledAt`.
    unfoldable pub prepare_outgoing_payload :
        (conversation_id : String)
        → Payload
        → (uuid : String) (created_at : ℕ) → Archive V × ChatStore X
        → Outcome Prepared × (Archive V × ChatStore X)
    prepare_outgoing_payload conversation_id payload uuid created_at (a, view) =
        let client_id = "pending-" ++ uuid in
        show_prepared conversation_id client_id created_at payload view
          (compose_message V self conversation_id payload client_id created_at a)

    unfoldable pub send_encrypted_payload :
        (emit : Frame → Bool) (conversation_id : String)
        → Payload
        → (uuid : String) (created_at : ℕ) → Archive V × ChatStore X
        → Outcome String × (Archive V × ChatStore X)
    unfolding prepare_outgoing_payload
    send_encrypted_payload emit conversation_id payload uuid created_at = do
      prepared ← prepare_outgoing_payload conversation_id payload uuid created_at
      elim (emit (sent_frame conversation_id prepared)) [
        | true ↦ pure prepared.client_id
        | false ↦ throw no_connection
      ]

    -- `payloads.text(text, options)`
    abbrev text_payload : String → Option String → Bool → Payload
    text_payload body reply_to quiet =
        text (record { body = body; quiet = quiet; edited = false; reply_to = reply_to })

    unfoldable pub prepare_outgoing :
        (conversation_id body : String) (reply_to : Option String) (quiet : Bool) (uuid : String)
        → (created_at : ℕ) → Archive V × ChatStore X
        → Outcome Prepared × (Archive V × ChatStore X)
    unfolding prepare_outgoing_payload
    prepare_outgoing conversation_id body reply_to quiet uuid created_at =
        prepare_outgoing_payload conversation_id (text_payload body reply_to quiet) uuid created_at
