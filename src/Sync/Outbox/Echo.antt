-- ===== src/Sync/Outbox/Echo.antt =====
-- A message of this device, from the composer to the relay's echo.
use mathlib.Core.Path.{subst}
use text.Mathlib.Text.{is_eq}
use Prim.Native.String.{◌++◌}
use Prim.Native.String.append.{cons}
use Prim.Native.String.compare.{cons-nil}
use timber_chat.Prelude.{
  ℕ, String, Bool, true, false, ◌≡◌, refl, sym, ap, ◌∙◌, Option, none, some, arith, ◌==◌, eq_refl,
  ◌&&◌,
}
use timber_chat.Database.{StoredMessage, SealedEnvelope, IsIn}
use timber_chat.Presentation.{Payload}
use timber_chat.Store.{Store, IncomingMessage, put_message, confirm_message}
use timber_chat.Store.Rows.{get-put_message, put_message-IsRowOf}
use timber_chat.ChatStore.{Shapes, ChatStore}
use timber_chat.Contacts.{
  Device, Archive, Self, Outcome, returned, threw, Holds, Holds-both, bind-Holds, is_set,
}
use timber_chat.Contacts.Conversations.{key_for_conversation, seal_with}
use timber_chat.Envelope.{max_ciphertext_bytes}
use timber_chat.Threads.{compose_message, compose_with, outgoing, store_message, pending_messages}
use timber_chat.Sync.Backfill.{ServerMessage}
use timber_chat.Sync.Inbox.Arrivals.{store_received, is_mine, echoed}
use timber_chat.Sync.Outbox.{Prepared, prepare_outgoing_payload, show_prepared}
use timber_chat.Sync.Outbox.Resent.{IsIn-pending_messages}

prefixed : (uuid : String) → (("pending-" ++ uuid) == "") ≡ false
prefixed uuid =
    ap (λ s. s == "") (cons _ "ending-" uuid) ∙ ap is_eq (cons-nil _ ("ending-" ++ uuid))

module _ (V : Device) (self : Self) where
  -- A row that waits under an id, with the envelope that was sealed.
  abbrev pub IsWaiting : String → String → SealedEnvelope → Archive V → Type 0
  IsWaiting c id envelope a =
      (row : StoredMessage) × (V.database.messages.get a.store.messages id ≡ some row)
      × (row.id ≡ id)
      × (row.conversation_id ≡ c)
      × (row.envelope ≡ envelope)
      × (row.pending ≡ true)

  IsWaiting-store_message :
      (c id : String) (at : ℕ) (envelope : SealedEnvelope) (a : Archive V)
      → IsWaiting c id envelope (store_message V (outgoing V self.user_id c id at envelope) a)
  IsWaiting-store_message c id at envelope a =
      let m = outgoing V self.user_id c id at envelope in
      let is_row = put_message-IsRowOf V.database m a.store in
      (
        (put_message V.database m a.store).0,
        ground (arith, get-put_message V.database m a.store id, eq_refl id),
        is_row.id,
        is_row.conversation_id,
        is_row.envelope,
        is_row.pending,
      )

  compose_with-Holds :
      (c id : String) (payload : Payload) (at : ℕ) (key : Option String) (a : Archive V)
      → Holds (IsWaiting c id) (λ _. Unit) (compose_with V self c payload id at key a)
  compose_with-Holds c id payload at none a = tt
  compose_with-Holds c id payload at (some key) a =
      bind-Holds (λ _ _. Unit) (IsWaiting c id) (λ _. Unit)
        (seal_with V self max_ciphertext_bytes key c payload)
        (λ envelope b.
          (returned envelope, store_message V (outgoing V self.user_id c id at envelope) b))
        a (Holds-both (λ _. Unit) (seal_with V self max_ciphertext_bytes key c payload a) tt)
        (λ envelope b _. IsWaiting-store_message c id at envelope b)

  compose_message-Holds :
      (c id : String) (payload : Payload) (at : ℕ) (a : Archive V)
      → Holds (IsWaiting c id) (λ _. Unit) (compose_message V self c payload id at a)
  unfolding compose_message
  compose_message-Holds c id payload at a =
      bind-Holds (λ _ _. Unit) (IsWaiting c id) (λ _. Unit) (key_for_conversation V self c)
        (compose_with V self c payload id at) a
        (Holds-both (λ _. Unit) (key_for_conversation V self c a) tt)
        (λ key b _. compose_with-Holds c id payload at key b)

  module _ (X : Shapes) (to_millis : ℕ → ℕ) (now : ℕ) where
    -- The echo replaces the optimistic row.
    pub store_received-echo :
        (uuid : String) (active : Bool) (m : ServerMessage) (a : Archive V)
        → (m.sender_id == self.user_id) ≡ true
        → (m.id == ("pending-" ++ uuid)) ≡ false
        → V.database.messages.get
            (store_received V X self to_millis now
              (some ("pending-" ++ uuid))
              active
              m
              a).store.messages
            ("pending-" ++ uuid)
          ≡ none
    unfolding store_received confirm_message
    store_received-echo uuid active m a mine other =
        let client_id = "pending-" ++ uuid in
        let echo : IncomingMessage = record (echoed V X self to_millis now m) {
          pending = some false;
        } in
        let emptied : Store V.database = record a.store {
          messages = V.database.messages.delete a.store.messages client_id;
        } in
        let tests : (is_mine V X self to_millis now m && is_set (some client_id)) ≡ true =
          ground (arith, mine, prefixed uuid) in
        rw tests (
          ground (
            arith,
            get-put_message V.database echo emptied client_id,
            V.database.messages.get-delete a.store.messages client_id client_id,
            other,
            eq_refl client_id,
          ))

    -- What the caller gets, and the row that stands for it.
    abbrev pub IsPrepared : String → String → Prepared → Archive V × ChatStore X → Type 0
    IsPrepared c id p both = (p.client_id ≡ id) × IsWaiting c id p.envelope both.0

    show_prepared-Holds :
        (c id : String) (at : ℕ) (payload : Payload) (view : ChatStore X)
        (r : Outcome SealedEnvelope) (a : Archive V)
        → Holds (IsWaiting c id) (λ _. Unit) (r, a)
        → Holds (IsPrepared c id) (λ _. Unit) (show_prepared V X self c id at payload view (r, a))
    show_prepared-Holds c id at payload view (threw e) a h = tt
    show_prepared-Holds c id at payload view (returned envelope) a h = (refl, h)

    prepare_outgoing_payload-Holds :
        (c uuid : String) (payload : Payload) (at : ℕ) (both : Archive V × ChatStore X)
        → Holds
            (IsPrepared c ("pending-" ++ uuid))
            (λ _. Unit)
            (prepare_outgoing_payload V X self c payload uuid at both)
    unfolding prepare_outgoing_payload
    prepare_outgoing_payload-Holds c uuid payload at (a, view) =
        let composed = compose_message V self c payload ("pending-" ++ uuid) at a in
        show_prepared-Holds c ("pending-" ++ uuid) at payload view composed.0 composed.1
          (compose_message-Holds c ("pending-" ++ uuid) payload at a)

    -- A message that was prepared waits in the outbox with the envelope that the caller got, and the
    -- relay's echo of it, which brings another id, takes its row out of the database.
    pub prepare_outgoing_payload-store_received :
        (c uuid : String) (payload : Payload) (at : ℕ) (before after : Archive V × ChatStore X)
        (p : Prepared) (active : Bool) (m : ServerMessage)
        → prepare_outgoing_payload V X self c payload uuid at before ≡ (returned p, after)
        → (m.sender_id == self.user_id) ≡ true
        → (m.id == p.client_id) ≡ false
        → ((row : StoredMessage) × IsIn row (pending_messages V after.0)
            × (row.id ≡ p.client_id)
            × (row.conversation_id ≡ c)
            × (row.envelope ≡ p.envelope))
          × (V.database.messages.get
                (store_received V X self to_millis now
                  (some p.client_id)
                  active
                  m
                  after.0).store.messages
                p.client_id
              ≡ none)
    prepare_outgoing_payload-store_received c uuid payload at before after p active m run mine
          other =
        let id = "pending-" ++ uuid in
        let done : IsPrepared c id p after =
          subst (Holds (IsPrepared c id) (λ _. Unit)) run
            (prepare_outgoing_payload-Holds c uuid payload at before) in
        let (row, stands, is_id, place, envelope, waits) = done.1 in
        let named : V.database.messages.get after.0.store.messages row.id ≡ some row =
          ap (V.database.messages.get after.0.store.messages) is_id ∙ stands in
        (
          (
            row,
            IsIn-pending_messages V after.0 row named waits,
            is_id ∙ sym done.0,
            place,
            envelope,
          ),
          subst
              (λ i.
                V.database.messages.get
                  (store_received V X self to_millis now (some i) active m after.0).store.messages i
                ≡ none)
              (sym done.0)
              (store_received-echo uuid active m after.0 mine
                (subst (λ i. (m.id == i) ≡ false) done.0 other)),
        )
