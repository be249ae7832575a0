-- ===== src/Sync/Sweep/Told.antt =====
-- What a sweep leaves to the next one: a failed one is tried again.
use mathlib.Core.Bool.{false≢true}
use timber_chat.Prelude.{
  ℕ, zero, suc, String, Bool, true, false, not, ◌||◌, ◌≡◌, inl, inr, refl, sym, ap, ◌∙◌, Option,
  none, some, List, [], ◌∷◌, contains, arith, eq_iff, ◌==◌, if◌then◌else◌, Bool-cases, Option-cases,
}
use timber_chat.Database.{StoredMessage, Database, IsIn}
use timber_chat.Store.{
  Store, AckField, delivered_ack, read_ack, ack_of, with_ack, mark_ack_one, mark_ack, is_unsent,
  collect_unsent, unsent_receipt_ids, unacknowledged_message_ids, unread_acked_message_ids,
}
use timber_chat.Sync.Backfill.Pages.{All-IsIn}
use timber_chat.Sync.Sweep.{sweep_limit, sweep_receipts, acknowledge_delivery, acknowledge_read}

-- What `markAck` makes of the row under `k`.
abbrev pub acked : List String → AckField → String → Option StoredMessage → Option StoredMessage
acked ids field k none = none
acked ids field k (some row) = some (if contains k ids then with_ack field row else row)

with_ack-same :
    (field : AckField) (row : StoredMessage) → ack_of field row ≡ true → with_ack field row ≡ row
with_ack-same delivered_ack row h = ap (λ b. record row { delivered_ack = b }) (sym h)
with_ack-same read_ack row h = ap (λ b. record row { read_ack = b }) (sym h)

pub with_ack-id : (field : AckField) (row : StoredMessage) → (with_ack field row).id ≡ row.id
with_ack-id delivered_ack row = refl
with_ack-id read_ack row = refl

acked-acks :
    (ids : List String) (field : AckField) (k : String) (o : Option StoredMessage)
    (m : StoredMessage)
    → contains k ids ≡ true
    → acked ids field k o ≡ some m
    → ack_of field m ≡ true
acked-acks ids field k none m told e = ground (arith, e)
acked-acks ids delivered_ack k (some row) m told e = ground (arith, e, told)
acked-acks ids read_ack k (some row) m told e = ground (arith, e, told)

acked-cons :
    (ids : List String) (field : AckField) (id k : String) (o : Option StoredMessage)
    → acked ids field k (acked (id ∷ []) field k o) ≡ acked (id ∷ ids) field k o
acked-cons ids field id k none = refl
acked-cons ids delivered_ack id k (some row) = ground arith
acked-cons ids read_ack id k (some row) = ground arith

acked-nil : (field : AckField) (k : String) (o : Option StoredMessage) → o ≡ acked [] field k o
acked-nil field k none = refl
acked-nil field k (some row) = refl

module _ (D : Database) where
  get-mark_ack_one :
      (field : AckField) (id k : String) (s : Store D)
      → D.messages.get (mark_ack_one D field id s).messages k
        ≡ acked (id ∷ []) field k (D.messages.get s.messages k)
  unfolding mark_ack_one
  get-mark_ack_one field id k s = elim (Option-cases (D.messages.get s.messages id)) [
    | inl e ↦ elim (Option-cases (D.messages.get s.messages k)) [
      | inl f ↦ rw (mark_ack_one, e, f) refl
      | inr (other, f) ↦ ground (arith, e, f, eq_iff id k)
    ]
    | inr (row, e) ↦ elim (Option-cases (D.messages.get s.messages k)) [
      | inl f ↦ ground (
        arith,
        e,
        f,
        D.messages.get-put s.messages (with_ack field row) k,
        with_ack-id field row,
        D.messages.get_key s.messages id row e,
        eq_iff id k,
      )
      | inr (other, f) ↦ ground (
        arith,
        e,
        f,
        D.messages.get-put s.messages (with_ack field row) k,
        with_ack-id field row,
        D.messages.get_key s.messages id row e,
        eq_iff id k,
        with_ack-same field row,
      )
    ]
  ]

  pub get-mark_ack :
      (field : AckField) (ids : List String) (k : String) (s : Store D)
      → D.messages.get (mark_ack D ids field s).messages k
        ≡ acked ids field k (D.messages.get s.messages k)
  unfolding mark_ack
  get-mark_ack field [] k s = acked-nil field k (D.messages.get s.messages k)
  get-mark_ack field (id ∷ ids) k s =
      get-mark_ack field ids k (mark_ack_one D field id s)
      ∙ ap (acked ids field k) (get-mark_ack_one field id k s)
      ∙ acked-cons ids field id k (D.messages.get s.messages k)

  -- An id that is collected is that of a row of the conversation which passes the test.
  collect_unsent-row :
      (test : StoredMessage → Bool) (limit : ℕ) (rows : List StoredMessage) (k : String)
      → contains k (collect_unsent D test limit rows) ≡ true
      → (m : StoredMessage) × IsIn m rows × (m.id ≡ k) × (test m ≡ true)
  collect_unsent-row test limit [] k h = absurd (false≢true h)
  collect_unsent-row test zero (m ∷ ms) k h = absurd (false≢true h)
  collect_unsent-row test (suc n) (m ∷ ms) k h = elim (Bool-cases (test m)) [
    | inl e ↦ elim (Bool-cases (m.id == k)) [
      | inl same ↦ (m, inl refl, (eq_iff m.id k).0 same, e)
      | inr other ↦
          let found = collect_unsent-row test n ms k (ground (arith, h, e, other)) in
          (found.0, inr found.1, found.2, found.3)
    ]
    | inr e ↦
        let found = collect_unsent-row test (suc n) ms k (ground (arith, h, e)) in
        (found.0, inr found.1, found.2, found.3)
  ]

  -- An id that is collected is that of a row which stands under it.
  pub unsent_receipt_ids-row :
      (c self : String) (field : AckField) (extra : StoredMessage → Bool) (limit : ℕ) (k : String)
      (t : Store D)
      → contains k (unsent_receipt_ids D c self field extra limit t) ≡ true
      → (m : StoredMessage) × (D.messages.get t.messages k ≡ some m)
        × (is_unsent D self field extra m ≡ true)
  unfolding unsent_receipt_ids
  unsent_receipt_ids-row c self field extra limit k t h =
      let found =
        collect_unsent-row (is_unsent D self field extra) limit (D.rows t.messages c) k h in
      let there : D.messages.get t.messages found.0.id ≡ some found.0 =
        (All-IsIn _ found.0 (D.rows t.messages c) (D.rows_sound t.messages c) found.1).0 in
      (found.0, ap (D.messages.get t.messages) (sym found.2) ∙ there, found.3)

  -- What has been acknowledged is not collected.
  pub unsent_receipt_ids-acked :
      (c self : String) (field : AckField) (extra : StoredMessage → Bool) (limit : ℕ) (k : String)
      (t : Store D)
      → ((m : StoredMessage) → D.messages.get t.messages k ≡ some m → ack_of field m ≡ true)
      → contains k (unsent_receipt_ids D c self field extra limit t) ≡ false
  unsent_receipt_ids-acked c self field extra limit k t told =
      elim (Bool-cases (contains k (unsent_receipt_ids D c self field extra limit t))) [
        | inl again ↦
            let found = unsent_receipt_ids-row c self field extra limit k t again in
            ground (arith, told found.0 found.1, found.2)
        | inr gone ↦ gone
      ]

  -- What has been acknowledged is not collected again.
  unsent_receipt_ids-mark_ack :
      (c self : String) (field : AckField) (extra : StoredMessage → Bool) (limit : ℕ)
      (ids : List String) (k : String) (s : Store D)
      → contains k ids ≡ true
      → contains k (unsent_receipt_ids D c self field extra limit (mark_ack D ids field s)) ≡ false
  unsent_receipt_ids-mark_ack c self field extra limit ids k s told =
      unsent_receipt_ids-acked c self field extra limit k (mark_ack D ids field s) (λ m e.
        acked-acks ids field k (D.messages.get s.messages k) m told
          (sym (get-mark_ack field ids k s) ∙ e))

  module _ (emit : (event conversation_id : String) (message_ids : List String) → Bool)
      (post : (conversation_id : String) (message_ids : List String) → Bool) where
    abbrev pub taken_by :
        Option (String → List String → Bool) → String → List String → String → Bool
    taken_by none event ids c = emit event c ids
    taken_by (some f) event ids c = emit event c ids || f c ids

    pub swept_store :
        (c : String) (ids : List String) (event : String) (field : AckField)
        (fallback : Option (String → List String → Bool)) (s : Store D) (k : String)
        → contains k ids ≡ true
        → (sweep_receipts D emit post c ids event field fallback s).1
          ≡ (if taken_by fallback event ids c then mark_ack D ids field s else s)
    unfolding sweep_receipts
    swept_store c [] event field fallback s k h = absurd (false≢true h)
    swept_store c (id ∷ ids) event field none s k h = elim (Bool-cases (emit event c (id ∷ ids))) [
      | inl e ↦ rw e refl
      | inr e ↦ rw e refl
    ]
    swept_store c (id ∷ ids) event field (some f) s k h =
        elim (Bool-cases (emit event c (id ∷ ids))) [
          | inl e ↦ rw e refl
          | inr e ↦ elim (Bool-cases (f c (id ∷ ids))) [
            | inl e' ↦ rw (e, e') refl
            | inr e' ↦ rw (e, e') refl
          ]
        ]

    -- A message whose reading is still to be told is left for the next sweep where neither the socket nor
    -- the request takes it, and is not where one of them does.
    pub acknowledge_read_lem :
        (c self k : String) (s : Store D)
        → contains k (unread_acked_message_ids D c self sweep_limit s) ≡ true
        → contains k (
            unread_acked_message_ids D c self sweep_limit (acknowledge_read D emit post c self s).1)
          ≡ not (
              emit "receipt.read" c (unread_acked_message_ids D c self sweep_limit s)
              || post c (unread_acked_message_ids D c self sweep_limit s))
    unfolding acknowledge_read unread_acked_message_ids
    acknowledge_read_lem c self k s h =
        let ids = unread_acked_message_ids D c self sweep_limit s in
        rw (swept_store c ids "receipt.read" read_ack (some post) s k h)
          (elim (Bool-cases (taken_by (some post) "receipt.read" ids c)) [
            | inl e ↦
                rw e
                  (unsent_receipt_ids-mark_ack c self read_ack (λ m. m.seen) sweep_limit ids k s h)
            | inr e ↦ rw e h
          ])

    -- A message that is held and not yet confirmed to its sender is left for the next sweep where the
    -- socket does not take it, and is not where it does.
    pub acknowledge_delivery_lem :
        (c self k : String) (s : Store D)
        → contains k (unacknowledged_message_ids D c self sweep_limit s) ≡ true
        → contains k (
            unacknowledged_message_ids D c self sweep_limit
              (acknowledge_delivery D emit post c self s).1)
          ≡ not (emit "receipt.delivered" c (unacknowledged_message_ids D c self sweep_limit s))
    unfolding acknowledge_delivery unacknowledged_message_ids
    acknowledge_delivery_lem c self k s h =
        let ids = unacknowledged_message_ids D c self sweep_limit s in
        rw (swept_store c ids "receipt.delivered" delivered_ack none s k h)
          (elim (Bool-cases (emit "receipt.delivered" c ids)) [
            | inl e ↦
                rw e (
                  unsent_receipt_ids-mark_ack c self delivered_ack (λ m. true) sweep_limit ids k s
                    h)
            | inr e ↦ rw e h
          ])
