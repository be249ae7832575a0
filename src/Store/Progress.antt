-- ===== src/Store/Progress.antt =====
-- The ticks of a message, `receiptState` of frontend/src/types/message.ts, under every operation of
-- the store.
use native.Mathlib.Nat.{le_refl, le_trans}
use timber_chat.Prelude.{
  ℕ, suc, ◌≤◌, ◌&&◌, String, true, false, Option, none, some, List, [], ◌∷◌, ◌≡◌, ◌≢◌, refl, lookup,
  truthy, arith, eq_iff, if◌then◌else◌, ◌==◌, Option-cases, Bool-cases, All-map, inl, inr, All, ◌⊎◌,
}
use timber_chat.Database.{StoredMessage, Database}
use timber_chat.Store.{
  IncomingMessage, ReceiptField, AckField, Parked, stamp_of, stamp, apply_parked, merge_row, flag,
  Store, put_message, confirm_message, mark_receipt_one, mark_receipt, mark_ack_one, mark_ack,
  mark_rows_seen, mark_seen, is_unread,
}
use timber_chat.Store.Receipts.{put_message-messages, apply_parked-id}

pub data ReceiptState : Type 0 where
  pending sent delivered read : ReceiptState

unfoldable pub receipt_state : StoredMessage → ReceiptState
receipt_state m =
    if m.pending
    then pending
    else if truthy m.read_at
    then read
    else if truthy m.delivered_at
    then delivered
    else sent

-- One, two or three ticks.
abbrev pub ticks : ReceiptState → ℕ
ticks pending = 0
ticks sent = 1
ticks delivered = 2
ticks read = 3

-- How far a row has come; an absent row has not begun.
abbrev pub progress : Option StoredMessage → ℕ
progress none = 0
progress (some row) = suc (ticks (receipt_state row))

-- The operations that write to the message rows.
pub data Operation : Type 0 where
  put : IncomingMessage → Operation
  confirm : (temporary_id : String) → IncomingMessage → Operation
  receipt : List String → ReceiptField → (at : ℕ) → Operation
  acknowledge : List String → AckField → Operation
  see : (conversation_id self : String) → Operation

-- A stamp is absent or a real time.
abbrev pub IsStamp : Option ℕ → Type 0
IsStamp o = (o ≡ none) ⊎ (truthy o ≡ true)

-- What an operation must respect: a message that is stored again is not pending again, its stamps
-- are real, and an optimistic row is replaced, not the confirmed one.
abbrev pub IsForward : String → Operation → Type 0
IsForward k (put m) =
    ((flag m.pending && (m.id == k)) ≡ false) × IsStamp m.delivered_at × IsStamp m.read_at
IsForward k (confirm t m) = (t ≢ k) × IsStamp m.delivered_at × IsStamp m.read_at
IsForward k (receipt ids field at) = Unit
IsForward k (acknowledge ids field) = Unit
IsForward k (see c self) = Unit

module _ (D : Database) where
  unfoldable pub perform : Operation → Store D → Store D
  perform (put m) s = (put_message D m s).1
  perform (confirm t m) s = (confirm_message D t m s).1
  perform (receipt ids field at) s = (mark_receipt D ids field at s).1
  perform (acknowledge ids field) s = mark_ack D ids field s
  perform (see c self) s = (mark_seen D c self s).1

  unfoldable pub perform_all : List Operation → Store D → Store D
  perform_all [] s = s
  perform_all (op ∷ ops) s = perform_all ops (perform op s)

  abbrev pub progress_at : String → Store D → ℕ
  progress_at k s = progress (D.messages.get s.messages k)

  apply_parked-progress :
      (p : Option Parked) (row : StoredMessage)
      → progress (some row) ≤ progress (some (apply_parked p row))
  unfolding apply_parked receipt_state
  apply_parked-progress none row = le_refl _
  apply_parked-progress (some p) row = ground arith

  merge_row-progress :
      (m : IncomingMessage) (e : Option StoredMessage)
      → flag m.pending ≡ false
      → IsStamp m.delivered_at
      → IsStamp m.read_at
      → progress e ≤ progress (some (merge_row m e))
  unfolding merge_row receipt_state
  merge_row-progress m none p d r = ground arith
  merge_row-progress m (some e) p d r = ground arith

  put_message-progress :
      (k : String) (m : IncomingMessage) (s : Store D)
      → (m.id ≡ k → flag m.pending ≡ false)
      → IsStamp m.delivered_at
      → IsStamp m.read_at
      → progress_at k s ≤ progress_at k (put_message D m s).1
  put_message-progress k m s p d r = elim (Bool-cases (m.id == k)) [
    | inl same ↦
        let e : m.id ≡ k = (eq_iff m.id k).0 same in
        let row = merge_row m (D.messages.get s.messages m.id) in
        let parked = lookup m.id s.deferred in
        rw (put_message-messages D m s) (
          ground (
            arith,
            e,
            D.messages.get-put s.messages (apply_parked parked row) k,
            apply_parked-id parked m (D.messages.get s.messages m.id),
            eq_iff m.id k,
            merge_row-progress m (D.messages.get s.messages m.id) (p e) d r,
            apply_parked-progress parked row,
          ))
    | inr other ↦
        let row = merge_row m (D.messages.get s.messages m.id) in
        let parked = lookup m.id s.deferred in
        rw (put_message-messages D m s) (
          ground (
            arith,
            D.messages.get-put s.messages (apply_parked parked row) k,
            apply_parked-id parked m (D.messages.get s.messages m.id),
          ))
  ]

  stamp-progress :
      (field : ReceiptField) (at : ℕ) (row : StoredMessage)
      → truthy (stamp_of field row) ≡ false
      → progress (some row) ≤ progress (some (stamp field at row))
  unfolding stamp receipt_state
  stamp-progress ReceiptField.delivered at row h = ground arith
  stamp-progress ReceiptField.read at row h = ground arith

  stamp-id :
      (field : ReceiptField) (at : ℕ) (row : StoredMessage) → (stamp field at row).id ≡ row.id
  unfolding stamp
  stamp-id ReceiptField.delivered at row = refl
  stamp-id ReceiptField.read at row = refl

  mark_receipt_one-progress :
      (k : String) (field : ReceiptField) (at : ℕ) (id : String) (s : Store D)
      → progress_at k s ≤ progress_at k (mark_receipt_one D field at id s).1
  unfolding mark_receipt_one
  mark_receipt_one-progress k field at id s = elim (Option-cases (D.messages.get s.messages id)) [
    | inl e ↦ ground arith
    | inr (row, e) ↦ ground (
      arith,
      e,
      D.messages.get-put s.messages (stamp field at row) k,
      stamp-id field at row,
      D.messages.get_key s.messages id row e,
      eq_iff id k,
      stamp-progress field at row,
    )
  ]

  mark_receipt-progress :
      (k : String) (ids : List String) (field : ReceiptField) (at : ℕ) (s : Store D)
      → progress_at k s ≤ progress_at k (mark_receipt D ids field at s).1
  unfolding mark_receipt
  mark_receipt-progress k [] field at s = le_refl _
  mark_receipt-progress k (id ∷ ids) field at s =
      le_trans (mark_receipt_one-progress k field at id s)
        (mark_receipt-progress k ids field at (mark_receipt_one D field at id s).1)

  mark_ack_one-progress :
      (k : String) (field : AckField) (id : String) (s : Store D)
      → progress_at k s ≤ progress_at k (mark_ack_one D field id s)
  unfolding mark_ack_one receipt_state
  mark_ack_one-progress k AckField.delivered_ack id s =
      elim (Option-cases (D.messages.get s.messages id)) [
        | inl e ↦ ground arith
        | inr (row, e) ↦ ground (
          arith,
          e,
          D.messages.get-put s.messages (record row { delivered_ack = true }) k,
          D.messages.get_key s.messages id row e,
          eq_iff id k,
        )
      ]
  mark_ack_one-progress k AckField.read_ack id s =
      elim (Option-cases (D.messages.get s.messages id)) [
        | inl e ↦ ground arith
        | inr (row, e) ↦ ground (
          arith,
          e,
          D.messages.get-put s.messages (record row { read_ack = true }) k,
          D.messages.get_key s.messages id row e,
          eq_iff id k,
        )
      ]

  mark_ack-progress :
      (k : String) (ids : List String) (field : AckField) (s : Store D)
      → progress_at k s ≤ progress_at k (mark_ack D ids field s)
  unfolding mark_ack
  mark_ack-progress k [] field s = le_refl _
  mark_ack-progress k (id ∷ ids) field s =
      le_trans (mark_ack_one-progress k field id s)
        (mark_ack-progress k ids field (mark_ack_one D field id s))

  seen-progress :
      (m : StoredMessage) → progress (some (record m { seen = true })) ≡ progress (some m)
  unfolding receipt_state
  seen-progress m = refl

  mark_rows_seen-progress :
      (k self : String) (ms : List StoredMessage) (t u : D.messages.Table)
      → All (λ m. D.messages.get t m.id ≡ some m) ms
      → progress (D.messages.get u k) ≡ progress (D.messages.get t k)
      → progress (D.messages.get (mark_rows_seen D self ms u).1 k) ≡ progress (D.messages.get t k)
  unfolding mark_rows_seen
  mark_rows_seen-progress k self [] t u h e = e
  mark_rows_seen-progress k self (m ∷ ms) t u h e = elim (Bool-cases (is_unread D self m)) [
    | inl fresh ↦ rw fresh (
        mark_rows_seen-progress k self ms t (D.messages.put u (record m { seen = true })) h.1 (
          ground (
            arith,
            e,
            D.messages.get-put u (record m { seen = true }) k,
            eq_iff m.id k,
            h.0,
            seen-progress m,
          )))
    | inr old ↦ rw old (mark_rows_seen-progress k self ms t u h.1 e)
  ]

  mark_seen-progress :
      (k c self : String) (s : Store D) → progress_at k s ≤ progress_at k (mark_seen D c self s).1
  unfolding mark_seen
  mark_seen-progress k c self s = omega (
    arith,
    mark_rows_seen-progress k self (D.rows s.messages c) s.messages s.messages
        (All-map _ _ (λ m h. h.0) (D.rows s.messages c) (D.rows_sound s.messages c)) refl,
  )

  confirm_message-progress :
      (k t : String) (m : IncomingMessage) (s : Store D)
      → t ≢ k
      → IsStamp m.delivered_at
      → IsStamp m.read_at
      → progress_at k s ≤ progress_at k (confirm_message D t m s).1
  unfolding confirm_message
  confirm_message-progress k t m s ne d r =
      let after = record s { messages = D.messages.delete s.messages t } in
      let same : progress_at k after ≡ progress_at k s =
        ground (arith, D.messages.get-delete s.messages t k, eq_iff t k) in
      omega (
        arith,
        same,
        put_message-progress k (record m { pending = some false }) after (λ e. refl) d r,
      )

  perform-progress :
      (k : String) (op : Operation) (s : Store D)
      → IsForward k op
      → progress_at k s ≤ progress_at k (perform op s)
  unfolding perform
  perform-progress k (put m) s h =
      put_message-progress k m s (λ e. ground (arith, h.0, e, eq_iff m.id k)) h.1 h.2
  perform-progress k (confirm t m) s h = confirm_message-progress k t m s h.0 h.1 h.2
  perform-progress k (receipt ids field at) s h = mark_receipt-progress k ids field at s
  perform-progress k (acknowledge ids field) s h = mark_ack-progress k ids field s
  perform-progress k (see c self) s h = mark_seen-progress k c self s

  -- Receipts only move forward: over any operations that store no message as pending again, carry
  -- real stamps and drop no confirmed row, the ticks of a message never go back, and it stays stored.
  pub perform_all-progress :
      (k : String) (ops : List Operation) (s : Store D)
      → All (IsForward k) ops
      → progress_at k s ≤ progress_at k (perform_all ops s)
  unfolding perform_all
  perform_all-progress k [] s h = le_refl _
  perform_all-progress k (op ∷ ops) s h =
      le_trans (perform-progress k op s h.0) (perform_all-progress k ops (perform op s) h.1)
