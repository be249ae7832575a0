-- ===== src/Sync/Sweep/Once.antt =====
-- What the sweep of reading has told is never told again.
use mathlib.Core.Bool.{false≢true}
use timber_chat.Prelude.{
  ℕ, truthy, String, Bool, true, false, not, ◌||◌, ◌≡◌, ◌≢◌, inl, inr, refl, sym, ap, ◌∙◌, Option,
  none, some, List, [], ◌∷◌, contains, arith, eq_iff, lookup, or_else, All, All-map, Option-cases,
  Bool-cases, if◌then◌else◌,
}
use timber_chat.Database.{StoredMessage, Database}
use timber_chat.Store.{
  IncomingMessage, ReceiptField, AckField, delivered_ack, read_ack, Parked, apply_parked, merge_row,
  Store, put_message, confirm_message, mark_receipt_one, mark_receipt, mark_rows_seen, mark_seen,
  is_unread, stamp_of, stamp, unread_acked_message_ids,
}
use timber_chat.Store.Receipts.{put_message-messages, apply_parked-id, mark_receipt_one_present}
use timber_chat.Store.Progress.{
  Operation, put, confirm, receipt, acknowledge, see, perform, perform_all,
}
use timber_chat.Sync.Sweep.{sweep_limit, acknowledge_read}
use timber_chat.Sync.Sweep.Told.{
  acked, get-mark_ack, taken_by, swept_store, unsent_receipt_ids-row, unsent_receipt_ids-acked,
  acknowledge_read_lem,
}

-- A row stands there whose reading was told.
abbrev pub is_told : Option StoredMessage → Bool
is_told none = false
is_told (some m) = m.read_ack

-- An operation that does not say of a message that its reading is yet to be told, and does not take its
-- row away. No call of `putMessage` or `confirmMessage` in sync.js gives `readAck`.
abbrev pub IsKept : String → Operation → Type 0
IsKept k (put m) = or_else m.read_ack true ≡ true
IsKept k (confirm t m) = (t ≢ k) × (or_else m.read_ack true ≡ true)
IsKept k (receipt ids field at) = Unit
IsKept k (acknowledge ids field) = Unit
IsKept k (see c self) = Unit

module _ (D : Database) where
  abbrev is_told_at : String → Store D → Bool
  is_told_at k s = is_told (D.messages.get s.messages k)

  is_told-row :
      (parked : Option Parked) (m : IncomingMessage) (o : Option StoredMessage)
      → or_else m.read_ack true ≡ true
      → is_told o ≡ true
      → (apply_parked parked (merge_row m o)).read_ack ≡ true
  unfolding apply_parked merge_row
  is_told-row parked m none h told = absurd (false≢true told)
  is_told-row none m (some row) h told = ground (arith, h, told)
  is_told-row (some p) m (some row) h told = ground (arith, h, told)

  put_message-is_told :
      (k : String) (m : IncomingMessage) (s : Store D)
      → or_else m.read_ack true ≡ true
      → is_told_at k s ≡ true
      → is_told_at k (put_message D m s).1 ≡ true
  put_message-is_told k m s h told =
      let parked = lookup m.id s.deferred in
      let before = D.messages.get s.messages m.id in
      rw (put_message-messages D m s) (
        ground (
          arith,
          D.messages.get-put s.messages (apply_parked parked (merge_row m before)) k,
          apply_parked-id parked m before,
          is_told-row parked m before h,
          eq_iff m.id k,
          told,
        ))

  mark_receipt_one-is_told :
      (k : String) (field : ReceiptField) (at : ℕ) (id : String) (s : Store D)
      → is_told_at k s ≡ true
      → is_told_at k (mark_receipt_one D field at id s).1 ≡ true
  mark_receipt_one-is_told k field at id s told =
      elim (Option-cases (D.messages.get s.messages id)) [
        | inl e ↦ unfold mark_receipt_one in ground (arith, told)
        | inr (row, e) ↦
            let same : (if truthy (stamp_of field row) then row else stamp field at row).read_ack
                ≡ row.read_ack =
              read_ack-stamp field at row in
            ground
              (arith, told, e, same, mark_receipt_one_present D field at id s row e k, eq_iff id k)
      ]
    where
      read_ack-stamp :
          (f : ReceiptField) (t : ℕ) (r : StoredMessage)
          → (if truthy (stamp_of f r) then r else stamp f t r).read_ack ≡ r.read_ack
      read_ack-stamp f t r = unfold stamp in ground arith

  mark_receipt-is_told :
      (k : String) (ids : List String) (field : ReceiptField) (at : ℕ) (s : Store D)
      → is_told_at k s ≡ true
      → is_told_at k (mark_receipt D ids field at s).1 ≡ true
  unfolding mark_receipt
  mark_receipt-is_told k [] field at s told = told
  mark_receipt-is_told k (id ∷ ids) field at s told =
      mark_receipt-is_told k ids field at (mark_receipt_one D field at id s).1
        (mark_receipt_one-is_told k field at id s told)

  acked-is_told :
      (ids : List String) (field : AckField) (k : String) (o : Option StoredMessage)
      → is_told o ≡ true
      → is_told (acked ids field k o) ≡ true
  acked-is_told ids field k none told = told
  acked-is_told ids delivered_ack k (some row) told = ground (arith, told)
  acked-is_told ids read_ack k (some row) told = ground (arith, told)

  mark_rows_seen-is_told :
      (k self : String) (ms : List StoredMessage) (t u : D.messages.Table)
      → All (λ m. D.messages.get t m.id ≡ some m) ms
      → is_told (D.messages.get t k) ≡ true
      → is_told (D.messages.get u k) ≡ true
      → is_told (D.messages.get (mark_rows_seen D self ms u).1 k) ≡ true
  unfolding mark_rows_seen
  mark_rows_seen-is_told k self [] t u h before told = told
  mark_rows_seen-is_told k self (m ∷ ms) t u h before told =
      elim (Bool-cases (is_unread D self m)) [
        | inl fresh ↦ rw fresh (
            mark_rows_seen-is_told k self ms t (D.messages.put u (record m { seen = true })) h.1
              before
              (ground (
                arith,
                told,
                before,
                D.messages.get-put u (record m { seen = true }) k,
                eq_iff m.id k,
                h.0,
              )))
        | inr old ↦ rw old (mark_rows_seen-is_told k self ms t u h.1 before told)
      ]

  perform-is_told :
      (k : String) (op : Operation) (s : Store D)
      → IsKept k op
      → is_told_at k s ≡ true
      → is_told_at k (perform D op s) ≡ true
  unfolding perform
  perform-is_told k (put m) s h told = put_message-is_told k m s h told
  perform-is_told k (confirm t m) s h told =
      let after = record s { messages = D.messages.delete s.messages t } in
      unfold confirm_message in
      put_message-is_told k (record m { pending = some false }) after h.1
        (ground (arith, D.messages.get-delete s.messages t k, eq_iff t k, h.0, told))
  perform-is_told k (receipt ids field at) s h told = mark_receipt-is_told k ids field at s told
  perform-is_told k (acknowledge ids field) s h told =
      rw (get-mark_ack D field ids k s)
        (acked-is_told ids field k (D.messages.get s.messages k) told)
  perform-is_told k (see c self) s h told =
      unfold mark_seen in
      mark_rows_seen-is_told k self (D.rows s.messages c) s.messages s.messages
        (All-map _ _ (λ m h. h.0) (D.rows s.messages c) (D.rows_sound s.messages c)) told told

  perform_all-is_told :
      (k : String) (ops : List Operation) (s : Store D)
      → All (IsKept k) ops
      → is_told_at k s ≡ true
      → is_told_at k (perform_all D ops s) ≡ true
  unfolding perform_all
  perform_all-is_told k [] s h told = told
  perform_all-is_told k (op ∷ ops) s h told =
      perform_all-is_told k ops (perform D op s) h.1 (perform-is_told k op s h.0 told)

  module _ (emit : (event conversation_id : String) (message_ids : List String) → Bool)
      (post : (conversation_id : String) (message_ids : List String) → Bool) where
    -- Where the sweep got through, the row is told.
    acknowledge_read-is_told :
        (c self k : String) (s : Store D)
        → contains k (unread_acked_message_ids D c self sweep_limit s) ≡ true
        → taken_by D emit post
            (some post)
            "receipt.read"
            (unread_acked_message_ids D c self sweep_limit s)
            c
          ≡ true
        → is_told_at k (acknowledge_read D emit post c self s).1 ≡ true
    unfolding acknowledge_read unread_acked_message_ids
    acknowledge_read-is_told c self k s h taken =
        let ids = unread_acked_message_ids D c self sweep_limit s in
        let found = unsent_receipt_ids-row D c self read_ack (λ m. m.seen) sweep_limit k s h in
        rw (swept_store D emit post c ids "receipt.read" read_ack (some post) s k h, taken)
          (rw (get-mark_ack D read_ack ids k s, found.1, h) refl)

    -- What is told is not collected.
    unread_acked_message_ids-is_told :
        (c self k : String) (limit : ℕ) (t : Store D)
        → is_told_at k t ≡ true
        → contains k (unread_acked_message_ids D c self limit t) ≡ false
    unfolding unread_acked_message_ids
    unread_acked_message_ids-is_told c self k limit t told =
        unsent_receipt_ids-acked D c self read_ack (λ m. m.seen) limit k t
          (λ m e. ap is_told (sym e) ∙ told)

    -- A message whose reading is still to be told is told by the sweep, over the socket or by the
    -- request; where neither takes it, the next sweep tries again. Once it was told, no sweep tells it
    -- after any operations of the database, those of other sweeps among them, that do not take its row
    -- away and do not store a message as one whose reading is yet to be told.
    pub acknowledge_read-perform_all :
        (c self k : String) (ops : List Operation) (s : Store D)
        → contains k (unread_acked_message_ids D c self sweep_limit s) ≡ true
        → All (IsKept k) ops
        → let ids = unread_acked_message_ids D c self sweep_limit s in
          let told = emit "receipt.read" c ids || post c ids in
          let after = (acknowledge_read D emit post c self s).1 in
          (contains k (unread_acked_message_ids D c self sweep_limit after) ≡ not told)
          × ((not told
                || not (
                    contains k
                      (unread_acked_message_ids D c self sweep_limit (perform_all D ops after))))
              ≡ true)
    acknowledge_read-perform_all c self k ops s h kept =
        let ids = unread_acked_message_ids D c self sweep_limit s in
        let after = (acknowledge_read D emit post c self s).1 in
        (
          acknowledge_read_lem D emit post c self k s h,
          elim (Bool-cases (emit "receipt.read" c ids || post c ids)) [
            | inl taken ↦
                rw
                  (
                    taken,
                    unread_acked_message_ids-is_told c self k sweep_limit (perform_all D ops after)
                        (perform_all-is_told k ops after kept
                          (acknowledge_read-is_told c self k s h taken)),
                  )
                  refl
            | inr missed ↦ rw missed refl
          ],
        )
