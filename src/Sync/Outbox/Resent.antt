-- ===== src/Sync/Outbox/Resent.antt =====
-- `flushOutbox`: which of the waiting messages are sent again.
use mathlib.Core.Bool.{false≢true}
use native.Mathlib.Nat.{le_trans}
use timber_chat.Prelude.{
  ◌≤◌, Bool, true, ◌≡◌, refl, sym, ap, ◌∙◌, some, List, [], ◌∷◌, ◌++◌, map, keep, arith, Bool-cases,
  inl, inr, leb, All, All-map, ◌⊎◌,
}
use timber_chat.Database.{StoredMessage, IsIn, IsOrdered}
use timber_chat.Contacts.{Device, Archive}
use timber_chat.Threads.{pending_messages, sort_pending, place_pending}
use timber_chat.Sync.Outbox.{Frame, frame_of, resend, flush_outbox}

-- Some first part of a list.
abbrev pub IsFront : List Frame → List Frame → Type 0
IsFront front all = (rest : List Frame) × (front ++ rest ≡ all)

pub resend-IsFront :
    (emit : Frame → Bool) (ms : List StoredMessage) → IsFront (resend emit ms) (map frame_of ms)
unfolding resend
resend-IsFront emit [] = ([], refl)
resend-IsFront emit (m ∷ ms) = elim (Bool-cases (emit (frame_of m))) [
  | inl e ↦ let (rest, h) = resend-IsFront emit ms in rw e (rest, ap (λ r. frame_of m ∷ r) h)
  | inr e ↦ rw e (map frame_of (m ∷ ms), refl)
]

pub resend-All :
    (emit : Frame → Bool) (ms : List StoredMessage)
    → All (λ m. emit (frame_of m) ≡ true) ms
    → resend emit ms ≡ map frame_of ms
unfolding resend
resend-All emit [] h = refl
resend-All emit (m ∷ ms) h = rw h.0 (ap (λ r. frame_of m ∷ r) (resend-All emit ms h.1))

All-place_pending {κ} :
    (P : StoredMessage → Type κ) (m : StoredMessage) (ms : List StoredMessage)
    → P m
    → All P ms
    → All P (place_pending m ms)
All-place_pending P m [] p h = (p, tt)
All-place_pending P m (n ∷ ns) p h = elim (Bool-cases (leb m.created_at n.created_at)) [
  | inl e ↦ rw e (p, h)
  | inr e ↦ rw e (h.0, All-place_pending P m ns p h.1)
]

All-sort_pending {κ} :
    (P : StoredMessage → Type κ) (ms : List StoredMessage) → All P ms → All P (sort_pending ms)
unfolding sort_pending
All-sort_pending P [] h = tt
All-sort_pending P (m ∷ ms) h = All-place_pending P m _ h.0 (All-sort_pending P ms h.1)

place_pending-IsOrdered :
    (m : StoredMessage) (ms : List StoredMessage) → IsOrdered ms → IsOrdered (place_pending m ms)
place_pending-IsOrdered m [] h = (tt, tt)
place_pending-IsOrdered m (n ∷ ns) h = elim (Bool-cases (leb m.created_at n.created_at)) [
  | inl e ↦
      let first : m.created_at ≤ n.created_at = ground arith in
      rw e ((first, All-map _ _ (λ x le. le_trans first le) ns h.0), h)
  | inr e ↦
      let first : n.created_at ≤ m.created_at = ground arith in
      rw e (All-place_pending _ m ns first h.0, place_pending-IsOrdered m ns h.1)
]

sort_pending-IsOrdered : (ms : List StoredMessage) → IsOrdered (sort_pending ms)
unfolding sort_pending
sort_pending-IsOrdered [] = tt
sort_pending-IsOrdered (m ∷ ms) =
    place_pending-IsOrdered m (sort_pending ms) (sort_pending-IsOrdered ms)

IsIn-place_pending :
    (x m : StoredMessage) (ms : List StoredMessage)
    → (x ≡ m) ⊎ IsIn x ms
    → IsIn x (place_pending m ms)
IsIn-place_pending x m [] h = h
IsIn-place_pending x m (n ∷ ns) h = elim (Bool-cases (leb m.created_at n.created_at)) [
  | inl e ↦ rw e h
  | inr e ↦ rw e (elim h [
    | inl q ↦ inr (IsIn-place_pending x m ns (inl q))
    | inr q ↦ elim q [ inl r ↦ inl r | inr r ↦ inr (IsIn-place_pending x m ns (inr r)) ]
  ])
]

pub IsIn-sort_pending :
    (x : StoredMessage) (ms : List StoredMessage) → IsIn x ms → IsIn x (sort_pending ms)
unfolding sort_pending
IsIn-sort_pending x [] h = h
IsIn-sort_pending x (m ∷ ms) h =
    IsIn-place_pending x m (sort_pending ms)
      (elim h [ inl e ↦ inl e | inr i ↦ inr (IsIn-sort_pending x ms i) ])

module _ (p : StoredMessage → Bool) where
  IsIn-keep :
      (x : StoredMessage) (ms : List StoredMessage) → p x ≡ true → IsIn x ms → IsIn x (keep p ms)
  IsIn-keep x [] h i = i
  IsIn-keep x (m ∷ ms) h i = elim (Bool-cases (p m)) [
    | inl e ↦ rw e (elim i [ inl q ↦ inl q | inr j ↦ inr (IsIn-keep x ms h j) ])
    | inr e ↦ rw e (elim i [
      | inl q ↦ absurd (false≢true (sym e ∙ ap p (sym q) ∙ h))
      | inr j ↦ IsIn-keep x ms h j
    ])
  ]

  All-keep :
      (P : StoredMessage → Type 0) (ms : List StoredMessage)
      → All P ms
      → All (λ m. P m × (p m ≡ true)) (keep p ms)
  All-keep P [] h = tt
  All-keep P (m ∷ ms) h = elim (Bool-cases (p m)) [
    | inl e ↦ rw e ((h.0, e), All-keep P ms h.1)
    | inr e ↦ rw e (All-keep P ms h.1)
  ]

module _ (V : Device) where
  -- Every pending row of the database is in the outbox.
  pub IsIn-pending_messages :
      (a : Archive V) (m : StoredMessage)
      → V.database.messages.get a.store.messages m.id ≡ some m
      → m.pending ≡ true
      → IsIn m (pending_messages V a)
  unfolding pending_messages
  IsIn-pending_messages a m e waits = IsIn-sort_pending m _ (
      IsIn-keep (λ n. n.pending) m (V.all_messages a.store.messages) waits
        (V.all_messages_complete a.store.messages m e))

  pub All-pending_messages :
      (a : Archive V)
      → All
          (λ m. (V.database.messages.get a.store.messages m.id ≡ some m) × (m.pending ≡ true))
          (pending_messages V a)
  unfolding pending_messages
  All-pending_messages a = All-sort_pending _ _ (
      All-keep (λ n. n.pending) _ (V.all_messages a.store.messages)
        (V.all_messages_sound a.store.messages))

  pending_messages-IsOrdered : (a : Archive V) → IsOrdered (pending_messages V a)
  unfolding pending_messages
  pending_messages-IsOrdered a =
      sort_pending-IsOrdered (keep (λ m. m.pending) (V.all_messages a.store.messages))

  -- The outbox holds the rows that are pending and no other, every one of them, oldest first; the socket
  -- takes a first part of their frames, and all of them where it takes each that is offered.
  pub flush_outbox_lem :
      (emit : Frame → Bool) (a : Archive V) (m : StoredMessage)
      → V.database.messages.get a.store.messages m.id ≡ some m
      → m.pending ≡ true
      → IsIn m (pending_messages V a)
        × IsOrdered (pending_messages V a)
        × All
            (λ n. (V.database.messages.get a.store.messages n.id ≡ some n) × (n.pending ≡ true))
            (pending_messages V a)
        × IsFront (flush_outbox V emit a) (map frame_of (pending_messages V a))
        × (flush_outbox V (λ _. true) a ≡ map frame_of (pending_messages V a))
  unfolding flush_outbox
  flush_outbox_lem emit a m e waits = (
    IsIn-pending_messages a m e waits,
    pending_messages-IsOrdered a,
    All-pending_messages a,
    resend-IsFront emit (pending_messages V a),
    resend-All (λ _. true) (pending_messages V a) (all_taken (pending_messages V a)),
  )
    where
      all_taken : (ms : List StoredMessage) → All (λ m. true ≡ true) ms
      all_taken [] = tt
      all_taken (m ∷ ms) = (refl, all_taken ms)
