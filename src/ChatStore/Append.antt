-- ===== src/ChatStore/Append.antt =====
-- `appendMessage`: the echo of an own message replaces its optimistic copy.
use native.Mathlib.Nat.{le_trans}
use timber_chat.Prelude.{
  ℕ, ◌+◌, ◌≤◌, String, Bool, not, ◌&&◌, ◌≡◌, inl, inr, refl, ◌∙◌, Option, none, some, List, [], ◌∷◌,
  ◌++◌, All, All-map, keep, leb, arith, eq_iff, ◌==◌, if◌then◌else◌, Bool-cases,
}
use timber_chat.Presentation.{ConversationMessage}
use timber_chat.Presentation.Order.{message_id}
use timber_chat.ChatStore.{place, sort_by_time, appended, time_of, is_text_of}

abbrev pub IsByTime : List ConversationMessage → Type 0
IsByTime [] = Unit
IsByTime (m ∷ ms) = All (λ n. time_of m ≤ time_of n) ms × IsByTime ms

-- How many entries have the id.
abbrev pub occurrences : String → List ConversationMessage → ℕ
occurrences id [] = 0
occurrences id (m ∷ ms) = (if message_id m == id then 1 else 0) + occurrences id ms

All-place :
    (P : ConversationMessage → Type 0) (m : ConversationMessage) (ms : List ConversationMessage)
    → P m
    → All P ms
    → All P (place m ms)
All-place P m [] p h = (p, tt)
All-place P m (n ∷ ns) p h = elim (Bool-cases (leb (time_of m) (time_of n))) [
  | inl e ↦ rw e (p, h)
  | inr e ↦ rw e (h.0, All-place P m ns p h.1)
]

place-IsByTime :
    (m : ConversationMessage) (ms : List ConversationMessage) → IsByTime ms → IsByTime (place m ms)
place-IsByTime m [] h = (tt, tt)
place-IsByTime m (n ∷ ns) h = elim (Bool-cases (leb (time_of m) (time_of n))) [
  | inl e ↦
      let first : time_of m ≤ time_of n = ground arith in
      rw e ((first, All-map _ _ (λ x le. le_trans first le) ns h.0), h)
  | inr e ↦
      let first : time_of n ≤ time_of m = ground arith in
      rw e (All-place _ m ns first h.0, place-IsByTime m ns h.1)
]

sort_by_time-IsByTime : (ms : List ConversationMessage) → IsByTime (sort_by_time ms)
unfolding sort_by_time
sort_by_time-IsByTime [] = tt
sort_by_time-IsByTime (m ∷ ms) = place-IsByTime m (sort_by_time ms) (sort_by_time-IsByTime ms)

occurrences-place :
    (id : String) (m : ConversationMessage) (ms : List ConversationMessage)
    → occurrences id (place m ms) ≡ occurrences id (m ∷ ms)
occurrences-place id m [] = refl
occurrences-place id m (n ∷ ns) = ground (arith, occurrences-place id m ns)

occurrences-sort_by_time :
    (id : String) (ms : List ConversationMessage)
    → occurrences id (sort_by_time ms) ≡ occurrences id ms
unfolding sort_by_time
occurrences-sort_by_time id [] = refl
occurrences-sort_by_time id (m ∷ ms) =
    occurrences-place id m (sort_by_time ms) ∙ ground (arith, occurrences-sort_by_time id ms)

-- Which entries of the thread stay.
abbrev stays : Option String → ConversationMessage → ConversationMessage → Bool
stays client_id m e =
    not (message_id e == message_id m) && not (is_text_of client_id (message_id e))

occurrences-keep :
    (id : String) (client_id : Option String) (m : ConversationMessage)
    (ms : List ConversationMessage)
    → occurrences id (keep (stays client_id m) ms ++ m ∷ [])
      ≡ (if message_id m == id then 1 else if is_text_of client_id id then 0 else occurrences id ms)
occurrences-keep id client_id m [] = ground arith
occurrences-keep id none m (e ∷ es) = ground (
  arith,
  occurrences-keep id none m es,
  eq_iff (message_id e) (message_id m),
  eq_iff (message_id e) id,
  eq_iff (message_id m) id,
)
occurrences-keep id (some c) m (e ∷ es) = ground (
  arith,
  occurrences-keep id (some c) m es,
  eq_iff (message_id e) (message_id m),
  eq_iff (message_id e) id,
  eq_iff (message_id m) id,
  eq_iff (message_id e) c,
  eq_iff id c,
)

-- The thread with a message added is in order of time; the message stands in it once, its optimistic
-- copy not at all, and every other message as often as before.
pub appended_lem :
    (client_id : Option String) (m : ConversationMessage) (existing : List ConversationMessage)
    (id : String)
    → IsByTime (appended client_id m existing)
      × (occurrences id (appended client_id m existing) ≡ (
          if message_id m == id
          then 1
          else if is_text_of client_id id
          then 0
          else occurrences id existing))
unfolding appended
appended_lem client_id m existing id = (
  sort_by_time-IsByTime (keep (stays client_id m) existing ++ m ∷ []),
  occurrences-sort_by_time id (keep (stays client_id m) existing ++ m ∷ [])
      ∙ occurrences-keep id client_id m existing,
)
