-- ===== src/Contacts/Columns.antt =====
-- Values as lines of columns, and lines as texts: what is sealed without a secret.
use Prim.Native.Char.{Char, code}
use Prim.Native.String.{[] as empty, ◌∷◌ as prefix}
use timber_chat.Prelude.{
  ℕ, zero, suc, String, Bool, true, false, ◌≡◌, refl, ap, ◌∙◌, Option, none, some, List, [], ◌∷◌,
  eqb,
}
use timber_chat.Contacts.{PeerProfile, Conversation, SavedEntry, Note, since, saved, Sealer}

abbrev Line : Type 0
Line = List (Option String)

-- A character of a text comes after an `x`, a text ends with a full stop, and a dash is an absent column.
abbrev pub pack_text : String → String → String
pack_text empty rest = prefix "." rest
pack_text (prefix c s) rest = prefix "x" (prefix c (pack_text s rest))

abbrev pub pack : Line → String
pack [] = ""
pack (none ∷ l) = prefix "-" (pack l)
pack (some s ∷ l) = pack_text s (pack l)

abbrev push : Char → Line → Line
push c [] = []
push c (none ∷ l) = none ∷ l
push c (some s ∷ l) = some (prefix c s) ∷ l

abbrev pub unpack : (escaped : Bool) → String → Line
unpack escaped empty = []
unpack true (prefix c s) = push c (unpack false s)
unpack false (prefix c s) = elim (eqb (code c) 45) as (λ _. Line) [
  | true ↦ none ∷ unpack false s
  | false ↦ elim (eqb (code c) 46) as (λ _. Line) [
    | true ↦ some "" ∷ unpack false s
    | false ↦ unpack true s
  ]
]

unpack-pack_text : (s rest : String) → unpack false (pack_text s rest) ≡ some s ∷ unpack false rest
unpack-pack_text empty rest = refl
unpack-pack_text (prefix c s) rest = ap (push c) (unpack-pack_text s rest)

pub unpack-pack : (l : Line) → unpack false (pack l) ≡ l
unpack-pack [] = refl
unpack-pack (none ∷ l) = ap (λ r. none ∷ r) (unpack-pack l)
unpack-pack (some s ∷ l) = unpack-pack_text s (pack l) ∙ ap (λ r. some s ∷ r) (unpack-pack l)

abbrev unary : ℕ → String
unary zero = ""
unary (suc n) = prefix "I" (unary n)

abbrev tally : String → ℕ
tally empty = 0
tally (prefix c s) = suc (tally s)

tally-unary : (n : ℕ) → tally (unary n) ≡ n
tally-unary zero = refl
tally-unary (suc n) = ap suc (tally-unary n)

abbrev number : Option ℕ → Option String
number none = none
number (some n) = some (unary n)

abbrev counted : Option String → Option ℕ
counted none = none
counted (some s) = some (tally s)

pub counted-number : (o : Option ℕ) → counted (number o) ≡ o
counted-number none = refl
counted-number (some n) = ap some (tally-unary n)

abbrev peer_line : PeerProfile → Line
peer_line p =
    some p.id
    ∷ some p.username
    ∷ number p.level
    ∷ p.level_name
    ∷ some p.identity_pk
    ∷ some p.kex_pk
    ∷ some p.kex_key_signature
    ∷ []

abbrev line_peer : Line → Option PeerProfile
line_peer (some i ∷ some u ∷ l ∷ n ∷ some k ∷ some x ∷ some s ∷ []) = some (record {
  id = i;
  username = u;
  level = counted l;
  level_name = n;
  identity_pk = k;
  kex_pk = x;
  kex_key_signature = s;
})
line_peer _ = none

abbrev conversation_line : Conversation → Line
conversation_line c =
    some c.id
    ∷ c.peer_id
    ∷ c.peer_username
    ∷ number c.peer_level
    ∷ c.peer_level_name
    ∷ number c.created_at
    ∷ number c.updated_at
    ∷ c.security_error
    ∷ c.draft
    ∷ []

abbrev line_conversation : Line → Option Conversation
line_conversation (some i ∷ p ∷ u ∷ l ∷ n ∷ a ∷ t ∷ e ∷ d ∷ []) = some (record {
  id = i;
  peer_id = p;
  peer_username = u;
  peer_level = counted l;
  peer_level_name = n;
  created_at = counted a;
  updated_at = counted t;
  security_error = e;
  draft = d;
})
line_conversation _ = none

abbrev entries_line : List SavedEntry → Line
entries_line [] = []
entries_line (e ∷ es) = some e.id ∷ some e.conversation_id ∷ entries_line es

abbrev line_entries : Line → List SavedEntry
line_entries (some i ∷ some c ∷ l) = record { id = i; conversation_id = c } ∷ line_entries l
line_entries _ = []

line_entries-entries_line : (es : List SavedEntry) → line_entries (entries_line es) ≡ es
line_entries-entries_line [] = refl
line_entries-entries_line (e ∷ es) = ap (λ r. e ∷ r) (line_entries-entries_line es)

abbrev note_line : Note → Line
note_line (since at) = none ∷ number (some at) ∷ []
note_line (saved es) = some "" ∷ entries_line es

abbrev line_note : Line → Option Note
line_note (none ∷ some s ∷ []) = some (since (tally s))
line_note (some t ∷ l) = some (saved (line_entries l))
line_note _ = none

pub line_note-note_line : (n : Note) → line_note (note_line n) ≡ some n
line_note-note_line (since at) = ap (λ t. some (since t)) (tally-unary at)
line_note-note_line (saved es) = ap (λ l. some (saved l)) (line_entries-entries_line es)

-- Sealing that keeps no secret, by a line of columns.
abbrev sealer_of :
    {A : Type 0} (to_line : A → Line) (of_line : Line → Option A)
    → ((a : A) → of_line (to_line a) ≡ some a)
    → Sealer A
sealer_of to_line of_line back = record {
  seal = λ n a. record { n = n; c = pack (to_line a) };
  unseal = λ s. of_line (unpack false s.c);
  unseal-seal = λ n a. ap of_line (unpack-pack (to_line a)) ∙ back a;
}

abbrev pub peer_sealer : Sealer PeerProfile
peer_sealer = sealer_of peer_line line_peer λ p. rw (counted-number p.level) refl

abbrev pub conversation_sealer : Sealer Conversation
conversation_sealer = sealer_of conversation_line line_conversation λ c.
    rw (counted-number c.peer_level, counted-number c.created_at, counted-number c.updated_at) refl

abbrev pub note_sealer : Sealer Note
note_sealer = sealer_of note_line line_note line_note-note_line
