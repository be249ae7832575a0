-- ===== src/Sync/Tests.antt =====
-- Synchronising at concrete stores and histories.
use timber_chat.Prelude.{
  ℕ, ◌<◌, String, Bool, true, false, not, ◌||◌, ◌≡◌, refl, Option, none, some, List, [], ◌∷◌,
  contains, lookup, remove, arith, All,
}
use timber_chat.Database.{StoredMessage, SealedEnvelope}
use timber_chat.Database.InMemory.{database}
use timber_chat.Store.{Store, read_ack, unread_count, unread_acked_message_ids}
use timber_chat.ChatStore.{Shapes, ChatStore}
use timber_chat.Sync.Backfill.{ServerMessage, finished, newest, incoming, is_known, backfill}
use timber_chat.Sync.Backfill.Pages.{page_before}
use timber_chat.Sync.Backfill.Steps.{is_held, count_new}
use timber_chat.Sync.Backfill.Complete.{backfill_lem}
use timber_chat.Sync.Backfill.Outrun.{backfill-newest}
use timber_chat.Sync.Sweep.{sweep_limit, acknowledge_read, mark_conversation_read}
use timber_chat.Sync.Sweep.Once.{acknowledge_read-perform_all}
use timber_chat.Store.Progress.{Operation, put, acknowledge, perform_all}
use timber_chat.Sync.Sweep.Opened.{mark_conversation_read_lem}
use timber_chat.Sync.Latch.{idle, requested, pass_done, released, on_events, on_events-served}

abbrev sealed : SealedEnvelope
sealed = record { envelope_version = 2; nonce = "n"; ciphertext = "x" }

abbrev row : String → String → ℕ → Bool → StoredMessage
row id sender at pending = record {
  id = id;
  conversation_id = "c";
  sender_id = sender;
  created_at = at;
  envelope = sealed;
  pending = pending;
  seen = true;
  delivered_ack = false;
  read_ack = false;
  delivered_at = none;
  read_at = none;
}

abbrev held : Store database
held = record { messages = row "m1" "bob" 5 false ∷ []; conversations = []; deferred = [] }

-- The clock of the relay ticks in microseconds.
abbrev to_millis : ℕ → ℕ
to_millis t = t

abbrev server : String → ℕ → ServerMessage
server id at = record {
  id = id;
  conversation_id = "c";
  sender_id = "bob";
  created_at = at;
  envelope = sealed;
  delivered_at = none;
  read_at = none;
}

abbrev history : List ServerMessage
history = server "m1" 5 ∷ server "m2" 8 ∷ server "m3" 9 ∷ []

abbrev get_history : Option ℕ → Option (List ServerMessage)
get_history before = some (page_before history before)

tests :
    ((backfill database to_millis get_history 4 "c" held).stored ≡ 2)
    × ((backfill database to_millis get_history 4 "c" held).ending ≡ finished)
unfolding backfill lookup remove
tests = (refl, refl)

-- A device that holds nothing of the conversation.
abbrev fresh : Store database
fresh = record { messages = []; conversations = []; deferred = [] }

tests_fresh : (backfill database to_millis get_history 4 "c" fresh).stored ≡ 3
unfolding backfill lookup remove
tests_fresh = refl

backfill_lem_example :
    let since = newest (database.rows held.messages "c") in
    let after = backfill database to_millis get_history 4 "c" held in
    (after.ending ≡ finished)
    × (after.stored ≡ count_new database to_millis since history)
    × All
        (λ m.
          (is_known database to_millis since m || is_held database to_millis m.id after.store)
          ≡ true)
        history
    × ((not (is_held database to_millis "m1" held) || is_held database to_millis "m1" after.store)
        ≡ true)
backfill_lem_example =
    backfill_lem database to_millis get_history history "c" held 4 "m1" (λ a b le. le)
      ((omega arith, (omega arith, tt)), ((omega arith, tt), (tt, tt))) (λ before. refl)
      (omega arith)

-- A message that was written offline, and two of the peer's that came before it by the clocks.
abbrev offline : Store database
offline = record { messages = row "pending-1" "ann" 9 true ∷ []; conversations = []; deferred = [] }

backfill-newest_example :
    backfill database to_millis get_history 4 "c" offline
    ≡ record { stored = 0; store = offline; ending = finished }
backfill-newest_example =
    backfill-newest database to_millis get_history history offline 3 (row "pending-1" "ann" 9 true)
      refl (omega arith) (omega arith, (omega arith, (omega arith, tt))) refl

-- The socket is closed, and the request gets through.
abbrev closed : String → String → List String → Bool
closed event c ids = false

abbrev posted : String → List String → Bool
posted c ids = true

-- The message is stored again, and another sweep runs.
abbrev later : List Operation
later = put (incoming database to_millis (server "m1" 5)) ∷ acknowledge ("m1" ∷ []) read_ack ∷ []

acknowledge_read-perform_all_example :
    let ids = unread_acked_message_ids database "c" "ann" sweep_limit held in
    let told = closed "receipt.read" "c" ids || posted "c" ids in
    let after = (acknowledge_read database closed posted "c" "ann" held).1 in
    (contains "m1" (unread_acked_message_ids database "c" "ann" sweep_limit after) ≡ not told)
    × ((not told
          || not (
              contains "m1" (
                unread_acked_message_ids database "c" "ann" sweep_limit
                  (perform_all database later after))))
        ≡ true)
acknowledge_read-perform_all_example =
    acknowledge_read-perform_all database closed posted "c" "ann" "m1" later held
      (unfold unread_acked_message_ids in refl) (refl, (tt, tt))

abbrev shapes : Shapes
shapes = record { User = ℕ; Ladder = ℕ; Friend = ℕ; Request = ℕ; Streak = ℕ; LevelUp = ℕ }

abbrev view : ChatStore shapes
view = record {
  me = some 1;
  ladder = none;
  conversations = [];
  messages = [];
  unread = ("c", 1) ∷ [];
  active_conversation_id = none;
  friends = [];
  pending_received = [];
  pending_sent = [];
  typing = [];
  online_users = [];
  level_up = none;
  streaks = [];
  syncing = false;
  call_active = false;
}

mark_conversation_read_lem_example :
    (unread_count database "c" "ann"
        (mark_conversation_read database closed posted shapes "c" "ann" held view).1
      ≡ 0)
    × (lookup "c"
          (mark_conversation_read database closed posted shapes "c" "ann" held view).2.unread
        ≡ some 0)
mark_conversation_read_lem_example =
    mark_conversation_read_lem database closed posted shapes "c" "ann" held view

on_events-served_example :
    (on_events (requested ∷ []) idle).started
    < (on_events (requested ∷ requested ∷ pass_done ∷ pass_done ∷ released ∷ []) idle).started
unfolding on_events
on_events-served_example =
    on_events-served (requested ∷ []) (pass_done ∷ pass_done ∷ released ∷ []) refl refl refl
