-- ===== src/Sync/Backfill.antt =====
-- `backfill` of frontend/src/lib/sync.js: the pages of a conversation's history, newest first, down to
-- what is here already. A fetch and the reading of a date are parameters; `none` is a fetch that throws.
pub mod Pages
mod Fetch
pub mod Steps
pub mod Complete
pub mod Outrun
use timber_chat.Prelude.{
  ℕ, zero, suc, ◌+◌, String, Bool, true, false, ◌&&◌, ◌||◌, Option, none, some, List, [], ◌∷◌,
  length, or_else, truthy, leb, ltb, if◌then◌else◌,
}
use timber_chat.Database.{SealedEnvelope, StoredMessage, Database}
use timber_chat.Store.{IncomingMessage, Store, put_message}

-- A message of the history, `created_at` as the server writes it.
pub record ServerMessage : Type 0 where
  pub id : String
  pub conversation_id : String
  pub sender_id : String
  pub created_at : ℕ
  pub envelope : SealedEnvelope
  pub delivered_at : Option ℕ
  pub read_at : Option ℕ

abbrev pub page_size : ℕ
page_size = 50

pub data Ending : Type 0 where
  finished failed exhausted : Ending

pub record Backfilled (S : Type 0) : Type 0 where
  pub stored : ℕ
  pub store : S
  pub ending : Ending

-- `local.at(-1)?.createdAt`: the newest row that the cursor meets, pending or not.
abbrev pub newest : List StoredMessage → Option ℕ
newest [] = none
newest (m ∷ ms) = some (or_else (newest ms) m.created_at)

module _ (D : Database) (to_millis : ℕ → ℕ) where
  abbrev millis_of : Option ℕ → Option ℕ
  millis_of none = none
  millis_of (some t) = some (to_millis t)

  abbrev pub incoming : ServerMessage → IncomingMessage
  incoming m = record {
    id = m.id;
    conversation_id = m.conversation_id;
    sender_id = m.sender_id;
    created_at = to_millis m.created_at;
    envelope = m.envelope;
    pending = none;
    seen = some false;
    delivered_ack = none;
    read_ack = none;
    delivered_at = millis_of m.delivered_at;
    read_at = millis_of m.read_at;
  }

  -- `since && createdAt <= since`
  abbrev pub is_known : Option ℕ → ServerMessage → Bool
  is_known since m = truthy since && leb (to_millis m.created_at) (or_else since 0)

  -- One page: whether it reached the local history, how many were stored, and the store.
  unfoldable pub store_page : Option ℕ → List ServerMessage → Store D → Bool × ℕ × Store D
  store_page since [] s = (false, 0, s)
  store_page since (m ∷ ms) s =
      let rest =
        store_page since ms (if is_known since m then s else (put_message D (incoming m) s).1) in
      (is_known since m || rest.0, (if is_known since m then rest.1 else rest.1 + 1), rest.2)

  module _ (get_history : Option ℕ → Option (List ServerMessage)) where
    -- What follows a page that was stored: the loop ends, or goes on with the older pages.
    abbrev pub after_page :
        Bool → ℕ → Backfilled (Store D) → Backfilled (Store D) → Backfilled (Store D)
    after_page ends stored here rest =
        if ends then here else record rest { stored = stored + rest.stored }

    unfoldable pub backfill_pages : ℕ → Option ℕ → Option ℕ → Store D → Backfilled (Store D)
    unfolding store_page
    backfill_pages zero since before s = record { stored = 0; store = s; ending = exhausted }
    backfill_pages (suc fuel) since before s = elim (get_history before) [
      | none ↦ record { stored = 0; store = s; ending = failed }
      | some [] ↦ record { stored = 0; store = s; ending = finished }
      | some (m ∷ ms) ↦
          let page = store_page since (m ∷ ms) s in
          let rest = backfill_pages fuel since (some m.created_at) page.2 in
          after_page (page.0 || ltb (length (m ∷ ms)) page_size) page.1
            (record { stored = page.1; store = page.2; ending = finished }) rest
    ]

    unfoldable pub backfill : ℕ → String → Store D → Backfilled (Store D)
    unfolding backfill_pages
    backfill fuel conversation_id s =
        backfill_pages fuel (newest (D.rows s.messages conversation_id)) none s
