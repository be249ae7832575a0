-- ===== src/Threads/Tests.antt =====
-- Saving a message on a device in memory.
use timber_chat.Prelude.{◌≡◌, refl, none, some, List, [], true}
use timber_chat.Contacts.{Archive, Self, SavedEntry, saved, returned}
use timber_chat.Contacts.InMemory.{device}
use timber_chat.Threads.{get_meta}
use timber_chat.Threads.Saved.{saved_key, toggle_saved_message}
use timber_chat.Threads.Saved.Toggled.{is_saved, toggle_saved_message_lem}

abbrev empty : Archive device
empty = record {
  store = record { messages = []; conversations = []; deferred = [] };
  peers = [];
  metas = [];
  keys = [];
  drawn = 0;
}

abbrev ann : Self
ann = record { user_id = "ann"; kex_sk = "s" }

abbrev starred : SavedEntry
starred = record { id = "m1"; conversation_id = "c" }

toggle_saved_message_lem_example :
    let toggle = toggle_saved_message device ann starred empty in
    (toggle.0 ≡ returned true)
    × ((after : List SavedEntry) × (get_meta device saved_key toggle.1
          ≡ (returned (some (saved after)), toggle.1))
        × (is_saved "m1" after ≡ true))
unfolding get_meta
toggle_saved_message_lem_example = toggle_saved_message_lem device ann starred none empty "m1" refl
