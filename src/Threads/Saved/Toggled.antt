-- ===== src/Threads/Saved/Toggled.antt =====
-- The list of saved messages under a toggle.
use mathlib.Core.Path.{subst}
use timber_chat.Prelude.{
  String, Bool, false, not, ◌||◌, ◌≡◌, sym, ap, Option, some, List, [], ◌∷◌, ◌++◌, map, keep,
  contains, ◌==◌, if◌then◌else◌, arith, eq_iff, eq_refl,
}
use timber_chat.Contacts.{SavedEntry, Self, Note, saved, Device, Archive, returned, bind-at}
use timber_chat.Threads.{get_meta, set_meta}
use timber_chat.Threads.Saved.{
  entries_of, entry_id, saved_key, toggled, toggle_saved_message, write_toggled,
}

abbrev pub is_saved : String → List SavedEntry → Bool
is_saved id es = contains id (map entry_id es)

is_saved-append :
    (id : String) (m : SavedEntry) (es : List SavedEntry)
    → is_saved id (es ++ m ∷ []) ≡ (is_saved id es || (m.id == id))
is_saved-append id m [] = ground arith
is_saved-append id m (e ∷ es) = ground (arith, is_saved-append id m es)

is_saved-keep :
    (id j : String) (es : List SavedEntry)
    → is_saved id (keep (λ e. not (e.id == j)) es) ≡ (if j == id then false else is_saved id es)
is_saved-keep id j [] = ground arith
is_saved-keep id j (e ∷ es) =
    ground (arith, is_saved-keep id j es, eq_iff e.id j, eq_iff e.id id, eq_iff j id)

is_saved-toggled :
    (id : String) (m : SavedEntry) (es : List SavedEntry)
    → is_saved id (toggled m es) ≡ (if m.id == id then not (is_saved id es) else is_saved id es)
unfolding toggled
is_saved-toggled id m es =
    ground (arith, is_saved-append id m es, is_saved-keep id m.id es, eq_iff m.id id)

module _ (V : Device) where
  get_meta-set_meta :
      (key : String) (n : Note) (a : Archive V)
      → get_meta V key (set_meta V key n a) ≡ (returned (some n), set_meta V key n a)
  unfolding get_meta set_meta
  get_meta-set_meta key n a = ground (
    arith,
    V.metas.get-put a.metas (record { id = key; contents = V.note_sealer.seal (V.nonce a.drawn) n })
        key,
    V.note_sealer.unseal-seal (V.nonce a.drawn) n,
    eq_refl key,
  )

  -- Toggling a message answers whether it is saved now; what is read back then is a list of saved
  -- messages in which this one has changed sides and every other one is as before.
  pub toggle_saved_message_lem :
      (self : Self) (m : SavedEntry) (note : Option Note) (a : Archive V) (id : String)
      → get_meta V saved_key a ≡ (returned note, a)
      → let toggle = toggle_saved_message V self m a in
        (toggle.0 ≡ returned (not (is_saved m.id (entries_of note))))
        × ((after : List SavedEntry) × (get_meta V saved_key toggle.1
              ≡ (returned (some (saved after)), toggle.1))
            × (is_saved id after ≡ (
                if m.id == id
                then not (is_saved id (entries_of note))
                else is_saved id (entries_of note))))
  unfolding toggle_saved_message
  toggle_saved_message_lem self m note a id e =
      let run = bind-at (get_meta V saved_key) (write_toggled V self m) a note a e in
      let after = toggled m (entries_of note) in
      (
        ap (λ r. r.0) run,
        (
          after,
          subst (λ (b : Archive V). get_meta V saved_key b ≡ (returned (some (saved after)), b))
              (ap (λ r. r.1) (sym run)) (get_meta-set_meta saved_key (saved after) a),
          is_saved-toggled id m (entries_of note),
        ),
      )
