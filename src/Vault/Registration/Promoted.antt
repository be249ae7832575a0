-- ===== src/Vault/Registration/Promoted.antt =====
-- The signups that several tabs begin, of registration.ts.
use timber_chat.Prelude.{
  both, ℕ, String, Bool, true, ◌&&◌, ◌≡◌, inl, inr, refl, sym, ap, ◌∙◌, none, some, List, [], ◌∷◌,
  ◌==◌, eq_iff, Bool-cases,
}
use timber_chat.Vault.{Draft, Platform, Pending, Device, done}
use timber_chat.Vault.Registration.{Signup, seal, selected, pending_registration, stage_write}

module _ (P : Platform) where
  -- Other tabs stage their drafts, one after the other.
  unfoldable pub stage_all : List (Draft × ℕ × ℕ) → Device → Device
  unfolding stage_write
  stage_all [] s = s
  stage_all ((d, key, now) ∷ rest) s = stage_all rest (stage_write P d key now s).1

  abbrev pub is_signup : Draft → Bool
  is_signup d = P.is_mnemonic d.mnemonic && P.is_draft d

  abbrev pub are_phrases : List (Draft × ℕ × ℕ) → Bool
  are_phrases [] = true
  are_phrases ((d, key, now) ∷ rest) = is_signup d && are_phrases rest

  -- A pending signup that opens, to the identity `user`.
  record IsOf (user : String) (s : Device) : Type 0 where
    p : Pending
    d : Draft
    staged : s.pending ≡ some p
    vacant : s.vault ≡ none
    opens : P.open_draft p.key p.sealed ≡ some d
    known : P.is_mnemonic d.mnemonic ≡ true
    own : P.user_id d.mnemonic ≡ user
    named : p.user_id ≡ user

  stage_write-pending :
      (d : Draft) (key now : ℕ) (s : Device)
      → s.vault ≡ none
      → (stage_write P d key now s).1
        ≡ record s { pending = some (selected P s.pending (seal P d key now)) }
  unfolding stage_write
  stage_write-pending d key now s e = rw e refl

  stage_write-IsOf :
      (user : String) (d : Draft) (key now : ℕ) (s : Device)
      → is_signup d ≡ true
      → IsOf user s
      → IsOf user (stage_write P d key now s).1
  stage_write-IsOf user d key now s phrase h =
      elim (Bool-cases (h.p.user_id == P.user_id d.mnemonic)) [
        | inl e ↦ record {
          p = record (seal P d key now) { created_at = h.p.created_at };
          d = d;
          staged =
              ap (λ t. t.pending) (stage_write-pending d key now s h.vacant)
              ∙ rw (h.staged, e) refl;
          vacant = ap (λ t. t.vault) (stage_write-pending d key now s h.vacant) ∙ h.vacant;
          opens =
              P.open_draft-seal_draft key d
                (both (P.is_mnemonic d.mnemonic) (P.is_draft d) phrase).1;
          known = (both (P.is_mnemonic d.mnemonic) (P.is_draft d) phrase).0;
          own = sym ((eq_iff h.p.user_id (P.user_id d.mnemonic)).0 e) ∙ h.named;
          named = sym ((eq_iff h.p.user_id (P.user_id d.mnemonic)).0 e) ∙ h.named;
        }
        | inr e ↦ record {
          p = h.p;
          d = h.d;
          staged =
              ap (λ t. t.pending) (stage_write-pending d key now s h.vacant)
              ∙ rw (h.staged, e) refl;
          vacant = ap (λ t. t.vault) (stage_write-pending d key now s h.vacant) ∙ h.vacant;
          opens = h.opens;
          known = h.known;
          own = h.own;
          named = h.named;
        }
      ]

  pending-IsOf :
      (user : String) (s : Device) (h : IsOf user s)
      → pending_registration P s ≡ some (done (record { draft = h.d; user_id = h.p.user_id }))
  pending-IsOf user s h =
      let own : (P.user_id h.d.mnemonic == h.p.user_id) ≡ true =
        (eq_iff (P.user_id h.d.mnemonic) h.p.user_id).1 (h.own ∙ sym h.named) in
      rw (h.staged, h.opens, h.known, own) refl

  stage_all-IsOf :
      (user : String) (rest : List (Draft × ℕ × ℕ)) (s : Device)
      → are_phrases rest ≡ true
      → IsOf user s
      → IsOf user (stage_all rest s)
  unfolding stage_all
  stage_all-IsOf user [] s phrases h = h
  stage_all-IsOf user ((d, key, now) ∷ rest) s phrases h =
      let parts : (is_signup d ≡ true) × (are_phrases rest ≡ true) =
        both (is_signup d) (are_phrases rest) phrases in
      stage_all-IsOf user rest (stage_write P d key now s).1 parts.1
        (stage_write-IsOf user d key now s parts.0 h)

  -- On a device without an account or a signup, one tab stages a draft, and others theirs after it. What
  -- is pending then opens, and its identity is that of the first draft, whoever asked for it.
  pub stage_all-first :
      (d : Draft) (key now : ℕ) (rest : List (Draft × ℕ × ℕ)) (history : Bool)
      → are_phrases ((d, key, now) ∷ rest) ≡ true
      → (g : Signup) × (pending_registration P (
            stage_all
              ((d, key, now) ∷ rest)
              (record { vault = none; pending = none; has_history = history }))
          ≡ some (done g))
        × (g.user_id ≡ P.user_id d.mnemonic)
        × (P.user_id g.draft.mnemonic ≡ P.user_id d.mnemonic)
  unfolding stage_all stage_write
  stage_all-first d key now rest history phrases =
      let parts : (is_signup d ≡ true) × (are_phrases rest ≡ true) =
        both (is_signup d) (are_phrases rest) phrases in
      let start : Device = record {
        vault = none;
        pending = some (seal P d key now);
        has_history = history;
      } in
      let h : IsOf (P.user_id d.mnemonic) (stage_all rest start) =
        stage_all-IsOf (P.user_id d.mnemonic) rest start parts.1 (record {
          p = seal P d key now;
          d = d;
          staged = refl;
          vacant = refl;
          opens =
              P.open_draft-seal_draft key d
                (both (P.is_mnemonic d.mnemonic) (P.is_draft d) parts.0).1;
          known = (both (P.is_mnemonic d.mnemonic) (P.is_draft d) parts.0).0;
          own = refl;
          named = refl;
        }) in
      (
        record { draft = h.d; user_id = h.p.user_id },
        pending-IsOf (P.user_id d.mnemonic) (stage_all rest start) h,
        h.named,
        h.own,
      )
