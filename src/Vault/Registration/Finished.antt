-- ===== src/Vault/Registration/Finished.antt =====
-- The end of a signup, of registration.ts.
use timber_chat.Prelude.{ℕ, Bool, true, ◌≡◌, refl, none, some, ◌==◌}
use timber_chat.Vault.{Platform, Pending, Device, done, device_vault}
use timber_chat.Vault.Pin.{make_device_vault_record, open_device_vault}
use timber_chat.Vault.Registration.{Signup, Account, is_account, finish_registration}

module _ (P : Platform) where
  -- The device while the signup is pending.
  abbrev pub waiting : Pending → Bool → Device
  waiting p history = record { vault = none; pending = some p; has_history = history }

  -- The device with the account.
  abbrev pub active : Signup → Account → (key now : ℕ) → Bool → Device
  active g a key now history = record {
    vault = some (
        device_vault (
          make_device_vault_record P g.draft.mnemonic
            (some (record {
              user_id = a.user_id;
              username = a.username;
              avatar_url = none;
              level = none;
              level_name = none;
            }))
            (some a.is_anonymous) key now));
    pending = none;
    has_history = history;
  }

  finished :
      (g : Signup) (a : Account) (p : Pending) (key now : ℕ) (history : Bool)
      → is_account P g a ≡ true
      → (p.user_id == g.user_id) ≡ true
      → finish_registration P g a key now (waiting p history)
        ≡ (done tt, active g a key now history)
  unfolding finish_registration
  finished g a p key now history answered pending = rw (answered, pending) refl

  finished_again :
      (g : Signup) (a : Account) (key now again later : ℕ) (history : Bool)
      → is_account P g a ≡ true
      → (P.user_id g.draft.mnemonic == g.user_id) ≡ true
      → finish_registration P g a again later (active g a key now history)
        ≡ (done tt, active g a key now history)
  unfolding finish_registration
  finished_again g a key now again later history answered own = rw (answered, own) refl

  -- The relay answered for the signup that is pending. The account opens to the phrase of the signup,
  -- nothing is pending any more, and if the answer is taken a second time nothing changes.
  pub finish_registration_lem :
      (g : Signup) (a : Account) (p : Pending) (key now again later : ℕ) (history : Bool)
      → is_account P g a ≡ true
      → (p.user_id == g.user_id) ≡ true
      → (P.user_id g.draft.mnemonic == g.user_id) ≡ true
      → P.is_mnemonic g.draft.mnemonic ≡ true
      → ((finish_registration P g a key now (waiting p history)).0 ≡ done tt)
        × (open_device_vault P (finish_registration P g a key now (waiting p history)).1
            ≡ done g.draft.mnemonic)
        × ((finish_registration P g a key now (waiting p history)).1.pending ≡ none)
        × (finish_registration P g a again later
              (finish_registration P g a key now (waiting p history)).1
            ≡ (done tt, (finish_registration P g a key now (waiting p history)).1))
  finish_registration_lem g a p key now again later history answered pending own known =
      rw (finished g a p key now history answered pending) (
        refl,
        rw (P.device_decrypt-device_encrypt key g.draft.mnemonic known) refl,
        refl,
        finished_again g a key now again later history answered own,
      )
