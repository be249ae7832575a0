-- ===== src/Vault/Recovery.antt =====
-- A forgotten PIN, of vault.ts.
use timber_chat.Prelude.{
  ℕ, String, true, false, ◌≡◌, refl, ap, ◌∙◌, Option, some, or_else, List, length, arith,
}
use timber_chat.Vault.{
  Identity, Platform, PinVault, pin_vault, Device, done, max_attempts, attempts_remaining,
  vault_identity, write_vault,
}
use timber_chat.Vault.Pin.{
  is_valid_pin, create_vault, unlock_vault, reset_pin_with_phrase, is_stranger, unnamed,
}
use timber_chat.Vault.Attempts.{unlock_all, are_wrong, after_guesses, unlock_all-wrong}

module _ (P : Platform) where
  -- A vault that was just written opens with its PIN, to its phrase, and opening it changes nothing.
  pub unlock_vault-create_vault :
      (phrase pin : String) (identity : Option Identity) (salt nonce : String) (now : ℕ)
      (s : Device)
      → is_valid_pin P pin ≡ true
      → P.is_mnemonic phrase ≡ true
      → unlock_vault P pin (create_vault P phrase pin identity salt nonce now s).1
        ≡ (done phrase, (create_vault P phrase pin identity salt nonce now s).1)
  unfolding unlock_vault create_vault
  unlock_vault-create_vault phrase pin identity salt nonce now s valid known =
      rw
        (
          valid,
          P.decrypt-encrypt (P.wrap pin salt (record { n = 65_536; r = 8; p = 1 })) nonce phrase
              known,
        )
        refl

  -- What wrong guesses leave of a device that is not set to erase.
  guessed-identity :
      (k : ℕ) (v : PinVault) (s : Device)
      → v.erase_on_failure ≡ false
      → (vault_identity (after_guesses P k v s) ≡ v.identity)
        × ((after_guesses P k v s).has_history ≡ s.has_history)
  guessed-identity k v s e = ground (arith, e)

  reset_lem :
      (phrase next salt nonce : String) (now : ℕ) (d : Device)
      → is_stranger P (P.user_id phrase) (vault_identity d) ≡ false
      → is_valid_pin P next ≡ true
      → P.is_mnemonic phrase ≡ true
      → (unlock_vault P next (reset_pin_with_phrase P phrase next salt nonce now d).1
          ≡ (done phrase, (reset_pin_with_phrase P phrase next salt nonce now d).1))
        × ((reset_pin_with_phrase P phrase next salt nonce now d).1.has_history ≡ d.has_history)
        × (attempts_remaining (reset_pin_with_phrase P phrase next salt nonce now d).1
            ≡ max_attempts)
  unfolding reset_pin_with_phrase create_vault
  reset_lem phrase next salt nonce now d own valid known =
      let identity : Option Identity =
        some (or_else (vault_identity d) (unnamed P (P.user_id phrase))) in
      rw own (
        unlock_vault-create_vault phrase next identity salt nonce now d valid known,
        rw valid refl,
        rw valid refl,
      )

  -- However often the PIN was guessed wrong on a device that is not set to erase, the phrase of its
  -- account sets a new one: with the new PIN the vault opens to the phrase, the history is still there and
  -- the budget of guesses is whole again.
  pub reset_pin_with_phrase-unlock_all :
      (pins : List String) (v : PinVault) (phrase next salt nonce : String) (now : ℕ) (s : Device)
      → are_wrong P pins v ≡ true
      → v.erase_on_failure ≡ false
      → is_stranger P (P.user_id phrase) v.identity ≡ false
      → is_valid_pin P next ≡ true
      → P.is_mnemonic phrase ≡ true
      → let reset : Device =
          (reset_pin_with_phrase P phrase next salt nonce now
            (unlock_all P pins (write_vault (pin_vault v) s))).1 in
        (unlock_vault P next reset ≡ (done phrase, reset))
        × (reset.has_history ≡ s.has_history)
        × (attempts_remaining reset ≡ max_attempts)
  reset_pin_with_phrase-unlock_all pins v phrase next salt nonce now s wrong keeps own valid known =
      let d : Device = after_guesses P (length pins) v s in
      let kept : (vault_identity d ≡ v.identity) × (d.has_history ≡ s.has_history) =
        guessed-identity (length pins) v s keeps in
      let all : (unlock_vault P next (reset_pin_with_phrase P phrase next salt nonce now d).1
            ≡ (done phrase, (reset_pin_with_phrase P phrase next salt nonce now d).1))
          × ((reset_pin_with_phrase P phrase next salt nonce now d).1.has_history ≡ d.has_history)
          × (attempts_remaining (reset_pin_with_phrase P phrase next salt nonce now d).1
              ≡ max_attempts) =
        reset_lem phrase next salt nonce now d (ap (is_stranger P (P.user_id phrase)) kept.0 ∙ own)
          valid known in
      rw (unlock_all-wrong P pins v s wrong) (all.0, all.1 ∙ kept.1, all.2)
