-- ===== src/Vault/Transfer/Moved.antt =====
-- What arrives of a transfer of vault.ts.
use timber_chat.Prelude.{
  ℕ, String, Bool, true, false, ◌&&◌, ◌||◌, ◌≡◌, refl, Option, none, some, leb, eqb, arith,
}
use timber_chat.Vault.{Cost, Identity, Platform, PinVault, Device}
use timber_chat.Vault.Transfer.{
  packed, cost_field, identity_field, text_of, number_of, truth_of, as_text, as_number, as_truth,
  scrypt_cost_of, is_fair, vault_identity_of, cost_or_none, identity_or_none, is_sealed,
  transfer_vault, Codec, printed, without_prefix, filled, safe_or,
}

-- The record as it arrives at a time.
abbrev pub arrived : ℕ → PinVault → PinVault
arrived now v = record v {
  owner_id = filled v.owner_id;
  created_at = safe_or now (some v.created_at);
  attempts = 0;
  erase_on_failure = false;
}

-- A device that holds neither an account nor an unfinished signup.
abbrev pub vacant : Bool → Device
vacant has_history = record { vault = none; pending = none; has_history = has_history }

module _ (P : Platform) where
  is_fair_cost : Option Cost → Bool
  is_fair_cost none = true
  is_fair_cost (some c) = is_fair c.n c.r c.p

  is_short : Option Identity → Bool
  is_short none = true
  is_short (some i) = leb (P.size i.user_id) 64 && leb (P.size i.username) 64

  -- A record that the other device takes: its version is supported, its cost is fair, its names are
  -- short, and its texts have the lengths that were written.
  unfoldable pub is_movable : PinVault → Bool
  unfolding is_fair_cost is_short
  is_movable v =
      (eqb v.version 2 || eqb v.version 3)
      && (is_sealed P v.salt v.nonce v.ciphertext && (is_fair_cost v.kdf && is_short v.identity))

  cost_or_none-cost_field :
      (c : Option Cost) → is_fair_cost c ≡ true → cost_or_none P (cost_field c) ≡ some c
  unfolding is_fair_cost
  cost_or_none-cost_field none h = refl
  cost_or_none-cost_field (some c) h = rw (cost_or_none, scrypt_cost_of, h) refl

  as_text-text_of : (t : Option String) → as_text (text_of t) ≡ t
  as_text-text_of none = refl
  as_text-text_of (some t) = refl

  filled-filled : (t : Option String) → filled (filled t) ≡ filled t
  filled-filled none = refl
  filled-filled (some t) = ground arith

  as_number-number_of : (n : Option ℕ) → as_number (number_of n) ≡ n
  as_number-number_of none = refl
  as_number-number_of (some n) = refl

  as_truth-truth_of : (b : Option Bool) → as_truth (truth_of b) ≡ b
  as_truth-truth_of none = refl
  as_truth-truth_of (some b) = refl

  identity_or_none-identity_field :
      (i : Option Identity) → is_short i ≡ true → identity_or_none P (identity_field i) ≡ some i
  unfolding is_short
  identity_or_none-identity_field none h = refl
  identity_or_none-identity_field (some i) h =
      rw
        (
          identity_or_none,
          vault_identity_of,
          h,
          as_text-text_of i.avatar_url,
          as_number-number_of i.level,
          as_text-text_of i.level_name,
        )
        refl

  four :
      (a b c d : Bool)
      → (a && (b && (c && d))) ≡ true
      → (a ≡ true) × (b ≡ true) × (c ≡ true) × (d ≡ true)
  four a b c d h = ground arith

  -- The checks on a package take what was packed, as it was.
  pub transfer_vault-packed :
      (now : ℕ) (v : PinVault)
      → is_movable v ≡ true
      → transfer_vault P now (packed v) ≡ some (arrived now v)
  unfolding transfer_vault is_movable
  transfer_vault-packed now v h =
      let parts : ((eqb v.version 2 || eqb v.version 3) ≡ true)
          × (is_sealed P v.salt v.nonce v.ciphertext ≡ true)
          × (is_fair_cost v.kdf ≡ true)
          × (is_short v.identity ≡ true) =
        four (eqb v.version 2 || eqb v.version 3) (is_sealed P v.salt v.nonce v.ciphertext)
          (is_fair_cost v.kdf) (is_short v.identity) h in
      rw
        (
          parts.0,
          parts.1,
          cost_or_none-cost_field v.kdf parts.2,
          identity_or_none-identity_field v.identity parts.3,
          as_text-text_of (filled v.owner_id),
          filled-filled v.owner_id,
          as_truth-truth_of v.is_anonymous,
        )
        refl

  module _ (C : Codec) where
    -- JSON and base64 give the package of the record back, and the text begins with what is taken off.
    abbrev pub IsReadable : PinVault → Type 0
    IsReadable v =
        let json = C.stringify (packed v) in
        (C.trim (printed C v) ≡ printed C v)
        × (without_prefix (printed C v) ≡ C.encode json)
        × (C.decode (C.encode json) ≡ some json)
        × (C.parse json ≡ some (packed v))
