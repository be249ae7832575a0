-- ===== src/Vault/Attempts.antt =====
-- The budget of guesses of vault.ts.
use timber_chat.Prelude.{
  both, ℕ, suc, ◌+◌, ◌-◌, String, Bool, true, false, ◌&&◌, ◌≡◌, inl, inr, refl, ap, ◌∙◌, Option,
  none, some, List, [], ◌∷◌, length, leb, ltb, if◌then◌else◌, Bool-cases, arith,
}
use timber_chat.Vault.{
  Platform, PinVault, pin_vault, Device, Outcome, failed, wiped, wrong_pin, locked, max_attempts,
  write_vault, wipe_device,
}
use timber_chat.Vault.Pin.{phrase_of, unlock_vault}

module _ (P : Platform) where
  -- One guess after the other.
  unfoldable pub unlock_all : List String → Device → Device
  unfolding unlock_vault
  unlock_all [] s = s
  unlock_all (pin ∷ pins) s = unlock_all pins (unlock_vault P pin s).1

  abbrev pub is_none : Option String → Bool
  is_none none = true
  is_none (some a) = false

  -- None of them is the PIN of the record.
  abbrev pub are_wrong : List String → PinVault → Bool
  are_wrong [] v = true
  are_wrong (pin ∷ pins) v = is_none (phrase_of P pin v) && are_wrong pins v

  -- A count that runs up to the budget.
  abbrev pub budget : Bool → ℕ → (ℕ → Device) → Device → Device
  budget erase n keep erased =
      if ltb n max_attempts then keep n else if erase then erased else keep max_attempts

  abbrev pub counted : PinVault → Device → ℕ → Device
  counted v s n = write_vault (pin_vault (record v { attempts = n })) s

  -- A record whose budget is spent stays; another counts up to the budget, where it is erased if the
  -- owner asked for that.
  abbrev pub after_guesses : ℕ → PinVault → Device → Device
  after_guesses k v s =
      if leb max_attempts v.attempts
      then write_vault (pin_vault v) s
      else budget v.erase_on_failure (v.attempts + k) (counted v s) (wipe_device s)

  unlock_all-wiped :
      (pins : List String) (s : Device) → unlock_all pins (wipe_device s) ≡ wipe_device s
  unfolding unlock_all unlock_vault
  unlock_all-wiped [] s = refl
  unlock_all-wiped (pin ∷ pins) s = unlock_all-wiped pins s

  -- One wrong guess, with what it leaves of a count, `keep`, and of an erased device.
  guess_step :
      (erase : Bool) (a : ℕ) (keep : ℕ → Device) (erased : Device)
      → leb max_attempts a ≡ false
      → (if leb max_attempts (suc a) && erase then erased else keep (suc a))
        ≡ budget erase (suc a) keep erased
  guess_step erase a keep erased b = elim (Bool-cases (ltb (suc a) max_attempts)) [
    | inl c ↦
        let under : leb max_attempts (suc a) ≡ false = ground (arith, b, c) in rw (c, under) refl
    | inr c ↦
        let over : leb max_attempts (suc a) ≡ true = ground (arith, b, c) in
        let ten : suc a ≡ max_attempts = ground (arith, b, c) in
        rw (c, over) (ap (λ n. if erase then erased else keep n) ten)
  ]

  are_wrong-counted :
      (pins : List String) (n : ℕ) (v : PinVault)
      → are_wrong pins (record v { attempts = n }) ≡ are_wrong pins v
  are_wrong-counted [] n v = refl
  are_wrong-counted (pin ∷ pins) n v =
      ap (λ b. is_none (phrase_of P pin v) && b) (are_wrong-counted pins n v)

  second :
      (b : Bool) (x y : Outcome String × Device) → (if b then x else y).1 ≡ (if b then x.1 else y.1)
  second true x y = refl
  second false x y = refl

  guess-wrong :
      (pin : String) (v : PinVault) (s : Device)
      → leb max_attempts v.attempts ≡ false
      → phrase_of P pin v ≡ none
      → (unlock_vault P pin (write_vault (pin_vault v) s)).1
        ≡ budget v.erase_on_failure (suc v.attempts) (counted v s) (wipe_device s)
  unfolding unlock_vault
  guess-wrong pin v s b e =
      rw (b, e)
        (second (leb max_attempts (suc v.attempts) && v.erase_on_failure)
            (failed wiped, wipe_device s)
            (
              (if leb max_attempts (suc v.attempts)
                  then failed locked
                  else failed (wrong_pin (max_attempts - suc v.attempts))),
              write_vault (pin_vault (record v { attempts = suc v.attempts })) s,
            )
          ∙ guess_step v.erase_on_failure v.attempts (counted v s) (wipe_device s) b)

  none_of : (o : Option String) → is_none o ≡ true → o ≡ none
  none_of none h = refl
  none_of (some a) h = cc

  unlock_all-locked :
      (pins : List String) (v : PinVault) (s : Device)
      → leb max_attempts v.attempts ≡ true
      → unlock_all pins (write_vault (pin_vault v) s) ≡ write_vault (pin_vault v) s
  unfolding unlock_all unlock_vault
  unlock_all-locked [] v s b = refl
  unlock_all-locked (pin ∷ pins) v s b = rw b (unlock_all-locked pins v s b)

  either :
      (b : Bool) (pins : List String) (x y : Device)
      → unlock_all pins x ≡ x
      → unlock_all pins y ≡ y
      → unlock_all pins (if b then x else y) ≡ (if b then x else y)
  either true pins x y h k = h
  either false pins x y h k = k

  -- The count went up by one, and the other guesses follow.
  within_step :
      (pins : List String) (v : PinVault) (s : Device)
      → are_wrong pins v ≡ true
      → leb max_attempts v.attempts ≡ false
      → (leb max_attempts (suc v.attempts) ≡ false
          → unlock_all pins (counted v s (suc v.attempts))
            ≡ budget v.erase_on_failure
                (suc v.attempts + length pins)
                (counted v s)
                (wipe_device s))
      → unlock_all pins (budget v.erase_on_failure (suc v.attempts) (counted v s) (wipe_device s))
        ≡ budget v.erase_on_failure (v.attempts + suc (length pins)) (counted v s) (wipe_device s)
  within_step pins v s w b more = elim (Bool-cases (ltb (suc v.attempts) max_attempts)) [
    | inl c ↦
        let next : suc v.attempts + length pins ≡ v.attempts + suc (length pins) = omega arith in
        rw c (
          more (ground (arith, c))
          ∙ ap (λ n. budget v.erase_on_failure n (counted v s) (wipe_device s)) next)
    | inr c ↦
        let over : ltb (v.attempts + suc (length pins)) max_attempts ≡ false = ground (arith, c) in
        rw (c, over)
          (either v.erase_on_failure pins (wipe_device s) (counted v s max_attempts)
            (unlock_all-wiped pins s)
            (unlock_all-locked pins (record v { attempts = max_attempts }) s refl))
  ]

  -- The guesses from a count within the budget on.
  within :
      (pins : List String) (v : PinVault) (s : Device)
      → are_wrong pins v ≡ true
      → leb max_attempts v.attempts ≡ false
      → unlock_all pins (write_vault (pin_vault v) s)
        ≡ budget v.erase_on_failure (v.attempts + length pins) (counted v s) (wipe_device s)
  unfolding unlock_all
  within [] v s w b =
      let same : v.attempts ≡ v.attempts + 0 = omega arith in
      let under : ltb v.attempts max_attempts ≡ true = ground (arith, b) in
      let start : write_vault (pin_vault v) s
          ≡ budget v.erase_on_failure v.attempts (counted v s) (wipe_device s) =
        rw under refl in
      start ∙ ap (λ n. budget v.erase_on_failure n (counted v s) (wipe_device s)) same
  within (pin ∷ pins) v s w b =
      let parts : (is_none (phrase_of P pin v) ≡ true) × (are_wrong pins v ≡ true) =
        both (is_none (phrase_of P pin v)) (are_wrong pins v) w in
      ap (unlock_all pins) (guess-wrong pin v s b (none_of (phrase_of P pin v) parts.0))
      ∙ within_step pins v s parts.1 b (
          within pins (record v { attempts = suc v.attempts }) s
            (are_wrong-counted pins (suc v.attempts) v ∙ parts.1))

  -- Wrong guesses, however many, change nothing but the count of them. The count stops at the budget of
  -- ten; there the device is erased if its owner asked for that, and otherwise all of it is kept.
  pub unlock_all-wrong :
      (pins : List String) (v : PinVault) (s : Device)
      → are_wrong pins v ≡ true
      → unlock_all pins (write_vault (pin_vault v) s) ≡ after_guesses (length pins) v s
  unlock_all-wrong pins v s w = elim (Bool-cases (leb max_attempts v.attempts)) [
    | inl b ↦ rw b (unlock_all-locked pins v s b)
    | inr b ↦ rw b (within pins v s w b)
  ]
