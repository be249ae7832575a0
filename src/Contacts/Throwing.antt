-- ===== src/Contacts/Throwing.antt =====
-- Calls that may throw: what comes back, and the state with what was written before.
use timber_chat.Prelude.{◌≡◌, Option, none, some, arith, ap, refl, ◌⊎◌, inl, inr}

pub data Failure : Type 0 where
  unverified_key changed_key unreadable not_ready too_long bad_key relay_failed no_connection :
      Failure

pub data Outcome {ℓ} (A : Type ℓ) : Type ℓ where
  returned : A → Outcome A
  threw : Failure → Outcome A

pub Outcome-cases :
    {A : Type 0} (o : Outcome A) → ((a : A) × (o ≡ returned a)) ⊎ ((e : Failure) × (o ≡ threw e))
Outcome-cases (returned a) = inl (a, refl)
Outcome-cases (threw e) = inr (e, refl)

module _ {S : Type 0} where
  infixl 5 ◌>>=◌ ◌>>◌
  abbrev pub ◌>>=◌ :
      {A B : Type 0} → (S → Outcome A × S) → (A → S → Outcome B × S) → S → Outcome B × S
  (m >>= f) s = let (r, t) = m s in elim r [ returned a ↦ f a t | threw e ↦ (threw e, t) ]

  abbrev pub ◌>>◌ :
      {B : Type 0} → (S → Outcome (Unit {0}) × S) → (S → Outcome B × S) → S → Outcome B × S
  (m >> k) = m >>= λ _. k

  abbrev pub pure : {A : Type 0} → A → S → Outcome A × S
  pure a s = (returned a, s)

  abbrev pub throw : {A : Type 0} → Failure → S → Outcome A × S
  throw e s = (threw e, s)

  abbrev pub or_throw : {A : Type 0} → Option A → Failure → S → Outcome A × S
  or_throw none e s = (threw e, s)
  or_throw (some a) e s = (returned a, s)

module _ {S A B : Type 0} (Q : S → Type 0) where
  outcome-keeps :
      (f : A → S → Outcome B × S) (r : Outcome A) (s : S)
      → Q s
      → ((a : A) (t : S) → Q t → Q (f a t).1)
      → Q (elim r as (λ _. Outcome B × S) [ returned a ↦ f a s | threw e ↦ (threw e, s) ]).1
  outcome-keeps f (returned a) s q later = later a s q
  outcome-keeps f (threw e) s q later = q

  -- What both parts keep, the whole keeps, also where the first throws.
  pub bind-keeps :
      (m : S → Outcome A × S) (f : A → S → Outcome B × S) (s : S)
      → Q (m s).1
      → ((a : A) (t : S) → Q t → Q (f a t).1)
      → Q ((m >>= f) s).1
  bind-keeps m f s q later = outcome-keeps f (m s).0 (m s).1 q later

pub pure-eq : {S A : Type 0} (x y : A) (s t : S) → pure x s ≡ (returned y, t) → (x ≡ y) × (s ≡ t)
pure-eq x y s t h = (cc, cc)

module _ {S A B : Type 0} where
  outcome-returned :
      (f : A → S → Outcome B × S) (r : Outcome A) (s : S) (b : B) (t : S)
      → (elim r as (λ _. Outcome B × S) [ returned a ↦ f a s | threw e ↦ (threw e, s) ])
        ≡ (returned b, t)
      → (a : A) × (r ≡ returned a) × (f a s ≡ (returned b, t))
  outcome-returned f (returned a) s b t h = (a, refl, h)
  outcome-returned f (threw e) s b t h = absurd (ground arith)

  pub bind-at :
      (m : S → Outcome A × S) (f : A → S → Outcome B × S) (s : S) (a : A) (t : S)
      → m s ≡ (returned a, t)
      → (m >>= f) s ≡ f a t
  bind-at m f s a t h =
      ap
        (λ (r : Outcome A × S). elim r.0 as (λ _. Outcome B × S) [
          | returned x ↦ f x r.1
          | threw e ↦ (threw e, r.1)
        ])
        h

  pub bind-threw :
      (m : S → Outcome A × S) (f : A → S → Outcome B × S) (s : S) (e : Failure) (t : S)
      → m s ≡ (threw e, t)
      → (m >>= f) s ≡ (threw e, t)
  bind-threw m f s e t h =
      ap
        (λ (r : Outcome A × S). elim r.0 as (λ _. Outcome B × S) [
          | returned x ↦ f x r.1
          | threw e ↦ (threw e, r.1)
        ])
        h

  -- Of a whole that returns, both parts return.
  pub bind-returned :
      (m : S → Outcome A × S) (f : A → S → Outcome B × S) (s : S) (b : B) (t : S)
      → (m >>= f) s ≡ (returned b, t)
      → (a : A) × ((m s).0 ≡ returned a) × (f a (m s).1 ≡ (returned b, t))
  bind-returned m f s b t h = outcome-returned f (m s).0 (m s).1 b t h

-- What holds of a result: `P` where it returns, `E` where it throws.
abbrev pub Holds : {S A : Type 0} → (A → S → Type 0) → (S → Type 0) → Outcome A × S → Type 0
Holds P E (r, s) = elim r [ returned a ↦ P a s | threw e ↦ E s ]

-- What holds of the state either way, and a weaker promise.
pub Holds-both : {S A : Type 0} (E : S → Type 0) (o : Outcome A × S) → E o.1 → Holds (λ _. E) E o
Holds-both E (r, s) h = elim r as (λ r. Holds (λ _. E) E (r, s)) [ returned a ↦ h | threw e ↦ h ]

pub Holds-map :
    {S A : Type 0} (P Q : A → S → Type 0) (E F : S → Type 0) (o : Outcome A × S)
    → ((a : A) (s : S) → P a s → Q a s)
    → ((s : S) → E s → F s)
    → Holds P E o
    → Holds Q F o
Holds-map P Q E F (returned a, s) f g h = f a s h
Holds-map P Q E F (threw e, s) f g h = g s h

module _ {S A B : Type 0} (P : A → S → Type 0) (Q : B → S → Type 0) (E : S → Type 0) where
  outcome-Holds :
      (f : A → S → Outcome B × S) (r : Outcome A) (s : S)
      → Holds P E (r, s)
      → ((a : A) (t : S) → P a t → Holds Q E (f a t))
      → Holds Q E (elim r as (λ _. Outcome B × S) [ returned a ↦ f a s | threw e ↦ (threw e, s) ])
  outcome-Holds f (returned a) s now later = later a s now
  outcome-Holds f (threw e) s now later = now

  pub bind-Holds :
      (m : S → Outcome A × S) (f : A → S → Outcome B × S) (s : S)
      → Holds P E (m s)
      → ((a : A) (t : S) → P a t → Holds Q E (f a t))
      → Holds Q E ((m >>= f) s)
  bind-Holds m f s now later = outcome-Holds f (m s).0 (m s).1 now later
