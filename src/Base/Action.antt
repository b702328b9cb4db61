-- ===== src/Base/Action.antt =====
-- Python methods that change an object and may raise. What was written before a raise stays
-- written, so the state comes back beside the exception too.
use mathlib.Core.Bool.{Bool, true, false}

-- the classes of exception that the modelled code raises
pub data Fault : Type 0 where
  value_error crashed memory_error : Fault

pub data Result {ℓ} (A : Type ℓ) : Type ℓ where
  ok : A → Result A
  err : Fault → Result A

abbrev pub Action : Type 0 → Type 0 → Type 0
Action S A = S → Result A × S

module _ {S A : Type 0} where
  abbrev pub pure : A → Action S A
  pure a s = (ok a, s)

  abbrev pub raise : Fault → Action S A
  raise e s = (err e, s)

  abbrev pub gets : (S → A) → Action S A
  gets f s = (ok (f s), s)

module _ {S : Type 0} where
  abbrev pub modify : (S → S) → Action S (Unit {0})
  modify f s = (ok tt, f s)

  -- `if c: raise e`
  abbrev pub raise_if : Bool → Fault → Action S (Unit {0})
  raise_if true e s = (err e, s)
  raise_if false e s = (ok tt, s)

infixl 5 ◌>>=◌ ◌>>◌
abbrev pub ◌>>=◌ : {S A B : Type 0} → Action S A → (A → Action S B) → Action S B
◌>>=◌ m f s = let (r, s') = m s in elim r [ ok a ↦ f a s' | err e ↦ (err e, s') ]

abbrev pub ◌>>◌ : {S A B : Type 0} → Action S A → Action S B → Action S B
m >> k = m >>= λ _. k

-- What a call has come to: the state satisfies `P` whether it returned or raised, and the value
-- that it returned satisfies `Q`.
abbrev pub Ensures : {S A : Type 0} → (S → Type 0) → (A → Type 0) → Result A × S → Type 0
Ensures P Q (ok a, s) = P s × Q a
Ensures P Q (err _, s) = P s

module _ {S A B : Type 0} (P : S → Type 0) (Q : A → Type 0) (R : B → Type 0) where
  after_call :
      (r : Result A × S) (f : A → Action S B)
      → Ensures P Q r
      → ((a : A) (s : S) → P s → Q a → Ensures P R (f a s))
      → Ensures P R (elim r.0 as (λ _. Result B × S) [ ok a ↦ f a r.1 | err e ↦ (err e, r.1) ])
  after_call (ok a, s) f h k = k a s h.0 h.1
  after_call (err e, s) f h k = h

  pub Ensures-bind :
      (m : Action S A) (f : A → Action S B) (s : S)
      → Ensures P Q (m s)
      → ((a : A) (s' : S) → P s' → Q a → Ensures P R (f a s'))
      → Ensures P R ((m >>= f) s)
  Ensures-bind m f s = after_call (m s) f

-- What a call has come to, by what it answered: `K` of the value and the state where it returned,
-- `E` of the state where it raised.
abbrev pub Outcome : {S A : Type 0} → (S → Type 0) → (A → S → Type 0) → Result A × S → Type 0
Outcome E K (ok a, s) = K a s
Outcome E K (err _, s) = E s

module _ {S A B : Type 0} (E : S → Type 0) (J : A → S → Type 0) (K : B → S → Type 0) where
  either_way :
      (r : Result A × S) (f : A → Action S B)
      → Outcome E J r
      → ((a : A) (s : S) → J a s → Outcome E K (f a s))
      → Outcome E K (elim r.0 as (λ _. Result B × S) [ ok a ↦ f a r.1 | err e ↦ (err e, r.1) ])
  either_way (ok a, s) f h k = k a s h
  either_way (err e, s) f h k = h

  pub Outcome-bind :
      (m : Action S A) (f : A → Action S B) (s : S)
      → Outcome E J (m s)
      → ((a : A) (s' : S) → J a s' → Outcome E K (f a s'))
      → Outcome E K ((m >>= f) s)
  Outcome-bind m f s = either_way (m s) f
