-- ===== src/Service.antt =====
-- How a method of a service of apps/api/src is written: it reads and writes the repositories, and
-- returns a value or throws. What was written before a throw stays written.
use neo_lloyds.Prelude.{Option, none, some}
use neo_lloyds.Errors.{Result, ok, err, DomainError}

abbrev pub Action : Type 0 → Type 0 → Type 0
Action S A = S → Result A × S

module _ {S A B : Type 0} where
  infixl 5 ◌>>=◌
  abbrev pub ◌>>=◌ : Action S A → (A → Action S B) → Action S B
  ◌>>=◌ m f s = let (r, s') = m s in elim r [ ok a ↦ f a s' | err e ↦ (err e, s') ]

module _ {S A : Type 0} where
  infixl 5 ◌>>◌
  abbrev pub ◌>>◌ : Action S (Unit {0}) → Action S A → Action S A
  m >> k = m >>= λ _. k

  abbrev pub pure : A → Action S A
  pure a s = (ok a, s)

  -- A call of the domain package.
  abbrev pub call : Result A → Action S A
  call r s = (r, s)

  abbrev pub gets : (S → A) → Action S A
  gets f s = (ok (f s), s)

  abbrev pub or_throw : Option A → DomainError → Action S A
  or_throw none e s = (err e, s)
  or_throw (some a) e s = (ok a, s)

module _ {S : Type 0} where
  abbrev pub modify : (S → S) → Action S (Unit {0})
  modify f s = (ok tt, f s)
