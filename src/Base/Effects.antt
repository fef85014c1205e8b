-- ===== src/Base/Effects.antt =====
-- A method of a service: it reads and writes a state, returns a value or raises a coded error, and
-- what it has committed before it raises stays.
use mathlib.Core.Bool.{Bool}
use mathlib.Core.Option.{Option, none, some}
use new_rag.Base.Tests.{if◌then◌else◌}
use new_rag.Base.Outcome.{Code, Result, ok, err}

abbrev pub Action : Type 0 → Type 0 → Type 0
Action S A = S → Result A × S

module _ {S A : Type 0} where
  abbrev pub pure : A → Action S A
  pure a s = (ok a, s)

  abbrev pub raise : Code → Action S A
  raise c s = (err c, s)

  abbrev pub gets : (S → A) → Action S A
  gets f s = (ok (f s), s)

  abbrev pub or_raise : Option A → Code → Action S A
  or_raise none c s = (err c, s)
  or_raise (some a) c s = (ok a, s)

module _ {S : Type 0} where
  abbrev pub modify : (S → S) → Action S (Unit {0})
  modify f s = (ok tt, f s)

  abbrev pub raise_if : Bool → Code → Action S (Unit {0})
  raise_if b c s = (if b then err c else ok tt, s)

infixl 5 ◌>>=◌ ◌>>◌
abbrev pub ◌>>=◌ : {S A B : Type 0} → Action S A → (A → Action S B) → Action S B
◌>>=◌ m f s = let (r, s') = m s in elim r [ ok a ↦ f a s' | err c ↦ (err c, s') ]

abbrev pub ◌>>◌ : {S A B : Type 0} → Action S A → Action S B → Action S B
m >> k = m >>= λ _. k
