-- ===== src/Common/Outcome.antt =====
-- How a Python call ends, and methods that change an object: state passing with exceptions.
use mathlib.Core.Bool.{Bool, true, false}
use mathlib.Core.Option.{Option, none, some}
use oven_multiskill_runtime.Errors.{RuntimeFault}
use oven_multiskill_runtime.Common.Tests.{if◌then◌else◌}

-- `file_exists` is `FileExistsError`, `os_error` any further `OSError`, and `other` any
-- `Exception` besides; `interrupt` is `KeyboardInterrupt` or `SystemExit`, which `except Exception`
-- does not catch.
pub data Raised : Type 0 where
  faulted : RuntimeFault → Raised
  file_exists : Raised
  os_error : Raised
  other : Raised
  interrupt : Raised

pub data Result {ℓ} (A : Type ℓ) : Type ℓ where
  ok : A → Result A
  err : Raised → Result A

-- A method of an object with state `S`: what it wrote before an exception stays written.
abbrev pub Action : Type 0 → Type 0 → Type 0
Action S A = S → Result A × S

module _ {S A : Type 0} where
  abbrev pub pure : A → Action S A
  pure a s = (ok a, s)

  abbrev pub raise : Raised → Action S A
  raise e s = (err e, s)

  -- The outcome of a call of another component, which leaves this object alone.
  abbrev pub lift : Result A → Action S A
  lift r s = (r, s)

  abbrev pub gets : (S → A) → Action S A
  gets f s = (ok (f s), s)

  -- `try: m; except e: h(e)`
  abbrev pub catch : Action S A → (Raised → Action S A) → Action S A
  catch m h s = let (r, s') = m s in elim r [ ok a ↦ (ok a, s') | err e ↦ h e s' ]

infixl 5 ◌>>=◌ ◌>>◌
abbrev pub ◌>>=◌ : {S A B : Type 0} → Action S A → (A → Action S B) → Action S B
◌>>=◌ m f s = let (r, s') = m s in elim r [ ok a ↦ f a s' | err e ↦ (err e, s') ]

abbrev pub ◌>>◌ : {S A B : Type 0} → Action S A → Action S B → Action S B
m >> k = m >>= λ _. k

module _ {S : Type 0} where
  abbrev pub modify : (S → S) → Action S (Unit {0})
  modify f s = (ok tt, f s)

  abbrev pub raise_if : Bool → RuntimeFault → Action S (Unit {0})
  raise_if c e s = (if c then err (faulted e) else ok tt, s)

-- `if c: raise ValueError`, and the like.
abbrev pub raise_other_if : {S : Type 0} → Bool → Action S (Unit {0})
raise_other_if c s = (if c then err other else ok tt, s)

abbrev pub is_some {ℓ} : {A : Type ℓ} → Option A → Bool
is_some none = false
is_some (some _) = true
