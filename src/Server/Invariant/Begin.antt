-- ===== src/Server/Invariant/Begin.antt =====
-- The two regions of `begin_trial` keep the invariant.
use oven_multiskill_runtime.Common.{
  String, ℤ, ◌≡◌, false, Option, Raised, Result, ok, err, faulted, other, file_exists, os_error,
  interrupt, arith, ◌⊎◌, inl, inr, refl,
}
use oven_multiskill_runtime.Server.Audit.{WriteOutcome}
use oven_multiskill_runtime.Server.Runtime.{PolicyRuntime, StatusReport}
use oven_multiskill_runtime.Server.Trial.{begin_trial}
use oven_multiskill_runtime.Server.System.{
  System, LockHolder, entered, recorded, leaving, loading, begin_failing, is_free, after_begin,
}
use oven_multiskill_runtime.Server.Invariant.{IsValid, Calm, Calm-IsValid}

-- The runtime after the first region of `begin_trial`.
pub after_begin_runtime :
    (p : Result StatusReport × PolicyRuntime) (s : System) → (after_begin p s).runtime ≡ p.1
after_begin_runtime (ok a, r) s = refl
after_begin_runtime (err (faulted f), r) s = refl
after_begin_runtime (err interrupt, r) s = refl
after_begin_runtime (err file_exists, r) s = refl
after_begin_runtime (err os_error, r) s = refl
after_begin_runtime (err other, r) s = refl

-- Without the execution lock, `begin_trial` ends in a fault.
abbrev IsFault : Result StatusReport → Type 0
IsFault (err (faulted f)) = Unit
IsFault _ = ⊥

abbrev IsHeld : LockHolder → Result StatusReport → Type 0
IsHeld l a = (l ≡ LockHolder.free) ⊎ IsFault a

unheld :
    (prng : Result (Unit {0})) (mkdir : Option Raised) (io : WriteOutcome) (i : String) (seed : ℤ)
    (r : PolicyRuntime)
    → IsFault (begin_trial false prng mkdir io i seed r).0
unfolding begin_trial
unheld prng mkdir io i seed r = ground arith

pub begin_trial-IsHeld :
    (s : System) (prng : Result (Unit {0})) (mkdir : Option Raised) (io : WriteOutcome) (i : String)
    (seed : ℤ)
    → IsHeld s.lock (begin_trial (is_free s.lock) prng mkdir io i seed s.runtime).0
begin_trial-IsHeld s prng mkdir io i seed = go s.lock
  where
    go : (l : LockHolder) → IsHeld l (begin_trial (is_free l) prng mkdir io i seed s.runtime).0
    go LockHolder.free = inl refl
    go (entered ident q) = inr (unheld prng mkdir io i seed s.runtime)
    go (recorded ident q e) = inr (unheld prng mkdir io i seed s.runtime)
    go leaving = inr (unheld prng mkdir io i seed s.runtime)
    go (loading skill) = inr (unheld prng mkdir io i seed s.runtime)
    go begin_failing = inr (unheld prng mkdir io i seed s.runtime)

pub after_begin-IsValid :
    (s : System)
    → IsValid s
    → (p : Result StatusReport × PolicyRuntime) → Calm s.runtime p.1
    → IsHeld s.lock p.0
    → IsValid (after_begin p s)
after_begin-IsValid s v (ok a, r) c h = Calm-IsValid s r v c
after_begin-IsValid s v (err (faulted f), r) c h = Calm-IsValid s r v c
after_begin-IsValid s v (err interrupt, r) c h = Calm-IsValid s r v c
after_begin-IsValid s v (err file_exists, r) c h = ground arith
after_begin-IsValid s v (err os_error, r) c h = ground arith
after_begin-IsValid s v (err other, r) c h = ground arith
