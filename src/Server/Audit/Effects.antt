-- ===== src/Server/Audit/Effects.antt =====
-- What each operation of the store does to the active trial, on every branch.
use oven_multiskill_runtime.Common.{
  ℕ, ℤ, String, ◌≡◌, Option, none, some, Raised, Result, ok, err, faulted, os_error, file_exists,
  ◌⊎◌, arith,
}
use oven_multiskill_runtime.Server.Audit.{
  Store, ActiveTrial, WriteOutcome, RecordWrites, Row, begin, record_request, end, abort,
  mark_ambiguous,
}

-- An operation that ends the active trial, or raises and leaves it active.
abbrev pub Ends {ℓ} : {A : Type ℓ} → Store → Result A × Store → Type 0
Ends s (ok a, s') = s'.active ≡ none
Ends s (err e, s') = s'.active ≡ s.active

abbrev pub Begins : String → Store → Result ActiveTrial × Store → Type 0
Begins trial_id s (ok t, s') = (s.active ≡ none) × (s'.active ≡ some t) × (t.trial_id ≡ trial_id)
Begins trial_id s (err e, s') = s'.active ≡ s.active

-- `begin` makes the named trial active where none was, or raises and leaves the active trial.
pub begin-Begins :
    (mkdir : Option Raised) (io : WriteOutcome) (i k : String) (g : ℕ) (seed : ℤ) (s : Store)
    → Begins i s (begin mkdir io i k g seed s)
unfolding begin
begin-Begins mkdir io i k g seed s = ground arith

pub end-Ends : (io io' : WriteOutcome) (s : Store) → Ends s (end io io' s)
unfolding end
end-Ends io io' s = ground arith

pub abort-Ends : (io : WriteOutcome) (reason : String) (s : Store) → Ends s (abort io reason s)
unfolding abort
abort-Ends io reason s = ground arith

pub mark_ambiguous-Ends :
    (io : WriteOutcome) (reason : String) (n : ℕ) (s : Store)
    → Ends s (mark_ambiguous io reason n s)
unfolding mark_ambiguous
mark_ambiguous-Ends io reason n s = ground arith

abbrev pub trial_of : Option ActiveTrial → Option String
trial_of none = none
trial_of (some t) = some t.trial_id

-- A recorded request, or one whose record failed, leaves the same trial active.
pub record_request-trial :
    (io : RecordWrites) (row : Row) (s : Store)
    → trial_of (record_request io row s).1.active ≡ trial_of s.active
unfolding record_request
record_request-trial io row s = ground arith

-- A write that succeeds or raises an `OSError`, before or after the content is in place.
abbrev pub IsOsOutcome : WriteOutcome → Type 0
IsOsOutcome WriteOutcome.done = Unit
IsOsOutcome (WriteOutcome.fails_before e) = (e ≡ os_error) ⊎ (e ≡ file_exists)
IsOsOutcome (WriteOutcome.fails_after e) = (e ≡ os_error) ⊎ (e ≡ file_exists)

-- A value, or a fault.
abbrev pub IsReported {ℓ} : {A : Type ℓ} → Result A → Type 0
IsReported (ok a) = Unit
IsReported (err (faulted f)) = Unit
IsReported (err _) = ⊥

pub mark_ambiguous-IsReported :
    (io : WriteOutcome) (reason : String) (n : ℕ) (s : Store)
    → IsOsOutcome io
    → IsReported (mark_ambiguous io reason n s).0
unfolding mark_ambiguous
mark_ambiguous-IsReported io reason n s h = ground arith
