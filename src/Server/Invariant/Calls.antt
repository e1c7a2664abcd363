-- ===== src/Server/Invariant/Calls.antt =====
-- Every call of one region is calm.
use oven_multiskill_runtime.Common.{
  ℕ, String, ℤ, Bool, ◌≡◌, true, Option, Raised, Result, ok, err, faulted, other, file_exists,
  os_error, interrupt, raise_if, not, ◌>>◌, arith, ◌⊎◌, inl, inr, refl,
}
use oven_multiskill_runtime.Errors.{
  ErrorCode, RuntimeFault, fault, inference_busy, invalid_field_value,
}
use oven_multiskill_runtime.Protocol.{is_trial_id}
use oven_multiskill_runtime.Server.Audit
use oven_multiskill_runtime.Server.Audit.{WriteOutcome, Store}
use oven_multiskill_runtime.Server.Audit.Effects.{
  begin-Begins, end-Ends, abort-Ends, mark_ambiguous-Ends, IsOsOutcome, mark_ambiguous-IsReported,
}
use oven_multiskill_runtime.Server.Runtime.{PolicyRuntime, fail_locked, status}
use oven_multiskill_runtime.Server.Session.{open_session, close_session}
use oven_multiskill_runtime.Server.Trial.{
  begin_trial, begin_trial_locked, begin_trial_failed, end_trial, abort, mark_transport_ambiguous,
  close,
}
use oven_multiskill_runtime.Server.Invariant.{IsBound, Calm, IsCalm, guard-IsCalm}

-- A result is a value, a fault, or an exception besides.
pub Result-cases :
    {A : Type 0} (r : Result A)
    → ((a : A) × (r ≡ ok a))
      ⊎ ((f : RuntimeFault) × (r ≡ err (faulted f)))
      ⊎ (r ≡ err file_exists)
      ⊎ (r ≡ err os_error)
      ⊎ (r ≡ err other)
      ⊎ (r ≡ err interrupt)
Result-cases (ok a) = inl (a, refl)
Result-cases (err (faulted f)) = inr (inl (f, refl))
Result-cases (err file_exists) = inr (inr (inl refl))
Result-cases (err os_error) = inr (inr (inr (inl refl)))
Result-cases (err other) = inr (inr (inr (inr (inl refl))))
Result-cases (err interrupt) = inr (inr (inr (inr (inr refl))))

begin_trial_locked-IsCalm :
    (prng : Result (Unit {0})) (mkdir : Option Raised) (io : WriteOutcome) (i : String) (seed : ℤ)
    → IsCalm (begin_trial_locked prng mkdir io i seed)
unfolding status
begin_trial_locked-IsCalm prng mkdir io i seed r v = grind (arith, begin-Begins)

module _ (r : PolicyRuntime) (v : IsBound r) where
  pub open_session-Calm : (i t : String) (now : ℕ) → Calm r (open_session i t now r).1
  unfolding open_session
  open_session-Calm i t now = ground arith

  pub close_session-Calm : (i : String) → Calm r (close_session i r).1
  unfolding close_session
  close_session-Calm i = ground arith

  pub fail_locked-Calm : (c : ErrorCode) → Calm r (fail_locked c r).1
  unfolding fail_locked
  fail_locked-Calm c = ground arith

  pub end_trial-Calm : (io io' : WriteOutcome) → Calm r (end_trial io io' r).1
  unfolding end_trial
  end_trial-Calm io io' =
      ground (arith, end-Ends io io' r.audit, Result-cases (Audit.end io io' r.audit).0)

  pub begin_trial-Calm :
      (acquired : Bool) (prng : Result (Unit {0})) (mkdir : Option Raised) (io : WriteOutcome)
      (i : String) (seed : ℤ)
      → Calm r (begin_trial acquired prng mkdir io i seed r).1
  unfolding begin_trial
  begin_trial-Calm acquired prng mkdir io i seed =
      let m = begin_trial_locked prng mkdir io i seed in
      let held =
        guard-IsCalm (not acquired)
          (fault inference_busy "cannot acquire policy execution lock for trial initialization") m
          (begin_trial_locked-IsCalm prng mkdir io i seed) in
      guard-IsCalm (not (is_trial_id i)) (fault invalid_field_value "trial_id format is invalid")
        (raise_if (not acquired)
            (fault inference_busy "cannot acquire policy execution lock for trial initialization")
          >> m)
        held r v

  pub begin_trial_failed-Calm : Calm r (begin_trial_failed r).1
  unfolding begin_trial_failed
  begin_trial_failed-Calm = ground arith

  -- An abort holds the execution lock, so no inference is in flight.
  pub abort-Calm :
      (acquired : Bool) (io : WriteOutcome) (reason : String)
      → (acquired ≡ true → r.in_flight ≡ 0)
      → Calm r (abort acquired io reason r).1
  unfolding abort
  abort-Calm acquired io reason h =
      ground (arith, abort-Ends io reason r.audit, Result-cases (Audit.abort io reason r.audit).0)

  pub ambiguous-Calm :
      (io : WriteOutcome) (i : String) (n : ℕ)
      → IsOsOutcome io
      → Calm r (mark_transport_ambiguous io i n r).1
  unfolding mark_transport_ambiguous
  ambiguous-Calm io i n h =
      let reason : String = "inference response transport failed" in
      ground (
        arith,
        mark_ambiguous-Ends io reason n r.audit,
        mark_ambiguous-IsReported io reason n r.audit h,
        Result-cases (Audit.mark_ambiguous io reason n r.audit).0,
      )

  pub close-Calm : (io : WriteOutcome) (outcome : Result (Unit {0})) → Calm r (close io outcome r).1
  unfolding close
  close-Calm io outcome =
      let reason : String = "server shutdown" in
      ground (arith, abort-Ends io reason r.audit, Result-cases (Audit.abort io reason r.audit).0)
