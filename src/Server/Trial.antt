-- ===== src/Server/Trial.antt =====
-- src/oven_runtime/server/runtime.py, the operations that begin, end and abandon a trial, and
-- `close`.
use oven_multiskill_runtime.Common.{
  ℕ, String, Bool, false, Option, none, some, not, ℤ, Raised, faulted, Result, ok, err, pure, raise,
  lift, catch, modify, raise_if, is_some, str_eq, if◌then◌else◌, ◌>>=◌, ◌>>◌,
}
use oven_multiskill_runtime.Errors.{
  RuntimeFault, fault, invalid_field_value, state_rejected, inference_timeout, inference_busy,
  policy_failed, server_failed, trial_required, session_already_active, audit_commit_failed,
}
use oven_multiskill_runtime.State.{
  RuntimeState, SessionState, runtime_is, ensure_runtime_transition,
}
use oven_multiskill_runtime.Protocol.{is_trial_id}
use oven_multiskill_runtime.Server.Audit
use oven_multiskill_runtime.Server.Audit.{
  Store, Row, Manifest, ActiveTrial, WriteOutcome, RecordWrites,
}
use oven_multiskill_runtime.Server.Backend.{BackendCall}
use oven_multiskill_runtime.Server.Runtime.{
  PolicyRuntime, Method, StatusReport, self, on_audit, call_backend, transition_locked,
  invalidate_session_locked, fail_locked, has_active_session, status,
}

abbrev active_skill_or : RuntimeFault → PolicyRuntime → Result String
active_skill_or f r = elim r.active_skill [ none ↦ err (faulted f) | some k ↦ ok k ]

-- What `begin_trial` does under the condition lock.
abbrev pub begin_trial_locked :
    Result (Unit {0}) → Option Raised → WriteOutcome → String → ℤ → Method StatusReport
begin_trial_locked prng mkdir manifest trial_id root_seed = do
  r ← self
  raise_if (not (runtime_is r.state RuntimeState.ready))
      (fault state_rejected "trial can begin only when runtime is ready")
  raise_if (is_some r.trial_id) (fault state_rejected "another trial is already active")
  skill ← lift (active_skill_or (fault server_failed "runtime has no active skill") r)
  call_backend (BackendCall.reset_prng root_seed)
  lift prng
  active ← on_audit (Audit.begin mkdir manifest trial_id skill r.generation root_seed)
  modify (λ r. record r { trial_id = some active.trial_id; trial_root_seed = some root_seed })
  status

-- The seed's type is checked where the command is parsed. `acquired` says whether the execution
-- lock was had in time, `prng` how the backend's `reset_prng` ends. An exception that is neither a
-- fault nor an interrupt is caught, and `begin_trial_failed` is the next region of the call.
unfoldable pub begin_trial :
    Bool → Result (Unit {0}) → Option Raised → WriteOutcome → String → ℤ → Method StatusReport
unfolding status
begin_trial acquired prng mkdir manifest trial_id root_seed = do
  raise_if (not (is_trial_id trial_id)) (fault invalid_field_value "trial_id format is invalid")
  raise_if (not acquired)
      (fault inference_busy "cannot acquire policy execution lock for trial initialization")
  begin_trial_locked prng mkdir manifest trial_id root_seed

-- The second region of `begin_trial`, in its `except Exception` clause.
unfoldable pub begin_trial_failed : Method StatusReport
unfolding fail_locked
begin_trial_failed = do
  fail_locked policy_failed
  raise (faulted (fault policy_failed "policy backend failed to initialize trial PRNG"))

-- `except RuntimeFault` round a call of the store.
abbrev fail_audit : {A : Type 0} → Raised → Method A
fail_audit (faulted f) = do fail_locked audit_commit_failed; raise (faulted f)
fail_audit e = raise e

abbrev or_fail_audit : {A : Type 0} → Method A → Method A
or_fail_audit m = catch m fail_audit

abbrev forget_trial : Method (Unit {0})
forget_trial = modify (λ r. record r { trial_id = none; trial_root_seed = none })

unfoldable pub end_trial : WriteOutcome → WriteOutcome → Method Manifest
unfolding fail_locked
end_trial summary_write manifest_write = do
  r ← self
  raise_if (has_active_session r)
      (fault session_already_active "close the active session before ending the trial")
  raise_if (not (is_some r.trial_id)) (fault trial_required "no active trial")
  summary ← or_fail_audit (on_audit (Audit.end summary_write manifest_write))
  forget_trial
  pure summary

-- A state with the manifest of the trial that was terminated, if there was one.
pub record Termination : Type 0 where
  pub state : RuntimeState
  pub trial : Option Manifest

unfoldable pub abort : Bool → WriteOutcome → String → Method Termination
unfolding fail_locked
abort acquired write reason =
    if acquired
    then (do
      invalidate_session_locked SessionState.aborted
      summary ← or_fail_audit (on_audit (Audit.abort write reason))
      forget_trial
      r ← self
      pure (record { state = r.state; trial = summary }))
    else (do
      fail_locked inference_timeout
      raise
          (faulted (fault inference_timeout "timed out waiting for active inference before abort")))

abbrev is_session : String → PolicyRuntime → Bool
is_session session_id r = elim r.session [ none ↦ false | some l ↦ str_eq l.session_id session_id ]

unfoldable pub mark_transport_ambiguous : WriteOutcome → String → ℕ → Method Termination
unfolding fail_locked
mark_transport_ambiguous write session_id sequence = do
  r ← self
  if not (is_session session_id r) then pure (record { state = r.state; trial = none }) else (do
    invalidate_session_locked SessionState.aborted
    summary ←
        or_fail_audit
          (on_audit (Audit.mark_ambiguous write "inference response transport failed" sequence))
    forget_trial
    fail_locked server_failed
    r' ← self
    pure (record { state = r'.state; trial = summary }))

abbrev keep_fault : Raised → Method (Option RuntimeFault)
keep_fault (faulted f) = pure (some f)
keep_fault e = raise e

-- The part of `close` under the condition lock: the fault of the store is kept for the end.
abbrev close_locked : WriteOutcome → Method (Option RuntimeFault)
close_locked write = do
  r ← self
  if runtime_is r.state RuntimeState.stopping
      then pure tt
      else transition_locked RuntimeState.stopping
  invalidate_session_locked SessionState.aborted
  if is_some r.trial_id
      then catch (do on_audit (Audit.abort write "server shutdown"); forget_trial; pure none)
          keep_fault
      else pure none

abbrev raise_kept : Option RuntimeFault → Method (Unit {0})
raise_kept none = pure tt
raise_kept (some f) = raise (faulted f)

unfoldable pub close : WriteOutcome → Result (Unit {0}) → Method (Unit {0})
unfolding ensure_runtime_transition
close write backend_close = do
  kept ← close_locked write
  call_backend BackendCall.close
  if is_some kept then raise_kept kept else lift backend_close
