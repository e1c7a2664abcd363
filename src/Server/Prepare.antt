-- ===== src/Server/Prepare.antt =====
-- src/oven_runtime/server/runtime.py, `prepare_skill`.
use oven_multiskill_runtime.Common.{
  ℕ, ◌+◌, String, some, [], ◌∷◌, leb, ◌==◌, faulted, other, interrupt, Raised, Result, ok, err,
  pure, raise, lift, catch, modify, raise_if, raise_other_if, is_some, str_eq, is_empty,
  if◌then◌else◌, ◌>>=◌, ◌>>◌,
}
use oven_multiskill_runtime.Errors.{
  fault, invalid_field_value, state_rejected, inference_timeout, inference_busy, policy_failed,
}
use oven_multiskill_runtime.State.{
  RuntimeState, SessionState, runtime_is, ensure_runtime_transition,
}
use oven_multiskill_runtime.Server.Backend.{BackendIdentity, BackendCall}
use oven_multiskill_runtime.Server.Runtime.{
  Method, StatusReport, self, call_backend, state_in, transition_locked, invalidate_session_locked,
  fail_locked, status, as_policy_fault,
}

-- How far `prepare_skill` is after it held the lock: it may wait for inferences until a deadline.
pub data Progress : Type 0 where
  waits : (deadline : ℕ) → Progress
  switched : Progress

-- One round of the loop that drains inferences, at the time `now`; a round that waits is followed
-- by another when the condition is notified or the time is over.
unfoldable pub drain_locked : ℕ → ℕ → Method Progress
unfolding fail_locked
drain_locked deadline now = do
  r ← self
  if r.in_flight == 0
      then (do
        transition_locked RuntimeState.switching
        transition_locked RuntimeState.loading
        pure switched)
      else if leb deadline now
      then (do
        fail_locked inference_timeout
        raise (faulted (fault inference_timeout "timed out draining active inference")))
      else pure (waits deadline)

-- `prepare_skill`, up to where the lock is given up. `begun` and `now` are the times at which the
-- deadline is set and first compared.
unfoldable pub prepare_enter : String → ℕ → ℕ → ℕ → Method Progress
unfolding drain_locked
prepare_enter skill drain_timeout begun now = do
  raise_if (is_empty skill) (fault invalid_field_value "skill must not be empty")
  raise_other_if (drain_timeout == 0)
  r ← self
  raise_if (is_some r.trial_id)
      (fault state_rejected "end or abort the active trial before preparing a skill")
  raise_if
      (state_in
        (RuntimeState.failed ∷ RuntimeState.stopping ∷ RuntimeState.loading ∷ RuntimeState.switching
          ∷ [])
        r)
      (fault state_rejected "runtime cannot prepare a skill in its current state")
  invalidate_session_locked SessionState.aborted
  if runtime_is r.state RuntimeState.starting
      then (do transition_locked RuntimeState.loading; pure switched)
      else (do transition_locked RuntimeState.draining; drain_locked (begun + drain_timeout) now)

-- The execution lock was not had in time.
unfoldable pub prepare_timed_out : Method (Unit {0})
unfolding fail_locked
prepare_timed_out = do
  fail_locked inference_busy
  raise
      (faulted (fault inference_busy "cannot acquire policy execution lock for model preparation"))

-- `self._backend.prepare(skill)`, with the check of its identity and the `except` clause. It runs
-- under the execution lock alone; the handler takes the condition lock.
abbrev check_identity : String → BackendIdentity → Result BackendIdentity
check_identity skill i = if str_eq i.skill skill then ok i else err other

abbrev fail_load : Raised → Method BackendIdentity
fail_load interrupt = raise interrupt
fail_load e = do
  fail_locked policy_failed
  lift (as_policy_fault "policy backend failed to prepare the requested skill" e)

unfoldable pub prepare_load : String → Result BackendIdentity → Method BackendIdentity
unfolding fail_locked
prepare_load skill outcome = do
  call_backend (BackendCall.prepare skill)
  catch (do i ← lift outcome; lift (check_identity skill i)) fail_load

-- The last region of `prepare_skill`.
unfoldable pub prepare_install : String → BackendIdentity → Method StatusReport
unfolding status ensure_runtime_transition
prepare_install skill identity = do
  modify (λ r. record r {
    active_skill = some skill;
    identity = some identity;
    generation = r.generation + 1;
  })
  transition_locked RuntimeState.ready
  status
