-- ===== src/Server/System.antt =====
-- The threads of the server: which regions of the runtime's operations may follow one another.
-- A region runs under the condition lock, so a run of the server is a sequence of regions. An
-- inference, the load of a model and a failed `begin_trial` hold the execution lock over several regions, and the regions
-- of other threads fall in between. A thread that finds the execution lock held for too long gives
-- up: its event comes while the lock is held, and its `acquire` fails.
use oven_multiskill_runtime.Common.{
  ℕ, String, Bool, true, false, Option, List, [], ◌∷◌, ℤ, Raised, faulted, interrupt, Result, ok,
  err,
}
use oven_multiskill_runtime.Value.{Value}
use oven_multiskill_runtime.Protocol.{InferenceRequest}
use oven_multiskill_runtime.Server.Audit.{WriteOutcome, RecordWrites}
use oven_multiskill_runtime.Server.Backend.{BackendIdentity, BackendResult}
use oven_multiskill_runtime.Server.Runtime.{PolicyRuntime, SessionLease, StatusReport}
use oven_multiskill_runtime.Server.Prepare.{
  Progress, waits, switched, drain_locked, prepare_enter, prepare_timed_out, prepare_load,
  prepare_install,
}
use oven_multiskill_runtime.Server.Session.{open_session, close_session}
use oven_multiskill_runtime.Server.Trial.{
  begin_trial, begin_trial_failed, end_trial, abort, mark_transport_ambiguous, close,
}
use oven_multiskill_runtime.Server.Inference.{
  Evidence, infer_enter, infer_policy, infer_commit, infer_leave,
}

-- The thread that holds the execution lock between two regions.
pub data LockHolder : Type 0 where
  free : LockHolder
  entered : (ident : ℕ) → InferenceRequest → LockHolder
  recorded : (ident : ℕ) → InferenceRequest → Evidence → LockHolder
  leaving : LockHolder
  loading : (skill : String) → LockHolder
  begin_failing : LockHolder

-- The thread that is inside `prepare_skill` between two regions.
pub data Preparing : Type 0 where
  idle : Preparing
  draining : (skill : String) → (deadline : ℕ) → Preparing
  acquiring : (skill : String) → Preparing
  using_lock : Preparing
  installing : (skill : String) → BackendIdentity → Preparing

pub record System : Type 0 where
  pub runtime : PolicyRuntime
  pub lock : LockHolder
  pub preparing : Preparing

abbrev pub is_free : LockHolder → Bool
is_free LockHolder.free = true
is_free _ = false

pub data Event : Type 0 where
  prepare_skill : (skill : String) → (drain_timeout begun now : ℕ) → Event
  drain_wake : (now : ℕ) → Event
  prepare_acquire : Event
  prepare_loaded : Result BackendIdentity → Event
  prepare_done : Event
  begin_trial_call :
      Result (Unit {0})
      → Option Raised
      → WriteOutcome
      → (trial_id : String) → (root_seed : ℤ) → Event
  begin_trial_fails : Event
  open_session_call : (session_id token : String) → (now : ℕ) → Event
  infer_call : InferenceRequest → (now : ℕ) → Event
  policy_returns : Result BackendResult → Result (Unit {0}) → RecordWrites → Event
  infer_answers : Event
  infer_returns : Event
  close_session_call : (session_id : String) → Event
  end_trial_call : WriteOutcome → WriteOutcome → Event
  abort_call : WriteOutcome → (reason : String) → Event
  ambiguous_call : WriteOutcome → (session_id : String) → (sequence : ℕ) → Event
  close_call : WriteOutcome → Result (Unit {0}) → Event

-- A call that takes one region: its result goes to the caller.
abbrev run_region : {A : Type 0} → Result A × PolicyRuntime → System → System
run_region (a, r) s = record s { runtime = r }

-- After the first region of `prepare_skill`, and after a round of its wait.
abbrev after_drain : String → Result Progress × PolicyRuntime → System → System
after_drain skill (ok (waits d), r) s = record s { runtime = r; preparing = draining skill d }
after_drain skill (ok switched, r) s = record s { runtime = r; preparing = acquiring skill }
after_drain skill (err e, r) s = record s { runtime = r; preparing = idle }

-- A `prepare_skill` that is refused leaves the thread that is inside one where it is.
abbrev pub after_prepare : String → Result Progress × PolicyRuntime → System → System
after_prepare skill (err e, r) s = record s { runtime = r }
after_prepare skill (ok p, r) s = after_drain skill (ok p, r) s

abbrev wake : ℕ → Preparing → System → System
wake now (draining skill deadline) s = after_drain skill (drain_locked deadline now s.runtime) s
wake now _ s = s

abbrev acquire : Preparing → LockHolder → System → System
acquire (acquiring skill) LockHolder.free s = record s {
  lock = loading skill;
  preparing = using_lock;
}
acquire (acquiring skill) _ s = record s {
  runtime = (prepare_timed_out s.runtime).1;
  preparing = idle;
}
acquire _ _ s = s

abbrev after_load : String → Result BackendIdentity × PolicyRuntime → System → System
after_load skill (ok i, r) s = record s {
  runtime = r;
  lock = LockHolder.free;
  preparing = installing skill i;
}
after_load skill (err e, r) s = record s { runtime = r; lock = LockHolder.free; preparing = idle }

abbrev load : Result BackendIdentity → LockHolder → System → System
load outcome (loading skill) s = after_load skill (prepare_load skill outcome s.runtime) s
load outcome _ s = s

abbrev install : Preparing → System → System
install (installing skill i) s = record s {
  runtime = (prepare_install skill i s.runtime).1;
  preparing = idle;
}
install _ s = s

abbrev after_enter : InferenceRequest → Result SessionLease × PolicyRuntime → System → System
after_enter q (ok l, r) s = record s { runtime = r; lock = entered l.ident q }
after_enter q (err e, r) s = record s { runtime = r }

abbrev pub after_policy : ℕ → InferenceRequest → Result Evidence × PolicyRuntime → System → System
after_policy ident q (ok e, r) s = record s { runtime = r; lock = recorded ident q e }
after_policy ident q (err e, r) s = record s { runtime = r; lock = leaving }

module _ (stable_tree_hash : Value → String) where
  abbrev pub policy :
      Result BackendResult → Result (Unit {0}) → RecordWrites → LockHolder → System → System
  policy outcome hashed io (entered ident q) s =
      after_policy ident q (infer_policy stable_tree_hash outcome hashed io q s.runtime) s
  policy outcome hashed io _ s = s

-- A `begin_trial` that caught an exception holds the execution lock until its second region.
abbrev pub after_begin : Result StatusReport × PolicyRuntime → System → System
after_begin (ok a, r) s = record s { runtime = r }
after_begin (err (faulted f), r) s = record s { runtime = r }
after_begin (err interrupt, r) s = record s { runtime = r }
after_begin (err e, r) s = record s { runtime = r; lock = begin_failing }

abbrev fail_begin : LockHolder → System → System
fail_begin begin_failing s = record s {
  runtime = (begin_trial_failed s.runtime).1;
  lock = LockHolder.free;
}
fail_begin _ s = s

abbrev commit : LockHolder → System → System
commit (recorded ident q e) s = record s {
  runtime = (infer_commit ident q e s.runtime).1;
  lock = leaving;
}
commit _ s = s

abbrev leave : LockHolder → System → System
leave leaving s = record s { runtime = infer_leave s.runtime; lock = LockHolder.free }
leave _ s = s

module _ (stable_tree_hash : Value → String) where
  -- One region. An event of a thread that is not there does nothing.
  unfoldable pub step : Event → System → System
  step (prepare_skill skill timeout begun now) s =
      after_prepare skill (prepare_enter skill timeout begun now s.runtime) s
  step (drain_wake now) s = wake now s.preparing s
  step prepare_acquire s = acquire s.preparing s.lock s
  step (prepare_loaded outcome) s = load outcome s.lock s
  step prepare_done s = install s.preparing s
  step (begin_trial_call prng mkdir io trial_id root_seed) s =
      after_begin (begin_trial (is_free s.lock) prng mkdir io trial_id root_seed s.runtime) s
  step begin_trial_fails s = fail_begin s.lock s
  step (open_session_call session_id token now) s =
      run_region (open_session session_id token now s.runtime) s
  step (infer_call q now) s = after_enter q (infer_enter (is_free s.lock) q now s.runtime) s
  step (policy_returns outcome hashed io) s = policy stable_tree_hash outcome hashed io s.lock s
  step infer_answers s = commit s.lock s
  step infer_returns s = leave s.lock s
  step (close_session_call session_id) s = run_region (close_session session_id s.runtime) s
  step (end_trial_call io io') s = run_region (end_trial io io' s.runtime) s
  step (abort_call io reason) s = run_region (abort (is_free s.lock) io reason s.runtime) s
  step (ambiguous_call io session_id sequence) s =
      run_region (mark_transport_ambiguous io session_id sequence s.runtime) s
  step (close_call io outcome) s = run_region (close io outcome s.runtime) s

  unfoldable pub run : List Event → System → System
  run [] s = s
  run (e ∷ es) s = run es (step e s)

unfoldable pub boot : PolicyRuntime → System
boot r = record { runtime = r; lock = LockHolder.free; preparing = idle }
