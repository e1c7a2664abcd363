-- ===== src/Server/Runtime.antt =====
-- src/oven_runtime/server/runtime.py: the owner of the active policy, trial and session.
-- This file has its state, its report and the methods whose names end in `_locked`; the files
-- beside it, Prepare, Trial, Session and Inference, have the operations. Each of these is one
-- region that the code runs under its condition lock. The time is a number of clock ticks, handed
-- in where the code reads `monotonic`.
use oven_multiskill_runtime.Common.{
  ℕ, String, Bool, true, false, Option, none, some, List, [], ◌∷◌, any, ℤ, Raised, faulted,
  interrupt, Result, ok, err, Action, pure, lift, gets, modify, if◌then◌else◌, ◌>>=◌, ◌>>◌,
}
use oven_multiskill_runtime.Errors.{ErrorCode, fault, policy_failed}
use oven_multiskill_runtime.State.{
  RuntimeState, SessionState, runtime_is, ensure_runtime_transition,
}
use oven_multiskill_runtime.Server.Audit.{Store}
use oven_multiskill_runtime.Server.Backend.{BackendIdentity, BackendCall}

-- `ident` tells lease objects apart, as Python's `is` does.
pub record SessionLease : Type 0 where
  pub ident : ℕ
  pub session_id : String
  pub token : String
  pub skill : String
  pub generation : ℕ
  pub trial_id : String
  pub expires_at_monotonic : ℕ
  pub next_sequence : ℕ
  pub state : SessionState

-- `retired` holds the lease objects that were invalidated, the last one first, and `leases` counts
-- those opened. `calls` lists the calls made of the backend, the last one first.
pub record PolicyRuntime : Type 0 where
  pub session_ttl : ℕ
  pub state : RuntimeState
  pub active_skill : Option String
  pub generation : ℕ
  pub identity : Option BackendIdentity
  pub session : Option SessionLease
  pub trial_id : Option String
  pub trial_root_seed : Option ℤ
  pub in_flight : ℕ
  pub last_error : Option ErrorCode
  pub audit : Store
  pub retired : List SessionLease
  pub leases : ℕ
  pub calls : List BackendCall

-- `__init__`, with no trial active in the store.
unfoldable pub start : ℕ → Store → PolicyRuntime
start ttl audit = record {
  session_ttl = ttl;
  state = RuntimeState.starting;
  active_skill = none;
  generation = 0;
  identity = none;
  session = none;
  trial_id = none;
  trial_root_seed = none;
  in_flight = 0;
  last_error = none;
  audit = audit;
  retired = [];
  leases = 0;
  calls = [];
}

abbrev pub Method : Type 0 → Type 0
Method A = Action PolicyRuntime A

abbrev pub self : Method PolicyRuntime
self r = (ok r, r)

-- A call of the trial store.
abbrev pub on_audit : {A : Type 0} → Action Store A → Method A
on_audit m r = let (a, s) = m r.audit in (a, record r { audit = s })

abbrev pub call_backend : BackendCall → Method (Unit {0})
call_backend c = modify (λ r. record r { calls = c ∷ r.calls })

abbrev pub state_in : List RuntimeState → PolicyRuntime → Bool
state_in states r = any (runtime_is r.state) states

abbrev pub transition_locked : RuntimeState → Method (Unit {0})
unfolding ensure_runtime_transition
transition_locked target = do
  r ← self
  lift (ensure_runtime_transition r.state target)
  modify (λ r. record r { state = target })

abbrev pub invalidate_session_locked : SessionState → Method (Unit {0})
invalidate_session_locked state r = elim r.session [
  | none ↦ (ok tt, r)
  | some l ↦ (
    ok tt,
    record r { session = none; retired = record l { state = state; token = "" } ∷ r.retired },
  )
]

unfoldable pub fail_locked : ErrorCode → Method (Unit {0})
unfolding ensure_runtime_transition
fail_locked code = do
  modify (λ r. record r { last_error = some code })
  invalidate_session_locked SessionState.aborted
  r ← self
  if state_in (RuntimeState.failed ∷ RuntimeState.stopping ∷ []) r
      then pure tt
      else transition_locked RuntimeState.failed

pub record StatusReport : Type 0 where
  pub state : RuntimeState
  pub active_skill : Option String
  pub generation : ℕ
  pub backend : Option String
  pub model_id : Option String
  pub active_session_id : Option String
  pub active_trial_id : Option String
  pub in_flight : ℕ
  pub last_error : Option ErrorCode

abbrev pub is_active : SessionState → Bool
is_active SessionState.active = true
is_active _ = false

abbrev pub has_active_session : PolicyRuntime → Bool
has_active_session r = elim r.session [ none ↦ false | some l ↦ is_active l.state ]

abbrev pub report : PolicyRuntime → StatusReport
report r = record {
  state = r.state;
  active_skill = r.active_skill;
  generation = r.generation;
  backend = elim r.identity [ none ↦ none | some i ↦ some i.backend ];
  model_id = elim r.identity [ none ↦ none | some i ↦ some i.model_id ];
  active_session_id = elim r.session [
    | none ↦ none
    | some l ↦ if is_active l.state then some l.session_id else none
  ];
  active_trial_id = r.trial_id;
  in_flight = r.in_flight;
  last_error = r.last_error;
}

unfoldable pub status : Method StatusReport
status = gets report

-- Exceptions of the backend: a fault goes on as it is, any other `Exception` is wrapped.
abbrev pub as_policy_fault {ℓ} : {A : Type ℓ} → String → Raised → Result A
as_policy_fault message (faulted f) = err (faulted f)
as_policy_fault message interrupt = err interrupt
as_policy_fault message e = err (faulted (fault policy_failed message))
