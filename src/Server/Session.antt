-- ===== src/Server/Session.antt =====
-- src/oven_runtime/server/runtime.py, `open_session` and `close_session`.
use oven_multiskill_runtime.Common.{
  ℕ, ◌+◌, String, none, some, not, ◌==◌, faulted, Result, ok, err, pure, lift, modify, raise_if,
  str_eq, if◌then◌else◌, ◌>>=◌, ◌>>◌,
}
use oven_multiskill_runtime.Errors.{
  RuntimeFault, fault, state_rejected, inference_busy, trial_required, session_already_active,
  session_required, session_invalid,
}
use oven_multiskill_runtime.State.{RuntimeState, SessionState, runtime_is}
use oven_multiskill_runtime.Server.Runtime.{
  PolicyRuntime, SessionLease, Method, StatusReport, self, invalidate_session_locked, is_active,
  has_active_session, status,
}

pub record SessionGrant : Type 0 where
  pub session_id : String
  pub session_token : String
  pub skill : String
  pub generation : ℕ
  pub trial_id : String
  pub expires_in : ℕ

abbrev grant_of : ℕ → SessionLease → SessionGrant
grant_of ttl l = record {
  session_id = l.session_id;
  session_token = l.token;
  skill = l.skill;
  generation = l.generation;
  trial_id = l.trial_id;
  expires_in = ttl;
}

-- `session_id` and `token` are what `uuid4` and `token_urlsafe` give, at the time `now`.
abbrev new_lease : String → String → ℕ → String → String → PolicyRuntime → SessionLease
new_lease session_id token now skill trial_id r = record {
  ident = r.leases;
  session_id = session_id;
  token = token;
  skill = skill;
  generation = r.generation;
  trial_id = trial_id;
  expires_at_monotonic = now + r.session_ttl;
  next_sequence = 0;
  state = SessionState.active;
}

abbrev trial_and_skill : PolicyRuntime → Result (String × String)
trial_and_skill r = elim r.trial_id [
  | none ↦ err (faulted (fault trial_required "begin a trial before opening a session"))
  | some t ↦ elim r.active_skill [
    | none ↦ err (faulted (fault trial_required "begin a trial before opening a session"))
    | some k ↦ ok (t, k)
  ]
]

unfoldable pub open_session : String → String → ℕ → Method SessionGrant
open_session session_id token now = do
  r ← self
  raise_if (not (runtime_is r.state RuntimeState.ready))
      (fault state_rejected "session cannot open in the current state")
  bound ← lift (trial_and_skill r)
  raise_if (has_active_session r)
      (fault session_already_active "an action session is already active")
  let lease = new_lease session_id token now bound.1 bound.0 r
  modify (λ r. record r { session = some lease; leases = r.leases + 1 })
  pure (grant_of r.session_ttl lease)

abbrev pub active_lease : PolicyRuntime → RuntimeFault → Result SessionLease
active_lease r f = elim r.session [
  | none ↦ err (faulted f)
  | some l ↦ if is_active l.state then ok l else err (faulted f)
]

unfoldable pub close_session : String → Method StatusReport
unfolding status
close_session session_id = do
  r ← self
  lease ← lift (active_lease r (fault session_required "no active session"))
  raise_if (not (str_eq lease.session_id session_id))
      (fault session_invalid "session ID does not match the active lease")
  raise_if (not (r.in_flight == 0))
      (fault inference_busy "cannot close a session with inference in flight")
  invalidate_session_locked SessionState.closed
  status
