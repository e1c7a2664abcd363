-- ===== src/Server/Inference.antt =====
-- src/oven_runtime/server/runtime.py, `infer` and `_validate_request_locked`.
use oven_multiskill_runtime.Common.{
  ℕ, ◌+◌, ◌-◌, String, Bool, true, false, none, some, ◌&&◌, all, not, ltb, leb, ◌==◌, pos, faulted,
  other, interrupt, Raised, Result, ok, err, pure, raise, lift, catch, modify, raise_if, str_eq,
  holds_text, codes, if◌then◌else◌, ◌>>=◌, ◌>>◌,
}
use oven_multiskill_runtime.Errors.{
  RuntimeFault, fault, state_rejected, inference_busy, policy_failed, session_required,
  session_expired, session_invalid, trial_mismatch, skill_mismatch, generation_mismatch,
  sequence_mismatch,
}
use oven_multiskill_runtime.State.{RuntimeState, SessionState, runtime_is}
use oven_multiskill_runtime.Value.{Value, field, end, text, integer}
use oven_multiskill_runtime.Protocol.{InferenceRequest, InferenceResponse}
use oven_multiskill_runtime.Server.Audit
use oven_multiskill_runtime.Server.Audit.{
  Store, Row, Manifest, ActiveTrial, WriteOutcome, RecordWrites,
}
use oven_multiskill_runtime.Server.Backend.{BackendResult, BackendCall}
use oven_multiskill_runtime.Server.Runtime.{
  PolicyRuntime, SessionLease, Method, self, on_audit, call_backend, invalidate_session_locked,
  fail_locked, is_active,
}
use oven_multiskill_runtime.Server.Session.{active_lease}

abbrev is_ascii : String → Bool
is_ascii s = all (λ c. ltb c 128) (codes s)

-- `secrets.compare_digest`, which raises `TypeError` for a text that is not ASCII.
abbrev compare_digest : String → String → Result Bool
compare_digest a b = if is_ascii a && is_ascii b then ok (str_eq a b) else err other

-- The short-circuit test of the session's ID and of its token.
abbrev has_credentials : InferenceRequest → SessionLease → Result Bool
has_credentials q l =
    if str_eq q.session_id l.session_id then compare_digest q.session_token l.token else ok false

abbrev refuse_if : Bool → RuntimeFault → Result (Unit {0}) → Result (Unit {0})
refuse_if c f rest = if c then err (faulted f) else rest

-- The tests of `_validate_request_locked` on a lease that has not expired, in their order.
unfoldable pub check_request : InferenceRequest → SessionLease → PolicyRuntime → Result (Unit {0})
check_request q l r = elim (has_credentials q l) [
  | err e ↦ err e
  | ok matched ↦ refuse_if (not matched) (fault session_invalid "session credentials are invalid") (
      refuse_if (not (str_eq q.trial_id l.trial_id && holds_text r.trial_id q.trial_id))
        (fault trial_mismatch "request trial does not match the active trial")
        (refuse_if
          (not (str_eq q.expected_skill l.skill && holds_text r.active_skill q.expected_skill))
          (fault skill_mismatch "request skill does not match the active policy")
          (refuse_if
            (not (q.expected_generation == l.generation && q.expected_generation == r.generation))
            (fault generation_mismatch "request generation does not match the active policy")
            (refuse_if (not (q.sequence == l.next_sequence))
              (fault sequence_mismatch "request sequence is not the next expected value")
              (refuse_if (not (runtime_is r.state RuntimeState.ready))
                (fault state_rejected "request kind is not allowed in the current state")
                (ok tt))))))
]

-- `_validate_request_locked` at the time `now`. The request's kind is its only one, so the test
-- that refuses a warm-up has nothing to refuse.
unfoldable pub validate_request_locked : InferenceRequest → ℕ → Method SessionLease
validate_request_locked q now = do
  r ← self
  lease ← lift (active_lease r (fault session_required "an active session is required"))
  if leb lease.expires_at_monotonic now
      then (do
        invalidate_session_locked SessionState.expired
        raise (faulted (fault session_expired "the active session has expired")))
      else pure tt
  lift (check_request q lease r)
  pure lease

-- The first region of `infer`: `acquired` says whether the execution lock was had in time.
unfoldable pub infer_enter : Bool → InferenceRequest → ℕ → Method SessionLease
unfolding validate_request_locked
infer_enter acquired q now = do
  raise_if (not acquired) (fault inference_busy "policy execution lock is busy")
  lease ← validate_request_locked q now
  modify (λ r. record r { in_flight = r.in_flight + 1 })
  pure lease

-- What goes from the policy's region to the one that answers.
pub record Evidence : Type 0 where
  pub row : Row
  pub actions : Value

-- The `except` clauses round the policy's inference.
abbrev pub fail_policy : Raised → Method Evidence
fail_policy (faulted f) = do fail_locked f.code; raise (faulted f)
fail_policy interrupt = raise interrupt
fail_policy e = do
  fail_locked policy_failed
  raise (faulted (fault policy_failed "policy inference failed"))

module _ (stable_tree_hash : Value → String) where
  -- The mapping of which the request hash is taken.
  abbrev pub request_identity : InferenceRequest → Value
  request_identity q = Value.mapping (
      field "protocol_version" (integer (pos q.protocol_version)) (
        field "session_id" (text q.session_id) (
          field "trial_id" (text q.trial_id) (
            field "request_kind" (text "infer") (
              field "expected_skill" (text q.expected_skill) (
                field "expected_generation" (integer (pos q.expected_generation)) (
                  field "sequence" (integer (pos q.sequence))
                    (field "observation_hash" (text (stable_tree_hash q.observation)) end))))))))

  abbrev pub row_of : InferenceRequest → BackendResult → Row
  row_of q b = record {
    session_id = q.session_id;
    trial_id = q.trial_id;
    skill = q.expected_skill;
    generation = q.expected_generation;
    sequence = q.sequence;
    request_kind = "infer";
    request_hash = stable_tree_hash (request_identity q);
    observation_hash = stable_tree_hash q.observation;
    noise_hash = b.noise_hash;
    action_hash = stable_tree_hash b.actions;
  }

  abbrev pub policy_steps :
      Result BackendResult → Result (Unit {0}) → RecordWrites → InferenceRequest → Method Evidence
  policy_steps outcome hashed io q = do
    call_backend (BackendCall.infer q.observation q.request_kind)
    b ← lift outcome
    lift hashed
    on_audit (Audit.record_request io (row_of q b))
    pure (record { row = row_of q b; actions = b.actions })

  -- The policy's inference with its evidence, and the `except` clauses. `hashed` says how the
  -- hashing of the observation, the identity and the actions ends, which raises for a value such as
  -- a NaN.
  unfoldable pub infer_policy :
      Result BackendResult → Result (Unit {0}) → RecordWrites → InferenceRequest → Method Evidence
  unfolding fail_locked
  infer_policy outcome hashed io q = catch (policy_steps outcome hashed io q) fail_policy

abbrev pub response_of : InferenceRequest → Evidence → InferenceResponse
response_of q e = record {
  session_id = q.session_id;
  trial_id = q.trial_id;
  skill = q.expected_skill;
  generation = q.expected_generation;
  sequence = q.sequence;
  publishable = true;
  request_hash = e.row.request_hash;
  observation_hash = e.row.observation_hash;
  noise_hash = e.row.noise_hash;
  action_hash = e.row.action_hash;
  actions = e.actions;
}

-- `self._session is not lease or lease.state is not ACTIVE`, negated.
abbrev holds_lease : ℕ → PolicyRuntime → Bool
holds_lease ident r = elim r.session [
  | none ↦ false
  | some l ↦ l.ident == ident && is_active l.state
]

abbrev advance_sequence : PolicyRuntime → PolicyRuntime
advance_sequence r = elim r.session [
  | none ↦ r
  | some l ↦ record r { session = some (record l { next_sequence = l.next_sequence + 1 }) }
]

-- The region that answers, for the lease object `ident`.
unfoldable pub infer_commit : ℕ → InferenceRequest → Evidence → Method InferenceResponse
unfolding fail_locked
infer_commit ident q e = do
  r ← self
  if holds_lease ident r then (do modify advance_sequence; pure (response_of q e)) else (do
    fail_locked session_invalid
    raise (faulted (fault session_invalid "session changed during inference")))

-- The `finally` clause of an inference that had entered.
unfoldable pub infer_leave : PolicyRuntime → PolicyRuntime
infer_leave r = record r { in_flight = r.in_flight - 1 }
