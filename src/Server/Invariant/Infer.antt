-- ===== src/Server/Invariant/Infer.antt =====
-- The regions of an inference keep the invariant.
use oven_multiskill_runtime.Common.{
  ℕ, String, Result, Raised, ok, err, faulted, interrupt, ◌≡◌, refl, arith,
}
use oven_multiskill_runtime.Value.{Value}
use oven_multiskill_runtime.Protocol.{InferenceRequest}
use oven_multiskill_runtime.Server.Audit.{RecordWrites}
use oven_multiskill_runtime.Server.Audit.Effects.{record_request-trial}
use oven_multiskill_runtime.Server.Backend.{BackendResult}
use oven_multiskill_runtime.Server.Runtime.{PolicyRuntime, fail_locked}
use oven_multiskill_runtime.Server.Inference.{
  Evidence, row_of, policy_steps, fail_policy, infer_enter, infer_policy, infer_commit, infer_leave,
}
use oven_multiskill_runtime.Server.System.{
  System, LockHolder, entered, after_policy, policy, step, infer_call, policy_returns,
  infer_answers, infer_returns,
}
use oven_multiskill_runtime.Server.Invariant.{IsValid, Calm, IsCalm, Calm-refl, catch-IsCalm}

fail_policy-IsCalm : (e : Raised) → IsCalm (fail_policy e)
unfolding fail_locked
fail_policy-IsCalm (faulted f) r v = ground arith
fail_policy-IsCalm interrupt r v = Calm-refl r v
fail_policy-IsCalm _ r v = ground arith

module _ (hash : Value → String) where
  policy_steps-IsCalm :
      (outcome : Result BackendResult) (hashed : Result (Unit {0})) (io : RecordWrites)
      (q : InferenceRequest)
      → IsCalm (policy_steps hash outcome hashed io q)
  policy_steps-IsCalm (ok b) (ok u) io q r v =
      ground (arith, record_request-trial io (row_of hash q b) r.audit)
  policy_steps-IsCalm (ok b) (err e) io q r v = ground arith
  policy_steps-IsCalm (err e) hashed io q r v = ground arith

  -- The policy's region, on every branch.
  pub infer_policy-IsCalm :
      (outcome : Result BackendResult) (hashed : Result (Unit {0})) (io : RecordWrites)
      (q : InferenceRequest)
      → IsCalm (infer_policy hash outcome hashed io q)
  unfolding infer_policy
  infer_policy-IsCalm outcome hashed io q =
      catch-IsCalm (policy_steps hash outcome hashed io q) fail_policy
        (policy_steps-IsCalm outcome hashed io q) fail_policy-IsCalm

after_policy-IsValid :
    (s : System)
    → IsValid s
    → (ident : ℕ) (q : InferenceRequest) → s.lock ≡ entered ident q
    → (p : Result Evidence × PolicyRuntime) → Calm s.runtime p.1
    → IsValid (after_policy ident q p s)
after_policy-IsValid s v ident q e (ok x, r) c = ground arith
after_policy-IsValid s v ident q e (err x, r) c = ground arith

module _ (hash : Value → String) (s : System) (v : IsValid s) where
  pub infer_enter-IsValid :
      (q : InferenceRequest) (now : ℕ) → IsValid (step hash (infer_call q now) s)
  unfolding step infer_enter
  infer_enter-IsValid q now = ground arith

  pub infer_policy-IsValid :
      (outcome : Result BackendResult) (hashed : Result (Unit {0})) (io : RecordWrites)
      → IsValid (step hash (policy_returns outcome hashed io) s)
  unfolding step
  infer_policy-IsValid outcome hashed io = go s.lock refl
    where
      go : (l : LockHolder) → s.lock ≡ l → IsValid (policy hash outcome hashed io l s)
      go (entered ident q) e =
          after_policy-IsValid s v ident q e (infer_policy hash outcome hashed io q s.runtime)
            (infer_policy-IsCalm hash outcome hashed io q s.runtime v.runtime_bound)
      go _ e = v

  pub infer_commit-IsValid : IsValid (step hash infer_answers s)
  unfolding step infer_commit
  infer_commit-IsValid = ground arith

  pub infer_leave-IsValid : IsValid (step hash infer_returns s)
  unfolding step infer_leave
  infer_leave-IsValid = ground arith
