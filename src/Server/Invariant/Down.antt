-- ===== src/Server/Invariant/Down.antt =====
-- A runtime that is down stays down over every region.
use oven_multiskill_runtime.Common.{ℕ, String, arith}
use oven_multiskill_runtime.Value.{Value}
use oven_multiskill_runtime.Server.Runtime.{PolicyRuntime}
use oven_multiskill_runtime.Server.System.{
  LockHolder, entered, policy, after_policy, System, Event, step, is_free,
}
use oven_multiskill_runtime.Server.Invariant.{IsValid, IsDown, Calm}
use oven_multiskill_runtime.Server.Invariant.Calls.{
  open_session-Calm, close_session-Calm, begin_trial-Calm, begin_trial_failed-Calm, end_trial-Calm,
  abort-Calm, ambiguous-Calm, close-Calm,
}
use oven_multiskill_runtime.Common.{String, Result, ok, err, faulted}
use oven_multiskill_runtime.Protocol.{InferenceRequest}
use oven_multiskill_runtime.Server.Audit.{RecordWrites}
use oven_multiskill_runtime.Server.Backend.{BackendIdentity, BackendResult}
use oven_multiskill_runtime.Server.Prepare.{
  prepare_enter, prepare_timed_out, prepare_load, prepare_install,
}
use oven_multiskill_runtime.Server.Inference.{
  Evidence, infer_enter, infer_policy, infer_commit, infer_leave,
}
use oven_multiskill_runtime.Server.Trial.{begin_trial}
use oven_multiskill_runtime.Server.Invariant.Begin.{after_begin_runtime}
use oven_multiskill_runtime.Server.Invariant.Infer.{infer_policy-IsCalm}
use oven_multiskill_runtime.Server.Invariant.Runs.{IsSane, flight_of_free}

module _ (hash : Value → String) (s : System) (v : IsValid s) (d : IsDown s.runtime.state) where
  prepare_enter-IsDown :
      (k : String) (t b n : ℕ) → IsDown (step hash (Event.prepare_skill k t b n) s).runtime.state
  unfolding step prepare_enter
  prepare_enter-IsDown k t b n = ground arith

  drain_wake-IsDown : (n : ℕ) → IsDown (step hash (Event.drain_wake n) s).runtime.state
  unfolding step
  drain_wake-IsDown n = ground arith

  prepare_acquire-IsDown : IsDown (step hash Event.prepare_acquire s).runtime.state
  unfolding step prepare_timed_out
  prepare_acquire-IsDown = ground arith

  prepare_load-IsDown :
      (o : Result BackendIdentity) → IsDown (step hash (Event.prepare_loaded o) s).runtime.state
  unfolding step prepare_load
  prepare_load-IsDown (ok i) = ground arith
  prepare_load-IsDown (err (faulted f)) = ground arith
  prepare_load-IsDown (err _) = ground arith

  prepare_install-IsDown : IsDown (step hash Event.prepare_done s).runtime.state
  unfolding step prepare_install
  prepare_install-IsDown = ground arith

  infer_enter-IsDown :
      (q : InferenceRequest) (n : ℕ) → IsDown (step hash (Event.infer_call q n) s).runtime.state
  unfolding step infer_enter
  infer_enter-IsDown q n = ground arith

  infer_policy-IsDown :
      (o : Result BackendResult) (hd : Result (Unit {0})) (io : RecordWrites)
      → IsDown (step hash (Event.policy_returns o hd io) s).runtime.state
  unfolding step
  infer_policy-IsDown o hd io = go s.lock
    where
      after :
          (i : ℕ) (q : InferenceRequest) (p : Result Evidence × PolicyRuntime)
          → Calm s.runtime p.1
          → IsDown (after_policy i q p s).runtime.state
      after i q (ok x, r) c = ground arith
      after i q (err x, r) c = ground arith

      go : (l : LockHolder) → IsDown (policy hash o hd io l s).runtime.state
      go (entered i q) =
          after i q (infer_policy hash o hd io q s.runtime)
            (infer_policy-IsCalm hash o hd io q s.runtime v.runtime_bound)
      go _ = d

  infer_commit-IsDown : IsDown (step hash Event.infer_answers s).runtime.state
  unfolding step infer_commit
  infer_commit-IsDown = ground arith

  infer_leave-IsDown : IsDown (step hash Event.infer_returns s).runtime.state
  unfolding step infer_leave
  infer_leave-IsDown = ground arith

module _ (hash : Value → String) where
  -- A region keeps the runtime down.
  pub step-state :
      (e : Event) (s : System)
      → IsSane e
      → IsValid s
      → IsDown s.runtime.state
      → IsDown (step hash e s).runtime.state
  unfolding step
  step-state (Event.begin_trial_call p m io i n) s h v d =
      let r = begin_trial (is_free s.lock) p m io i n s.runtime in
      ground (
        arith,
        after_begin_runtime r s,
        begin_trial-Calm s.runtime v.runtime_bound (is_free s.lock) p m io i n,
      )
  step-state Event.begin_trial_fails s h v d =
      ground (arith, begin_trial_failed-Calm s.runtime v.runtime_bound)
  step-state (Event.open_session_call i t n) s h v d =
      ground (arith, open_session-Calm s.runtime v.runtime_bound i t n)
  step-state (Event.close_session_call i) s h v d =
      ground (arith, close_session-Calm s.runtime v.runtime_bound i)
  step-state (Event.end_trial_call io io') s h v d =
      ground (arith, end_trial-Calm s.runtime v.runtime_bound io io')
  step-state (Event.abort_call io reason) s h v d =
      ground (
        arith,
        abort-Calm s.runtime v.runtime_bound (is_free s.lock) io reason (flight_of_free s v),
      )
  step-state (Event.ambiguous_call io i n) s h v d =
      ground (arith, ambiguous-Calm s.runtime v.runtime_bound io i n h)
  step-state (Event.close_call io o) s h v d =
      ground (arith, close-Calm s.runtime v.runtime_bound io o)
  step-state (Event.prepare_skill k t b n) s h v d = prepare_enter-IsDown hash s v d k t b n
  step-state (Event.drain_wake n) s h v d = drain_wake-IsDown hash s v d n
  step-state Event.prepare_acquire s h v d = prepare_acquire-IsDown hash s v d
  step-state (Event.prepare_loaded o) s h v d = prepare_load-IsDown hash s v d o
  step-state Event.prepare_done s h v d = prepare_install-IsDown hash s v d
  step-state (Event.infer_call q n) s h v d = infer_enter-IsDown hash s v d q n
  step-state (Event.policy_returns o hd io) s h v d = infer_policy-IsDown hash s v d o hd io
  step-state Event.infer_answers s h v d = infer_commit-IsDown hash s v d
  step-state Event.infer_returns s h v d = infer_leave-IsDown hash s v d
