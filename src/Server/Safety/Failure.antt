-- ===== src/Server/Safety/Failure.antt =====
-- What a failure leaves: the runtime stays down, and nothing more is started.
use oven_multiskill_runtime.Common.{
  ℕ, String, ◌≢◌, List, [], ◌∷◌, Option, ok, Raised, Result, ℤ, Bool, arith,
}
use oven_multiskill_runtime.Value.{Value}
use oven_multiskill_runtime.Protocol.{InferenceRequest}
use oven_multiskill_runtime.Server.Audit.{WriteOutcome}
use oven_multiskill_runtime.Server.Runtime.{PolicyRuntime, StatusReport, SessionLease}
use oven_multiskill_runtime.Server.Prepare.{Progress, prepare_enter}
use oven_multiskill_runtime.Server.Session.{SessionGrant, open_session}
use oven_multiskill_runtime.Server.Trial.{begin_trial}
use oven_multiskill_runtime.Server.Inference.{infer_enter}
use oven_multiskill_runtime.Server.System.{System, Event, step, run}
use oven_multiskill_runtime.Server.Invariant.{IsValid, IsBound, IsDown}
use oven_multiskill_runtime.Server.Invariant.Runs.{AllSane, step-IsValid}
use oven_multiskill_runtime.Server.Invariant.Down.{step-state}

module _ (hash : Value → String) where
  -- Once the runtime is FAILED or STOPPING, it stays so through every sequence of regions. It is
  -- supposed that the run began in a valid state, and that the write of an ambiguous trial's
  -- manifest raises only an `OSError`.
  pub run-IsDown :
      (es : List Event) (s : System)
      → AllSane es
      → IsValid s
      → IsDown s.runtime.state
      → IsDown (run hash es s).runtime.state
  unfolding run
  run-IsDown [] s h v d = d
  run-IsDown (e ∷ es) s h v d =
      run-IsDown es (step hash e s) h.1 (step-IsValid hash e s h.0 v) (step-state hash e s h.0 v d)

-- No operation that would lead to a new action succeeds on a runtime that is down.
pub record IsRefused (r : PolicyRuntime) : Type 0 where
  pub prepare :
      (k : String) (timeout begun now : ℕ) (p : Progress)
      → (prepare_enter k timeout begun now r).0 ≢ ok p
  pub begin :
      (acquired : Bool) (prng : Result (Unit {0})) (mkdir : Option Raised) (io : WriteOutcome)
      (i : String) (n : ℤ) (a : StatusReport)
      → (begin_trial acquired prng mkdir io i n r).0 ≢ ok a
  pub open_lease : (i t : String) (now : ℕ) (g : SessionGrant) → (open_session i t now r).0 ≢ ok g
  pub infer :
      (acquired : Bool) (q : InferenceRequest) (now : ℕ) (l : SessionLease)
      → (infer_enter acquired q now r).0 ≢ ok l

module _ (r : PolicyRuntime) (v : IsBound r) (d : IsDown r.state) where
  prepare_refused :
      (k : String) (timeout begun now : ℕ) (p : Progress)
      → (prepare_enter k timeout begun now r).0 ≢ ok p
  unfolding prepare_enter
  prepare_refused k timeout begun now p h = ground arith

  begin_refused :
      (acquired : Bool) (prng : Result (Unit {0})) (mkdir : Option Raised) (io : WriteOutcome)
      (i : String) (n : ℤ) (a : StatusReport)
      → (begin_trial acquired prng mkdir io i n r).0 ≢ ok a
  unfolding begin_trial
  begin_refused acquired prng mkdir io i n a h = ground arith

  open_refused : (i t : String) (now : ℕ) (g : SessionGrant) → (open_session i t now r).0 ≢ ok g
  unfolding open_session
  open_refused i t now g h = ground arith

  infer_refused :
      (acquired : Bool) (q : InferenceRequest) (now : ℕ) (l : SessionLease)
      → (infer_enter acquired q now r).0 ≢ ok l
  unfolding infer_enter
  infer_refused acquired q now l h = ground arith

-- A runtime that is down, with the invariant, prepares no skill, begins no trial, opens no
-- session and admits no inference.
pub down-IsRefused : (r : PolicyRuntime) → IsBound r → IsDown r.state → IsRefused r
down-IsRefused r v d = record {
  prepare = prepare_refused r v d;
  begin = begin_refused r v d;
  open_lease = open_refused r v d;
  infer = infer_refused r v d;
}
