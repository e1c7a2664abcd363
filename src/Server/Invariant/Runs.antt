-- ===== src/Server/Invariant/Runs.antt =====
-- The invariant over whole runs of the server, and what it gives.
use oven_multiskill_runtime.Common.{ℕ, String, ◌≡◌, none, List, [], ◌∷◌, arith, true}
use oven_multiskill_runtime.Value.{Value}
use oven_multiskill_runtime.Server.Audit.{Store}
use oven_multiskill_runtime.Server.Audit.Effects.{IsOsOutcome}
use oven_multiskill_runtime.Server.Runtime.{start}
use oven_multiskill_runtime.Server.System.{System, Event, ambiguous_call, step, run, boot, is_free}
use oven_multiskill_runtime.Server.Invariant.{IsValid, Calm-IsValid}
use oven_multiskill_runtime.Server.Invariant.Calls.{
  open_session-Calm, close_session-Calm, begin_trial-Calm, begin_trial_failed-Calm, end_trial-Calm,
  abort-Calm, ambiguous-Calm, close-Calm,
}
use oven_multiskill_runtime.Server.Trial.{begin_trial}
use oven_multiskill_runtime.Server.Invariant.Begin.{after_begin-IsValid, begin_trial-IsHeld}
use oven_multiskill_runtime.Server.Invariant.Infer.{
  infer_enter-IsValid, infer_policy-IsValid, infer_commit-IsValid, infer_leave-IsValid,
}
use oven_multiskill_runtime.Server.Invariant.Prepare.{
  prepare_enter-IsValid, drain_wake-IsValid, prepare_acquire-IsValid, prepare_load-IsValid,
  prepare_install-IsValid,
}

-- The writes of an ambiguous trial's manifest fail with an `OSError`, if they fail.
abbrev pub IsSane : Event → Type 0
IsSane (ambiguous_call io i n) = IsOsOutcome io
IsSane _ = Unit

abbrev pub AllSane : List Event → Type 0
AllSane [] = Unit
AllSane (e ∷ es) = IsSane e × AllSane es

pub flight_of_free : (s : System) → IsValid s → is_free s.lock ≡ true → s.runtime.in_flight ≡ 0
flight_of_free s v h = ground arith

module _ (hash : Value → String) where
  pub step-IsValid : (e : Event) (s : System) → IsSane e → IsValid s → IsValid (step hash e s)
  unfolding step
  step-IsValid (Event.prepare_skill k t b n) s h v = prepare_enter-IsValid hash s v k t b n
  step-IsValid (Event.drain_wake n) s h v = drain_wake-IsValid hash s v n
  step-IsValid Event.prepare_acquire s h v = prepare_acquire-IsValid hash s v
  step-IsValid (Event.prepare_loaded o) s h v = prepare_load-IsValid hash s v o
  step-IsValid Event.prepare_done s h v = prepare_install-IsValid hash s v
  step-IsValid (Event.begin_trial_call p m io i n) s h v =
      after_begin-IsValid s v (begin_trial (is_free s.lock) p m io i n s.runtime)
        (begin_trial-Calm s.runtime v.runtime_bound (is_free s.lock) p m io i n)
        (begin_trial-IsHeld s p m io i n)
  step-IsValid Event.begin_trial_fails s h v =
      ground (arith, begin_trial_failed-Calm s.runtime v.runtime_bound)
  step-IsValid (Event.open_session_call i t n) s h v =
      Calm-IsValid s _ v (open_session-Calm s.runtime v.runtime_bound i t n)
  step-IsValid (Event.infer_call q n) s h v = infer_enter-IsValid hash s v q n
  step-IsValid (Event.policy_returns o hd io) s h v = infer_policy-IsValid hash s v o hd io
  step-IsValid Event.infer_answers s h v = infer_commit-IsValid hash s v
  step-IsValid Event.infer_returns s h v = infer_leave-IsValid hash s v
  step-IsValid (Event.close_session_call i) s h v =
      Calm-IsValid s _ v (close_session-Calm s.runtime v.runtime_bound i)
  step-IsValid (Event.end_trial_call io io') s h v =
      Calm-IsValid s _ v (end_trial-Calm s.runtime v.runtime_bound io io')
  step-IsValid (Event.abort_call io reason) s h v =
      Calm-IsValid s _ v
        (abort-Calm s.runtime v.runtime_bound (is_free s.lock) io reason (flight_of_free s v))
  step-IsValid (Event.ambiguous_call io i n) s h v =
      Calm-IsValid s _ v (ambiguous-Calm s.runtime v.runtime_bound io i n h)
  step-IsValid (Event.close_call io o) s h v =
      Calm-IsValid s _ v (close-Calm s.runtime v.runtime_bound io o)

  run_from-IsValid :
      (es : List Event) (s : System) → AllSane es → IsValid s → IsValid (run hash es s)
  unfolding run
  run_from-IsValid [] s h v = v
  run_from-IsValid (e ∷ es) s h v = run_from-IsValid es (step hash e s) h.1 (step-IsValid e s h.0 v)

start-IsValid : (ttl : ℕ) (audit : Store) → audit.active ≡ none → IsValid (boot (start ttl audit))
unfolding boot start
start-IsValid ttl audit h = ground arith

-- Every sequence of regions, of any threads in any order, from a server that has just started
-- on a store with no active trial, keeps the invariant: a session belongs to the trial, the skill
-- and the generation of a READY runtime, the runtime's trial is the store's, retired sessions have
-- no token, at most one inference is in flight, and no `prepare_skill` waits for a drain. It is
-- supposed that the write of an ambiguous trial's manifest raises only an `OSError`.
pub run-IsValid :
    (hash : Value → String) (ttl : ℕ) (audit : Store) (es : List Event)
    → audit.active ≡ none
    → AllSane es
    → IsValid (run hash es (boot (start ttl audit)))
run-IsValid hash ttl audit es h sane =
    run_from-IsValid hash es (boot (start ttl audit)) sane (start-IsValid ttl audit h)
