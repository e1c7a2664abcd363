-- ===== src/Server/Invariant/Prepare.antt =====
-- The regions of `prepare_skill` keep the invariant, and its drain has nothing to wait for.
use oven_multiskill_runtime.Common.{ℕ, ◌≡◌, ◌⊎◌, String, Result, ok, err, faulted, arith}
use oven_multiskill_runtime.Value.{Value}
use oven_multiskill_runtime.State.{RuntimeState}
use oven_multiskill_runtime.Server.Runtime.{PolicyRuntime}
use oven_multiskill_runtime.Server.Backend.{BackendIdentity}
use oven_multiskill_runtime.Server.Prepare.{
  Progress, waits, switched, drain_locked, prepare_enter, prepare_timed_out, prepare_load,
  prepare_install,
}
use oven_multiskill_runtime.Server.System.{
  after_prepare, System, step, prepare_skill, drain_wake, prepare_acquire, prepare_loaded,
  prepare_done,
}
use oven_multiskill_runtime.Server.Invariant.{IsValid, IsBound, IsDown, HasSession}

-- How the first region of `prepare_skill` ends: refused with nothing changed, or past the drain
-- with the model to be loaded.
abbrev Enters : PolicyRuntime → Result Progress × PolicyRuntime → Type 0
Enters r (err e, r') = r' ≡ r
Enters r (ok (waits d), r') = ⊥
Enters r (ok switched, r') =
    IsBound r'
    × (r.in_flight ≡ 0)
    × (r'.in_flight ≡ 0)
    × (r'.state ≡ RuntimeState.loading)
    × ((r.state ≡ RuntimeState.starting) ⊎ (r.state ≡ RuntimeState.ready))

-- What the invariant of the system says of the runtime to this region.
abbrev IsSettled : PolicyRuntime → Type 0
IsSettled r =
    ((r.in_flight ≡ 0) ⊎ HasSession r.session ⊎ IsDown r.state)
    × ((r.state ≡ RuntimeState.starting)
        ⊎ (r.state ≡ RuntimeState.ready)
        ⊎ (r.state ≡ RuntimeState.loading)
        ⊎ IsDown r.state)

prepare_enter-Enters :
    (r : PolicyRuntime)
    → IsBound r
    → IsSettled r
    → (skill : String) (timeout begun now : ℕ) → Enters r (prepare_enter skill timeout begun now r)
unfolding prepare_enter
prepare_enter-Enters r v h skill timeout begun now = ground arith

settled : (s : System) → IsValid s → IsSettled s.runtime
settled s v = ground arith

after_prepare-IsValid :
    (s : System)
    → IsValid s
    → (skill : String) (p : Result Progress × PolicyRuntime) → Enters s.runtime p
    → IsValid (after_prepare skill p s)
after_prepare-IsValid s v skill (err e, r) h = ground arith
after_prepare-IsValid s v skill (ok (waits d), r) h = absurd h
after_prepare-IsValid s v skill (ok switched, r) h = ground arith

module _ (hash : Value → String) (s : System) (v : IsValid s) where
  pub prepare_enter-IsValid :
      (skill : String) (timeout begun now : ℕ)
      → IsValid (step hash (prepare_skill skill timeout begun now) s)
  unfolding step
  prepare_enter-IsValid skill timeout begun now =
      after_prepare-IsValid s v skill (prepare_enter skill timeout begun now s.runtime)
        (prepare_enter-Enters s.runtime v.runtime_bound (settled s v) skill timeout begun now)

  pub drain_wake-IsValid : (now : ℕ) → IsValid (step hash (drain_wake now) s)
  unfolding step drain_locked
  drain_wake-IsValid now = ground arith

  pub prepare_acquire-IsValid : IsValid (step hash prepare_acquire s)
  unfolding step prepare_timed_out
  prepare_acquire-IsValid = ground arith

  pub prepare_load-IsValid :
      (outcome : Result BackendIdentity) → IsValid (step hash (prepare_loaded outcome) s)
  unfolding step prepare_load
  prepare_load-IsValid (ok i) = ground arith
  prepare_load-IsValid (err (faulted f)) = ground arith
  prepare_load-IsValid (err _) = ground arith

  pub prepare_install-IsValid : IsValid (step hash prepare_done s)
  unfolding step prepare_install
  prepare_install-IsValid = ground arith
