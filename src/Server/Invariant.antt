-- ===== src/Server/Invariant.antt =====
-- What holds of the server's runtime between two regions.
pub mod Calls
pub mod Begin
pub mod Infer
pub mod Prepare
pub mod Runs
pub mod Down
use oven_multiskill_runtime.Common.{
  ℕ, ◌<◌, String, ◌≡◌, ◌≢◌, ◌⊎◌, Option, none, some, List, [], ◌∷◌, arith, Raised, Result, ok, err,
  catch, ◌>>=◌, ◌>>◌, Bool, true, false, raise_if,
}
use oven_multiskill_runtime.Errors.{RuntimeFault}
use oven_multiskill_runtime.State.{RuntimeState, SessionState}
use oven_multiskill_runtime.Server.Audit.Effects.{trial_of}
use oven_multiskill_runtime.Server.Runtime.{PolicyRuntime, SessionLease, Method}
use oven_multiskill_runtime.Server.System.{
  System, LockHolder, entered, recorded, leaving, loading, begin_failing, Preparing, idle, draining,
  acquiring, using_lock, installing,
}

-- A lease that can be used belongs to the trial, the skill and the generation of the runtime.
abbrev pub LeaseBound : Option SessionLease → PolicyRuntime → Type 0
LeaseBound none r = Unit
LeaseBound (some l) r =
    (l.state ≡ SessionState.active)
    × (r.state ≡ RuntimeState.ready)
    × (r.trial_id ≡ some l.trial_id)
    × (r.active_skill ≡ some l.skill)
    × (r.generation ≡ l.generation)
    × (l.ident < r.leases)

-- A lease that was given up can authenticate no request.
abbrev pub AllRetired : List SessionLease → Type 0
AllRetired [] = Unit
AllRetired (l ∷ ls) = (l.state ≢ SessionState.active) × (l.token ≡ "") × AllRetired ls

abbrev pub IsDown : RuntimeState → Type 0
IsDown s = (s ≡ RuntimeState.failed) ⊎ (s ≡ RuntimeState.stopping)

-- The lease object `ident` is the session.
abbrev pub Holds : ℕ → Option SessionLease → Type 0
Holds ident none = ⊥
Holds ident (some l) = l.ident ≡ ident

abbrev pub HasSession : Option SessionLease → Type 0
HasSession none = ⊥
HasSession (some l) = Unit

-- One inference is in flight exactly while a thread is inside one, and while it is, its lease
-- stands unless the runtime is down.
abbrev pub LockBound : LockHolder → PolicyRuntime → Type 0
LockBound LockHolder.free r = r.in_flight ≡ 0
LockBound (entered ident q) r = (r.in_flight ≡ 1) × (Holds ident r.session ⊎ IsDown r.state)
LockBound (recorded ident q e) r = (r.in_flight ≡ 1) × (Holds ident r.session ⊎ IsDown r.state)
LockBound leaving r = (r.in_flight ≡ 1) × (HasSession r.session ⊎ IsDown r.state)
LockBound (loading skill) r = r.in_flight ≡ 0
LockBound begin_failing r = r.in_flight ≡ 0

-- No thread waits for a drain, and a thread inside `prepare_skill` keeps the runtime from being
-- ready; with none inside, the runtime is not between two skills.
abbrev pub PreparingBound : Preparing → PolicyRuntime → Type 0
PreparingBound idle r =
    (r.state ≡ RuntimeState.starting)
    ⊎ (r.state ≡ RuntimeState.ready)
    ⊎ (r.state ≡ RuntimeState.loading)
    ⊎ IsDown r.state
PreparingBound (draining skill deadline) r = ⊥
PreparingBound (acquiring skill) r = (r.state ≡ RuntimeState.loading) ⊎ IsDown r.state
PreparingBound using_lock r = (r.state ≡ RuntimeState.loading) ⊎ IsDown r.state
PreparingBound (installing skill i) r = (r.state ≡ RuntimeState.loading) ⊎ IsDown r.state

-- The execution lock is held for a load by the thread that is inside `prepare_skill`.
abbrev pub LoadBound : LockHolder → Preparing → Type 0
LoadBound (loading skill) using_lock = Unit
LoadBound (loading skill) _ = ⊥
LoadBound _ using_lock = ⊥
LoadBound _ _ = Unit

-- What holds of the runtime alone.
pub record IsBound (r : PolicyRuntime) : Type 0 where
  pub lease_bound : LeaseBound r.session r
  pub trial_bound : r.trial_id ≡ trial_of r.audit.active
  pub all_retired : AllRetired r.retired

pub record IsValid (s : System) : Type 0 where
  pub runtime_bound : IsBound s.runtime
  pub lock_bound : LockBound s.lock s.runtime
  pub preparing_bound : PreparingBound s.preparing s.runtime
  pub load_bound : LoadBound s.lock s.preparing

-- The session, if there is one, is the same object, unless the runtime is down or no inference
-- is in flight.
abbrev pub Kept : Option SessionLease → PolicyRuntime → Type 0
Kept none r = Unit
Kept (some l) r = Holds l.ident r.session ⊎ IsDown r.state ⊎ (r.in_flight ≡ 0)

-- A region that other threads do not notice, but for a runtime that goes down.
pub record Calm (r r' : PolicyRuntime) : Type 0 where
  pub bound : IsBound r'
  pub flight : r'.in_flight ≡ r.in_flight
  pub same_state : (r'.state ≡ r.state) ⊎ IsDown r'.state
  pub kept : Kept r.session r'

-- A calm region keeps the invariant of the system.
pub Calm-IsValid :
    (s : System) (r' : PolicyRuntime)
    → IsValid s
    → Calm s.runtime r'
    → IsValid (record s { runtime = r' })
Calm-IsValid s r' v c = ground arith

-- A region that changes nothing.
pub Calm-refl : (r : PolicyRuntime) → IsBound r → Calm r r
Calm-refl r v = ground arith

-- Calm follows calm.
pub Calm-trans : (a b c : PolicyRuntime) → Calm a b → Calm b c → Calm a c
Calm-trans a b c p q = ground arith

-- A method that is calm from every bound state, on each of its branches.
abbrev pub IsCalm : {A : Type 0} → Method A → Type 0
IsCalm m = (r : PolicyRuntime) → IsBound r → Calm r (m r).1

module _ {A : Type 0} where
  -- A test before a calm method.
  pub guard-IsCalm :
      (c : Bool) (f : RuntimeFault) (m : Method A) → IsCalm m → IsCalm (raise_if c f >> m)
  guard-IsCalm true f m k r v = Calm-refl r v
  guard-IsCalm false f m k r v = k r v

  after_catch :
      (h : Raised → Method A) (r : PolicyRuntime) (p : Result A × PolicyRuntime)
      → ((e : Raised) → IsCalm (h e))
      → Calm r p.1
      → Calm r (catch (λ (t : PolicyRuntime). p) h r).1
  after_catch h r (ok a, r') k c = c
  after_catch h r (err e, r') k c = Calm-trans r r' (h e r').1 c (k e r' c.bound)

  pub catch-IsCalm :
      (m : Method A) (h : Raised → Method A)
      → IsCalm m
      → ((e : Raised) → IsCalm (h e))
      → IsCalm (catch m h)
  catch-IsCalm m h c k r v = after_catch h r (m r) k (c r v)
