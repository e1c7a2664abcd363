-- ===== src/Server/Safety/Authentication.antt =====
-- Who may reach the policy.
use oven_multiskill_runtime.Common.{
  ℕ, ◌<◌, ◌+◌, String, Bool, true, false, ◌≡◌, ◌≢◌, some, Result, ok, err, arith, eq_iff,
  Option-cases, holds_text_lem, inl, inr,
}
use oven_multiskill_runtime.State.{RuntimeState, SessionState}
use oven_multiskill_runtime.Protocol.{InferenceRequest}
use oven_multiskill_runtime.Server.Runtime.{PolicyRuntime, SessionLease}
use oven_multiskill_runtime.Server.Prepare.{waits, prepare_enter}
use oven_multiskill_runtime.Server.Inference.{Evidence, check_request, infer_enter, infer_commit}
use oven_multiskill_runtime.Server.System.{System}
use oven_multiskill_runtime.Server.Invariant.{IsBound, IsValid}

-- The request names the lease and everything that it is bound to, in time.
pub record Authenticates (q : InferenceRequest) (now : ℕ) (l : SessionLease) (r : PolicyRuntime)
    : Type 0 where
  pub current : r.session ≡ some l
  pub is_active : l.state ≡ SessionState.active
  pub in_time : now < l.expires_at_monotonic
  pub session_id : q.session_id ≡ l.session_id
  pub token : q.session_token ≡ l.token
  pub trial : (q.trial_id ≡ l.trial_id) × (r.trial_id ≡ some q.trial_id)
  pub skill : (q.expected_skill ≡ l.skill) × (r.active_skill ≡ some q.expected_skill)
  pub generation : (q.expected_generation ≡ l.generation) × (q.expected_generation ≡ r.generation)
  pub sequence : q.sequence ≡ l.next_sequence
  pub is_ready : r.state ≡ RuntimeState.ready

-- The part that `check_request` tests.
abbrev Matches : InferenceRequest → SessionLease → PolicyRuntime → Type 0
Matches q l r =
    (q.session_id ≡ l.session_id)
    × (q.session_token ≡ l.token)
    × (q.trial_id ≡ l.trial_id)
    × (r.trial_id ≡ some q.trial_id)
    × (q.expected_skill ≡ l.skill)
    × (r.active_skill ≡ some q.expected_skill)
    × (q.expected_generation ≡ l.generation)
    × (q.expected_generation ≡ r.generation)
    × (q.sequence ≡ l.next_sequence)
    × (r.state ≡ RuntimeState.ready)

check_request_sound :
    (q : InferenceRequest) (l : SessionLease) (r : PolicyRuntime)
    → check_request q l r ≡ ok tt
    → Matches q l r
unfolding check_request
check_request_sound q l r h = ground (
  arith,
  eq_iff q.session_id l.session_id,
  eq_iff q.session_token l.token,
  eq_iff q.trial_id l.trial_id,
  eq_iff q.expected_skill l.skill,
  holds_text_lem r.trial_id q.trial_id,
  holds_text_lem r.active_skill q.expected_skill,
)

-- What `infer_enter` does, by how it ends: an admitted request is authenticated and nothing but
-- the number of inferences in flight changes; a refused one reaches neither the backend nor the
-- trial store.
abbrev pub Admits :
    InferenceRequest → ℕ → PolicyRuntime → Result SessionLease × PolicyRuntime → Type 0
Admits q now r (ok l, r') =
    Authenticates q now l r × (r' ≡ record r { in_flight = r.in_flight + 1 })
Admits q now r (err e, r') =
    (r'.calls ≡ r.calls)
    × (r'.audit ≡ r.audit)
    × (r'.in_flight ≡ r.in_flight)
    × (r'.state ≡ r.state)

-- A request enters the policy only with the session's ID and token, before it expires, with the
-- trial, the skill and the generation of both the lease and the runtime, with the next sequence
-- number, and while the runtime is READY, and then only the number of inferences in flight changes;
-- a request that is refused leaves the backend's calls, the trial store, that number and the state
-- alone.
pub infer_enter-Admits :
    (acquired : Bool) (q : InferenceRequest) (now : ℕ) (r : PolicyRuntime)
    → Admits q now r (infer_enter acquired q now r)
unfolding infer_enter
infer_enter-Admits false q now r = ground arith
infer_enter-Admits true q now r = elim (Option-cases r.session) [
  | inl absent ↦ ground arith
  | inr (l, present) ↦ ground (arith, check_request_sound q l r)
]

-- When the invariant holds and a request has the next sequence number of the session, then once
-- its inference has answered the same request is refused at any time, as long as no other region
-- has run in between.
pub infer_commit_spends :
    (l : SessionLease) (q : InferenceRequest) (e : Evidence) (r : PolicyRuntime) (acquired : Bool)
    (now : ℕ) (l' : SessionLease)
    → IsBound r
    → r.session ≡ some l
    → q.sequence ≡ l.next_sequence
    → (infer_enter acquired q now (infer_commit l.ident q e r).1).0 ≢ ok l'
unfolding infer_commit
infer_commit_spends l q e r acquired now l' v h n bad =
    ground (arith, infer_enter-Admits acquired q now (infer_commit l.ident q e r).1)

-- While the invariant holds, `prepare_skill` never has to wait for an inference to drain: an
-- inference in flight means that a trial is active or that the runtime is down, and both refuse
-- the call.
pub prepare_never_waits :
    (s : System) (skill : String) (timeout begun now deadline : ℕ)
    → IsValid s
    → (prepare_enter skill timeout begun now s.runtime).0 ≢ ok (waits deadline)
unfolding prepare_enter
prepare_never_waits s skill timeout begun now deadline v h = ground arith
