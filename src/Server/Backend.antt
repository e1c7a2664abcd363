-- ===== src/Server/Backend.antt =====
-- src/oven_runtime/server/backend.py: what the runtime asks of a policy backend. The backend
-- itself is not code of the runtime: the outcome of each call is an argument of the operation that
-- makes it, and the runtime's state lists the calls made.
use oven_multiskill_runtime.Common.{String, ℤ}
use oven_multiskill_runtime.Value.{Value}
use oven_multiskill_runtime.Protocol.{RequestKind}

-- The asset hashes of an identity and the metadata of a result are reported by no operation of
-- the runtime, and are left out.
pub record BackendIdentity : Type 0 where
  pub backend : String
  pub skill : String
  pub model_id : String

pub record BackendResult : Type 0 where
  pub actions : Value
  pub noise_hash : String

pub data BackendCall : Type 0 where
  prepare : (skill : String) → BackendCall
  infer : (observation : Value) → RequestKind → BackendCall
  reset_prng : (seed : ℤ) → BackendCall
  close : BackendCall
