-- ===== src/Edge/Contracts.antt =====
-- src/oven_runtime/edge/contracts.py: what the edge's components hand to one another. Positions,
-- errors and scores are whole numbers of a fixed small unit: the rounding of floats is not
-- modelled.
use oven_multiskill_runtime.Common.{ℕ, String, Bool, Option}
use oven_multiskill_runtime.Value.{Value}

-- A distance, or `float("inf")`.
pub data Extent : Type 0 where
  finite : ℕ → Extent
  infinite : Extent

pub record Observation : Type 0 where
  pub payload : Value
  pub captured_at_monotonic_ns : ℕ

pub record GateResult : Type 0 where
  pub passed : Bool
  pub samples : ℕ
  pub max_error : Extent
  pub max_spread : Extent
  pub reason : String

-- A negative count of rows is refused as 0 is, so the count is a natural number.
pub record PublishResult : Type 0 where
  pub stop_requested : Bool
  pub reason : Option String
  pub published_rows : ℕ
  pub gate_result : Option GateResult

pub record CheckerResult : Type 0 where
  pub passed : Bool
  pub score : ℕ
  pub threshold : ℕ
  pub asset_id : String
  pub reason : String
