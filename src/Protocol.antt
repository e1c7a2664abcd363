-- ===== src/Protocol.antt =====
-- src/oven_runtime/common/protocol.py: the envelope of an inference request and of its response.
pub mod Parse
pub mod RoundTrip
mod Tests
use oven_multiskill_runtime.Common.{
  ℕ, String, Bool, true, false, List, [], ◌∷◌, ◌&&◌, ◌||◌, ◌==◌, leb, all, length, codes,
}
use oven_multiskill_runtime.Value.{Value}

pub data RequestKind : Type 0 where
  infer : RequestKind

-- A parsed request: the integers have passed their minimum, so they are naturals.
pub record InferenceRequest : Type 0 where
  pub protocol_version : ℕ
  pub session_id : String
  pub session_token : String
  pub trial_id : String
  pub request_kind : RequestKind
  pub expected_skill : String
  pub expected_generation : ℕ
  pub sequence : ℕ
  pub sent_at_monotonic_ns : ℕ
  pub observation : Value

pub record InferenceResponse : Type 0 where
  pub session_id : String
  pub trial_id : String
  pub skill : String
  pub generation : ℕ
  pub sequence : ℕ
  pub publishable : Bool
  pub request_hash : String
  pub observation_hash : String
  pub noise_hash : String
  pub action_hash : String
  pub actions : Value

abbrev pub is_alphanumeric : ℕ → Bool
is_alphanumeric c =
    (leb b'A' c && leb c b'Z') || (leb b'a' c && leb c b'z') || (leb b'0' c && leb c b'9')

abbrev pub is_trial_id_character : ℕ → Bool
is_trial_id_character c = is_alphanumeric c || c == b'_' || c == b'.' || c == b'-'

abbrev pub matches_trial_id : List ℕ → Bool
matches_trial_id [] = false
matches_trial_id (c ∷ cs) = is_alphanumeric c && all is_trial_id_character cs && leb (length cs) 127

-- `TRIAL_ID_PATTERN.fullmatch(s) is not None`, for `[A-Za-z0-9][A-Za-z0-9_.-]{0,127}\Z`.
unfoldable pub is_trial_id : String → Bool
is_trial_id s = matches_trial_id (codes s)
