-- ===== src/Protocol/RoundTrip.antt =====
-- What the parser accepts, and that it reads back what the edge sends.
use oven_multiskill_runtime.Common.{
  ◌≤◌, ◌≡◌, String, Bool, true, false, Result, ok, err, arith, is_empty,
}
use oven_multiskill_runtime.Value.{Value, Fields, mapping}
use oven_multiskill_runtime.Protocol.{InferenceRequest, is_trial_id}
use oven_multiskill_runtime.Protocol.Parse.{
  check_fields, read_version, read_message_type, read_token, read_trial_id, read_kind,
  read_integers, read_observation, read_session_id, required_string, token_fits, parse_fields,
  parse, encode, has_fields, only_fields, is_dictionary,
}

-- A request that obeys the protocol.
pub record IsRequest (is_uuid : String → Bool) (q : InferenceRequest) : Type 0 where
  pub version : q.protocol_version ≡ 1
  pub session : (is_empty q.session_id ≡ false) × (is_uuid q.session_id ≡ true)
  pub token : (is_empty q.session_token ≡ false) × (token_fits q.session_token ≡ true)
  pub trial : (is_empty q.trial_id ≡ false) × (is_trial_id q.trial_id ≡ true)
  pub skill : is_empty q.expected_skill ≡ false
  pub generation : 1 ≤ q.expected_generation
  pub observed : is_dictionary q.observation ≡ true

-- A value that was read satisfies the predicate.
abbrev Gives : {A : Type 0} → (A → Type 0) → Result A → Type 0
Gives P (ok a) = P a
Gives P (err e) = Unit

module _ (is_uuid : String → Bool) (fs : Fields) where
  read_version-Gives : Gives (λ n. n ≡ 1) (read_version fs)
  unfolding read_version
  read_version-Gives = ground arith

  required_string-Gives :
      (name : String) → Gives (λ t. is_empty t ≡ false) (required_string name fs)
  unfolding required_string
  required_string-Gives name = ground arith

  read_session_id-Gives :
      Gives (λ t. (is_empty t ≡ false) × (is_uuid t ≡ true)) (read_session_id is_uuid fs)
  unfolding read_session_id
  read_session_id-Gives = ground arith

  read_token-Gives : Gives (λ t. (is_empty t ≡ false) × (token_fits t ≡ true)) (read_token fs)
  unfolding read_token
  read_token-Gives = ground (arith, required_string-Gives "session_token")

  read_trial_id-Gives :
      Gives (λ t. (is_empty t ≡ false) × (is_trial_id t ≡ true)) (read_trial_id fs)
  unfolding read_trial_id
  read_trial_id-Gives = ground (arith, required_string-Gives "trial_id")

  read_integers-Gives : Gives (λ n. 1 ≤ n.0) (read_integers fs)
  unfolding read_integers
  read_integers-Gives = ground arith

  read_observation-Gives : Gives (λ v. is_dictionary v ≡ true) (read_observation fs)
  unfolding read_observation
  read_observation-Gives = ground arith

  parse_fields-IsRequest :
      (q : InferenceRequest) → parse_fields is_uuid fs ≡ ok q → IsRequest is_uuid q
  unfolding parse_fields
  parse_fields-IsRequest q h = ground (
    arith,
    read_version-Gives,
    read_session_id-Gives,
    read_token-Gives,
    read_trial_id-Gives,
    required_string-Gives "expected_skill",
    read_integers-Gives,
    read_observation-Gives,
  )

-- Whatever payload the parser accepts, the request that it returns obeys the protocol: version 1,
-- a session ID that is a UUID, a token of 32 to 128 characters, a trial ID of the permitted form, a
-- skill that is not empty, a positive generation, and an observation that is a dictionary.
pub parse-IsRequest :
    (is_uuid : String → Bool) (v : Value) (q : InferenceRequest)
    → parse is_uuid v ≡ ok q
    → IsRequest is_uuid q
unfolding parse
parse-IsRequest is_uuid (mapping fs) q h = parse_fields-IsRequest is_uuid fs q h
parse-IsRequest is_uuid v q h = ground arith

-- The server's parser reads back every request that obeys the protocol from the payload that the
-- edge sends for it.
pub parse-encode :
    (is_uuid : String → Bool) (q : InferenceRequest)
    → IsRequest is_uuid q
    → parse is_uuid (mapping (encode q)) ≡ ok q
unfolding parse parse_fields encode check_fields has_fields only_fields read_version
    read_message_type read_token read_trial_id read_kind read_integers read_observation
    read_session_id required_string
parse-encode is_uuid q v = ground arith
