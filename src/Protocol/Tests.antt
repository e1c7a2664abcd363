-- ===== src/Protocol/Tests.antt =====
-- The protocol at one request.
use oven_multiskill_runtime.Common.{String, Bool, ◌≡◌, ok, str_eq, refl, arith}
use oven_multiskill_runtime.Value.{end, mapping}
use oven_multiskill_runtime.Protocol.{InferenceRequest, RequestKind, is_trial_id}
use oven_multiskill_runtime.Protocol.Parse.{parse, encode}
use oven_multiskill_runtime.Protocol.RoundTrip.{IsRequest, parse-IsRequest, parse-encode}

abbrev session_id : String
session_id = "00000000-0000-0000-0000-000000000001"

-- A test of UUIDs that knows one.
abbrev is_uuid : String → Bool
is_uuid t = str_eq t session_id

abbrev request : InferenceRequest
request = record {
  protocol_version = 1;
  session_id = session_id;
  session_token = "a-token-of-at-least-thirty-two-characters";
  trial_id = "run1_0_open_door";
  request_kind = RequestKind.infer;
  expected_skill = "open_door";
  expected_generation = 1;
  sequence = 0;
  sent_at_monotonic_ns = 0;
  observation = mapping end;
}

request-IsRequest : IsRequest is_uuid request
unfolding is_trial_id
request-IsRequest = record {
  version = refl;
  session = (refl, refl);
  token = (refl, refl);
  trial = (refl, refl);
  skill = refl;
  generation = ground arith;
  observed = refl;
}

parse-encode_example : parse is_uuid (mapping (encode request)) ≡ ok request
parse-encode_example = parse-encode is_uuid request request-IsRequest

parse-IsRequest_example : IsRequest is_uuid request
parse-IsRequest_example =
    parse-IsRequest is_uuid (mapping (encode request)) request
      (parse-encode is_uuid request request-IsRequest)
