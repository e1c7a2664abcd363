-- ===== src/Protocol/Parse.antt =====
-- src/oven_runtime/common/protocol.py: `InferenceRequest.parse`, and the request that
-- src/oven_runtime/edge/orchestrator.py builds in `_request`. `UUID` of the standard library is a
-- parameter that says which texts it accepts. A method's state is the payload, which it only reads.
use oven_multiskill_runtime.Common.{
  ℕ, String, Bool, true, false, none, some, List, [], ◌∷◌, ◌&&◌, ◌||◌, ◌==◌, ltb, leb, not, all,
  length, codes, is_some, is_empty, str_eq, pos, negsuc, Result, ok, err, faulted, other,
  if◌then◌else◌,
}
use oven_multiskill_runtime.Errors.{
  RuntimeFault, fault, missing_required_field, unexpected_field, invalid_field_type,
  invalid_field_value, protocol_version_unsupported, invalid_message_type,
}
use oven_multiskill_runtime.Value.{Value, Fields, end, field, get, text, integer, mapping}
use oven_multiskill_runtime.Protocol.{InferenceRequest, RequestKind, is_trial_id}

-- `REQUIRED_REQUEST_FIELDS`
abbrev pub required_request_fields : List String
required_request_fields =
    "protocol_version" ∷ "message_type" ∷ "session_id" ∷ "session_token" ∷ "trial_id"
    ∷ "request_kind" ∷ "expected_skill" ∷ "expected_generation" ∷ "sequence"
    ∷ "sent_at_monotonic_ns" ∷ "observation" ∷ []

abbrev pub has_text : String → List String → Bool
has_text k [] = false
has_text k (t ∷ ts) = str_eq k t || has_text k ts

-- `not expected - set(payload)`, and `not set(payload) - expected`.
unfoldable pub has_fields : List String → Fields → Bool
has_fields expected fs = all (λ k. is_some (get k fs)) expected

unfoldable pub only_fields : List String → Fields → Bool
only_fields expected end = true
only_fields expected (field k v fs) = has_text k expected && only_fields expected fs

-- A reader of the payload, which may fail.
abbrev pub Reader : Type 0 → Type 0
Reader A = Fields → Result A

infixl 5 ◌>>=◌ ◌>>◌
abbrev pub ◌>>=◌ : {A B : Type 0} → Reader A → (A → Reader B) → Reader B
◌>>=◌ m f fs = elim (m fs) [ ok a ↦ f a fs | err e ↦ err e ]

abbrev pub ◌>>◌ : {A B : Type 0} → Reader A → Reader B → Reader B
m >> k = m >>= λ _. k

abbrev pub give : {A : Type 0} → Result A → Reader A
give r fs = r

abbrev pub refuse_if : Bool → RuntimeFault → Reader (Unit {0})
refuse_if c f fs = if c then err (faulted f) else ok tt

-- `payload[key]`
abbrev pub read : String → Reader Value
read key fs = elim (get key fs) [ none ↦ err other | some v ↦ ok v ]

abbrev text_of : Value → Result String
text_of (text t) =
    if is_empty t
    then err (faulted (fault invalid_field_value "request field must not be empty"))
    else ok t
text_of _ = err (faulted (fault invalid_field_type "request field must be a string"))

-- `_required_string`
unfoldable pub required_string : String → Reader String
required_string name = do v ← read name; give (text_of v)

abbrev version_of : Value → Result ℕ
version_of (integer (pos n)) =
    if n == 1
    then ok n
    else err (faulted (fault protocol_version_unsupported "unsupported protocol version"))
version_of (integer (negsuc n)) =
    err (faulted (fault protocol_version_unsupported "unsupported protocol version"))
version_of _ = err (faulted (fault invalid_field_type "protocol_version must be an integer"))

abbrev is_message : String → Value → Bool
is_message name (text t) = str_eq t name
is_message name _ = false

-- `RequestKind(value)`
abbrev kind_of : Value → Result RequestKind
kind_of (text t) =
    if str_eq t "infer"
    then ok RequestKind.infer
    else err (faulted (fault invalid_field_value "request_kind is invalid"))
kind_of _ = err (faulted (fault invalid_field_value "request_kind is invalid"))

-- An integer that is not below the minimum.
abbrev natural_of : ℕ → Value → Result ℕ
natural_of minimum (integer (pos n)) =
    if ltb n minimum
    then err (faulted (fault invalid_field_value "request integer is below minimum"))
    else ok n
natural_of minimum (integer (negsuc n)) =
    err (faulted (fault invalid_field_value "request integer is below minimum"))
natural_of minimum _ = err (faulted (fault invalid_field_type "request field must be an integer"))

-- `isinstance(value, dict)`
abbrev pub is_dictionary : Value → Bool
is_dictionary (mapping fs) = true
is_dictionary _ = false

abbrev observation_of : Value → Result Value
observation_of (mapping fs) = ok (mapping fs)
observation_of _ = err (faulted (fault invalid_field_type "observation must be a dictionary"))

-- `32 <= len(session_token) <= 128`
abbrev pub token_fits : String → Bool
token_fits t = leb 32 (length (codes t)) && leb (length (codes t)) 128

-- The sets of the fields.
unfoldable pub check_fields : List String → Reader (Unit {0})
check_fields expected fs =
    if not (has_fields expected fs)
    then err (faulted (fault missing_required_field "inference request is missing required fields"))
    else if not (only_fields expected fs)
    then err (faulted (fault unexpected_field "inference request contains unexpected fields"))
    else ok tt

unfoldable pub read_version : Reader ℕ
read_version = do v ← read "protocol_version"; give (version_of v)

unfoldable pub read_message_type : String → Reader (Unit {0})
read_message_type name = do
  v ← read "message_type"
  refuse_if (not (is_message name v))
      (fault invalid_message_type "message_type must be inference_request")

unfoldable pub read_token : Reader String
unfolding required_string
read_token = do
  token ← required_string "session_token"
  refuse_if (not (token_fits token)) (fault invalid_field_value "session_token length is invalid")
  give (ok token)

unfoldable pub read_trial_id : Reader String
unfolding required_string
read_trial_id = do
  trial_id ← required_string "trial_id"
  refuse_if (not (is_trial_id trial_id)) (fault invalid_field_value "trial_id format is invalid")
  give (ok trial_id)

unfoldable pub read_kind : Reader RequestKind
read_kind = do v ← read "request_kind"; give (kind_of v)

-- The three integers are read before the first of them is tested.
unfoldable pub read_integers : Reader (ℕ × ℕ × ℕ)
read_integers = do
  raw_generation ← read "expected_generation"
  raw_sequence ← read "sequence"
  raw_sent_at ← read "sent_at_monotonic_ns"
  generation ← give (natural_of 1 raw_generation)
  sequence ← give (natural_of 0 raw_sequence)
  sent_at ← give (natural_of 0 raw_sent_at)
  give (ok (generation, sequence, sent_at))

unfoldable pub read_observation : Reader Value
read_observation = do v ← read "observation"; give (observation_of v)

module _ (is_uuid : String → Bool) where
  unfoldable pub read_session_id : Reader String
  unfolding required_string
  read_session_id = do
    session_id ← required_string "session_id"
    refuse_if (not (is_uuid session_id)) (fault invalid_field_value "session_id must be a UUID")
    give (ok session_id)

  -- The payload's fields, one by one in the order of the code.
  unfoldable pub parse_fields : Reader InferenceRequest
  parse_fields = do
    check_fields required_request_fields
    version ← read_version
    read_message_type "inference_request"
    session_id ← read_session_id
    session_token ← read_token
    trial_id ← read_trial_id
    request_kind ← read_kind
    expected_skill ← required_string "expected_skill"
    (generation, sequence, sent_at) ← read_integers
    observation ← read_observation
    give (
        ok (record {
          protocol_version = version;
          session_id = session_id;
          session_token = session_token;
          trial_id = trial_id;
          request_kind = request_kind;
          expected_skill = expected_skill;
          expected_generation = generation;
          sequence = sequence;
          sent_at_monotonic_ns = sent_at;
          observation = observation;
        }))

  -- `InferenceRequest.parse`
  unfoldable pub parse : Value → Result InferenceRequest
  parse (mapping fs) = parse_fields fs
  parse _ = err (faulted (fault invalid_field_type "inference request must be a mapping"))

-- The request that the edge sends, of the same content.
unfoldable pub encode : InferenceRequest → Fields
encode q = field "protocol_version" (integer (pos q.protocol_version)) (
    field "message_type" (text "inference_request") (
      field "session_id" (text q.session_id) (
        field "session_token" (text q.session_token) (
          field "trial_id" (text q.trial_id) (
            field "request_kind" (text "infer") (
              field "expected_skill" (text q.expected_skill) (
                field "expected_generation" (integer (pos q.expected_generation)) (
                  field "sequence" (integer (pos q.sequence)) (
                    field "sent_at_monotonic_ns" (integer (pos q.sent_at_monotonic_ns))
                      (field "observation" q.observation end))))))))))
