-- ===== src/Edge/InferenceClient/Matches.antt =====
-- The client takes the server's response to its request, and no response that does not match it.
use oven_multiskill_runtime.Common.{
  ℕ, String, true, ◌≡◌, ap, sym, subst, ◌∙◌, Option, some, List, [], ◌∷◌, length, codes, pos, ok,
  eq_refl, arith,
}
use oven_multiskill_runtime.Value.{Value, Fields, text, array, sequence, mapping, get}
use oven_multiskill_runtime.Value.Compare.{Comparison, Scalar, a_text, an_integer, equals}
use oven_multiskill_runtime.Protocol.{InferenceRequest, InferenceResponse}
use oven_multiskill_runtime.Server.Audit.{RecordWrites}
use oven_multiskill_runtime.Server.Runtime.{PolicyRuntime}
use oven_multiskill_runtime.Server.Backend.{BackendResult}
use oven_multiskill_runtime.Server.Inference.{
  Evidence, infer_policy, infer_commit, row_of, request_identity, response_of,
}
use oven_multiskill_runtime.Edge.InferenceClient.{
  response_fields, check_identity, check_content, check_response, validate_inference_response,
}

-- A field has a value that equals the expected one.
abbrev Holds : Comparison → Fields → String → Scalar → Type 0
Holds c fs name x = (v : Value) × (get name fs ≡ some v) × (equals c v x ≡ ok true)

abbrev AllHold : Comparison → Fields → List (String × Scalar) → Type 0
AllHold c fs [] = Unit
AllHold c fs ((name, x) ∷ rest) = Holds c fs name x × AllHold c fs rest

-- A field is the text, or an array that the comparison takes for equal to it. NumPy's `!=` of an
-- array and a text may be an empty array, which counts as false.
abbrev TextOrArray : Comparison → String → Option Value → Type 0
TextOrArray c t (some (array dtype shape bytes)) =
    c.array_equals dtype shape bytes (a_text t) ≡ ok true
TextOrArray c t v = v ≡ some (text t)

-- A text of 64 characters.
abbrev IsHash : Option Value → Type 0
IsHash (some (text t)) = length (codes t) ≡ 64
IsHash _ = ⊥

-- A response with the identity and the content of the request.
pub record Matches (c : Comparison) (hash : Value → String) (q : InferenceRequest) (fs : Fields)
    : Type 0 where
  pub session_id : TextOrArray c q.session_id (get "session_id" fs)
  pub trial_id : TextOrArray c q.trial_id (get "trial_id" fs)
  pub skill : TextOrArray c q.expected_skill (get "skill" fs)
  pub generation : Holds c fs "generation" (an_integer (pos q.expected_generation))
  pub sequence : Holds c fs "sequence" (an_integer (pos q.sequence))
  pub observation_hash : get "observation_hash" fs ≡ some (text (hash q.observation))
  pub request_hash : get "request_hash" fs ≡ some (text (hash (request_identity hash q)))
  pub noise_hash : IsHash (get "noise_hash" fs)
  pub action_hash :
      (actions : Value) × (get "actions" fs ≡ some actions)
      × (get "action_hash" fs ≡ some (text (hash actions)))

-- The server's evidence of an inference of the policy, and the response that it makes of it.
abbrev pub evidence_of : (Value → String) → InferenceRequest → BackendResult → Evidence
evidence_of hash q b = record { row = row_of hash q b; actions = b.actions }

abbrev pub answered : (Value → String) → InferenceRequest → BackendResult → Fields
answered hash q b = response_fields (response_of q (evidence_of hash q b))

abbrev AllHash : List String → Fields → Type 0
AllHash [] fs = Unit
AllHash (name ∷ names) fs = IsHash (get name fs) × AllHash names fs

module _ (c : Comparison) where
  module _ (hash : Value → String) where
    identity_lem :
        (q : InferenceRequest) (b : BackendResult)
        → check_identity c hash q (answered hash q b) ≡ ok tt
    unfolding check_identity response_fields
    identity_lem q b =
        ground (arith, eq_refl q.session_id, eq_refl q.trial_id, eq_refl q.expected_skill)

    content_lem :
        (q : InferenceRequest) (b : BackendResult)
        → ((v : Value) → length (codes (hash v)) ≡ 64)
        → length (codes b.noise_hash) ≡ 64
        → check_content c hash q (answered hash q b) ≡ ok tt
    unfolding check_content response_fields
    content_lem q b h n = ground (
      arith,
      h q.observation,
      h (request_identity hash q),
      h b.actions,
      eq_refl (hash q.observation),
      eq_refl (hash (request_identity hash q)),
      eq_refl (hash b.actions),
    )

    response_lem :
        (q : InferenceRequest) (b : BackendResult)
        → ((v : Value) → length (codes (hash v)) ≡ 64)
        → length (codes b.noise_hash) ≡ 64
        → check_response c hash q (answered hash q b) ≡ ok (answered hash q b)
    unfolding check_response response_fields
    response_lem q b h n = ground (arith, identity_lem q b, content_lem q b h n)

    validate-answered :
        (q : InferenceRequest) (b : BackendResult)
        → ((v : Value) → length (codes (hash v)) ≡ 64)
        → length (codes b.noise_hash) ≡ 64
        → validate_inference_response c hash q (mapping (answered hash q b))
          ≡ ok (answered hash q b)
    unfolding validate_inference_response response_fields
    validate-answered q b h n = ground (arith, response_lem q b h n)

module _ (hash : Value → String) where
  -- What the server's regions make of an inference of the policy.
  policy_evidence :
      (io : RecordWrites) (q : InferenceRequest) (b : BackendResult) (r : PolicyRuntime)
      (e : Evidence)
      → (infer_policy hash (ok b) (ok tt) io q r).0 ≡ ok e
      → e ≡ evidence_of hash q b
  unfolding infer_policy
  policy_evidence io q b r e h = ground arith

  commit_response :
      (ident : ℕ) (q : InferenceRequest) (e : Evidence) (r : PolicyRuntime) (a : InferenceResponse)
      → (infer_commit ident q e r).0 ≡ ok a
      → a ≡ response_of q e
  unfolding infer_commit
  commit_response ident q e r a h = ground arith

-- The edge accepts every response of the server to its request: whatever the policy returned, a
-- response that the server's regions make of it passes the client's checks unchanged. It is supposed
-- that hashes are texts of 64 characters, the backend's noise hash too.
pub infer_commit-validates :
    (c : Comparison) (hash : Value → String) (io : RecordWrites) (ident : ℕ) (q : InferenceRequest)
    (b : BackendResult) (r r' : PolicyRuntime) (e : Evidence) (a : InferenceResponse)
    → ((v : Value) → length (codes (hash v)) ≡ 64)
    → length (codes b.noise_hash) ≡ 64
    → (infer_policy hash (ok b) (ok tt) io q r).0 ≡ ok e
    → (infer_commit ident q e r').0 ≡ ok a
    → validate_inference_response c hash q (mapping (response_fields a)) ≡ ok (response_fields a)
infer_commit-validates c hash io ident q b r r' e a h n p k =
    let same : a ≡ response_of q (evidence_of hash q b) =
      commit_response hash ident q e r' a k
      ∙ ap (response_of q) (policy_evidence hash io q b r e p) in
    subst
      (λ x.
        validate_inference_response c hash q (mapping (response_fields x)) ≡ ok (response_fields x))
      (sym same) (validate-answered c hash q b h n)
