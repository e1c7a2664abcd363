-- ===== src/Server/Control/Replies.antt =====
-- Every control payload gets one reply.
use oven_multiskill_runtime.Common.{
  String, true, false, ◌≡◌, ◌≢◌, ◌⊎◌, sym, ◌∙◌, Raised, faulted, interrupt, file_exists, os_error,
  other, Action, Bool, if◌then◌else◌, inl, inr, refl, none, some, [], ◌∷◌, subst, if◌then◌else◌,
  Result, ok, err, arith,
}
use oven_multiskill_runtime.Value.{Value, Fields, text, mapping}
use oven_multiskill_runtime.Protocol.Parse.{has_fields, only_fields}
use oven_multiskill_runtime.Server.Control.{
  ControlRequest, ControlCall, parse_control, dispatch, plain, with_text, trial_arguments,
  command_of,
}
use oven_multiskill_runtime.Errors.{RuntimeFault, fault, server_failed}
use oven_multiskill_runtime.Server.Control.{Reply, execute, answer, reply_to, run_request}
use oven_multiskill_runtime.Server.Control.Asks.{
  name_of, IsEnvelope, IsArguments, Asks, KeysIn-only_fields, parse_control-IsEnvelope,
}
use oven_multiskill_runtime.Server.Control.Sound.{dispatch-Fits}

name_supported : (c : ControlCall) → command_of (text (name_of c)) ≡ ok (name_of c)
name_supported ControlCall.status = refl
name_supported (ControlCall.prepare_skill k) = refl
name_supported (ControlCall.begin_trial t n) = refl
name_supported ControlCall.open_session = refl
name_supported (ControlCall.close_session t) = refl
name_supported ControlCall.end_trial = refl
name_supported (ControlCall.abort t) = refl

IsEnvelope-parse_control :
    (fs arguments : Fields) (c : ControlCall)
    → IsEnvelope fs (name_of c) arguments
    → parse_control (mapping fs) ≡ ok (record { command = name_of c; arguments = arguments })
unfolding parse_control has_fields
IsEnvelope-parse_control fs arguments c e = ground (
  arith,
  e.version,
  e.named,
  e.carries,
  name_supported c,
  KeysIn-only_fields ("protocol_version" ∷ "command" ∷ "arguments" ∷ []) fs e.keys,
)

IsArguments-dispatch :
    (c : ControlCall) (fs : Fields)
    → IsArguments c fs
    → dispatch (record { command = name_of c; arguments = fs }) ≡ ok c
unfolding dispatch has_fields only_fields
IsArguments-dispatch ControlCall.status fs a =
    subst
      (λ x.
        dispatch (record { command = name_of ControlCall.status; arguments = x })
        ≡ ok ControlCall.status)
      (sym a) refl
IsArguments-dispatch ControlCall.open_session fs a =
    subst
      (λ x.
        dispatch (record { command = name_of ControlCall.open_session; arguments = x })
        ≡ ok ControlCall.open_session)
      (sym a) refl
IsArguments-dispatch ControlCall.end_trial fs a =
    subst
      (λ x.
        dispatch (record { command = name_of ControlCall.end_trial; arguments = x })
        ≡ ok ControlCall.end_trial)
      (sym a) refl
IsArguments-dispatch (ControlCall.prepare_skill t) fs a =
    ground (arith, a, KeysIn-only_fields ("skill" ∷ []) fs a.2)
IsArguments-dispatch (ControlCall.close_session t) fs a =
    ground (arith, a, KeysIn-only_fields ("session_id" ∷ []) fs a.2)
IsArguments-dispatch (ControlCall.abort t) fs a =
    ground (arith, a, KeysIn-only_fields ("reason" ∷ []) fs a.2)
IsArguments-dispatch (ControlCall.begin_trial t n) fs a =
    ground (arith, a, KeysIn-only_fields ("trial_id" ∷ "root_seed" ∷ []) fs a.3)

ok_not_err {ℓ} : {A : Type ℓ} {a : A} {e : Raised} → ¬ (ok a ≡ err e)
ok_not_err h = cc h

not_both :
    (q q' : ControlRequest) (e : Raised) (c : ControlCall) (payload : Value)
    → parse_control payload ≡ ok q
    → parse_control payload ≡ ok q'
    → dispatch q ≡ err e
    → ¬ (dispatch q' ≡ ok c)
not_both q q' e c payload h h' k k' = cc (h, h', k, k')

-- The two parts of the dispatcher accept what asks for an operation, and nothing else.
Asks-accepted :
    (payload : Value) (c : ControlCall)
    → Asks payload c
    → (q : ControlRequest) × (parse_control payload ≡ ok q) × (dispatch q ≡ ok c)
Asks-accepted (mapping fs) c (arguments, e, a) = (
  record { command = name_of c; arguments = arguments },
  IsEnvelope-parse_control fs arguments c e,
  IsArguments-dispatch c arguments a,
)
Asks-accepted _ c a = absurd a

accepted-Asks :
    (payload : Value) (q : ControlRequest) (c : ControlCall)
    → parse_control payload ≡ ok q
    → dispatch q ≡ ok c
    → (q.command ≡ name_of c) × Asks payload c
unfolding parse_control
accepted-Asks (mapping fs) q c h k =
    let (e, a) = dispatch-Fits q.command q.arguments c k in
    let envelope = parse_control-IsEnvelope fs q h in
    (e, (q.arguments, subst (λ n. IsEnvelope fs n q.arguments) e envelope, a))
accepted-Asks _ q c h k = absurd (ok_not_err (sym h))

-- What is answered for how an operation ended: one reply, but none after an interrupt.
abbrev pub Answers : String → Result Value → Result Reply → Type 0
Answers name (ok v) r =
    (y : Reply) × (r ≡ ok y)
    × (y.command ≡ name)
    × (y.is_ok ≡ true)
    × (y.result ≡ some v)
    × (y.error ≡ none)
Answers name (err (faulted f)) r =
    (y : Reply) × (r ≡ ok y)
    × (y.command ≡ name)
    × (y.is_ok ≡ false)
    × (y.result ≡ none)
    × (y.error ≡ some f)
Answers name (err interrupt) r = r ≡ err interrupt
Answers name (err e) r =
    (y : Reply) × (r ≡ ok y)
    × (y.command ≡ name)
    × (y.is_ok ≡ false)
    × (y.result ≡ none)
    × (y.error ≡ some (fault server_failed "control command failed inside the server"))

-- The reply of a payload that asks for nothing.
abbrev pub IsRefusal : Result Reply → Type 0
IsRefusal r = (y : Reply) × (r ≡ ok y) × (y.is_ok ≡ false) × (y.result ≡ none) × (y.error ≢ none)

module _ {S : Type 0} (serve : ControlCall → Action S Value) where
  -- How `execute` ends: as the operation that the payload asks for, or as none.
  abbrev pub Serves : Value → S → Result Reply × S → Type 0
  Serves payload s (r, s') =
      ((c : ControlCall) × Asks payload c
        × Answers (name_of c) (serve c s).0 r
        × (s' ≡ (serve c s).1))
      ⊎ (((c : ControlCall) → ¬ Asks payload c) × IsRefusal r × (s' ≡ s))

  answer-Answers : (id name : String) (r : Result Value) → Answers name r (answer id name r)
  answer-Answers id name (ok v) = (_, refl, refl, refl, refl, refl)
  answer-Answers id name (err (faulted f)) = (_, refl, refl, refl, refl, refl)
  answer-Answers id name (err interrupt) = refl
  answer-Answers id name (err file_exists) = (_, refl, refl, refl, refl, refl)
  answer-Answers id name (err os_error) = (_, refl, refl, refl, refl, refl)
  answer-Answers id name (err other) = (_, refl, refl, refl, refl, refl)

  parse_not_interrupted : (payload : Value) → parse_control payload ≢ err interrupt
  unfolding parse_control
  parse_not_interrupted payload h = ground arith

  else_not : (b : Bool) (x y r : Result ControlCall) → x ≢ r → y ≢ r → (if b then x else y) ≢ r
  else_not true x y r h k = h
  else_not false x y r h k = k

  err_not : {f : RuntimeFault} → ¬ (◌≡◌ {A = Result ControlCall} (err (faulted f)) (err interrupt))
  err_not k = cc k

  plain_not : (c : ControlCall) (fs : Fields) → plain c fs ≢ err interrupt
  plain_not c fs h = ground arith

  with_text_not :
      (name : String) (f : String → ControlCall) (fs : Fields) → with_text name f fs ≢ err interrupt
  with_text_not name f fs h = ground arith

  trial_not : (fs : Fields) → trial_arguments fs ≢ err interrupt
  trial_not fs h = ground arith

  dispatch_not_interrupted : (q : ControlRequest) → dispatch q ≢ err interrupt
  unfolding dispatch
  dispatch_not_interrupted q =
      let fs = q.arguments in
      else_not _ _ _ _ (plain_not ControlCall.status fs) (
        else_not _ _ _ _ (plain_not ControlCall.open_session fs) (
          else_not _ _ _ _ (plain_not ControlCall.end_trial fs) (
            else_not _ _ _ _ (with_text_not "skill" ControlCall.prepare_skill fs) (
              else_not _ _ _ _ (trial_not fs) (
                else_not _ _ _ _ (with_text_not "session_id" ControlCall.close_session fs)
                  (else_not _ _ _ _ (with_text_not "reason" ControlCall.abort fs) err_not))))))

  reply_to-IsRefusal :
      (id name : String) (e : Raised) → e ≢ interrupt → IsRefusal (reply_to id name e)
  reply_to-IsRefusal id name (faulted f) h = (_, refl, refl, refl, λ k. cc k)
  reply_to-IsRefusal id name interrupt h = absurd (h refl)
  reply_to-IsRefusal id name file_exists h = (_, refl, refl, refl, λ k. cc k)
  reply_to-IsRefusal id name os_error h = (_, refl, refl, refl, λ k. cc k)
  reply_to-IsRefusal id name other h = (_, refl, refl, refl, λ k. cc k)

  module _ (id : String) (payload : Value) (s : S) where
    dispatched :
        (q : ControlRequest) (d : Result ControlCall)
        → parse_control payload ≡ ok q
        → dispatch q ≡ d
        → Serves payload s (elim d [
          | err e ↦ (reply_to id q.command e, s)
          | ok c ↦ let (r, s') = serve c s in (answer id q.command r, s')
        ])
    dispatched q (err e) h k = inr (
      (λ c a. let (q', h', k') = Asks-accepted payload c a in not_both q q' e c payload h h' k k'),
      reply_to-IsRefusal id q.command e
          (λ i. dispatch_not_interrupted q (subst (λ x. dispatch q ≡ err x) i k)),
      refl,
    )
    dispatched q (ok c) h k =
        let (e, a) = accepted-Asks payload q c h k in
        inl (
          c,
          a,
          subst (λ n. Answers n (serve c s).0 (answer id q.command (serve c s).0)) e
              (answer-Answers id q.command (serve c s).0),
          refl,
        )

    parsed :
        (p : Result ControlRequest)
        → parse_control payload ≡ p
        → Serves payload s
            (elim p [ err e ↦ (reply_to id "unknown" e, s) | ok q ↦ run_request serve id q s ])
    parsed (err e) h = inr (
      (λ c a. let (q', h', k') = Asks-accepted payload c a in ok_not_err (sym h' ∙ h)),
      reply_to-IsRefusal id "unknown" e
          (λ i. parse_not_interrupted payload (subst (λ x. parse_control payload ≡ err x) i h)),
      refl,
    )
    parsed (ok q) h = dispatched q (dispatch q) h refl

-- A payload that asks for an operation by its literal name, the version 1 and exactly the arguments
-- that the operation has, is served: the runtime's state changes as the operation alone changes it,
-- and the reply names the command and has the value that the operation returned, its fault, or
-- `SERVER_FAILED` for another exception; after an interrupt there is no reply. Any other payload
-- asks for no operation: it gets a reply with an error and no result, and the runtime's state stays.
pub execute-Serves :
    {S : Type 0} (serve : ControlCall → Action S Value) (id : String) (payload : Value) (s : S)
    → Serves serve payload s (execute serve id payload s)
unfolding execute
execute-Serves serve id payload s = parsed serve id payload s (parse_control payload) refl
