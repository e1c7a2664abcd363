-- ===== src/Edge/ControlClient/Exchange.antt =====
-- The edge's control client and the server's dispatcher, end to end: a call through both is a call
-- of the runtime. JSON carries the requests and the replies as they are.
use oven_multiskill_runtime.Common.{
  String, Bool, false, ◌≡◌, Option, none, some, List, [], ◌∷◌, is_empty, Result, ok, err, faulted,
  interrupt, Action,
}
use oven_multiskill_runtime.Errors.{
  fault, server_failed, missing_required_field, control_server_unavailable,
}
use oven_multiskill_runtime.Value.{Value, Fields, end, integer, text, mapping, get}
use oven_multiskill_runtime.Value.Compare.{Comparison}
use oven_multiskill_runtime.Server.Control.{ControlCall, Reply, execute}
use oven_multiskill_runtime.Edge.ControlClient.Request.{command_arguments, request_fields}
use oven_multiskill_runtime.Edge.ControlClient.Response.{reply_fields}
use oven_multiskill_runtime.Edge.ControlClient.Client.{
  SshControlClient, Completed, not_completed, answered, call,
}

-- The command and the values with which src/oven_runtime/edge/orchestrator.py asks for an
-- operation.
abbrev pub command_text : ControlCall → String
command_text ControlCall.status = "status"
command_text ControlCall.open_session = "open-session"
command_text ControlCall.end_trial = "end-trial"
command_text (ControlCall.prepare_skill skill) = "prepare-skill"
command_text (ControlCall.begin_trial trial_id root_seed) = "begin-trial"
command_text (ControlCall.close_session session_id) = "close-session"
command_text (ControlCall.abort reason) = "abort"

abbrev pub command_values : ControlCall → List Value
command_values (ControlCall.prepare_skill skill) = text skill ∷ []
command_values (ControlCall.begin_trial trial_id root_seed) = text trial_id ∷ integer root_seed ∷ []
command_values (ControlCall.close_session session_id) = text session_id ∷ []
command_values (ControlCall.abort reason) = text reason ∷ []
command_values _ = []

-- The texts of the operation are not empty.
abbrev pub IsSendable : ControlCall → Type 0
IsSendable (ControlCall.prepare_skill skill) = is_empty skill ≡ false
IsSendable (ControlCall.begin_trial trial_id root_seed) = is_empty trial_id ≡ false
IsSendable (ControlCall.close_session session_id) = is_empty session_id ≡ false
IsSendable (ControlCall.abort reason) = is_empty reason ≡ false
IsSendable _ = Unit

-- A server that is interrupted leaves no reply.
abbrev pub delivered : Result Reply → Completed
delivered (ok r) = answered (some (mapping (reply_fields r)))
delivered (err e) = not_completed

-- The arguments that the request carries, with which the process is run.
abbrev sent_arguments : ControlCall → Fields
sent_arguments k = elim (command_arguments (command_text k) (command_values k)) [
  | err e ↦ Fields.end
  | ok fs ↦ fs
]

-- What a caller of the client gets, by what the runtime returned.
abbrev pub Agrees : Result Value → Result Fields → Type 0
Agrees (ok (mapping fs)) (ok response) = get "result" response ≡ some (mapping fs)
Agrees (ok (mapping fs)) (err e) = ⊥
Agrees (ok v) a =
    a ≡ err (faulted (fault missing_required_field "successful control response has no result"))
Agrees (err (faulted f)) a = a ≡ err (faulted (fault f.code f.message))
Agrees (err interrupt) a =
    a ≡ err (faulted (fault control_server_unavailable "SSH control command did not complete"))
Agrees (err e) a =
    a ≡ err (faulted (fault server_failed "control command failed inside the server"))

-- The client may still meet the instance.
abbrev pub Accepts : Option String → String → Type 0
Accepts none id = Unit
Accepts (some t) id = t ≡ id

module _ {S : Type 0} (serve : ControlCall → Action S Value) (c : Comparison)
    (is_uuid : String → Bool) where
  -- A call of the client, with the server at the other end.
  unfoldable pub exchange :
      String → ControlCall → SshControlClient → S → Result Fields × SshControlClient × S
  exchange id k client s =
      let (r, s') =
        execute serve id (mapping (request_fields (command_text k) (sent_arguments k))) s in
      let (a, client') = call c is_uuid (command_text k) (command_values k) (delivered r) client in
      (a, client', s')
