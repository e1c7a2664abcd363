-- ===== src/Edge/ControlClient/Client.antt =====
-- src/oven_runtime/edge/control_client.py, `SshControlClient.call`. The process that it runs is an
-- argument, with what `json.loads` makes of its output.
pub mod Pin
use oven_multiskill_runtime.Common.{
  String, Bool, true, false, Option, none, some, List, [], ◌∷◌, not, str_eq, Raised, Result, ok,
  err, faulted, other, Action, pure, lift, gets, modify, raise_if, ◌>>=◌, ◌>>◌, if◌then◌else◌,
}
use oven_multiskill_runtime.Errors.{
  fault, control_server_unavailable, frame_decode_failed, response_mismatch,
}
use oven_multiskill_runtime.Value.{Value, Fields, text, mapping, get}
use oven_multiskill_runtime.Value.Compare.{Comparison}
use oven_multiskill_runtime.Edge.ControlClient.Request.{command_arguments}
use oven_multiskill_runtime.Edge.ControlClient.Response.{validate_control_response}

-- The instance that the client has met first.
pub record SshControlClient : Type 0 where
  pub server_instance_id : Option String

-- How the process ends: it cannot be run or takes too long, it returns a code other than 0 and 1,
-- it answers, with JSON or with no JSON, or running it raises something else.
pub data Completed : Type 0 where
  not_completed : Completed
  process_failed : Completed
  answered : Option Value → Completed
  raised : Raised → Completed

abbrev pub response_of : Completed → Result Value
response_of not_completed =
    err (faulted (fault control_server_unavailable "SSH control command did not complete"))
response_of process_failed =
    err (faulted (fault control_server_unavailable "SSH control process failed"))
response_of (answered none) =
    err (faulted (fault frame_decode_failed "SSH control response is not valid JSON"))
response_of (answered (some v)) = ok v
response_of (raised e) = err e

-- `validated["server_instance_id"]`, a text after the checks.
abbrev pub instance_of : Fields → Result String
instance_of fs = elim (get "server_instance_id" fs) [ some (text t) ↦ ok t | _ ↦ err other ]

abbrev pub changes_instance : String → Option String → Bool
changes_instance id none = false
changes_instance id (some t) = not (str_eq t id)

module _ (c : Comparison) (is_uuid : String → Bool) where
  unfoldable pub call : String → List Value → Completed → Action SshControlClient Fields
  call command values completed = do
    lift (command_arguments command values)
    response ← lift (response_of completed)
    validated ← lift (validate_control_response c is_uuid command response)
    id ← lift (instance_of validated)
    client ← gets (λ s. s)
    raise_if (changes_instance id client.server_instance_id)
        (fault response_mismatch "control server instance changed during this client run")
    modify (λ s. record s { server_instance_id = some id })
    pure validated
