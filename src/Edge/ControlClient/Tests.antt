-- ===== src/Edge/ControlClient/Tests.antt =====
-- The control client at a server that counts the operations it performs.
use oven_multiskill_runtime.Common.{
  ℕ, suc, String, Bool, none, some, List, [], ◌∷◌, pos, ok, str_eq, false, ◌||◌, Action,
}
use oven_multiskill_runtime.Value.{Value, end, field, integer, mapping}
use oven_multiskill_runtime.Value.Compare.{Comparison}
use oven_multiskill_runtime.Server.Control.{ControlCall, success}
use oven_multiskill_runtime.Edge.ControlClient.Response.{reply_fields}
use oven_multiskill_runtime.Edge.ControlClient.Client.{SshControlClient, answered, not_completed}
use oven_multiskill_runtime.Edge.ControlClient.Client.Pin.{
  Attempt, FromOne, accepted, accepted-FromOne,
}

abbrev no_floats : Comparison
no_floats = record { float_equals = λ t n. false; array_equals = λ dtype shape bytes x. ok false }

abbrev serve : ControlCall → Action ℕ Value
serve c n = (ok (mapping (field "count" (integer (pos n)) end)), suc n)

abbrev server : String
server = "00000000-0000-0000-0000-000000000001"

abbrev is_uuid : String → Bool
is_uuid t = str_eq t server || str_eq t "00000000-0000-0000-0000-000000000002"

abbrev client : SshControlClient
client = record { server_instance_id = none }

-- A reply to a question for the status.
abbrev reply_of : String → Attempt
reply_of id = record {
  command = "status";
  values = [];
  completed = answered (some (mapping (reply_fields (success id "status" (mapping end)))));
}

abbrev calls : List Attempt
calls =
    reply_of server
    ∷ record (reply_of server) { completed = not_completed }
    ∷ reply_of "00000000-0000-0000-0000-000000000002"
    ∷ reply_of server
    ∷ []

accepted-FromOne_example : FromOne (accepted no_floats is_uuid calls client)
accepted-FromOne_example = accepted-FromOne no_floats is_uuid calls
