-- ===== src/Server/Control/Tests.antt =====
-- The dispatcher at concrete payloads, over a runtime that counts the operations it performs.
use oven_multiskill_runtime.Common.{ℕ, suc, ◌≡◌, ok, refl, pos, Action}
use oven_multiskill_runtime.Value.{Value, Fields, end, field, text, integer, mapping}
use oven_multiskill_runtime.Protocol.Parse.{has_fields, only_fields}
use oven_multiskill_runtime.Server.Control.{ControlCall, parse_control, dispatch, execute}
use oven_multiskill_runtime.Server.Control.Replies.{Serves, execute-Serves}

abbrev serve : ControlCall → Action ℕ Value
serve c n = (ok (integer (pos n)), suc n)

abbrev payload : Fields → Value
payload arguments = mapping (
    field "protocol_version" (integer (pos 1))
      (field "command" (text "prepare-skill") (field "arguments" (mapping arguments) end)))

abbrev prepare : Value
prepare = payload (field "skill" (text "open_door") end)

-- One count for the payload that names a skill, none for the one that does not.
counted :
    ((execute serve "server" prepare 0).1 ≡ 1) × ((execute serve "server" (payload end) 0).1 ≡ 0)
unfolding execute parse_control dispatch has_fields only_fields
counted = (refl, refl)

execute-Serves_example : Serves serve prepare 0 (execute serve "server" prepare 0)
execute-Serves_example = execute-Serves serve "server" prepare 0
