-- ===== src/Server/Control/Asks.antt =====
-- Which payloads ask for which operation of the runtime, written out as a table.
use oven_multiskill_runtime.Common.{
  String, true, false, ◌≡◌, refl, some, List, [], ◌∷◌, Any, eq_iff, is_empty, pos, ok, arith,
}
use oven_multiskill_runtime.Value.{Value, Fields, end, field, get, text, integer, mapping}
use oven_multiskill_runtime.Protocol.Parse.{only_fields, has_text}
use oven_multiskill_runtime.Server.Control.{ControlRequest, ControlCall, parse_control}

-- The text that stands for an operation.
abbrev pub name_of : ControlCall → String
name_of ControlCall.status = "status"
name_of (ControlCall.prepare_skill skill) = "prepare-skill"
name_of (ControlCall.begin_trial trial_id root_seed) = "begin-trial"
name_of ControlCall.open_session = "open-session"
name_of (ControlCall.close_session session_id) = "close-session"
name_of ControlCall.end_trial = "end-trial"
name_of (ControlCall.abort reason) = "abort"

-- Every key is one of those.
abbrev pub KeysIn : List String → Fields → Type 0
KeysIn names end = Unit
KeysIn names (field k v fs) = Any (λ n. k ≡ n) names × KeysIn names fs

-- A mapping with the version, a command, its arguments, and no other key.
pub record IsEnvelope (fs : Fields) (command : String) (arguments : Fields) : Type 0 where
  pub version : get "protocol_version" fs ≡ some (integer (pos 1))
  pub named : get "command" fs ≡ some (text command)
  pub carries : get "arguments" fs ≡ some (mapping arguments)
  pub keys : KeysIn ("protocol_version" ∷ "command" ∷ "arguments" ∷ []) fs

-- A text that is not empty, under that key and no other.
abbrev pub HasText : String → String → Fields → Type 0
HasText name t fs = (get name fs ≡ some (text t)) × (is_empty t ≡ false) × KeysIn (name ∷ []) fs

-- The arguments of an operation.
abbrev pub IsArguments : ControlCall → Fields → Type 0
IsArguments (ControlCall.prepare_skill skill) fs = HasText "skill" skill fs
IsArguments (ControlCall.begin_trial trial_id root_seed) fs =
    (get "trial_id" fs ≡ some (text trial_id))
    × (is_empty trial_id ≡ false)
    × (get "root_seed" fs ≡ some (integer root_seed))
    × KeysIn ("trial_id" ∷ "root_seed" ∷ []) fs
IsArguments (ControlCall.close_session session_id) fs = HasText "session_id" session_id fs
IsArguments (ControlCall.abort reason) fs = HasText "reason" reason fs
IsArguments _ fs = fs ≡ end

-- The payload asks for the operation.
abbrev pub Asks : Value → ControlCall → Type 0
Asks (mapping fs) c =
    (arguments : Fields) × IsEnvelope fs (name_of c) arguments × IsArguments c arguments
Asks _ c = ⊥

pub has_text-Any : (k : String) (xs : List String) → has_text k xs ≡ true → Any (λ n. k ≡ n) xs
has_text-Any k [] h = absurd (cc h)
has_text-Any k (x ∷ xs) h = ground (arith, eq_iff k x, has_text-Any k xs)

pub Any-has_text : (k : String) (xs : List String) → Any (λ n. k ≡ n) xs → has_text k xs ≡ true
Any-has_text k [] h = absurd h
Any-has_text k (x ∷ xs) h = ground (arith, eq_iff k x, Any-has_text k xs)

pub only_fields-KeysIn :
    (names : List String) (fs : Fields) → only_fields names fs ≡ true → KeysIn names fs
unfolding only_fields
only_fields-KeysIn names end h = tt
only_fields-KeysIn names (field k v fs) h =
    (has_text-Any k names (ground arith), only_fields-KeysIn names fs (ground arith))

pub KeysIn-only_fields :
    (names : List String) (fs : Fields) → KeysIn names fs → only_fields names fs ≡ true
unfolding only_fields
KeysIn-only_fields names end h = refl
KeysIn-only_fields names (field k v fs) h =
    ground (arith, Any-has_text k names h.0, KeysIn-only_fields names fs h.1)

pub no_fields : (fs : Fields) → only_fields [] fs ≡ true → fs ≡ end
unfolding only_fields
no_fields end h = refl
no_fields (field k v fs) h = absurd (cc h)

pub parse_control-IsEnvelope :
    (fs : Fields) (q : ControlRequest)
    → parse_control (mapping fs) ≡ ok q
    → IsEnvelope fs q.command q.arguments
unfolding parse_control
parse_control-IsEnvelope fs q h = record {
  version = ground arith;
  named = ground arith;
  carries = ground arith;
  keys = only_fields-KeysIn ("protocol_version" ∷ "command" ∷ "arguments" ∷ []) fs (ground arith);
}
