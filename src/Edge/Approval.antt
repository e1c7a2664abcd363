-- ===== src/Edge/Approval.antt =====
-- src/oven_runtime/edge/approval.py: `ConsoleApprovalGate`. `read` shows a prompt and returns the
-- answer; `strip` is `str.strip`.
use Prim.Native.String.{◌++◌ as join}
use oven_multiskill_runtime.Common.{
  String, Bool, false, List, [], ◌∷◌, str_eq, not, Result, ok, err, if◌then◌else◌,
}

pub record ConsoleApprovalGate : Type 0 where
  pub execute_enabled : Bool

-- `" -> ".join(skills)`
abbrev pub plan_text : List String → String
plan_text [] = ""
plan_text (s ∷ []) = s
plan_text (s ∷ t ∷ rest) = join s (join " -> " (plan_text (t ∷ rest)))

abbrev pub expected_answer : String → String
expected_answer run_id = join "YES RUN " run_id

abbrev prompt : String → List String → String
prompt run_id skills = join "Plan: " (
    join (plan_text skills) (
      join "\nType '"
        (join (expected_answer run_id) "' to authorize every declared reset and rollout: ")))

unfoldable pub approve_run :
    (String → String)
    → (String → Result String)
    → ConsoleApprovalGate
    → String
    → List String
    → Result Bool
approve_run strip read gate run_id skills =
    if not gate.execute_enabled then ok false else elim (read (prompt run_id skills)) [
      | err e ↦ err e
      | ok answer ↦ ok (str_eq (strip answer) (expected_answer run_id))
    ]
