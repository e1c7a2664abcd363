-- ===== src/AuditSchema.antt =====
-- src/oven_runtime/common/audit_schema.py: the evidence of one stage.
use oven_multiskill_runtime.Common.{
  ℕ, Bool, false, Option, none, some, String, ◌&&◌, ◌||◌, ◌==◌, is_some, ℤ, eq_ℕ,
}

pub data EvidenceStatus : Type 0 where
  not_run not_required passed failed incomplete : EvidenceStatus

abbrev pub evidence_index : EvidenceStatus → ℕ
evidence_index EvidenceStatus.not_run = 0
evidence_index EvidenceStatus.not_required = 1
evidence_index EvidenceStatus.passed = 2
evidence_index EvidenceStatus.failed = 3
evidence_index EvidenceStatus.incomplete = 4

abbrev pub evidence_is : EvidenceStatus → EvidenceStatus → Bool
evidence_is a b = evidence_index a == evidence_index b

pub record StageEvidence : Type 0 where
  pub rollout_exit_code : Option ℤ
  pub rollout_end_reason : Option String
  pub rollout_end_reason_approved : Bool
  pub joint_gate : EvidenceStatus
  pub checker : EvidenceStatus
  pub server_audit : EvidenceStatus
  pub edge_audit : EvidenceStatus

abbrev exited_zero : Option ℤ → Bool
exited_zero none = false
exited_zero (some n) = eq_ℕ n 0

unfoldable pub completed : StageEvidence → Bool
completed e =
    exited_zero e.rollout_exit_code
    && is_some e.rollout_end_reason
    && e.rollout_end_reason_approved
    && evidence_is e.joint_gate EvidenceStatus.passed
    && (evidence_is e.checker EvidenceStatus.passed
        || evidence_is e.checker EvidenceStatus.not_required)
    && evidence_is e.server_audit EvidenceStatus.passed
    && evidence_is e.edge_audit EvidenceStatus.passed
