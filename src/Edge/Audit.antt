-- ===== src/Edge/Audit.antt =====
-- src/oven_runtime/edge/audit.py: the evidence of one run, over the run directories.
pub mod Progress
use oven_multiskill_runtime.Common.{
  ℕ, ◌+◌, String, Bool, true, false, Option, none, some, List, [], ◌∷◌, ◌++◌, Raised, faulted,
  file_exists, os_error, Result, ok, err, Action, pure, gets, catch, modify, raise_if, is_some,
  str_eq, length, get_elem?, leb, ◌==◌, not, ◌||◌, holds_text, lift, if◌then◌else◌, ◌>>=◌, ◌>>◌,
}
use oven_multiskill_runtime.Errors.{
  ErrorCode, fault, invalid_field_value, state_rejected, audit_commit_failed,
}
use oven_multiskill_runtime.State.{PipelineState}
use oven_multiskill_runtime.AuditSchema.{StageEvidence, completed as is_completed}
use oven_multiskill_runtime.Value.{Value, Fields}
use oven_multiskill_runtime.Protocol.{is_trial_id}
use oven_multiskill_runtime.Edge.Contracts.{GateResult, CheckerResult}

pub data RunStatus : Type 0 where
  active completed failed : RunStatus

-- `run_manifest.json`
pub record RunManifest : Type 0 where
  pub run_id : String
  pub status : RunStatus
  pub pipeline_state : PipelineState
  pub planned_skills : List String
  pub completed_stages : ℕ
  pub error : Option (ErrorCode × String)

-- A line of `rollout.jsonl`.
pub record RolloutRow : Type 0 where
  pub skill : String
  pub session_id : Value
  pub generation : Value
  pub sequence : ℕ
  pub published_rows : ℕ
  pub published_steps_total : ℕ
  pub request_hash : Value
  pub action_hash : Value

-- `stage_evidence.json`, as `start_stage` and as `complete_stage` write it.
pub data StageRecord : Type 0 where
  started : (trial_id : String) → StageRecord
  finished : StageEvidence → GateResult → CheckerResult → (server_summary : Fields) → StageRecord

-- The directory `stages/<index>_<skill>`.
pub record StageDirectory : Type 0 where
  pub index : ℕ
  pub skill : String
  pub evidence : Option StageRecord
  pub rollout : List RolloutRow
  pub failure : Option (ErrorCode × String)

pub record RunDirectory : Type 0 where
  pub manifest : Option RunManifest
  pub stages : List StageDirectory

pub record ActiveEdgeRun : Type 0 where
  pub run_id : String
  pub planned_skills : List String
  pub completed_stages : ℕ
  -- The index of the stage whose directory is active.
  pub active_stage : Option ℕ

pub record EdgeStore : Type 0 where
  pub active : Option ActiveEdgeRun
  pub disk : List (String × RunDirectory)

abbrev pub Method : Type 0 → Type 0
Method A = Action EdgeStore A

-- How a write ends: it may raise before or after the new content is in place.
pub data WriteOutcome : Type 0 where
  done : WriteOutcome
  fails_before : Raised → WriteOutcome
  fails_after : Raised → WriteOutcome

abbrev pub lookup_run : String → List (String × RunDirectory) → Option RunDirectory
lookup_run k [] = none
lookup_run k ((j, d) ∷ r) = if str_eq k j then some d else lookup_run k r

abbrev pub change_run :
    String
    → (RunDirectory → RunDirectory)
    → List (String × RunDirectory)
    → List (String × RunDirectory)
change_run k f [] = []
change_run k f ((j, d) ∷ r) = if str_eq k j then (j, f d) ∷ r else (j, d) ∷ change_run k f r

abbrev pub change_stage :
    ℕ → (StageDirectory → StageDirectory) → List StageDirectory → List StageDirectory
change_stage i f [] = []
change_stage i f (d ∷ r) = if i == d.index then f d ∷ r else d ∷ change_stage i f r

abbrev pub has_stage : ℕ → List StageDirectory → Bool
has_stage i [] = false
has_stage i (d ∷ r) = i == d.index || has_stage i r

abbrev pub write : WriteOutcome → String → (RunDirectory → RunDirectory) → Method (Unit {0})
write done k f s = (ok tt, record s { disk = change_run k f s.disk })
write (fails_before e) k f s = (err e, s)
write (fails_after e) k f s = (err e, record s { disk = change_run k f s.disk })

abbrev in_stage : ℕ → (StageDirectory → StageDirectory) → RunDirectory → RunDirectory
in_stage i f d = record d { stages = change_stage i f d.stages }

-- `mkdir(parents=True, exist_ok=False)`, where `exists` says whether it is there and `f` adds it.
abbrev make_missing : Bool → Option Raised → (EdgeStore → EdgeStore) → Method (Unit {0})
make_missing true io f s = (err file_exists, s)
make_missing false (some e) f s = (err e, s)
make_missing false none f s = (ok tt, f s)

abbrev empty_run : RunDirectory
empty_run = record { manifest = none; stages = [] }

abbrev empty_stage : ℕ → String → StageDirectory
empty_stage i skill = record {
  index = i;
  skill = skill;
  evidence = none;
  rollout = [];
  failure = none;
}

abbrev add_stage : String → ℕ → String → EdgeStore → EdgeStore
add_stage run_id i skill s = record s {
  disk = change_run run_id (λ d. record d { stages = empty_stage i skill ∷ d.stages }) s.disk;
}

abbrev stages_of : Option RunDirectory → List StageDirectory
stages_of none = []
stages_of (some d) = d.stages

-- `_require_active`
abbrev pub require_active : Method ActiveEdgeRun
require_active s = elim s.active [
  | none ↦ (err (faulted (fault state_rejected "no active edge run")), s)
  | some a ↦ (ok a, s)
]

abbrev stage_of : ActiveEdgeRun → Result ℕ
stage_of a = elim a.active_stage [
  | none ↦ err (faulted (fault state_rejected "no active edge stage"))
  | some i ↦ ok i
]

abbrev manifest_of :
    RunStatus → PipelineState → Option (ErrorCode × String) → ActiveEdgeRun → RunManifest
manifest_of status state error a = record {
  run_id = a.run_id;
  status = status;
  pipeline_state = state;
  planned_skills = a.planned_skills;
  completed_stages = a.completed_stages;
  error = error;
}

-- `_write_manifest`
abbrev write_manifest :
    WriteOutcome → RunStatus → PipelineState → Option (ErrorCode × String) → Method RunManifest
write_manifest io status state error = do
  a ← require_active
  let manifest = manifest_of status state error a
  write io a.run_id (λ d. record d { manifest = some manifest })
  pure manifest

abbrev as_exists_fault : Raised → Result (Unit {0})
as_exists_fault file_exists =
    err (faulted (fault audit_commit_failed "edge run directory already exists"))
as_exists_fault e = err e

unfoldable pub begin : Option Raised → WriteOutcome → String → List String → Method RunManifest
begin mkdir io run_id planned_skills = do
  raise_if (not (is_trial_id run_id)) (fault invalid_field_value "run_id format is invalid")
  s ← gets (λ s. s)
  raise_if (is_some s.active) (fault state_rejected "an edge run is already active")
  catch
      (make_missing (is_some (lookup_run run_id s.disk)) mkdir
        (λ s. record s { disk = (run_id, empty_run) ∷ s.disk }))
      (λ e. lift (as_exists_fault e))
  modify (λ s. record s {
    active = some (record {
      run_id = run_id;
      planned_skills = planned_skills;
      completed_stages = 0;
      active_stage = none;
    });
  })
  write_manifest io RunStatus.active PipelineState.created none

unfoldable pub set_pipeline_state : WriteOutcome → PipelineState → Method RunManifest
set_pipeline_state io state = write_manifest io RunStatus.active state none

unfoldable pub start_stage : Option Raised → WriteOutcome → ℕ → String → String → Method (Unit {0})
start_stage mkdir io index skill trial_id = do
  a ← require_active
  raise_if (is_some a.active_stage) (fault state_rejected "an edge stage is already active")
  raise_if (not (index == a.completed_stages))
      (fault state_rejected "stage index is not the next planned stage")
  raise_if
      (leb (length a.planned_skills) index
        || not (holds_text (get_elem? a.planned_skills index) skill))
      (fault state_rejected "stage skill does not match the fixed run plan")
  s ← gets (λ s. s)
  make_missing (has_stage index (stages_of (lookup_run a.run_id s.disk))) mkdir
      (add_stage a.run_id index skill)
  modify (λ s. record s { active = some (record a { active_stage = some index }) })
  write io a.run_id (in_stage index (λ d. record d { evidence = some (started trial_id) }))

abbrev as_append_fault : Raised → Result (Unit {0})
as_append_fault file_exists =
    err (faulted (fault audit_commit_failed "cannot append edge rollout evidence"))
as_append_fault os_error =
    err (faulted (fault audit_commit_failed "cannot append edge rollout evidence"))
as_append_fault e = err e

unfoldable pub record_rollout : WriteOutcome → RolloutRow → Method (Unit {0})
record_rollout io row = do
  a ← require_active
  i ← lift (stage_of a)
  catch (write io a.run_id (in_stage i (λ d. record d { rollout = d.rollout ++ row ∷ [] })))
      (λ e. lift (as_append_fault e))

unfoldable pub complete_stage :
    WriteOutcome
    → WriteOutcome
    → StageEvidence
    → GateResult
    → CheckerResult
    → Fields
    → Method (Unit {0})
complete_stage io io' evidence gate checker summary = do
  raise_if (not (is_completed evidence))
      (fault audit_commit_failed "cannot commit an incomplete stage as completed")
  a ← require_active
  i ← lift (stage_of a)
  write io a.run_id
      (in_stage i (λ d. record d { evidence = some (finished evidence gate checker summary) }))
  modify (λ s. record s {
    active = some (record a { completed_stages = a.completed_stages + 1; active_stage = none });
  })
  write_manifest io' RunStatus.active PipelineState.handoff none
  pure tt

-- The stage's failure is written, and the stage given up, where a stage is active.
abbrev fail_stage : WriteOutcome → ErrorCode → String → ActiveEdgeRun → Method (Unit {0})
fail_stage io code message a = elim a.active_stage [
  | none ↦ pure tt
  | some i ↦ (do
    write io a.run_id (in_stage i (λ d. record d { failure = some (code, message) }))
    modify (λ s. record s { active = some (record a { active_stage = none }) }))
]

unfoldable pub fail :
    WriteOutcome → WriteOutcome → PipelineState → ErrorCode → String → Method RunManifest
fail io io' state code message = do
  a ← require_active
  fail_stage io code message a
  manifest ← write_manifest io' RunStatus.failed state (some (code, message))
  modify (λ s. record s { active = none })
  pure manifest

unfoldable pub complete : WriteOutcome → Method RunManifest
complete io = do
  a ← require_active
  raise_if (is_some a.active_stage || not (a.completed_stages == length a.planned_skills))
      (fault audit_commit_failed "run cannot complete before every stage is committed")
  manifest ← write_manifest io RunStatus.completed PipelineState.completed none
  modify (λ s. record s { active = none })
  pure manifest
