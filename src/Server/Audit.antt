-- ===== src/Server/Audit.antt =====
-- src/oven_runtime/server/audit.py: the store of one active trial, over the trial directories.
-- The numeric summary of `_inference_diagnostics` is only written into the row, and is left out;
-- so are the temporary files of a write, of which none is left when the write returns.
pub mod Effects
use oven_multiskill_runtime.Common.{
  ℕ, ◌+◌, String, Bool, true, false, Option, none, some, List, [], ◌∷◌, ◌++◌, ℤ, Raised, faulted,
  file_exists, os_error, Result, ok, err, Action, pure, gets, catch, modify, raise_if, is_some,
  str_eq, if◌then◌else◌, ◌>>=◌, ◌>>◌, ◌&&◌, not, lift,
}
use oven_multiskill_runtime.Errors.{
  fault, trial_already_active, trial_required, audit_commit_failed,
}

pub data TrialStatus : Type 0 where
  active committed aborted ambiguous_inference : TrialStatus

-- `server_manifest.json` and `trial_summary.json`.
pub record Manifest : Type 0 where
  pub trial_id : String
  pub skill : String
  pub generation : ℕ
  pub root_seed : ℤ
  pub status : TrialStatus
  pub reason : Option String
  pub request_count : Option ℕ
  pub first_action_hash : Option String
  pub last_action_hash : Option String
  pub ambiguous_sequence : Option ℕ

-- A line of `requests.jsonl`.
pub record Row : Type 0 where
  pub session_id : String
  pub trial_id : String
  pub skill : String
  pub generation : ℕ
  pub sequence : ℕ
  pub request_kind : String
  pub request_hash : String
  pub observation_hash : String
  pub noise_hash : String
  pub action_hash : String

pub record TrialDirectory : Type 0 where
  pub manifest : Option Manifest
  pub summary : Option Manifest
  -- `first_action_chunk.npy` with its JSON: the trial, the sequence and the action hash.
  pub first_chunk : Option (String × ℕ × String)
  pub requests : List Row

pub record ActiveTrial : Type 0 where
  pub trial_id : String
  pub skill : String
  pub generation : ℕ
  pub root_seed : ℤ
  pub request_count : ℕ
  pub first_action_hash : Option String
  pub last_action_hash : Option String

-- The store, with the trial directories under its root; a directory is named by its trial.
pub record Store : Type 0 where
  pub active : Option ActiveTrial
  pub disk : List (String × TrialDirectory)

-- How a write ends: it may raise before or after the new content is in place.
pub data WriteOutcome : Type 0 where
  done : WriteOutcome
  fails_before : Raised → WriteOutcome
  fails_after : Raised → WriteOutcome

abbrev pub lookup_trial : String → List (String × TrialDirectory) → Option TrialDirectory
lookup_trial k [] = none
lookup_trial k ((j, d) ∷ r) = if str_eq k j then some d else lookup_trial k r

abbrev pub change_trial :
    String
    → (TrialDirectory → TrialDirectory)
    → List (String × TrialDirectory)
    → List (String × TrialDirectory)
change_trial k f [] = []
change_trial k f ((j, d) ∷ r) = if str_eq k j then (j, f d) ∷ r else (j, d) ∷ change_trial k f r

abbrev pub empty_directory : TrialDirectory
empty_directory = record { manifest = none; summary = none; first_chunk = none; requests = [] }

-- `_atomic_json` and the other writes: `f` is the change of the trial's directory.
abbrev pub write :
    WriteOutcome → String → (TrialDirectory → TrialDirectory) → Action Store (Unit {0})
write done k f s = (ok tt, record s { disk = change_trial k f s.disk })
write (fails_before e) k f s = (err e, s)
write (fails_after e) k f s = (err e, record s { disk = change_trial k f s.disk })

-- `directory.mkdir(parents=True, exist_ok=False)`, where `exists` says whether it is there.
abbrev pub make_missing : Bool → Option Raised → String → Action Store (Unit {0})
make_missing true io k s = (err file_exists, s)
make_missing false (some e) k s = (err e, s)
make_missing false none k s = (ok tt, record s { disk = (k, empty_directory) ∷ s.disk })

abbrev pub make_directory : Option Raised → String → Action Store (Unit {0})
make_directory io k s = make_missing (is_some (lookup_trial k s.disk)) io k s

-- `except FileExistsError` and `except OSError`, with a message for each.
abbrev pub as_commit_fault {ℓ} : {A : Type ℓ} → String → String → Raised → Result A
as_commit_fault exists io file_exists = err (faulted (fault audit_commit_failed exists))
as_commit_fault exists io os_error = err (faulted (fault audit_commit_failed io))
as_commit_fault exists io e = err e

abbrev pub start_trial : String → String → ℕ → ℤ → ActiveTrial
start_trial trial_id skill generation root_seed = record {
  trial_id = trial_id;
  skill = skill;
  generation = generation;
  root_seed = root_seed;
  request_count = 0;
  first_action_hash = none;
  last_action_hash = none;
}

abbrev pub manifest_of : ActiveTrial → TrialStatus → Manifest
manifest_of t status = record {
  trial_id = t.trial_id;
  skill = t.skill;
  generation = t.generation;
  root_seed = t.root_seed;
  status = status;
  reason = none;
  request_count = none;
  first_action_hash = none;
  last_action_hash = none;
  ambiguous_sequence = none;
}

unfoldable pub begin :
    Option Raised → WriteOutcome → String → String → ℕ → ℤ → Action Store ActiveTrial
begin mkdir write_manifest trial_id skill generation root_seed = do
  raise_if (is_some (← gets (λ s. s.active)))
      (fault trial_already_active "a server audit trial is already active")
  let trial = start_trial trial_id skill generation root_seed
  catch
      (do
        make_directory mkdir trial_id
        write write_manifest trial_id
            (λ d. record d { manifest = some (manifest_of trial TrialStatus.active) }))
      (λ e.
        lift
          (as_commit_fault "trial directory already exists" "cannot create server audit trial" e))
  modify (λ s. record s { active = some trial })
  pure trial

-- The writes of `record_request`, in their order.
pub record RecordWrites : Type 0 where
  pub chunk : WriteOutcome
  pub chunk_json : WriteOutcome
  pub append : WriteOutcome

abbrev pub is_infer : Row → Bool
is_infer row = str_eq row.request_kind "infer"

-- The first action chunk is kept once, by the first inference of the trial.
abbrev pub write_first_chunk : RecordWrites → Row → ActiveTrial → Action Store (Unit {0})
write_first_chunk io row t =
    if is_infer row && not (is_some t.first_action_hash)
    then (do
      write io.chunk t.trial_id (λ d. d)
      write io.chunk_json t.trial_id
          (λ d. record d { first_chunk = some (t.trial_id, row.sequence, row.action_hash) }))
    else pure tt

-- The updates of the active trial after the evidence is on disk.
abbrev pub count_request : Row → ActiveTrial → ActiveTrial
count_request row t =
    if is_infer row
    then record t {
      request_count = t.request_count + 1;
      first_action_hash =
          if is_some t.first_action_hash then t.first_action_hash else some row.action_hash;
      last_action_hash = some row.action_hash;
    }
    else record t { request_count = t.request_count + 1 }

abbrev pub require_trial : Action Store ActiveTrial
require_trial s = elim s.active [
  | none ↦ (err (faulted (fault trial_required "no active server audit trial")), s)
  | some t ↦ (ok t, s)
]

unfoldable pub record_request : RecordWrites → Row → Action Store (Unit {0})
record_request io row = do
  t ← require_trial
  catch
      (do
        write_first_chunk io row t
        write io.append t.trial_id (λ d. record d { requests = d.requests ++ row ∷ [] }))
      (λ e. lift (
        as_commit_fault "cannot append server request evidence"
          "cannot append server request evidence" e))
  modify (λ s. record s { active = some (count_request row t) })

abbrev pub summary_of : ActiveTrial → Manifest
summary_of t =
    let m = manifest_of t TrialStatus.committed in
    record m {
      request_count = some t.request_count;
      first_action_hash = t.first_action_hash;
      last_action_hash = t.last_action_hash;
    }

-- `except (OSError, RuntimeFault)` in `end`.
abbrev pub as_end_fault {ℓ} : {A : Type ℓ} → Raised → Result A
as_end_fault (faulted f) =
    err (faulted (fault audit_commit_failed "cannot commit server audit trial"))
as_end_fault e =
    as_commit_fault "cannot commit server audit trial" "cannot commit server audit trial" e

unfoldable pub end : WriteOutcome → WriteOutcome → Action Store Manifest
end write_summary write_manifest = do
  t ← require_trial
  let summary = summary_of t
  catch
      (do
        write write_summary t.trial_id (λ d. record d { summary = some summary })
        write write_manifest t.trial_id (λ d. record d { manifest = some summary }))
      (λ e. lift (as_end_fault e))
  modify (λ s. record s { active = none })
  pure summary

abbrev pub termination_of : TrialStatus → String → Option ℕ → ActiveTrial → Manifest
termination_of status reason sequence t =
    let m = manifest_of t status in
    record m {
      reason = some reason;
      request_count = some t.request_count;
      ambiguous_sequence = sequence;
    }

-- `_terminate`
abbrev pub terminate :
    WriteOutcome → TrialStatus → String → Option ℕ → Action Store (Option Manifest)
terminate io status reason sequence s = elim s.active [
  | none ↦ (ok none, s)
  | some t ↦
      (do
        let summary = termination_of status reason sequence t
        catch (write io t.trial_id (λ d. record d { manifest = some summary })) (λ e. lift (
            as_commit_fault "cannot terminate server audit trial"
              "cannot terminate server audit trial" e))
        modify (λ s. record s { active = none })
        pure (some summary))
        s
]

unfoldable pub abort : WriteOutcome → String → Action Store (Option Manifest)
abort io reason = terminate io TrialStatus.aborted reason none

unfoldable pub mark_ambiguous : WriteOutcome → String → ℕ → Action Store (Option Manifest)
mark_ambiguous io reason sequence =
    terminate io TrialStatus.ambiguous_inference reason (some sequence)
