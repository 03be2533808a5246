-- ===== src/Writeback/Jobs.antt =====
-- Write jobs: their creation and failure, the lock of a file and the state of a plan
-- (apps/server/app/domain.py).
use project_digital_twin.Base.{
  ℕ, Bool, true, false, ◌&&◌, ◌||◌, not, Option, none, some, [], ◌∷◌, Text, text, Dict, get, put,
  remove, values, ◌==◌, nat_eq, list_eq, pair_eq, option_eq, is_some, length, keep, any, all,
  if◌then◌else◌,
}
use project_digital_twin.Store.Values.{flag, str, uuid, maybe_uuid, maybe_str, value_eq}
use project_digital_twin.Store.Contracts.{
  JobStatus, Operation, DestinationMode, BatchStrategy, FileWriteJob, PlanStatus,
  WriteBackPreviewPlan,
}
use project_digital_twin.Store.State.{FileTables, Store, next_uuid, draw}
use project_digital_twin.Store.Actions.{
  file_locked, key_error, value_error, organize_validation, file_write_conflict, ok, Action,
  require, require_some,
}
use project_digital_twin.Journal.Events.{EventArgs, quiet, add_event}
use project_digital_twin.Writeback.Versions.{operation_text}

-- The arguments of `create_write_job` behind the project.
pub record JobArgs : Type 0 where
  pub file_id : ℕ
  pub expected_file_revision : ℕ
  pub entity_revision : ℕ
  pub expected_file_hash : Option Text
  pub source_path : Option Text
  pub plan_id : Option ℕ
  pub destination_mode : DestinationMode
  pub destination_path : Option Text
  pub batch_strategy : BatchStrategy
  pub confirmed : Bool
  pub safety_enforced : Bool

abbrev pub new_job : ℕ → ℕ → JobArgs → FileWriteJob
new_job id project_id a = record {
  id = id;
  project_id = project_id;
  file_id = a.file_id;
  expected_file_revision = a.expected_file_revision;
  entity_revision = a.entity_revision;
  status = JobStatus.pending;
  operation = Operation.write_back;
  expected_file_hash = a.expected_file_hash;
  source_path = a.source_path;
  source_file_revision = none;
  changeset_id = none;
  result_file_revision = none;
  result_file_hash = none;
  backup_path = none;
  plan_id = a.plan_id;
  destination_mode = a.destination_mode;
  destination_path = a.destination_path;
  batch_strategy = a.batch_strategy;
  confirmed = a.confirmed;
  safety_enforced = a.safety_enforced;
}

abbrev pub job_status_text : JobStatus → Text
job_status_text JobStatus.pending = text "PENDING"
job_status_text JobStatus.applied = text "APPLIED"
job_status_text JobStatus.failed = text "FAILED"
job_status_text JobStatus.conflict = text "CONFLICT"

abbrev pub destination_text : DestinationMode → Text
destination_text DestinationMode.in_place = text "IN_PLACE"
destination_text DestinationMode.new_file = text "NEW_FILE"

abbrev pub strategy_text : BatchStrategy → Text
strategy_text BatchStrategy.per_file = text "PER_FILE"
strategy_text BatchStrategy.all_or_nothing = text "ALL_OR_NOTHING"

abbrev pub is_pending : JobStatus → Bool
is_pending JobStatus.pending = true
is_pending _ = false

abbrev pub is_applied : JobStatus → Bool
is_applied JobStatus.applied = true
is_applied _ = false

abbrev pub has_failed : JobStatus → Bool
has_failed JobStatus.failed = true
has_failed JobStatus.conflict = true
has_failed _ = false

abbrev pub set_job : FileTables → ℕ → FileWriteJob → FileTables
set_job t id job = record t { write_jobs = put t.write_jobs id job }

-- `self.write_jobs[job.id] = job`, and the lock where the job is safe
abbrev pub enter_job : FileTables → FileWriteJob → FileTables
enter_job t job = record t {
  write_jobs = put t.write_jobs job.id job;
  file_locks = if job.safety_enforced then put t.file_locks job.file_id job.id else t.file_locks;
}

abbrev pub job_created_event : FileWriteJob → EventArgs
job_created_event job =
    record (quiet (text "FileWriteJobCreated") job.id job.project_id job.expected_file_revision (
      (text "file_id", uuid job.file_id)
      ∷ (text "operation", str (operation_text job.operation))
      ∷ (text "plan_id", maybe_uuid job.plan_id)
      ∷ (text "destination_mode", str (destination_text job.destination_mode))
      ∷ (text "destination_path", maybe_str job.destination_path)
      ∷ (text "batch_strategy", str (strategy_text job.batch_strategy))
      ∷ (text "confirmed", flag job.confirmed)
      ∷ [])) { file_id = some job.file_id; status = some (job_status_text job.status) }

abbrev pub store_job : FileWriteJob → Action FileWriteJob
store_job job s =
    (ok job, add_event (job_created_event job) (record s { files = enter_job s.files job }))

unfoldable pub create_write_job : ℕ → JobArgs → Action FileWriteJob
create_write_job project_id a s =
    require (not a.safety_enforced || a.confirmed) organize_validation
      (require (not a.safety_enforced || not (is_some (get s.files.file_locks a.file_id)))
        (file_write_conflict file_locked) (store_job (new_job (next_uuid s) project_id a)))
      (draw s)

-- `_release_write_lock`
abbrev pub release_write_lock : FileTables → FileWriteJob → FileTables
release_write_lock t job = record t {
  file_locks =
      if get t.file_locks job.file_id == some job.id
      then remove t.file_locks job.file_id
      else t.file_locks;
}

abbrev pub set_plan_status :
    FileTables → ℕ → WriteBackPreviewPlan → PlanStatus → Dict ℕ WriteBackPreviewPlan
set_plan_status t id plan status = put t.writeback_plans id (record plan { status = status })

abbrev pub refreshed_plan : FileTables → ℕ → WriteBackPreviewPlan → Dict ℕ WriteBackPreviewPlan
refreshed_plan t id plan =
    let jobs = keep (λ (j : FileWriteJob). j.plan_id == some id) (values t.write_jobs) in
    if any (λ (j : FileWriteJob). has_failed j.status) jobs
    then set_plan_status t id plan PlanStatus.failed
    else if not (length jobs == 0) && all (λ (j : FileWriteJob). is_applied j.status) jobs
    then set_plan_status t id plan PlanStatus.applied
    else t.writeback_plans

-- `_refresh_writeback_plan_status`
unfoldable pub refreshed_plans : FileTables → Option ℕ → Dict ℕ WriteBackPreviewPlan
refreshed_plans t none = t.writeback_plans
refreshed_plans t (some id) = elim (get t.writeback_plans id) [
  | none ↦ t.writeback_plans
  | some plan ↦ refreshed_plan t id plan
]

abbrev pub refresh_writeback_plan_status : FileTables → Option ℕ → FileTables
refresh_writeback_plan_status t plan_id = record t { writeback_plans = refreshed_plans t plan_id }

-- A pending job of the plan, other than the failed one.
abbrev pub fails_with : ℕ → ℕ → FileWriteJob → Bool
fails_with plan_id job_id sibling =
    sibling.plan_id == some plan_id && not (sibling.id == job_id) && is_pending sibling.status

abbrev pub fail_sibling : Bool → ℕ → FileWriteJob → FileTables → FileTables
fail_sibling test id sibling t =
    if test
    then release_write_lock (set_job t id (record sibling { status = JobStatus.failed })) sibling
    else t

-- The loop over the siblings of a failed job.
unfoldable pub fail_siblings : ℕ → ℕ → Dict ℕ FileWriteJob → FileTables → FileTables
fail_siblings plan_id job_id [] t = t
fail_siblings plan_id job_id ((id, sibling) ∷ jobs) t =
    fail_siblings plan_id job_id jobs
      (fail_sibling (fails_with plan_id job_id sibling) id sibling t)

abbrev pub fails_together : FileWriteJob → Option ℕ
fails_together job = elim job.batch_strategy [
  | BatchStrategy.all_or_nothing ↦ job.plan_id
  | BatchStrategy.per_file ↦ none
]

abbrev pub fail_with_plan : Option ℕ → ℕ → FileTables → FileTables
fail_with_plan none job_id t = t
fail_with_plan (some plan_id) job_id t = fail_siblings plan_id job_id t.write_jobs t

abbrev pub fail_job : FileTables → ℕ → FileWriteJob → FileTables
fail_job t id job =
    fail_with_plan (fails_together job) job.id
      (release_write_lock (set_job t id (record job { status = JobStatus.failed })) job)

abbrev pub failed_event : FileWriteJob → ℕ → Text → Text → EventArgs
failed_event job project_id actor why =
    record (quiet (text "FileWriteFailed") job.id project_id 1 (
      (text "file_id", uuid job.file_id)
      ∷ (text "reason", str why)
      ∷ (text "operation", str (operation_text job.operation))
      ∷ [])) {
        actor = actor;
        file_id = some job.file_id;
        status = some (text "FAILED");
        after = (text "reason", str why) ∷ [];
      }

-- The job of this project with this identifier.
abbrev pub job_in : ℕ → ℕ → Store → Option FileWriteJob
job_in project_id job_id s = elim (get s.files.write_jobs job_id) [
  | none ↦ none
  | some job ↦ if job.project_id == project_id then some job else none
]

abbrev pub refresh_in : Store → Option ℕ → Store
refresh_in s plan_id = record s { files = refresh_writeback_plan_status s.files plan_id }

unfoldable pub fail_write_job : ℕ → ℕ → Text → Text → Action FileWriteJob
fail_write_job project_id job_id actor why s =
    require_some (job_in project_id job_id s) key_error
      (λ job. require (not (is_applied job.status)) value_error (λ s. (
        ok (record job { status = JobStatus.failed }),
        refresh_in
            (add_event (failed_event job project_id actor why)
              (record s { files = fail_job s.files job_id job }))
            job.plan_id,
      )))
      s
