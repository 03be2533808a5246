-- ===== src/Writeback/Completion.antt =====
-- `complete_write_job` (apps/server/app/domain.py). The disk is an argument: the SHA-256 of the file
-- at a path, `none` where there is no file.
use project_digital_twin.Base.{
  ℕ, Bool, true, false, ◌&&◌, ◌||◌, not, Option, none, some, List, [], ◌∷◌, ◌++◌, Text, text, Dict,
  get, put, contains, ◌==◌, nat_eq, list_eq, pair_eq, option_eq, is_some, length, if◌then◌else◌,
}
use project_digital_twin.Store.Values.{str, uuid, maybe_str, value_eq}
use project_digital_twin.Store.Contracts.{
  ChangeSetStatus, ChangeSet, JobStatus, Operation, DestinationMode, FileWriteJob,
}
use project_digital_twin.Store.State.{FileTables}
use project_digital_twin.Store.Actions.{
  WriteConflict, file_conflict, backup_required, confirmation_missing, key_error, value_error,
  file_write_conflict, ok, err, Action, require_some,
}
use project_digital_twin.Journal.Events.{EventArgs, quiet, add_event}
use project_digital_twin.Writeback.Versions.{
  VersionArgs, operation_text, versions_of, register_file_version,
}
use project_digital_twin.Writeback.Jobs.{
  set_job, release_write_lock, refresh_writeback_plan_status, job_in, refresh_in,
}

-- What the worker reports.
pub record Report : Type 0 where
  pub source_hash : Text
  pub result_hash : Text
  pub size : ℕ
  pub actor : Text
  pub backup_path : Option Text

-- `not path` of an optional path
abbrev pub is_blank : Option Text → Bool
is_blank none = true
is_blank (some path) = path == []

abbrev pub is_in_place : DestinationMode → Bool
is_in_place DestinationMode.in_place = true
is_in_place DestinationMode.new_file = false

abbrev pub is_restore : Operation → Bool
is_restore Operation.restore = true
is_restore Operation.write_back = false

abbrev pub Disk : Type 0
Disk = Text → Option Text

-- The file at the path is there, and has not the hash that the worker has seen.
abbrev pub differs_on : Disk → Option Text → Text → Bool
differs_on disk none hash = false
differs_on disk (some path) hash =
    if path == []
    then false
    else elim (disk path) [ none ↦ false | some found ↦ not (found == hash) ]

-- `job.expected_file_hash is not None and job.expected_file_hash != source_hash`
abbrev pub hash_differs : Option Text → Text → Bool
hash_differs none hash = false
hash_differs (some expected) hash = not (expected == hash)

abbrev pub Refusal : Type 0
Refusal = Option (JobStatus × WriteConflict)

-- The test that stands behind the safety checks.
abbrev pub hash_refusal : FileWriteJob → Report → Refusal
hash_refusal job r =
    if hash_differs job.expected_file_hash r.source_hash
    then some (JobStatus.conflict, file_conflict)
    else none

-- The safety checks, in their order: the status that the job gets, and why.
abbrev pub safe_refusal : Disk → FileWriteJob → ℕ → Report → Refusal
safe_refusal disk job current_revision r =
    if not job.confirmed || (not (is_some job.plan_id) && not (is_restore job.operation))
    then some (JobStatus.failed, confirmation_missing)
    else if not (current_revision == job.expected_file_revision)
    then some (JobStatus.conflict, file_conflict)
    else if differs_on disk job.source_path r.source_hash
    then some (JobStatus.conflict, file_conflict)
    else if is_in_place job.destination_mode && is_blank r.backup_path
    then some (JobStatus.failed, backup_required)
    else hash_refusal job r

unfoldable pub refusal : Disk → FileWriteJob → ℕ → Report → Refusal
refusal disk job current_revision r =
    if job.safety_enforced then safe_refusal disk job current_revision r else hash_refusal job r

-- Release the lock, set the status, refresh the plan, raise.
abbrev pub refuse_job : ℕ → FileWriteJob → JobStatus → WriteConflict → Action FileWriteJob
refuse_job id job status why s = (
  err (file_write_conflict why),
  record s {
    files =
        refresh_writeback_plan_status
          (set_job (release_write_lock s.files job) id (record job { status = status }))
          job.plan_id;
  },
)

abbrev pub applied_job : FileWriteJob → Report → ℕ → FileWriteJob
applied_job job r revision = record job {
  status = JobStatus.applied;
  result_file_revision = some revision;
  result_file_hash = some r.result_hash;
  backup_path = r.backup_path;
}

-- `set.add`
abbrev pub add_self_write : List (ℕ × Text) → ℕ → Text → List (ℕ × Text)
add_self_write known file_id hash =
    if contains (file_id, hash) known then known else known ++ (file_id, hash) ∷ []

abbrev pub apply_files : FileTables → ℕ → FileWriteJob → Report → ℕ → FileTables
apply_files t id job r revision =
    release_write_lock
      (record t {
        write_jobs = put t.write_jobs id (applied_job job r revision);
        self_write_hashes = add_self_write t.self_write_hashes job.file_id r.result_hash;
      })
      job

-- `self.changesets[job.changeset_id].status = "APPLIED"`
abbrev pub apply_changeset : Dict ℕ ChangeSet → Option ℕ → Dict ℕ ChangeSet
apply_changeset changesets none = changesets
apply_changeset changesets (some id) = elim (get changesets id) [
  | none ↦ changesets
  | some c ↦ put changesets id (record c { status = ChangeSetStatus.applied })
]

abbrev pub applied_event : ℕ → FileWriteJob → Report → ℕ → EventArgs
applied_event project_id job r revision =
    record (quiet (text "FileWriteApplied") job.id project_id revision (
      (text "file_id", uuid job.file_id)
      ∷ (text "result_hash", str r.result_hash)
      ∷ (text "backup_path", maybe_str r.backup_path)
      ∷ (text "operation", str (operation_text job.operation))
      ∷ [])) {
        actor = r.actor;
        file_id = some job.file_id;
        changeset_id = job.changeset_id;
        status = some (text "APPLIED");
        before = (text "file_hash", str r.source_hash) ∷ [];
        after = (text "file_hash", str r.result_hash) ∷ [];
      }

abbrev pub report_version : FileWriteJob → Report → VersionArgs
report_version job r = record {
  file_hash = r.result_hash;
  size = r.size;
  actor = r.actor;
  operation = job.operation;
  source_path = job.source_path;
}

-- From `self.register_file_version(…)` on.
abbrev pub apply_job : ℕ → ℕ → FileWriteJob → Report → Action FileWriteJob
apply_job project_id id job r s =
    let (v, s') = register_file_version project_id job.file_id (report_version job r) s in
    (
      ok (applied_job job r v.revision),
      refresh_in
          (add_event (applied_event project_id job r v.revision) (record s' {
            files = apply_files s'.files id job r v.revision;
            imports = record (s'.imports) {
              changesets = apply_changeset s'.imports.changesets job.changeset_id;
            };
          }))
          job.plan_id,
    )

abbrev pub decide : ℕ → ℕ → FileWriteJob → Report → Refusal → Action FileWriteJob
decide project_id id job r none s = apply_job project_id id job r s
decide project_id id job r (some (status, why)) s = refuse_job id job status why s

abbrev pub complete_pending : Disk → ℕ → ℕ → FileWriteJob → Report → Action FileWriteJob
complete_pending disk project_id id job r s =
    decide project_id id job r (refusal disk job (length (versions_of s job.file_id)) r) s

-- A job that is applied is returned as it is.
abbrev pub complete_with : Disk → ℕ → ℕ → FileWriteJob → Report → JobStatus → Action FileWriteJob
complete_with disk project_id id job r JobStatus.applied s = (ok job, s)
complete_with disk project_id id job r JobStatus.pending s =
    complete_pending disk project_id id job r s
complete_with disk project_id id job r JobStatus.failed s = (err value_error, s)
complete_with disk project_id id job r JobStatus.conflict s = (err value_error, s)

unfoldable pub complete_write_job : Disk → ℕ → ℕ → Report → Action FileWriteJob
complete_write_job disk project_id job_id r s =
    require_some (job_in project_id job_id s) key_error
      (λ job. complete_with disk project_id job_id job r job.status) s
