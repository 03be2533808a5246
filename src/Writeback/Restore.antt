-- ===== src/Writeback/Restore.antt =====
-- `create_restore_job` (apps/server/app/domain.py).
use project_digital_twin.Base.{
  ℕ, true, not, Option, none, some, List, [], ◌∷◌, Text, text, get, put, ◌==◌, nat_eq, list_eq,
  pair_eq, option_eq, is_some, length, last?, find,
}
use project_digital_twin.Store.Values.{num, uuid, other, value_eq}
use project_digital_twin.Store.Contracts.{
  Representation, Origin, ChangeSetStatus, ChangeSet, JobStatus, Operation, DestinationMode,
  BatchStrategy, FileWriteJob,
}
use project_digital_twin.Store.State.{FileVersion, next_uuid, next_time, draw, tick}
use project_digital_twin.Store.Actions.{
  file_locked, file_conflict, key_error, file_write_conflict, ok, Action, require, require_some,
}
use project_digital_twin.Journal.Events.{EventArgs, quiet, add_event}
use project_digital_twin.Writeback.Versions.{versions_of}
use project_digital_twin.Writeback.Jobs.{enter_job}

abbrev pub RestoreArgs : Type 0
RestoreArgs = record {
  file_id : ℕ;
  target_file_revision : ℕ;
  expected_file_revision : ℕ;
  source_path : Text;
  created_by : Text;
}

-- The change set of a restore; its entity is a fresh identifier.
abbrev pub restore_changeset : ℕ → ℕ → RestoreArgs → FileVersion → ℕ → ℕ → ChangeSet
restore_changeset id project_id a target entity_id now = record {
  id = id;
  project_id = project_id;
  origin = Origin.file_restore;
  submitted_by = a.created_by;
  submitted_at = now;
  status = ChangeSetStatus.pending_approval;
  entity_id = entity_id;
  representation = Representation.file;
  base_revision = a.expected_file_revision;
  patch = (text "restore_file_revision", num a.target_file_revision) ∷ [];
  file_id = some a.file_id;
  file_revision = some a.target_file_revision;
  file_hash = some target.sha256;
  items = [];
  raw_rows = [];
  conflicts = [];
  document_assets = [];
  relationship_proposals = [];
  document_tables = [];
  document_mapped_tables = [];
  parse_report = other 0;
}

abbrev pub restore_job : ℕ → ℕ → RestoreArgs → ℕ → Option Text → FileWriteJob
restore_job id project_id a changeset_id expected_hash = record {
  id = id;
  project_id = project_id;
  file_id = a.file_id;
  expected_file_revision = a.expected_file_revision;
  entity_revision = 0;
  status = JobStatus.pending;
  operation = Operation.restore;
  expected_file_hash = expected_hash;
  source_path = some a.source_path;
  source_file_revision = some a.target_file_revision;
  changeset_id = some changeset_id;
  result_file_revision = none;
  result_file_hash = none;
  backup_path = none;
  plan_id = none;
  destination_mode = DestinationMode.in_place;
  destination_path = some a.source_path;
  batch_strategy = BatchStrategy.per_file;
  confirmed = true;
  safety_enforced = true;
}

abbrev pub last_hash : List FileVersion → Option Text
last_hash versions = elim (last? versions) [ none ↦ none | some v ↦ some v.sha256 ]

abbrev pub restore_event : FileWriteJob → ℕ → RestoreArgs → EventArgs
restore_event job changeset_id a =
    record (quiet (text "FileRestoreJobCreated") job.id job.project_id a.target_file_revision (
      (text "file_id", uuid a.file_id)
      ∷ (text "target_file_revision", num a.target_file_revision)
      ∷ (text "changeset_id", uuid changeset_id)
      ∷ [])) {
        actor = a.created_by;
        file_id = some a.file_id;
        changeset_id = some changeset_id;
        status = some (text "PENDING");
      }

-- Three identifiers are drawn: the change set's, its entity's and the job's.
abbrev pub start_restore : ℕ → RestoreArgs → FileVersion → Action FileWriteJob
start_restore project_id a target s =
    let changeset_id = next_uuid s in
    let job =
      restore_job (next_uuid (draw (draw s))) project_id a changeset_id
        (last_hash (versions_of s a.file_id)) in
    (
      ok job,
      add_event (restore_event job changeset_id a) (record (tick (draw (draw (draw s)))) {
        imports = record (s.imports) {
          changesets = put s.imports.changesets changeset_id (
              restore_changeset changeset_id project_id a target (next_uuid (draw s))
                (next_time s));
        };
        files = enter_job s.files job;
      }),
    )

unfoldable pub create_restore_job : ℕ → RestoreArgs → Action FileWriteJob
create_restore_job project_id a s =
    require_some
      (find (λ (v : FileVersion). v.revision == a.target_file_revision) (versions_of s a.file_id))
      key_error
      (λ target.
        require (length (versions_of s a.file_id) == a.expected_file_revision)
          (file_write_conflict file_conflict)
          (require (not (is_some (get s.files.file_locks a.file_id)))
            (file_write_conflict file_locked) (start_restore project_id a target)))
      s
