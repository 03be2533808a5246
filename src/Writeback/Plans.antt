-- ===== src/Writeback/Plans.antt =====
-- The confirmation of a write-back plan (apps/server/app/domain.py).
use project_digital_twin.Base.{
  ℕ, Bool, true, false, ◌&&◌, ◌||◌, not, Option, none, some, List, [], ◌∷◌, ◌++◌, Text, text, get,
  values, ◌==◌, nat_eq, list_eq, pair_eq, option_eq, is_some, get_or, length, last?, keep, find,
  ltb, if◌then◌else◌,
}
use project_digital_twin.Store.Values.{Items, flag, num, str, uuid, arr, nil, cons, value_eq}
use project_digital_twin.Store.Contracts.{
  Representation, ChangeSet, JobStatus, FileWriteJob, PlanStatus, ItemType, FilePlan,
  WriteBackPreviewPlan,
}
use project_digital_twin.Store.Enums.{representation_eq, item_type_eq, membership_eq}
use project_digital_twin.Store.State.{FileTables, Store}
use project_digital_twin.Store.Actions.{
  blocked, Error, key_error, organize_validation, organize_conflict, file_write_conflict, Result,
  ok, err, Action, require, require_some,
}
use project_digital_twin.Journal.Events.{EventArgs, quiet, add_event}
use project_digital_twin.Design.Revisions.{current_revision}
use project_digital_twin.Writeback.Versions.{versions_of}
use project_digital_twin.Writeback.Jobs.{
  JobArgs, destination_text, strategy_text, set_job, create_write_job, release_write_lock,
  set_plan_status,
}
use project_digital_twin.Writeback.Completion.{Disk}

-- What the store knows of the content of a file: a revision, a hash and a path.
pub record Evidence : Type 0 where
  pub revision : Option ℕ
  pub sha256 : Option Text
  pub source_path : Option Text

-- The key of `max`: the revision, then the time.
abbrev pub is_newer : ChangeSet → ChangeSet → Bool
is_newer c d =
    ltb (get_or d.file_revision 0) (get_or c.file_revision 0)
    || (get_or d.file_revision 0 == get_or c.file_revision 0 && ltb d.submitted_at c.submitted_at)

-- `max`: the first of the greatest.
unfoldable pub newest : List ChangeSet → Option ChangeSet → Option ChangeSet
newest [] best = best
newest (c ∷ cs) none = newest cs (some c)
newest (c ∷ cs) (some d) = newest cs (some (if is_newer c d then c else d))

abbrev pub imports_of : ℕ → ℕ → Store → List ChangeSet
imports_of project_id file_id s =
    keep (λ (c : ChangeSet). c.project_id == project_id && c.file_id == some file_id)
      (values s.imports.changesets)

abbrev pub import_evidence : Option ChangeSet → Evidence
import_evidence none = record { revision = none; sha256 = none; source_path = none }
import_evidence (some c) = record {
  revision = c.file_revision;
  sha256 = c.file_hash;
  source_path = none;
}

-- `_writeback_file_evidence`
unfoldable pub writeback_file_evidence : ℕ → ℕ → Store → Evidence
writeback_file_evidence project_id file_id s = elim (last? (versions_of s file_id)) [
  | none ↦ import_evidence (newest (imports_of project_id file_id s) none)
  | some v ↦ record {
    revision = some v.revision;
    sha256 = some v.sha256;
    source_path = v.source_path;
  }
]

-- The reasons that stand in `conflicts`.
pub data PlanConflict : Type 0 where
  is_locked stale_revision stale_hash stale_content : PlanConflict

abbrev pub conflict_text : PlanConflict → Text
conflict_text is_locked = text "FILE_LOCKED"
conflict_text stale_revision = text "STALE_SOURCE_REVISION"
conflict_text stale_hash = text "STALE_SOURCE_HASH"
conflict_text stale_content = text "STALE_SOURCE_CONTENT"

-- The hash of the file on disk, if it is read at all, is not the expected one.
abbrev pub has_stale_content : Disk → FilePlan → Bool
has_stale_content disk f = elim f.source_path [
  | none ↦ false
  | some path ↦ elim f.expected_sha256 [
    | none ↦ false
    | some expected ↦
        not (path == [])
        && (not (expected == [])
            && (elim (disk path) [ none ↦ false | some actual ↦ not (actual == expected) ]))
  ]
]

abbrev pub report_if : Bool → PlanConflict → ℕ → List (PlanConflict × ℕ)
report_if true c file_id = (c, file_id) ∷ []
report_if false c file_id = []

-- What the first loop finds at one file.
unfoldable pub file_conflicts : Disk → ℕ → Store → FilePlan → List (PlanConflict × ℕ)
file_conflicts disk project_id s f =
    let evidence = writeback_file_evidence project_id f.file_id s in
    if is_some (get s.files.file_locks f.file_id)
    then (is_locked, f.file_id) ∷ []
    else report_if (not (f.expected_revision == evidence.revision)) stale_revision f.file_id
      ++ (report_if (not (f.expected_sha256 == evidence.sha256)) stale_hash f.file_id
          ++ report_if (has_stale_content disk f) stale_content f.file_id)

unfoldable pub plan_conflicts : Disk → ℕ → Store → List FilePlan → List (PlanConflict × ℕ)
plan_conflicts disk project_id s [] = []
plan_conflicts disk project_id s (f ∷ files) =
    file_conflicts disk project_id s f ++ plan_conflicts disk project_id s files

abbrev pub with_plan : Store → ℕ → WriteBackPreviewPlan → PlanStatus → Store
with_plan s plan_id plan status = record s {
  files = record (s.files) { writeback_plans = set_plan_status s.files plan_id plan status };
}

-- The texts of the conflicts: the reason, then the identifier of the file.
unfoldable pub conflict_items : List (PlanConflict × ℕ) → Items
conflict_items [] = nil
conflict_items ((c, file_id) ∷ cs) =
    cons (arr (cons (str (conflict_text c)) (cons (uuid file_id) nil))) (conflict_items cs)

abbrev pub blocked_event : WriteBackPreviewPlan → ℕ → Text → List (PlanConflict × ℕ) → EventArgs
blocked_event plan project_id actor conflicts =
    record (quiet (text "FileWriteBackBlocked") plan.id project_id 1
      ((text "plan_id", uuid plan.id) ∷ (text "conflicts", arr (conflict_items conflicts)) ∷ [])) {
        actor = actor;
        status = some (text "CONFLICT");
        after = (text "confirmed", flag false) ∷ [];
      }

-- The item whose revision the job carries, and that revision; `UUID(int=0)` where there is none.
abbrev pub is_entity_item : ItemType × ℕ → Bool
is_entity_item (ItemType.entity, id) = true
is_entity_item _ = false

abbrev pub revision_of_item : Store → Option (ItemType × ℕ) → ℕ
revision_of_item s none = 0
revision_of_item s (some (kind, id)) = elim (current_revision s id Representation.designed) [
  | none ↦ 0
  | some r ↦ r.id
]

abbrev pub item_revision : Store → ItemType → FilePlan → ℕ
item_revision s ItemType.entity f = revision_of_item s (find is_entity_item f.changed_items)
item_revision s _ f = 0

-- A plan that can be confirmed expects a revision of each of its files: the preview warns otherwise.
abbrev pub plan_job : Store → WriteBackPreviewPlan → FilePlan → JobArgs
plan_job s plan f = record {
  file_id = f.file_id;
  expected_file_revision = get_or f.expected_revision 0;
  entity_revision = item_revision s plan.item_type f;
  expected_file_hash = f.expected_sha256;
  source_path = f.source_path;
  plan_id = some plan.id;
  destination_mode = f.destination_mode;
  destination_path = f.destination_path;
  batch_strategy = plan.batch_strategy;
  confirmed = true;
  safety_enforced = true;
}

-- `except FileWriteConflict`: the loop over the jobs that were created.
unfoldable pub abandon_jobs : List FileWriteJob → FileTables → FileTables
abandon_jobs [] t = t
abandon_jobs (job ∷ jobs) t =
    abandon_jobs jobs
      (release_write_lock (set_job t job.id (record job { status = JobStatus.failed })) job)

abbrev pub abandon :
    ℕ → WriteBackPreviewPlan → List FileWriteJob → Error → Action (List FileWriteJob)
abandon plan_id plan jobs (file_write_conflict why) s = (
  err (file_write_conflict why),
  with_plan (record s { files = abandon_jobs jobs s.files }) plan_id plan PlanStatus.failed,
)
abandon plan_id plan jobs e s = (err e, s)

-- `x = m()` in a `try` with a handler.
abbrev pub attempt {ℓ} :
    {A B : Type ℓ} → Result A × Store → (Error → Action B) → (A → Action B) → Result B × Store
attempt (ok a, s) handler rest = rest a s
attempt (err e, s) handler rest = handler e s

-- The second loop.
unfoldable pub queue_files :
    ℕ → ℕ → WriteBackPreviewPlan → List FilePlan → List FileWriteJob → Action (List FileWriteJob)
queue_files project_id plan_id plan [] jobs s = (ok jobs, s)
queue_files project_id plan_id plan (f ∷ files) jobs s =
    attempt (create_write_job project_id (plan_job s plan f) s) (abandon plan_id plan jobs)
      (λ job. queue_files project_id plan_id plan files (jobs ++ job ∷ []))

unfoldable pub job_ids : List FileWriteJob → Items
job_ids [] = nil
job_ids (job ∷ jobs) = cons (uuid job.id) (job_ids jobs)

abbrev pub confirmed_event : WriteBackPreviewPlan → ℕ → Text → List FileWriteJob → EventArgs
confirmed_event plan project_id actor jobs =
    record (quiet (text "FileWriteBackConfirmed") plan.id project_id 1 (
      (text "plan_id", uuid plan.id)
      ∷ (text "job_ids", arr (job_ids jobs))
      ∷ (text "batch_strategy", str (strategy_text plan.batch_strategy))
      ∷ (text "destination_mode", str (destination_text plan.destination_mode))
      ∷ [])) {
        actor = actor;
        status = some (text "QUEUED");
        after = (text "confirmed", flag true) ∷ (text "job_count", num (length jobs)) ∷ [];
      }

abbrev pub confirm_queued :
    ℕ → ℕ → WriteBackPreviewPlan → Text → List FileWriteJob → Action (List FileWriteJob)
confirm_queued project_id plan_id plan actor jobs s = (
  ok jobs,
  add_event (confirmed_event plan project_id actor jobs)
      (with_plan s plan_id plan PlanStatus.queued),
)

-- From `if conflicts` on.
abbrev pub confirm_with :
    ℕ → ℕ → WriteBackPreviewPlan → Text → List (PlanConflict × ℕ) → Action (List FileWriteJob)
confirm_with project_id plan_id plan actor [] s =
    attempt (queue_files project_id plan_id plan plan.files [] s) (λ e s. (err e, s))
      (confirm_queued project_id plan_id plan actor)
confirm_with project_id plan_id plan actor (c ∷ conflicts) s = (
  err (file_write_conflict blocked),
  add_event (blocked_event plan project_id actor (c ∷ conflicts))
      (with_plan s plan_id plan PlanStatus.conflict),
)

abbrev pub is_preview : PlanStatus → Bool
is_preview PlanStatus.preview = true
is_preview _ = false

abbrev pub plan_in : ℕ → ℕ → Store → Option WriteBackPreviewPlan
plan_in project_id plan_id s = elim (get s.files.writeback_plans plan_id) [
  | none ↦ none
  | some plan ↦ if plan.project_id == project_id then some plan else none
]

abbrev pub confirm_found :
    Disk → ℕ → ℕ → Bool → Text → WriteBackPreviewPlan → Action (List FileWriteJob)
confirm_found disk project_id plan_id confirmed actor plan = require confirmed organize_validation (
    require (is_preview plan.status) organize_conflict (
      require plan.can_confirm (file_write_conflict blocked) (λ s.
        confirm_with project_id plan_id plan actor (plan_conflicts disk project_id s plan.files)
          s)))

-- The result is the list of jobs; the plan that comes with it stands in the store.
unfoldable pub execute_organize_writeback : Disk → ℕ → ℕ → Bool → Text → Action (List FileWriteJob)
execute_organize_writeback disk project_id plan_id confirmed actor s =
    require_some (plan_in project_id plan_id s) key_error
      (confirm_found disk project_id plan_id confirmed actor) s
