-- ===== src/Writeback/Tests.antt =====
-- Jobs, versions and locks on small stores.
use project_digital_twin.Store.Actions.{Result, ok, is_ok}
use project_digital_twin.Store.State.{next_uuid, draw}
use project_digital_twin.Base.{
  ℕ, ◌+◌, ◌≡◌, refl, ◌≢◌, ◌⊎◌, true, false, Option, none, some, List, [], ◌∷◌, ◌++◌, arith, Text,
  text, get, put, remove, values, nat_eq, list_eq, pair_eq, option_eq, ne_of_beq, length, list_beq,
  option_beq, get-empty,
}
use project_digital_twin.Store.Values.{value_eq}
use project_digital_twin.Store.Contracts.{
  Operation, DestinationMode, BatchStrategy, FileWriteJob, PlanStatus, ItemType, FilePlan,
  WriteBackPreviewPlan,
}
use project_digital_twin.Store.State.{FileVersion, Store}
use project_digital_twin.Journal.Events.{log_event, add_event}
use project_digital_twin.Writeback.Versions.{
  VersionArgs, versions_of, new_version, register_file_version,
}
use project_digital_twin.Writeback.Jobs.{JobArgs, new_job, create_write_job, refreshed_plans}
use project_digital_twin.Writeback.Completion.{
  Report, Disk, refusal, applied_job, complete_write_job,
}
use project_digital_twin.Writeback.Restore.{create_restore_job, RestoreArgs, restore_job, last_hash}
use project_digital_twin.Writeback.Exclusion.{HasLocks}
use project_digital_twin.Writeback.Waiting.{IsFreshJob}
use project_digital_twin.Writeback.Commands.{
  WriteCommand, create, complete, fail, run_write, ReachWrites, here, next, ReachWrites-IsExclusive,
  pending_jobs_exclude,
}
use project_digital_twin.Writeback.History.{version_with, IsHistory, register_file_version_lem}
use project_digital_twin.Writeback.Final.{applied_is_final}
use project_digital_twin.Writeback.Drift.{restored_content_is_refused}
use project_digital_twin.Writeback.Outcomes.{IsAppliedBy, IsRefusedBy, complete_write_job_lem}
use project_digital_twin.Writeback.Plans.{
  plan_conflicts, file_conflicts, writeback_file_evidence, newest,
}
use project_digital_twin.Store.Samples.{empty_store}

-- A safe job on a file, to a new file, of plan 3.
abbrev args : ℕ → JobArgs
args file_id = record {
  file_id = file_id;
  expected_file_revision = 0;
  entity_revision = 1;
  expected_file_hash = none;
  source_path = some (text "/d/a.xlsx");
  plan_id = some 3;
  destination_mode = DestinationMode.new_file;
  destination_path = none;
  batch_strategy = BatchStrategy.all_or_nothing;
  confirmed = true;
  safety_enforced = true;
}

abbrev report : Text → Text → Report
report source result = record {
  source_hash = source;
  result_hash = result;
  size = 10;
  actor = text "worker";
  backup_path = none;
}

abbrev disk : Disk
disk path = some (text "h0")

abbrev first : WriteCommand
first = create 1 (args 7)

abbrev second : WriteCommand
second = create 1 (args 8)

abbrev finish : WriteCommand
finish = complete disk 1 1000 (report (text "h0") (text "h1"))

abbrev one : Store
one = run_write first empty_store

abbrev two : Store
two = run_write second one

abbrev three : Store
three = run_write finish two

empty-HasLocks : HasLocks empty_store
unfolding empty_store
empty-HasLocks = record {
  unique = tt;
  keyed = λ id j e. cc (get-empty {V = FileWriteJob} id, e);
  held = λ f id e. absurd (cc (get-empty {V = ℕ} f, e));
  holds = λ id j e. absurd (cc (get-empty {V = FileWriteJob} id, e));
}

empty-IsFreshJob : IsFreshJob empty_store
unfolding empty_store
empty-IsFreshJob = record {
  new = λ n le. get-empty {V = FileWriteJob} (1000 + n);
  distinct = λ m n le le' e. omega arith;
}

one-IsFreshJob : IsFreshJob one
unfolding run_write create_write_job add_event log_event empty_store get put
one-IsFreshJob = record { new = λ n le. ground arith; distinct = λ m n le le' e. omega arith }

two-IsFreshJob : IsFreshJob two
unfolding run_write create_write_job add_event log_event empty_store get put
two-IsFreshJob = record { new = λ n le. ground arith; distinct = λ m n le le' e. omega arith }

two_is_reached : ReachWrites empty_store two
two_is_reached = next second (next first here empty-IsFreshJob) one-IsFreshJob

three_is_reached : ReachWrites empty_store three
three_is_reached = next finish two_is_reached two-IsFreshJob

ReachWrites-IsExclusive_example : HasLocks three
ReachWrites-IsExclusive_example = ReachWrites-IsExclusive empty-HasLocks three_is_reached

pending_jobs_exclude_example : (new_job 1000 1 (args 7)).file_id ≢ (new_job 1004 1 (args 8)).file_id
unfolding run_write create_write_job add_event log_event empty_store get put
pending_jobs_exclude_example =
    pending_jobs_exclude 1000 1004 (new_job 1000 1 (args 7)) (new_job 1004 1 (args 8))
      empty-HasLocks two_is_reached refl refl (omega arith) refl refl refl refl

abbrev done_job : FileWriteJob
done_job = applied_job (new_job 1000 1 (args 7)) (report (text "h0") (text "h1")) 1

abbrev failure : WriteCommand
failure = fail 1 1004 (text "worker") (text "no space")

three-HasLocks : HasLocks three
three-HasLocks = ReachWrites-IsExclusive empty-HasLocks three_is_reached

three-IsFreshJob : IsFreshJob three
unfolding run_write create_write_job complete_write_job refusal register_file_version
    refreshed_plans add_event log_event empty_store get put remove list_beq
three-IsFreshJob = record { new = λ n le. ground arith; distinct = λ m n le le' e. omega arith }

-- The second job of the plan fails, and takes its pending siblings along.
applied_is_final_example : get (run_write failure three).files.write_jobs 1000 ≡ some done_job
unfolding run_write create_write_job complete_write_job refusal register_file_version
    refreshed_plans add_event log_event empty_store get put remove list_beq
applied_is_final_example =
    applied_is_final 1000 done_job three-HasLocks (next failure here three-IsFreshJob) refl refl

complete_write_job_lem_example :
    let j = new_job 1000 1 (args 7) in
    let r = report (text "h0") (text "h1") in
    IsAppliedBy disk 1 1000 r two j (complete_write_job disk 1 1000 r two)
    ⊎ IsRefusedBy disk 1 1000 r two j (complete_write_job disk 1 1000 r two)
unfolding run_write create_write_job add_event log_event empty_store get put
complete_write_job_lem_example =
    complete_write_job_lem disk 1 1000 (report (text "h0") (text "h1")) two
      (new_job 1000 1 (args 7)) refl refl

abbrev version_args : Text → VersionArgs
version_args hash = record {
  file_hash = hash;
  size = 10;
  actor = text "worker";
  operation = Operation.restore;
  source_path = none;
}

-- File 7 with two contents.
abbrev versioned : Store
versioned =
    let s = (register_file_version 1 7 (version_args (text "h1")) empty_store).1 in
    (register_file_version 1 7 (version_args (text "h2")) s).1

empty-IsHistory : IsHistory empty_store.files
unfolding empty_store
empty-IsHistory = record {
  revised = λ id. rw (get-empty {V = List FileVersion} id) tt;
  distinct = λ id. rw (get-empty {V = List FileVersion} id) tt;
}

register_file_version_lem_example :
    let (v, s') = register_file_version 1 7 (version_args (text "h1")) versioned in
    let known = version_with (text "h1") (versions_of versioned 7) in
    ((known ≡ some v) × (versions_of s' 7 ≡ versions_of versioned 7))
    ⊎ ((known ≡ none)
        × (v.sha256 ≡ text "h1")
        × (v.revision ≡ length (versions_of versioned 7) + 1)
        × (versions_of s' 7 ≡ versions_of versioned 7 ++ v ∷ []))
register_file_version_lem_example =
    register_file_version_lem 1 7 (version_args (text "h1")) versioned

-- File 7 is restored to its first version, and then a restore of the second is asked for.
abbrev restored : Store
restored = (register_file_version 1 7 (version_args (text "h1")) versioned).1

abbrev again : RestoreArgs
again = record {
  file_id = 7;
  target_file_revision = 2;
  expected_file_revision = 2;
  source_path = text "/d/a.xlsx";
  created_by = text "editor";
}

abbrev again_started : Result FileWriteJob × Store
again_started = create_restore_job 1 again restored

abbrev again_job : FileWriteJob
again_job =
    restore_job (next_uuid (draw (draw restored))) 1 again (next_uuid restored)
      (last_hash (versions_of restored 7))

again_created : again_started ≡ (ok again_job, again_started.1)
unfolding create_restore_job register_file_version add_event log_event empty_store get put list_beq
again_created = refl

restored_content_is_refused_example :
    (last_hash (versions_of restored 7) ≡ some (text "h2"))
    × (is_ok
          (complete_write_job disk 1 again_job.id
            (report (text "h1") (text "h3"))
            again_started.1).0
        ≡ false)
unfolding register_file_version add_event log_event empty_store get put list_beq
restored_content_is_refused_example =
    restored_content_is_refused 1 (version_args (text "h1")) versioned
      (new_version 7 (version_args (text "h1")) 0 empty_store) (text "h2") disk again again_job
      again_started.1 (report (text "h1") (text "h3")) refl refl
      (ne_of_beq (text "h2") (text "h1") refl) again_created refl

-- A plan for file 7, of which version 1 is known, and for file 8, of which nothing is known.
abbrev entry : ℕ → Option ℕ → Option Text → FilePlan
entry file_id revision sha256 = record {
  file_id = file_id;
  expected_revision = revision;
  expected_sha256 = sha256;
  source_path = some (text "/d/a.xlsx");
  destination_path = none;
  destination_mode = DestinationMode.in_place;
  changed_items = (ItemType.entity, 9) ∷ [];
}

abbrev preview : WriteBackPreviewPlan
preview = record {
  id = 5;
  project_id = 1;
  created_by = text "editor";
  created_at = 0;
  item_type = ItemType.entity;
  item_ids = 9 ∷ [];
  format = text "EXCEL";
  destination_mode = DestinationMode.in_place;
  batch_strategy = BatchStrategy.all_or_nothing;
  status = PlanStatus.preview;
  confirmation_required = true;
  can_confirm = true;
  write_performed = false;
  files = entry 7 (some 1) (some (text "h0")) ∷ entry 8 none none ∷ [];
  warnings = [];
}

abbrev planned : Store
planned = record empty_store {
  files = record (empty_store.files) {
    writeback_plans = (5, preview) ∷ [];
    file_versions =
        (
          7,
          record {
            id = 3;
            file_id = 7;
            revision = 1;
            sha256 = text "h0";
            size = 10;
            actor = text "worker";
            operation = Operation.write_back;
            source_path = none;
            created_at = 0;
          }
              ∷ [],
        )
        ∷ [];
  };
}

planned_is_clean : plan_conflicts disk 1 planned preview.files ≡ []
unfolding plan_conflicts file_conflicts writeback_file_evidence newest empty_store get values
    list_beq option_beq
planned_is_clean = refl
