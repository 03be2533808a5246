-- ===== src/Writeback/Exclusion.antt =====
-- One pending job per file: every operation on write jobs keeps the locks exclusive
-- (apps/server/app/domain.py, `create_write_job`, `complete_write_job`, `fail_write_job`,
-- `create_restore_job`).
use project_digital_twin.Base.{
  ℕ, ◌≡◌, refl, inl, inr, Bool, true, false, ◌||◌, not, Option, none, some, [], ◌∷◌, arith, Text,
  Dict, get, ◌==◌, nat_eq, list_eq, pair_eq, option_eq, is_some, length, find, Bool-cases,
  Option-cases, IsDict, EntriesOf, EntriesOf-self, EntriesOf-put,
}
use project_digital_twin.Store.Values.{value_eq}
use project_digital_twin.Store.Contracts.{JobStatus, FileWriteJob}
use project_digital_twin.Store.State.{FileVersion, FileTables, Store, next_uuid, draw}
use project_digital_twin.Store.Actions.{
  WriteConflict, file_locked, file_conflict, key_error, organize_validation, file_write_conflict,
  require, keeps_require, keeps_require_some,
}
use project_digital_twin.Journal.Events.{add_event}
use project_digital_twin.Writeback.Versions.{
  VersionArgs, versions_of, register_found, register_file_version,
}
use project_digital_twin.Writeback.Jobs.{
  JobArgs, new_job, is_pending, is_applied, set_job, store_job, create_write_job,
  release_write_lock, fails_with, fail_sibling, fail_siblings, fails_together, fail_with_plan,
  fail_job, job_in, fail_write_job,
}
use project_digital_twin.Writeback.Completion.{
  Report, Disk, Refusal, refusal, refuse_job, applied_job, report_version, apply_job, decide,
  complete_with, complete_write_job,
}
use project_digital_twin.Writeback.Restore.{
  RestoreArgs, restore_job, last_hash, start_restore, create_restore_job,
}
use project_digital_twin.Writeback.History.{version_with}
use project_digital_twin.Writeback.Locks.{IsExclusive, finish-IsExclusive, enter-IsExclusive}

abbrev pub HasLocks : Store → Type 0
HasLocks s = IsExclusive s.files.write_jobs s.files.file_locks

pub job_in-found :
    (project_id id : ℕ) (s : Store) (j : FileWriteJob)
    → job_in project_id id s ≡ some j
    → get s.files.write_jobs id ≡ some j
job_in-found project_id id s j e = ground (arith, e)

-- The identifier drawn for the job is not in use, as with `uuid4`.
pub create_write_job-IsExclusive :
    (project_id : ℕ) (a : JobArgs) (s : Store)
    → HasLocks s
    → get s.files.write_jobs (next_uuid s) ≡ none
    → HasLocks (create_write_job project_id a s).1
unfolding create_write_job add_event
create_write_job-IsExclusive project_id a s h new =
    let created = store_job (new_job (next_uuid s) project_id a) in
    keeps_require HasLocks
      (require (not a.safety_enforced || not (is_some (get s.files.file_locks a.file_id)))
        (file_write_conflict file_locked) created)
      (draw s) (not a.safety_enforced || a.confirmed) organize_validation h
      λ safe.
        keeps_require HasLocks created (draw s)
          (not a.safety_enforced || not (is_some (get s.files.file_locks a.file_id)))
          (file_write_conflict file_locked) h
          λ free.
            enter-IsExclusive s.files.write_jobs s.files.file_locks
              (new_job (next_uuid s) project_id a) h new refl free

pub create_restore_job-IsExclusive :
    (project_id : ℕ) (a : RestoreArgs) (s : Store)
    → HasLocks s
    → get s.files.write_jobs (next_uuid (draw (draw s))) ≡ none
    → HasLocks (create_restore_job project_id a s).1
unfolding create_restore_job add_event
create_restore_job-IsExclusive project_id a s h new =
    let free = not (is_some (get s.files.file_locks a.file_id)) in
    let current = length (versions_of s a.file_id) == a.expected_file_revision in
    let locked_rest = λ (target : FileVersion).
      require free (file_write_conflict file_locked) (start_restore project_id a target) in
    keeps_require_some HasLocks
      (λ target. require current (file_write_conflict file_conflict) (locked_rest target)) s
      (find (λ (v : FileVersion). v.revision == a.target_file_revision) (versions_of s a.file_id))
      key_error h
      λ target found.
        keeps_require HasLocks (locked_rest target) s current (file_write_conflict file_conflict) h
          λ is_current.
            keeps_require HasLocks (start_restore project_id a target) s free
              (file_write_conflict file_locked) h
              λ is_free.
                enter-IsExclusive s.files.write_jobs s.files.file_locks
                  (restore_job (next_uuid (draw (draw s))) project_id a (next_uuid s)
                    (last_hash (versions_of s a.file_id)))
                  h new refl is_free

sibling-IsExclusive :
    (test : Bool) (id : ℕ) (j : FileWriteJob) (jobs : Dict ℕ FileWriteJob) (t : FileTables)
    → get jobs id ≡ none
    → EntriesOf t.write_jobs ((id, j) ∷ jobs)
    → IsExclusive t.write_jobs t.file_locks
    → (let t' = fail_sibling test id j t in
        EntriesOf t'.write_jobs jobs × IsExclusive t'.write_jobs t'.file_locks)
sibling-IsExclusive false id j jobs t unique entries h = (entries.1, h)
sibling-IsExclusive true id j jobs t unique entries h = (
  EntriesOf-put t.write_jobs jobs id (record j { status = JobStatus.failed }) unique entries.1,
  finish-IsExclusive t.write_jobs t.file_locks id j (record j { status = JobStatus.failed }) h
      entries.0 refl refl,
)

module _ (plan_id job_id : ℕ) where
  siblings-IsExclusive :
      (jobs : Dict ℕ FileWriteJob) (t : FileTables)
      → IsDict jobs
      → EntriesOf t.write_jobs jobs
      → IsExclusive t.write_jobs t.file_locks
      → (let t' = fail_siblings plan_id job_id jobs t in IsExclusive t'.write_jobs t'.file_locks)
  unfolding fail_siblings
  siblings-IsExclusive [] t unique entries h = h
  siblings-IsExclusive ((id, j) ∷ jobs) t unique entries h =
      let (entries', h') =
        sibling-IsExclusive (fails_with plan_id job_id j) id j jobs t unique.0 entries h in
      siblings-IsExclusive jobs (fail_sibling (fails_with plan_id job_id j) id j t) unique.1
        entries' h'

fail_with_plan-IsExclusive :
    (plan_id : Option ℕ) (job_id : ℕ) (t : FileTables)
    → IsExclusive t.write_jobs t.file_locks
    → (let t' = fail_with_plan plan_id job_id t in IsExclusive t'.write_jobs t'.file_locks)
fail_with_plan-IsExclusive none job_id t h = h
fail_with_plan-IsExclusive (some plan_id) job_id t h =
    siblings-IsExclusive plan_id job_id t.write_jobs t h.unique
      (EntriesOf-self t.write_jobs h.unique) h

fail_job-IsExclusive :
    (t : FileTables) (id : ℕ) (j : FileWriteJob)
    → IsExclusive t.write_jobs t.file_locks
    → get t.write_jobs id ≡ some j
    → (let t' = fail_job t id j in IsExclusive t'.write_jobs t'.file_locks)
fail_job-IsExclusive t id j h found =
    let j' = record j { status = JobStatus.failed } in
    fail_with_plan-IsExclusive (fails_together j) j.id (release_write_lock (set_job t id j') j)
      (finish-IsExclusive t.write_jobs t.file_locks id j j' h found refl refl)

-- A job that fails, alone or with the jobs of its plan, frees its file, and no other file.
pub fail_write_job-IsExclusive :
    (project_id id : ℕ) (actor why : Text) (s : Store)
    → HasLocks s
    → HasLocks (fail_write_job project_id id actor why s).1
unfolding fail_write_job add_event
fail_write_job-IsExclusive project_id id actor why s h =
    elim (Option-cases (job_in project_id id s)) [
      | inl missing ↦ rw missing h
      | inr (j, found) ↦ rw found (elim (Bool-cases (is_applied j.status)) [
        | inl applied ↦ rw applied h
        | inr unfinished ↦
            rw unfinished
              (fail_job-IsExclusive s.files id j h (job_in-found project_id id s j found))
      ])
    ]

pub register_found_kept :
    (project_id file_id : ℕ) (a : VersionArgs) (o : Option FileVersion) (s : Store)
    → ((register_found project_id file_id a o s).1.files.write_jobs ≡ s.files.write_jobs)
      × ((register_found project_id file_id a o s).1.files.file_locks ≡ s.files.file_locks)
unfolding add_event
register_found_kept project_id file_id a none s = (refl, refl)
register_found_kept project_id file_id a (some v) s = (refl, refl)

module _ (project_id id : ℕ) (j : FileWriteJob) (r : Report) (s : Store) (h : HasLocks s)
    (found : get s.files.write_jobs id ≡ some j) where
  apply_job-IsExclusive : HasLocks (apply_job project_id id j r s).1
  unfolding add_event register_file_version
  apply_job-IsExclusive =
      let (v, s') = register_file_version project_id j.file_id (report_version j r) s in
      let kept =
        register_found_kept project_id j.file_id (report_version j r)
          (version_with r.result_hash (versions_of s j.file_id)) s in
      rw (kept.0, kept.1)
        (finish-IsExclusive s.files.write_jobs s.files.file_locks id j (applied_job j r v.revision)
          h found refl refl)

  refuse_job-IsExclusive :
      (status : JobStatus) (why : WriteConflict)
      → is_pending status ≡ false
      → HasLocks (refuse_job id j status why s).1
  refuse_job-IsExclusive status why ended =
      finish-IsExclusive s.files.write_jobs s.files.file_locks id j _ h found refl ended

refusal_ends :
    (disk : Disk) (j : FileWriteJob) (n : ℕ) (r : Report) (status : JobStatus) (why : WriteConflict)
    → refusal disk j n r ≡ some (status, why)
    → is_pending status ≡ false
unfolding refusal
refusal_ends disk j n r status why e = ground (arith, e)

module _ (project_id id : ℕ) (j : FileWriteJob) (r : Report) (s : Store) (h : HasLocks s)
    (found : get s.files.write_jobs id ≡ some j) where
  decide-IsExclusive :
      (o : Refusal)
      → ((status : JobStatus) (why : WriteConflict)
          → o ≡ some (status, why)
          → is_pending status ≡ false)
      → HasLocks (decide project_id id j r o s).1
  decide-IsExclusive none ends = apply_job-IsExclusive project_id id j r s h found
  decide-IsExclusive (some (status, why)) ends =
      refuse_job-IsExclusive project_id id j r s h found status why (ends status why refl)

  by_status :
      (disk : Disk) (status : JobStatus)
      → HasLocks (complete_with disk project_id id j r status s).1
  by_status disk JobStatus.applied = h
  by_status disk JobStatus.failed = h
  by_status disk JobStatus.conflict = h
  by_status disk JobStatus.pending =
      let n = length (versions_of s j.file_id) in
      decide-IsExclusive (refusal disk j n r) (refusal_ends disk j n r)

-- A completed job, applied or refused, frees its file, and no other file.
pub complete_write_job-IsExclusive :
    (disk : Disk) (project_id id : ℕ) (r : Report) (s : Store)
    → HasLocks s
    → HasLocks (complete_write_job disk project_id id r s).1
unfolding complete_write_job
complete_write_job-IsExclusive disk project_id id r s h =
    elim (Option-cases (job_in project_id id s)) [
      | inl missing ↦ rw missing h
      | inr (j, found) ↦
          rw found
            (by_status project_id id j r s h (job_in-found project_id id s j found) disk j.status)
    ]
