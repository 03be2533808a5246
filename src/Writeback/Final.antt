-- ===== src/Writeback/Final.antt =====
-- An applied job is final (apps/server/app/domain.py).
use project_digital_twin.Base.{
  ℕ, ◌+◌, ◌≡◌, refl, inl, inr, Bool, true, false, ◌||◌, not, Option, none, some, [], ◌∷◌, arith,
  Text, Dict, get, put, ◌==◌, nat_eq, list_eq, pair_eq, option_eq, is_some, length, find,
  Bool-cases, Option-cases, get-put, IsDict, EntriesOf, IsDict-put, EntriesOf-self, EntriesOf-put,
}
use project_digital_twin.Store.Values.{value_eq}
use project_digital_twin.Store.Contracts.{JobStatus, FileWriteJob}
use project_digital_twin.Store.State.{FileVersion, FileTables, Store, next_uuid, draw}
use project_digital_twin.Journal.Events.{add_event}
use project_digital_twin.Writeback.Versions.{versions_of, register_file_version}
use project_digital_twin.Writeback.Jobs.{
  JobArgs, new_job, is_applied, set_job, create_write_job, release_write_lock, fails_with,
  fail_sibling, fail_siblings, fails_together, fail_with_plan, job_in, fail_write_job,
}
use project_digital_twin.Writeback.Completion.{
  Report, Disk, Refusal, refusal, applied_job, report_version, decide, complete_with,
  complete_write_job,
}
use project_digital_twin.Writeback.Restore.{RestoreArgs, restore_job, last_hash, create_restore_job}
use project_digital_twin.Writeback.Exclusion.{register_found_kept, HasLocks, job_in-found}
use project_digital_twin.Writeback.Waiting.{IsFreshJob}
use project_digital_twin.Writeback.Queueing.{IsStable, execute_organize_writeback-Holds}
use project_digital_twin.Writeback.Commands.{
  WriteCommand, create, restore, complete, fail, confirm, run_write, ReachWrites, here, next,
  ReachWrites-IsExclusive,
}
use project_digital_twin.Writeback.History.{version_with}

module _ (i : ℕ) (x : FileWriteJob) (done : x.status ≡ JobStatus.applied) where
  -- A table that an operation leaves the applied job in.
  abbrev Keeps : Dict ℕ FileWriteJob → Type 0
  Keeps jobs = get jobs i ≡ some x

  -- Writing another job, or one that is not applied, keeps it.
  put-Keeps :
      (jobs : Dict ℕ FileWriteJob) (id : ℕ) (j j' : FileWriteJob)
      → Keeps jobs
      → get jobs id ≡ some j
      → is_applied j.status ≡ false
      → Keeps (put jobs id j')
  put-Keeps jobs id j j' h found unfinished = ground (arith, get-put jobs id i j', h, found, done)

  enter-Keeps :
      (jobs : Dict ℕ FileWriteJob) (j : FileWriteJob)
      → Keeps jobs
      → get jobs j.id ≡ none
      → Keeps (put jobs j.id j)
  enter-Keeps jobs j h new = ground (arith, get-put jobs j.id i j)

  sibling-Keeps :
      (test : Bool) (id : ℕ) (j : FileWriteJob) (jobs : Dict ℕ FileWriteJob) (t : FileTables)
      → get jobs id ≡ none
      → EntriesOf t.write_jobs ((id, j) ∷ jobs)
      → Keeps t.write_jobs
      → (test ≡ true → is_applied j.status ≡ false)
      → (let t' = fail_sibling test id j t in EntriesOf t'.write_jobs jobs × Keeps t'.write_jobs)
  sibling-Keeps false id j jobs t unique entries h unfinished = (entries.1, h)
  sibling-Keeps true id j jobs t unique entries h unfinished =
      let j' = record j { status = JobStatus.failed } in
      (
        EntriesOf-put t.write_jobs jobs id j' unique entries.1,
        put-Keeps t.write_jobs id j j' h entries.0 (unfinished refl),
      )

  siblings-Keeps :
      (plan_id job_id : ℕ) (jobs : Dict ℕ FileWriteJob) (t : FileTables)
      → IsDict jobs
      → EntriesOf t.write_jobs jobs
      → Keeps t.write_jobs
      → Keeps (fail_siblings plan_id job_id jobs t).write_jobs
  unfolding fail_siblings
  siblings-Keeps plan_id job_id [] t unique entries h = h
  siblings-Keeps plan_id job_id ((id, j) ∷ jobs) t unique entries h =
      let test = fails_with plan_id job_id j in
      let (entries', h') =
        sibling-Keeps test id j jobs t unique.0 entries h (λ e. ground (arith, e)) in
      siblings-Keeps plan_id job_id jobs (fail_sibling test id j t) unique.1 entries' h'

  fail_with_plan-Keeps :
      (plan_id : Option ℕ) (job_id : ℕ) (t : FileTables)
      → IsDict t.write_jobs
      → Keeps t.write_jobs
      → Keeps (fail_with_plan plan_id job_id t).write_jobs
  fail_with_plan-Keeps none job_id t unique h = h
  fail_with_plan-Keeps (some plan_id) job_id t unique h =
      siblings-Keeps plan_id job_id t.write_jobs t unique (EntriesOf-self t.write_jobs unique) h

  -- The jobs of a store after one job's end.
  module _ (project_id id : ℕ) (s : Store) (h : Keeps s.files.write_jobs) (j : FileWriteJob)
      (found : get s.files.write_jobs id ≡ some j) where
    decide-Keeps :
        (r : Report) (o : Refusal)
        → is_applied j.status ≡ false
        → Keeps (decide project_id id j r o s).1.files.write_jobs
    unfolding register_file_version add_event
    decide-Keeps r none unfinished =
        let kept =
          register_found_kept project_id j.file_id (report_version j r)
            (version_with r.result_hash (versions_of s j.file_id)) s in
        let (v, s') = register_file_version project_id j.file_id (report_version j r) s in
        rw kept.0
          (put-Keeps s.files.write_jobs id j (applied_job j r v.revision) h found unfinished)
    decide-Keeps r (some (status, why)) unfinished =
        put-Keeps s.files.write_jobs id j (record j { status = status }) h found unfinished

    complete_with-Keeps :
        (disk : Disk) (r : Report) (status : JobStatus)
        → j.status ≡ status
        → Keeps (complete_with disk project_id id j r status s).1.files.write_jobs
    complete_with-Keeps disk r JobStatus.applied e = h
    complete_with-Keeps disk r JobStatus.failed e = h
    complete_with-Keeps disk r JobStatus.conflict e = h
    complete_with-Keeps disk r JobStatus.pending e =
        decide-Keeps r (refusal disk j (length (versions_of s j.file_id)) r) (ground (arith, e))

  complete_write_job-Keeps :
      (disk : Disk) (project_id id : ℕ) (r : Report) (s : Store)
      → Keeps s.files.write_jobs
      → Keeps (complete_write_job disk project_id id r s).1.files.write_jobs
  unfolding complete_write_job
  complete_write_job-Keeps disk project_id id r s h = elim (Option-cases (job_in project_id id s)) [
    | inl missing ↦ rw missing h
    | inr (j, found) ↦ rw found (
        complete_with-Keeps project_id id s h j (job_in-found project_id id s j found) disk r
          j.status refl)
  ]

  fail_write_job-Keeps :
      (project_id id : ℕ) (actor why : Text) (s : Store)
      → IsDict s.files.write_jobs
      → Keeps s.files.write_jobs
      → Keeps (fail_write_job project_id id actor why s).1.files.write_jobs
  unfolding fail_write_job add_event
  fail_write_job-Keeps project_id id actor why s unique h =
      elim (Option-cases (job_in project_id id s)) [
        | inl missing ↦ rw missing h
        | inr (j, found) ↦ rw found (elim (Bool-cases (is_applied j.status)) [
          | inl applied ↦ rw applied h
          | inr unfinished ↦
              let j' = record j { status = JobStatus.failed } in
              rw unfinished (
                fail_with_plan-Keeps (fails_together j) j.id
                  (release_write_lock (set_job s.files id j') j)
                  (IsDict-put s.files.write_jobs id j' unique)
                  (put-Keeps s.files.write_jobs id j j' h (job_in-found project_id id s j found)
                    unfinished))
        ])
      ]

  Keeps-IsStable : IsStable (λ jobs locks. Keeps jobs)
  Keeps-IsStable = record {
    starts = λ jobs locks j h new waits safe free. enter-Keeps jobs j h new;
    fails = λ jobs locks j h found waits.
        put-Keeps jobs j.id j (record j { status = JobStatus.failed }) h found
          (ground (arith, waits));
  }

  create_write_job-Keeps :
      (project_id : ℕ) (a : JobArgs) (s : Store)
      → IsFreshJob s
      → Keeps s.files.write_jobs
      → Keeps (create_write_job project_id a s).1.files.write_jobs
  unfolding create_write_job add_event
  create_write_job-Keeps project_id a s fresh h =
      elim (Bool-cases (not a.safety_enforced || a.confirmed)) [
        | inr refused ↦ rw refused h
        | inl safe ↦
            rw safe
              (elim (Bool-cases
                (not a.safety_enforced || not (is_some (get s.files.file_locks a.file_id)))) [
                  | inr refused ↦ rw refused h
                  | inl free ↦ rw free (
                      enter-Keeps s.files.write_jobs (new_job (next_uuid s) project_id a) h
                        (fresh.new s.supply.drawn (omega arith)))
                ])
      ]

  create_restore_job-Keeps :
      (project_id : ℕ) (a : RestoreArgs) (s : Store)
      → IsFreshJob s
      → Keeps s.files.write_jobs
      → Keeps (create_restore_job project_id a s).1.files.write_jobs
  unfolding create_restore_job add_event
  create_restore_job-Keeps project_id a s fresh h =
      elim (Option-cases (
        find (λ (v : FileVersion). v.revision == a.target_file_revision)
          (versions_of s a.file_id))) [
            | inl missing ↦ rw missing h
            | inr (target, found) ↦
                rw found
                  (elim (Bool-cases
                    (length (versions_of s a.file_id) == a.expected_file_revision)) [
                      | inr refused ↦ rw refused h
                      | inl current ↦
                          rw current
                            (elim (Bool-cases (not (is_some (get s.files.file_locks a.file_id)))) [
                              | inr refused ↦ rw refused h
                              | inl free ↦ rw free (
                                  enter-Keeps s.files.write_jobs
                                    (restore_job (next_uuid (draw (draw s))) project_id a
                                      (next_uuid s) (last_hash (versions_of s a.file_id)))
                                    h (fresh.new (s.supply.drawn + 1 + 1) (omega arith)))
                            ])
                    ])
          ]

  run_write-Keeps :
      (c : WriteCommand) (s : Store)
      → IsFreshJob s
      → IsDict s.files.write_jobs
      → Keeps s.files.write_jobs
      → Keeps (run_write c s).files.write_jobs
  unfolding run_write
  run_write-Keeps (create project_id a) s fresh unique h =
      create_write_job-Keeps project_id a s fresh h
  run_write-Keeps (restore project_id a) s fresh unique h =
      create_restore_job-Keeps project_id a s fresh h
  run_write-Keeps (complete disk project_id id r) s fresh unique h =
      complete_write_job-Keeps disk project_id id r s h
  run_write-Keeps (fail project_id id actor why) s fresh unique h =
      fail_write_job-Keeps project_id id actor why s unique h
  run_write-Keeps (confirm disk project_id plan_id confirmed actor) s fresh unique h =
      execute_organize_writeback-Holds (λ jobs locks. Keeps jobs) Keeps-IsStable disk project_id
        plan_id confirmed actor s fresh h

-- An applied job is final: no operations on write jobs, its own completion again, the failure of its plan
-- and the confirmation of plans included, change it, if the locks were exclusive and fresh identifiers
-- are new and distinct.
pub applied_is_final :
    {s t : Store} (i : ℕ) (x : FileWriteJob)
    → HasLocks s
    → ReachWrites s t
    → get s.files.write_jobs i ≡ some x
    → x.status ≡ JobStatus.applied
    → get t.files.write_jobs i ≡ some x
applied_is_final i x h here found done = found
applied_is_final i x h (next {t = t} c r fresh) found done =
    run_write-Keeps i x done c t fresh (ReachWrites-IsExclusive h r).unique
      (applied_is_final i x h r found done)
