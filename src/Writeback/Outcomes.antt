-- ===== src/Writeback/Outcomes.antt =====
-- What the completion of a pending job does, and when (apps/server/app/domain.py,
-- `complete_write_job`).
use project_digital_twin.Base.{
  contains-append_single, ℕ, ◌≡◌, refl, ap, ◌∙◌, ◌≢◌, ◌⊎◌, inl, inr, Bool, true, false, ◌&&◌,
  Option, none, some, List, [], ◌∷◌, arith, Text, Dict, get, put, values, contains, ◌==◌, nat_eq,
  list_eq, pair_eq, option_eq, beq_refl, length, keep, any, Bool-cases, Option-cases, get-put,
  option_beq_iff, get-put_self, get-remove,
}
use project_digital_twin.Store.Values.{value_eq}
use project_digital_twin.Store.Contracts.{JobStatus, FileWriteJob, PlanStatus, WriteBackPreviewPlan}
use project_digital_twin.Store.State.{FileVersion, FileTables, Store}
use project_digital_twin.Store.Actions.{WriteConflict, Result, ok, is_ok}
use project_digital_twin.Journal.Events.{add_event}
use project_digital_twin.Writeback.Versions.{versions_of, register_file_version, is_self_write}
use project_digital_twin.Writeback.Jobs.{
  has_failed, job_in, refreshed_plans, set_job, release_write_lock,
}
use project_digital_twin.Writeback.Completion.{
  Report, Disk, Refusal, refusal, refuse_job, applied_job, add_self_write, report_version,
  apply_job, decide, complete_with, complete_write_job,
}
use project_digital_twin.Writeback.Permission.{
  IsPermitted, refusal_safe, refusal_hash, permitted_is_not_refused,
}
use project_digital_twin.Writeback.Locks.{released}
use project_digital_twin.Writeback.History.{version_with, version_with-register_file_version}

released_is_free :
    (locks : Dict ℕ ℕ) (j : FileWriteJob) → get (released locks j) j.file_id ≢ some j.id
released_is_free locks j =
    ground (
      arith,
      get-remove locks j.file_id j.file_id,
      option_beq_iff (get locks j.file_id) (some j.id),
    )

released_others :
    (locks : Dict ℕ ℕ) (j : FileWriteJob) (f : ℕ)
    → f ≢ j.file_id
    → get (released locks j) f ≡ get locks f
released_others locks j f ne = ground (arith, get-remove locks j.file_id f, ne)

any-keep :
    {A : Type 0} (f g : A → Bool) (xs : List A) → any f (keep g xs) ≡ any (λ x. g x && f x) xs
any-keep f g [] = refl
any-keep f g (x ∷ xs) = elim (Bool-cases (g x)) [
  | inl kept ↦ rw kept (rw (any-keep f g xs) refl)
  | inr left ↦ rw left (any-keep f g xs)
]

any-put :
    {A : Type 0} (f : A → Bool) (d : Dict ℕ A) (k : ℕ) (x : A)
    → f x ≡ true
    → any f (values (put d k x)) ≡ true
unfolding put values
any-put f [] k x h = rw h refl
any-put f ((j, y) ∷ d) k x h = elim (Bool-cases (j == k)) [
  | inl same ↦ rw same (rw h refl)
  | inr apart ↦ rw apart (ground (arith, any-put f d k x h))
]

-- A plan one of whose jobs has failed is set to failed.
failed_plan :
    (t : FileTables) (o : Option ℕ) (q : ℕ) (plan : WriteBackPreviewPlan)
    → o ≡ some q
    → get t.writeback_plans q ≡ some plan
    → any (λ (x : FileWriteJob). x.plan_id == some q && has_failed x.status) (values t.write_jobs)
      ≡ true
    → get (refreshed_plans t o) q ≡ some (record plan { status = PlanStatus.failed })
unfolding refreshed_plans get
failed_plan t o q plan e found failed =
    let jobs = values t.write_jobs in
    let some_failed =
      any-keep (λ (x : FileWriteJob). has_failed x.status)
        (λ (x : FileWriteJob). x.plan_id == some q) jobs
      ∙ failed in
    rw (e, refreshed_plans, found, some_failed) (get-put_self t.writeback_plans q _)

refreshed_others :
    (t : FileTables) (o : Option ℕ) (q : ℕ)
    → o ≢ some q
    → get (refreshed_plans t o) q ≡ get t.writeback_plans q
unfolding refreshed_plans
refreshed_others t none q ne = refl
refreshed_others t (some id) q ne = elim (Option-cases (get t.writeback_plans id)) [
  | inl missing ↦ rw (refreshed_plans, missing) refl
  | inr (plan, found) ↦
      let apart : id ≢ q = λ e. ne (ap some e) in
      rw (refreshed_plans, found)
        (ground (
          arith,
          apart,
          get-put t.writeback_plans id q (record plan { status = PlanStatus.failed }),
          get-put t.writeback_plans id q (record plan { status = PlanStatus.applied }),
        ))
]

refusal_fails :
    (disk : Disk) (j : FileWriteJob) (n : ℕ) (r : Report) (status : JobStatus) (why : WriteConflict)
    → refusal disk j n r ≡ some (status, why)
    → has_failed status ≡ true
unfolding refusal
refusal_fails disk j n r status why e = ground (arith, e)

contains-add_self_write :
    (known : List (ℕ × Text)) (file_id : ℕ) (hash : Text)
    → contains (file_id, hash) (add_self_write known file_id hash) ≡ true
contains-add_self_write known file_id hash = elim (Bool-cases (contains (file_id, hash) known)) [
  | inl before ↦ rw before before
  | inr no_entry ↦ rw no_entry (contains-append_single (file_id, hash) known)
]

module _ (disk : Disk) (project_id id : ℕ) (r : Report) (s : Store) (j : FileWriteJob) where
  abbrev pub Outcome : Type 0
  Outcome = Result FileWriteJob × Store

  -- The job as it is after its completion, where its result is a version of this number.
  abbrev pub finished : ℕ → FileWriteJob
  finished revision = record j {
    status = JobStatus.applied;
    result_file_revision = some revision;
    result_file_hash = some r.result_hash;
    backup_path = r.backup_path;
  }

  -- The job is applied: its result is a version of the file and known as the server's own writing, and
  -- the job no longer holds a lock.
  pub record IsAppliedBy (out : Outcome) : Type 0 where
    pub permitted : IsPermitted disk r s j
    pub version : FileVersion
    pub registered : version_with r.result_hash (versions_of (out.1) j.file_id) ≡ some version
    pub returned : out.0 ≡ ok (finished version.revision)
    pub stored : get (out.1).files.write_jobs id ≡ some (finished version.revision)
    pub own : is_self_write (out.1) j.file_id r.result_hash ≡ true
    pub unlocked : get (out.1).files.file_locks j.file_id ≢ some j.id

  -- The job has ended, its plan has failed, and the job no longer holds a lock. Versions, change sets,
  -- journal, other jobs, other plans and the locks of other files are as before.
  pub record IsRefusedBy (out : Outcome) : Type 0 where
    pub unmet : ¬ IsPermitted disk r s j
    pub raised : is_ok (out.0) ≡ false
    pub status : JobStatus
    pub ended : has_failed status ≡ true
    pub stored : get (out.1).files.write_jobs id ≡ some (record j { status = status })
    pub versions : (out.1).files.file_versions ≡ s.files.file_versions
    pub changesets : (out.1).imports ≡ s.imports
    pub journal : (out.1).journal ≡ s.journal
    pub other_jobs : (i : ℕ) → i ≢ id → get (out.1).files.write_jobs i ≡ get s.files.write_jobs i
    pub other_locks :
        (f : ℕ) → f ≢ j.file_id → get (out.1).files.file_locks f ≡ get s.files.file_locks f
    pub own_plan :
        (q : ℕ) (plan : WriteBackPreviewPlan)
        → j.plan_id ≡ some q
        → get s.files.writeback_plans q ≡ some plan
        → get (out.1).files.writeback_plans q ≡ some (record plan { status = PlanStatus.failed })
    pub other_plans :
        (q : ℕ)
        → j.plan_id ≢ some q
        → get (out.1).files.writeback_plans q ≡ get s.files.writeback_plans q
    pub unlocked : get (out.1).files.file_locks j.file_id ≢ some j.id

  refused-IsRefusedBy :
      (status : JobStatus) (why : WriteConflict)
      → has_failed status ≡ true
      → ¬ IsPermitted disk r s j
      → IsRefusedBy (refuse_job id j status why s)
  refused-IsRefusedBy status why ended unmet = record {
    unmet = unmet;
    raised = refl;
    status = status;
    ended = ended;
    stored = get-put_self s.files.write_jobs id (record j { status = status });
    versions = refl;
    changesets = refl;
    journal = refl;
    other_jobs = λ i ne. get-put s.files.write_jobs id i _ ∙ ground (arith, ne);
    other_locks = λ f ne. released_others s.files.file_locks j f ne;
    own_plan = λ q plan e found.
        failed_plan (set_job (release_write_lock s.files j) id (record j { status = status }))
          j.plan_id q plan e found
          (any-put (λ (x : FileWriteJob). x.plan_id == some q && has_failed x.status)
            s.files.write_jobs id (record j { status = status })
            (rw (e, ended) (rw (beq_refl {A = Option ℕ} (some q)) refl)));
    other_plans = λ q ne.
        refreshed_others (set_job (release_write_lock s.files j) id (record j { status = status }))
          j.plan_id q ne;
    unlocked = released_is_free s.files.file_locks j;
  }

  applied-IsAppliedBy :
      refusal disk j (length (versions_of s j.file_id)) r ≡ none
      → IsAppliedBy (apply_job project_id id j r s)
  unfolding add_event is_self_write
  applied-IsAppliedBy e =
      let (v, s') = register_file_version project_id j.file_id (report_version j r) s in
      record {
        permitted = (refusal_safe disk r s j e, refusal_hash disk r s j e);
        version = v;
        registered = version_with-register_file_version project_id j.file_id (report_version j r) s;
        returned = refl;
        stored = get-put_self s'.files.write_jobs id (applied_job j r v.revision);
        own = contains-add_self_write s'.files.self_write_hashes j.file_id r.result_hash;
        unlocked = released_is_free s'.files.file_locks j;
      }

  decided :
      (o : Refusal)
      → refusal disk j (length (versions_of s j.file_id)) r ≡ o
      → IsAppliedBy (decide project_id id j r o s) ⊎ IsRefusedBy (decide project_id id j r o s)
  decided none e = inl (applied-IsAppliedBy e)
  decided (some (status, why)) e = inr (
      refused-IsRefusedBy status why
        (refusal_fails disk j (length (versions_of s j.file_id)) r status why e)
        (λ met. cc (permitted_is_not_refused disk r s j met, e)))

  by_status :
      (status : JobStatus)
      → status ≡ JobStatus.pending
      → IsAppliedBy (complete_with disk project_id id j r status s)
        ⊎ IsRefusedBy (complete_with disk project_id id j r status s)
  by_status JobStatus.pending e = decided (refusal disk j (length (versions_of s j.file_id)) r) refl
  by_status JobStatus.applied e = cc e
  by_status JobStatus.failed e = cc e
  by_status JobStatus.conflict e = cc e

  -- The completion of a pending job, exactly if every condition on it holds, applies it: the job has the
  -- hash of its result, the revision of that version of the file, and the path of the backup, the
  -- result is known as the server's own writing, and the job holds no lock. Otherwise it raises, the job has ended and holds no
  -- lock and its plan has failed, while versions, change sets, journal, other jobs, other plans and
  -- the locks of other files are as before. A job with safety checks must be confirmed, be of a plan or a
  -- restore, expect the current revision of the file, find the content on disk that the worker has seen,
  -- and have a backup if it overwrites the file; any job must find the hash that it expects, if any.
  pub complete_write_job_lem :
      job_in project_id id s ≡ some j
      → j.status ≡ JobStatus.pending
      → IsAppliedBy (complete_write_job disk project_id id r s)
        ⊎ IsRefusedBy (complete_write_job disk project_id id r s)
  unfolding complete_write_job
  complete_write_job_lem found pending = rw found (by_status j.status pending)
