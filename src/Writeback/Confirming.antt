-- ===== src/Writeback/Confirming.antt =====
-- Confirming a plan enters all of its jobs or none (apps/server/app/domain.py).
use mathlib.Core.List.{append-nil, append_assoc}
use project_digital_twin.Base.{
  ℕ, ◌≡◌, refl, ap, ◌⊎◌, inl, inr, true, false, none, some, List, [], ◌∷◌, ◌++◌, arith, get, get_or,
  contains, ◌==◌, nat_eq, list_eq, pair_eq, option_eq, beq_refl, All, Bool-cases, Option-cases,
  get-put_self, EntriesOf, nat_beq_iff,
}
use project_digital_twin.Store.Values.{value_eq}
use project_digital_twin.Store.Contracts.{
  JobStatus, FileWriteJob, PlanStatus, FilePlan, WriteBackPreviewPlan,
}
use project_digital_twin.Store.Enums.{representation_eq, item_type_eq, membership_eq}
use project_digital_twin.Store.State.{Store, next_uuid, draw}
use project_digital_twin.Store.Actions.{file_locked, blocked, file_write_conflict, Result, ok, err}
use project_digital_twin.Journal.Events.{add_event}
use project_digital_twin.Writeback.Jobs.{new_job, store_job}
use project_digital_twin.Writeback.Completion.{Disk}
use project_digital_twin.Writeback.Holding.{
  Locks, Holding, Holding-enter, abandon_jobs_releases, file_ids, Holding-locked,
}
use project_digital_twin.Writeback.Waiting.{entered, create_unlocked, create_locked}
use project_digital_twin.Writeback.Readiness.{IsReady}
use project_digital_twin.Writeback.Plans.{plan_job, abandon_jobs, abandon, queue_files}

-- No file stands twice.
abbrev pub NoRepeat : List ℕ → Type 0
NoRepeat [] = Unit
NoRepeat (f ∷ fs) = (contains f fs ≡ false) × NoRepeat fs

contains-middle : (fs rest : List ℕ) (f : ℕ) → contains f (fs ++ f ∷ rest) ≡ true
unfolding contains
contains-middle [] rest f = rw (beq_refl f) refl
contains-middle (g ∷ fs) rest f = rw (contains-middle fs rest f) (ground arith)

NoRepeat-append : (fs rest : List ℕ) (f : ℕ) → contains f fs ≡ true → ¬ NoRepeat (fs ++ f ∷ rest)
unfolding contains
NoRepeat-append [] rest f e n = cc (e)
NoRepeat-append (g ∷ fs) rest f e n = elim (Bool-cases (g == f)) [
  | inl same ↦
      let there : contains g (fs ++ f ∷ rest) ≡ true =
        rw ((nat_beq_iff g f).0 same) (contains-middle fs rest f) in
      cc (there, n.0)
  | inr differs ↦ NoRepeat-append fs rest f (rw differs at e) n.1
]

abbrev pub plan_files : List FilePlan → List ℕ
plan_files [] = []
plan_files (f ∷ files) = f.file_id ∷ plan_files files

-- The job for an entry of the plan: it is pending, confirmed and has the safety checks, and it is to write what
-- the entry says, if the file is still as the entry expects.
abbrev pub IsJobOf : ℕ → FilePlan → FileWriteJob → Type 0
IsJobOf plan_id f j =
    (j.file_id ≡ f.file_id)
    × (j.status ≡ JobStatus.pending)
    × (j.plan_id ≡ some plan_id)
    × (j.expected_file_hash ≡ f.expected_sha256)
    × (j.source_path ≡ f.source_path)
    × (j.destination_path ≡ f.destination_path)
    × (j.destination_mode ≡ f.destination_mode)
    × (j.expected_file_revision ≡ get_or f.expected_revision 0)
    × (j.confirmed ≡ true)
    × (j.safety_enforced ≡ true)

abbrev pub Matches : ℕ → List FilePlan → List FileWriteJob → Type 0
Matches plan_id [] [] = Unit
Matches plan_id (f ∷ files) (j ∷ js) = IsJobOf plan_id f j × Matches plan_id files js
Matches plan_id _ _ = ⊥

file_ids-concat :
    (jobs : List FileWriteJob) (j : FileWriteJob) (rest : List ℕ)
    → file_ids (jobs ++ j ∷ []) ++ rest ≡ file_ids jobs ++ j.file_id ∷ rest
file_ids-concat [] j rest = refl
file_ids-concat (k ∷ jobs) j rest =
    ap (λ (fs : List ℕ). k.file_id ∷ fs) (file_ids-concat jobs j rest)

module _ (project_id plan_id : ℕ) (plan : WriteBackPreviewPlan) (base : Locks) where
  abbrev pub IsQueued :
      List FilePlan → List FileWriteJob → Result (List FileWriteJob) × Store → Type 0
  IsQueued files jobs out =
      (js : List FileWriteJob) × (out.0 ≡ ok (jobs ++ js))
      × Matches plan.id files js
      × Holding base (jobs ++ js) out.1.files.file_locks

  abbrev pub IsAbandoned :
      List FilePlan → List FileWriteJob → Result (List FileWriteJob) × Store → Type 0
  IsAbandoned files jobs out =
      (out.0 ≡ err (file_write_conflict file_locked))
      × ((f : ℕ) → get out.1.files.file_locks f ≡ get base f)
      × (get out.1.files.writeback_plans plan_id
          ≡ some (record plan { status = PlanStatus.failed }))
      × ¬ NoRepeat (file_ids jobs ++ plan_files files)

  abandoned :
      (files : List FilePlan) (f : FilePlan) (jobs : List FileWriteJob) (s : Store) (i : ℕ)
      → Holding base jobs s.files.file_locks
      → get base f.file_id ≡ none
      → get s.files.file_locks f.file_id ≡ some i
      → IsAbandoned
          (f ∷ files)
          jobs
          (abandon plan_id plan jobs (file_write_conflict file_locked) (draw s))
  abandoned files f jobs s i h free e = (
    refl,
    abandon_jobs_releases base jobs s.files h,
    get-put_self (abandon_jobs jobs s.files).writeback_plans plan_id
        (record plan { status = PlanStatus.failed }),
    NoRepeat-append (file_ids jobs) (plan_files files) f.file_id
        (Holding-locked base jobs s.files.file_locks f.file_id i h free e),
  )

  with_one_more :
      (f : FilePlan) (files : List FilePlan) (jobs : List FileWriteJob) (j : FileWriteJob)
      (out : Result (List FileWriteJob) × Store)
      → IsJobOf plan.id f j
      → IsQueued files (jobs ++ j ∷ []) out ⊎ IsAbandoned files (jobs ++ j ∷ []) out
      → IsQueued (f ∷ files) jobs out ⊎ IsAbandoned (f ∷ files) jobs out
  with_one_more f files jobs j out is_job (inl (js, e, m, h)) =
      let joined = append_assoc jobs (j ∷ []) js in
      inl (j ∷ js, rw joined at e, (is_job, m), rw joined at h)
  with_one_more f files jobs j out is_job (inr (e, locks, failed, n)) =
      inr (e, locks, failed, λ r. n (rw (file_ids-concat, is_job.0) r))

  pub queue_files_lem :
      (files : List FilePlan) (jobs : List FileWriteJob) (s : Store)
      → Holding base jobs s.files.file_locks
      → All (λ (f : FilePlan). get base f.file_id ≡ none) files
      → IsQueued files jobs (queue_files project_id plan_id plan files jobs s)
        ⊎ IsAbandoned files jobs (queue_files project_id plan_id plan files jobs s)
  unfolding queue_files add_event
  queue_files_lem [] jobs s h free = inl ([], rw (append-nil jobs) refl, tt, rw (append-nil jobs) h)
  queue_files_lem (f ∷ files) jobs s h free =
      elim (Option-cases (get s.files.file_locks f.file_id)) [
        | inl open_file ↦
            let a = plan_job s plan f in
            let j = new_job (next_uuid s) project_id a in
            let s' = (store_job j (draw s)).1 in
            rw (create_unlocked project_id plan f s open_file) (
              with_one_more f files jobs j
                (queue_files project_id plan_id plan files (jobs ++ j ∷ []) s')
                (refl, refl, refl, refl, refl, refl, refl, refl, refl, refl)
                (queue_files_lem files (jobs ++ j ∷ []) s'
                  (Holding-enter base jobs s.files.file_locks j h open_file) free.1))
        | inr (i, locked) ↦ inr (
            rw (create_locked project_id plan f s i locked)
              (abandoned files f jobs s i h free.0 locked))
      ]

module _ (disk : Disk) (project_id : ℕ) (s : Store) where
  module _ (plan_id : ℕ) (plan : WriteBackPreviewPlan) where
    -- All jobs are there: one for each file, in order, each in the store with the lock of its file.
    abbrev pub IsConfirmed : Result (List FileWriteJob) × Store → Type 0
    IsConfirmed out =
        (js : List FileWriteJob) × (out.0 ≡ ok js)
        × Matches plan.id plan.files js
        × EntriesOf out.1.files.write_jobs (entered js)
        × Holding s.files.file_locks js out.1.files.file_locks
        × (get out.1.files.writeback_plans plan_id
            ≡ some (record plan { status = PlanStatus.queued }))
        × All (IsReady disk project_id s) plan.files

    -- A file is locked, or is not what the plan expects: no job is created.
    abbrev pub IsBlocked : Result (List FileWriteJob) × Store → Type 0
    IsBlocked out =
        (out.0 ≡ err (file_write_conflict blocked))
        × (out.1.files.write_jobs ≡ s.files.write_jobs)
        × (out.1.files.file_locks ≡ s.files.file_locks)
        × (get out.1.files.writeback_plans plan_id
            ≡ some (record plan { status = PlanStatus.conflict }))
        × ¬ All (IsReady disk project_id s) plan.files

    -- A file stands twice in the plan: the locks are as they were.
    abbrev pub IsGivenUp : Result (List FileWriteJob) × Store → Type 0
    IsGivenUp out =
        (out.0 ≡ err (file_write_conflict file_locked))
        × ((f : ℕ) → get out.1.files.file_locks f ≡ get s.files.file_locks f)
        × (get out.1.files.writeback_plans plan_id
            ≡ some (record plan { status = PlanStatus.failed }))
        × ¬ NoRepeat (plan_files plan.files)
        × All (IsReady disk project_id s) plan.files
