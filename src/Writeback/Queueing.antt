-- ===== src/Writeback/Queueing.antt =====
-- What holds of jobs and locks through the confirmation of a plan (apps/server/app/domain.py,
-- `execute_organize_writeback`).
use mathlib.Core.Path.{subst}
use project_digital_twin.Base.{
  ℕ, ◌≡◌, refl, ap, inl, inr, Bool, true, false, none, some, List, [], ◌∷◌, ◌++◌, arith, Text, Dict,
  get, put, nat_eq, list_eq, pair_eq, option_eq, all, All, Option-cases, IsDict, EntriesOf,
  EntriesOf-put,
}
use project_digital_twin.Store.Values.{value_eq}
use project_digital_twin.Store.Contracts.{JobStatus, FileWriteJob, FilePlan, WriteBackPreviewPlan}
use project_digital_twin.Store.Enums.{representation_eq, item_type_eq, membership_eq}
use project_digital_twin.Store.State.{FileTables, Store, next_uuid, draw}
use project_digital_twin.Store.Actions.{
  blocked, Error, organize_conflict, file_write_conflict, Result, ok, err, Action, require,
}
use project_digital_twin.Journal.Events.{add_event}
use project_digital_twin.Writeback.Jobs.{
  is_pending, new_job, store_job, release_write_lock, set_job,
}
use project_digital_twin.Writeback.Completion.{Disk}
use project_digital_twin.Writeback.Locks.{released}
use project_digital_twin.Writeback.Plans.{
  PlanConflict, plan_conflicts, plan_job, abandon_jobs, attempt, queue_files, confirm_queued,
  confirm_with, is_preview, plan_in, confirm_found, execute_organize_writeback,
}
use project_digital_twin.Writeback.Waiting.{
  IsFreshJob, entered, AreWaiting, stored-AreWaiting, no_jobs-AreWaiting, create_unlocked,
  create_locked,
}

-- A condition on jobs and locks that a new safe job on a file that is not locked keeps, and a pending job
-- that fails.
pub record IsStable (P : Dict ℕ FileWriteJob → Dict ℕ ℕ → Type 0) : Type 0 where
  pub starts :
      (jobs : Dict ℕ FileWriteJob) (locks : Dict ℕ ℕ) (j : FileWriteJob)
      → P jobs locks
      → get jobs j.id ≡ none
      → is_pending j.status ≡ true
      → j.safety_enforced ≡ true
      → get locks j.file_id ≡ none
      → P (put jobs j.id j) (put locks j.file_id j.id)
  pub fails :
      (jobs : Dict ℕ FileWriteJob) (locks : Dict ℕ ℕ) (j : FileWriteJob)
      → P jobs locks
      → get jobs j.id ≡ some j
      → is_pending j.status ≡ true
      → P (put jobs j.id (record j { status = JobStatus.failed })) (released locks j)

module _ (P : Dict ℕ FileWriteJob → Dict ℕ ℕ → Type 0) (stable : IsStable P) where
  abbrev Holds : FileTables → Type 0
  Holds t = P t.write_jobs t.file_locks

  abandon_jobs-Holds :
      (js : List FileWriteJob) (t : FileTables)
      → IsDict (entered js)
      → EntriesOf t.write_jobs (entered js)
      → All (λ (j : FileWriteJob). is_pending j.status ≡ true) js
      → Holds t
      → Holds (abandon_jobs js t)
  unfolding abandon_jobs
  abandon_jobs-Holds [] t apart there waits h = h
  abandon_jobs-Holds (j ∷ js) t apart there waits h =
      let j' = record j { status = JobStatus.failed } in
      abandon_jobs-Holds js (release_write_lock (set_job t j.id j') j) apart.1
        (EntriesOf-put t.write_jobs (entered js) j.id j' apart.0 there.1) waits.1
        (stable.fails t.write_jobs t.file_locks j h there.0 waits.0)

  module _ (project_id plan_id : ℕ) (plan : WriteBackPreviewPlan) where
    queue_files-Holds :
        (files : List FilePlan) (js : List FileWriteJob) (s : Store)
        → AreWaiting js s
        → Holds s.files
        → Holds (queue_files project_id plan_id plan files js s).1.files
    unfolding queue_files add_event
    queue_files-Holds [] js s w h = h
    queue_files-Holds (f ∷ files) js s w h =
        elim (Option-cases (get s.files.file_locks f.file_id)) [
          | inl free ↦
              let j = new_job (next_uuid s) project_id (plan_job s plan f) in
              rw (create_unlocked project_id plan f s free) (
                queue_files-Holds files (js ++ j ∷ []) (store_job j (draw s)).1
                  (stored-AreWaiting js j s w refl refl)
                  (stable.starts s.files.write_jobs s.files.file_locks j h
                    (w.fresh.new s.supply.drawn (omega arith)) refl refl free))
          | inr (i, locked) ↦
              rw (create_locked project_id plan f s i locked)
                (abandon_jobs-Holds js s.files w.apart w.there w.pending h)
        ]

    confirm_with-Holds :
        (actor : Text) (conflicts : List (PlanConflict × ℕ)) (s : Store)
        → IsFreshJob s
        → Holds s.files
        → Holds (confirm_with project_id plan_id plan actor conflicts s).1.files
    unfolding add_event
    confirm_with-Holds actor (c ∷ conflicts) s fresh h = h
    confirm_with-Holds actor [] s fresh h =
        by_queue (queue_files project_id plan_id plan plan.files [] s)
          (queue_files-Holds plan.files [] s (no_jobs-AreWaiting s fresh) h)
      where
        by_queue :
            (out : Result (List FileWriteJob) × Store)
            → Holds out.1.files
            → Holds
                (attempt out
                  (λ e s. (err e, s))
                  (confirm_queued project_id plan_id plan actor)).1.files
        by_queue (ok jobs, t) k = k
        by_queue (err e, t) k = k

  require-Holds :
      {A : Type 0} (test : Bool) (e : Error) (m : Action A) (s : Store)
      → Holds s.files
      → Holds (m s).1.files
      → Holds (require test e m s).1.files
  require-Holds true e m s h k = k
  require-Holds false e m s h k = h

  -- The confirmation of a plan keeps it, whatever comes of it.
  pub execute_organize_writeback-Holds :
      (disk : Disk) (project_id plan_id : ℕ) (confirmed : Bool) (actor : Text) (s : Store)
      → IsFreshJob s
      → Holds s.files
      → Holds (execute_organize_writeback disk project_id plan_id confirmed actor s).1.files
  unfolding execute_organize_writeback
  execute_organize_writeback-Holds disk project_id plan_id confirmed actor s fresh h =
      elim (Option-cases (plan_in project_id plan_id s)) [
        | inl missing ↦ rw missing h
        | inr (plan, found) ↦ rw found (by_tests plan confirmed)
      ]
    where
      by_tests :
          (plan : WriteBackPreviewPlan) (confirmed : Bool)
          → Holds (confirm_found disk project_id plan_id confirmed actor plan s).1.files
      by_tests plan false = h
      by_tests plan true =
          let go = λ (t : Store).
            confirm_with project_id plan_id plan actor (plan_conflicts disk project_id t plan.files)
              t in
          require-Holds (is_preview plan.status) organize_conflict
            (require plan.can_confirm (file_write_conflict blocked) go) s h
            (require-Holds plan.can_confirm (file_write_conflict blocked) go s h (
              confirm_with-Holds project_id plan_id plan actor
                (plan_conflicts disk project_id s plan.files) s fresh h))

ok_inj : {A : Type 0} {a b : A} → ok a ≡ ok b → a ≡ b
ok_inj {A} {a} q = ap (λ (o : Result A). elim o as (λ _. A) [ ok x ↦ x | err _ ↦ a ]) q

-- The jobs that are returned stand in the store.
pub queue_files-IsStored :
    (project_id plan_id : ℕ) (plan : WriteBackPreviewPlan) (files : List FilePlan)
    (js all : List FileWriteJob) (s : Store)
    → AreWaiting js s
    → (queue_files project_id plan_id plan files js s).0 ≡ ok all
    → EntriesOf (queue_files project_id plan_id plan files js s).1.files.write_jobs (entered all)
unfolding queue_files add_event
queue_files-IsStored project_id plan_id plan [] js all s w e =
    subst (λ l. EntriesOf s.files.write_jobs (entered l)) (ok_inj e) w.there
queue_files-IsStored project_id plan_id plan (f ∷ files) js all s w e =
    elim (Option-cases (get s.files.file_locks f.file_id)) [
      | inl free ↦
          let j = new_job (next_uuid s) project_id (plan_job s plan f) in
          rw (create_unlocked project_id plan f s free) (
            queue_files-IsStored project_id plan_id plan files (js ++ j ∷ []) all
              (store_job j (draw s)).1 (stored-AreWaiting js j s w refl refl)
              (rw (create_unlocked project_id plan f s free) at e))
      | inr (i, locked) ↦ absurd (cc (rw (create_locked project_id plan f s i locked) at e))
    ]
