-- ===== src/Writeback/Commands.antt =====
-- The operations on write jobs, in any order (apps/server/app/domain.py).
use mathlib.Core.Path.{subst}
use project_digital_twin.Base.{
  ℕ, ◌+◌, ◌≡◌, refl, ◌≢◌, Bool, true, some, arith, Text, get, put, nat_eq, list_eq, pair_eq,
  option_eq, if◌then◌else◌,
}
use project_digital_twin.Store.Values.{value_eq}
use project_digital_twin.Store.Contracts.{JobStatus, FileWriteJob}
use project_digital_twin.Store.State.{Store}
use project_digital_twin.Writeback.Jobs.{JobArgs, is_pending, create_write_job, fail_write_job}
use project_digital_twin.Writeback.Completion.{Report, Disk, complete_write_job}
use project_digital_twin.Writeback.Restore.{RestoreArgs, create_restore_job}
use project_digital_twin.Writeback.Plans.{execute_organize_writeback}
use project_digital_twin.Writeback.Locks.{IsExclusive, enter-IsExclusive, finish-IsExclusive}
use project_digital_twin.Writeback.Waiting.{IsFreshJob}
use project_digital_twin.Writeback.Queueing.{IsStable, execute_organize_writeback-Holds}
use project_digital_twin.Writeback.Exclusion.{
  HasLocks, create_write_job-IsExclusive, create_restore_job-IsExclusive,
  fail_write_job-IsExclusive, complete_write_job-IsExclusive,
}

pub data WriteCommand : Type 0 where
  create : ℕ → JobArgs → WriteCommand
  restore : ℕ → RestoreArgs → WriteCommand
  complete : Disk → (project_id job_id : ℕ) → Report → WriteCommand
  fail : (project_id job_id : ℕ) → (actor why : Text) → WriteCommand
  confirm : Disk → (project_id plan_id : ℕ) → (confirmed : Bool) → (actor : Text) → WriteCommand

-- The store after an operation, whatever it returns.
unfoldable pub run_write : WriteCommand → Store → Store
run_write (create project_id a) s = (create_write_job project_id a s).1
run_write (restore project_id a) s = (create_restore_job project_id a s).1
run_write (complete disk project_id job_id r) s = (complete_write_job disk project_id job_id r s).1
run_write (fail project_id job_id actor why) s = (fail_write_job project_id job_id actor why s).1
run_write (confirm disk project_id plan_id confirmed actor) s =
    (execute_organize_writeback disk project_id plan_id confirmed actor s).1

IsExclusive-IsStable : IsStable IsExclusive
IsExclusive-IsStable = record {
  starts = λ jobs locks j h new waits safe free.
      subst (λ b. IsExclusive (put jobs j.id j) (if b then put locks j.file_id j.id else locks))
        safe (enter-IsExclusive jobs locks j h new waits (rw (safe, free) refl));
  fails = λ jobs locks j h found waits.
      finish-IsExclusive jobs locks j.id j (record j { status = JobStatus.failed }) h found refl
        refl;
}

run_write-IsExclusive :
    (c : WriteCommand) (s : Store) → HasLocks s → IsFreshJob s → HasLocks (run_write c s)
unfolding run_write
run_write-IsExclusive (create project_id a) s h fresh =
    create_write_job-IsExclusive project_id a s h (fresh.new s.supply.drawn (omega arith))
run_write-IsExclusive (restore project_id a) s h fresh =
    create_restore_job-IsExclusive project_id a s h
      (fresh.new (s.supply.drawn + 1 + 1) (omega arith))
run_write-IsExclusive (complete disk project_id id r) s h fresh =
    complete_write_job-IsExclusive disk project_id id r s h
run_write-IsExclusive (fail project_id id actor why) s h fresh =
    fail_write_job-IsExclusive project_id id actor why s h
run_write-IsExclusive (confirm disk project_id plan_id confirmed actor) s h fresh =
    execute_organize_writeback-Holds IsExclusive IsExclusive-IsStable disk project_id plan_id
      confirmed actor s fresh h

-- The stores that the operations reach, refused ones included.
pub data ReachWrites (s : Store) : Store → Type 0 where
  here : ReachWrites s s
  next :
      {t : Store} (c : WriteCommand)
      → ReachWrites s t
      → IsFreshJob t
      → ReachWrites s (run_write c t)

-- Whatever operations on write jobs, the confirmation of plans among them, have run since the locks were exclusive, refused ones included and
-- with fresh identifiers new and distinct,
-- they are exclusive: each lock is held by a pending job that writes the locked file, and each pending
-- job with safety checks holds the lock of its file.
pub ReachWrites-IsExclusive : {s t : Store} → HasLocks s → ReachWrites s t → HasLocks t
ReachWrites-IsExclusive h here = h
ReachWrites-IsExclusive h (next {t = t} c r fresh) =
    run_write-IsExclusive c t (ReachWrites-IsExclusive h r) fresh

-- After any operations on write jobs, the confirmation of plans among them, since the locks were exclusive, where fresh identifiers are new and distinct,
-- two different pending jobs with safety checks write different files.
pub pending_jobs_exclude :
    {s t : Store} (i j : ℕ) (x y : FileWriteJob)
    → HasLocks s
    → ReachWrites s t
    → get t.files.write_jobs i ≡ some x
    → get t.files.write_jobs j ≡ some y
    → i ≢ j
    → is_pending x.status ≡ true
    → is_pending y.status ≡ true
    → x.safety_enforced ≡ true
    → y.safety_enforced ≡ true
    → x.file_id ≢ y.file_id
pending_jobs_exclude {t = t} i j x y h r gi gj ne px py sx sy same =
    let h' = ReachWrites-IsExclusive h r in
    ne (cc (h'.holds i x gi px sx, h'.holds j y gj py sy, same))
