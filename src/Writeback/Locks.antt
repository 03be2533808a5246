-- ===== src/Writeback/Locks.antt =====
-- The lock of a file belongs to one pending job (apps/server/app/domain.py, `file_locks`).
use project_digital_twin.Base.{
  ℕ, ◌≡◌, inl, inr, true, false, ◌&&◌, ◌||◌, not, none, some, arith, Dict, get, put, remove, ◌==◌,
  nat_eq, list_eq, pair_eq, option_eq, is_some, Bool-cases, get-put, option_beq_iff, get-remove,
  IsDict, IsDict-put, if◌then◌else◌,
}
use project_digital_twin.Store.Values.{value_eq}
use project_digital_twin.Store.Contracts.{FileWriteJob}
use project_digital_twin.Writeback.Jobs.{is_pending}

-- Each job stands under its own identifier; the lock of a file is held by a pending job that writes
-- the file; and every pending job with safety checks holds the lock of its file.
pub record IsExclusive (jobs : Dict ℕ FileWriteJob) (locks : Dict ℕ ℕ) : Type 0 where
  pub unique : IsDict jobs
  pub keyed : (id : ℕ) (j : FileWriteJob) → get jobs id ≡ some j → j.id ≡ id
  pub held :
      (file_id id : ℕ)
      → get locks file_id ≡ some id
      → (j : FileWriteJob) × (get jobs id ≡ some j)
        × (j.file_id ≡ file_id)
        × (is_pending j.status ≡ true)
  pub holds :
      (id : ℕ) (j : FileWriteJob)
      → get jobs id ≡ some j
      → is_pending j.status ≡ true
      → j.safety_enforced ≡ true
      → get locks j.file_id ≡ some id

-- The locks after `_release_write_lock`.
abbrev pub released : Dict ℕ ℕ → FileWriteJob → Dict ℕ ℕ
released locks job =
    if get locks job.file_id == some job.id then remove locks job.file_id else locks

module _ (jobs : Dict ℕ FileWriteJob) (locks : Dict ℕ ℕ) where
  get-released :
      (job : FileWriteJob) (f : ℕ)
      → get (released locks job) f
        ≡ (if get locks job.file_id == some job.id && job.file_id == f then none else get locks f)
  get-released job f = ground (arith, get-remove locks job.file_id f)

  -- A pending job ends, with any other status, and its lock is released.
  pub finish-IsExclusive :
      (id : ℕ) (j j' : FileWriteJob)
      → IsExclusive jobs locks
      → get jobs id ≡ some j
      → j'.id ≡ j.id
      → is_pending j'.status ≡ false
      → IsExclusive (put jobs id j') (released locks j)
  finish-IsExclusive id j j' h found same_id ended = record {
    unique = IsDict-put jobs id j' h.unique;
    keyed = λ i x e. ground (arith, get-put jobs id i j', h.keyed id j, h.keyed i x);
    held = λ f i e.
        let (x, gx, fx, px) = h.held f i (ground (arith, get-released j f)) in
        (
          x,
          ground (
            arith,
            gx,
            get-put jobs id i j',
            get-released j f,
            h.keyed id j,
            option_beq_iff (get locks j.file_id) (some j.id),
          ),
          fx,
          px,
        );
    holds = λ i x e p safe. ground (
      arith,
      get-put jobs id i j',
      get-released j x.file_id,
      h.holds i x,
      h.keyed id j,
      option_beq_iff (get locks j.file_id) (some j.id),
    );
  }

  -- A new pending job, with the lock of its file if it is safe.
  pub enter-IsExclusive :
      (j : FileWriteJob)
      → IsExclusive jobs locks
      → get jobs j.id ≡ none
      → is_pending j.status ≡ true
      → not j.safety_enforced || not (is_some (get locks j.file_id)) ≡ true
      → IsExclusive
          (put jobs j.id j)
          (if j.safety_enforced then put locks j.file_id j.id else locks)
  enter-IsExclusive j h new pending free = record {
    unique = IsDict-put jobs j.id j h.unique;
    keyed = λ i x e. ground (arith, get-put jobs j.id i j, h.keyed i x);
    held = λ f i e. elim (Bool-cases (j.id == i)) [
      | inl same ↦ (
        j,
        ground (arith, get-put jobs j.id i j),
        ground (arith, get-put locks j.file_id f j.id, h.held f i),
        pending,
      )
      | inr differs ↦
          let (x, gx, fx, px) = h.held f i (ground (arith, get-put locks j.file_id f j.id)) in
          (x, ground (arith, gx, get-put jobs j.id i j), fx, px)
    ];
    holds = λ i x e p safe.
        ground (arith, get-put jobs j.id i j, get-put locks j.file_id x.file_id j.id, h.holds i x);
  }
