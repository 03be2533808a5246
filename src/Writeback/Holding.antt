-- ===== src/Writeback/Holding.antt =====
-- The locks that the jobs of a plan hold while it is confirmed (apps/server/app/domain.py).
use project_digital_twin.Base.{
  ℕ, ◌≡◌, refl, sym, ap, ◌∙◌, inl, inr, true, false, none, some, List, [], ◌∷◌, ◌++◌, arith, Dict,
  get, put, remove, contains, ◌==◌, nat_eq, list_eq, pair_eq, option_eq, beq_refl, Bool-cases,
  get-put, option_beq, get-put_self, get-remove, nat_beq_iff,
}
use project_digital_twin.Store.Values.{value_eq}
use project_digital_twin.Store.Contracts.{JobStatus, FileWriteJob}
use project_digital_twin.Store.Enums.{representation_eq, item_type_eq, membership_eq}
use project_digital_twin.Store.State.{FileTables}
use project_digital_twin.Writeback.Jobs.{release_write_lock, set_job}
use project_digital_twin.Writeback.Plans.{abandon_jobs}

abbrev pub Locks : Type 0
Locks = Dict ℕ ℕ

-- The locks are those of `base` and one for each of the jobs, of different files that `base` has not
-- locked.
abbrev pub Holding : Locks → List FileWriteJob → Locks → Type 0
Holding base [] locks = (f : ℕ) → get locks f ≡ get base f
Holding base (j ∷ js) locks =
    (get base j.file_id ≡ none) × Holding (put base j.file_id j.id) js locks

Holding-same :
    (base base' : Locks) (js : List FileWriteJob) (locks : Locks)
    → ((f : ℕ) → get base f ≡ get base' f)
    → Holding base js locks
    → Holding base' js locks
Holding-same base base' [] locks e h = λ f. h f ∙ e f
Holding-same base base' (j ∷ js) locks e h = (
  sym (e j.file_id) ∙ h.0,
  Holding-same (put base j.file_id j.id) (put base' j.file_id j.id) js locks
      (λ f. rw (get-put, get-put) (rw (e f) refl)) h.1,
)

pub Holding-enter :
    (base : Locks) (js : List FileWriteJob) (locks : Locks) (j : FileWriteJob)
    → Holding base js locks
    → get locks j.file_id ≡ none
    → Holding base (js ++ j ∷ []) (put locks j.file_id j.id)
Holding-enter base [] locks j h free =
    (sym (h j.file_id) ∙ free, λ f. rw (get-put, get-put) (rw (h f) refl))
Holding-enter base (k ∷ js) locks j h free =
    (h.0, Holding-enter (put base k.file_id k.id) js locks j h.1 free)

-- What `base` has locked stays locked.
Holding-base :
    (base : Locks) (js : List FileWriteJob) (locks : Locks) (f i : ℕ)
    → Holding base js locks
    → get base f ≡ some i
    → get locks f ≡ some i
Holding-base base [] locks f i h e = h f ∙ e
Holding-base base (k ∷ js) locks f i h e = Holding-base (put base k.file_id k.id) js locks f i h.1 (
    rw get-put (elim (Bool-cases (k.file_id == f)) [
      | inl same ↦ absurd (cc (h.0, e, ap (get base) ((nat_beq_iff k.file_id f).0 same)))
      | inr differs ↦ rw differs e
    ]))

put_swap :
    (base : Locks) (f k i id g : ℕ)
    → f == k ≡ false
    → get (put (put base f i) k id) g ≡ get (put (put base k id) f i) g
put_swap base f k i id g differs = ground (
  arith,
  differs,
  get-put (put base f i) k g id,
  get-put base f g i,
  get-put (put base k id) f g i,
  get-put base k g id,
)

Holding-release :
    (base : Locks) (js : List FileWriteJob) (locks : Locks) (f i : ℕ)
    → get base f ≡ none
    → Holding (put base f i) js locks
    → Holding base js (remove locks f)
Holding-release base [] locks f i free h = λ g. get-remove locks f g ∙ (elim (Bool-cases (f == g)) [
  | inl same ↦ rw same (sym free ∙ ap (get base) ((nat_beq_iff f g).0 same))
  | inr differs ↦ rw differs (h g ∙ rw get-put (rw differs refl))
])
Holding-release base (k ∷ js) locks f i free h =
    let here = get-put base f k.file_id i in
    let differs : f == k.file_id ≡ false = ground (arith, here, h.0) in
    let back = get-put base k.file_id f k.id in
    (
      ground (arith, here, h.0),
      Holding-release (put base k.file_id k.id) js locks f i (ground (arith, back, differs, free)) (
          Holding-same (put (put base f i) k.file_id k.id) (put (put base k.file_id k.id) f i) js
            locks (λ g. put_swap base f k.file_id i k.id g differs) h.1),
    )

-- The locks after the jobs are abandoned are those before they were created.
pub abandon_jobs_releases :
    (base : Locks) (js : List FileWriteJob) (t : FileTables)
    → Holding base js t.file_locks
    → (f : ℕ) → get (abandon_jobs js t).file_locks f ≡ get base f
unfolding abandon_jobs option_beq
abandon_jobs_releases base [] t h f = h f
abandon_jobs_releases base (j ∷ js) t h f =
    let held =
      Holding-base (put base j.file_id j.id) js t.file_locks j.file_id j.id h.1
        (get-put_self base j.file_id j.id) in
    let t' = release_write_lock (set_job t j.id (record j { status = JobStatus.failed })) j in
    let gone : t'.file_locks ≡ remove t.file_locks j.file_id = rw held (rw (beq_refl j.id) refl) in
    abandon_jobs_releases base js t'
      (rw gone (Holding-release base js t.file_locks j.file_id j.id h.0 h.1)) f

abbrev pub file_ids : List FileWriteJob → List ℕ
file_ids [] = []
file_ids (j ∷ js) = j.file_id ∷ file_ids js

-- A lock that is not in `base` is that of one of the jobs.
pub Holding-locked :
    (base : Locks) (js : List FileWriteJob) (locks : Locks) (f i : ℕ)
    → Holding base js locks
    → get base f ≡ none
    → get locks f ≡ some i
    → contains f (file_ids js) ≡ true
unfolding contains
Holding-locked base [] locks f i h free e = cc (h f, free, e)
Holding-locked base (k ∷ js) locks f i h free e = elim (Bool-cases (k.file_id == f)) [
  | inl same ↦ rw same refl
  | inr differs ↦ rw differs (
      Holding-locked (put base k.file_id k.id) js locks f i h.1
        (ground (arith, get-put base k.file_id f k.id, differs, free)) e)
]
