-- ===== src/Writeback/Drift.antt =====
-- A file restored to an earlier content (apps/server/app/domain.py, `register_file_version`,
-- `create_restore_job`, `complete_write_job`).
use mathlib.Core.Path.{subst}
use project_digital_twin.Base.{
  ℕ, ◌≡◌, refl, ap, ◌∙◌, ◌≢◌, inl, inr, true, false, not, none, some, arith, Text, get, ◌==◌,
  nat_eq, list_eq, pair_eq, option_eq, beq_refl, is_some, length, find, Bool-cases, Option-cases,
  list_beq_iff, get-put_self,
}
use project_digital_twin.Store.Values.{value_eq}
use project_digital_twin.Store.Contracts.{JobStatus, FileWriteJob}
use project_digital_twin.Store.State.{FileVersion, Store, next_uuid, draw}
use project_digital_twin.Store.Actions.{Result, ok, err, is_ok}
use project_digital_twin.Journal.Events.{add_event}
use project_digital_twin.Writeback.Jobs.{job_in}
use project_digital_twin.Writeback.Versions.{VersionArgs, versions_of, register_file_version}
use project_digital_twin.Writeback.Completion.{
  Report, Disk, Refusal, refusal, decide, complete_with, complete_write_job,
}
use project_digital_twin.Writeback.Restore.{
  RestoreArgs, restore_job, last_hash, start_restore, create_restore_job,
}
use project_digital_twin.Writeback.History.{version_with, register_file_version_lem}

ok_inj : {A : Type 0} {a b : A} → ok a ≡ ok b → a ≡ b
ok_inj {A} {a} e = ap (λ (o : Result A). elim o as (λ _. A) [ ok x ↦ x | err _ ↦ a ]) e

module _ (disk : Disk) (n : ℕ) (r : Report) where
  -- A job that expects another content than the worker has found is refused.
  hash_mismatch-refusal :
      (j : FileWriteJob) (hash : Text)
      → j.expected_file_hash ≡ some hash
      → hash ≢ r.source_hash
      → is_some (refusal disk j n r) ≡ true
  unfolding refusal
  hash_mismatch-refusal j hash e ne = ground (arith, e, list_beq_iff hash r.source_hash)

-- What a restore job that was created is: it stands in the store, pending, for the project, and expects
-- the latest recorded hash.
abbrev pub IsStarted : ℕ → RestoreArgs → Store → FileWriteJob → Store → Type 0
IsStarted project_id b s job t =
    (get t.files.write_jobs job.id ≡ some job)
    × (job.project_id ≡ project_id)
    × (job.status ≡ JobStatus.pending)
    × (job.expected_file_hash ≡ last_hash (versions_of s b.file_id))

started :
    (project_id : ℕ) (b : RestoreArgs) (s t : Store) (job : FileWriteJob)
    → create_restore_job project_id b s ≡ (ok job, t)
    → IsStarted project_id b s job t
unfolding create_restore_job add_event
started project_id b s t job e =
    elim (Option-cases (
      find (λ (v : FileVersion). v.revision == b.target_file_revision) (versions_of s b.file_id))) [
        | inl missing ↦
            absurd (cc (ap (λ (o : Result FileWriteJob × Store). o.0) (rw missing at e)))
        | inr (target, found) ↦
            let e1 = rw found at e in
            elim (Bool-cases (length (versions_of s b.file_id) == b.expected_file_revision)) [
              | inr stale ↦
                  absurd (cc (ap (λ (o : Result FileWriteJob × Store). o.0) (rw stale at e1)))
              | inl current ↦
                  let e2 = rw current at e1 in
                  elim (Bool-cases (not (is_some (get s.files.file_locks b.file_id)))) [
                    | inr locked ↦
                        absurd
                          (cc (ap (λ (o : Result FileWriteJob × Store). o.0) (rw locked at e2)))
                    | inl free ↦
                        let made =
                          restore_job (next_uuid (draw (draw s))) project_id b (next_uuid s)
                            (last_hash (versions_of s b.file_id)) in
                        let start = start_restore project_id b target s in
                        let e3 : start ≡ (ok job, t) = rw free at e2 in
                        subst
                          (λ (o : Result FileWriteJob × Store). IsStarted project_id b s job o.1) e3
                          (subst (λ j. IsStarted project_id b s j start.1)
                            (ok_inj (ap (λ (o : Result FileWriteJob × Store). o.0) e3))
                            (get-put_self s.files.write_jobs made.id made, refl, refl, refl))
                  ]
            ]
      ]

-- A completion that reports another content than the job expects raises.
mismatch_raises :
    (disk : Disk) (project_id : ℕ) (r : Report) (t : Store) (job : FileWriteJob) (hash : Text)
    → get t.files.write_jobs job.id ≡ some job
    → job.project_id ≡ project_id
    → job.status ≡ JobStatus.pending
    → job.expected_file_hash ≡ some hash
    → hash ≢ r.source_hash
    → is_ok (complete_write_job disk project_id job.id r t).0 ≡ false
unfolding complete_write_job
mismatch_raises disk project_id r t job hash found own waits expects ne =
    let here : job_in project_id job.id t ≡ some job =
      rw (found, job_in) (rw (same_project job.project_id own) refl) in
    rw here (by_status job.status waits)
  where
    same_project : (n : ℕ) → n ≡ project_id → n == project_id ≡ true
    same_project n e = rw e (beq_refl project_id)

    by_refusal :
        (o : Refusal) → is_some o ≡ true → is_ok (decide project_id job.id job r o t).0 ≡ false
    by_refusal none e = absurd (cc e)
    by_refusal (some (status, why)) e = refl

    by_status :
        (status : JobStatus)
        → status ≡ JobStatus.pending
        → is_ok (complete_with disk project_id job.id job r status t).0 ≡ false
    by_status JobStatus.pending e =
        let n = length (versions_of t job.file_id) in
        by_refusal (refusal disk job n r) (hash_mismatch-refusal disk n r job hash expects ne)
    by_status JobStatus.applied e = absurd (cc e)
    by_status JobStatus.failed e = absurd (cc e)
    by_status JobStatus.conflict e = absurd (cc e)

-- A file whose content becomes again that of an earlier version, as after an exact restore, keeps the
-- other hash as its latest recorded one. So a restore job of the file that is created then is refused by
-- its completion when the worker reports the content that the file now has.
pub restored_content_is_refused :
    (project_id : ℕ) (a : VersionArgs) (s : Store) (v : FileVersion) (hash : Text) (disk : Disk)
    (b : RestoreArgs) (job : FileWriteJob) (t : Store) (r : Report)
    → version_with a.file_hash (versions_of s b.file_id) ≡ some v
    → last_hash (versions_of s b.file_id) ≡ some hash
    → hash ≢ a.file_hash
    → create_restore_job project_id b (register_file_version project_id b.file_id a s).1
      ≡ (ok job, t)
    → r.source_hash ≡ a.file_hash
    → (last_hash (versions_of (register_file_version project_id b.file_id a s).1 b.file_id)
        ≡ some hash)
      × (is_ok (complete_write_job disk project_id job.id r t).0 ≡ false)
restored_content_is_refused project_id a s v hash disk b job t r known latest ne created reported =
    let (found, own, waits, expects) =
      started project_id b (register_file_version project_id b.file_id a s).1 t job created in
    (
      kept,
      mismatch_raises disk project_id r t job hash found own waits (expects ∙ kept)
          (λ same. ne (same ∙ reported)),
    )
  where
    kept :
        last_hash (versions_of (register_file_version project_id b.file_id a s).1 b.file_id)
        ≡ some hash
    kept = elim (register_file_version_lem project_id b.file_id a s) [
      | inl (e, same) ↦ rw same latest
      | inr (fresh, _, _, _) ↦ absurd (cc (known, fresh))
    ]
