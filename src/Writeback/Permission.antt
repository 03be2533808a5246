-- ===== src/Writeback/Permission.antt =====
-- When a write-back may be completed (apps/server/app/domain.py, `complete_write_job`).
use project_digital_twin.Base.{
  ◌≡◌, refl, ◌≢◌, inl, inr, true, false, ◌&&◌, ◌||◌, Option, none, some, [], arith, Text, ◌==◌,
  nat_eq, list_eq, pair_eq, option_eq, ne_of_beq, is_some, length, Bool-cases, Option-cases,
  list_beq_iff,
}
use project_digital_twin.Store.Values.{value_eq}
use project_digital_twin.Store.Contracts.{DestinationMode, FileWriteJob}
use project_digital_twin.Store.State.{Store}
use project_digital_twin.Writeback.Versions.{versions_of}
use project_digital_twin.Writeback.Completion.{
  Report, is_blank, is_in_place, is_restore, hash_differs, differs_on, Disk, refusal,
}

module _ (disk : Disk) (r : Report) (s : Store) (j : FileWriteJob) where
  -- What must hold for a job with safety checks.
  pub record IsSafe : Type 0 where
    pub is_confirmed : j.confirmed ≡ true
    pub is_planned : is_some j.plan_id || is_restore j.operation ≡ true
    pub at_revision : length (versions_of s j.file_id) ≡ j.expected_file_revision
    pub on_disk :
        (path hash : Text)
        → j.source_path ≡ some path
        → path ≢ []
        → disk path ≡ some hash
        → hash ≡ r.source_hash
    pub backed_up : j.destination_mode ≡ DestinationMode.in_place → is_blank r.backup_path ≡ false

  pub refusal_safe :
      refusal disk j (length (versions_of s j.file_id)) r ≡ none → j.safety_enforced ≡ true → IsSafe
  unfolding refusal
  refusal_safe e safe = record {
    is_confirmed = ground (arith, e);
    is_planned = ground (arith, e);
    at_revision = ground (arith, e);
    on_disk = λ path hash p ne d.
        ground (arith, e, p, d, list_beq_iff path [], list_beq_iff hash r.source_hash);
    backed_up = λ m. ground (arith, e, m);
  }

  pub refusal_hash :
      refusal disk j (length (versions_of s j.file_id)) r ≡ none
      → (hash : Text) → j.expected_file_hash ≡ some hash
      → hash ≡ r.source_hash
  unfolding refusal
  refusal_hash e hash expected = ground (arith, e, expected, list_beq_iff hash r.source_hash)

  -- The conditions of the completion: those of a safe job, and the hash that the job expects.
  abbrev pub IsPermitted : Type 0
  IsPermitted =
      (j.safety_enforced ≡ true → IsSafe)
      × ((hash : Text) → j.expected_file_hash ≡ some hash → hash ≡ r.source_hash)

  no_hash_refusal :
      (o : Option Text)
      → ((hash : Text) → o ≡ some hash → hash ≡ r.source_hash)
      → hash_differs o r.source_hash ≡ false
  no_hash_refusal none h = refl
  no_hash_refusal (some x) h = rw ((list_beq_iff x r.source_hash).1 (h x refl)) refl

  no_disk_refusal :
      (o : Option Text)
      → ((path hash : Text)
          → o ≡ some path
          → path ≢ []
          → disk path ≡ some hash
          → hash ≡ r.source_hash)
      → differs_on disk o r.source_hash ≡ false
  no_disk_refusal none h = refl
  no_disk_refusal (some path) h = elim (Bool-cases (path == [])) [
    | inl blank ↦ rw blank refl
    | inr named ↦ elim (Option-cases (disk path)) [
      | inl missing ↦ rw (named, missing) refl
      | inr (hash, there) ↦
          rw
            (
              named,
              there,
              (list_beq_iff hash r.source_hash).1
                  (h path hash refl (ne_of_beq path [] named) there),
            )
            refl
    ]
  ]

  no_backup_refusal :
      (m : DestinationMode)
      → (m ≡ DestinationMode.in_place → is_blank r.backup_path ≡ false)
      → is_in_place m && is_blank r.backup_path ≡ false
  no_backup_refusal DestinationMode.in_place h = rw (h refl) refl
  no_backup_refusal DestinationMode.new_file h = refl

  pub permitted_is_not_refused :
      IsPermitted → refusal disk j (length (versions_of s j.file_id)) r ≡ none
  unfolding refusal
  permitted_is_not_refused (safe, expected) =
      let agrees = no_hash_refusal j.expected_file_hash expected in
      elim (Bool-cases j.safety_enforced) [
        | inr unsafe ↦ ground (arith, unsafe, agrees)
        | inl enforced ↦
            let known = safe enforced in
            let on_disk = no_disk_refusal j.source_path known.on_disk in
            let kept = no_backup_refusal j.destination_mode known.backed_up in
            ground (
              arith, enforced, agrees, on_disk, kept, known.is_confirmed, known.is_planned,
              known.at_revision,
            )
      ]
