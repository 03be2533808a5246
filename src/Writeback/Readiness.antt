-- ===== src/Writeback/Readiness.antt =====
-- The files that a plan can be confirmed for (apps/server/app/domain.py, `execute_organize_writeback`).
use project_digital_twin.Base.{
  ℕ, ◌≡◌, refl, ◌≢◌, ◌⊎◌, inl, inr, Bool, true, false, ◌&&◌, not, none, some, List, [], ◌∷◌, ◌++◌,
  arith, Text, get, ◌==◌, Key, nat_eq, list_eq, pair_eq, option_eq, ne_of_beq, is_some, last?, All,
  Bool-cases, Option-cases, list_beq_iff, option_beq_iff,
}
use project_digital_twin.Store.Values.{value_eq}
use project_digital_twin.Store.Contracts.{FilePlan}
use project_digital_twin.Store.Enums.{representation_eq, item_type_eq, membership_eq}
use project_digital_twin.Store.State.{FileVersion, Store}
use project_digital_twin.Writeback.Completion.{Disk}
use project_digital_twin.Writeback.Versions.{versions_of}
use project_digital_twin.Writeback.Plans.{
  stale_revision, stale_hash, stale_content, report_if, has_stale_content, import_evidence, newest,
  imports_of, writeback_file_evidence, PlanConflict, file_conflicts, plan_conflicts,
}

append-nil-left : {A : Type 0} (xs ys : List A) → xs ++ ys ≡ [] → (xs ≡ []) × (ys ≡ [])
append-nil-left [] ys e = (refl, e)
append-nil-left (x ∷ xs) ys e = cc (e)

module _ (disk : Disk) (project_id : ℕ) (s : Store) where
  -- The plan expects the latest version of the file or, where none is recorded, its newest import.
  abbrev pub IsCurrent : FilePlan → Type 0
  IsCurrent f =
      ((v : FileVersion) × (last? (versions_of s f.file_id) ≡ some v)
        × (f.expected_revision ≡ some v.revision)
        × (f.expected_sha256 ≡ some v.sha256))
      ⊎ (let e = import_evidence (newest (imports_of project_id f.file_id s) none) in
          (last? (versions_of s f.file_id) ≡ none)
          × (f.expected_revision ≡ e.revision)
          × (f.expected_sha256 ≡ e.sha256))

  -- The content on disk, where it can be read, has the hash that the plan expects.
  abbrev pub IsAsExpected : FilePlan → Type 0
  IsAsExpected f =
      (path hash actual : Text)
      → f.source_path ≡ some path
      → f.expected_sha256 ≡ some hash
      → path ≢ []
      → hash ≢ []
      → disk path ≡ some actual
      → actual ≡ hash

  abbrev pub IsReady : FilePlan → Type 0
  IsReady f = (get s.files.file_locks f.file_id ≡ none) × IsCurrent f × IsAsExpected f

  reported : (test : Bool) (c : PlanConflict) (id : ℕ) → report_if test c id ≡ [] → test ≡ false
  reported true c id e = cc (e)
  reported false c id e = refl

  beq_of : {A : Type 0} ⦃key : Key A⦄ (a b : A) → not (a == b) ≡ false → a ≡ b
  beq_of ⦃key⦄ a b e = (key.eqb_iff a b).0 (ground (arith, e))

  ne_beq : {A : Type 0} ⦃key : Key A⦄ (a b : A) → a ≢ b → (a == b) ≡ false
  ne_beq ⦃key⦄ a b n = elim (Bool-cases (a == b)) [
    | inl same ↦ absurd (n ((key.eqb_iff a b).0 same))
    | inr differs ↦ differs
  ]

  as_expected : (f : FilePlan) → has_stale_content disk f ≡ false → IsAsExpected f
  as_expected f e path hash actual at_path expects named hashed there =
      beq_of actual hash
        (rw (at_path, expects, ne_beq path [] named, ne_beq hash [] hashed, there) at e)

  evidence-IsCurrent :
      (f : FilePlan)
      → f.expected_revision ≡ (writeback_file_evidence project_id f.file_id s).revision
      → f.expected_sha256 ≡ (writeback_file_evidence project_id f.file_id s).sha256
      → IsCurrent f
  unfolding writeback_file_evidence
  evidence-IsCurrent f r h = elim (Option-cases (last? (versions_of s f.file_id))) [
    | inl missing ↦ inr (
      missing,
      rw (writeback_file_evidence, missing) at r,
      rw (writeback_file_evidence, missing) at h,
    )
    | inr (v, found) ↦ inl (
      v,
      found,
      rw (writeback_file_evidence, found) at r,
      rw (writeback_file_evidence, found) at h,
    )
  ]

  file_conflicts-IsReady : (f : FilePlan) → file_conflicts disk project_id s f ≡ [] → IsReady f
  unfolding file_conflicts
  file_conflicts-IsReady f e = elim (Option-cases (get s.files.file_locks f.file_id)) [
    | inl free ↦
        let known = writeback_file_evidence project_id f.file_id s in
        let (r, rest) =
          append-nil-left
            (report_if (not (f.expected_revision == known.revision)) stale_revision f.file_id) _
            (rw (free, is_some) at e) in
        let (h, c) =
          append-nil-left (report_if (not (f.expected_sha256 == known.sha256)) stale_hash f.file_id)
            _ rest in
        (
          free,
          evidence-IsCurrent f
              (beq_of f.expected_revision known.revision (reported _ stale_revision f.file_id r))
              (beq_of f.expected_sha256 known.sha256 (reported _ stale_hash f.file_id h)),
          as_expected f (reported _ stale_content f.file_id c),
        )
    | inr (i, locked) ↦ absurd (cc (rw (locked, is_some) at e))
  ]

  evidence_of :
      (f : FilePlan)
      → IsCurrent f
      → (f.expected_revision ≡ (writeback_file_evidence project_id f.file_id s).revision)
        × (f.expected_sha256 ≡ (writeback_file_evidence project_id f.file_id s).sha256)
  unfolding writeback_file_evidence
  evidence_of f (inl (v, found, r, h)) = rw (writeback_file_evidence, found) (r, h)
  evidence_of f (inr (missing, r, h)) = rw (writeback_file_evidence, missing) (r, h)

  not_stale : (f : FilePlan) → IsAsExpected f → has_stale_content disk f ≡ false
  not_stale f h = elim (Option-cases f.source_path) [
    | inl nowhere ↦ rw nowhere refl
    | inr (path, at_path) ↦ elim (Option-cases f.expected_sha256) [
      | inl unknown ↦ rw (at_path, unknown) refl
      | inr (hash, expects) ↦
          rw (at_path, expects)
            (read path hash (Bool-cases (path == [])) (Bool-cases (hash == []))
              (Option-cases (disk path)) (λ actual. h path hash actual at_path expects))
    ]
  ]
    where
      read :
          (path hash : Text)
          → (path == [] ≡ true) ⊎ (path == [] ≡ false)
          → (hash == [] ≡ true) ⊎ (hash == [] ≡ false)
          → (disk path ≡ none) ⊎ ((actual : Text) × (disk path ≡ some actual))
          → ((actual : Text) → path ≢ [] → hash ≢ [] → disk path ≡ some actual → actual ≡ hash)
          → (not (path == [])
              && (not (hash == [])
                  && (elim (disk path) [ none ↦ false | some actual ↦ not (actual == hash) ])))
            ≡ false
      read path hash (inl p) _ _ k = rw p refl
      read path hash (inr p) (inl q) _ k = rw (p, q) refl
      read path hash (inr p) (inr q) (inl e) k = rw (p, q, e) refl
      read path hash (inr p) (inr q) (inr (actual, e)) k =
          rw
            (
              p,
              q,
              e,
              (list_beq_iff actual hash).1 (k actual (ne_of_beq path [] p) (ne_of_beq hash [] q) e),
            )
            refl

  file_conflicts-none : (f : FilePlan) → IsReady f → file_conflicts disk project_id s f ≡ []
  unfolding file_conflicts
  file_conflicts-none f (free, current, expected) =
      let (r, h) = evidence_of f current in
      let known = writeback_file_evidence project_id f.file_id s in
      rw
        (
          free,
          is_some,
          ((option_beq_iff f.expected_revision known.revision).1 r),
          ((option_beq_iff f.expected_sha256 known.sha256).1 h),
          not_stale f expected,
        )
        refl

  pub plan_conflicts-IsReady :
      (files : List FilePlan) → plan_conflicts disk project_id s files ≡ [] → All IsReady files
  unfolding plan_conflicts
  plan_conflicts-IsReady [] e = tt
  plan_conflicts-IsReady (f ∷ files) e =
      let (here, later) =
        append-nil-left (file_conflicts disk project_id s f)
          (plan_conflicts disk project_id s files) e in
      (file_conflicts-IsReady f here, plan_conflicts-IsReady files later)

  pub plan_conflicts-none :
      (files : List FilePlan) → All IsReady files → plan_conflicts disk project_id s files ≡ []
  unfolding plan_conflicts
  plan_conflicts-none [] h = refl
  plan_conflicts-none (f ∷ files) h =
      rw (file_conflicts-none f h.0, plan_conflicts-none files h.1) refl
