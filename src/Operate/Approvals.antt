-- ===== src/Operate/Approvals.antt =====
-- What the approval of an observation changes (apps/server/app/domain.py, `approve_changeset`).
use project_digital_twin.Base.{
  ℕ, ◌≡◌, refl, ap, ◌≢◌, ◌⊎◌, inl, inr, Bool, true, false, Option, none, some, Text, get, ◌==◌,
  nat_eq, list_eq, pair_eq, option_eq, last?-append_single, Bool-cases, Option-cases, get-put,
  get-put_self, if◌then◌else◌,
}
use project_digital_twin.Store.Values.{value_eq}
use project_digital_twin.Store.Contracts.{
  Representation, EntityRevision, ChangeSetStatus, ChangeSet,
}
use project_digital_twin.Store.Tables.{Camera}
use project_digital_twin.Store.Enums.{
  representation_beq, representation_eq, item_type_eq, membership_eq,
}
use project_digital_twin.Store.State.{Store}
use project_digital_twin.Store.Actions.{
  key_error, revision_conflict, Result, ok, err, require_some, is_ok,
}
use project_digital_twin.Journal.Events.{add_event}
use project_digital_twin.Design.Cameras.{camera_payload}
use project_digital_twin.Design.Revisions.{
  history, new_revision, append_revision, current_revision, is_at, revision_number,
}
use project_digital_twin.Design.Numbering.{IsAtBase, is_at-IsAtBase, not_is_at-IsAtBase}
use project_digital_twin.Design.Approval.{changeset_in, is_pending_approval}
use project_digital_twin.Operate.AsBuilt.{
  merge_into, as_built_args, build, stale, approve_changeset,
}

other_key :
    (m n : ℕ)
    → ◌==◌ {A = ℕ × Representation} (m, Representation.as_built) (n, Representation.designed)
      ≡ false
other_key m n =
    ne_of_keys (m, Representation.as_built) (n, Representation.designed)
      (λ e. absurd (cc (ap (λ (k : ℕ × Representation). k.1) e)))
  where
    ne_of_keys : (a b : ℕ × Representation) → a ≢ b → a == b ≡ false
    ne_of_keys a b ne = elim (Bool-cases (a == b)) [
      | inl same ↦ absurd (ne (((pair_eq {A = ℕ} {B = Representation}).eqb_iff a b).0 same))
      | inr differs ↦ differs
    ]

module _ (project_id id : ℕ) (actor : Text) (s : Store) where
  build-designed :
      (c : ChangeSet) (camera : Camera) (i : ℕ)
      → history (build project_id id c actor camera s).1 i Representation.designed
        ≡ history s i Representation.designed
  unfolding append_revision add_event representation_beq
  build-designed c camera i = rw (get-put, other_key camera.entity_id i) refl

  -- An approval of an observation, raised or not, leaves the designed revisions of all cameras as they
  -- are.
  pub approve_changeset_keeps_designed :
      (i : ℕ)
      → history (approve_changeset project_id id actor s).1 i Representation.designed
        ≡ history s i Representation.designed
  unfolding approve_changeset
  approve_changeset_keeps_designed i = elim (Option-cases (changeset_in project_id id s)) [
    | inl missing ↦ rw missing refl
    | inr (c, found) ↦ rw found (elim (Bool-cases (is_pending_approval c.status)) [
      | inr closed ↦ rw closed refl
      | inl waits ↦
          rw waits
            (elim (Bool-cases
              (is_at (current_revision s c.entity_id Representation.designed) c.base_revision)) [
                | inr old ↦ rw old refl
                | inl current ↦ rw current (elim (Option-cases (get s.design.cameras c.entity_id)) [
                  | inl absent ↦ rw absent refl
                  | inr (camera, present) ↦ rw present (build-designed c camera i)
                ])
              ])
    ])
  ]

module _ (project_id id : ℕ) (actor : Text) (s : Store) (c : ChangeSet) where
  abbrev pub Approval : Type 0
  Approval = Result (ChangeSet × EntityRevision) × Store

  -- The designed revision on which the approval stands or falls.
  abbrev pub designed_now : Option EntityRevision
  designed_now = current_revision s c.entity_id Representation.designed

  abbrev pub IsStale : Approval → Type 0
  IsStale (result, s') =
      (¬ IsAtBase designed_now c.base_revision)
      × (result
          ≡ err (revision_conflict c.entity_id c.base_revision (revision_number designed_now)))
      × (s'.design ≡ s.design)
      × (get s'.imports.changesets id ≡ some (record c { status = ChangeSetStatus.conflict }))

  abbrev pub IsBuilt : Approval → Type 0
  IsBuilt (result, s') =
      (camera : Camera) × (r : EntityRevision) × IsAtBase designed_now c.base_revision
      × (get s.design.cameras c.entity_id ≡ some camera)
      × (result ≡ ok (record c { status = ChangeSetStatus.applied }, r))
      × (current_revision s' camera.entity_id Representation.as_built ≡ some r)
      × (r.content ≡ merge_into (camera_payload camera) c.patch)
      × (get s'.imports.changesets id ≡ some (record c { status = ChangeSetStatus.applied }))

  abbrev pub IsMissing : Approval → Type 0
  IsMissing (result, s') =
      (get s.design.cameras c.entity_id ≡ none) × (is_ok result ≡ false) × (s' ≡ s)

  build-IsBuilt :
      (camera : Camera)
      → is_at designed_now c.base_revision ≡ true
      → get s.design.cameras c.entity_id ≡ some camera
      → IsBuilt (build project_id id c actor camera s)
  unfolding append_revision add_event current_revision
  build-IsBuilt camera current present = (
    camera,
    new_revision camera (as_built_args c camera actor) s,
    is_at-IsAtBase designed_now c.base_revision current,
    present,
    refl,
    rw get-put_self (
        last?-append_single (history s camera.entity_id Representation.as_built)
          (new_revision camera (as_built_args c camera actor) s)),
    refl,
    get-put_self s.imports.changesets id (record c { status = ChangeSetStatus.applied }),
  )

  by_camera :
      (o : Option Camera)
      → is_at designed_now c.base_revision ≡ true
      → get s.design.cameras c.entity_id ≡ o
      → (let out = require_some o key_error (build project_id id c actor) s in
          IsBuilt out ⊎ IsMissing out)
  by_camera none current absent = inr (absent, refl, refl)
  by_camera (some camera) current present = inl (build-IsBuilt camera current present)

  by_base :
      (b : Bool)
      → is_at designed_now c.base_revision ≡ b
      → (let out =
            if b
            then require_some
                (get s.design.cameras c.entity_id)
                key_error
                (build project_id id c actor)
                s
            else stale id c (revision_number designed_now) s in
          IsStale out ⊎ IsBuilt out ⊎ IsMissing out)
  by_base false old = inl (
    not_is_at-IsAtBase designed_now c.base_revision old,
    refl,
    refl,
    get-put_self s.imports.changesets id (record c { status = ChangeSetStatus.conflict }),
  )
  by_base true current = inr (by_camera (get s.design.cameras c.entity_id) current refl)

  -- The approval of a pending change set. If its camera has no current designed revision, or its base is
  -- not the number of that revision, the change set is in conflict and no revision changes. Otherwise, if the camera is
  -- stored, the change set is applied, and the current as-built revision of the camera has the camera's
  -- payload overwritten by the patch; if not, it raises and nothing changes.
  pub approve_changeset_lem :
      changeset_in project_id id s ≡ some c
      → is_pending_approval c.status ≡ true
      → (let out = approve_changeset project_id id actor s in
          IsStale out ⊎ IsBuilt out ⊎ IsMissing out)
  unfolding approve_changeset
  approve_changeset_lem found waits =
      rw (found, waits) (by_base (is_at designed_now c.base_revision) refl)
