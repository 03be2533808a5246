-- ===== src/Design/Approved.antt =====
-- What the approval of a file import does (apps/server/app/domain.py).
use mathlib.Core.Path.{subst}
use mathlib.Core.List.{Mem, mem-cons_self, mem-append_left, mem-append_right}
use project_digital_twin.Base.{
  ℕ, ◌≡◌, refl, sym, ◌∙◌, inl, inr, Option, none, some, List, [], ◌∷◌, map, Text, get, nat_eq,
  list_eq, pair_eq, option_eq, All, Bool-cases, Option-cases, get-put_self,
}
use project_digital_twin.Store.Values.{value_eq}
use project_digital_twin.Store.Contracts.{
  Representation, EntityRevision, ChangeSetStatus, ChangeItem, ChangeSet,
}
use project_digital_twin.Store.Tables.{Camera}
use project_digital_twin.Store.Enums.{representation_eq, item_type_eq, membership_eq}
use project_digital_twin.Store.State.{Store}
use project_digital_twin.Store.Actions.{Error, Result, ok, err}
use project_digital_twin.Journal.Events.{add_event}
use project_digital_twin.Design.Cameras.{apply_camera_payload, camera_from_payload}
use project_digital_twin.Design.Revisions.{
  history, RevisionArgs, new_revision, append_revision, put_camera,
}
use project_digital_twin.Design.Merging.{Resolved, resolve_items}
use project_digital_twin.Design.Approval.{
  put_changeset, changeset_in, is_file_import, is_pending_approval, set_code, approval_args,
  record_revision, adopt_camera, insert_new, place_camera, apply_item, then_revisions, apply_items,
  finish_import, settle, approve_file_import_changeset,
}
use project_digital_twin.Design.Numbering.{
  IsNumbered, append_revision-IsNumbered, is_extended, history-append_revision, key_iff,
}

-- The revision stands in the history of its entity and representation.
abbrev pub IsStored : Store → EntityRevision → Type 0
IsStored s r = Mem r (history s r.entity_id r.representation)

-- What a step keeps that assigns cameras and appends revisions: the numbering, the change sets, and the
-- revisions that are stored.
abbrev pub Keeps : Store → Store → Type 0
Keeps s s' =
    (IsNumbered s → IsNumbered s')
    × (s'.imports ≡ s.imports)
    × ((r : EntityRevision) → IsStored s r → IsStored s' r)

module _ (camera : Camera) (a : RevisionArgs) (s : Store) where
  append_revision-IsStored :
      (r : EntityRevision) → IsStored s r → IsStored (append_revision camera a s).1 r
  append_revision-IsStored r m =
      let old = history s camera.entity_id a.representation in
      subst (Mem r) (sym (history-append_revision camera a s r.entity_id r.representation))
        (elim (Bool-cases (is_extended camera a s r.entity_id r.representation)) [
          | inl same ↦
              let e =
                (key_iff (camera.entity_id, a.representation) (r.entity_id, r.representation)).0
                  same in
              rw same (
                mem-append_left (new_revision camera a s ∷ [])
                  (subst (λ (k : ℕ × Representation). Mem r (history s k.0 k.1)) (sym e) m))
          | inr apart ↦ rw apart m
        ])

  new_revision-IsStored : IsStored (append_revision camera a s).1 (new_revision camera a s)
  unfolding append_revision
  new_revision-IsStored =
      rw get-put_self (mem-append_right (history s camera.entity_id a.representation) mem-cons_self)

module _ (project_id : ℕ) (actor : Text) (changeset_id : ℕ) where
  record_revision-Keeps :
      (item : ChangeItem) (camera : Camera) (s : Store)
      → Keeps s (record_revision project_id actor changeset_id item camera s).1
  unfolding append_revision
  record_revision-Keeps item camera s = (
    λ h.
        append_revision-IsNumbered camera (approval_args actor changeset_id item)
          (set_code s project_id camera.code item.entity_id) h,
    refl,
    append_revision-IsStored camera (approval_args actor changeset_id item)
        (set_code s project_id camera.code item.entity_id),
  )

  place_camera-Keeps :
      (item : ChangeItem) (o : Option Camera) (s : Store)
      → Keeps s
          (place_camera (record_revision project_id actor changeset_id item) project_id item o s).1
  place_camera-Keeps item none s =
      by_result (camera_from_payload item.entity_id project_id item.patch)
    where
      by_result :
          (r : Result Camera)
          → Keeps s
              (insert_new (record_revision project_id actor changeset_id item) item.entity_id r s).1
      by_result (err e) = (λ h. h, refl, λ r m. m)
      by_result (ok camera) = record_revision-Keeps item camera (put_camera s item.entity_id camera)
  place_camera-Keeps item (some camera) s = by_error (apply_camera_payload camera item.patch)
    where
      by_error :
          (p : Option Error × Camera)
          → Keeps s
              (adopt_camera
                (record_revision project_id actor changeset_id item)
                item.entity_id
                p
                s).1
      by_error (none, c) = record_revision-Keeps item c (put_camera s item.entity_id c)
      by_error (some e, c) = (λ h. h, refl, λ r m. m)

  pub apply_items-Keeps :
      (items : List ChangeItem) (s : Store)
      → Keeps s (apply_items project_id actor changeset_id items s).1
  unfolding apply_items
  apply_items-Keeps [] s = (λ h. h, refl, λ r m. m)
  apply_items-Keeps (item ∷ items) s =
      by_step (apply_item project_id actor changeset_id item s)
        (place_camera-Keeps item (get s.design.cameras item.entity_id) s) (apply_items-Keeps items)
    where
      by_step :
          (step : Result EntityRevision × Store)
          → Keeps s step.1
          → ((t : Store) → Keeps t (apply_items project_id actor changeset_id items t).1)
          → Keeps s (then_revisions (apply_items project_id actor changeset_id items) step).1
      by_step (err e, t) kept rest = kept
      by_step (ok r, t) kept rest =
          (λ h. (rest t).0 (kept.0 h), (rest t).1 ∙ kept.1, λ x m. (rest t).2 x (kept.2 x m))

  abbrev HasPatch : ChangeItem → Result EntityRevision → Type 0
  HasPatch item (err e) = Unit
  HasPatch item (ok r) = r.content ≡ item.patch

  place_camera-HasPatch :
      (item : ChangeItem) (o : Option Camera) (s : Store)
      → HasPatch item
          (place_camera (record_revision project_id actor changeset_id item) project_id item o s).0
  place_camera-HasPatch item none s =
      by_result (camera_from_payload item.entity_id project_id item.patch)
    where
      by_result :
          (r : Result Camera)
          → HasPatch item
              (insert_new (record_revision project_id actor changeset_id item) item.entity_id r s).0
      by_result (err e) = tt
      by_result (ok camera) = refl
  place_camera-HasPatch item (some camera) s = by_error (apply_camera_payload camera item.patch)
    where
      by_error :
          (p : Option Error × Camera)
          → HasPatch item
              (adopt_camera
                (record_revision project_id actor changeset_id item)
                item.entity_id
                p
                s).0
      by_error (none, c) = refl
      by_error (some e, c) = tt

  -- One revision for each item, with the item's merged fields.
  abbrev pub HavePatches : List ChangeItem → Result (List EntityRevision) → Type 0
  HavePatches items (err e) = Unit
  HavePatches items (ok revisions) =
      map (λ (r : EntityRevision). r.content) revisions
      ≡ map (λ (item : ChangeItem). item.patch) items

  pub apply_items-HavePatches :
      (items : List ChangeItem) (s : Store)
      → HavePatches items (apply_items project_id actor changeset_id items s).0
  unfolding apply_items
  apply_items-HavePatches [] s = refl
  apply_items-HavePatches (item ∷ items) s =
      by_step (apply_item project_id actor changeset_id item s)
        (place_camera-HasPatch item (get s.design.cameras item.entity_id) s)
        (apply_items-HavePatches items)
    where
      by_rest :
          (r : EntityRevision) (out : Result (List EntityRevision))
          → r.content ≡ item.patch
          → HavePatches items out
          → HavePatches
              (item ∷ items)
              (elim out [ ok revisions ↦ ok (r ∷ revisions) | err e ↦ err e ])
      by_rest r (err e) same rest = tt
      by_rest r (ok revisions) same rest = cc (same, rest)

      by_step :
          (step : Result EntityRevision × Store)
          → HasPatch item step.0
          → ((t : Store) → HavePatches items (apply_items project_id actor changeset_id items t).0)
          → HavePatches
              (item ∷ items)
              (then_revisions (apply_items project_id actor changeset_id items) step).0
      by_step (err e, t) same rest = tt
      by_step (ok r, t) same rest =
          by_rest r (apply_items project_id actor changeset_id items t).0 same (rest t)

  abbrev HasEntered : Result EntityRevision × Store → Type 0
  HasEntered (err e, s) = Unit
  HasEntered (ok r, s) = IsStored s r

  place_camera-HasEntered :
      (item : ChangeItem) (o : Option Camera) (s : Store)
      → HasEntered
          (place_camera (record_revision project_id actor changeset_id item) project_id item o s)
  place_camera-HasEntered item none s =
      by_result (camera_from_payload item.entity_id project_id item.patch)
    where
      by_result :
          (r : Result Camera)
          → HasEntered
              (insert_new (record_revision project_id actor changeset_id item) item.entity_id r s)
      by_result (err e) = tt
      by_result (ok camera) = new_revision-IsStored camera (approval_args actor changeset_id item) _
  place_camera-HasEntered item (some camera) s = by_error (apply_camera_payload camera item.patch)
    where
      by_error :
          (p : Option Error × Camera)
          → HasEntered
              (adopt_camera (record_revision project_id actor changeset_id item) item.entity_id p s)
      by_error (none, c) = new_revision-IsStored c (approval_args actor changeset_id item) _
      by_error (some e, c) = tt

  -- All revisions that are returned are stored.
  abbrev pub HaveEntered : Result (List EntityRevision) × Store → Type 0
  HaveEntered (err e, s) = Unit
  HaveEntered (ok revisions, s) = All (IsStored s) revisions

  pub apply_items-HaveEntered :
      (items : List ChangeItem) (s : Store)
      → HaveEntered (apply_items project_id actor changeset_id items s)
  unfolding apply_items
  apply_items-HaveEntered [] s = tt
  apply_items-HaveEntered (item ∷ items) s =
      by_step (apply_item project_id actor changeset_id item s)
        (place_camera-HasEntered item (get s.design.cameras item.entity_id) s)
        (apply_items-HaveEntered items)
    where
      by_rest :
          (r : EntityRevision) (out : Result (List EntityRevision) × Store)
          → IsStored out.1 r
          → HaveEntered out
          → HaveEntered (elim out.0 [ ok revisions ↦ ok (r ∷ revisions) | err e ↦ err e ], out.1)
      by_rest r (err e, t) here rest = tt
      by_rest r (ok revisions, t) here rest = (here, rest)

      by_step :
          (step : Result EntityRevision × Store)
          → HasEntered step
          → ((t : Store) → HaveEntered (apply_items project_id actor changeset_id items t))
          → HaveEntered (then_revisions (apply_items project_id actor changeset_id items) step)
      by_step (err e, t) here rest = tt
      by_step (ok r, t) here rest =
          by_rest r (apply_items project_id actor changeset_id items t)
            ((apply_items-Keeps items t).2 r here) (rest t)

module _ (project_id id : ℕ) (actor : Text) (s : Store) where
  -- The approval keeps all histories numbered from 1, raised or not.
  pub approve_file_import_changeset-IsNumbered :
      IsNumbered s → IsNumbered (approve_file_import_changeset project_id id actor s).1
  unfolding approve_file_import_changeset add_event
  approve_file_import_changeset-IsNumbered h = elim (Option-cases (changeset_in project_id id s)) [
    | inl missing ↦ rw missing h
    | inr (c, found) ↦ rw found (elim (Bool-cases (is_file_import c.origin)) [
      | inr other_origin ↦ rw other_origin h
      | inl imported ↦ rw imported (elim (Bool-cases (is_pending_approval c.status)) [
        | inr closed ↦ rw closed h
        | inl waits ↦ rw waits (by_conflicts c (resolve_items s c.items ([], [])))
      ])
    ])
  ]
    where
      by_result :
          (c : ChangeSet) (step : Result (List EntityRevision) × Store)
          → IsNumbered step.1
          → IsNumbered (finish_import project_id id c actor step).1
      by_result c (err e, t) kept = kept
      by_result c (ok revisions, t) kept = kept

      by_conflicts :
          (c : ChangeSet) (r : Resolved) → IsNumbered (settle project_id id c actor r s).1
      by_conflicts c (resolved, []) =
          let s' = put_changeset s id (record c { status = ChangeSetStatus.approved }) in
          by_result c (apply_items project_id actor c.id resolved s')
            ((apply_items-Keeps project_id actor c.id resolved s').0 h)
      by_conflicts c (resolved, first ∷ others) = h
