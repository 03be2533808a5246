-- ===== src/Design/Approval.antt =====
-- `approve_file_import_changeset` (apps/server/app/domain.py).
use project_digital_twin.Base.{
  ℕ, Bool, true, false, Option, none, some, List, [], ◌∷◌, map, Text, text, get, put, ◌==◌, nat_eq,
  list_eq, pair_eq, option_eq, get_or, if◌then◌else◌,
}
use project_digital_twin.Store.Values.{
  Value, Items, str, uuid, arr, nil, cons, Fields, uuids, value_eq,
}
use project_digital_twin.Store.Contracts.{
  Representation, EntityRevision, Origin, ChangeSetStatus, ChangeItem, FieldConflict, Conflict,
  on_entity, reason, ChangeSet,
}
use project_digital_twin.Store.Tables.{Camera}
use project_digital_twin.Store.Enums.{representation_eq, item_type_eq, membership_eq}
use project_digital_twin.Store.State.{Store}
use project_digital_twin.Store.Actions.{
  Error, key_error, value_error, file_import_conflict, Result, ok, err, Action, require,
  require_some,
}
use project_digital_twin.Journal.Events.{EventArgs, quiet, add_event}
use project_digital_twin.Design.Cameras.{apply_camera_payload, camera_from_payload}
use project_digital_twin.Design.Revisions.{
  RevisionArgs, plain, new_revision, append_revision, put_camera,
}
use project_digital_twin.Design.Merging.{Resolved, resolve_items}

-- In a payload a dictionary with fixed keys is the list of its values.
unfoldable pub fields_value : List FieldConflict → Items
fields_value [] = nil
fields_value (c ∷ rest) =
    cons (arr (cons (str c.field) (cons c.base (cons c.server (cons c.local nil)))))
      (fields_value rest)

unfoldable pub conflicts_value : List Conflict → Items
unfolding fields_value
conflicts_value [] = nil
conflicts_value (on_entity id fields ∷ rest) =
    cons (arr (cons (uuid id) (cons (arr (fields_value fields)) nil))) (conflicts_value rest)
conflicts_value (reason v ∷ rest) = cons v (conflicts_value rest)

-- `str(changeset.file_id)`
abbrev pub file_text : Option ℕ → Value
file_text none = str (text "None")
file_text (some id) = uuid id

abbrev pub put_changeset : Store → ℕ → ChangeSet → Store
put_changeset s id c = record s {
  imports = record (s.imports) { changesets = put s.imports.changesets id c };
}

-- The change set of this project with this identifier.
abbrev pub changeset_in : ℕ → ℕ → Store → Option ChangeSet
changeset_in project_id id s = elim (get s.imports.changesets id) [
  | none ↦ none
  | some c ↦ if c.project_id == project_id then some c else none
]

abbrev pub is_file_import : Origin → Bool
is_file_import Origin.file_import = true
is_file_import _ = false

abbrev pub is_pending_approval : ChangeSetStatus → Bool
is_pending_approval ChangeSetStatus.pending_approval = true
is_pending_approval _ = false

-- `self.camera_codes[(project_id, camera.code)] = entity_id`
abbrev pub set_code : Store → ℕ → Value → ℕ → Store
set_code s project_id code entity_id = record s {
  design = record (s.design) {
    camera_codes = put s.design.camera_codes (project_id, code) entity_id;
  };
}

abbrev pub approval_args : Text → ℕ → ChangeItem → RevisionArgs
approval_args approved_by changeset_id item =
    record (plain Representation.designed approved_by (some changeset_id)) {
      content = some item.patch;
    }

abbrev pub record_revision :
    (project_id : ℕ) → Text → ℕ → ChangeItem → Camera → Action EntityRevision
record_revision project_id approved_by changeset_id item camera s =
    let s' = set_code s project_id camera.code item.entity_id in
    let a = approval_args approved_by changeset_id item in
    (ok (new_revision camera a s'), (append_revision camera a s').1)

-- The camera after an assignment of fields, in the store whether it raised or not.
abbrev pub adopt_camera :
    (Camera → Action EntityRevision) → ℕ → Option Error × Camera → Action EntityRevision
adopt_camera next id (none, camera) s = next camera (put_camera s id camera)
adopt_camera next id (some e, camera) s = (err e, put_camera s id camera)

abbrev pub insert_new : (Camera → Action EntityRevision) → ℕ → Result Camera → Action EntityRevision
insert_new next id (err e) s = (err e, s)
insert_new next id (ok camera) s = next camera (put_camera s id camera)

abbrev pub place_camera :
    (Camera → Action EntityRevision) → ℕ → ChangeItem → Option Camera → Action EntityRevision
place_camera next project_id item none s =
    insert_new next item.entity_id (camera_from_payload item.entity_id project_id item.patch) s
place_camera next project_id item (some camera) s =
    adopt_camera next item.entity_id (apply_camera_payload camera item.patch) s

abbrev pub apply_item : (project_id : ℕ) → Text → ℕ → ChangeItem → Action EntityRevision
apply_item project_id approved_by changeset_id item s =
    place_camera (record_revision project_id approved_by changeset_id item) project_id item
      (get s.design.cameras item.entity_id) s

-- Go on with the other items, if the first did not raise.
abbrev pub then_revisions :
    (Action (List EntityRevision))
    → Result EntityRevision × Store
    → Result (List EntityRevision) × Store
then_revisions rest (err e, s) = (err e, s)
then_revisions rest (ok r, s) =
    let (result, s') = rest s in
    (elim result [ ok revisions ↦ ok (r ∷ revisions) | err e ↦ err e ], s')

-- The second loop of the approval.
unfoldable pub apply_items :
    (project_id : ℕ) → Text → ℕ → List ChangeItem → Action (List EntityRevision)
apply_items project_id approved_by changeset_id [] s = (ok [], s)
apply_items project_id approved_by changeset_id (item ∷ items) s =
    then_revisions (apply_items project_id approved_by changeset_id items)
      (apply_item project_id approved_by changeset_id item s)

abbrev pub first_base : List ChangeItem → Fields
first_base [] = []
first_base (item ∷ items) = item.base_payload

abbrev pub first_patch : List ChangeItem → Fields
first_patch [] = []
first_patch (item ∷ items) = item.patch

abbrev pub conflict_event : ℕ → ChangeSet → Text → List Conflict → EventArgs
conflict_event project_id c actor conflicts =
    record (quiet (text "FileImportConflict") c.id project_id (get_or c.file_revision 0) (
      (text "file_id", file_text c.file_id)
      ∷ (text "conflicts", arr (conflicts_value conflicts))
      ∷ [])) {
        actor = actor;
        file_id = c.file_id;
        changeset_id = some c.id;
        status = some (text "CONFLICT");
      }

abbrev pub approval_event : ℕ → ChangeSet → Text → List EntityRevision → EventArgs
approval_event project_id c actor revisions =
    record (quiet (text "FileImportApplied") c.id project_id (get_or c.file_revision 0) (
      (text "file_id", file_text c.file_id)
      ∷ (text "revisions", arr (uuids (map (λ (r : EntityRevision). r.id) revisions)))
      ∷ [])) {
        actor = actor;
        file_id = c.file_id;
        changeset_id = some c.id;
        status = some (text "APPLIED");
        before = first_base c.items;
        after = first_patch c.items;
      }

abbrev pub refuse_import :
    ℕ → ℕ → ChangeSet → Text → List Conflict → Action (ChangeSet × List EntityRevision)
refuse_import project_id id c actor conflicts s = (
  err (file_import_conflict c.id),
  add_event (conflict_event project_id c actor conflicts)
      (put_changeset s id (record c { status = ChangeSetStatus.conflict; conflicts = conflicts })),
)

-- What follows the second loop; an exception in the loop passes on.
abbrev pub finish_import :
    ℕ
    → ℕ
    → ChangeSet
    → Text
    → Result (List EntityRevision) × Store
    → Result (ChangeSet × List EntityRevision) × Store
finish_import project_id id c actor (err e, s) = (err e, s)
finish_import project_id id c actor (ok revisions, s) =
    let c' = record c { status = ChangeSetStatus.applied } in
    (
      ok (c', revisions),
      add_event (approval_event project_id c actor revisions) (put_changeset s id c'),
    )

abbrev pub settle : ℕ → ℕ → ChangeSet → Text → Resolved → Action (ChangeSet × List EntityRevision)
settle project_id id c actor (resolved, []) s = finish_import project_id id c actor (
    apply_items project_id actor c.id resolved
      (put_changeset s id (record c { status = ChangeSetStatus.approved })))
settle project_id id c actor (resolved, first ∷ others) s =
    refuse_import project_id id c actor (first ∷ others) s

unfoldable pub approve_file_import_changeset :
    ℕ → ℕ → Text → Action (ChangeSet × List EntityRevision)
approve_file_import_changeset project_id id actor s =
    require_some (changeset_in project_id id s) key_error
      (λ c. require (is_file_import c.origin) value_error (
        require (is_pending_approval c.status) value_error
          (λ s. settle project_id id c actor (resolve_items s c.items ([], [])) s)))
      s
