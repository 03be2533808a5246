-- ===== src/Design/Review.antt =====
-- The review of an import: edits, rejection and marks of conflict (apps/server/app/domain.py).
use project_digital_twin.Base.{
  ℕ, Bool, true, false, Option, none, some, List, [], ◌∷◌, ◌++◌, map, Text, text, get, put, ◌==◌,
  nat_eq, list_eq, pair_eq, option_eq, is_some, get_or, find, if◌then◌else◌,
}
use project_digital_twin.Store.Values.{
  Value, Items, str, arr, nil, cons, Fields, field_of, maybe_uuid, value_eq,
}
use project_digital_twin.Store.Contracts.{Origin, ChangeSetStatus, ChangeItem, reason, ChangeSet}
use project_digital_twin.Store.Enums.{representation_eq, item_type_eq, membership_eq}
use project_digital_twin.Store.Actions.{key_error, value_error, ok, Action, require, require_some}
use project_digital_twin.Journal.Events.{EventArgs, quiet, add_event}
use project_digital_twin.Design.Approval.{
  put_changeset, changeset_in, is_file_import, is_pending_approval,
}

-- `next((item for item in items if item["record_identity"] == record_identity), None)`
abbrev pub item_with : Text → List ChangeItem → Option ChangeItem
item_with identity items = find (λ (item : ChangeItem). item.record_identity == identity) items

abbrev pub edit_item : Text → Value → ChangeItem → ChangeItem
edit_item field value item = record item { patch = put item.patch field value }

-- The first item with the identity is edited.
unfoldable pub edit_items : Text → Text → Value → List ChangeItem → List ChangeItem
edit_items identity field value [] = []
edit_items identity field value (item ∷ items) =
    let rest = edit_items identity field value items in
    if item.record_identity == identity then edit_item field value item ∷ items else item ∷ rest

-- The patch of a change set is the dictionary of its first item, so an edit of that item shows there.
abbrev pub edited_patch : ChangeSet → Text → Text → Value → Fields
edited_patch c identity field value = elim c.items [
  | [] ↦ c.patch
  | item ∷ items ↦ if item.record_identity == identity then put item.patch field value else c.patch
]

abbrev pub edited : ChangeSet → Text → Text → Value → ChangeSet
edited c identity field value = record c {
  items = edit_items identity field value c.items;
  patch = edited_patch c identity field value;
}

abbrev pub edit_event : ℕ → ChangeSet → Text → Text → Value → Value → Text → EventArgs
edit_event project_id c identity field before value actor =
    record (quiet (text "FileImportNormalizedValueEdited") c.id project_id
      (get_or c.file_revision 0)
      ((text "file_id", maybe_uuid c.file_id)
        ∷ (text "record_identity", str identity)
        ∷ (text "field", str field)
        ∷ [])) {
          actor = actor;
          file_id = c.file_id;
          changeset_id = some c.id;
          status = some (text "PENDING_APPROVAL");
          before = (field, before) ∷ [];
          after = (field, value) ∷ [];
        }

abbrev pub edit_changeset :
    ℕ → ℕ → ChangeSet → Text → Text → Value → Text → ChangeItem → Action ChangeSet
edit_changeset project_id id c identity field value actor item =
    require (is_some (get item.patch field)) value_error (λ s.
      let c' = edited c identity field value in
      (
        ok c',
        add_event (edit_event project_id c identity field (field_of item.patch field) value actor)
            (put_changeset s id c'),
      ))

unfoldable pub edit_file_import_changeset :
    ℕ → ℕ → (identity field : Text) → Value → Text → Action ChangeSet
edit_file_import_changeset project_id id identity field value actor s =
    require_some (changeset_in project_id id s) key_error
      (λ c. require (is_file_import c.origin) value_error (
        require (is_pending_approval c.status) value_error (
          require_some (item_with identity c.items) key_error
            (edit_changeset project_id id c identity field value actor))))
      s

abbrev pub is_import : Origin → Bool
is_import Origin.file_import = true
is_import Origin.document_import = true
is_import _ = false

-- The reason stands in the payload if it is a text that is not empty.
abbrev pub rejected_payload : ChangeSet → Option Text → Fields
rejected_payload c none = (text "file_id", maybe_uuid c.file_id) ∷ []
rejected_payload c (some why) =
    if why == []
    then (text "file_id", maybe_uuid c.file_id) ∷ []
    else (text "file_id", maybe_uuid c.file_id) ∷ (text "reason", str why) ∷ []

abbrev pub reject_event : ℕ → ChangeSet → Text → Option Text → EventArgs
reject_event project_id c actor why =
    record (quiet (text "FileImportRejected") c.id project_id (get_or c.file_revision 0)
      (rejected_payload c why)) {
        actor = actor;
        file_id = c.file_id;
        changeset_id = some c.id;
        status = some (text "REJECTED");
      }

unfoldable pub reject_file_import_changeset : ℕ → ℕ → Text → Option Text → Action ChangeSet
reject_file_import_changeset project_id id actor why s =
    require_some (changeset_in project_id id s) key_error
      (λ c. require (is_import c.origin) value_error (
        require (is_pending_approval c.status) value_error (λ s.
          let c' = record c { status = ChangeSetStatus.rejected } in
          (ok c', add_event (reject_event project_id c actor why) (put_changeset s id c')))))
      s

unfoldable items_of : List Value → Items
items_of [] = nil
items_of (v ∷ rest) = cons v (items_of rest)

abbrev pub review_event : ℕ → ChangeSet → List Value → Text → EventArgs
unfolding items_of
review_event project_id c reasons actor =
    record (quiet (text "DesktopImportConflictReview") c.id project_id (get_or c.file_revision 0)
      ((text "reasons", arr (items_of reasons)) ∷ [])) {
        actor = actor;
        file_id = c.file_id;
        changeset_id = some c.id;
        status = some (text "CONFLICT_REVIEW");
      }

-- A missing change set and one of another project both raise `KeyError`.
unfoldable pub mark_changeset_conflict_review : ℕ → ℕ → List Value → Text → Action ChangeSet
mark_changeset_conflict_review project_id id reasons actor s =
    require_some (changeset_in project_id id s) key_error
      (λ c s.
        let c' = record c {
          status = ChangeSetStatus.conflict_review;
          conflicts = c.conflicts ++ map reason reasons;
        } in
        (ok c', add_event (review_event project_id c reasons actor) (put_changeset s id c')))
      s
