-- ===== src/Design/Tests.antt =====
-- Cameras, merges and change sets on small stores.
use project_digital_twin.Base.{
  ℕ, ◌≡◌, refl, ◌≢◌, ◌⊎◌, false, none, some, List, [], ◌∷◌, text, get, put, nat_eq, list_eq,
  pair_eq, option_eq, list_beq, get-empty,
}
use project_digital_twin.Store.Values.{
  bool_beq, Value, str, other, Fields, field_of, value_eq, value_beq,
}
use project_digital_twin.Store.Contracts.{
  Representation, EntityRevision, Origin, ChangeSetStatus, ChangeItem, ChangeSet,
}
use project_digital_twin.Store.Tables.{Camera}
use project_digital_twin.Store.Enums.{representation_eq, item_type_eq, membership_eq}
use project_digital_twin.Store.State.{Store}
use project_digital_twin.Store.Actions.{ok, is_ok}
use project_digital_twin.Design.Cameras.{camera_payload, blank_camera}
use project_digital_twin.Design.Revisions.{append_revision, import_camera, update_geometry}
use project_digital_twin.Design.Merging.{merge_values}
use project_digital_twin.Design.Approval.{
  put_changeset, changeset_in, approve_file_import_changeset,
}
use project_digital_twin.Design.Review.{edit_file_import_changeset}
use project_digital_twin.Store.Samples.{empty_store}
use project_digital_twin.Design.Numbering.{
  IsNumbered, IsUpdated, CanUpdate, update_geometry_lem, import_camera-IsNumbered,
}
use project_digital_twin.Design.Threeway.{merge_keeps_changes}
use project_digital_twin.Design.Approved.{approve_file_import_changeset-IsNumbered}
use project_digital_twin.Design.Edits.{IsEdited, IsUneditable, edit_file_import_changeset_lem}

abbrev gate : Camera
gate = record (blank_camera 5 1) { code = str (text "C1"); name = str (text "Gate") }

-- The camera with its first revision.
abbrev stocked : Store
stocked = (import_camera 1 gate (text "ann") empty_store).1

empty-IsNumbered : IsNumbered empty_store
unfolding empty_store
empty-IsNumbered id rep =
    rw (get-empty {K = ℕ × Representation} {V = List EntityRevision} (id, rep)) tt

stocked-IsNumbered : IsNumbered stocked
stocked-IsNumbered = import_camera-IsNumbered empty_store empty-IsNumbered 1 gate (text "ann")

update_geometry_lem_example :
    let (result, s') = update_geometry 1 5 (other 1) (other 2) 1 (text "ann") stocked in
    ((camera : Camera) × (r : EntityRevision) × (result ≡ ok r)
      × (camera.entity_id ≡ 5
          → IsUpdated stocked stocked-IsNumbered 1 5 (other 1) (other 2) 1 (text "ann") r s')
      × CanUpdate stocked stocked-IsNumbered 1 5 (other 1) (other 2) 1 (text "ann") camera)
    ⊎ ((is_ok result ≡ false)
        × (s' ≡ stocked)
        × ((camera : Camera)
            → ¬ CanUpdate stocked stocked-IsNumbered 1 5 (other 1) (other 2) 1 (text "ann") camera))
update_geometry_lem_example =
    update_geometry_lem stocked stocked-IsNumbered 1 5 (other 1) (other 2) 1 (text "ann")

-- The server has renamed the camera, the client has changed its model.
abbrev base : Fields
base = (text "name", str (text "A")) ∷ (text "model", str (text "M1")) ∷ []

abbrev server : Fields
server = (text "name", str (text "B")) ∷ (text "model", str (text "M1")) ∷ []

abbrev patch : Fields
patch = (text "name", str (text "A")) ∷ (text "model", str (text "M2")) ∷ []

merge_keeps_changes_example :
    (get patch (text "model") ≡ none
      → get (merge_values base server patch (server, [])).0 (text "model")
        ≡ get server (text "model"))
    × ((client : Value)
        → get patch (text "model") ≡ some client
        → (client ≢ field_of base (text "model")
            → field_of (merge_values base server patch (server, [])).0 (text "model") ≡ client)
          × (field_of server (text "model") ≢ field_of base (text "model")
              → field_of (merge_values base server patch (server, [])).0 (text "model")
                ≡ field_of server (text "model")))
unfolding merge_values get put list_beq value_beq bool_beq
merge_keeps_changes_example =
    merge_keeps_changes base server patch (refl, (refl, tt)) refl (text "model")

abbrev item : ChangeItem
item = record {
  entity_id = 5;
  record_identity = text "row-2";
  source_locator = none;
  base_revision = 1;
  base_payload = camera_payload gate;
  patch = camera_payload (record gate { model = str (text "M2") });
}

abbrev proposal : ChangeSet
proposal = record {
  id = 9;
  project_id = 1;
  origin = Origin.file_import;
  submitted_by = text "ann";
  submitted_at = 0;
  status = ChangeSetStatus.pending_approval;
  entity_id = 5;
  representation = Representation.designed;
  base_revision = 1;
  patch = item.patch;
  file_id = some 7;
  file_revision = some 1;
  file_hash = none;
  items = item ∷ [];
  raw_rows = [];
  conflicts = [];
  document_assets = [];
  relationship_proposals = [];
  document_tables = [];
  document_mapped_tables = [];
  parse_report = other 0;
}

abbrev proposed : Store
proposed = put_changeset stocked 9 proposal

proposed_is_found : changeset_in 1 9 proposed ≡ some proposal
unfolding import_camera append_revision empty_store get put list_beq
proposed_is_found = refl

approve_file_import_changeset-IsNumbered_example :
    IsNumbered (approve_file_import_changeset 1 9 (text "bob") proposed).1
approve_file_import_changeset-IsNumbered_example =
    approve_file_import_changeset-IsNumbered 1 9 (text "bob") proposed stocked-IsNumbered

edit_file_import_changeset_lem_example :
    let v = str (text "M3") in
    let out =
      edit_file_import_changeset 1 9 (text "row-2") (text "model") v (text "bob") proposed in
    IsEdited 1 9 (text "row-2") (text "model") v (text "bob") proposed proposal out
    ⊎ IsUneditable 1 9 (text "row-2") (text "model") v (text "bob") proposed proposal out
edit_file_import_changeset_lem_example =
    edit_file_import_changeset_lem 1 9 (text "row-2") (text "model") (str (text "M3")) (text "bob")
      proposed proposal proposed_is_found refl refl
