-- ===== src/Design/Revisions.antt =====
-- Revisions of cameras: `_append_revision`, `current_revision`, `import_camera` and `update_geometry`
-- (apps/server/app/domain.py).
use project_digital_twin.Base.{
  ℕ, ◌+◌, Bool, false, Option, none, some, List, [], ◌∷◌, ◌++◌, Text, get, put, ◌==◌, nat_eq,
  list_eq, pair_eq, option_eq, get_or, length, last?, if◌then◌else◌,
}
use project_digital_twin.Store.Values.{Value, Fields, value_eq}
use project_digital_twin.Store.Contracts.{Representation, EntityRevision}
use project_digital_twin.Store.Tables.{Camera}
use project_digital_twin.Store.Enums.{representation_eq, item_type_eq, membership_eq}
use project_digital_twin.Store.State.{Store, next_uuid, next_time, draw, tick}
use project_digital_twin.Store.Actions.{
  key_error, revision_conflict, ok, Action, require, require_some,
}
use project_digital_twin.Design.Cameras.{camera_payload}

-- `self.revisions.get((entity_id, representation), [])`
abbrev pub history : Store → ℕ → Representation → List EntityRevision
history s entity_id representation = get_or (get s.design.revisions (entity_id, representation)) []

-- The arguments of `_append_revision` behind the camera.
pub record RevisionArgs : Type 0 where
  pub representation : Representation
  pub created_by : Text
  pub changeset_id : Option ℕ
  pub geometry : Option (Value × Value)
  pub content : Option Fields

abbrev pub plain : Representation → Text → Option ℕ → RevisionArgs
plain representation created_by changeset_id = record {
  representation = representation;
  created_by = created_by;
  changeset_id = changeset_id;
  geometry = none;
  content = none;
}

abbrev pub new_revision : Camera → RevisionArgs → Store → EntityRevision
new_revision camera a s = record {
  id = next_uuid s;
  entity_id = camera.entity_id;
  representation = a.representation;
  revision = length (history s camera.entity_id a.representation) + 1;
  content = get_or a.content (camera_payload camera);
  geometry = a.geometry;
  created_at = next_time s;
  created_by = a.created_by;
  changeset_id = a.changeset_id;
}

-- `_append_revision`
unfoldable pub append_revision : Camera → RevisionArgs → Store → EntityRevision × Store
append_revision camera a s =
    let revision = new_revision camera a s in
    (
      revision,
      record (tick (draw s)) {
        design = record (s.design) {
          revisions =
              put s.design.revisions (camera.entity_id, a.representation)
                (history s camera.entity_id a.representation ++ revision ∷ []);
        };
      },
    )

unfoldable pub current_revision : Store → ℕ → Representation → Option EntityRevision
current_revision s entity_id representation = last? (history s entity_id representation)

-- `self.cameras[camera.entity_id] = camera`
abbrev pub put_camera : Store → ℕ → Camera → Store
put_camera s id camera = record s {
  design = record (s.design) { cameras = put s.design.cameras id camera };
}

pub data ImportOutcome : Type 0 where
  inserted unchanged changed : ImportOutcome

abbrev pub insert_camera : ℕ → Camera → Text → Action ImportOutcome
insert_camera project_id camera created_by s =
    let s' = record s {
      design = record (s.design) {
        cameras = put s.design.cameras camera.entity_id camera;
        camera_codes = put s.design.camera_codes (project_id, camera.code) camera.entity_id;
      };
    } in
    (ok inserted, (append_revision camera (plain Representation.designed created_by none) s').1)

-- The imported camera takes the identifier of the one that has its code.
abbrev pub change_camera : Camera → Camera → Text → Action ImportOutcome
change_camera existing camera created_by s =
    let camera' = record camera { entity_id = existing.entity_id } in
    (
      ok changed,
      (append_revision camera' (plain Representation.designed created_by none)
          (put_camera s existing.entity_id camera')).1,
    )

abbrev pub import_known : Camera → Text → Camera → Action ImportOutcome
import_known camera created_by existing s =
    if camera_payload existing == camera_payload camera
    then (ok unchanged, s)
    else change_camera existing camera created_by s

abbrev pub import_at : ℕ → Camera → Text → Option ℕ → Action ImportOutcome
import_at project_id camera created_by none s = insert_camera project_id camera created_by s
import_at project_id camera created_by (some existing_id) s =
    require_some (get s.design.cameras existing_id) key_error (import_known camera created_by) s

unfoldable pub import_camera : ℕ → Camera → Text → Action ImportOutcome
import_camera project_id camera created_by s =
    import_at project_id camera created_by (get s.design.camera_codes (project_id, camera.code)) s

-- `current is not None and current.revision == base_revision`
abbrev pub is_at : Option EntityRevision → ℕ → Bool
is_at none base = false
is_at (some r) base = r.revision == base

-- `current.revision if current else 0`
abbrev pub revision_number : Option EntityRevision → ℕ
revision_number none = 0
revision_number (some r) = r.revision

abbrev pub set_geometry : Camera → Value → Value → Text → Action EntityRevision
set_geometry camera latitude longitude created_by s =
    let a = record (plain Representation.designed created_by (some (next_uuid s))) {
      geometry = some (latitude, longitude);
    } in
    (ok (new_revision camera a (draw s)), (append_revision camera a (draw s)).1)

unfoldable pub update_geometry :
    (project_id entity_id : ℕ) (latitude longitude : Value) (base_revision : ℕ) (created_by : Text)
    → Action EntityRevision
update_geometry project_id entity_id latitude longitude base_revision created_by s =
    let current = current_revision s entity_id Representation.designed in
    require_some (get s.design.cameras entity_id) key_error
      (λ camera. require (camera.project_id == project_id) key_error (
        require (is_at current base_revision)
          (revision_conflict entity_id base_revision (revision_number current))
          (set_geometry camera latitude longitude created_by)))
      s
