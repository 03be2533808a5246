-- ===== src/Operate/Observations.antt =====
-- `submit_observation` (apps/server/app/domain.py).
use project_digital_twin.Base.{
  ℕ, Bool, false, ◌&&◌, Option, none, some, [], ◌∷◌, Text, text, get, put, contains, ◌==◌, nat_eq,
  list_eq, pair_eq, option_eq,
}
use project_digital_twin.Store.Values.{Value, uuid, other, value_eq}
use project_digital_twin.Store.Contracts.{Representation, Origin, ChangeSetStatus, ChangeSet}
use project_digital_twin.Store.Tables.{Camera, FieldPackage, Observation}
use project_digital_twin.Store.Enums.{representation_eq, item_type_eq, membership_eq}
use project_digital_twin.Store.State.{Store, next_uuid, next_time, draw, tick}
use project_digital_twin.Store.Actions.{key_error, ok, Action, require, require_some}
use project_digital_twin.Journal.Events.{EventArgs, quiet, add_event}

-- The arguments of `submit_observation` without the key.
pub record ObservationArgs : Type 0 where
  pub project_id : ℕ
  pub field_package_id : ℕ
  pub entity_id : ℕ
  pub base_revision : ℕ
  pub operator_id : Text
  pub gps : Value
  pub form_data : Value

-- The entity is in the field package, and that in the project.
abbrev pub is_packed : ObservationArgs → Option FieldPackage → Bool
is_packed a none = false
is_packed a (some x) = x.project_id == a.project_id && contains a.entity_id x.entity_ids

abbrev pub has_camera : ObservationArgs → Option Camera → Bool
has_camera a none = false
has_camera a (some x) = x.project_id == a.project_id

abbrev pub observation_changeset : ℕ → ObservationArgs → ℕ → ChangeSet
observation_changeset id a now = record {
  id = id;
  project_id = a.project_id;
  origin = Origin.operate_field;
  submitted_by = a.operator_id;
  submitted_at = now;
  status = ChangeSetStatus.pending_approval;
  entity_id = a.entity_id;
  representation = Representation.as_built;
  base_revision = a.base_revision;
  patch = (text "form_data", a.form_data) ∷ (text "gps", a.gps) ∷ [];
  file_id = none;
  file_revision = none;
  file_hash = none;
  items = [];
  raw_rows = [];
  conflicts = [];
  document_assets = [];
  relationship_proposals = [];
  document_tables = [];
  document_mapped_tables = [];
  parse_report = other 0;
}

abbrev pub new_observation : ℕ → ObservationArgs → Text → ℕ → ℕ → Observation
new_observation id a key changeset_id now = record {
  id = id;
  project_id = a.project_id;
  field_package_id = a.field_package_id;
  entity_id = a.entity_id;
  base_revision = a.base_revision;
  observed_at = now;
  operator_id = a.operator_id;
  gps = a.gps;
  form_data = a.form_data;
  status = text "SUBMITTED";
  changeset_id = changeset_id;
  idempotency_key = key;
}

abbrev pub observation_event : Observation → EventArgs
observation_event o =
    record (quiet (text "ObservationSubmitted") o.id o.project_id 1
      ((text "changeset_id", uuid o.changeset_id) ∷ [])) {
        actor = o.operator_id;
        object_id = some o.entity_id;
        changeset_id = some o.changeset_id;
        status = some o.status;
      }

-- The change set and the observation in their tables.
abbrev pub enter_observation : Store → ObservationArgs → Text → Observation → Store
enter_observation s a key o = record (tick (tick (draw (draw s)))) {
  imports = record (s.imports) {
    changesets =
        put s.imports.changesets o.changeset_id
          (observation_changeset o.changeset_id a (next_time s));
  };
  operate = record (s.operate) {
    observations = put s.operate.observations o.id o;
    idempotency = put s.operate.idempotency key o.id;
  };
}

abbrev pub store_observation : ObservationArgs → Text → Action Observation
store_observation a key s =
    let o = new_observation (next_uuid (draw s)) a key (next_uuid s) (next_time (tick s)) in
    (ok o, add_event (observation_event o) (enter_observation s a key o))

abbrev pub submit_new : ObservationArgs → Text → Action Observation
submit_new a key s =
    require (is_packed a (get s.operate.field_packages a.field_package_id)) key_error
      (require (has_camera a (get s.design.cameras a.entity_id)) key_error
        (store_observation a key))
      s

-- `self.observations[existing_id]` for a known key
abbrev pub submit_known : ObservationArgs → Text → Option ℕ → Action Observation
submit_known a key none s = submit_new a key s
submit_known a key (some id) s =
    require_some (get s.operate.observations id) key_error (λ o s. (ok o, s)) s

unfoldable pub submit_observation : ObservationArgs → Text → Action Observation
submit_observation a key s = submit_known a key (get s.operate.idempotency key) s
