-- ===== src/Design/Merging.antt =====
-- The merge of a change set into the cameras: the first loop of `approve_file_import_changeset`
-- (apps/server/app/domain.py).
use project_digital_twin.Base.{
  ℕ, Bool, true, ◌&&◌, not, Option, none, some, List, [], ◌∷◌, ◌++◌, Text, get, put, ◌==◌, nat_eq,
  list_eq, pair_eq, option_eq, length, if◌then◌else◌,
}
use project_digital_twin.Store.Values.{Value, Fields, field_of, value_eq}
use project_digital_twin.Store.Contracts.{
  Representation, EntityRevision, ChangeItem, FieldConflict, Conflict, on_entity,
}
use project_digital_twin.Store.Tables.{Camera}
use project_digital_twin.Store.Enums.{representation_eq, item_type_eq, membership_eq}
use project_digital_twin.Store.State.{Store}
use project_digital_twin.Design.Cameras.{camera_payload}
use project_digital_twin.Design.Revisions.{current_revision}

-- `merged` and `field_conflicts`
abbrev pub FieldMerge : Type 0
FieldMerge = Fields × List FieldConflict

-- The server has changed the field since the base, the client has changed it too, and they differ.
abbrev pub clash : (base server client : Value) → Bool
clash base server client = not (server == base) && (not (client == base) && not (client == server))

abbrev pub merge_value : (base server : Fields) → Text → Value → FieldMerge → FieldMerge
merge_value base server name client (merged, conflicts) =
    if field_of server name == field_of base name
    then (put merged name client, conflicts)
    else if clash (field_of base name) (field_of server name) client
    then (
      merged,
      conflicts
          ++ record {
            field = name;
            base = field_of base name;
            server = field_of server name;
            local = client;
          }
            ∷ [],
    )
    else (merged, conflicts)

-- The loop over `client_payload.items()`.
unfoldable pub merge_values : (base server : Fields) → Fields → FieldMerge → FieldMerge
merge_values base server [] m = m
merge_values base server ((name, client) ∷ rest) m =
    merge_values base server rest (merge_value base server name client m)

-- `existing is None or current is None or current.revision == item["base_revision"]`
abbrev pub is_current : Option Camera → Option EntityRevision → ℕ → Bool
is_current none current base = true
is_current (some camera) none base = true
is_current (some camera) (some r) base = r.revision == base

-- `resolved` and `conflicts`
abbrev pub Resolved : Type 0
Resolved = List ChangeItem × List Conflict

abbrev pub merge_item : Option Camera → ChangeItem → FieldMerge
merge_item none item = (item.patch, [])
merge_item (some camera) item =
    merge_values item.base_payload (camera_payload camera) item.patch (camera_payload camera, [])

abbrev pub add_merge : ChangeItem → FieldMerge → Resolved → Resolved
add_merge item (merged, conflicts) (resolved, found) =
    if length conflicts == 0
    then (resolved ++ record item { patch = merged } ∷ [], found)
    else (resolved, found ++ on_entity item.entity_id conflicts ∷ [])

abbrev pub resolve_item : Store → ChangeItem → Resolved → Resolved
resolve_item s item (resolved, found) =
    let existing = get s.design.cameras item.entity_id in
    if is_current existing (current_revision s item.entity_id Representation.designed)
      item.base_revision
    then (resolved ++ item ∷ [], found)
    else add_merge item (merge_item existing item) (resolved, found)

unfoldable pub resolve_items : Store → List ChangeItem → Resolved → Resolved
resolve_items s [] acc = acc
resolve_items s (item ∷ items) acc = resolve_items s items (resolve_item s item acc)
