-- ===== src/Operate/AsBuilt.antt =====
-- `approve_changeset`: an observation becomes an as-built revision (apps/server/app/domain.py).
use project_digital_twin.Base.{
  ℕ, Option, some, [], ◌∷◌, Text, text, get, put, nat_eq, list_eq, pair_eq, option_eq,
  if◌then◌else◌,
}
use project_digital_twin.Store.Values.{uuid, Fields, value_eq}
use project_digital_twin.Store.Contracts.{
  Representation, EntityRevision, ChangeSetStatus, ChangeSet,
}
use project_digital_twin.Store.Tables.{Camera}
use project_digital_twin.Store.Enums.{representation_eq, item_type_eq, membership_eq}
use project_digital_twin.Store.Actions.{
  key_error, value_error, revision_conflict, ok, err, Action, require, require_some,
}
use project_digital_twin.Journal.Events.{EventArgs, quiet, add_event}
use project_digital_twin.Design.Cameras.{camera_payload}
use project_digital_twin.Design.Revisions.{
  RevisionArgs, plain, new_revision, append_revision, current_revision, is_at, revision_number,
}
use project_digital_twin.Design.Approval.{put_changeset, changeset_in, is_pending_approval}

-- `{**payload, **patch}`
unfoldable pub merge_into : Fields → Fields → Fields
merge_into payload [] = payload
merge_into payload ((name, v) ∷ patch) = merge_into (put payload name v) patch

abbrev pub as_built_args : ChangeSet → Camera → Text → RevisionArgs
as_built_args c camera actor = record (plain Representation.as_built actor (some c.id)) {
  content = some (merge_into (camera_payload camera) c.patch);
}

abbrev pub as_built_event : ℕ → ChangeSet → Camera → Text → EntityRevision → EventArgs
as_built_event project_id c camera actor r =
    record (quiet (text "AsBuiltRevisionCreated") r.entity_id project_id r.revision
      ((text "revision_id", uuid r.id) ∷ [])) {
        actor = actor;
        object_id = some r.entity_id;
        changeset_id = some c.id;
        status = some (text "APPLIED");
        before = camera_payload camera;
        after = r.content;
      }

-- The status is `APPROVED` while the revision is appended; nothing reads it meanwhile.
abbrev pub build : ℕ → ℕ → ChangeSet → Text → Camera → Action (ChangeSet × EntityRevision)
build project_id id c actor camera s =
    let r = new_revision camera (as_built_args c camera actor) s in
    let c' = record c { status = ChangeSetStatus.applied } in
    (
      ok (c', r),
      add_event (as_built_event project_id c camera actor r)
          (put_changeset (append_revision camera (as_built_args c camera actor) s).1 id c'),
    )

abbrev pub stale : ℕ → ChangeSet → ℕ → Action (ChangeSet × EntityRevision)
stale id c current s = (
  err (revision_conflict c.entity_id c.base_revision current),
  put_changeset s id (record c { status = ChangeSetStatus.conflict }),
)

abbrev pub approve_pending :
    ℕ → ℕ → ChangeSet → Text → Option EntityRevision → Action (ChangeSet × EntityRevision)
approve_pending project_id id c actor current s =
    if is_at current c.base_revision
    then require_some (get s.design.cameras c.entity_id) key_error (build project_id id c actor) s
    else stale id c (revision_number current) s

unfoldable pub approve_changeset : ℕ → ℕ → Text → Action (ChangeSet × EntityRevision)
approve_changeset project_id id actor s =
    require_some (changeset_in project_id id s) key_error
      (λ c. require (is_pending_approval c.status) value_error (λ s.
        approve_pending project_id id c actor
          (current_revision s c.entity_id Representation.designed) s))
      s
