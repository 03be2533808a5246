-- ===== src/Projects/Lifecycle.antt =====
-- The operations on projects of `CameraStore` (apps/server/app/domain.py).
use project_digital_twin.Base.{
  ℕ, suc, Bool, true, false, not, Option, none, some, [], map, Text, text, strip, Platform, Dict,
  get, put, remove, values, ◌==◌, nat_eq, list_eq, pair_eq, option_eq, is_some, get_or, length,
  if◌then◌else◌,
}
use project_digital_twin.Store.Tables.{ProjectStatus, Project}
use project_digital_twin.Store.State.{Store, next_uuid, next_time, draw, tick}
use project_digital_twin.Store.Actions.{
  key_error, value_error, project_validation, project_conflict, Result, ok, err, Action, require,
  require_some,
}
use project_digital_twin.Projects.Codes.{next_code}

module _ (p : Platform) where
  -- `_normalize_root_path`
  unfoldable pub normalize_root_path : Text → Result Text
  normalize_root_path root_path =
      if strip root_path == [] then err project_validation else elim (p.resolve (strip root_path)) [
        | none ↦ err project_validation
        | some resolved ↦ if p.is_dir resolved then ok resolved else err project_validation
      ]

  -- `_root_key`
  abbrev pub root_key : Text → Text
  root_key = p.casefold

-- `_next_project_code`; the loop has one round more than there are projects
unfoldable pub next_project_code : Dict ℕ Project → Option Text
next_project_code projects =
    let used = map (λ (x : Project). x.code) (values projects) in
    next_code (suc (length used)) 1 used

abbrev pub new_project : ℕ → Text → Text → Text → Store → Project
new_project id code name root_path s = record {
  id = id;
  code = code;
  name = name;
  root_path = root_path;
  status = ProjectStatus.active;
  schema_version = 1;
  created_at = next_time s;
  updated_at = next_time (tick s);
}

abbrev pub is_active : ProjectStatus → Bool
is_active ProjectStatus.active = true
is_active _ = false

abbrev pub is_archived : ProjectStatus → Bool
is_archived ProjectStatus.archived = true
is_archived _ = false

abbrev pub is_deleted : ProjectStatus → Bool
is_deleted ProjectStatus.deleted = true
is_deleted _ = false

-- `project.status = …; project.updated_at = utc_now()`
abbrev pub restate : ℕ → Project → ProjectStatus → Action Project
restate id x status s =
    let x' = record x { status = status; updated_at = next_time s } in
    (
      ok x',
      record (tick s) {
        registry = record (s.registry) { projects = put s.registry.projects id x' };
      },
    )

unfoldable pub archive_project : ℕ → Action Project
archive_project id s =
    require_some (get s.registry.projects id) key_error
      (λ x. require (is_active x.status) project_conflict (restate id x ProjectStatus.archived)) s

unfoldable pub restore_project : ℕ → Action Project
restore_project id s =
    require_some (get s.registry.projects id) key_error
      (λ x. require (is_archived x.status) project_conflict (restate id x ProjectStatus.active)) s

module _ (p : Platform) where
  -- the end of `create_project`, with the code and the identifier chosen
  abbrev pub add_project : Text → Text → Option ℕ → Text → Action Project
  add_project name root id code s =
      let s' = if is_some id then s else draw s in
      let x = new_project (get_or id (next_uuid s)) code name root s' in
      (
        ok x,
        record (tick (tick s')) {
          registry = record {
            projects = put s.registry.projects x.id x;
            project_roots = put s.registry.project_roots (root_key p root) x.id;
          };
        },
      )

  abbrev pub is_taken : Option ℕ → Store → Bool
  is_taken none s = false
  is_taken (some id) s = is_some (get s.registry.projects id)

  abbrev pub create_at : Text → Option ℕ → Result Text → Action Project
  create_at name id (err e) s = (err e, s)
  create_at name id (ok root) s =
      require (not (is_some (get s.registry.project_roots (root_key p root)))) project_conflict
        (require (not (is_taken id s)) project_conflict (
          require_some (next_project_code s.registry.projects) value_error
            (add_project name root id)))
        s

  unfoldable pub create_project : Text → Text → Option ℕ → Action Project
  create_project name root_path id s =
      require (not (strip name == [])) project_validation
        (create_at (strip name) id (normalize_root_path p root_path)) s

  unfoldable pub delete_project : ℕ → Text → Action Project
  delete_project id name_confirmation s =
      require_some (get s.registry.projects id) key_error
        (λ x. require (not (is_deleted x.status)) project_conflict (
          require (x.name == strip name_confirmation) project_conflict (λ s.
            let x' = record x { status = ProjectStatus.deleted; updated_at = next_time s } in
            (
              ok x',
              record (tick s) {
                registry = record {
                  projects = put s.registry.projects id x';
                  project_roots = remove s.registry.project_roots (root_key p x.root_path);
                };
              },
            ))))
        s

  -- `list_projects` up to its sorting; `none` is an unsupported status
  unfoldable pub parse_status : Text → Option ProjectStatus
  parse_status status =
      let wanted = p.upper (strip status) in
      if wanted == text "ACTIVE"
      then some ProjectStatus.active
      else if wanted == text "ARCHIVED"
      then some ProjectStatus.archived
      else if wanted == text "DELETED"
      then some ProjectStatus.deleted
      else none
