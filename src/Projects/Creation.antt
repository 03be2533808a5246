-- ===== src/Projects/Creation.antt =====
-- When a project is created (apps/server/app/domain.py, `create_project`).
use project_digital_twin.Base.{
  ℕ, ◌≡◌, refl, ◌≢◌, false, Option, none, some, List, [], map, arith, Text, strip, Platform, get,
  values, contains, ◌==◌, nat_eq, list_eq, pair_eq, option_eq, list_beq_iff, get-put_self,
}
use project_digital_twin.Store.Tables.{ProjectStatus, Project}
use project_digital_twin.Store.State.{Store, next_uuid, draw}
use project_digital_twin.Store.Actions.{ok}
use project_digital_twin.Projects.Codes.{project_code}
use project_digital_twin.Projects.Lifecycle.{
  normalize_root_path, root_key, next_project_code, new_project, add_project, is_taken,
  create_project,
}
use project_digital_twin.Projects.Naming.{next_code_is_free}

abbrev pub used_codes : Store → List Text
used_codes s = map (λ (y : Project). y.code) (values s.registry.projects)

module _ (p : Platform) (name root_path root : Text) (s : Store) where
  -- What a successful creation has done: the project is active, with the stripped name, the resolved
  -- root and a code that no project had, and is stored under its identifier and its root.
  pub record IsCreated (x : Project) (s' : Store) : Type 0 where
    pub named : x.name ≡ strip name
    pub at_root : x.root_path ≡ root
    pub active : x.status ≡ ProjectStatus.active
    pub new_code : contains x.code (used_codes s) ≡ false
    pub stored : get s'.registry.projects x.id ≡ some x
    pub held : get s'.registry.project_roots (root_key p root) ≡ some x.id

  added-IsCreated :
      (id : Option ℕ) (code : Text)
      → contains code (used_codes s) ≡ false
      → (x : Project) × ((add_project p (strip name) root id code s).0 ≡ ok x)
        × IsCreated x (add_project p (strip name) root id code s).1
  added-IsCreated none code unused =
      let x = new_project (next_uuid s) code (strip name) root (draw s) in
      (
        x,
        refl,
        record {
          named = refl;
          at_root = refl;
          active = refl;
          new_code = unused;
          stored = get-put_self s.registry.projects (next_uuid s) x;
          held = get-put_self s.registry.project_roots (root_key p root) (next_uuid s);
        },
      )
  added-IsCreated (some id) code unused =
      let x = new_project id code (strip name) root s in
      (
        x,
        refl,
        record {
          named = refl;
          at_root = refl;
          active = refl;
          new_code = unused;
          stored = get-put_self s.registry.projects id x;
          held = get-put_self s.registry.project_roots (root_key p root) id;
        },
      )

  -- With a name that is not blank, a root directory that resolves and is free, and no identifier in
  -- use asked for, a project is created: the search for its code ends.
  pub create_project-IsCreated :
      (id : Option ℕ)
      → strip name ≢ []
      → normalize_root_path p root_path ≡ ok root
      → get s.registry.project_roots (root_key p root) ≡ none
      → is_taken p id s ≡ false
      → (x : Project) × ((create_project p name root_path id s).0 ≡ ok x)
        × IsCreated x (create_project p name root_path id s).1
  unfolding create_project next_project_code
  create_project-IsCreated id named resolved free untaken =
      let (k, found, unused) = next_code_is_free 1 (used_codes s) in
      let not_blank : (strip name == []) ≡ false = ground (arith, list_beq_iff (strip name) []) in
      rw (not_blank, resolved, free, untaken, found) (added-IsCreated id (project_code k) unused)
