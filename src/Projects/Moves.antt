-- ===== src/Projects/Moves.antt =====
-- Every operation on projects keeps the registry, and so does any sequence of them
-- (apps/server/app/domain.py).
use project_digital_twin.Base.{
  ℕ, ◌≡◌, refl, inl, inr, true, false, not, Option, none, some, [], ◌∷◌, map, arith, Text, strip,
  Platform, Dict, get, put, remove, values, contains, ◌==◌, nat_eq, list_eq, pair_eq, option_eq,
  Bool-cases, Option-cases, get-put, list_beq_iff, get-remove,
}
use project_digital_twin.Store.Tables.{ProjectStatus, Project}
use project_digital_twin.Store.State.{ProjectTables, Store, next_uuid, next_time, draw}
use project_digital_twin.Store.Actions.{
  key_error, project_validation, project_conflict, Result, ok, err, require, keeps_require,
  keeps_require_some,
}
use project_digital_twin.Projects.Codes.{project_code}
use project_digital_twin.Projects.Lifecycle.{
  normalize_root_path, root_key, next_project_code, new_project, is_active, is_archived, is_deleted,
  restate, archive_project, restore_project, add_project, is_taken, create_at, create_project,
  delete_project,
}
use project_digital_twin.Projects.Naming.{next_code_is_free}
use project_digital_twin.Projects.Registry.{IsRegistry, restate-IsRegistry}

code_is_used :
    (d : Dict ℕ Project) (k : ℕ) (x : Project)
    → get d k ≡ some x
    → contains x.code (map (λ (y : Project). y.code) (values d)) ≡ true
unfolding get values contains
code_is_used [] k x e = cc
code_is_used ((j, y) ∷ d) k x e = ground (arith, code_is_used d k x, list_beq_iff y.code x.code)

module _ (p : Platform) where
  add-IsRegistry :
      (t : ProjectTables) (x : Project)
      → IsRegistry p t
      → get t.projects x.id ≡ none
      → get t.project_roots (root_key p x.root_path) ≡ none
      → is_deleted x.status ≡ false
      → contains x.code (map (λ (y : Project). y.code) (values t.projects)) ≡ false
      → IsRegistry p (record {
        projects = put t.projects x.id x;
        project_roots = put t.project_roots (root_key p x.root_path) x.id;
      })
  add-IsRegistry t x h new free live unused = record {
    keyed = λ i y e. ground (arith, get-put t.projects x.id i x, h.keyed i y);
    rooted = λ i y e l. ground (
      arith,
      get-put t.projects x.id i x,
      get-put t.project_roots (root_key p x.root_path) (root_key p y.root_path) x.id,
      list_beq_iff (root_key p x.root_path) (root_key p y.root_path),
      h.rooted i y,
    );
    held = λ key i e. elim (Bool-cases (root_key p x.root_path == key)) [
      | inl same ↦ (
        x,
        ground (
          arith,
          get-put t.projects x.id i x,
          get-put t.project_roots (root_key p x.root_path) key x.id,
        ),
        live,
        (list_beq_iff (root_key p x.root_path) key).0 same,
      )
      | inr other ↦
          let (y, gy, ly, ky) =
            h.held key i
              (ground (arith, get-put t.project_roots (root_key p x.root_path) key x.id)) in
          (y, ground (arith, gy, get-put t.projects x.id i x), ly, ky)
    ];
    coded = λ i j y z ei ej e. ground (
      arith,
      get-put t.projects x.id i x,
      get-put t.projects x.id j x,
      h.coded i j y z,
      code_is_used t.projects i y,
      code_is_used t.projects j z,
    );
  }

  remove-IsRegistry :
      (t : ProjectTables) (id : ℕ) (x x' : Project)
      → IsRegistry p t
      → get t.projects id ≡ some x
      → is_deleted x.status ≡ false
      → is_deleted x'.status ≡ true
      → x'.id ≡ x.id
      → x'.code ≡ x.code
      → IsRegistry p (record {
        projects = put t.projects id x';
        project_roots = remove t.project_roots (root_key p x.root_path);
      })
  remove-IsRegistry t id x x' h found live dead same_id same_code = record {
    keyed = λ i y e. ground (arith, get-put t.projects id i x', h.keyed id x, h.keyed i y);
    rooted = λ i y e l. ground (
      arith,
      get-put t.projects id i x',
      get-remove t.project_roots (root_key p x.root_path) (root_key p y.root_path),
      list_beq_iff (root_key p x.root_path) (root_key p y.root_path),
      h.rooted i y,
      h.rooted id x,
    );
    held = λ key i e. elim (Bool-cases (root_key p x.root_path == key)) [
      | inl same ↦ absurd (ground (arith, get-remove t.project_roots (root_key p x.root_path) key))
      | inr other ↦
          let (y, gy, ly, ky) =
            h.held key i
              (ground (arith, get-remove t.project_roots (root_key p x.root_path) key)) in
          (
            y,
            ground (
              arith,
              gy,
              ky,
              get-put t.projects id i x',
              list_beq_iff (root_key p x.root_path) key,
            ),
            ly,
            ky,
          )
    ];
    coded = λ i j y z ei ej e. ground (
      arith,
      get-put t.projects id i x',
      get-put t.projects id j x',
      h.coded id j x z,
      h.coded i id y x,
      h.coded i j y z,
    );
  }

  abbrev pub Registered : Store → Type 0
  Registered s = IsRegistry p s.registry

  pub archive_project-IsRegistry :
      (id : ℕ) (s : Store) → Registered s → Registered (archive_project id s).1
  unfolding archive_project
  archive_project-IsRegistry id s h =
      keeps_require_some Registered
        (λ x. require (is_active x.status) project_conflict (restate id x ProjectStatus.archived)) s
        (get s.registry.projects id) key_error h
        λ x found.
          keeps_require Registered (restate id x ProjectStatus.archived) s (is_active x.status)
            project_conflict h
            λ live.
              restate-IsRegistry p s.registry id x
                (record x { status = ProjectStatus.archived; updated_at = next_time s }) h found
                (ground arith) refl refl refl refl

  pub restore_project-IsRegistry :
      (id : ℕ) (s : Store) → Registered s → Registered (restore_project id s).1
  unfolding restore_project
  restore_project-IsRegistry id s h =
      keeps_require_some Registered
        (λ x. require (is_archived x.status) project_conflict (restate id x ProjectStatus.active)) s
        (get s.registry.projects id) key_error h
        λ x found.
          keeps_require Registered (restate id x ProjectStatus.active) s (is_archived x.status)
            project_conflict h
            λ live.
              restate-IsRegistry p s.registry id x
                (record x { status = ProjectStatus.active; updated_at = next_time s }) h found
                (ground arith) refl refl refl refl

  pub delete_project-IsRegistry :
      (id : ℕ) (confirmation : Text) (s : Store)
      → Registered s
      → Registered (delete_project p id confirmation s).1
  unfolding delete_project
  delete_project-IsRegistry id confirmation s h = elim (Option-cases (get s.registry.projects id)) [
    | inl missing ↦ rw missing h
    | inr (x, found) ↦ rw found (elim (Bool-cases (is_deleted x.status)) [
      | inl dead ↦ rw dead h
      | inr live ↦ rw live (elim (Bool-cases (x.name == strip confirmation)) [
        | inr other ↦ rw other h
        | inl same ↦ rw same (
            remove-IsRegistry s.registry id x
              (record x { status = ProjectStatus.deleted; updated_at = next_time s }) h found live
              refl refl refl)
      ])
    ])
  ]

  -- The identifier that a new project gets is not in use.
  abbrev pub IsFresh : Store → Type 0
  IsFresh s = get s.registry.projects (next_uuid s) ≡ none

  add_project-IsRegistry :
      (name root : Text) (id : Option ℕ) (code : Text) (s : Store)
      → Registered s
      → IsFresh s
      → get s.registry.project_roots (root_key p root) ≡ none
      → is_taken p id s ≡ false
      → contains code (map (λ (y : Project). y.code) (values s.registry.projects)) ≡ false
      → Registered (add_project p name root id code s).1
  add_project-IsRegistry name root none code s h fresh free untaken unused =
      add-IsRegistry s.registry (new_project (next_uuid s) code name root (draw s)) h fresh free
        refl unused
  add_project-IsRegistry name root (some id) code s h fresh free untaken unused =
      add-IsRegistry s.registry (new_project id code name root s) h (ground arith) free refl unused

  create_at-IsRegistry :
      (name : Text) (id : Option ℕ) (root : Result Text) (s : Store)
      → Registered s
      → IsFresh s
      → Registered (create_at p name id root s).1
  create_at-IsRegistry name id (err e) s h fresh = h
  create_at-IsRegistry name id (ok root) s h fresh =
      let used = map (λ (y : Project). y.code) (values s.registry.projects) in
      let (k, found, unused) = next_code_is_free 1 used in
      elim (Option-cases (get s.registry.project_roots (root_key p root))) [
        | inr (i, held) ↦ rw held h
        | inl free ↦ rw free (elim (Bool-cases (is_taken p id s)) [
          | inl taken ↦ rw taken h
          | inr untaken ↦ rw untaken (
              unfold next_project_code in
              rw found (
                add_project-IsRegistry name root id (project_code k) s h fresh free untaken unused))
        ])
      ]

  pub create_project-IsRegistry :
      (name root_path : Text) (id : Option ℕ) (s : Store)
      → Registered s
      → IsFresh s
      → Registered (create_project p name root_path id s).1
  unfolding create_project
  create_project-IsRegistry name root_path id s h fresh =
      keeps_require Registered (create_at p (strip name) id (normalize_root_path p root_path)) s
        (not (strip name == [])) project_validation h
        λ named. create_at-IsRegistry (strip name) id (normalize_root_path p root_path) s h fresh
