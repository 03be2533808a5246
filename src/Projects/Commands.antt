-- ===== src/Projects/Commands.antt =====
-- The operations on projects as one step relation (apps/server/app/domain.py).
use project_digital_twin.Base.{
  ℕ, ◌≡◌, refl, ◌≢◌, inl, inr, Bool, true, false, not, Option, none, some, [], arith, Text, strip,
  Platform, get, ◌==◌, nat_eq, list_eq, pair_eq, option_eq, is_some, Option-cases, get-put,
}
use project_digital_twin.Store.Tables.{ProjectStatus, Project}
use project_digital_twin.Store.State.{Store, next_uuid, next_time, draw}
use project_digital_twin.Store.Actions.{
  value_error, project_validation, project_conflict, Result, ok, err, Action, require, require_some,
  is_ok, keeps_require, keeps_require_some,
}
use project_digital_twin.Projects.Lifecycle.{
  normalize_root_path, root_key, next_project_code, new_project, is_deleted, archive_project,
  restore_project, add_project, is_taken, create_at, create_project, delete_project,
}
use project_digital_twin.Projects.Registry.{roots_are_exclusive}
use project_digital_twin.Projects.Moves.{
  Registered, IsFresh, archive_project-IsRegistry, restore_project-IsRegistry,
  delete_project-IsRegistry, create_project-IsRegistry,
}

pub data ProjectCommand : Type 0 where
  create : (name root_path : Text) → Option ℕ → ProjectCommand
  archive restore : ℕ → ProjectCommand
  delete : ℕ → Text → ProjectCommand

module _ (p : Platform) where
  unfoldable pub run_command : ProjectCommand → Action Project
  run_command (create name root_path id) = create_project p name root_path id
  run_command (archive id) = archive_project id
  run_command (restore id) = restore_project id
  run_command (delete id confirmation) = delete_project p id confirmation

  run_command-IsRegistry :
      (c : ProjectCommand) (s : Store)
      → Registered p s
      → IsFresh p s
      → Registered p (run_command c s).1
  unfolding run_command
  run_command-IsRegistry (create name root_path id) s h fresh =
      create_project-IsRegistry p name root_path id s h fresh
  run_command-IsRegistry (archive id) s h fresh = archive_project-IsRegistry p id s h
  run_command-IsRegistry (restore id) s h fresh = restore_project-IsRegistry p id s h
  run_command-IsRegistry (delete id confirmation) s h fresh =
      delete_project-IsRegistry p id confirmation s h

  -- The stores that commands reach, where each fresh identifier is new.
  pub data Reach (s : Store) : Store → Type 0 where
    here : Reach s s
    next : {t : Store} (c : ProjectCommand) → Reach s t → IsFresh p t → Reach s (run_command c t).1

  -- Whatever commands have run since the registry was in step, failed ones included and with fresh
  -- identifiers new, it is in step.
  pub Reach-IsRegistry : {s t : Store} → Registered p s → Reach s t → Registered p t
  Reach-IsRegistry h here = h
  Reach-IsRegistry h (next {t = t} c r fresh) =
      run_command-IsRegistry c t (Reach-IsRegistry h r) fresh

  -- After any commands since the registry was in step, with fresh identifiers new, two projects that are
  -- not deleted have different root directories, and any two projects have different codes.
  pub roots_and_codes_are_exclusive :
      {s t : Store} (i j : ℕ) (x y : Project)
      → Registered p s
      → Reach s t
      → get t.registry.projects i ≡ some x
      → get t.registry.projects j ≡ some y
      → i ≢ j
      → (x.code ≢ y.code)
        × (is_deleted x.status ≡ false
            → is_deleted y.status ≡ false
            → root_key p x.root_path ≢ root_key p y.root_path)
  roots_and_codes_are_exclusive {t = t} i j x y h r gi gj ne =
      let h' = Reach-IsRegistry h r in
      (
        λ e. ne (h'.coded i j x y gi gj e),
        λ li lj e. ne (roots_are_exclusive p t.registry i j x y h' gi gj li lj e),
      )

  -- A command that raises leaves the store as it was.
  pub run_command_raises :
      (c : ProjectCommand) (s : Store) → is_ok (run_command c s).0 ≡ false → (run_command c s).1 ≡ s
  unfolding run_command create_project archive_project restore_project delete_project
  run_command_raises (create name root_path id) s h =
      by_root (normalize_root_path p root_path) (not (strip name == [])) h
    where
      by_root :
          (root : Result Text) (named : Bool)
          → is_ok (require named project_validation (create_at p (strip name) id root) s).0 ≡ false
          → (require named project_validation (create_at p (strip name) id root) s).1 ≡ s
      by_root root false h = refl
      by_root (err e) true h = refl
      by_root (ok root) true h = ground arith
  run_command_raises (archive id) s h = ground arith
  run_command_raises (restore id) s h = ground arith
  run_command_raises (delete id confirmation) s h = ground arith

  create_at_keeps :
      (name : Text) (new : Option ℕ) (root : Result Text) (s : Store) (id : ℕ) (x : Project)
      → IsFresh p s
      → get s.registry.projects id ≡ some x
      → get (create_at p name new root s).1.registry.projects id ≡ some x
  create_at_keeps name new (err e) s id x fresh found = found
  create_at_keeps name new (ok root) s id x fresh found =
      keeps_require P
        (require (not (is_taken p new s)) project_conflict (
          require_some (next_project_code s.registry.projects) value_error
            (add_project p name root new)))
        s (not (is_some (get s.registry.project_roots (root_key p root)))) project_conflict found
        λ free.
          keeps_require P
            (require_some (next_project_code s.registry.projects) value_error
              (add_project p name root new))
            s (not (is_taken p new s)) project_conflict found
            λ untaken.
              keeps_require_some P (add_project p name root new) s
                (next_project_code s.registry.projects) value_error found
                λ code e. added new code untaken
    where
      P : Store → Type 0
      P t = get t.registry.projects id ≡ some x

      added :
          (new : Option ℕ) (code : Text)
          → not (is_taken p new s) ≡ true
          → P (add_project p name root new code s).1
      added none code untaken = ground (
        arith,
        get-put s.registry.projects (next_uuid s) id
            (new_project (next_uuid s) code name root (draw s)),
      )
      added (some i) code untaken =
          ground (arith, get-put s.registry.projects i id (new_project i code name root s))

  -- `DELETED` is final: no command changes a deleted project, if fresh identifiers are new.
  pub deleted_is_final :
      (c : ProjectCommand) (s : Store) (id : ℕ) (x : Project)
      → IsFresh p s
      → get s.registry.projects id ≡ some x
      → is_deleted x.status ≡ true
      → get (run_command c s).1.registry.projects id ≡ some x
  unfolding run_command archive_project restore_project delete_project create_project
  deleted_is_final (create name root_path new) s id x fresh found dead =
      keeps_require (λ t. get t.registry.projects id ≡ some x)
        (create_at p (strip name) new (normalize_root_path p root_path)) s (not (strip name == []))
        project_validation found
        λ named.
          create_at_keeps (strip name) new (normalize_root_path p root_path) s id x fresh found
  deleted_is_final (archive i) s id x fresh found dead =
      elim (Option-cases (get s.registry.projects i)) [
        | inl missing ↦ rw missing found
        | inr (y, e) ↦ ground (
          arith,
          get-put s.registry.projects i id
              (record y { status = ProjectStatus.archived; updated_at = next_time s }),
        )
      ]
  deleted_is_final (restore i) s id x fresh found dead =
      elim (Option-cases (get s.registry.projects i)) [
        | inl missing ↦ rw missing found
        | inr (y, e) ↦ ground (
          arith,
          get-put s.registry.projects i id
              (record y { status = ProjectStatus.active; updated_at = next_time s }),
        )
      ]
  deleted_is_final (delete i confirmation) s id x fresh found dead =
      elim (Option-cases (get s.registry.projects i)) [
        | inl missing ↦ rw missing found
        | inr (y, e) ↦ ground (
          arith,
          get-put s.registry.projects i id
              (record y { status = ProjectStatus.deleted; updated_at = next_time s }),
        )
      ]
