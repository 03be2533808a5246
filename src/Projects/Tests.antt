-- ===== src/Projects/Tests.antt =====
-- Runs of the operations on projects, and the theorems at concrete inputs.
use project_digital_twin.Base.{
  suc, length, contains, ℕ, ◌≡◌, refl, ◌≢◌, true, false, none, some, [], ◌∷◌, map, arith, Text,
  text, strip, Platform, get, put, remove, values, contains, nat_eq, list_eq, pair_eq, option_eq,
  list_beq,
}
use project_digital_twin.Store.Tables.{ProjectStatus, Project}
use project_digital_twin.Store.State.{Store}
use project_digital_twin.Projects.Naming.{next_code_is_free}
use project_digital_twin.Projects.Codes.{decimal, project_code, next_code}
use project_digital_twin.Projects.Lifecycle.{
  normalize_root_path, root_key, next_project_code, is_deleted, create_project, delete_project,
}
use project_digital_twin.Projects.Moves.{Registered, IsFresh}
use project_digital_twin.Projects.Commands.{
  ProjectCommand, create, restore, delete, run_command, Reach, here, next, Reach-IsRegistry,
  roots_and_codes_are_exclusive, deleted_is_final,
}
use project_digital_twin.Store.Samples.{empty_store}

-- Every path resolves to itself and is a directory; case is kept.
abbrev plain : Platform
plain = record { upper = λ t. t; casefold = λ t. t; resolve = λ t. some t; is_dir = λ t. true }

project_code_run :
    map project_code (7 ∷ 42 ∷ 1234 ∷ []) ≡ text "P-007" ∷ text "P-042" ∷ text "P-1234" ∷ []
unfolding project_code decimal
project_code_run = refl

abbrev site : ProjectCommand
site = create (text " Site A ") (text "/srv/a") none

abbrev one : Store
one = (run_command plain site empty_store).1

abbrev two : Store
two = (run_command plain (delete 1000 (text "Site A")) one).1

abbrev three : Store
three = (run_command plain site two).1

-- The root of a deleted project is free again; its code is not.
life_run :
    map (λ (x : Project). x.code) (values three.registry.projects)
    ≡ text "P-001" ∷ text "P-002" ∷ []
unfolding run_command create_project delete_project next_project_code next_code normalize_root_path
    empty_store strip project_code decimal values get put remove contains list_beq
life_run = refl

empty-IsRegistry : Registered plain empty_store
unfolding empty_store get
empty-IsRegistry = record {
  keyed = λ id x e. cc;
  rooted = λ id x e l. cc;
  held = λ key id e. absurd (ground arith);
  coded = λ i j x y e f g. cc;
}

empty-IsFresh : IsFresh plain empty_store
unfolding empty_store get
empty-IsFresh = refl

one-IsFresh : IsFresh plain one
unfolding run_command create_project next_project_code next_code normalize_root_path empty_store
    strip project_code decimal values get put contains list_beq
one-IsFresh = refl

two-IsFresh : IsFresh plain two
unfolding run_command create_project delete_project next_project_code next_code normalize_root_path
    empty_store strip project_code decimal values get put remove contains list_beq
two-IsFresh = refl

three_is_reached : Reach plain empty_store three
three_is_reached =
    next site (next (delete 1000 (text "Site A")) (next site here empty-IsFresh) one-IsFresh)
      two-IsFresh

Reach-IsRegistry_example : Registered plain three
Reach-IsRegistry_example = Reach-IsRegistry plain empty-IsRegistry three_is_reached

abbrev project_at : ℕ → Text → ProjectStatus → ℕ → Project
project_at id code status updated = record {
  id = id;
  code = code;
  name = text "Site A";
  root_path = text "/srv/a";
  status = status;
  schema_version = 1;
  created_at = 0;
  updated_at = updated;
}

roots_and_codes_are_exclusive_example :
    let x = project_at 1000 (text "P-001") ProjectStatus.deleted 2 in
    let y = record (project_at 1001 (text "P-002") ProjectStatus.active 4) { created_at = 3 } in
    (x.code ≢ y.code)
    × (is_deleted x.status ≡ false
        → is_deleted y.status ≡ false
        → root_key plain x.root_path ≢ root_key plain y.root_path)
unfolding run_command create_project delete_project next_project_code next_code normalize_root_path
    empty_store strip project_code decimal values get put remove contains list_beq
roots_and_codes_are_exclusive_example =
    roots_and_codes_are_exclusive plain 1000 1001
      (project_at 1000 (text "P-001") ProjectStatus.deleted 2)
      (record (project_at 1001 (text "P-002") ProjectStatus.active 4) { created_at = 3 })
      empty-IsRegistry three_is_reached refl refl (omega arith)

deleted_is_final_example :
    get (run_command plain (restore 1000) two).1.registry.projects 1000
    ≡ some (project_at 1000 (text "P-001") ProjectStatus.deleted 2)
unfolding run_command create_project delete_project next_project_code next_code normalize_root_path
    empty_store strip project_code decimal values get put remove contains list_beq
deleted_is_final_example =
    deleted_is_final plain (restore 1000) two 1000
      (project_at 1000 (text "P-001") ProjectStatus.deleted 2) two-IsFresh refl refl

next_code_is_free_example :
    (k : ℕ) × (next_code (suc (length (text "P-001" ∷ []))) 1 (text "P-001" ∷ [])
      ≡ some (project_code k))
    × (contains (project_code k) (text "P-001" ∷ []) ≡ false)
next_code_is_free_example = next_code_is_free 1 (text "P-001" ∷ [])
