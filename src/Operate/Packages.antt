-- ===== src/Operate/Packages.antt =====
-- Contractors, work packages and field packages (apps/server/app/domain.py).
use project_digital_twin.Base.{
  ℕ, Option, none, some, List, Text, text, get, put, ◌==◌, nat_eq, list_eq, pair_eq, option_eq,
  is_some, all, if◌then◌else◌,
}
use project_digital_twin.Store.Values.{value_eq}
use project_digital_twin.Store.Tables.{Contractor, WorkPackage, FieldPackage}
use project_digital_twin.Store.Enums.{representation_eq, item_type_eq, membership_eq}
use project_digital_twin.Store.State.{Store, next_uuid, draw}
use project_digital_twin.Store.Actions.{key_error, ok, Action, require, require_some}

abbrev pub new_contractor : (id project_id : ℕ) → (code name : Text) → Contractor
new_contractor id project_id code name = record {
  id = id;
  project_id = project_id;
  code = code;
  name = name;
  status = text "ACTIVE";
}

unfoldable pub create_contractor : ℕ → (code name : Text) → Action Contractor
create_contractor project_id code name s =
    require (is_some (get s.registry.projects project_id)) key_error
      (λ s.
        let x = new_contractor (next_uuid s) project_id code name in
        (
          ok x,
          record (draw s) {
            operate = record (s.operate) { contractors = put s.operate.contractors x.id x };
          },
        ))
      s

-- The contractor of this project with this identifier.
abbrev pub contractor_in : ℕ → ℕ → Store → Option Contractor
contractor_in project_id id s = elim (get s.operate.contractors id) [
  | none ↦ none
  | some x ↦ if x.project_id == project_id then some x else none
]

abbrev pub new_work_package : ℕ → ℕ → ℕ → (code name : Text) → List ℕ → WorkPackage
new_work_package id project_id contractor_id code name entity_ids = record {
  id = id;
  project_id = project_id;
  contractor_id = contractor_id;
  code = code;
  name = name;
  entity_ids = entity_ids;
  status = text "READY";
}

unfoldable pub create_work_package :
    (project_id contractor_id : ℕ) → (code name : Text) → List ℕ → Action WorkPackage
create_work_package project_id contractor_id code name entity_ids s =
    require_some (contractor_in project_id contractor_id s) key_error
      (λ contractor.
        require (all (λ id. is_some (get s.design.cameras id)) entity_ids) key_error (λ s.
          let x = new_work_package (next_uuid s) project_id contractor_id code name entity_ids in
          (
            ok x,
            record (draw s) {
              operate = record (s.operate) { work_packages = put s.operate.work_packages x.id x };
            },
          )))
      s

-- The work package of this project with this identifier.
abbrev pub work_package_in : ℕ → ℕ → Store → Option WorkPackage
work_package_in project_id id s = elim (get s.operate.work_packages id) [
  | none ↦ none
  | some x ↦ if x.project_id == project_id then some x else none
]

abbrev pub new_field_package : (id project_id work_package_id : ℕ) → List ℕ → FieldPackage
new_field_package id project_id work_package_id entity_ids = record {
  id = id;
  project_id = project_id;
  work_package_id = work_package_id;
  entity_ids = entity_ids;
  status = text "PUBLISHED";
}

unfoldable pub create_field_package : (project_id work_package_id : ℕ) → Action FieldPackage
create_field_package project_id work_package_id s =
    require_some (work_package_in project_id work_package_id s) key_error
      (λ work s.
        let x = new_field_package (next_uuid s) project_id work_package_id work.entity_ids in
        (
          ok x,
          record (draw s) {
            operate = record (s.operate) { field_packages = put s.operate.field_packages x.id x };
          },
        ))
      s
