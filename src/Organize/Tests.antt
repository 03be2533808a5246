-- ===== src/Organize/Tests.antt =====
-- Assignments and removals on small stores.
use project_digital_twin.Base.{
  ◌≡◌, refl, ◌↔◌, ◌⊎◌, Bool, true, false, none, some, [], ◌∷◌, text, is_space, strip_left, Platform,
  get, put, values, contains, nat_eq, list_eq, pair_eq, option_eq, list_beq,
}
use project_digital_twin.Store.Values.{value_eq}
use project_digital_twin.Store.Contracts.{ItemType}
use project_digital_twin.Store.Tables.{ProjectStatus, GroupStatus, OrganizeGroup}
use project_digital_twin.Store.Enums.{representation_eq, item_type_eq, membership_eq}
use project_digital_twin.Store.State.{Store}
use project_digital_twin.Organize.Memberships.{
  membership_of, assign_organize_groups, remove_organize_groups,
}
use project_digital_twin.Store.Samples.{empty_store}
use project_digital_twin.Organize.Assignment.{
  IsUntouched, IsAssigned, IsStripped, IsRemoved, IsRefused, assign_organize_groups_lem,
  remove_organize_groups_lem,
}
use project_digital_twin.Organize.Hierarchy.{
  parents_of, search_parents, would_create_cycle, add_edge, hang, sorted_ids, insert_id,
}
use project_digital_twin.Organize.Cycles.{ClosesCycle, would_create_cycle_lem}
use project_digital_twin.Organize.Rules.{HasHierarchy, IsKept}
use project_digital_twin.Organize.Kept.{IsFresh, create_organize_group-IsKept}
use project_digital_twin.Organize.Names.{normalize_text, squeeze}
use project_digital_twin.Organize.Guards.{first_error, unique}
use project_digital_twin.Organize.Groups.{create_organize_group, move_organize_group}
use project_digital_twin.Organize.Moves.{
  update, perform, perform-IsKept, IsMoved, IsTorn, move_organize_group_lem,
}

-- A platform without upper case letters to map and without files.
abbrev plain : Platform
plain = record { upper = λ t. t; casefold = λ t. t; resolve = λ t. none; is_dir = λ t. false }

-- Project 1 with group 4, where item 6 is.
abbrev grouped : Store
grouped = record empty_store {
  registry = record (empty_store.registry) {
    projects =
        (
          1,
          record {
            id = 1;
            code = text "P-001";
            name = text "Site";
            root_path = text "/s";
            status = ProjectStatus.active;
            schema_version = 1;
            created_at = 0;
            updated_at = 0;
          },
        )
        ∷ [];
  };
  organize = record (empty_store.organize) {
    organize_groups =
        (
          4,
          record {
            id = 4;
            project_id = 1;
            name = text "G";
            parent_ids = [];
            status = GroupStatus.active;
            created_at = 0;
            updated_at = 0;
          },
        )
        ∷ [];
    organize_group_memberships = (membership_of 1 ItemType.entity 6 4, 0) ∷ [];
  };
}

assign_organize_groups_lem_example :
    let out = assign_organize_groups plain 1 (text "ENTITY") (5 ∷ 6 ∷ []) (4 ∷ []) true grouped in
    IsAssigned plain 1 (text "ENTITY") (5 ∷ 6 ∷ []) (4 ∷ []) grouped true out
    ⊎ IsStripped plain 1 (text "ENTITY") (5 ∷ 6 ∷ []) (4 ∷ []) grouped true out
    ⊎ IsUntouched plain 1 (text "ENTITY") (5 ∷ 6 ∷ []) (4 ∷ []) grouped out
assign_organize_groups_lem_example =
    assign_organize_groups_lem plain 1 (text "ENTITY") (5 ∷ 6 ∷ []) (4 ∷ []) grouped true

remove_organize_groups_lem_example :
    let out = remove_organize_groups plain 1 (text "ENTITY") (6 ∷ []) (4 ∷ []) grouped in
    IsRemoved plain 1 (text "ENTITY") (6 ∷ []) (4 ∷ []) grouped out
    ⊎ IsRefused plain 1 (text "ENTITY") (6 ∷ []) (4 ∷ []) grouped out
remove_organize_groups_lem_example =
    remove_organize_groups_lem plain 1 (text "ENTITY") (6 ∷ []) (4 ∷ []) grouped

-- A group below group 4.
abbrev nested : Store
nested = (create_organize_group plain 1 (text "H") (some (4 ∷ [])) grouped).1

grouped-HasHierarchy : HasHierarchy grouped
unfolding contains empty_store
grouped-HasHierarchy = record { acyclic = λ u v e w. cc (e); joined = λ u v e. cc (e) }

grouped-IsFresh : IsFresh grouped
unfolding empty_store get
grouped-IsFresh = refl

nested-HasHierarchy : HasHierarchy nested
nested-HasHierarchy =
    (create_organize_group-IsKept plain 1 (text "H") (some (4 ∷ [])) grouped grouped-HasHierarchy
      grouped-IsFresh).hierarchy

nested_edges : nested.organize.organize_group_parents ≡ (1000, 4) ∷ []
unfolding create_organize_group empty_store get put hang add_edge contains unique sorted_ids
    insert_id first_error normalize_text squeeze strip_left is_space list_beq values
nested_edges = refl

-- The new group cannot be above the old one.
nested_cycle : would_create_cycle ((1000, 4) ∷ []) 4 (1000 ∷ []) ≡ some true
unfolding would_create_cycle search_parents parents_of contains
nested_cycle = refl

would_create_cycle_lem_example :
    (b : Bool) × (would_create_cycle ((1000, 4) ∷ []) 4 (1000 ∷ []) ≡ some b)
    × ((b ≡ true) ↔ ClosesCycle ((1000, 4) ∷ []) 4 (1000 ∷ []))
would_create_cycle_lem_example = would_create_cycle_lem ((1000, 4) ∷ []) 4 (1000 ∷ [])

nested-IsFresh : IsFresh nested
unfolding create_organize_group empty_store get put hang add_edge contains unique sorted_ids
    insert_id first_error normalize_text squeeze strip_left is_space list_beq values
nested-IsFresh = refl

perform-IsKept_example :
    IsKept nested (perform plain (update 1 1000 none (some []) (some (text "ARCHIVED"))) nested)
perform-IsKept_example =
    perform-IsKept plain (update 1 1000 none (some []) (some (text "ARCHIVED"))) nested
      nested-HasHierarchy nested-IsFresh

abbrev below : OrganizeGroup
below = record {
  id = 1000;
  project_id = 1;
  name = text "H";
  parent_ids = 4 ∷ [];
  status = GroupStatus.active;
  created_at = 0;
  updated_at = 1;
}

below_found : get nested.organize.organize_groups 1000 ≡ some below
unfolding create_organize_group empty_store get put hang add_edge contains unique sorted_ids
    insert_id first_error normalize_text squeeze strip_left is_space list_beq values
below_found = refl

move_organize_group_lem_example :
    IsMoved nested 1000 (unique []) (move_organize_group 1 1000 [] nested)
    ⊎ IsTorn nested 1000 (unique []) (move_organize_group 1 1000 [] nested)
move_organize_group_lem_example =
    move_organize_group_lem 1 1000 [] below nested below_found refl
      (unfold unique contains in λ v m. cc (m)) (unfold unique contains in λ (v, m, w). cc (m))
