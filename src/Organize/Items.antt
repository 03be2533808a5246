-- ===== src/Organize/Items.antt =====
-- Tags and the lifecycle of items (apps/server/app/domain.py).
use project_digital_twin.Base.{
  ℕ, Bool, ◌&&◌, not, Option, none, some, List, [], ◌∷◌, Text, text, Platform, Dict, put, values,
  ◌==◌, nat_eq, list_eq, pair_eq, option_eq, any,
}
use project_digital_twin.Store.Values.{value_eq}
use project_digital_twin.Store.Contracts.{ItemType}
use project_digital_twin.Store.Tables.{OrganizeTag, LifecycleStatus}
use project_digital_twin.Store.Enums.{representation_eq, item_type_eq, membership_eq}
use project_digital_twin.Store.State.{next_uuid, next_time, draw, tick}
use project_digital_twin.Store.Actions.{
  organize_validation, organize_conflict, ok, err, Action, require, require_some,
}
use project_digital_twin.Organize.Names.{normalize_text, parse_item_type, parse_lifecycle}
use project_digital_twin.Organize.Guards.{
  project_error, items_error, group_error, tag_error, first_error, guard, unique,
}

module _ (p : Platform) where
  -- A tag of the project with this name, up to case.
  abbrev pub tag_is_named : ℕ → Text → OrganizeTag → Bool
  tag_is_named project_id name x =
      x.project_id == project_id && p.casefold x.name == p.casefold name

  abbrev pub new_tag : ℕ → ℕ → Text → ℕ → OrganizeTag
  new_tag id project_id name now = record {
    id = id;
    project_id = project_id;
    name = name;
    created_at = now;
  }

  abbrev pub add_tag : ℕ → Text → Action OrganizeTag
  add_tag project_id name s =
      let x = new_tag (next_uuid s) project_id name (next_time s) in
      (
        ok x,
        record (tick (draw s)) {
          organize = record (s.organize) { organize_tags = put s.organize.organize_tags x.id x };
        },
      )

  abbrev pub create_named : ℕ → Option Text → Action OrganizeTag
  create_named project_id none s = (err organize_validation, s)
  create_named project_id (some name) s =
      require (not (any (tag_is_named project_id name) (values s.organize.organize_tags)))
        organize_conflict (add_tag project_id name) s

  unfoldable pub create_organize_tag : ℕ → Text → Action OrganizeTag
  create_organize_tag project_id name s =
      guard (project_error s project_id) (create_named project_id (normalize_text name)) s

  -- The loop over the items.
  unfoldable pub set_states :
      ℕ
      → ItemType
      → LifecycleStatus
      → List ℕ
      → Dict (ℕ × (ItemType × ℕ)) LifecycleStatus
      → Dict (ℕ × (ItemType × ℕ)) LifecycleStatus
  set_states project_id kind status [] d = d
  set_states project_id kind status (item ∷ items) d =
      set_states project_id kind status items (put d (project_id, (kind, item)) status)

  abbrev pub set_items : ℕ → ItemType → LifecycleStatus → List ℕ → Action (List ℕ)
  set_items project_id kind status items s = (
    ok items,
    record (tick s) {
      organize = record (s.organize) {
        organize_item_lifecycle =
            set_states project_id kind status items s.organize.organize_item_lifecycle;
      };
    },
  )

  -- The result is the set of items, whose records have the status and the time of the call.
  unfoldable pub set_organize_item_status :
      ℕ → (item_type : Text) → List ℕ → (status : Text) → Action (List ℕ)
  set_organize_item_status project_id item_type item_ids status s =
      guard (project_error s project_id)
        (require_some (parse_item_type p item_type) organize_validation (λ kind.
          require_some (parse_lifecycle p status) organize_validation (λ state.
            guard (items_error s project_id kind (unique item_ids))
              (set_items project_id kind state (unique item_ids)))))
        s

  -- `restore_organize_items`
  unfoldable pub restore_organize_items : ℕ → (item_type : Text) → List ℕ → Action (List ℕ)
  restore_organize_items project_id item_type item_ids =
      set_organize_item_status project_id item_type item_ids (text "ACTIVE")

-- `validate_organize_membership_targets`
unfoldable pub validate_organize_membership_targets :
    ℕ → (group_ids tag_ids : List ℕ) → Action {0} Unit
validate_organize_membership_targets project_id group_ids tag_ids s =
    guard (project_error s project_id)
      (guard (first_error (group_error s project_id) (unique group_ids))
        (guard (first_error (tag_error s project_id) (unique tag_ids)) (λ s. (ok tt, s))))
      s
