-- ===== src/Organize/Memberships.antt =====
-- Memberships of items in groups and tags (apps/server/app/domain.py). The lists come back unsorted.
use project_digital_twin.Base.{
  ℕ, Bool, true, ◌&&◌, Option, none, some, List, [], ◌∷◌, Text, Platform, Dict, get, put, contains,
  ◌==◌, nat_eq, list_eq, pair_eq, option_eq, is_some, keep, if◌then◌else◌,
}
use project_digital_twin.Store.Values.{value_eq}
use project_digital_twin.Store.Contracts.{ItemType}
use project_digital_twin.Store.Tables.{MembershipKey}
use project_digital_twin.Store.Enums.{representation_eq, item_type_beq, item_type_eq, membership_eq}
use project_digital_twin.Store.State.{Store, next_time, tick}
use project_digital_twin.Store.Actions.{organize_validation, ok, Action, require_some}
use project_digital_twin.Organize.Names.{parse_item_type}
use project_digital_twin.Organize.Guards.{
  project_error, items_error, group_error, tag_error, first_error, guard, unique,
}

abbrev pub Membership : Type 0
Membership = Dict MembershipKey ℕ

-- `membership[0] == project_id and membership[1] == type and membership[2] in items`
abbrev pub is_of_items : ℕ → ItemType → List ℕ → MembershipKey → Bool
is_of_items project_id kind items key =
    key.project_id == project_id && (item_type_beq key.item_type kind && contains key.item_id items)

-- … `and membership[3] in targets`
abbrev pub is_of_targets : ℕ → ItemType → List ℕ → List ℕ → MembershipKey → Bool
is_of_targets project_id kind items targets key =
    is_of_items project_id kind items key && contains key.target_id targets

-- `{m: t for m, t in d.items() if not …}`
unfoldable pub without : (MembershipKey → Bool) → Membership → Membership
without p [] = []
without p ((key, t) ∷ d) = let rest = without p d in if p key then rest else (key, t) ∷ rest

-- `d.setdefault(key, utc_now())`
abbrev pub enter : MembershipKey → Membership × Store → Membership × Store
enter key (d, s) = (if is_some (get d key) then d else put d key (next_time s), tick s)

abbrev pub membership_of : ℕ → ItemType → ℕ → ℕ → MembershipKey
membership_of project_id kind item target = record {
  project_id = project_id;
  item_type = kind;
  item_id = item;
  target_id = target;
}

-- The inner and the outer loop of an assignment.
unfoldable pub enter_targets : ℕ → ItemType → ℕ → List ℕ → Membership × Store → Membership × Store
enter_targets project_id kind item [] m = m
enter_targets project_id kind item (target ∷ targets) m =
    enter_targets project_id kind item targets (enter (membership_of project_id kind item target) m)

unfoldable pub enter_items :
    ℕ → ItemType → List ℕ → List ℕ → Membership × Store → Membership × Store
enter_items project_id kind [] targets m = m
enter_items project_id kind (item ∷ items) targets m =
    enter_items project_id kind items targets (enter_targets project_id kind item targets m)

-- The memberships of a project, of these items if they are given.
unfoldable pub listed :
    ℕ → Option ItemType → Option (List ℕ) → Membership → List (MembershipKey × ℕ)
listed project_id kind items d =
    keep
      (λ (m : MembershipKey × ℕ).
        m.0.project_id == project_id
        && (elim kind [ none ↦ true | some k ↦ item_type_beq m.0.item_type k ])
        && (elim items [ none ↦ true | some ids ↦ contains m.0.item_id ids ]))
      d

abbrev pub put_groups : Store → Membership → Store
put_groups s d = record s { organize = record (s.organize) { organize_group_memberships = d } }

abbrev pub put_tags : Store → Membership → Store
put_tags s d = record s { organize = record (s.organize) { organize_tag_memberships = d } }

-- From `if replace` on, for groups and for tags: the memberships of the items are dropped before the
-- items are checked.
abbrev pub assign_found :
    (Store → Membership → Store)
    → Membership
    → ℕ
    → ItemType
    → (items targets : List ℕ) → Bool
    → Action (List (MembershipKey × ℕ))
assign_found store d project_id kind items targets replace s =
    let d' = if replace then without (is_of_items project_id kind items) d else d in
    guard (items_error s project_id kind items)
      (λ s.
        let (d'', s') = enter_items project_id kind items targets (d', s) in
        (ok (listed project_id (some kind) (some items) d''), store s' d''))
      (store s d')

module _ (p : Platform) where
  unfoldable pub assign_organize_groups :
      ℕ
      → Text
      → (item_ids group_ids : List ℕ) → (replace : Bool) → Action (List (MembershipKey × ℕ))
  assign_organize_groups project_id item_type item_ids group_ids replace s =
      guard (project_error s project_id)
        (require_some (parse_item_type p item_type) organize_validation (λ kind.
          guard (first_error (group_error s project_id) (unique group_ids)) (
            assign_found put_groups s.organize.organize_group_memberships project_id kind
              (unique item_ids) (unique group_ids) replace)))
        s

  unfoldable pub assign_organize_tags :
      ℕ → Text → (item_ids tag_ids : List ℕ) → (replace : Bool) → Action (List (MembershipKey × ℕ))
  assign_organize_tags project_id item_type item_ids tag_ids replace s =
      guard (project_error s project_id)
        (require_some (parse_item_type p item_type) organize_validation (λ kind.
          guard (first_error (tag_error s project_id) (unique tag_ids)) (
            assign_found put_tags s.organize.organize_tag_memberships project_id kind
              (unique item_ids) (unique tag_ids) replace)))
        s

  unfoldable pub remove_organize_groups :
      ℕ → Text → (item_ids group_ids : List ℕ) → Action (List (MembershipKey × ℕ))
  remove_organize_groups project_id item_type item_ids group_ids s =
      guard (project_error s project_id)
        (require_some (parse_item_type p item_type) organize_validation (λ kind s.
          let d =
            without (is_of_targets project_id kind (unique item_ids) (unique group_ids))
              s.organize.organize_group_memberships in
          (ok (listed project_id (some kind) (some (unique item_ids)) d), put_groups s d)))
        s

  unfoldable pub remove_organize_tags :
      ℕ → Text → (item_ids tag_ids : List ℕ) → Action (List (MembershipKey × ℕ))
  remove_organize_tags project_id item_type item_ids tag_ids s =
      guard (project_error s project_id)
        (require_some (parse_item_type p item_type) organize_validation (λ kind s.
          let d =
            without (is_of_targets project_id kind (unique item_ids) (unique tag_ids))
              s.organize.organize_tag_memberships in
          (ok (listed project_id (some kind) (some (unique item_ids)) d), put_tags s d)))
        s
