-- ===== src/Organize/Groups.antt =====
-- Groups and their hierarchy (apps/server/app/domain.py).
use project_digital_twin.Base.{
  ℕ, ◌+◌, Bool, true, false, ◌&&◌, ◌||◌, not, Option, none, some, List, [], ◌∷◌, Text, text, strip,
  Platform, Dict, get, put, remove, values, contains, ◌==◌, nat_eq, list_eq, pair_eq, option_eq,
  is_some, get_or, keep, any, if◌then◌else◌,
}
use project_digital_twin.Store.Values.{value_eq}
use project_digital_twin.Store.Tables.{GroupStatus, OrganizeGroup, MembershipKey}
use project_digital_twin.Store.Enums.{representation_eq, item_type_eq, membership_eq}
use project_digital_twin.Store.State.{Store, next_uuid, next_time, draw, tick}
use project_digital_twin.Store.Actions.{
  key_error, runtime_error, organize_validation, organize_conflict, ok, err, Action, require,
  require_some,
}
use project_digital_twin.Organize.Names.{normalize_text}
use project_digital_twin.Organize.Guards.{project_error, group_error, first_error, guard, unique}
use project_digital_twin.Organize.Memberships.{without}
use project_digital_twin.Organize.Hierarchy.{
  Edges, would_create_cycle, hang, unhang, without_group, sorted_ids,
}

abbrev pub put_edges : Store → Edges → Store
put_edges s edges = record s { organize = record (s.organize) { organize_group_parents = edges } }

abbrev pub put_group : Store → ℕ → OrganizeGroup → Store
put_group s group_id x = record s {
  organize = record (s.organize) { organize_groups = put s.organize.organize_groups group_id x };
}

-- The group that the method works on: `_organize_group`
abbrev pub with_group : ℕ → ℕ → (OrganizeGroup → Action OrganizeGroup) → Action OrganizeGroup
with_group project_id group_id rest s = elim (get s.organize.organize_groups group_id) [
  | none ↦ (err key_error, s)
  | some x ↦ if x.project_id == project_id then rest x s else (err organize_conflict, s)
]

-- `_would_create_organize_cycle`, whose search has fuel enough.
abbrev pub closes_cycle : Store → ℕ → List ℕ → Bool
closes_cycle s group_id parents =
    get_or (would_create_cycle s.organize.organize_group_parents group_id parents) true

-- The assignments at the end of an update: `updated_at` comes last.
abbrev pub save_group : ℕ → OrganizeGroup → Action OrganizeGroup
save_group group_id x s =
    let x' : OrganizeGroup = record x { updated_at = next_time s } in
    (ok x', put_group (tick s) group_id x')

-- `difference_update`, then `update`
abbrev pub rehang : ℕ → List ℕ → Action OrganizeGroup → Action OrganizeGroup
rehang group_id parents rest s =
    let (edges, raised) = unhang group_id s.organize.organize_group_parents in
    if raised
    then (err runtime_error, put_edges s edges)
    else rest (put_edges s (hang group_id parents edges))

module _ (p : Platform) where
  abbrev pub group_is_named : ℕ → Text → OrganizeGroup → Bool
  group_is_named project_id name x =
      x.project_id == project_id && p.casefold x.name == p.casefold name

  -- Another group of the project with this name, up to case.
  abbrev pub is_rival : ℕ → ℕ → Text → OrganizeGroup → Bool
  is_rival project_id group_id name x =
      x.project_id == project_id && (not (x.id == group_id) && p.casefold x.name == p.casefold name)

  -- `status.strip().upper()`, and the test on it.
  unfoldable pub parse_group_status : Text → Option GroupStatus
  parse_group_status status =
      let wanted = p.upper (strip status) in
      if wanted == text "ACTIVE"
      then some GroupStatus.active
      else if wanted == text "ARCHIVED"
      then some GroupStatus.archived
      else none

  abbrev pub add_group : ℕ → Text → List ℕ → Action OrganizeGroup
  add_group project_id name parents s =
      let id = next_uuid s in
      let x : OrganizeGroup = record {
        id = id;
        project_id = project_id;
        name = name;
        parent_ids = sorted_ids parents;
        status = GroupStatus.active;
        created_at = next_time s;
        updated_at = next_time (tick s);
      } in
      let s' = put_group (tick (tick (draw s))) id x in
      (ok x, put_edges s' (hang id parents s.organize.organize_group_parents))

  abbrev pub create_group_named : ℕ → List ℕ → Text → Action OrganizeGroup
  create_group_named project_id parents name s =
      require (not (any (group_is_named project_id name) (values s.organize.organize_groups)))
        organize_conflict
        (guard (first_error (group_error s project_id) parents) (add_group project_id name parents))
        s

  unfoldable pub create_organize_group : ℕ → Text → Option (List ℕ) → Action OrganizeGroup
  create_organize_group project_id name parent_ids s =
      guard (project_error s project_id)
        (require_some (normalize_text name) organize_validation
          (create_group_named project_id (unique (get_or parent_ids []))))
        s

  -- Raise if another group has the name.
  abbrev pub unless_rival : ℕ → ℕ → Text → Action OrganizeGroup → Action OrganizeGroup
  unless_rival project_id group_id name rest s =
      require (not (any (is_rival project_id group_id name) (values s.organize.organize_groups)))
        organize_conflict rest s

  abbrev pub rename_to : ℕ → ℕ → OrganizeGroup → Text → Action OrganizeGroup
  rename_to project_id group_id x name =
      unless_rival project_id group_id name (save_group group_id (record x { name = name }))

  unfoldable pub rename_organize_group : ℕ → ℕ → Text → Action OrganizeGroup
  rename_organize_group project_id group_id name = with_group project_id group_id (λ x.
      require_some (normalize_text name) organize_validation (rename_to project_id group_id x))

  -- The new name: `_organize_name(name, "group") if name is not None else group.name`
  abbrev pub name_or_old : Option Text → OrganizeGroup → Option Text
  name_or_old none x = some x.name
  name_or_old (some name) x = normalize_text name

  abbrev pub status_or_old : Option Text → OrganizeGroup → Option GroupStatus
  status_or_old none x = some x.status
  status_or_old (some status) x = parse_group_status status

  -- The edges are written only where parents are given.
  abbrev pub write_update :
      ℕ
      → OrganizeGroup
      → Text
      → Option (List ℕ)
      → (parents : List ℕ) → GroupStatus
      → Action OrganizeGroup
  write_update group_id x name none parents status =
      save_group group_id
        (record x { name = name; parent_ids = sorted_ids parents; status = status })
  write_update group_id x name (some parent_ids) parents status = rehang group_id parents (
      save_group group_id
        (record x { name = name; parent_ids = sorted_ids parents; status = status }))

  -- An update from its test on the name on.
  abbrev pub update_to :
      (project_id group_id : ℕ)
      → OrganizeGroup
      → Option (List ℕ)
      → (parents : List ℕ) → (status : Option Text) → (name : Text) → Action OrganizeGroup
  update_to project_id group_id x parent_ids parents status name s =
      unless_rival project_id group_id name
        (guard (first_error (group_error s project_id) parents) (
          require (not (closes_cycle s group_id parents)) organize_conflict (
            require_some (status_or_old status x) organize_validation
              (write_update group_id x name parent_ids parents))))
        s

  -- An update of the group that was found; the set of its parents is made of those given, or of its own.
  abbrev pub update_found :
      (project_id group_id : ℕ)
      → (name : Option Text) → (parent_ids : Option (List ℕ)) → (status : Option Text)
      → OrganizeGroup
      → Action OrganizeGroup
  update_found project_id group_id name parent_ids status x =
      require (is_some name || (is_some parent_ids || is_some status)) organize_validation (
        require_some (name_or_old name x) organize_validation (
          update_to project_id group_id x parent_ids (unique (get_or parent_ids x.parent_ids))
            status))

  unfoldable pub update_organize_group :
      (project_id group_id : ℕ)
      → (name : Option Text) → (parent_ids : Option (List ℕ)) → (status : Option Text)
      → Action OrganizeGroup
  update_organize_group project_id group_id name parent_ids status =
      with_group project_id group_id (update_found project_id group_id name parent_ids status)

  abbrev pub with_status : ℕ → OrganizeGroup → GroupStatus → Action OrganizeGroup
  with_status group_id x status = save_group group_id (record x { status = status })

  unfoldable pub set_organize_group_status : ℕ → ℕ → Text → Action OrganizeGroup
  set_organize_group_status project_id group_id status =
      with_group project_id group_id
        (λ x. require_some (parse_group_status status) organize_validation (with_status group_id x))

abbrev pub move_found : ℕ → ℕ → (parents : List ℕ) → OrganizeGroup → Action OrganizeGroup
move_found project_id group_id parents x s =
    guard (first_error (group_error s project_id) parents)
      (require (not (closes_cycle s group_id parents)) organize_conflict (
        rehang group_id parents
          (save_group group_id (record x { parent_ids = sorted_ids parents }))))
      s

unfoldable pub move_organize_group : ℕ → ℕ → List ℕ → Action OrganizeGroup
move_organize_group project_id group_id parent_ids =
    with_group project_id group_id (move_found project_id group_id (unique parent_ids))

-- A deletion's loop over the groups that are left; the clock is read for each group that it changes.
abbrev pub is_under : ℕ → ℕ → OrganizeGroup → Bool
is_under project_id group_id x = x.project_id == project_id && contains group_id x.parent_ids

abbrev pub detached : ℕ → ℕ → (now : ℕ) → OrganizeGroup → OrganizeGroup
detached project_id group_id now x =
    if is_under project_id group_id x
    then record x { parent_ids = keep (λ i. not (i == group_id)) x.parent_ids; updated_at = now }
    else x

unfoldable pub detach :
    (project_id group_id : ℕ)
    → (time : ℕ → ℕ) → Dict ℕ OrganizeGroup
    → (readings : ℕ) → Dict ℕ OrganizeGroup × ℕ
detach project_id group_id time [] n = ([], n)
detach project_id group_id time ((id, x) ∷ d) n =
    let rest =
      detach project_id group_id time d (if is_under project_id group_id x then n + 1 else n) in
    ((id, detached project_id group_id (time n) x) ∷ rest.0, rest.1)

abbrev pub is_in_group : ℕ → ℕ → MembershipKey → Bool
is_in_group project_id group_id key = key.project_id == project_id && key.target_id == group_id

abbrev pub drop_group : ℕ → ℕ → Store → Store
drop_group project_id group_id s =
    let (groups, n) =
      detach project_id group_id s.supply.time (remove s.organize.organize_groups group_id)
        s.supply.readings in
    record s {
      supply = record (s.supply) { readings = n };
      organize = record (s.organize) {
        organize_groups = groups;
        organize_group_parents = without_group group_id s.organize.organize_group_parents;
        organize_group_memberships =
            without (is_in_group project_id group_id) s.organize.organize_group_memberships;
      };
    }

unfoldable pub delete_organize_group : ℕ → ℕ → Action {0} Unit
delete_organize_group project_id group_id s =
    guard (group_error s project_id group_id) (λ s. (ok tt, drop_group project_id group_id s)) s

abbrev pub is_active_group : OrganizeGroup → Bool
is_active_group x = elim x.status [ GroupStatus.active ↦ true | _ ↦ false ]

-- `list_organize_groups`, before it is sorted.
unfoldable pub list_organize_groups : ℕ → Bool → Action (List OrganizeGroup)
list_organize_groups project_id include_archived s =
    guard (project_error s project_id)
      (λ s. (
        ok (
            keep (λ x. x.project_id == project_id && (include_archived || is_active_group x))
              (values s.organize.organize_groups)),
        s,
      ))
      s
