-- ===== src/Organize/Kept.antt =====
-- Every operation on groups keeps the hierarchy (apps/server/app/domain.py).
use project_digital_twin.Base.{
  ℕ, ◌≡◌, refl, ap, ◌∙◌, ◌⊎◌, inl, inr, true, false, not, Option, none, some, List, [], ◌∷◌, arith,
  Text, Platform, get, put, contains, ◌==◌, nat_eq, list_eq, pair_eq, option_eq, get_or, Bool-cases,
  get-put, get-put_self, nat_beq_iff,
}
use project_digital_twin.Store.Tables.{GroupStatus, OrganizeGroup}
use project_digital_twin.Store.Enums.{representation_eq, item_type_eq, membership_eq}
use project_digital_twin.Store.Values.{value_eq}
use project_digital_twin.Store.State.{Store, next_uuid, next_time, tick}
use project_digital_twin.Store.Actions.{
  organize_validation, organize_conflict, ok, require, require_some,
}
use project_digital_twin.Organize.Names.{normalize_text}
use project_digital_twin.Organize.Guards.{project_error, group_error, first_error, guard, unique}
use project_digital_twin.Organize.Hierarchy.{Edges, hang, unhang, sorted_ids}
use project_digital_twin.Organize.Cycles.{ClosesCycle, would_create_cycle_lem}
use project_digital_twin.Organize.Acyclic.{unhang-IsSubgraph, unhang-unchanged, contains-hang}
use project_digital_twin.Organize.Forest.{
  Groups, IsHierarchy, IsCoherent, contains-sorted_ids, IsHierarchy-IsSubgraph, IsHierarchy-put,
  IsHierarchy-add, AreOf, IsHierarchy-hang, new-ClosesCycle,
}
use project_digital_twin.Organize.Detached.{contains-keep, IsHierarchy-delete, IsCoherent-delete}
use project_digital_twin.Organize.Rules.{
  HasHierarchy, IsKept, on_guard, on_require, on_some, on_group, known_group, known_groups,
}
use project_digital_twin.Organize.Groups.{
  closes_cycle, save_group, rehang, parse_group_status, add_group, create_organize_group,
  rename_organize_group, name_or_old, create_group_named, rename_to, with_status, update_to,
  update_found, move_found, status_or_old, write_update, update_organize_group,
  set_organize_group_status, move_organize_group, drop_group, delete_organize_group,
}

pub contains-unique : (v : ℕ) (ids : List ℕ) → contains v (unique ids) ≡ contains v ids
unfolding unique contains
contains-unique v [] = refl
contains-unique v (id ∷ ids) =
    ground (arith, contains-keep id v (unique ids), contains-unique v ids)

closes_cycle_sound :
    (s : Store) (group_id : ℕ) (parents : List ℕ)
    → not (closes_cycle s group_id parents) ≡ true
    → ¬ ClosesCycle s.organize.organize_group_parents group_id parents
closes_cycle_sound s group_id parents h w =
    let (b, e, iff) = would_create_cycle_lem s.organize.organize_group_parents group_id parents in
    cc (iff.1 w, rw (e, closes_cycle) at h)

IsCoherent-put :
    (groups : Groups) (edges : Edges) (g : ℕ) (x' : OrganizeGroup)
    → ((v : ℕ) → contains v x'.parent_ids ≡ contains (g, v) edges)
    → ((k : ℕ) (y : OrganizeGroup) (v : ℕ)
        → g == k ≡ false
        → get groups k ≡ some y
        → contains v y.parent_ids ≡ contains (k, v) edges)
    → IsCoherent (put groups g x') edges
IsCoherent-put groups edges g x' here there k y v e = elim (Bool-cases (g == k)) [
  | inl same ↦
      let at_g = (nat_beq_iff g k).0 same in
      let found : x' ≡ y = cc (rw (get-put, same) at e) in rw (← found, ← at_g) (here v)
  | inr differs ↦ there k y v differs (rw (get-put, differs) at e)
]

module _ (s : Store) (group_id : ℕ) (x : OrganizeGroup) where
  -- A change of other fields than the parents.
  saved :
      (x' : OrganizeGroup)
      → get s.organize.organize_groups group_id ≡ some x
      → x'.project_id ≡ x.project_id
      → ((v : ℕ) → contains v x'.parent_ids ≡ contains v x.parent_ids)
      → HasHierarchy s
      → IsKept s (save_group group_id x' s)
  saved x' found p same h = record {
    hierarchy =
        IsHierarchy-put s.organize.organize_groups s.organize.organize_group_parents group_id x
          (record x' { updated_at = next_time s }) found p h;
    coherent = λ c _.
        IsCoherent-put s.organize.organize_groups s.organize.organize_group_parents group_id
          (record x' { updated_at = next_time s }) (λ v. same v ∙ c group_id x v found)
          (λ k y v _ e. c k y v e);
  }

  rehung :
      (x' : OrganizeGroup) (parents : List ℕ)
      → get s.organize.organize_groups group_id ≡ some x
      → x'.project_id ≡ x.project_id
      → ((v : ℕ) → contains v x'.parent_ids ≡ contains v parents)
      → AreOf s.organize.organize_groups x.project_id parents
      → ¬ ClosesCycle s.organize.organize_group_parents group_id parents
      → HasHierarchy s
      → IsKept s (rehang group_id parents (save_group group_id x') s)
  rehung x' parents found p same known n h =
      elim (Bool-cases (unhang group_id s.organize.organize_group_parents).1) [
        | inl raised ↦ rw raised (record {
          hierarchy =
              IsHierarchy-IsSubgraph s.organize.organize_groups s.organize.organize_group_parents
                (unhang group_id s.organize.organize_group_parents).0
                (unhang-IsSubgraph group_id s.organize.organize_group_parents) h;
          coherent = λ c not_raised. absurd (not_raised refl);
        })
        | inr clean ↦
            let (whole, bare) = unhang-unchanged group_id s.organize.organize_group_parents clean in
            rw (clean, whole)
              (record {
                hierarchy =
                    IsHierarchy-put s.organize.organize_groups
                      (hang group_id parents s.organize.organize_group_parents) group_id x
                      (record x' { updated_at = next_time s }) found p
                      (IsHierarchy-hang s.organize.organize_groups s.organize.organize_group_parents
                        group_id x parents found known n h);
                coherent = λ c _.
                    IsCoherent-put s.organize.organize_groups
                      (hang group_id parents s.organize.organize_group_parents) group_id
                      (record x' { updated_at = next_time s })
                      (λ v.
                        same v
                        ∙ ground (
                          arith,
                          contains-hang group_id parents s.organize.organize_group_parents group_id
                              v,
                          bare v,
                        ))
                      (λ k y v differs e.
                        c k y v e
                        ∙ ground (
                          arith,
                          contains-hang group_id parents s.organize.organize_group_parents k v,
                          differs,
                        ));
              })
      ]

-- The identifier that is drawn next is not a group's.
abbrev pub IsFresh : Store → Type 0
IsFresh s = get s.organize.organize_groups (next_uuid s) ≡ none

module _ (groups : Groups) (edges : Edges) (g : ℕ) (x : OrganizeGroup) (parents : List ℕ) where
  AreOf-put :
      (project_id : ℕ)
      → get groups g ≡ none
      → AreOf groups project_id parents
      → AreOf (put groups g x) project_id parents
  AreOf-put project_id fresh known v m =
      let (y, found, same) = known v m in (y, by_key y found (Bool-cases (g == v)), same)
    where
      by_key :
          (y : OrganizeGroup)
          → get groups v ≡ some y
          → (g == v ≡ true) ⊎ (g == v ≡ false)
          → get (put groups g x) v ≡ some y
      by_key y found (inl same) =
          absurd (cc (fresh, found, ap (get groups) ((nat_beq_iff g v).0 same)))
      by_key y found (inr differs) = rw (get-put, differs) found

  no_edge : get groups g ≡ none → IsHierarchy groups edges → (v : ℕ) → contains (g, v) edges ≡ false
  no_edge fresh h v = elim (Bool-cases (contains (g, v) edges)) [
    | inl e ↦ let (y, z, gy, gz, same) = h.joined g v e in absurd (cc (gy, fresh))
    | inr e ↦ e
  ]

  new-IsHierarchy :
      get groups g ≡ none
      → AreOf groups x.project_id parents
      → IsHierarchy groups edges
      → IsHierarchy (put groups g x) (hang g parents edges)
  new-IsHierarchy fresh known h =
      IsHierarchy-hang (put groups g x) edges g x parents (get-put_self groups g x)
        (AreOf-put x.project_id fresh known)
        (new-ClosesCycle groups edges g x.project_id parents h fresh known)
        (IsHierarchy-add groups edges g x fresh h)

  new-IsCoherent :
      get groups g ≡ none
      → ((v : ℕ) → contains v x.parent_ids ≡ contains v parents)
      → IsHierarchy groups edges
      → IsCoherent groups edges
      → IsCoherent (put groups g x) (hang g parents edges)
  new-IsCoherent fresh same h c =
      IsCoherent-put groups (hang g parents edges) g x
        (λ v. same v ∙ ground (arith, contains-hang g parents edges g v, no_edge fresh h v))
        (λ k y v differs e. c k y v e ∙ ground (arith, contains-hang g parents edges k v, differs))

module _ (p : Platform) where
  added :
      (project_id : ℕ) (name : Text) (parents : List ℕ) (s : Store)
      → AreOf s.organize.organize_groups project_id parents
      → IsFresh s
      → HasHierarchy s
      → IsKept s (add_group p project_id name parents s)
  added project_id name parents s known fresh h =
      let id = next_uuid s in
      let x : OrganizeGroup = record {
        id = id;
        project_id = project_id;
        name = name;
        parent_ids = sorted_ids parents;
        status = GroupStatus.active;
        created_at = next_time s;
        updated_at = next_time (tick s);
      } in
      let groups = s.organize.organize_groups in
      let edges = s.organize.organize_group_parents in
      record {
        hierarchy = new-IsHierarchy groups edges id x parents fresh known h;
        coherent = λ c _.
            new-IsCoherent groups edges id x parents fresh (λ v. contains-sorted_ids v parents) h c;
      }

  created :
      (project_id : ℕ) (parents : List ℕ) (name : Text) (s : Store)
      → HasHierarchy s
      → IsFresh s
      → IsKept s (create_group_named p project_id parents name s)
  created project_id parents name s h fresh =
      on_require s _ organize_conflict
        (guard (first_error (group_error s project_id) parents)
          (add_group p project_id name parents))
        h
        (λ _.
          on_guard s (first_error (group_error s project_id) parents)
            (add_group p project_id name parents) h
            (λ e. added project_id name parents s (known_groups s project_id parents e) fresh h))

  pub create_organize_group-IsKept :
      (project_id : ℕ) (name : Text) (parent_ids : Option (List ℕ)) (s : Store)
      → HasHierarchy s
      → IsFresh s
      → IsKept s (create_organize_group p project_id name parent_ids s)
  unfolding create_organize_group
  create_organize_group-IsKept project_id name parent_ids s h fresh =
      let parents = unique (get_or parent_ids []) in
      on_guard s (project_error s project_id)
        (require_some (normalize_text name) organize_validation
          (create_group_named p project_id parents))
        h
        (λ _.
          on_some s (normalize_text name) organize_validation
            (create_group_named p project_id parents) h
            (λ n _. created project_id parents n s h fresh))

  pub rename_organize_group-IsKept :
      (project_id group_id : ℕ) (name : Text) (s : Store)
      → HasHierarchy s
      → IsKept s (rename_organize_group p project_id group_id name s)
  unfolding rename_organize_group
  rename_organize_group-IsKept project_id group_id name s h =
      on_group s project_id group_id
        (λ x.
          require_some (normalize_text name) organize_validation
            (rename_to p project_id group_id x))
        h
        (λ x found same.
          on_some s (normalize_text name) organize_validation (rename_to p project_id group_id x) h
            (λ n _.
              on_require s _ organize_conflict (save_group group_id (record x { name = n })) h
                (λ _. saved s group_id x (record x { name = n }) found refl (λ v. refl) h)))

  pub set_organize_group_status-IsKept :
      (project_id group_id : ℕ) (status : Text) (s : Store)
      → HasHierarchy s
      → IsKept s (set_organize_group_status p project_id group_id status s)
  unfolding set_organize_group_status
  set_organize_group_status-IsKept project_id group_id status s h =
      on_group s project_id group_id
        (λ x.
          require_some (parse_group_status p status) organize_validation (with_status p group_id x))
        h
        (λ x found same.
          on_some s (parse_group_status p status) organize_validation (with_status p group_id x) h
            (λ state _. saved s group_id x (record x { status = state }) found refl (λ v. refl) h))

  module _ (project_id group_id : ℕ) (x : OrganizeGroup) (s : Store) where
    written :
        (name : Text) (parent_ids : Option (List ℕ)) (status : GroupStatus)
        → get s.organize.organize_groups group_id ≡ some x
        → AreOf s.organize.organize_groups x.project_id (unique (get_or parent_ids x.parent_ids))
        → ¬ ClosesCycle s.organize.organize_group_parents group_id
            (unique (get_or parent_ids x.parent_ids))
        → HasHierarchy s
        → IsKept s (
            write_update p group_id x name parent_ids
              (unique (get_or parent_ids x.parent_ids))
              status
              s)
    written name none status found known n h =
        saved s group_id x
          (record x { name = name; parent_ids = sorted_ids (unique x.parent_ids); status = status })
          found refl
          (λ v. contains-sorted_ids v (unique x.parent_ids) ∙ contains-unique v x.parent_ids) h
    written name (some parent_ids) status found known n h =
        rehung s group_id x
          (record x { name = name; parent_ids = sorted_ids (unique parent_ids); status = status })
          (unique parent_ids) found refl (λ v. contains-sorted_ids v (unique parent_ids)) known n h

    updated :
        (parent_ids : Option (List ℕ)) (status : Option Text) (name : Text)
        → get s.organize.organize_groups group_id ≡ some x
        → x.project_id ≡ project_id
        → HasHierarchy s
        → IsKept s (
            update_to p project_id group_id x parent_ids
              (unique (get_or parent_ids x.parent_ids))
              status
              name
              s)
    updated parent_ids status name found same h =
        let parents = unique (get_or parent_ids x.parent_ids) in
        let write = write_update p group_id x name parent_ids parents in
        let checked = require_some (status_or_old p status x) organize_validation write in
        let acyclic = require (not (closes_cycle s group_id parents)) organize_conflict checked in
        on_require s _ organize_conflict
          (guard (first_error (group_error s project_id) parents) acyclic) h
          (λ _. on_guard s (first_error (group_error s project_id) parents) acyclic h (λ e.
            on_require s (not (closes_cycle s group_id parents)) organize_conflict checked h (λ n.
              on_some s (status_or_old p status x) organize_validation write h (λ state _.
                written name parent_ids state found (rw same (known_groups s project_id parents e))
                  (closes_cycle_sound s group_id parents n) h))))

  pub update_organize_group-IsKept :
      (project_id group_id : ℕ) (name : Option Text) (parent_ids : Option (List ℕ))
      (status : Option Text) (s : Store)
      → HasHierarchy s
      → IsKept s (update_organize_group p project_id group_id name parent_ids status s)
  unfolding update_organize_group
  update_organize_group-IsKept project_id group_id name parent_ids status s h =
      on_group s project_id group_id (update_found p project_id group_id name parent_ids status) h
        (λ x found same.
          let go =
            update_to p project_id group_id x parent_ids (unique (get_or parent_ids x.parent_ids))
              status in
          on_require s _ organize_validation
            (require_some (name_or_old p name x) organize_validation go) h
            (λ _.
              on_some s (name_or_old p name x) organize_validation go h
                (λ n _. updated project_id group_id x s parent_ids status n found same h)))

pub move_organize_group-IsKept :
    (project_id group_id : ℕ) (parent_ids : List ℕ) (s : Store)
    → HasHierarchy s
    → IsKept s (move_organize_group project_id group_id parent_ids s)
unfolding move_organize_group
move_organize_group-IsKept project_id group_id parent_ids s h =
    let parents = unique parent_ids in
    on_group s project_id group_id (move_found project_id group_id parents) h (λ x found same.
      let x' : OrganizeGroup = record x { parent_ids = sorted_ids parents } in
      let write = rehang group_id parents (save_group group_id x') in
      let acyclic = require (not (closes_cycle s group_id parents)) organize_conflict write in
      on_guard s (first_error (group_error s project_id) parents) acyclic h (λ e.
        on_require s (not (closes_cycle s group_id parents)) organize_conflict write h (λ n.
          rehung s group_id x x' parents found refl (λ v. contains-sorted_ids v parents)
            (rw same (known_groups s project_id parents e))
            (closes_cycle_sound s group_id parents n) h)))

pub delete_organize_group-IsKept :
    (project_id group_id : ℕ) (s : Store)
    → HasHierarchy s
    → IsKept s (delete_organize_group project_id group_id s)
unfolding delete_organize_group
delete_organize_group-IsKept project_id group_id s h =
    on_guard s (group_error s project_id group_id) (λ s. (ok tt, drop_group project_id group_id s))
      h
      (λ e.
        let (x, found, same) = known_group s project_id group_id e in
        record {
          hierarchy =
              IsHierarchy-delete project_id group_id s.supply.time s.organize.organize_groups
                s.organize.organize_group_parents s.supply.readings h;
          coherent = λ c _.
              IsCoherent-delete project_id group_id s.supply.time s.organize.organize_groups
                s.organize.organize_group_parents s.supply.readings x found same h c;
        })
