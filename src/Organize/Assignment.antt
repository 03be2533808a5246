-- ===== src/Organize/Assignment.antt =====
-- Assignments to groups: all or nothing, but for one case (apps/server/app/domain.py,
-- `assign_organize_groups`, `remove_organize_groups`).
use project_digital_twin.Base.{
  ℕ, ◌≡◌, refl, ◌∙◌, ◌≢◌, ◌↔◌, ◌⊎◌, inl, inr, Bool, true, false, ◌&&◌, ◌||◌, not, Option, none,
  some, List, arith, Text, Platform, get, contains, nat_eq, list_eq, pair_eq, option_eq, beq_refl,
  is_some, Bool-cases, Option-cases, if◌then◌else◌,
}
use project_digital_twin.Store.Values.{value_eq}
use project_digital_twin.Store.Contracts.{ItemType}
use project_digital_twin.Store.Tables.{MembershipKey, ProjectStatus, Project}
use project_digital_twin.Store.Enums.{
  representation_eq, item_type_beq_iff, item_type_eq, membership_eq,
}
use project_digital_twin.Store.State.{Store}
use project_digital_twin.Store.Actions.{
  Error, organize_validation, Result, ok, Action, require_some, is_ok,
}
use project_digital_twin.Organize.Names.{parse_item_type}
use project_digital_twin.Organize.Guards.{
  project_error, items_error, group_error, first_error, guard, unique,
}
use project_digital_twin.Organize.Memberships.{
  Membership, is_of_items, is_of_targets, without, enter_items, listed, put_groups, assign_found,
  assign_organize_groups, remove_organize_groups,
}
use project_digital_twin.Organize.Kept.{contains-unique}
use project_digital_twin.Organize.Removal.{get-without, enter_items-get}

module _ (p : Platform) (project_id : ℕ) (item_type : Text) (items groups : List ℕ)
    (s : Store) where
  abbrev pub Outcome : Type 0
  Outcome = Result (List (MembershipKey × ℕ)) × Store

  abbrev pub groups_of : Store → Membership
  groups_of t = t.organize.organize_group_memberships

  -- The call raised and changed nothing.
  abbrev pub IsUntouched : Outcome → Type 0
  IsUntouched (result, s') = (is_ok result ≡ false) × (s' ≡ s)

  -- Each item is in each group; what else the items were in is gone if `replace` is set.
  abbrev pub IsAssigned : Bool → Outcome → Type 0
  IsAssigned replace (result, s') =
      (kind : ItemType) × (parse_item_type p item_type ≡ some kind)
      × (is_ok result ≡ true)
      × ((k : MembershipKey)
          → is_some (get (groups_of s') k) ≡ (
              is_of_targets project_id kind (unique items) (unique groups) k
              || (not (replace && is_of_items project_id kind (unique items) k)
                  && is_some (get (groups_of s) k))))

  -- The call raised since an item belongs to another project, and the memberships of all items are gone.
  abbrev pub IsStripped : Bool → Outcome → Type 0
  IsStripped replace (result, s') =
      (kind : ItemType) × (parse_item_type p item_type ≡ some kind)
      × (replace ≡ true)
      × (is_some (items_error s project_id kind (unique items)) ≡ true)
      × (is_ok result ≡ false)
      × ((k : MembershipKey)
          → get (groups_of s') k
            ≡ (if is_of_items project_id kind (unique items) k then none else get (groups_of s) k))

  module _ (kind : ItemType) (parsed : parse_item_type p item_type ≡ some kind) where
    assign_found_lem :
        (replace : Bool) (refused : Option Error)
        → items_error s project_id kind (unique items) ≡ refused
        → (let d =
              if replace
              then without (is_of_items project_id kind (unique items)) (groups_of s)
              else groups_of s in
            let out =
              guard refused
                (λ t.
                  let (d', t') =
                    enter_items project_id kind (unique items) (unique groups) (d, t) in
                  (ok (listed project_id (some kind) (some (unique items)) d'), put_groups t' d'))
                (put_groups s d) in
            IsAssigned replace out ⊎ IsStripped replace out ⊎ IsUntouched out)
    assign_found_lem false (some e) refused = inr (inr (refl, refl))
    assign_found_lem true (some e) refused = inr (
        inl (
          kind,
          parsed,
          refl,
          ground (arith, refused),
          refl,
          λ k. get-without (is_of_items project_id kind (unique items)) (groups_of s) k,
        ))
    assign_found_lem false none refused = inl (
      kind,
      parsed,
      refl,
      λ k. enter_items-get project_id kind (unique items) (unique groups) (groups_of s, s) k,
    )
    assign_found_lem true none refused =
        let d = without (is_of_items project_id kind (unique items)) (groups_of s) in
        inl (
          kind,
          parsed,
          refl,
          λ k.
              enter_items-get project_id kind (unique items) (unique groups) (d, put_groups s d) k
              ∙ ground
                  (arith, get-without (is_of_items project_id kind (unique items)) (groups_of s) k),
        )

  module _ (replace : Bool) where
    abbrev Ends : Outcome → Type 0
    Ends out = IsAssigned replace out ⊎ IsStripped replace out ⊎ IsUntouched out

    -- The last part of the call.
    abbrev assigning : ItemType → Action (List (MembershipKey × ℕ))
    assigning kind =
        assign_found put_groups (groups_of s) project_id kind (unique items) (unique groups) replace

    by_groups :
        (kind : ItemType) (refused : Option Error)
        → parse_item_type p item_type ≡ some kind
        → Ends (guard refused (assigning kind) s)
    by_groups kind (some e) parsed = inr (inr (refl, refl))
    by_groups kind none parsed =
        assign_found_lem kind parsed replace (items_error s project_id kind (unique items)) refl

    by_kind :
        (o : Option ItemType)
        → parse_item_type p item_type ≡ o
        → Ends (
            require_some o organize_validation
              (λ kind.
                guard (first_error (group_error s project_id) (unique groups)) (assigning kind))
              s)
    by_kind none unknown = inr (inr (refl, refl))
    by_kind (some kind) parsed =
        by_groups kind (first_error (group_error s project_id) (unique groups)) parsed

    by_project :
        (refused : Option Error)
        → Ends (
            guard refused
              (require_some (parse_item_type p item_type) organize_validation (λ kind.
                guard (first_error (group_error s project_id) (unique groups)) (assigning kind)))
              s)
    by_project (some e) = inr (inr (refl, refl))
    by_project none = by_kind (parse_item_type p item_type) refl

    -- An assignment of items to groups ends in one of three ways. Each item is in each group, and what
    -- else the items were in is kept, or is gone if `replace` is set. Or it raises and changes nothing.
    -- Or, with `replace` and an item of another project, it raises and the memberships of all the items
    -- are gone.
    pub assign_organize_groups_lem :
        let out = assign_organize_groups p project_id item_type items groups replace s in
        IsAssigned replace out ⊎ IsStripped replace out ⊎ IsUntouched out
    unfolding assign_organize_groups
    assign_organize_groups_lem = by_project (project_error s project_id)

  -- The key of a membership of one of the items in one of the groups.
  abbrev pub IsMeant : ItemType → MembershipKey → Type 0
  IsMeant kind k =
      (k.project_id ≡ project_id)
      × (k.item_type ≡ kind)
      × (contains k.item_id items ≡ true)
      × (contains k.target_id groups ≡ true)

  -- The project is there and not deleted.
  abbrev pub IsOpen : Type 0
  IsOpen =
      (x : Project) × (get s.registry.projects project_id ≡ some x)
      × (x.status ≢ ProjectStatus.deleted)

  -- The memberships of the items in the groups are gone, and no other.
  abbrev pub IsRemoved : Outcome → Type 0
  IsRemoved (result, s') =
      (kind : ItemType) × (parse_item_type p item_type ≡ some kind)
      × (is_ok result ≡ true)
      × ((k : MembershipKey) → IsMeant kind k → get (groups_of s') k ≡ none)
      × ((k : MembershipKey) → ¬ IsMeant kind k → get (groups_of s') k ≡ get (groups_of s) k)
      × IsOpen

  abbrev pub IsRefused : Outcome → Type 0
  IsRefused (result, s') =
      (is_ok result ≡ false) × (s' ≡ s) × ((parse_item_type p item_type ≡ none) ⊎ (¬ IsOpen))

  is_meant :
      (kind : ItemType) (k : MembershipKey)
      → (is_of_targets project_id kind (unique items) (unique groups) k ≡ true) ↔ IsMeant kind k
  is_meant kind k = (
    λ e.
        let n = contains-unique k.item_id items in
        let m = contains-unique k.target_id groups in
        (
          ground (arith, e),
          (item_type_beq_iff k.item_type kind).0 (ground (arith, e)),
          ground (arith, e, n),
          ground (arith, e, m),
        ),
    λ (same, alike, item, group).
        rw
          (
            contains-unique k.item_id items,
            contains-unique k.target_id groups,
            item,
            group,
            same,
            beq_refl project_id,
            (item_type_beq_iff k.item_type kind).1 alike,
          )
          refl,
  )

  open_of_project : project_error s project_id ≡ none → IsOpen
  open_of_project e = elim (Option-cases (get s.registry.projects project_id)) [
    | inl missing ↦ absurd (cc (rw (missing, project_error) at e))
    | inr (x, found) ↦ (x, found, λ gone. absurd (cc (rw (found, project_error, gone) at e)))
  ]

  not_open : (e : Error) → project_error s project_id ≡ some e → ¬ IsOpen
  not_open e refused (x, found, live) = ground (arith, refused, found, live)

  abbrev removing : ItemType → Action (List (MembershipKey × ℕ))
  removing kind s =
      let d =
        without (is_of_targets project_id kind (unique items) (unique groups))
          s.organize.organize_group_memberships in
      (ok (listed project_id (some kind) (some (unique items)) d), put_groups s d)

  remove_by_kind :
      (o : Option ItemType)
      → parse_item_type p item_type ≡ o
      → IsOpen
      → (let out = require_some o organize_validation removing s in IsRemoved out ⊎ IsRefused out)
  remove_by_kind none unknown live = inr (refl, refl, inl unknown)
  remove_by_kind (some kind) parsed live =
      let test = is_of_targets project_id kind (unique items) (unique groups) in
      inl (
        kind,
        parsed,
        refl,
        λ k meant. get-without test (groups_of s) k ∙ rw ((is_meant kind k).1 meant) refl,
        λ k apart. get-without test (groups_of s) k ∙ (elim (Bool-cases (test k)) [
          | inl meant ↦ absurd (apart ((is_meant kind k).0 meant))
          | inr stays ↦ rw stays refl
        ]),
        live,
      )

  remove_by_project :
      (refused : Option Error)
      → project_error s project_id ≡ refused
      → (let out =
            guard refused
              (require_some (parse_item_type p item_type) organize_validation removing)
              s in
          IsRemoved out ⊎ IsRefused out)
  remove_by_project (some e) refused = inr (refl, refl, inr (not_open e refused))
  remove_by_project none open_project =
      remove_by_kind (parse_item_type p item_type) refl (open_of_project open_project)

  -- A removal in a project that is there and not deleted, for a known type of items, ends the memberships
  -- of the items in the groups and no other. Otherwise it raises and changes nothing.
  pub remove_organize_groups_lem :
      let out = remove_organize_groups p project_id item_type items groups s in
      IsRemoved out ⊎ IsRefused out
  unfolding remove_organize_groups
  remove_organize_groups_lem = remove_by_project (project_error s project_id) refl
