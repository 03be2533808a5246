-- ===== src/Organize/Removal.antt =====
-- What an assignment and a removal leave of the memberships (apps/server/app/domain.py).
use project_digital_twin.Base.{
  ℕ, ◌≡◌, ap, ◌∙◌, inl, inr, Bool, ◌&&◌, ◌||◌, none, List, [], ◌∷◌, arith, get, contains, ◌==◌,
  nat_eq, list_eq, pair_eq, option_eq, is_some, Bool-cases, get-cons, get-put, if◌then◌else◌,
}
use project_digital_twin.Store.Values.{value_eq}
use project_digital_twin.Store.Contracts.{ItemType}
use project_digital_twin.Store.Tables.{MembershipKey}
use project_digital_twin.Store.Enums.{
  representation_eq, item_type_beq, item_type_beq_iff, item_type_eq, membership_beq,
  membership_beq_iff, membership_eq,
}
use project_digital_twin.Store.State.{Store, next_time}
use project_digital_twin.Organize.Memberships.{
  Membership, is_of_targets, without, enter, enter_targets, enter_items, membership_of,
}

pub get-without :
    (p : MembershipKey → Bool) (d : Membership) (k : MembershipKey)
    → get (without p d) k ≡ (if p k then none else get d k)
unfolding get without
get-without p [] k = ground arith
get-without p ((j, t) ∷ d) k = elim (Bool-cases (j == k)) [
  | inl same ↦
      let e = (membership_beq_iff j k).0 same in
      ground (arith, get-cons (without p d) j k t, get-without p d k, same, ap p e)
  | inr differs ↦ ground (arith, get-cons (without p d) j k t, get-without p d k, differs)
]

-- `b` or a key that is there already.
enter-get :
    (key : MembershipKey) (m : Membership × Store) (k : MembershipKey)
    → is_some (get (enter key m).0 k) ≡ (key == k || is_some (get m.0 k))
enter-get key m k = elim (Bool-cases (key == k)) [
  | inl same ↦
      let e = (membership_beq_iff key k).0 same in
      ground (arith, get-put m.0 key k (next_time m.1), same, ap (get m.0) e)
  | inr differs ↦ ground (arith, get-put m.0 key k (next_time m.1), differs)
]

module _ (project_id : ℕ) (kind : ItemType) where
  -- A key of the item.
  abbrev is_of_item : ℕ → List ℕ → MembershipKey → Bool
  is_of_item item targets key =
      key.project_id == project_id
      && (item_type_beq key.item_type kind
          && (item == key.item_id && contains key.target_id targets))

  enter_targets-get :
      (item : ℕ) (targets : List ℕ) (m : Membership × Store) (k : MembershipKey)
      → is_some (get (enter_targets project_id kind item targets m).0 k)
        ≡ (is_of_item item targets k || is_some (get m.0 k))
  unfolding enter_targets contains membership_beq
  enter_targets-get item [] m k = ground arith
  enter_targets-get item (target ∷ targets) m k =
      enter_targets-get item targets (enter (membership_of project_id kind item target) m) k
      ∙ rw enter-get
          (ground (arith, item_type_beq_iff k.item_type kind, item_type_beq_iff kind k.item_type))

  pub enter_items-get :
      (items targets : List ℕ) (m : Membership × Store) (k : MembershipKey)
      → is_some (get (enter_items project_id kind items targets m).0 k)
        ≡ (is_of_targets project_id kind items targets k || is_some (get m.0 k))
  unfolding enter_items contains
  enter_items-get [] targets m k = ground arith
  enter_items-get (item ∷ items) targets m k =
      enter_items-get items targets (enter_targets project_id kind item targets m) k
      ∙ ground (arith, enter_targets-get item targets m k)
