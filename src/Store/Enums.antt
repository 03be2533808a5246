-- ===== src/Store/Enums.antt =====
-- Equality tests of the enumerations.
use project_digital_twin.Base.{
  ◌≡◌, ◌↔◌, Bool, true, false, ◌&&◌, arith, ◌==◌, Key, nat_eq, list_eq, pair_eq, option_eq,
}
use project_digital_twin.Store.Contracts.{Representation, ItemType}
use project_digital_twin.Store.Tables.{MembershipKey}

unfoldable pub representation_beq : Representation → Representation → Bool
representation_beq Representation.designed Representation.designed = true
representation_beq Representation.as_built Representation.as_built = true
representation_beq Representation.document Representation.document = true
representation_beq Representation.file Representation.file = true
representation_beq _ _ = false

pub representation_beq_iff : (a b : Representation) → (representation_beq a b ≡ true) ↔ (a ≡ b)
unfolding representation_beq
representation_beq_iff Representation.designed Representation.designed = ground arith
representation_beq_iff Representation.designed Representation.as_built = ground arith
representation_beq_iff Representation.designed Representation.document = ground arith
representation_beq_iff Representation.designed Representation.file = ground arith
representation_beq_iff Representation.as_built Representation.designed = ground arith
representation_beq_iff Representation.as_built Representation.as_built = ground arith
representation_beq_iff Representation.as_built Representation.document = ground arith
representation_beq_iff Representation.as_built Representation.file = ground arith
representation_beq_iff Representation.document Representation.designed = ground arith
representation_beq_iff Representation.document Representation.as_built = ground arith
representation_beq_iff Representation.document Representation.document = ground arith
representation_beq_iff Representation.document Representation.file = ground arith
representation_beq_iff Representation.file Representation.designed = ground arith
representation_beq_iff Representation.file Representation.as_built = ground arith
representation_beq_iff Representation.file Representation.document = ground arith
representation_beq_iff Representation.file Representation.file = ground arith

instance abbrev pub representation_eq : Key Representation
representation_eq = record { eqb_iff = representation_beq_iff; eqb = representation_beq }

unfoldable pub item_type_beq : ItemType → ItemType → Bool
item_type_beq ItemType.entity ItemType.entity = true
item_type_beq ItemType.source_file ItemType.source_file = true
item_type_beq ItemType.import ItemType.import = true
item_type_beq _ _ = false

pub item_type_beq_iff : (a b : ItemType) → (item_type_beq a b ≡ true) ↔ (a ≡ b)
unfolding item_type_beq
item_type_beq_iff ItemType.entity ItemType.entity = ground arith
item_type_beq_iff ItemType.entity ItemType.source_file = ground arith
item_type_beq_iff ItemType.entity ItemType.import = ground arith
item_type_beq_iff ItemType.source_file ItemType.entity = ground arith
item_type_beq_iff ItemType.source_file ItemType.source_file = ground arith
item_type_beq_iff ItemType.source_file ItemType.import = ground arith
item_type_beq_iff ItemType.import ItemType.entity = ground arith
item_type_beq_iff ItemType.import ItemType.source_file = ground arith
item_type_beq_iff ItemType.import ItemType.import = ground arith

instance abbrev pub item_type_eq : Key ItemType
item_type_eq = record { eqb_iff = item_type_beq_iff; eqb = item_type_beq }

unfoldable pub membership_beq : MembershipKey → MembershipKey → Bool
membership_beq a b =
    a.project_id == b.project_id
    && a.item_type == b.item_type
    && a.item_id == b.item_id
    && a.target_id == b.target_id

pub membership_beq_iff : (a b : MembershipKey) → (membership_beq a b ≡ true) ↔ (a ≡ b)
unfolding membership_beq
membership_beq_iff a b = ground (arith, item_type_beq_iff a.item_type b.item_type)

instance abbrev pub membership_eq : Key MembershipKey
membership_eq = record { eqb_iff = membership_beq_iff; eqb = membership_beq }
