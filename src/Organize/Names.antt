-- ===== src/Organize/Names.antt =====
-- Names, item types and states as the callers write them (apps/server/app/domain.py,
-- apps/server/app/shared/normalization.py).
use project_digital_twin.Base.{
  Option, none, some, [], ◌∷◌, Text, text, is_space, strip, strip_left, Platform, ◌==◌, nat_eq,
  list_eq, pair_eq, option_eq, if◌then◌else◌,
}
use project_digital_twin.Store.Values.{value_eq}
use project_digital_twin.Store.Contracts.{ItemType}
use project_digital_twin.Store.Tables.{LifecycleStatus}
use project_digital_twin.Store.Enums.{representation_eq, item_type_eq, membership_eq}
use project_digital_twin.Store.Actions.{organize_validation, Result, ok, err}

-- `" ".join(s.split())`, up to a leading space.
unfoldable pub squeeze : Text → Text
squeeze [] = []
squeeze (c ∷ cs) =
    let rest = squeeze cs in
    if is_space c
    then (elim rest [ [] ↦ [] | d ∷ ds ↦ if d == 32 then d ∷ ds else 32 ∷ d ∷ ds ])
    else c ∷ rest

-- `normalize_text` of a text
unfoldable pub normalize_text : Text → Option Text
unfolding squeeze strip_left is_space
normalize_text s = let t = strip_left (squeeze s) in if t == [] then none else some t

-- `_organize_name`
abbrev pub organize_name : Text → Result Text
organize_name s = elim (normalize_text s) [ none ↦ err organize_validation | some t ↦ ok t ]

module _ (p : Platform) where
  -- `_organize_item_type`
  unfoldable pub parse_item_type : Text → Option ItemType
  parse_item_type item_type =
      let wanted = p.upper (strip item_type) in
      if wanted == text "ENTITY"
      then some ItemType.entity
      else if wanted == text "SOURCE_FILE"
      then some ItemType.source_file
      else if wanted == text "IMPORT"
      then some ItemType.import
      else none

  -- The status of `set_organize_item_status`.
  unfoldable pub parse_lifecycle : Text → Option LifecycleStatus
  parse_lifecycle status =
      let wanted = p.upper (strip status) in
      if wanted == text "ACTIVE"
      then some LifecycleStatus.active
      else if wanted == text "ARCHIVED"
      then some LifecycleStatus.archived
      else if wanted == text "DELETED"
      then some LifecycleStatus.deleted
      else none
