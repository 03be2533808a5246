-- ===== src/Organize/Guards.antt =====
-- The checks on projects, items, groups and tags: the exception, if any (apps/server/app/domain.py).
use project_digital_twin.Base.{
  ℕ, not, Option, none, some, List, [], ◌∷◌, get, ◌==◌, nat_eq, list_eq, pair_eq, option_eq, keep,
  if◌then◌else◌,
}
use project_digital_twin.Store.Values.{value_eq}
use project_digital_twin.Store.Contracts.{ItemType}
use project_digital_twin.Store.Tables.{ProjectStatus}
use project_digital_twin.Store.Enums.{representation_eq, item_type_eq, membership_eq}
use project_digital_twin.Store.State.{Store}
use project_digital_twin.Store.Actions.{Error, key_error, organize_conflict, err, Action}

-- `_require_organize_project`
abbrev pub project_error : Store → ℕ → Option Error
project_error s project_id = elim (get s.registry.projects project_id) [
  | none ↦ some key_error
  | some x ↦ elim x.status [ ProjectStatus.deleted ↦ some organize_conflict | _ ↦ none ]
]

-- An item that is a camera of another project.
abbrev pub item_error : Store → ℕ → ℕ → Option Error
item_error s project_id item_id = elim (get s.design.cameras item_id) [
  | none ↦ none
  | some x ↦ if x.project_id == project_id then none else some organize_conflict
]

-- The loops over a set raise at the first member that is refused.
unfoldable pub first_error : (ℕ → Option Error) → List ℕ → Option Error
first_error check [] = none
first_error check (id ∷ ids) =
    let rest = first_error check ids in elim (check id) [ none ↦ rest | some e ↦ some e ]

-- `_organize_items`
abbrev pub items_error : Store → ℕ → ItemType → List ℕ → Option Error
items_error s project_id ItemType.entity item_ids = first_error (item_error s project_id) item_ids
items_error s project_id _ item_ids = none

-- `_organize_group`
abbrev pub group_error : Store → ℕ → ℕ → Option Error
group_error s project_id group_id = elim (get s.organize.organize_groups group_id) [
  | none ↦ some key_error
  | some x ↦ if x.project_id == project_id then none else some organize_conflict
]

-- `_organize_tag`
abbrev pub tag_error : Store → ℕ → ℕ → Option Error
tag_error s project_id tag_id = elim (get s.organize.organize_tags tag_id) [
  | none ↦ some key_error
  | some x ↦ if x.project_id == project_id then none else some organize_conflict
]

-- Raise the exception, if there is one.
abbrev pub guard {ℓ} : {A : Type ℓ} → Option Error → Action A → Action A
guard none rest s = rest s
guard (some e) rest s = (err e, s)

-- `set(ids)`: Python leaves the order of a set open, here the first occurrences keep theirs.
unfoldable pub unique : List ℕ → List ℕ
unique [] = []
unique (id ∷ ids) = id ∷ keep (λ i. not (i == id)) (unique ids)
