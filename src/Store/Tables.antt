-- ===== src/Store/Tables.antt =====
-- The records of the modules' domains (apps/server/app/modules/*/domain.py).
use project_digital_twin.Base.{ℕ, Option, List, Text, nat_eq, list_eq, pair_eq, option_eq}
use project_digital_twin.Store.Values.{Value, value_eq}
use project_digital_twin.Store.Contracts.{SourceLocator, ItemType}

pub data ProjectStatus : Type 0 where
  active archived deleted : ProjectStatus

-- modules/project/domain.py
pub record Project : Type 0 where
  pub id : ℕ
  pub code : Text
  pub name : Text
  pub root_path : Text
  pub status : ProjectStatus
  pub schema_version : ℕ
  pub created_at : ℕ
  pub updated_at : ℕ

-- modules/datacenter/domain.py. An edit of a change set may put any value under a field of a camera, and
-- Python does not check it, so these fields are values; only `UUID(…)` is known to be an identifier.
pub record Camera : Type 0 where
  pub entity_id : ℕ
  pub project_id : ℕ
  pub code : Value
  pub name : Value
  pub intersection_id : Option ℕ
  pub manufacturer : Value
  pub model : Value
  pub ip_address : Value
  pub status : Value
  pub properties : Value
  pub source : Option SourceLocator

pub record ImportIssue : Type 0 where
  pub code : Text
  pub message : Text
  pub row : ℕ
  pub column : Option Text

pub record ImportResult : Type 0 where
  pub inserted : List Camera
  pub changed : List Camera
  pub unchanged : List Camera
  pub invalid : List ImportIssue
  pub conflict : List ImportIssue
  pub unmapped : List ImportIssue

-- modules/operate/domain.py; the states are the only ones that the program gives these records
pub record Contractor : Type 0 where
  pub id : ℕ
  pub project_id : ℕ
  pub code : Text
  pub name : Text
  pub status : Text

pub record WorkPackage : Type 0 where
  pub id : ℕ
  pub project_id : ℕ
  pub contractor_id : ℕ
  pub code : Text
  pub name : Text
  pub entity_ids : List ℕ
  pub status : Text

pub record FieldPackage : Type 0 where
  pub id : ℕ
  pub project_id : ℕ
  pub work_package_id : ℕ
  pub entity_ids : List ℕ
  pub status : Text

pub record Observation : Type 0 where
  pub id : ℕ
  pub project_id : ℕ
  pub field_package_id : ℕ
  pub entity_id : ℕ
  pub base_revision : ℕ
  pub observed_at : ℕ
  pub operator_id : Text
  pub gps : Value
  pub form_data : Value
  pub status : Text
  pub changeset_id : ℕ
  pub idempotency_key : Text

-- modules/organize/domain.py
pub data GroupStatus : Type 0 where
  active archived : GroupStatus

pub record OrganizeGroup : Type 0 where
  pub id : ℕ
  pub project_id : ℕ
  pub name : Text
  pub parent_ids : List ℕ
  pub status : GroupStatus
  pub created_at : ℕ
  pub updated_at : ℕ

pub record OrganizeTag : Type 0 where
  pub id : ℕ
  pub project_id : ℕ
  pub name : Text
  pub created_at : ℕ

-- The key of a membership: project, item type, item, and the group or the tag.
pub record MembershipKey : Type 0 where
  pub project_id : ℕ
  pub item_type : ItemType
  pub item_id : ℕ
  pub target_id : ℕ

pub data LifecycleStatus : Type 0 where
  active archived deleted : LifecycleStatus
