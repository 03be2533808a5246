-- ===== src/Store/Contracts.antt =====
-- The shared records of apps/server/app/shared/contracts.py. UUIDs and points of time are numbers.
use project_digital_twin.Base.{ℕ, Bool, Option, List, Text, nat_eq, list_eq, pair_eq, option_eq}
use project_digital_twin.Store.Values.{Value, Fields, value_eq}

pub record SourceLocator : Type 0 where
  pub file_id : ℕ
  pub file_revision : ℕ
  pub sheet : Text
  pub row : ℕ
  pub column : Text

-- The representations of an entity that the program names.
pub data Representation : Type 0 where
  designed as_built document file : Representation

pub record EntityRevision : Type 0 where
  pub id : ℕ
  pub entity_id : ℕ
  pub representation : Representation
  pub revision : ℕ
  pub content : Fields
  pub geometry : Option (Value × Value)
  pub created_at : ℕ
  pub created_by : Text
  pub changeset_id : Option ℕ

pub data Origin : Type 0 where
  file_import document_import operate_field file_restore : Origin

pub data ChangeSetStatus : Type 0 where
  pending_approval rejected conflict_review conflict approved applied : ChangeSetStatus

-- An entry of `changeset.items`.
pub record ChangeItem : Type 0 where
  pub entity_id : ℕ
  pub record_identity : Text
  pub source_locator : Option SourceLocator
  pub base_revision : ℕ
  pub base_payload : Fields
  pub patch : Fields

-- The three values of a field on which a merge fails.
pub record FieldConflict : Type 0 where
  pub field : Text
  pub base : Value
  pub server : Value
  pub local : Value

-- An entry of `changeset.conflicts`: the fields of an entity, or a reason given by the caller.
pub data Conflict : Type 0 where
  on_entity : ℕ → List FieldConflict → Conflict
  reason : Value → Conflict

pub record ChangeSet : Type 0 where
  pub id : ℕ
  pub project_id : ℕ
  pub origin : Origin
  pub submitted_by : Text
  pub submitted_at : ℕ
  pub status : ChangeSetStatus
  pub entity_id : ℕ
  pub representation : Representation
  pub base_revision : ℕ
  pub patch : Fields
  pub file_id : Option ℕ
  pub file_revision : Option ℕ
  pub file_hash : Option Text
  pub items : List ChangeItem
  pub raw_rows : List Fields
  pub conflicts : List Conflict
  pub document_assets : List Value
  pub relationship_proposals : List Value
  pub document_tables : List Value
  pub document_mapped_tables : List Value
  pub parse_report : Value

pub record OutboxEvent : Type 0 where
  pub cursor : ℕ
  pub event_id : ℕ
  pub event_type : Text
  pub aggregate_id : ℕ
  pub aggregate_version : ℕ
  pub project_id : ℕ
  pub payload : Fields
  pub occurred_at : ℕ

pub record FieldChange : Type 0 where
  pub field : Text
  pub before : Value
  pub after : Value

pub record AuditEvent : Type 0 where
  pub id : ℕ
  pub project_id : ℕ
  pub event_id : ℕ
  pub event_type : Text
  pub operation : Text
  pub actor : Text
  pub occurred_at : ℕ
  pub file_id : Option ℕ
  pub object_id : ℕ
  pub profile_id : Option Text
  pub changeset_id : Option ℕ
  pub status : Option Text
  pub correlation_id : ℕ
  pub causation_id : Option ℕ
  pub field_changes : List FieldChange
  pub duration_ms : Option ℕ

pub data JobStatus : Type 0 where
  pending applied failed conflict : JobStatus

pub data Operation : Type 0 where
  write_back restore : Operation

pub data DestinationMode : Type 0 where
  in_place new_file : DestinationMode

pub data BatchStrategy : Type 0 where
  per_file all_or_nothing : BatchStrategy

pub record FileWriteJob : Type 0 where
  pub id : ℕ
  pub project_id : ℕ
  pub file_id : ℕ
  pub expected_file_revision : ℕ
  pub entity_revision : ℕ
  pub status : JobStatus
  pub operation : Operation
  pub expected_file_hash : Option Text
  pub source_path : Option Text
  pub source_file_revision : Option ℕ
  pub changeset_id : Option ℕ
  pub result_file_revision : Option ℕ
  pub result_file_hash : Option Text
  pub backup_path : Option Text
  pub plan_id : Option ℕ
  pub destination_mode : DestinationMode
  pub destination_path : Option Text
  pub batch_strategy : BatchStrategy
  pub confirmed : Bool
  pub safety_enforced : Bool

pub data PlanStatus : Type 0 where
  preview queued applied failed conflict : PlanStatus

pub data ItemType : Type 0 where
  entity source_file import : ItemType

-- An entry of `plan.files`: what confirming the plan reads of it.
pub record FilePlan : Type 0 where
  pub file_id : ℕ
  pub expected_revision : Option ℕ
  pub expected_sha256 : Option Text
  pub source_path : Option Text
  pub destination_path : Option Text
  pub destination_mode : DestinationMode
  pub changed_items : List (ItemType × ℕ)

pub record WriteBackPreviewPlan : Type 0 where
  pub id : ℕ
  pub project_id : ℕ
  pub created_by : Text
  pub created_at : ℕ
  pub item_type : ItemType
  pub item_ids : List ℕ
  pub format : Text
  pub destination_mode : DestinationMode
  pub batch_strategy : BatchStrategy
  pub status : PlanStatus
  pub confirmation_required : Bool
  pub can_confirm : Bool
  pub write_performed : Bool
  pub files : List FilePlan
  pub warnings : List Text
