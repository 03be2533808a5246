-- ===== src/Store/State.antt =====
-- `CameraStore.__init__` (apps/server/app/domain.py): the tables of the store, grouped by the parts of
-- the program that write them. `Supply` stands for `uuid4` and for the clock: `uuid n` is the n-th
-- identifier drawn and `time n` the n-th reading.
use project_digital_twin.Base.{
  ℕ, ◌+◌, Bool, ◌&&◌, Option, List, Text, Dict, ◌==◌, nat_eq, list_eq, pair_eq, option_eq, length,
}
use project_digital_twin.Store.Values.{Value, value_eq}
use project_digital_twin.Store.Contracts.{
  Representation, EntityRevision, ChangeSet, OutboxEvent, AuditEvent, Operation, FileWriteJob,
  ItemType, WriteBackPreviewPlan,
}
use project_digital_twin.Store.Tables.{
  Project, Camera, ImportResult, Contractor, WorkPackage, FieldPackage, Observation, OrganizeGroup,
  OrganizeTag, MembershipKey, LifecycleStatus,
}

pub record Supply : Type 0 where
  pub uuid : ℕ → ℕ
  pub drawn : ℕ
  pub time : ℕ → ℕ
  pub readings : ℕ

pub record ProjectTables : Type 0 where
  pub projects : Dict ℕ Project
  pub project_roots : Dict Text ℕ

pub record DesignTables : Type 0 where
  pub cameras : Dict ℕ Camera
  pub camera_codes : Dict (ℕ × Value) ℕ
  pub revisions : Dict (ℕ × Representation) (List EntityRevision)

pub record OperateTables : Type 0 where
  pub contractors : Dict ℕ Contractor
  pub work_packages : Dict ℕ WorkPackage
  pub field_packages : Dict ℕ FieldPackage
  pub observations : Dict ℕ Observation
  pub idempotency : Dict Text ℕ

pub record ImportTables : Type 0 where
  pub changesets : Dict ℕ ChangeSet
  pub file_import_results : Dict ℕ ImportResult
  pub changeset_idempotency : Dict Text ℕ
  pub file_import_idempotency : Dict (ℕ × ℕ × Text) ℕ
  pub source_assets : Dict ℕ Value
  pub file_asset_versions : Dict (ℕ × Text × ℕ) Text
  pub file_asset_payloads : Dict (ℕ × Text × ℕ) Value

-- An entry of `file_versions`.
pub record FileVersion : Type 0 where
  pub id : ℕ
  pub file_id : ℕ
  pub revision : ℕ
  pub sha256 : Text
  pub size : ℕ
  pub actor : Text
  pub operation : Operation
  pub source_path : Option Text
  pub created_at : ℕ

pub record FileTables : Type 0 where
  pub write_jobs : Dict ℕ FileWriteJob
  pub writeback_plans : Dict ℕ WriteBackPreviewPlan
  pub file_locks : Dict ℕ ℕ
  pub file_versions : Dict ℕ (List FileVersion)
  pub self_write_hashes : List (ℕ × Text)

pub record OrganizeTables : Type 0 where
  pub organize_groups : Dict ℕ OrganizeGroup
  pub organize_tags : Dict ℕ OrganizeTag
  pub organize_group_parents : List (ℕ × ℕ)
  pub organize_group_memberships : Dict MembershipKey ℕ
  pub organize_tag_memberships : Dict MembershipKey ℕ
  pub organize_item_lifecycle : Dict (ℕ × (ItemType × ℕ)) LifecycleStatus

pub record Journal : Type 0 where
  pub outbox : List OutboxEvent
  pub audit_events : List AuditEvent
  pub correlation_by_aggregate : Dict ℕ ℕ
  pub last_event_by_aggregate : Dict ℕ ℕ

pub record Store : Type 0 where
  pub supply : Supply
  pub registry : ProjectTables
  pub design : DesignTables
  pub operate : OperateTables
  pub imports : ImportTables
  pub files : FileTables
  pub organize : OrganizeTables
  pub journal : Journal

-- `uuid4()` and `utc_now()`: the value, and the supply without it
abbrev pub next_uuid : Store → ℕ
next_uuid s = s.supply.uuid s.supply.drawn

abbrev pub next_time : Store → ℕ
next_time s = s.supply.time s.supply.readings

abbrev pub draw : Store → Store
draw s = record s { supply = record (s.supply) { drawn = s.supply.drawn + 1 } }

abbrev pub tick : Store → Store
tick s = record s { supply = record (s.supply) { readings = s.supply.readings + 1 } }

-- `is_empty`
pub is_empty : Store → Bool
is_empty s =
    length s.registry.projects == 0
    && length s.design.cameras == 0
    && length s.operate.contractors == 0
    && length s.operate.work_packages == 0
    && length s.operate.field_packages == 0
    && length s.operate.observations == 0
    && length s.organize.organize_groups == 0
    && length s.organize.organize_tags == 0
