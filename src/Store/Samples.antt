-- ===== src/Store/Samples.antt =====
-- The store of a new process, for runs of the operations.
use project_digital_twin.Base.{◌+◌, [], nat_eq, list_eq, pair_eq, option_eq}
use project_digital_twin.Store.Values.{value_eq}
use project_digital_twin.Store.Enums.{representation_eq, item_type_eq, membership_eq}
use project_digital_twin.Store.State.{Store}

-- Identifiers are drawn from 1000 on, and the clock counts.
unfoldable pub empty_store : Store
empty_store = record {
  supply = record { uuid = λ n. 1000 + n; drawn = 0; time = λ n. n; readings = 0 };
  registry = record { projects = []; project_roots = [] };
  design = record { cameras = []; camera_codes = []; revisions = [] };
  operate = record {
    contractors = [];
    work_packages = [];
    field_packages = [];
    observations = [];
    idempotency = [];
  };
  imports = record {
    changesets = [];
    file_import_results = [];
    changeset_idempotency = [];
    file_import_idempotency = [];
    source_assets = [];
    file_asset_versions = [];
    file_asset_payloads = [];
  };
  files = record {
    write_jobs = [];
    writeback_plans = [];
    file_locks = [];
    file_versions = [];
    self_write_hashes = [];
  };
  organize = record {
    organize_groups = [];
    organize_tags = [];
    organize_group_parents = [];
    organize_group_memberships = [];
    organize_tag_memberships = [];
    organize_item_lifecycle = [];
  };
  journal = record {
    outbox = [];
    audit_events = [];
    correlation_by_aggregate = [];
    last_event_by_aggregate = [];
  };
}
