-- ===== src/Lib.antt =====
-- A verification library of the server of Project Digital Twin, the Python package
-- apps/server/app. The server keeps a canonical in-memory store (class CameraStore of
-- apps/server/app/domain.py) that routers call, writes an outbox and an audit trail of what it
-- does, and reconciles batches of mutations of offline clients
-- (apps/server/app/shared/reconciler.py).
--
-- Base has what the parts share: Boolean tests, lists, association lists for dict and set,
-- strings as lists of code points, and Platform, the parameter for what the server asks of the
-- operating system and of Unicode (upper, casefold, Path.resolve, Path.is_dir).
--
-- Store is the state: Contracts and Tables are the records of apps/server/app/shared/contracts.py
-- and apps/server/app/modules/*/domain.py, State is CameraStore.__init__, grouped by the part
-- that writes a table. Identifiers and points of time are numbers; uuid4() and utc_now() are the
-- field supply, a sequence of identifiers and of readings with the count of those drawn. That
-- uuid4 gives a new identifier is a hypothesis where it is used. Actions has the methods that may
-- raise: a method takes the store and returns a result beside the store, since what is written
-- before an exception stays written. Messages of exceptions are left out.
--
-- Authorization is apps/server/app/authorization.py: Roles the matrix and authorize, Scope who
-- may do what.
--
-- Journal is _add_event, changes_after and query_audit: Events the operations, Cursors the
-- numbering of events and polling, Chains correlation and causation, Log the outbox as an
-- append-only log.
--
-- Projects is create_project, archive_project, restore_project and delete_project: Codes and
-- Naming the codes P-001, P-002, ... and the search for a free one (on fuel, one round more than
-- there are projects: each round that fails meets the code of another project), Lifecycle the
-- operations, Registry the invariant of roots and codes, Moves its preservation, Commands all
-- sequences of operations, Creation what a creation does.
--
-- Design is the cameras: Cameras the payload of a camera and its assignment field by field,
-- Revisions is _append_revision, current_revision, import_camera and update_geometry, Merging the
-- first loop of approve_file_import_changeset (the three-way merge), Approval its second loop and
-- what surrounds it, Review is edit_file_import_changeset, reject_file_import_changeset and
-- mark_changeset_conflict_review. Numbering, Threeway, Approved, Settled and Edits are about
-- these. A field of a camera may have any value, since an edit does not check it; a value that is
-- no key of a dict (a list under code) is taken as one.
--
-- Operate is the work in the field: Packages is create_contractor, create_work_package and
-- create_field_package, Observations is submit_observation, AsBuilt is approve_changeset,
-- Dashboard is dashboard; Retries, Approvals and Closed are about these.
--
-- Organize is groups, tags, memberships and the lifecycle of items: Names is normalize_text and
-- the parsing of item types and states, Guards the checks that raise, Memberships the assignment
-- and removal for groups and tags, Items is create_organize_tag, set_organize_item_status,
-- restore_organize_items and validate_organize_membership_targets; Removal and Assignment are
-- about Memberships. Hierarchy is the graph of groups and their parents with
-- _would_create_organize_cycle (on fuel, one round for each given parent and each edge), Groups
-- create_organize_group, rename_organize_group, update_organize_group, move_organize_group,
-- set_organize_group_status and delete_organize_group; Cycles is about the search, Acyclic,
-- Forest and Detached about the two tables of groups, Rules, Kept and Moves about the operations.
-- In move_organize_group and update_organize_group a set is changed while a generator reads it,
-- which in CPython raises a RuntimeError; the model has the exception and the edge that is gone
-- by then. A set of identifiers is the list of its first occurrences, since Python leaves its
-- order open; lists of memberships come back unsorted.
--
-- Writeback is the write-back of files: Versions is register_file_version, Jobs is
-- create_write_job and fail_write_job with the locks and the status of plans, Completion is
-- complete_write_job, Restore is create_restore_job, Plans is execute_organize_writeback with
-- _writeback_file_evidence. The disk is an argument of the completion, a function from paths to
-- the hash of the file there. Locks and Exclusion are the invariant of locks, Commands all
-- sequences of operations on jobs, Permission when a completion is allowed, Outcomes what it
-- does, Final is about applied jobs, History the versions of a file, Drift what an exact restore
-- leaves behind, Waiting the jobs of a confirmation while it creates them, Queueing what holds of
-- jobs and locks through it, Readiness the files that a plan can be confirmed for, Holding and
-- Confirming what the confirmation of a plan does to jobs and locks.
--
-- Persistence is the encoding of the state in apps/server/app/persistence.py: Values the Python
-- values and JSON documents, Encoding is _encode and encode_store_state, Decoding is _decode and
-- decode_store_state, RoundTrip about both. The registry of dataclasses is a parameter; a string
-- is the text of an identifier, of a point of time, or another text.
--
-- Adapters is the reading of workbooks (apps/server/app/adapters/files/importers/excel.py and
-- mapping.py, apps/server/app/shared/normalization.py): Cells is CellOps, the parameter for str,
-- float and digits, Normalization is normalize_ip and normalize_coordinate, CameraRows is
-- parse_camera_rows, Scan is scan_workbook over the sheets that openpyxl gives, Profiles is
-- _region_for_profile, _profile_rows and parse_camera_workbook_for_import; Bounds, Rows and
-- Regions are about these. Outcomes is ValueOps, the parameter for conversions of values and
-- regular expressions, with the exceptions and the texts of Python, Transforms is
-- infer_data_type, apply_transform and _convert, Mapping is map_record and infer_schema_field,
-- Candidates is identity_candidates; Settling and MappedRecords are about the mapping of a row,
-- Ranking about the candidates.
--
-- Reconciler is ReconciliationEngine: Records its state, Merging reconcile_batch, Resolving
-- resolve_conflict and the lists of conflicts, Fields and Items what an item does to the fields
-- of its entity, Batches whole batches and replays, Coherence the invariant of field timestamps,
-- Resolution what a decision on a conflict does.
--
-- Not modelled: the submission of imports (create_file_import_changeset,
-- create_document_import_changeset, sync_file_assets), the parsing of documents, the preview of a
-- write-back (create_organize_excel_preview), texts of a UUID other than the canonical one (upper
-- case, braces, no hyphens), the OverflowError of float, which counts as an invalid number,
-- authentication, the database session, the HTTP layer, the web and desktop clients.
pub mod Base
pub mod Authorization
pub mod Reconciler
pub mod Store
pub mod Journal
pub mod Projects
pub mod Design
pub mod Operate
pub mod Organize
pub mod Writeback
pub mod Persistence
pub mod Adapters
