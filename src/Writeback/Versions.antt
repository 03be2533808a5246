-- ===== src/Writeback/Versions.antt =====
-- `register_file_version`, `is_self_write` and `record_self_write_suppression`
-- (apps/server/app/domain.py).
use project_digital_twin.Base.{
  ℕ, ◌+◌, Bool, true, Option, none, some, List, [], ◌∷◌, ◌++◌, Text, text, get, put, contains, ◌==◌,
  nat_eq, list_eq, pair_eq, option_eq, get_or, length, find,
}
use project_digital_twin.Store.Values.{flag, str, uuid, value_eq}
use project_digital_twin.Store.Contracts.{Operation}
use project_digital_twin.Store.State.{FileVersion, Store, next_uuid, next_time, draw, tick}
use project_digital_twin.Journal.Events.{EventArgs, quiet, add_event}

-- The arguments of `register_file_version` behind the project and the file.
pub record VersionArgs : Type 0 where
  pub file_hash : Text
  pub size : ℕ
  pub actor : Text
  pub operation : Operation
  pub source_path : Option Text

abbrev pub operation_text : Operation → Text
operation_text Operation.write_back = text "WRITE_BACK"
operation_text Operation.restore = text "RESTORE"

abbrev pub versions_of : Store → ℕ → List FileVersion
versions_of s file_id = get_or (get s.files.file_versions file_id) []

abbrev pub new_version : ℕ → VersionArgs → ℕ → Store → FileVersion
new_version file_id a count s = record {
  id = next_uuid s;
  file_id = file_id;
  revision = count + 1;
  sha256 = a.file_hash;
  size = a.size;
  actor = a.actor;
  operation = a.operation;
  source_path = a.source_path;
  created_at = next_time s;
}

abbrev pub version_event : ℕ → ℕ → VersionArgs → ℕ → EventArgs
version_event project_id file_id a revision =
    record (quiet (text "FileVersionRegistered") file_id project_id revision (
      (text "file_id", uuid file_id)
      ∷ (text "sha256", str a.file_hash)
      ∷ (text "operation", str (operation_text a.operation))
      ∷ [])) { actor = a.actor; file_id = some file_id; status = some (text "REGISTERED") }

abbrev pub with_versions : Store → ℕ → List FileVersion → Store
with_versions s file_id versions = record s {
  files = record (s.files) { file_versions = put s.files.file_versions file_id versions };
}

-- `versions.append(version)` and the event
abbrev pub append_version : ℕ → ℕ → VersionArgs → Store → FileVersion × Store
append_version project_id file_id a s =
    let versions = versions_of s file_id in
    let v = new_version file_id a (length versions) s in
    (
      v,
      add_event (version_event project_id file_id a v.revision)
          (with_versions (tick (draw s)) file_id (versions ++ v ∷ [])),
    )

-- A content that the file has had before is no new version. `setdefault` makes the list either way.
abbrev pub register_found : ℕ → ℕ → VersionArgs → Option FileVersion → Store → FileVersion × Store
register_found project_id file_id a (some v) s =
    (v, with_versions s file_id (versions_of s file_id))
register_found project_id file_id a none s = append_version project_id file_id a s

unfoldable pub register_file_version : ℕ → ℕ → VersionArgs → Store → FileVersion × Store
register_file_version project_id file_id a s =
    register_found project_id file_id a
      (find (λ (v : FileVersion). v.sha256 == a.file_hash) (versions_of s file_id)) s

unfoldable pub is_self_write : Store → ℕ → Text → Bool
is_self_write s file_id file_hash = contains (file_id, file_hash) s.files.self_write_hashes

unfoldable pub record_self_write_suppression : ℕ → ℕ → Text → Text → Store → Store
record_self_write_suppression project_id file_id file_hash actor =
    add_event
      (record (quiet (text "SelfWriteSuppressed") file_id project_id 1 (
        (text "file_id", uuid file_id)
        ∷ (text "file_hash", str file_hash)
        ∷ (text "suppressed", flag true)
        ∷ [])) { actor = actor; file_id = some file_id; status = some (text "SUPPRESSED") })
