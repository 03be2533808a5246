-- ===== src/Writeback/History.antt =====
-- The versions of a file are a log of distinct contents (apps/server/app/domain.py,
-- `register_file_version`).
use project_digital_twin.Base.{
  ℕ, ◌+◌, ◌≡◌, refl, ◌≢◌, ◌⊎◌, inl, inr, Option, none, some, List, [], ◌∷◌, ◌++◌, arith, Text, get,
  put, ◌==◌, nat_eq, list_eq, pair_eq, option_eq, get_or, length, find, Bool-cases, get-put,
  list_beq_iff, get-put_self, if◌then◌else◌,
}
use project_digital_twin.Store.Values.{value_eq}
use project_digital_twin.Store.State.{FileVersion, FileTables, Store}
use project_digital_twin.Journal.Events.{add_event}
use project_digital_twin.Writeback.Versions.{
  VersionArgs, versions_of, new_version, with_versions, append_version, register_found,
  register_file_version,
}

abbrev pub RevisedFrom : ℕ → List FileVersion → Type 0
RevisedFrom n [] = Unit
RevisedFrom n (v ∷ versions) = (v.revision ≡ n + 1) × RevisedFrom (n + 1) versions

abbrev pub version_with : Text → List FileVersion → Option FileVersion
version_with hash = find (λ (v : FileVersion). v.sha256 == hash)

abbrev pub HaveDistinctHashes : List FileVersion → Type 0
HaveDistinctHashes [] = Unit
HaveDistinctHashes (v ∷ versions) =
    (version_with v.sha256 versions ≡ none) × HaveDistinctHashes versions

-- The versions of each file are numbered from 1, and no two have one content.
pub record IsHistory (t : FileTables) : Type 0 where
  pub revised : (file_id : ℕ) → RevisedFrom 0 (get_or (get t.file_versions file_id) [])
  pub distinct : (file_id : ℕ) → HaveDistinctHashes (get_or (get t.file_versions file_id) [])

RevisedFrom-append :
    (n : ℕ) (versions : List FileVersion) (v : FileVersion)
    → RevisedFrom n versions
    → v.revision ≡ n + length versions + 1
    → RevisedFrom n (versions ++ v ∷ [])
RevisedFrom-append n [] v h e = (omega arith, tt)
RevisedFrom-append n (x ∷ versions) v h e =
    (h.0, RevisedFrom-append (n + 1) versions v h.1 (omega arith))

version_with-append :
    (hash : Text) (versions : List FileVersion) (v : FileVersion)
    → version_with hash (versions ++ v ∷ []) ≡ (elim (version_with hash versions) [
      | none ↦ if v.sha256 == hash then some v else none
      | some w ↦ some w
    ])
version_with-append hash [] v = ground arith
version_with-append hash (x ∷ versions) v = ground (arith, version_with-append hash versions v)

HaveDistinctHashes-append :
    (versions : List FileVersion) (v : FileVersion)
    → HaveDistinctHashes versions
    → version_with v.sha256 versions ≡ none
    → HaveDistinctHashes (versions ++ v ∷ [])
HaveDistinctHashes-append [] v h n = (refl, tt)
HaveDistinctHashes-append (x ∷ versions) v h n = (
  ground (
    arith,
    h.0,
    version_with-append x.sha256 versions v,
    list_beq_iff v.sha256 x.sha256,
    list_beq_iff x.sha256 v.sha256,
  ),
  HaveDistinctHashes-append versions v h.1 (ground arith),
)

module _ (project_id file_id : ℕ) (a : VersionArgs) (s : Store) where
  abbrev pub known : Option FileVersion
  known = version_with a.file_hash (versions_of s file_id)

  abbrev Registered : FileVersion × Store → Type 0
  Registered (v, s') =
      ((known ≡ some v) × (versions_of s' file_id ≡ versions_of s file_id))
      ⊎ ((known ≡ none)
          × (v.sha256 ≡ a.file_hash)
          × (v.revision ≡ length (versions_of s file_id) + 1)
          × (versions_of s' file_id ≡ versions_of s file_id ++ v ∷ []))

  registered :
      (o : Option FileVersion) → known ≡ o → Registered (register_found project_id file_id a o s)
  unfolding add_event
  registered (some w) e = inl (e, rw get-put_self)
  registered none e = inr (e, refl, refl, rw get-put_self)

  -- A content is registered once. One that the file has had returns the version that has it and leaves
  -- all versions as they are; a new one is put behind the others, with the next revision.
  pub register_file_version_lem :
      let (v, s') = register_file_version project_id file_id a s in
      ((known ≡ some v) × (versions_of s' file_id ≡ versions_of s file_id))
      ⊎ ((known ≡ none)
          × (v.sha256 ≡ a.file_hash)
          × (v.revision ≡ length (versions_of s file_id) + 1)
          × (versions_of s' file_id ≡ versions_of s file_id ++ v ∷ []))
  unfolding register_file_version
  register_file_version_lem = registered known refl

  -- A registered content is found among the versions.
  pub version_with-register_file_version :
      let (v, s') = register_file_version project_id file_id a s in
      version_with a.file_hash (versions_of s' file_id) ≡ some v
  version_with-register_file_version = elim register_file_version_lem [
    | inl (e, same) ↦ rw same e
    | inr (n, hash, revision, same) ↦ rw same (
        ground (
          arith,
          version_with-append a.file_hash (versions_of s file_id)
              (register_file_version project_id file_id a s).0,
          list_beq_iff (register_file_version project_id file_id a s).0.sha256 a.file_hash,
        ))
  ]

  others_kept :
      (o : Option FileVersion) (other_id : ℕ)
      → file_id ≢ other_id
      → get (register_found project_id file_id a o s).1.files.file_versions other_id
        ≡ get s.files.file_versions other_id
  unfolding add_event
  others_kept (some w) other_id ne = rw get-put (ground arith)
  others_kept none other_id ne = rw get-put (ground arith)

  -- Registering touches the versions of no other file.
  pub register_file_version_others :
      (other_id : ℕ)
      → file_id ≢ other_id
      → get (register_file_version project_id file_id a s).1.files.file_versions other_id
        ≡ get s.files.file_versions other_id
  unfolding register_file_version
  register_file_version_others other_id ne = others_kept known other_id ne

  put-IsHistory :
      (versions : List FileVersion) (t : FileTables)
      → t.file_versions ≡ put s.files.file_versions file_id versions
      → IsHistory s.files
      → RevisedFrom 0 versions
      → HaveDistinctHashes versions
      → IsHistory t
  put-IsHistory versions t e h revised distinct = record {
    revised = λ i.
        rw (e, get-put)
          (elim (Bool-cases (file_id == i)) [
            | inl same ↦ rw same revised
            | inr no_match ↦ rw no_match (h.revised i)
          ]);
    distinct = λ i.
        rw (e, get-put)
          (elim (Bool-cases (file_id == i)) [
            | inl same ↦ rw same distinct
            | inr no_match ↦ rw no_match (h.distinct i)
          ]);
  }

  found-IsHistory :
      (o : Option FileVersion)
      → known ≡ o
      → IsHistory s.files
      → IsHistory (register_found project_id file_id a o s).1.files
  unfolding add_event
  found-IsHistory (some w) e h =
      put-IsHistory (versions_of s file_id) (with_versions s file_id (versions_of s file_id)).files
        refl h (h.revised file_id) (h.distinct file_id)
  found-IsHistory none e h =
      let versions = versions_of s file_id in
      let v = new_version file_id a (length versions) s in
      put-IsHistory (versions ++ v ∷ []) (append_version project_id file_id a s).1.files refl h
        (RevisedFrom-append 0 versions v (h.revised file_id) (omega arith))
        (HaveDistinctHashes-append versions v (h.distinct file_id) e)

  -- Registering keeps the versions of every file numbered from 1 and distinct.
  pub register_file_version-IsHistory :
      IsHistory s.files → IsHistory (register_file_version project_id file_id a s).1.files
  unfolding register_file_version
  register_file_version-IsHistory h = found-IsHistory known refl h
