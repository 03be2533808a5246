-- ===== src/Design/Threeway.antt =====
-- What a three-way merge of fields keeps and refuses (apps/server/app/domain.py,
-- `approve_file_import_changeset`).
use project_digital_twin.Base.{
  ◌≡◌, refl, sym, ◌∙◌, ◌≢◌, inl, inr, false, Option, none, some, List, [], ◌∷◌, ◌++◌, arith, Text,
  get, ◌==◌, nat_eq, list_eq, pair_eq, option_eq, Bool-cases, get-cons, get-put, list_beq_iff,
  get-empty, IsDict, if◌then◌else◌,
}
use mathlib.Core.List.{append-nil, append_assoc}
use project_digital_twin.Store.Values.{Value, Fields, field_of, value_eq, value_iff}
use project_digital_twin.Store.Contracts.{FieldConflict}
use project_digital_twin.Store.Enums.{representation_eq, item_type_eq, membership_eq}
use project_digital_twin.Design.Merging.{FieldMerge, clash, merge_value, merge_values}

module _ (base server : Fields) where
  abbrev conflict_at : Text → Value → FieldConflict
  conflict_at name client = record {
    field = name;
    base = field_of base name;
    server = field_of server name;
    local = client;
  }

  -- The fields of the patch on which both sides have made different changes.
  unfoldable pub conflicts_of : Fields → List FieldConflict
  conflicts_of [] = []
  conflicts_of ((name, client) ∷ rest) =
      let others = conflicts_of rest in
      if clash (field_of base name) (field_of server name) client
      then conflict_at name client ∷ others
      else others

  -- What a field of the merge is.
  abbrev pub three_way : (base server : Value) → Option Value → Option Value → Option Value
  three_way b v none old = old
  three_way b v (some client) old = if v == b then some client else old

  merge_values-conflicts :
      (patch : Fields) (merged : Fields) (conflicts : List FieldConflict)
      → (merge_values base server patch (merged, conflicts)).1 ≡ conflicts ++ conflicts_of patch
  unfolding merge_values conflicts_of
  merge_values-conflicts [] merged conflicts = sym (append-nil conflicts)
  merge_values-conflicts ((name, client) ∷ rest) merged conflicts =
      let m = merge_value base server name client (merged, conflicts) in
      merge_values-conflicts rest m.0 m.1
      ∙ ground (arith, append_assoc conflicts (conflict_at name client ∷ []) (conflicts_of rest))

  merge_values-get :
      (patch : Fields) (m : FieldMerge) (name : Text)
      → IsDict patch
      → get (merge_values base server patch m).0 name
        ≡ three_way (field_of base name) (field_of server name) (get patch name) (get m.0 name)
  unfolding merge_values
  merge_values-get [] m name h = rw get-empty refl
  merge_values-get ((k, client) ∷ rest) m name h =
      merge_values-get rest (merge_value base server k client m) name h.1
      ∙ ground
          (arith, h.0, list_beq_iff k name, get-cons rest k name client, get-put m.0 k name client)

  no_clash :
      (patch : Fields) (name : Text) (client : Value)
      → conflicts_of patch ≡ []
      → get patch name ≡ some client
      → clash (field_of base name) (field_of server name) client ≡ false
  unfolding conflicts_of
  no_clash [] name client e found = absurd (cc (get-empty {V = Value} name, found))
  no_clash ((k, c) ∷ rest) name client e found =
      elim (Bool-cases (clash (field_of base k) (field_of server k) c)) [
        | inl clashes ↦ absurd (ground (arith, e, clashes))
        | inr agrees ↦ ground (
          arith,
          e,
          found,
          agrees,
          no_clash rest name client,
          get-cons rest k name c,
          list_beq_iff k name,
        )
      ]

  -- No change of either side is lost. Where the patch names each field once and the merge meets no
  -- conflict, each field of the patch that the client has changed has the client's value, and each that
  -- the server has changed has the server's; a field outside the patch is the server's.
  pub merge_keeps_changes :
      (patch : Fields)
      → IsDict patch
      → (let (merged, conflicts) = merge_values base server patch (server, []) in
          conflicts ≡ []
          → (name : Text)
          → (get patch name ≡ none → get merged name ≡ get server name)
            × ((client : Value)
                → get patch name ≡ some client
                → (client ≢ field_of base name → field_of merged name ≡ client)
                  × (field_of server name ≢ field_of base name
                      → field_of merged name ≡ field_of server name)))
  merge_keeps_changes patch h none_found name =
      let merged_at = merge_values-get patch (server, []) name h in
      let free = sym (merge_values-conflicts patch server []) ∙ none_found in
      let b = field_of base name in
      let v = field_of server name in
      (
        (λ absent. ground (arith, merged_at, absent)),
        λ client found.
            let kept = no_clash patch name client free found in
            (
              λ changed. ground (
                arith,
                merged_at,
                found,
                kept,
                value_iff v b,
                value_iff client b,
                value_iff client v,
              ),
              λ changed. ground (
                arith,
                merged_at,
                found,
                kept,
                value_iff v b,
                value_iff client b,
                value_iff client v,
              ),
            ),
      )

  -- The conflicts of a merge are the fields of the patch, in its order, that both sides have changed,
  -- and differently.
  pub merge_finds_conflicts :
      (patch : Fields) → (merge_values base server patch (server, [])).1 ≡ conflicts_of patch
  merge_finds_conflicts patch = merge_values-conflicts patch server []
