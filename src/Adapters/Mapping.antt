-- ===== src/Adapters/Mapping.antt =====
-- `map_record`: a row of a table as the fields of an entity
-- (apps/server/app/adapters/files/importers/mapping.py).
use project_digital_twin.Base.{
  ℕ, Bool, false, not, Option, none, some, List, [], ◌∷◌, ◌++◌, map, Text, text, Platform, Dict,
  get, put, values, contains, ◌==◌, nat_eq, list_eq, pair_eq, option_eq, get_or, keep,
  if◌then◌else◌,
}
use project_digital_twin.Adapters.Outcomes.{
  key_error, type_error, value_error, Outcome, done, raised, ValueOps, Rule, ◌>>=◌,
}
use project_digital_twin.Adapters.Transforms.{is_nothing, apply_transform, convert, infer_data_type}
use project_digital_twin.Adapters.Cells.{Row}
use project_digital_twin.Store.Contracts.{SourceLocator}
use project_digital_twin.Store.Values.{value_eq}

pub record SchemaField : Type 0 where
  pub id : Text
  pub name : Text
  pub data_type : Text
  pub group : Option Text
  pub unit : Option Text
  pub required : Bool

pub record FieldMapping (Cell : Type 0) : Type 0 where
  pub source_column : Text
  pub field_id : Text
  pub rules : List (Rule Cell)

pub record MappingIssue : Type 0 where
  pub code : Text
  pub message : Text
  pub row : ℕ
  pub field_id : Option Text
  pub source_column : Option Text

pub record MappedRecord (Cell : Type 0) : Type 0 where
  pub entity_id : ℕ
  pub object_type : Text
  pub fields : Row Cell
  pub raw : Row Cell
  pub unmapped : Row Cell
  pub issues : List MappingIssue
  pub source : Option SourceLocator

-- The keyword arguments; `object_type_values` is empty where it is None.
pub record MapArgs : Type 0 where
  pub object_type : Text
  pub row : ℕ
  pub source : Option SourceLocator
  pub object_type_column : Option Text
  pub object_type_values : Dict Text Text

-- `infer_schema_field`, with the text of a new identifier
unfoldable pub infer_schema_field :
    {Cell : Type 0}
    → ValueOps Cell
    → Platform
    → (id name : Text) → List (Option Cell)
    → (group : Option Text) → Outcome SchemaField
infer_schema_field ops p id name values group = infer_data_type ops p values >>= λ data_type.
    done (record {
      id = id;
      name = name;
      data_type = data_type;
      group = group;
      unit = none;
      required = false;
    })

-- What the loop has gathered.
pub record Gathered (Cell : Type 0) : Type 0 where
  pub fields : Row Cell
  pub issues : List MappingIssue

abbrev pub missing_issue : SchemaField → (column : Text) → ℕ → MappingIssue
missing_issue f column row = record {
  code = text "MISSING_REQUIRED_FIELD";
  message = text "Field " ++ (f.name ++ text " is required");
  row = row;
  field_id = some f.id;
  source_column = some column;
}

abbrev pub invalid_issue : SchemaField → (column message : Text) → ℕ → MappingIssue
invalid_issue f column message row = record {
  code = text "INVALID_FIELD_VALUE";
  message = message;
  row = row;
  field_id = some f.id;
  source_column = some column;
}

abbrev pub mapped_columns : {Cell : Type 0} → List (FieldMapping Cell) → List Text
mapped_columns mappings = map (λ m. m.source_column) mappings

-- The columns that no mapping names.
abbrev pub unmapped_cells : {Cell : Type 0} → List (FieldMapping Cell) → Row Cell → Row Cell
unmapped_cells mappings raw = keep (λ entry. not (contains entry.0 (mapped_columns mappings))) raw

module _ {Cell : Type 0} (ops : ValueOps Cell) (p : Platform) where
  abbrev pub type_of_value : MapArgs → Option (Option Cell) → Text
  type_of_value args (some (some v)) =
      get_or (get args.object_type_values (ops.str_of (some v))) (ops.str_of (some v))
  type_of_value args _ = args.object_type

  abbrev pub resolved_type : MapArgs → Row Cell → Text
  resolved_type args raw = elim args.object_type_column [
    | none ↦ args.object_type
    | some column ↦ if column == [] then args.object_type else type_of_value args (get raw column)
  ]

  -- The `try` of the loop: only a `TypeError` or a `ValueError` is caught.
  abbrev pub enter_converted :
      SchemaField
      → (column : Text) → ℕ
      → Gathered Cell
      → Outcome (Option Cell)
      → Outcome (Gathered Cell)
  enter_converted f column row g (done v) = done (record g { fields = put g.fields f.id v })
  enter_converted f column row g (raised (type_error message)) =
      done (record g { issues = g.issues ++ invalid_issue f column message row ∷ [] })
  enter_converted f column row g (raised (value_error message)) =
      done (record g { issues = g.issues ++ invalid_issue f column message row ∷ [] })
  enter_converted f column row g (raised e) = raised e

  abbrev pub enter_value :
      SchemaField → (column : Text) → ℕ → Gathered Cell → Option Cell → Outcome (Gathered Cell)
  enter_value f column row g v =
      if is_nothing ops v
      then done (record {
        fields = put g.fields f.id none;
        issues = if f.required then g.issues ++ missing_issue f column row ∷ [] else g.issues;
      })
      else enter_converted f column row g (convert ops p v f.data_type)

  abbrev pub enter_field :
      FieldMapping Cell
      → Row Cell
      → ℕ
      → Gathered Cell
      → Option SchemaField
      → Outcome (Gathered Cell)
  enter_field m raw row g none = raised key_error
  enter_field m raw row g (some f) =
      apply_transform ops p (get_or (get raw m.source_column) none) m.rules >>= λ v.
      enter_value f m.source_column row g v

  unfoldable pub map_fields :
      Row Cell
      → (fields : Dict Text SchemaField) → ℕ
      → (mappings : List (FieldMapping Cell)) → Gathered Cell
      → Outcome (Gathered Cell)
  map_fields raw fields row [] g = done g
  map_fields raw fields row (m ∷ mappings) g =
      enter_field m raw row g (get fields m.field_id) >>= λ next.
      map_fields raw fields row mappings next

  abbrev pub record_of :
      MapArgs
      → (fresh : ℕ) → Row Cell
      → List (FieldMapping Cell)
      → Gathered Cell
      → MappedRecord Cell
  record_of args fresh raw mappings g = record {
    entity_id = fresh;
    object_type = resolved_type args raw;
    fields = g.fields;
    raw = raw;
    unmapped = unmapped_cells mappings raw;
    issues = g.issues;
    source = args.source;
  }

  unfoldable pub map_record :
      MapArgs
      → (fresh : ℕ) → Row Cell
      → (fields : Dict Text SchemaField) → (mappings : List (FieldMapping Cell))
      → Outcome (MappedRecord Cell)
  map_record args fresh raw fields mappings =
      map_fields raw fields args.row mappings (record { fields = []; issues = [] }) >>= λ g.
      done (record_of args fresh raw mappings g)
