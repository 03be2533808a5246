-- ===== src/Adapters/Tests.antt =====
-- A small sheet of cameras.
use project_digital_twin.Base.{
  ℕ, ◌+◌, ◌-◌, ◌≡◌, refl, ◌⊎◌, Bool, true, false, ◌&&◌, Option, none, some, List, [], ◌∷◌, map,
  Text, text, is_space, strip, strip_left, strip_right, Platform, Dict, get, put, contains, ◌==◌,
  nat_eq, list_eq, pair_eq, option_eq, get_or, keep, any, All, leb, list_beq, option_beq,
  if◌then◌else◌, nat_beq,
}
use mathlib.Core.List.{Perm}
use project_digital_twin.Adapters.Ranking.{
  is_namesake_iff, IsFounded, AreRanked, identity_candidates_lem,
}
use project_digital_twin.Adapters.MappedRecords.{map_record_lem}
use project_digital_twin.Adapters.Candidates.{
  IdentityRecord, rank, ranked, is_namesake, candidate_of, candidates_of, identity_candidates,
}
use project_digital_twin.Adapters.Outcomes.{Exception, value_error, Outcome, done, raised, ValueOps}
use project_digital_twin.Adapters.Transforms.{transform, apply_transform, convert}
use project_digital_twin.Adapters.Mapping.{
  SchemaField, FieldMapping, MappedRecord, MapArgs, mapped_columns, map_fields, map_record,
}
use project_digital_twin.Adapters.Settling.{HaveOwnFields, Settles, Breaks}
use project_digital_twin.Store.Values.{null, value_eq}
use project_digital_twin.Adapters.Cells.{Row, CellOps, good, invalid}
use project_digital_twin.Adapters.Normalization.{cell_text, normalize_ip}
use project_digital_twin.Adapters.CameraRows.{camera_aliases, ParseArgs, parse_camera_rows}
use project_digital_twin.Adapters.Scan.{Sheet, sheet_regions}
use project_digital_twin.Projects.Codes.{decimal}
use project_digital_twin.Organize.Names.{normalize_text, squeeze}
use project_digital_twin.Adapters.Normalization.{
  count, split, join, read_digits, read_signed, octets_of, dotted, normalize_address,
}
use project_digital_twin.Adapters.Bounds.{IsQuad, normalize_ip-IsQuad}
use project_digital_twin.Adapters.Rows.{AreParsed, parse_camera_rows_lem}
use project_digital_twin.Adapters.Regions.{spans, is_occupied, AreSeparate, sheet_regions_lem}

-- Cells that are texts, with the digits of ASCII.
abbrev texts : CellOps Text ℕ
texts = record {
  str_of = λ t. t;
  is_blank = λ t. t == [];
  float_of = λ t. some 10;
  is_formula = λ t. false;
  column_letter = λ n. (64 + n) ∷ [];
  le = leb;
  south = 0;
  north = 90;
  west = 0;
  east = 180;
  digit = λ c. if leb 48 c && leb c 57 then some (c - 48) else none;
  ip_address = λ t. none;
  properties = λ latitude longitude raw. null;
}

address_text : cell_text texts (some (text " 010.0.0.255 ")) ≡ some (text "010.0.0.255")
unfolding normalize_text squeeze strip_left is_space list_beq
address_text = refl

-- Leading zeros are dropped.
address_runs : normalize_ip texts (some (text "010.0.0.255")) ≡ good (some (text "10.0.0.255"))
unfolding normalize_ip normalize_address normalize_text squeeze strip strip_left strip_right
    is_space list_beq count split octets_of read_signed read_digits join dotted decimal
address_runs = refl

normalize_ip-IsQuad_example :
    ((a : Text) × (normalize_ip texts (some (text " 010.0.0.255 ")) ≡ good (some a)) × IsQuad a)
    ⊎ (normalize_ip texts (some (text " 010.0.0.255 ")) ≡ invalid (text "Invalid IP address"))
normalize_ip-IsQuad_example =
    normalize_ip-IsQuad texts (some (text " 010.0.0.255 ")) (text "010.0.0.255") address_text
      (unfold count in refl)

abbrev sheet_args : ParseArgs
sheet_args = record {
  file_id = 7;
  file_revision = 1;
  sheet = text "CAMERA";
  aliases = camera_aliases;
}

abbrev raw_row : Text → Row Text
raw_row code = (text "Code", some code) ∷ (text "IP", some (text "10.0.0.1")) ∷ []

-- The third row has no code, the second one that of the first.
abbrev raw_rows : List (Row Text)
raw_rows = raw_row (text "C1") ∷ raw_row (text "C1") ∷ raw_row [] ∷ raw_row (text "C2") ∷ []

parse_camera_rows_lem_example :
    AreParsed 4 2 [] (parse_camera_rows texts sheet_args 2 (λ n. 100 + n) raw_rows)
parse_camera_rows_lem_example = parse_camera_rows_lem texts sheet_args 2 (λ n. 100 + n) raw_rows

-- Rows 1, 2 and 4 are occupied.
abbrev cell_of : ℕ → ℕ → Option Text
cell_of row column = if row == 3 then none else some (text "x")

abbrev small : Sheet Text
small = record {
  name = text "CAMERA";
  is_visible = true;
  max_row = 4;
  max_column = 2;
  merged = [];
  formula_cell = cell_of;
  value_cell = cell_of;
}

sheet_regions_lem_example :
    ((r : ℕ)
      → any (spans r) (sheet_regions texts small)
        ≡ (leb 1 r && (leb r 4 && is_occupied texts small r)))
    × AreSeparate 1 (sheet_regions texts small)
sheet_regions_lem_example = sheet_regions_lem texts small

abbrev entity : (entity_id : ℕ) → (name parent : Option Text) → (latitude : ℕ) → IdentityRecord ℕ
entity entity_id name parent latitude = record {
  entity_id = entity_id;
  object_type = text "CAMERA";
  name = name;
  parent_context = parent;
  latitude = some latitude;
  longitude = some 106;
}

abbrev imported : IdentityRecord ℕ
imported = entity 0 (some (text "Gate  1")) (some (text "North")) 10

-- Two namesakes, the second of which stands in the same place and context, and another entity.
abbrev known : List (IdentityRecord ℕ)
known =
    entity 4 (some (text " Gate 1")) none 11
    ∷ entity 9 (some (text "Gate 1")) (some (text "North")) 10
    ∷ entity 2 (some (text "Gate 2")) (some (text "North")) 10
    ∷ []

identity_candidates_lem_example :
    Perm
      (map (λ c. c.entity_id) (identity_candidates nat_beq imported known))
      (map (λ o. o.entity_id) (keep (is_namesake nat_beq imported) known))
    × All (IsFounded nat_beq imported known) (identity_candidates nat_beq imported known)
    × AreRanked (identity_candidates nat_beq imported known)
identity_candidates_lem_example =
    identity_candidates_lem nat_beq imported (is_namesake nat_beq imported) known
      (is_namesake_iff nat_beq imported)

ranks :
    map {B = ℕ × ℕ} (λ c. (c.entity_id, c.score)) (identity_candidates nat_beq imported known)
    ≡ (9, 4) ∷ (4, 2) ∷ []
unfolding identity_candidates candidates_of candidate_of ranked rank normalize_text squeeze
    strip_left is_space list_beq option_beq
ranks = refl

-- Values that are texts, of which none is a number or a date.
abbrev text_values : ValueOps Text
text_values = record {
  str_of = λ v. get_or v (text "None");
  is_blank = λ t. t == [];
  text_cell = λ t. t;
  bool_cell = λ b. if b then text "True" else text "False";
  bool_of = λ t. none;
  is_number = λ t. false;
  isoformat = λ t. none;
  float_of = λ t. raised (value_error t);
  int_of = λ v. done (false, 0);
  date_of = λ t. raised (value_error t);
  lower = λ t. t;
  sub = λ pattern replacement t. done t;
}

abbrev platform : Platform
platform = record { upper = λ t. t; casefold = λ t. t; resolve = λ t. some t; is_dir = λ t. true }

abbrev schema : Dict Text SchemaField
schema =
    (text "f1", field_of (text "id1") (text "text") false)
    ∷ (text "f2", field_of (text "id2") (text "number") false)
    ∷ (text "f3", field_of (text "id3") (text "text") true)
    ∷ []
  where
    field_of : (id data_type : Text) → (required : Bool) → SchemaField
    field_of id data_type required = record {
      id = id;
      name = id;
      data_type = data_type;
      group = none;
      unit = none;
      required = required;
    }

-- The second column is no number, and the third is missing.
abbrev mappings : List (FieldMapping Text)
mappings =
    mapping (text "A") (text "f1")
    ∷ mapping (text "B") (text "f2")
    ∷ mapping (text "C") (text "f3")
    ∷ []
  where
    mapping : (column field_id : Text) → FieldMapping Text
    mapping column field_id = record {
      source_column = column;
      field_id = field_id;
      rules = record { kind = some (text "trim"); options = [] } ∷ [];
    }

abbrev raw : Row Text
raw = (text "A", some (text " x ")) ∷ (text "B", some (text "y")) ∷ (text "D", none) ∷ []

abbrev map_args : MapArgs
map_args = record {
  object_type = text "CAMERA";
  row = 2;
  source = none;
  object_type_column = none;
  object_type_values = [];
}

mappings-HaveOwnFields : HaveOwnFields schema mappings
unfolding get list_beq option_beq
mappings-HaveOwnFields = ((refl, (refl, tt)), ((refl, tt), (tt, tt)))

map_record_lem_example :
    ((r : MappedRecord Text) × (map_record text_values platform map_args 7 raw schema mappings
        ≡ done r)
      × Settles text_values platform raw schema 2 r.fields mappings r.issues
      × (r.raw ≡ raw)
      × ((k : Text)
          → get r.unmapped k ≡ (if contains k (mapped_columns mappings) then none else get raw k)))
    ⊎ ((e : Exception) × (map_record text_values platform map_args 7 raw schema mappings ≡ raised e)
        × Breaks text_values platform raw schema 2 mappings e)
map_record_lem_example =
    map_record_lem text_values platform map_args 7 raw schema mappings mappings-HaveOwnFields

codes_of : Outcome (MappedRecord Text) → List Text
codes_of (done r) = map (λ i. i.code) r.issues
codes_of (raised e) = []

codes :
    codes_of (map_record text_values platform map_args 7 raw schema mappings)
    ≡ text "INVALID_FIELD_VALUE" ∷ text "MISSING_REQUIRED_FIELD" ∷ []
unfolding codes_of map_record map_fields apply_transform transform convert get put contains list_beq
    strip strip_left strip_right is_space
codes = refl
