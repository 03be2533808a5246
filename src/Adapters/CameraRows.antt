-- ===== src/Adapters/CameraRows.antt =====
-- `parse_camera_rows` (apps/server/app/adapters/files/importers/excel.py).
use project_digital_twin.Base.{
  ℕ, ◌+◌, Option, none, some, List, [], ◌∷◌, ◌++◌, map, Text, text, strip, get, keys, contains,
  nat_eq, list_eq, pair_eq, option_eq, get_or, if◌then◌else◌,
}
use project_digital_twin.Store.Values.{str, maybe_str, value_eq}
use project_digital_twin.Store.Tables.{Camera, ImportIssue}
use project_digital_twin.Adapters.Cells.{Row, CellOps, Checked, good, invalid, ◌>>=◌}
use project_digital_twin.Adapters.Normalization.{cell_text, normalize_ip, normalize_coordinate}

-- The entries of `aliases`: the headers of a column, by field.
pub record Aliases : Type 0 where
  pub code : List Text
  pub name : List Text
  pub intersection_id : List Text
  pub manufacturer : List Text
  pub model : List Text
  pub ip_address : List Text
  pub status : List Text
  pub latitude : List Text
  pub longitude : List Text

-- `CameraWorkbookProfile.aliases`
abbrev pub camera_aliases : Aliases
camera_aliases = record {
  code = text "CameraCode" ∷ text "Camera ID" ∷ text "Mã Camera" ∷ text "Code" ∷ [];
  name = text "Name" ∷ text "Camera Name" ∷ text "Tên Camera" ∷ [];
  intersection_id = text "IntersectionCode" ∷ text "Intersection ID" ∷ text "Intersection" ∷ [];
  manufacturer = text "Manufacturer" ∷ text "Hãng" ∷ [];
  model = text "Model" ∷ [];
  ip_address = text "IP" ∷ text "IP Address" ∷ text "IPAddress" ∷ [];
  status = text "Status" ∷ text "Trạng thái" ∷ [];
  latitude = text "Latitude" ∷ text "Lat" ∷ text "Vĩ độ" ∷ [];
  longitude = text "Longitude" ∷ text "Lng" ∷ text "Lon" ∷ text "Kinh độ" ∷ [];
}

-- `_header_map`: each header stands for itself.
abbrev pub header_map : List Text → List Text
header_map headers = map strip headers

-- `_find_column`: the first alias that is a header
unfoldable pub find_column : List Text → List Text → Option Text
find_column headers [] = none
find_column headers (alias ∷ aliases) =
    let rest = find_column headers aliases in if contains alias headers then some alias else rest

-- What the loop is given beside the rows.
pub record ParseArgs : Type 0 where
  pub file_id : ℕ
  pub file_revision : ℕ
  pub sheet : Text
  pub aliases : Aliases

pub data RowOutcome : Type 0 where
  parsed : Camera → RowOutcome
  refused : ImportIssue → RowOutcome

abbrev pub row_issue : Text → Text → ℕ → Option Text → ImportIssue
row_issue code message row column = record {
  code = code;
  message = message;
  row = row;
  column = column;
}

-- `seen_codes.add(code)`
abbrev pub see : Option Text → List Text → List Text
see none seen = seen
see (some code) seen = if contains code seen then seen else code ∷ seen

abbrev pub add_outcome :
    RowOutcome → List Camera × List ImportIssue → List Camera × List ImportIssue
add_outcome (parsed camera) (cameras, issues) = (camera ∷ cameras, issues)
add_outcome (refused issue) (cameras, issues) = (cameras, issue ∷ issues)

abbrev pub ids_after : RowOutcome → ℕ → ℕ
ids_after (parsed camera) drawn = drawn + 1
ids_after (refused issue) drawn = drawn

module _ {Cell Number : Type 0} (ops : CellOps Cell Number) where
  -- `raw.get(column) if column else None`
  abbrev pub cell_in : Row Cell → Option Text → Option Cell
  cell_in raw none = none
  cell_in raw (some []) = none
  cell_in raw (some (c ∷ column)) = get_or (get raw (c ∷ column)) none

  abbrev pub column_of : Row Cell → List Text → Option Text
  column_of raw aliases = find_column (header_map (keys raw)) aliases

  -- The text of a field, `value(field_name)`
  unfoldable pub text_of : Row Cell → List Text → Option Text
  text_of raw aliases = cell_text ops (cell_in raw (column_of raw aliases))

  pub record Located : Type 0 where
    pub latitude : Option Number
    pub longitude : Option Number
    pub ip : Option Text

  -- The statements of the `try` block.
  unfoldable pub locate : Row Cell → Aliases → Checked Located
  locate raw a = do
    latitude ←
        normalize_coordinate ops (cell_in raw (column_of raw a.latitude)) ops.south ops.north
          (text "latitude")
    longitude ←
        normalize_coordinate ops (cell_in raw (column_of raw a.longitude)) ops.west ops.east
          (text "longitude")
    ip ← normalize_ip ops (cell_in raw (column_of raw a.ip_address))
    good (record { latitude = latitude; longitude = longitude; ip = ip })

  abbrev pub row_camera : ParseArgs → Row Cell → (row id : ℕ) → Text → Located → Camera
  row_camera args raw row id code l = record {
    entity_id = id;
    project_id = 0;
    code = str code;
    name = maybe_str (text_of raw args.aliases.name);
    intersection_id = none;
    manufacturer = maybe_str (text_of raw args.aliases.manufacturer);
    model = maybe_str (text_of raw args.aliases.model);
    ip_address = maybe_str l.ip;
    status = maybe_str (text_of raw args.aliases.status);
    properties = ops.properties l.latitude l.longitude raw;
    source = some (record {
      file_id = args.file_id;
      file_revision = args.file_revision;
      sheet = args.sheet;
      row = row;
      column = get_or (column_of raw args.aliases.code) [];
    });
  }

  abbrev pub located_row : ParseArgs → Row Cell → (row id : ℕ) → Text → Checked Located → RowOutcome
  located_row args raw row id code (invalid message) =
      refused (row_issue (text "INVALID_VALUE") message row none)
  located_row args raw row id code (good l) = parsed (row_camera args raw row id code l)

  -- One round of the loop.
  abbrev pub row_with : ParseArgs → Row Cell → (row id : ℕ) → Option Text → List Text → RowOutcome
  row_with args raw row id none seen = refused (
      row_issue (text "MISSING_CAMERA_CODE") (text "Camera code is required") row
        (column_of raw args.aliases.code))
  row_with args raw row id (some code) seen =
      if contains code seen
      then refused (
          row_issue (text "DUPLICATE_CAMERA_CODE") (text "Duplicate Camera code: " ++ code) row
            (column_of raw args.aliases.code))
      else located_row args raw row id code (locate raw args.aliases)

  -- The loop, with `fresh n` for the n-th identifier drawn.
  unfoldable pub parse_rows :
      ParseArgs
      → (fresh : ℕ → ℕ) → List (Row Cell)
      → (row : ℕ) → (seen : List Text) → (drawn : ℕ) → List Camera × List ImportIssue
  parse_rows args fresh [] row seen drawn = ([], [])
  parse_rows args fresh (raw ∷ rows) row seen drawn =
      let code = text_of raw args.aliases.code in
      let out = row_with args raw row (fresh drawn) code seen in
      add_outcome out (parse_rows args fresh rows (row + 1) (see code seen) (ids_after out drawn))

  unfoldable pub parse_camera_rows :
      ParseArgs
      → (row_start : ℕ) → (fresh : ℕ → ℕ) → List (Row Cell)
      → List Camera × List ImportIssue
  parse_camera_rows args row_start fresh rows = parse_rows args fresh rows row_start [] 0
