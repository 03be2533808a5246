-- ===== src/Adapters/Profiles.antt =====
-- The rows of a table by a profile, and the import of a workbook of cameras
-- (apps/server/app/adapters/files/importers/excel.py).
use project_digital_twin.Base.{
  ℕ, ◌+◌, ◌-◌, Bool, true, false, ◌&&◌, ◌||◌, Option, none, some, List, [], ◌∷◌, ◌++◌, Text, text,
  strip, Platform, put, values, contains, ◌==◌, nat_eq, list_eq, pair_eq, option_eq, keep, any,
  find, if◌then◌else◌,
}
use project_digital_twin.Store.Values.{value_eq}
use project_digital_twin.Store.Tables.{Camera, ImportIssue}
use project_digital_twin.Adapters.Cells.{Row, CellOps}
use project_digital_twin.Adapters.CameraRows.{
  Aliases, camera_aliases, ParseArgs, row_issue, parse_camera_rows,
}
use project_digital_twin.Adapters.Scan.{
  Sheet, WorkbookCell, TableRegion, WorkbookScanResult, range, scan_workbook,
}

pub record WorkbookProfile : Type 0 where
  pub profile_id : Text
  pub version : ℕ
  pub sheet : Option Text
  pub header_rows : List ℕ
  pub data_start_row : ℕ
  pub table_start_row : Option ℕ
  pub skip_row_patterns : List Text
  pub aliases : Aliases

-- The profile of `parse_camera_workbook_for_import` where none is given.
abbrev pub camera_profile : WorkbookProfile
camera_profile = record {
  profile_id = text "camera-default";
  version = 1;
  sheet = some (text "CAMERA");
  header_rows = 1 ∷ [];
  data_start_row = 2;
  table_start_row = some 1;
  skip_row_patterns = [];
  aliases = camera_aliases;
}

-- `_region_for_profile`: the first region of the sheet that starts where the profile says
abbrev pub is_of_sheet : Option Text → TableRegion → Bool
is_of_sheet none g = true
is_of_sheet (some sheet) g = g.sheet == sheet

abbrev pub starts_at : Option ℕ → TableRegion → Bool
starts_at none g = true
starts_at (some row) g = g.start_row == row

unfoldable pub region_for_profile : List TableRegion → WorkbookProfile → Option TableRegion
region_for_profile regions profile =
    find (starts_at profile.table_start_row) (keep (is_of_sheet profile.sheet) regions)

-- `separator.join(parts)`
unfoldable pub join_texts : Text → List Text → Text
join_texts separator [] = []
join_texts separator (part ∷ parts) =
    let rest = join_texts separator parts in
    elim parts [ [] ↦ part | _ ∷ _ ↦ part ++ (separator ++ rest) ]

-- `pattern in t`
unfoldable pub is_prefix : Text → Text → Bool
is_prefix [] t = true
is_prefix (c ∷ pattern) [] = false
is_prefix (c ∷ pattern) (d ∷ t) = c == d && is_prefix pattern t

unfoldable pub occurs_in : Text → Text → Bool
unfolding is_prefix
occurs_in pattern [] = is_prefix pattern []
occurs_in pattern (d ∷ t) = is_prefix pattern (d ∷ t) || occurs_in pattern t

-- A part of a header, unless it is blank or there already.
abbrev pub add_part : Text → List Text → List Text
add_part [] parts = parts
add_part (c ∷ part) parts = if contains (c ∷ part) parts then parts else parts ++ (c ∷ part) ∷ []

module _ {Cell Number : Type 0} (ops : CellOps Cell Number) where
  -- `cells.get((row, column))` among the cells of the sheet; a position stands once in a scan.
  unfoldable pub cell_at :
      List (WorkbookCell Cell) → Text → (row column : ℕ) → Option (WorkbookCell Cell)
  cell_at cells sheet row column =
      find
        (λ (x : WorkbookCell Cell).
          x.sheet == sheet && (x.row == row && x.column == ops.column_letter column))
        cells

  abbrev pub header_part : Option (WorkbookCell Cell) → Text
  header_part none = []
  header_part (some x) = strip (ops.str_of x.value)

  unfoldable pub header_parts :
      List (WorkbookCell Cell) → Text → (column : ℕ) → List ℕ → List Text → List Text
  header_parts cells sheet column [] parts = parts
  header_parts cells sheet column (row ∷ rows) parts =
      header_parts cells sheet column rows
        (add_part (header_part (cell_at cells sheet row column)) parts)

  -- `" / ".join(parts) or column_name`
  abbrev pub or_letter : ℕ → Text → Text
  or_letter column [] = ops.column_letter column
  or_letter column (c ∷ t) = c ∷ t

  -- The columns of the region with their headers.
  unfoldable pub headers_of :
      List (WorkbookCell Cell) → Text → List ℕ → (columns : List ℕ) → List (ℕ × Text)
  headers_of cells sheet header_rows [] = []
  headers_of cells sheet header_rows (column ∷ columns) =
      (
        column,
        or_letter column (join_texts (text " / ") (header_parts cells sheet column header_rows [])),
      )
      ∷ headers_of cells sheet header_rows columns

  abbrev pub put_cell : Text → Option (WorkbookCell Cell) → Row Cell → Row Cell
  put_cell header none values = values
  put_cell header (some x) values = put values header (some x.value)

  -- `values`: where two columns have one header, the last of them counts.
  unfoldable pub row_values :
      List (WorkbookCell Cell) → Text → (row : ℕ) → List (ℕ × Text) → Row Cell → Row Cell
  row_values cells sheet row [] values = values
  row_values cells sheet row ((column, header) ∷ headers) values =
      row_values cells sheet row headers (put_cell header (cell_at cells sheet row column) values)

  unfoldable pub value_texts : Row Cell → List Text
  value_texts [] = []
  value_texts ((header, none) ∷ values) = value_texts values
  value_texts ((header, some v) ∷ values) = ops.str_of v ∷ value_texts values

  module _ (p : Platform) where
    -- `any(pattern.casefold() in joined for …)`
    unfoldable pub is_skipped : List Text → Row Cell → Bool
    is_skipped patterns values =
        let joined = p.casefold (join_texts (32 ∷ []) (value_texts values)) in
        any (λ (pattern : Text). occurs_in (p.casefold pattern) joined) patterns

    abbrev pub add_row : List Text → Row Cell → List (Row Cell) → List (Row Cell)
    add_row patterns [] rows = rows
    add_row patterns (v ∷ values) rows =
        if is_skipped patterns (v ∷ values) then rows else (v ∷ values) ∷ rows

    unfoldable pub data_rows :
        List (WorkbookCell Cell)
        → Text
        → List (ℕ × Text)
        → List Text
        → (rows : List ℕ) → List (Row Cell)
    data_rows cells sheet headers patterns [] = []
    data_rows cells sheet headers patterns (row ∷ rows) =
        add_row patterns (row_values cells sheet row headers [])
          (data_rows cells sheet headers patterns rows)

    -- `_profile_rows` of a region
    unfoldable pub profile_rows :
        WorkbookScanResult Cell → WorkbookProfile → TableRegion → List (Row Cell)
    profile_rows scan profile g =
        let columns = range g.min_column (g.max_column + 1 - g.min_column) in
        data_rows scan.cells g.sheet (headers_of scan.cells g.sheet profile.header_rows columns)
          profile.skip_row_patterns
          (range profile.data_start_row (g.end_row + 1 - profile.data_start_row))

    pub record Imported : Type 0 where
      pub rows : List (Row Cell)
      pub cameras : List Camera
      pub issues : List ImportIssue

    abbrev pub no_import : Text → Text → Imported
    no_import code message = record {
      rows = [];
      cameras = [];
      issues = row_issue code message 0 none ∷ [];
    }

    abbrev pub import_rows :
        (file_id file_revision : ℕ)
        → WorkbookProfile
        → (fresh : ℕ → ℕ) → TableRegion
        → List (Row Cell)
        → Imported
    import_rows file_id file_revision profile fresh g [] =
        no_import (text "UNSUPPORTED_ROW") (text "Workbook table has no data rows")
    import_rows file_id file_revision profile fresh g (r ∷ rows) =
        let args : ParseArgs = record {
          file_id = file_id;
          file_revision = file_revision;
          sheet = g.sheet;
          aliases = profile.aliases;
        } in
        let out = parse_camera_rows ops args profile.data_start_row fresh (r ∷ rows) in
        record { rows = r ∷ rows; cameras = out.0; issues = out.1 }

    abbrev pub missing_sheet : Option Text → Text
    missing_sheet none = text "Workbook has no visible data sheet"
    missing_sheet (some sheet) = text "Missing sheet " ++ sheet

    abbrev pub import_region :
        (file_id file_revision : ℕ)
        → WorkbookProfile
        → (fresh : ℕ → ℕ) → WorkbookScanResult Cell
        → Option TableRegion
        → Imported
    import_region file_id file_revision profile fresh scan none =
        no_import (text "UNMAPPED_SHEET") (missing_sheet profile.sheet)
    import_region file_id file_revision profile fresh scan (some g) =
        if starts_at profile.table_start_row g
        then import_rows file_id file_revision profile fresh g (profile_rows scan profile g)
        else no_import (text "UNMAPPED_TABLE") (text "Missing table in sheet " ++ g.sheet)

    -- The result comes with the scan.
    unfoldable pub parse_camera_workbook_for_import :
        (file_id file_revision : ℕ)
        → WorkbookProfile
        → (fresh : ℕ → ℕ) → List (Sheet Cell)
        → Imported
    parse_camera_workbook_for_import file_id file_revision profile fresh sheets =
        let scan = scan_workbook ops file_id file_revision sheets in
        import_region file_id file_revision profile fresh scan
          (region_for_profile scan.regions profile)

    unfoldable pub parse_camera_workbook :
        (file_id file_revision : ℕ)
        → WorkbookProfile
        → (fresh : ℕ → ℕ) → List (Sheet Cell)
        → List Camera × List ImportIssue
    parse_camera_workbook file_id file_revision profile fresh sheets =
        let out = parse_camera_workbook_for_import file_id file_revision profile fresh sheets in
        (out.cameras, out.issues)
