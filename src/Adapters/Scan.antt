-- ===== src/Adapters/Scan.antt =====
-- `scan_workbook` (apps/server/app/adapters/files/importers/excel.py). A workbook is what openpyxl
-- gives: its sheets, each with its cells read once for formulas and once for values.
use project_digital_twin.Base.{
  ℕ, zero, suc, ◌+◌, ◌-◌, Bool, ◌&&◌, Option, none, some, List, [], ◌∷◌, ◌++◌, Text, ◌==◌, nat_eq,
  list_eq, pair_eq, option_eq, is_some, get_or, keep, find, ltb, leb, if◌then◌else◌,
}
use project_digital_twin.Store.Values.{value_eq}
use project_digital_twin.Adapters.Cells.{CellOps}

pub record MergedRange : Type 0 where
  pub min_row : ℕ
  pub max_row : ℕ
  pub min_col : ℕ
  pub max_col : ℕ

pub record Sheet (Cell : Type 0) : Type 0 where
  pub name : Text
  pub is_visible : Bool
  pub max_row : ℕ
  pub max_column : ℕ
  pub merged : List MergedRange
  pub formula_cell : ℕ → ℕ → Option Cell
  pub value_cell : ℕ → ℕ → Option Cell

pub record WorkbookCell (Cell : Type 0) : Type 0 where
  pub file_id : ℕ
  pub file_revision : ℕ
  pub sheet : Text
  pub row : ℕ
  pub column : Text
  pub value : Cell
  pub formula : Option Text

pub record TableRegion : Type 0 where
  pub sheet : Text
  pub start_row : ℕ
  pub end_row : ℕ
  pub min_column : ℕ
  pub max_column : ℕ
  pub header_candidates : List ℕ

pub record WorkbookScanResult (Cell : Type 0) : Type 0 where
  pub regions : List TableRegion
  pub cells : List (WorkbookCell Cell)
  pub skipped_sheets : List Text

-- `_merged_anchor`
abbrev pub covers : MergedRange → ℕ → ℕ → Bool
covers r row column =
    leb r.min_row row && leb row r.max_row && (leb r.min_col column && leb column r.max_col)

unfoldable pub merged_anchor : List MergedRange → ℕ → ℕ → ℕ × ℕ
merged_anchor ranges row column = elim (find (λ r. covers r row column) ranges) [
  | none ↦ (row, column)
  | some r ↦ (r.min_row, r.min_col)
]

-- The numbers from `first` on, as many as `n`: `range(first, first + n)`
unfoldable pub range : ℕ → ℕ → List ℕ
range first zero = []
range first (suc n) = first ∷ range (first + 1) n

abbrev pub min_of : ℕ → List ℕ → ℕ
min_of m [] = m
min_of m (x ∷ xs) = min_of (if ltb x m then x else m) xs

abbrev pub max_of : ℕ → List ℕ → ℕ
max_of m [] = m
max_of m (x ∷ xs) = max_of (if ltb m x then x else m) xs

-- A region of the rows from `start` to `previous`; the first of its columns is `column`.
abbrev pub region_of : Text → (start previous : ℕ) → (column : ℕ) → List ℕ → TableRegion
region_of sheet start previous column columns = record {
  sheet = sheet;
  start_row = start;
  end_row = previous;
  min_column = min_of column columns;
  max_column = max_of column columns;
  header_candidates =
      range start ((if ltb (start + 2) previous then start + 2 else previous) + 1 - start);
}

-- An occupied row: its number, its first column, and the others.
abbrev pub Occupied : Type 0
Occupied = ℕ × (ℕ × List ℕ)

-- The loop over the occupied rows behind the first: a row that follows on the previous one belongs to
-- the region, another one starts the next.
unfoldable pub regions_from :
    Text → (start previous column : ℕ) → List ℕ → List Occupied → List TableRegion
regions_from sheet start previous column columns [] =
    region_of sheet start previous column columns ∷ []
regions_from sheet start previous column columns ((current, (c, cs)) ∷ rows) =
    let joins = current == previous + 1 in
    let rest =
      regions_from sheet (if joins then start else current) current (if joins then column else c)
        (if joins then columns ++ c ∷ cs else cs) rows in
    if joins then rest else region_of sheet start previous column columns ∷ rest

unfoldable pub regions_of : Text → List Occupied → List TableRegion
regions_of sheet [] = []
regions_of sheet ((row, (c, cs)) ∷ rows) = regions_from sheet row row c cs rows

-- A row without columns is not occupied.
abbrev pub enter_row : ℕ → List ℕ → List Occupied → List Occupied
enter_row row [] rows = rows
enter_row row (c ∷ cs) rows = (row, (c, cs)) ∷ rows

module _ {Cell Number : Type 0} (ops : CellOps Cell Number) where
  -- `_cell_value`
  abbrev pub read_formula : Option Cell → Option Cell → Option (Cell × Option Text)
  read_formula none cached = none
  read_formula (some f) cached =
      if ops.is_formula f then some (get_or cached f, some (ops.str_of f)) else some (f, none)

  unfoldable pub cell_value : Sheet Cell → ℕ → ℕ → Option (Cell × Option Text)
  cell_value sheet row column =
      let (r, c) = merged_anchor sheet.merged row column in
      read_formula (sheet.formula_cell r c) (sheet.value_cell r c)

  -- The cells with a value that is neither None nor `""`.
  abbrev pub filled : Option (Cell × Option Text) → Option (Cell × Option Text)
  filled none = none
  filled (some (v, f)) = if ops.is_blank v then none else some (v, f)

  unfoldable pub filled_columns : Sheet Cell → (row : ℕ) → List ℕ → List ℕ
  filled_columns sheet row = keep (λ (column : ℕ). is_some (filled (cell_value sheet row column)))

  unfoldable pub occupied_rows : Sheet Cell → List ℕ → List Occupied
  occupied_rows sheet [] = []
  occupied_rows sheet (row ∷ rows) =
      enter_row row (filled_columns sheet row (range 1 sheet.max_column)) (occupied_rows sheet rows)

  abbrev pub add_cell :
      ℕ
      → ℕ
      → Text
      → (row column : ℕ) → Option (Cell × Option Text)
      → List (WorkbookCell Cell)
      → List (WorkbookCell Cell)
  add_cell file_id file_revision sheet row column none cells = cells
  add_cell file_id file_revision sheet row column (some (v, f)) cells =
      record {
        file_id = file_id;
        file_revision = file_revision;
        sheet = sheet;
        row = row;
        column = ops.column_letter column;
        value = v;
        formula = f;
      }
      ∷ cells

  unfoldable pub row_cells : ℕ → ℕ → Sheet Cell → (row : ℕ) → List ℕ → List (WorkbookCell Cell)
  row_cells file_id file_revision sheet row [] = []
  row_cells file_id file_revision sheet row (column ∷ columns) =
      add_cell file_id file_revision sheet.name row column (filled (cell_value sheet row column))
        (row_cells file_id file_revision sheet row columns)

  unfoldable pub sheet_cells : ℕ → ℕ → Sheet Cell → List ℕ → List (WorkbookCell Cell)
  sheet_cells file_id file_revision sheet [] = []
  sheet_cells file_id file_revision sheet (row ∷ rows) =
      row_cells file_id file_revision sheet row (range 1 sheet.max_column)
      ++ sheet_cells file_id file_revision sheet rows

  -- The rows are met in order, so that sorting them changes nothing.
  unfoldable pub sheet_regions : Sheet Cell → List TableRegion
  sheet_regions sheet = regions_of sheet.name (occupied_rows sheet (range 1 sheet.max_row))

  unfoldable pub scan_workbook : ℕ → ℕ → List (Sheet Cell) → WorkbookScanResult Cell
  scan_workbook file_id file_revision [] = record { regions = []; cells = []; skipped_sheets = [] }
  scan_workbook file_id file_revision (sheet ∷ sheets) =
      let rest = scan_workbook file_id file_revision sheets in
      if sheet.is_visible
      then record {
        regions = sheet_regions sheet ++ rest.regions;
        cells = sheet_cells file_id file_revision sheet (range 1 sheet.max_row) ++ rest.cells;
        skipped_sheets = rest.skipped_sheets;
      }
      else record rest { skipped_sheets = sheet.name ∷ rest.skipped_sheets }
