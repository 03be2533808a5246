-- ===== src/Adapters/Regions.antt =====
-- The regions of a sheet are its maximal runs of occupied rows (apps/server/app/adapters/files/importers/excel.py).
use project_digital_twin.Base.{
  ℕ, zero, suc, ◌+◌, ◌-◌, ◌≤◌, ◌<◌, ◌≡◌, refl, ap, ◌∙◌, inl, inr, Bool, true, false, ◌&&◌, ◌||◌,
  List, [], ◌∷◌, ◌++◌, arith, Text, contains, ◌==◌, nat_eq, list_eq, pair_eq, option_eq, is_some,
  length, keep, any, All, ltb, leb, Bool-cases, if◌then◌else◌, nat_beq_iff,
}
use project_digital_twin.Store.Values.{value_eq}
use project_digital_twin.Adapters.Scan.{
  Sheet, TableRegion, range, region_of, Occupied, enter_row, regions_from, regions_of, cell_value,
  filled, filled_columns, occupied_rows, sheet_regions,
}
use project_digital_twin.Adapters.Cells.{CellOps}

abbrev pub spans : ℕ → TableRegion → Bool
spans row g = leb g.start_row row && leb row g.end_row

abbrev pub row_numbers : List Occupied → List ℕ
row_numbers [] = []
row_numbers (o ∷ rows) = o.0 ∷ row_numbers rows

-- The rows come in order, behind `previous`.
abbrev pub AreAfter : ℕ → List Occupied → Type 0
AreAfter previous [] = Unit
AreAfter previous (o ∷ rows) = (previous < o.0) × AreAfter o.0 rows

-- The first region starts at `first` or later, none is empty, at most three rows of each are candidates for its
-- header, all of them its own, and an unoccupied row lies between two regions.
abbrev pub HasHeader : TableRegion → Type 0
HasHeader g =
    (length g.header_candidates ≤ 3)
    × All (λ (r : ℕ). (g.start_row ≤ r) × (r ≤ g.end_row)) g.header_candidates

abbrev pub AreSeparate : ℕ → List TableRegion → Type 0
AreSeparate first [] = Unit
AreSeparate first (g ∷ regions) =
    (first ≤ g.start_row)
    × ((g.start_row ≤ g.end_row) × (HasHeader g × AreSeparate (g.end_row + 2) regions))

length-range : (first n : ℕ) → length (range first n) ≡ n
unfolding range
length-range first zero = refl
length-range first (suc n) = ap suc (length-range (first + 1) n)

range_within :
    (first n start last : ℕ)
    → start ≤ first
    → first + n ≤ last + 1
    → All (λ (r : ℕ). (start ≤ r) × (r ≤ last)) (range first n)
unfolding range
range_within first zero start last h k = tt
range_within first (suc n) start last h k =
    ((h, omega arith), range_within (first + 1) n start last (omega arith) (omega arith))

region_of-HasHeader :
    (sheet : Text) (start previous column : ℕ) (columns : List ℕ)
    → start ≤ previous
    → HasHeader (region_of sheet start previous column columns)
region_of-HasHeader sheet start previous column columns h =
    let n = (if ltb (start + 2) previous then start + 2 else previous) + 1 - start in
    (
      ground (arith, length-range start n),
      range_within start n start previous (omega arith) (ground arith),
    )

module _ (sheet : Text) where
  regions_from_cover :
      (rows : List Occupied) (start previous column : ℕ) (columns : List ℕ) (r : ℕ)
      → start ≤ previous
      → any (spans r) (regions_from sheet start previous column columns rows)
        ≡ ((leb start r && leb r previous) || contains r (row_numbers rows))
  unfolding regions_from contains
  regions_from_cover [] start previous column columns r h = ground arith
  regions_from_cover ((current, (c, cs)) ∷ rows) start previous column columns r h =
      elim (Bool-cases (current == previous + 1)) [
        | inl joins ↦ rw joins (
            regions_from_cover rows start current column (columns ++ c ∷ cs) r
              (ground (arith, joins))
            ∙ ground (arith, joins))
        | inr parts ↦
            rw parts (ground (arith, regions_from_cover rows current current c cs r (omega arith)))
      ]

  regions_from_separate :
      (rows : List Occupied) (first start previous column : ℕ) (columns : List ℕ)
      → first ≤ start
      → start ≤ previous
      → AreAfter previous rows
      → AreSeparate first (regions_from sheet start previous column columns rows)
  unfolding regions_from
  regions_from_separate [] first start previous column columns f h after =
      (f, (h, (region_of-HasHeader sheet start previous column columns h, tt)))
  regions_from_separate ((current, (c, cs)) ∷ rows) first start previous column columns f h after =
      elim (Bool-cases (current == previous + 1)) [
        | inl joins ↦ rw joins (
            regions_from_separate rows first start current column (columns ++ c ∷ cs) f
              (omega (arith, h, after.0)) after.1)
        | inr parts ↦ rw parts (
          f,
          (
            h,
            (
              region_of-HasHeader sheet start previous column columns h,
              regions_from_separate rows (previous + 2) current current c cs
                  (ground (arith, parts, after.0)) (omega arith) after.1,
            ),
          ),
        )
      ]

contains-range : (first n r : ℕ) → contains r (range first n) ≡ (leb first r && ltb r (first + n))
unfolding contains range
contains-range first zero r = ground arith
contains-range first (suc n) r = ground (arith, contains-range (first + 1) n r)

abbrev is_nonempty {ℓ} : {A : Type ℓ} → List A → Bool
is_nonempty [] = false
is_nonempty (x ∷ xs) = true

is_nonempty-keep : {A : Type 0} (p : A → Bool) (xs : List A) → is_nonempty (keep p xs) ≡ any p xs
is_nonempty-keep p [] = refl
is_nonempty-keep p (x ∷ xs) = elim (Bool-cases (p x)) [
  | inl e ↦ rw e refl
  | inr e ↦ rw e (is_nonempty-keep p xs)
]

contains-enter_row :
    (row : ℕ) (columns : List ℕ) (rows : List Occupied) (r : ℕ)
    → contains r (row_numbers (enter_row row columns rows))
      ≡ ((row == r && is_nonempty columns) || contains r (row_numbers rows))
unfolding contains
contains-enter_row row [] rows r = ground arith
contains-enter_row row (c ∷ cs) rows r = ground arith

enter_row-AreAfter :
    (previous row : ℕ) (columns : List ℕ) (rows : List Occupied)
    → previous < row
    → AreAfter previous rows
    → AreAfter row rows
    → AreAfter previous (enter_row row columns rows)
enter_row-AreAfter previous row [] rows h a b = a
enter_row-AreAfter previous row (c ∷ cs) rows h a b = (h, b)

regions_of_cover :
    (sheet : Text) (rows : List Occupied) (r : ℕ)
    → any (spans r) (regions_of sheet rows) ≡ contains r (row_numbers rows)
unfolding regions_of contains
regions_of_cover sheet [] r = refl
regions_of_cover sheet ((row, (c, cs)) ∷ rows) r =
    regions_from_cover sheet rows row row c cs r (omega arith) ∙ ground arith

regions_of_separate :
    (sheet : Text) (first : ℕ) (rows : List Occupied)
    → AreAfter first rows
    → AreSeparate (first + 1) (regions_of sheet rows)
unfolding regions_of
regions_of_separate sheet first [] h = tt
regions_of_separate sheet first ((row, (c, cs)) ∷ rows) h =
    regions_from_separate sheet rows (first + 1) row row c cs (omega (arith, h.0)) (omega arith) h.1

module _ {Cell Number : Type 0} (ops : CellOps Cell Number) (sheet : Sheet Cell) where
  -- A row of the sheet with a cell that is neither empty nor `""`.
  abbrev pub is_occupied : ℕ → Bool
  is_occupied row =
      any (λ (column : ℕ). is_some (filled ops (cell_value ops sheet row column)))
        (range 1 sheet.max_column)

  occupied_rows-contains :
      (rows : List ℕ) (r : ℕ)
      → contains r (row_numbers (occupied_rows ops sheet rows)) ≡ (contains r rows && is_occupied r)
  unfolding occupied_rows contains filled_columns
  occupied_rows-contains [] r = refl
  occupied_rows-contains (row ∷ rows) r =
      let test = λ (column : ℕ). is_some (filled ops (cell_value ops sheet row column)) in
      let columns = range 1 sheet.max_column in
      contains-enter_row row (keep test columns) (occupied_rows ops sheet rows) r
      ∙ (elim (Bool-cases (row == r)) [
        | inl same ↦
            let at_r : is_occupied row ≡ is_occupied r =
              ap is_occupied ((nat_beq_iff row r).0 same) in
            rw (same, is_nonempty-keep test columns, at_r, occupied_rows-contains rows r)
              (ground arith)
        | inr differs ↦ rw differs (occupied_rows-contains rows r)
      ])

  occupied_rows-AreAfter :
      (n first previous : ℕ)
      → previous < first
      → AreAfter previous (occupied_rows ops sheet (range first n))
  unfolding occupied_rows range
  occupied_rows-AreAfter zero first previous h = tt
  occupied_rows-AreAfter (suc n) first previous h =
      enter_row-AreAfter previous first (filled_columns ops sheet first (range 1 sheet.max_column))
        (occupied_rows ops sheet (range (first + 1) n)) h
        (occupied_rows-AreAfter n (first + 1) previous (omega arith))
        (occupied_rows-AreAfter n (first + 1) first (omega arith))

  -- A row of the sheet lies in one of its regions exactly where it has a cell with a value; the regions come in
  -- order, none is empty, an unoccupied row lies between two of them, and the candidates for the header of
  -- each are at most three rows, all of the region.
  pub sheet_regions_lem :
      ((r : ℕ)
        → any (spans r) (sheet_regions ops sheet)
          ≡ (leb 1 r && (leb r sheet.max_row && is_occupied r)))
      × AreSeparate 1 (sheet_regions ops sheet)
  unfolding sheet_regions
  sheet_regions_lem = (
    λ r.
        regions_of_cover sheet.name (occupied_rows ops sheet (range 1 sheet.max_row)) r
        ∙ (occupied_rows-contains (range 1 sheet.max_row) r
            ∙ ground (arith, contains-range 1 sheet.max_row r)),
    regions_of_separate sheet.name 0 (occupied_rows ops sheet (range 1 sheet.max_row))
        (occupied_rows-AreAfter sheet.max_row 1 0 (omega arith)),
  )
