-- ===== src/Adapters/Rows.antt =====
-- Every row of a sheet becomes a camera or an issue, and no code is given to two cameras
-- (apps/server/app/adapters/files/importers/excel.py).
use project_digital_twin.Base.{
  ℕ, zero, suc, ◌+◌, ◌≡◌, refl, ◌⊎◌, inl, inr, Bool, true, false, Option, none, some, List, [], ◌∷◌,
  ◌++◌, arith, Text, text, contains, ◌==◌, nat_eq, list_eq, pair_eq, option_eq, length, Bool-cases,
  if◌then◌else◌,
}
use project_digital_twin.Store.Values.{str, value_eq}
use project_digital_twin.Store.Tables.{Camera, ImportIssue}
use project_digital_twin.Adapters.Cells.{Row, CellOps, Checked, good, invalid}
use project_digital_twin.Adapters.CameraRows.{
  ParseArgs, RowOutcome, parsed, refused, row_issue, see, column_of, text_of, Located, locate,
  row_camera, located_row, row_with, add_outcome, ids_after, parse_rows, parse_camera_rows,
}

abbrev pub source_row : Camera → Option ℕ
source_row x = elim x.source [ none ↦ none | some l ↦ some l.row ]

-- The rows from `row` on, as many as `n`, are shared between the two lists, each in order.
abbrev pub IsShared : (n row : ℕ) → List Camera → List ImportIssue → Type 0
IsShared zero row cameras issues = (cameras ≡ []) × (issues ≡ [])
IsShared (suc n) row cameras issues =
    ((x : Camera) × (rest : List Camera) × (cameras ≡ x ∷ rest)
      × (source_row x ≡ some row)
      × IsShared n (row + 1) rest issues)
    ⊎ ((i : ImportIssue) × (rest : List ImportIssue) × (issues ≡ i ∷ rest)
        × (i.row ≡ row)
        × IsShared n (row + 1) cameras rest)

-- The codes are texts, and none is among those seen before or at another camera.
abbrev pub AreCoded : List Text → List Camera → Type 0
AreCoded seen [] = Unit
AreCoded seen (x ∷ cameras) =
    (code : Text) × (x.code ≡ str code)
    × (contains code seen ≡ false)
    × AreCoded (code ∷ seen) cameras

abbrev IsWithin : List Text → List Text → Type 0
IsWithin seen seen' = (c : Text) → contains c seen ≡ true → contains c seen' ≡ true

outside :
    (seen seen' : List Text) (code : Text)
    → IsWithin seen seen'
    → contains code seen' ≡ false
    → contains code seen ≡ false
outside seen seen' code w new = elim (Bool-cases (contains code seen)) [
  | inl there ↦ absurd (cc (w code there, new))
  | inr not_there ↦ not_there
]

IsWithin-cons :
    (seen seen' : List Text) (code : Text)
    → IsWithin seen seen'
    → IsWithin (code ∷ seen) (code ∷ seen')
unfolding contains
IsWithin-cons seen seen' code w c p = elim (Bool-cases (code == c)) [
  | inl same ↦ rw same refl
  | inr differs ↦ rw differs (w c (rw differs at p))
]

AreCoded-IsWithin :
    (seen seen' : List Text) (cameras : List Camera)
    → IsWithin seen seen'
    → AreCoded seen' cameras
    → AreCoded seen cameras
AreCoded-IsWithin seen seen' [] w h = tt
AreCoded-IsWithin seen seen' (x ∷ cameras) w (code, e, new, h) = (
  code,
  e,
  outside seen seen' code w new,
  AreCoded-IsWithin (code ∷ seen) (code ∷ seen') cameras (IsWithin-cons seen seen' code w) h,
)

see-IsWithin : (o : Option Text) (seen : List Text) → IsWithin seen (see o seen)
unfolding contains
see-IsWithin none seen c h = h
see-IsWithin (some code) seen c h = elim (Bool-cases (contains code seen)) [
  | inl there ↦ rw there h
  | inr new ↦ rw (new, h) (ground arith)
]

-- The rows are shared, and the codes are new.
abbrev pub AreParsed : (n row : ℕ) → List Text → List Camera × List ImportIssue → Type 0
AreParsed n row seen out = IsShared n row out.0 out.1 × AreCoded seen out.0

module _ {Cell Number : Type 0} (ops : CellOps Cell Number) (args : ParseArgs) where
  -- The rest of the rows, behind a row that became an issue or a camera.
  after_issue :
      (n row : ℕ) (o : Option Text) (seen : List Text) (i : ImportIssue)
      (rest : List Camera × List ImportIssue)
      → i.row ≡ row
      → AreParsed n (row + 1) (see o seen) rest
      → AreParsed (suc n) row seen (add_outcome (refused i) rest)
  after_issue n row o seen i (cameras, issues) e (shared, coded) = (
    inr (i, issues, refl, e, shared),
    AreCoded-IsWithin seen (see o seen) cameras (see-IsWithin o seen) coded,
  )

  after_camera :
      (n row : ℕ) (code : Text) (seen : List Text) (x : Camera)
      (rest : List Camera × List ImportIssue)
      → source_row x ≡ some row
      → x.code ≡ str code
      → contains code seen ≡ false
      → AreParsed n (row + 1) (see (some code) seen) rest
      → AreParsed (suc n) row seen (add_outcome (parsed x) rest)
  after_camera n row code seen x (cameras, issues) e c new (shared, coded) =
      (inl (x, cameras, refl, e, shared), (code, c, new, rw (new, see) at coded))

  after_located :
      (raw : Row Cell) (n row id : ℕ) (code : Text) (seen : List Text) (l : Checked (Located ops))
      (rest : RowOutcome → List Camera × List ImportIssue)
      → contains code seen ≡ false
      → ((out : RowOutcome) → AreParsed n (row + 1) (see (some code) seen) (rest out))
      → (let out = located_row ops args raw row id code l in
          AreParsed (suc n) row seen (add_outcome out (rest out)))
  after_located raw n row id code seen (good l) rest new ih =
      after_camera n row code seen (row_camera ops args raw row id code l)
        (rest (parsed (row_camera ops args raw row id code l))) refl refl new (ih _)
  after_located raw n row id code seen (invalid message) rest new ih =
      after_issue n row (some code) seen (row_issue (text "INVALID_VALUE") message row none)
        (rest _) refl (ih _)

  after_row :
      (raw : Row Cell) (n row id : ℕ) (code : Option Text) (seen : List Text)
      (rest : RowOutcome → List Camera × List ImportIssue)
      → ((out : RowOutcome) → AreParsed n (row + 1) (see code seen) (rest out))
      → (let out = row_with ops args raw row id code seen in
          AreParsed (suc n) row seen (add_outcome out (rest out)))
  after_row raw n row id none seen rest ih = after_issue n row none seen _ (rest _) refl (ih _)
  after_row raw n row id (some code) seen rest ih = by_test (contains code seen) refl
    where
      by_test :
          (b : Bool)
          → contains code seen ≡ b
          → (let out =
                if b
                then refused (
                    row_issue
                      (text "DUPLICATE_CAMERA_CODE")
                      (text "Duplicate Camera code: " ++ code)
                      row
                      (column_of ops raw args.aliases.code))
                else located_row ops args raw row id code (locate ops raw args.aliases) in
              AreParsed (suc n) row seen (add_outcome out (rest out)))
      by_test true e = after_issue n row (some code) seen _ (rest _) refl (ih _)
      by_test false e = after_located raw n row id code seen (locate ops raw args.aliases) rest e ih

  parse_rows_lem :
      (fresh : ℕ → ℕ) (rows : List (Row Cell)) (row : ℕ) (seen : List Text) (drawn : ℕ)
      → AreParsed (length rows) row seen (parse_rows ops args fresh rows row seen drawn)
  unfolding parse_rows
  parse_rows_lem fresh [] row seen drawn = ((refl, refl), tt)
  parse_rows_lem fresh (raw ∷ rows) row seen drawn =
      let code = text_of ops raw args.aliases.code in
      after_row raw (length rows) row (fresh drawn) code seen
        (λ out. parse_rows ops args fresh rows (row + 1) (see code seen) (ids_after out drawn))
        (λ out. parse_rows_lem fresh rows (row + 1) (see code seen) (ids_after out drawn))

  -- Each of the rows becomes either a camera or an issue with the number of the row, both lists being in the
  -- order of the rows, and no two of the cameras have the same code.
  pub parse_camera_rows_lem :
      (row_start : ℕ) (fresh : ℕ → ℕ) (rows : List (Row Cell))
      → AreParsed (length rows) row_start [] (parse_camera_rows ops args row_start fresh rows)
  unfolding parse_camera_rows
  parse_camera_rows_lem row_start fresh rows = parse_rows_lem fresh rows row_start [] 0
