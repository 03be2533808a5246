-- ===== src/Adapters/Cells.antt =====
-- What the adapters ask of the values in a workbook, of Unicode and of the standard library
-- (apps/server/app/adapters/files/importers/excel.py, apps/server/app/shared/normalization.py).
use project_digital_twin.Base.{ℕ, Bool, Option, Text, Dict, nat_eq, list_eq, pair_eq, option_eq}
use project_digital_twin.Store.Values.{Value, value_eq}

-- The header of a column and the value in a row; a value of Python that is None is `none`.
abbrev pub Row : Type 0 → Type 0
Row Cell = Dict Text (Option Cell)

pub record CellOps (Cell Number : Type 0) : Type 0 where
  -- `str(value)`, `value == ""` and `float(value)`, which may raise
  pub str_of : Cell → Text
  pub is_blank : Cell → Bool
  pub float_of : Cell → Option Number
  -- `isinstance(value, str) and value.startswith("=")`
  pub is_formula : Cell → Bool
  -- `get_column_letter`
  pub column_letter : ℕ → Text
  -- `<=` on floats, and the degrees that bound a latitude and a longitude
  pub le : Number → Number → Bool
  pub south : Number
  pub north : Number
  pub west : Number
  pub east : Number
  -- the value of a decimal digit of Unicode, as `int` reads it
  pub digit : ℕ → Option ℕ
  -- `str(ip_address(text))`, which may raise
  pub ip_address : Text → Option Text
  -- the dict of a latitude, a longitude and the raw row
  pub properties : Option Number → Option Number → Row Cell → Value

-- A value, or the message of a `ValueError`.
pub data Checked (A : Type 0) : Type 0 where
  good : A → Checked A
  invalid : (message : Text) → Checked A

infixl 20 ◌>>=◌
-- Statements in a `try` block: the first exception ends it.
abbrev pub ◌>>=◌ : {A B : Type 0} → Checked A → (A → Checked B) → Checked B
good a >>= f = f a
invalid message >>= f = invalid message
