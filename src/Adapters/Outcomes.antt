-- ===== src/Adapters/Outcomes.antt =====
-- What the mapping of columns asks of values and of Python's texts, with the exceptions
-- (apps/server/app/adapters/files/importers/mapping.py).
use project_digital_twin.Base.{
  ℕ, zero, suc, ◌-◌, Bool, true, false, ◌&&◌, Option, List, [], ◌∷◌, ◌++◌, Text, text, ◌==◌, nat_eq,
  list_eq, pair_eq, option_eq, length, ltb, leb, if◌then◌else◌,
}
use project_digital_twin.Adapters.Cells.{Row}
use project_digital_twin.Store.Values.{value_eq}

-- The exceptions of the module, those of the calls it makes included.
pub data Exception : Type 0 where
  key_error index_error overflow_error pattern_error : Exception
  type_error value_error : (message : Text) → Exception

pub data Outcome (A : Type 0) : Type 0 where
  done : A → Outcome A
  raised : Exception → Outcome A

-- What the module asks of a value, and of the calls of Python on it.
pub record ValueOps (Cell : Type 0) : Type 0 where
  -- `str(value)`, where None gives its name, and `value == ""`
  pub str_of : Option Cell → Text
  pub is_blank : Cell → Bool
  -- the text, the truth value, the number and the date of a value of that type
  pub text_cell : Text → Cell
  pub bool_cell : Bool → Cell
  pub bool_of : Cell → Option Bool
  pub is_number : Cell → Bool
  pub isoformat : Cell → Option Text
  -- `float(value)` and `int(value)`, which gives a sign and an absolute value
  pub float_of : Cell → Outcome Cell
  pub int_of : Option Cell → Outcome (Bool × ℕ)
  -- `datetime.fromisoformat(text).date().isoformat()`
  pub date_of : Text → Outcome Text
  -- `text.lower()` and `re.sub(pattern, replacement, text)`
  pub lower : Text → Text
  pub sub : (pattern replacement t : Text) → Outcome Text

-- A rule is a dict; its kind is a string where it is there.
pub record Rule (Cell : Type 0) : Type 0 where
  pub kind : Option Text
  pub options : Row Cell

infixl 20 ◌>>=◌
abbrev pub ◌>>=◌ : {A B : Type 0} → Outcome A → (A → Outcome B) → Outcome B
done a >>= f = f a
raised e >>= f = raised e

-- `t.startswith(prefix)`
unfoldable pub starts_with : Text → Text → Bool
starts_with [] t = true
starts_with (c ∷ prefix) [] = false
starts_with (c ∷ prefix) (d ∷ t) = c == d && starts_with prefix t

-- `t.replace(old, new)`, with `skip` characters of an occurrence to go. An empty `old` is found before
-- each character and at the end.
unfoldable pub replace_from : (old new : Text) → (skip : ℕ) → Text → Text
unfolding starts_with
replace_from old new skip [] = if old == [] then new else []
replace_from old new (suc skip) (c ∷ t) = replace_from old new skip t
replace_from old new zero (c ∷ t) =
    let found = replace_from old new (length old - 1) t in
    let next = replace_from old new 0 t in
    if old == []
    then new ++ c ∷ next
    else if starts_with old (c ∷ t)
    then new ++ found
    else c ∷ next

-- A character put before the first part.
abbrev pub enter_part : ℕ → List Text → List Text
enter_part c [] = (c ∷ []) ∷ []
enter_part c (part ∷ parts) = (c ∷ part) ∷ parts

-- `t.split(delimiter)` at a delimiter that is not empty
unfoldable pub split_from : (delimiter : Text) → (skip : ℕ) → Text → List Text
unfolding starts_with
split_from delimiter skip [] = [] ∷ []
split_from delimiter (suc skip) (c ∷ t) = split_from delimiter skip t
split_from delimiter zero (c ∷ t) =
    let found = split_from delimiter (length delimiter - 1) t in
    let next = split_from delimiter 0 t in
    if starts_with delimiter (c ∷ t) then [] ∷ found else enter_part c next

unfoldable pub split_text : (delimiter t : Text) → Outcome (List Text)
split_text [] t = raised (value_error (text "empty separator"))
split_text (c ∷ delimiter) t = done (split_from (c ∷ delimiter) 0 t)

-- `parts[index]`, which counts from the end below 0
unfoldable pub nth : List Text → ℕ → Outcome Text
nth [] index = raised index_error
nth (part ∷ parts) zero = done part
nth (part ∷ parts) (suc index) = nth parts index

abbrev pub part_at : List Text → Bool × ℕ → Outcome Text
part_at parts (negative, n) =
    if negative && ltb 0 n
    then (if leb n (length parts) then nth parts (length parts - n) else raised index_error)
    else nth parts n
