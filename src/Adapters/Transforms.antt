-- ===== src/Adapters/Transforms.antt =====
-- The values of a mapped column: `infer_data_type`, `apply_transform` and `_convert`
-- (apps/server/app/adapters/files/importers/mapping.py).
use project_digital_twin.Base.{
  ℕ, Bool, true, false, ◌&&◌, not, Option, none, some, List, [], ◌∷◌, ◌++◌, Text, text, strip,
  Platform, get, values, contains, ◌==◌, nat_eq, list_eq, pair_eq, option_eq, is_some, get_or,
  length, all, if◌then◌else◌,
}
use project_digital_twin.Adapters.Cells.{Row}
use project_digital_twin.Organize.Names.{normalize_text}
use project_digital_twin.Store.Values.{value_eq}
use project_digital_twin.Adapters.Outcomes.{
  Exception, type_error, value_error, Outcome, done, raised, ValueOps, Rule, ◌>>=◌, replace_from,
  split_text, part_at,
}

abbrev pub true_words : List Text
true_words = text "true" ∷ text "yes" ∷ text "y" ∷ []

abbrev pub false_words : List Text
false_words = text "false" ∷ text "no" ∷ text "n" ∷ []

abbrev pub is_value_error : Exception → Bool
is_value_error (type_error message) = true
is_value_error (value_error message) = true
is_value_error _ = false

module _ {Cell : Type 0} (ops : ValueOps Cell) where
  -- `value is None or value == ""`
  abbrev pub is_nothing : Option Cell → Bool
  is_nothing none = true
  is_nothing (some v) = ops.is_blank v

  -- `options.get(key, default)` as a string
  abbrev pub option_text : Option (Option Cell) → (fallback : Text) → Text
  option_text none fallback = fallback
  option_text (some v) fallback = ops.str_of v

  abbrev pub option_index : Option (Option Cell) → Outcome (Bool × ℕ)
  option_index none = done (false, 0)
  option_index (some v) = ops.int_of v

  abbrev pub text_value : Outcome Text → Outcome (Option Cell)
  text_value (done t) = done (some (ops.text_cell t))
  text_value (raised e) = raised e

  module _ (p : Platform) where
    -- A rule on a value that is not None, as a text.
    unfoldable pub transform : (kind : Text) → Row Cell → (v : Cell) → Outcome (Option Cell)
    transform kind options v =
        let t = ops.str_of (some v) in
        if kind == text "trim"
        then text_value (done (strip t))
        else if kind == text "upper"
        then text_value (done (p.upper t))
        else if kind == text "lower"
        then text_value (done (ops.lower t))
        else if kind == text "replace"
        then text_value (
            done (
              replace_from (option_text (get options (text "old")) [])
                (option_text (get options (text "new")) []) 0 t))
        else if kind == text "regex_replace"
        then text_value (
            ops.sub (option_text (get options (text "pattern")) [])
              (option_text (get options (text "replacement")) []) t)
        else if kind == text "split"
        then text_value (
            split_text (option_text (get options (text "delimiter")) (text ",")) t >>= λ parts.
            option_index (get options (text "index")) >>= λ index.
            part_at parts index >>= λ part. done (strip part))
        else done (some v)

    abbrev pub kinds : List Text
    kinds =
        text "trim"
        ∷ text "upper"
        ∷ text "lower"
        ∷ text "replace"
        ∷ text "regex_replace"
        ∷ text "split"
        ∷ text "coalesce"
        ∷ []

    abbrev pub unsupported : Text → Exception
    unsupported kind = value_error (text "Unsupported mapping transform: " ++ kind)

    abbrev pub transform_by : Option Text → Row Cell → Option Cell → Outcome (Option Cell)
    transform_by none options v = done v
    transform_by (some kind) options v =
        if kind == text "coalesce"
        then done (if is_nothing v then get_or (get options (text "value")) none else v)
        else if contains kind kinds
        then elim v [ none ↦ done none | some c ↦ transform kind options c ]
        else raised (unsupported kind)

    unfoldable pub apply_transform : Option Cell → List (Rule Cell) → Outcome (Option Cell)
    apply_transform v [] = done v
    apply_transform v (r ∷ rules) =
        transform_by r.kind r.options v >>= λ result. apply_transform result rules

    abbrev pub bool_by : Option Bool → Cell → Outcome (Option Cell)
    bool_by (some b) v = done (some v)
    bool_by none v =
        let word = p.casefold (strip (ops.str_of (some v))) in
        if contains word true_words
        then done (some (ops.bool_cell true))
        else if contains word false_words
        then done (some (ops.bool_cell false))
        else raised (value_error (text "Invalid boolean"))

    abbrev pub date_by : Option Text → Cell → Outcome (Option Cell)
    date_by (some t) v = done (some (ops.text_cell t))
    date_by none v = text_value (ops.date_of (strip (ops.str_of (some v))))

    abbrev pub number_by : Outcome Cell → Outcome (Option Cell)
    number_by (done v) = done (some v)
    number_by (raised e) = raised e

    abbrev pub normalized_cell : Option Text → Option Cell
    normalized_cell none = none
    normalized_cell (some t) = some (ops.text_cell t)

    abbrev pub convert_some : Cell → (data_type : Text) → Outcome (Option Cell)
    convert_some v data_type =
        if data_type == text "text"
        then done (normalized_cell (normalize_text (ops.str_of (some v))))
        else if data_type == text "number"
        then number_by (ops.float_of v)
        else if data_type == text "boolean"
        then bool_by (ops.bool_of v) v
        else if data_type == text "date"
        then date_by (ops.isoformat v) v
        else done (some v)

    -- `_convert`
    unfoldable pub convert : Option Cell → (data_type : Text) → Outcome (Option Cell)
    convert none data_type = done none
    convert (some v) data_type = if ops.is_blank v then done none else convert_some v data_type

    -- The values that are neither None nor blank.
    unfoldable pub present_values : List (Option Cell) → List Cell
    present_values [] = []
    present_values (v ∷ values) =
        let rest = present_values values in
        elim v [ none ↦ rest | some c ↦ if ops.is_blank c then rest else c ∷ rest ]

    abbrev pub is_word : Cell → Bool
    is_word v = contains (p.casefold (strip (ops.str_of (some v)))) (true_words ++ false_words)

    abbrev pub is_plain_number : Cell → Bool
    is_plain_number v = ops.is_number v && not (is_some (ops.bool_of v))

    abbrev pub inferred : Exception → Outcome Text
    inferred e = if is_value_error e then done (text "text") else raised e

    -- The last loop of `infer_data_type`, with the exception that ends it.
    unfoldable pub infer_number : List Cell → Outcome Text
    infer_number [] = done (text "number")
    infer_number (v ∷ values) =
        let rest = infer_number values in
        elim (ops.float_of (ops.text_cell (strip (ops.str_of (some v))))) [
          | done _ ↦ rest
          | raised e ↦ inferred e
        ]

    unfoldable pub infer_data_type : List (Option Cell) → Outcome Text
    infer_data_type values =
        let present = present_values values in
        if length present == 0
        then done (text "text")
        else if all (λ v. is_some (ops.bool_of v)) present
        then done (text "boolean")
        else if all is_plain_number present
        then done (text "number")
        else if all (λ v. is_some (ops.isoformat v)) present
        then done (text "date")
        else if all is_word present
        then done (text "boolean")
        else infer_number present
