-- ===== src/Adapters/Normalization.antt =====
-- `normalize_text`, `normalize_ip` and `normalize_coordinate` (apps/server/app/shared/normalization.py).
use project_digital_twin.Base.{
  ℕ, ◌+◌, ◌*◌, Bool, false, ◌&&◌, ◌||◌, not, Option, none, some, List, [], ◌∷◌, ◌++◌, Text, text,
  strip, ◌==◌, nat_eq, list_eq, pair_eq, option_eq, is_some, all, ltb, leb, if◌then◌else◌,
}
use project_digital_twin.Store.Values.{value_eq}
use project_digital_twin.Projects.Codes.{decimal}
use project_digital_twin.Organize.Names.{normalize_text}
use project_digital_twin.Adapters.Cells.{CellOps, Checked, good, invalid}

-- `text.count(c)`
unfoldable pub count : ℕ → Text → ℕ
count c [] = 0
count c (d ∷ t) = (if d == c then 1 else 0) + count c t

-- A text put before the first of a list of parts.
abbrev pub put_front : ℕ → List Text → List Text
put_front c [] = (c ∷ []) ∷ []
put_front c (part ∷ parts) = (c ∷ part) ∷ parts

-- `text.split(c)`
unfoldable pub split : ℕ → Text → List Text
split c [] = [] ∷ []
split c (d ∷ t) = let parts = split c t in if d == c then [] ∷ parts else put_front d parts

-- `c.join(parts)`
unfoldable pub join : ℕ → List Text → Text
join c [] = []
join c (part ∷ parts) =
    let rest = join c parts in elim parts [ [] ↦ part | _ ∷ _ ↦ part ++ c ∷ rest ]

-- An octet that is neither below 0 nor above 255.
abbrev pub is_octet : Bool × ℕ → Bool
is_octet (negative, n) = not (negative && ltb 0 n) && leb n 255

abbrev pub ip_message : Text
ip_message = text "Invalid IP address"

-- `".".join(str(octet) for octet in octets)`
unfoldable pub dotted : List (Bool × ℕ) → List Text
dotted [] = []
dotted ((negative, n) ∷ os) = decimal n ∷ dotted os

abbrev pub join_octets : Option (List (Bool × ℕ)) → Checked (Option Text)
join_octets none = invalid ip_message
join_octets (some os) =
    if all is_octet os then good (some (join 46 (dotted os))) else invalid ip_message

abbrev pub other_address : Option Text → Checked (Option Text)
other_address none = invalid ip_message
other_address (some address) = good (some address)

module _ {Cell Number : Type 0} (ops : CellOps Cell Number) where
  -- `normalize_text`, where None stays None
  abbrev pub cell_text : Option Cell → Option Text
  cell_text none = none
  cell_text (some c) = normalize_text (ops.str_of c)

  -- The digits of a number with single underscores between them; `after` says that the last character
  -- was a digit.
  unfoldable pub read_digits : Text → (value : ℕ) → (after : Bool) → Option ℕ
  read_digits [] value after = if after then some value else none
  read_digits (c ∷ t) value after =
      let d = ops.digit c in
      let rest = read_digits t (elim d [ none ↦ value | some k ↦ value * 10 + k ]) (is_some d) in
      if is_some d || (c == 95 && after) then rest else none

  -- A sign and an absolute value.
  unfoldable pub read_signed : Text → Option (Bool × ℕ)
  read_signed [] = none
  read_signed (c ∷ t) =
      let digits = read_digits (if c == 45 || c == 43 then t else c ∷ t) 0 false in
      elim digits [ none ↦ none | some n ↦ some (c == 45, n) ]

  -- `int(part, 10)`
  abbrev pub read_int : Text → Option (Bool × ℕ)
  read_int part = read_signed (strip part)

  unfoldable pub octets_of : List Text → Option (List (Bool × ℕ))
  octets_of [] = some []
  octets_of (part ∷ parts) =
      let rest = octets_of parts in
      elim (read_int part) [
        | none ↦ none
        | some o ↦ elim rest [ none ↦ none | some os ↦ some (o ∷ os) ]
      ]

  unfoldable pub normalize_address : Option Text → Checked (Option Text)
  normalize_address none = good none
  normalize_address (some t) =
      if count 46 t == 3
      then join_octets (octets_of (split 46 t))
      else other_address (ops.ip_address t)

  unfoldable pub normalize_ip : Option Cell → Checked (Option Text)
  normalize_ip value = normalize_address (cell_text value)

  abbrev pub within : Number → Number → Text → Option Number → Checked (Option Number)
  within minimum maximum name none = invalid (text "Invalid " ++ name)
  within minimum maximum name (some number) =
      if ops.le minimum number && ops.le number maximum
      then good (some number)
      else invalid (text "Invalid " ++ name)

  unfoldable pub normalize_coordinate :
      Option Cell → (minimum maximum : Number) → (name : Text) → Checked (Option Number)
  normalize_coordinate none minimum maximum name = good none
  normalize_coordinate (some c) minimum maximum name =
      if ops.is_blank c then good none else within minimum maximum name (ops.float_of c)
