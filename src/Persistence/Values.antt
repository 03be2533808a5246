-- ===== src/Persistence/Values.antt =====
-- Python values that the store keeps, and JSON documents (apps/server/app/persistence.py). A string
-- is the text of an identifier, the ISO text of a point of time, or another text; `real` numbers the
-- floats.
use project_digital_twin.Base.{
  ℕ, Bool, true, false, ◌&&◌, Option, none, some, List, [], ◌∷◌, Text, ◌==◌, nat_eq, list_eq,
  pair_eq, option_eq,
}

pub data Str : Type 0 where
  plain : Text → Str
  of_uuid of_datetime : ℕ → Str

mutual
  pub data Py : Type 0 where
    null : Py
    flag : Bool → Py
    num real : ℕ → Py
    str : Str → Py
    uuid datetime : ℕ → Py
    dataclass : Text → PyFields → Py
    dict : PyEntries → Py
    set tuple list : PyItems → Py

  pub data PyItems : Type 0 where
    nil : PyItems
    cons : Py → PyItems → PyItems

  pub data PyEntries : Type 0 where
    empty : PyEntries
    entry : Py → Py → PyEntries → PyEntries

  pub data PyFields : Type 0 where
    stop : PyFields
    attr : Text → Py → PyFields → PyFields

mutual
  pub data Json : Type 0 where
    jnull : Json
    jflag : Bool → Json
    jnum jreal : ℕ → Json
    jstr : Str → Json
    arr : JsonItems → Json
    obj : JsonFields → Json

  pub data JsonItems : Type 0 where
    jnil : JsonItems
    jcons : Json → JsonItems → JsonItems

  pub data JsonFields : Type 0 where
    jend : JsonFields
    field : Text → Json → JsonFields → JsonFields

-- What decoding a dataclass needs of the class: its fields, and whether it is frozen.
pub record ClassInfo : Type 0 where
  pub names : List Text
  pub frozen : Bool

-- `_DOMAIN_DATACLASSES`
abbrev pub Registry : Type 0
Registry = Text → Option ClassInfo

unfoldable pub field_names : PyFields → List Text
field_names stop = []
field_names (attr name v fs) = name ∷ field_names fs

abbrev pub is_frozen : Option ClassInfo → Bool
is_frozen none = false
is_frozen (some c) = c.frozen

-- Whether `hash(v)` succeeds.
module _ (classes : Registry) where
  unfoldable mutual
    pub is_hashable : Py → Bool
    is_hashable (dict es) = false
    is_hashable (set xs) = false
    is_hashable (list xs) = false
    is_hashable (tuple xs) = are_hashable xs
    is_hashable (dataclass name fs) = is_frozen (classes name) && fields_hashable fs
    is_hashable v = true

    pub are_hashable : PyItems → Bool
    are_hashable nil = true
    are_hashable (cons v xs) = is_hashable v && are_hashable xs

    pub fields_hashable : PyFields → Bool
    fields_hashable stop = true
    fields_hashable (attr name v fs) = is_hashable v && fields_hashable fs

unfoldable pub str_beq : Str → Str → Bool
str_beq (plain a) (plain b) = a == b
str_beq (of_uuid a) (of_uuid b) = a == b
str_beq (of_datetime a) (of_datetime b) = a == b
str_beq _ _ = false

abbrev pub bit : Bool → ℕ
bit true = 1
bit false = 0

-- `v == w` for hashable values: the keys of a dict and the members of a set.
unfoldable mutual
  pub py_beq : Py → Py → Bool
  py_beq null null = true
  py_beq (flag a) (flag b) = bit a == bit b
  py_beq (flag a) (num n) = bit a == n
  py_beq (num n) (flag a) = n == bit a
  py_beq (num m) (num n) = m == n
  py_beq (real m) (real n) = m == n
  py_beq (str a) (str b) = str_beq a b
  py_beq (uuid m) (uuid n) = m == n
  py_beq (datetime m) (datetime n) = m == n
  py_beq (dataclass a fs) (dataclass b gs) = a == b && fields_beq fs gs
  py_beq (tuple xs) (tuple ys) = items_beq xs ys
  py_beq _ _ = false

  pub items_beq : PyItems → PyItems → Bool
  items_beq nil nil = true
  items_beq (cons v xs) (cons w ys) = py_beq v w && items_beq xs ys
  items_beq _ _ = false

  pub fields_beq : PyFields → PyFields → Bool
  fields_beq stop stop = true
  fields_beq (attr a v fs) (attr b w gs) = a == b && (py_beq v w && fields_beq fs gs)
  fields_beq _ _ = false
