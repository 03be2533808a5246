-- ===== src/Store/Values.antt =====
-- The values (`Any`) that the store keeps and compares. A value stands for its class under Python's
-- `==`: `uuid n` is the text of the identifier n and `str` has the other texts; `other` numbers the
-- classes of what has no constructor here (floats, nested dictionaries), `other 0` being `{}`.
use project_digital_twin.Base.{
  not, ℕ, ◌≡◌, ◌↔◌, Bool, true, false, ◌&&◌, Option, none, some, List, [], ◌∷◌, arith, Text, Dict,
  get, ◌==◌, Key, nat_eq, list_eq, pair_eq, option_eq, get_or, list_beq_iff,
}

unfoldable pub bool_beq : Bool → Bool → Bool
bool_beq true true = true
bool_beq false false = true
bool_beq _ _ = false

pub bool_beq_iff : (a b : Bool) → (bool_beq a b ≡ true) ↔ (a ≡ b)
unfolding bool_beq
bool_beq_iff true true = ground arith
bool_beq_iff true false = ground arith
bool_beq_iff false true = ground arith
bool_beq_iff false false = ground arith

mutual
  pub data Value : Type 0 where
    null : Value
    flag : Bool → Value
    num : ℕ → Value
    str : Text → Value
    uuid : ℕ → Value
    arr : Items → Value
    other : ℕ → Value

  pub data Items : Type 0 where
    nil : Items
    cons : Value → Items → Items

unfoldable mutual
  pub value_beq : Value → Value → Bool
  value_beq null null = true
  value_beq (flag a) (flag b) = bool_beq a b
  value_beq (num a) (num b) = a == b
  value_beq (str a) (str b) = a == b
  value_beq (uuid a) (uuid b) = a == b
  value_beq (arr a) (arr b) = items_beq a b
  value_beq (other a) (other b) = a == b
  value_beq _ _ = false

  pub items_beq : Items → Items → Bool
  items_beq nil nil = true
  items_beq (cons a xs) (cons b bs) = value_beq a b && items_beq xs bs
  items_beq _ _ = false

mutual
  unfolding value_beq items_beq

  value_beq_iff : (a b : Value) → (value_beq a b ≡ true) ↔ (a ≡ b)
  value_beq_iff null null = ground arith
  value_beq_iff null (flag b) = ground arith
  value_beq_iff null (num b) = ground arith
  value_beq_iff null (str b) = ground arith
  value_beq_iff null (uuid b) = ground arith
  value_beq_iff null (arr b) = ground arith
  value_beq_iff null (other b) = ground arith
  value_beq_iff (flag a) null = ground arith
  value_beq_iff (flag a) (flag b) = ground (arith, bool_beq_iff a b)
  value_beq_iff (flag a) (num b) = ground arith
  value_beq_iff (flag a) (str b) = ground arith
  value_beq_iff (flag a) (uuid b) = ground arith
  value_beq_iff (flag a) (arr b) = ground arith
  value_beq_iff (flag a) (other b) = ground arith
  value_beq_iff (num a) null = ground arith
  value_beq_iff (num a) (flag b) = ground arith
  value_beq_iff (num a) (num b) = ground arith
  value_beq_iff (num a) (str b) = ground arith
  value_beq_iff (num a) (uuid b) = ground arith
  value_beq_iff (num a) (arr b) = ground arith
  value_beq_iff (num a) (other b) = ground arith
  value_beq_iff (str a) null = ground arith
  value_beq_iff (str a) (flag b) = ground arith
  value_beq_iff (str a) (num b) = ground arith
  value_beq_iff (str a) (str b) = ground (arith, list_beq_iff a b)
  value_beq_iff (str a) (uuid b) = ground arith
  value_beq_iff (str a) (arr b) = ground arith
  value_beq_iff (str a) (other b) = ground arith
  value_beq_iff (uuid a) null = ground arith
  value_beq_iff (uuid a) (flag b) = ground arith
  value_beq_iff (uuid a) (num b) = ground arith
  value_beq_iff (uuid a) (str b) = ground arith
  value_beq_iff (uuid a) (uuid b) = ground arith
  value_beq_iff (uuid a) (arr b) = ground arith
  value_beq_iff (uuid a) (other b) = ground arith
  value_beq_iff (arr a) null = ground arith
  value_beq_iff (arr a) (flag b) = ground arith
  value_beq_iff (arr a) (num b) = ground arith
  value_beq_iff (arr a) (str b) = ground arith
  value_beq_iff (arr a) (uuid b) = ground arith
  value_beq_iff (arr a) (arr b) = ground (arith, items_beq_iff a b)
  value_beq_iff (arr a) (other b) = ground arith
  value_beq_iff (other a) null = ground arith
  value_beq_iff (other a) (flag b) = ground arith
  value_beq_iff (other a) (num b) = ground arith
  value_beq_iff (other a) (str b) = ground arith
  value_beq_iff (other a) (uuid b) = ground arith
  value_beq_iff (other a) (arr b) = ground arith
  value_beq_iff (other a) (other b) = ground arith

  items_beq_iff : (a b : Items) → (items_beq a b ≡ true) ↔ (a ≡ b)
  items_beq_iff nil nil = ground arith
  items_beq_iff nil (cons b ys) = ground arith
  items_beq_iff (cons a xs) nil = ground arith
  items_beq_iff (cons a xs) (cons b ys) = ground (arith, value_beq_iff a b, items_beq_iff xs ys)

pub value_iff : (a b : Value) → (value_beq a b ≡ true) ↔ (a ≡ b)
value_iff a b = value_beq_iff a b

instance abbrev pub value_eq : Key Value
value_eq = record { eqb_iff = value_iff; eqb = value_beq }

-- A dictionary of values under their names.
abbrev pub Fields : Type 0
Fields = Dict Text Value

-- `d.get(name)`, which is `None` for a missing name
abbrev pub field_of : Fields → Text → Value
field_of d name = get_or (get d name) null

-- `[str(x) for x in ids]`
unfoldable pub uuids : List ℕ → Items
uuids [] = nil
uuids (x ∷ xs) = cons (uuid x) (uuids xs)

-- `str(x) if x else None`, `x` an optional id; likewise for texts and numbers
unfoldable pub maybe_uuid : Option ℕ → Value
maybe_uuid none = null
maybe_uuid (some x) = uuid x

unfoldable pub maybe_str : Option Text → Value
maybe_str none = null
maybe_str (some x) = str x

-- `bool(x)`, `other` having a single falsy class, `{}` (`0.0` equals `num 0`)
unfoldable pub is_truthy : Value → Bool
is_truthy null = false
is_truthy (flag b) = b
is_truthy (num n) = not (n == 0)
is_truthy (str t) = not (t == [])
is_truthy (uuid n) = true
is_truthy (arr nil) = false
is_truthy (arr (cons x xs)) = true
is_truthy (other n) = not (n == 0)
