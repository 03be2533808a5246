-- ===== src/Persistence/Decoding.antt =====
-- `_decode` (apps/server/app/persistence.py). `none` is an exception. A document that is not of the form
-- that `_encode` writes (a number under "items", other keyword arguments for a class) counts as one that
-- raises.
use project_digital_twin.Base.{
  Bool, false, Option, none, some, Text, text, ◌==◌, nat_eq, list_eq, pair_eq, option_eq,
  if◌then◌else◌,
}
use project_digital_twin.Persistence.Values.{
  Str, plain, of_uuid, of_datetime, Py, null, flag, num, real, str, uuid, datetime, dataclass, dict,
  set, tuple, list, PyItems, nil, cons, PyEntries, empty, entry, PyFields, stop, attr, Json, jnull,
  jflag, jnum, jreal, jstr, arr, obj, JsonItems, jnil, jcons, JsonFields, jend, field, ClassInfo,
  Registry, field_names, is_hashable, py_beq,
}

abbrev pub both {ℓ} : {A B C : Type ℓ} → (A → B → C) → Option A → Option B → Option C
both f (some a) (some b) = some (f a b)
both f _ _ = none

abbrev pub map_some {ℓ} : {A B : Type ℓ} → (A → B) → Option A → Option B
map_some f none = none
map_some f (some a) = some (f a)

abbrev pub then_some {ℓ} : {A B : Type ℓ} → Option A → (A → Option B) → Option B
then_some none f = none
then_some (some a) f = f a

-- `value.get(name)`, where it is a string
unfoldable pub text_at : Text → JsonFields → Option Str
text_at name jend = none
text_at name (field k (jstr s) fs) =
    let rest = text_at name fs in if k == name then some s else rest
text_at name (field k v fs) = let rest = text_at name fs in if k == name then none else rest

abbrev pub is_kind : Option Str → Text → Bool
is_kind (some (plain k)) kind = k == kind
is_kind _ kind = false

-- `d[k] = v` while a dict is built
unfoldable pub put_entry : Py → Py → PyEntries → PyEntries
put_entry k v empty = entry k v empty
put_entry k v (entry j w es) =
    let rest = put_entry k v es in if py_beq j k then entry j v es else entry j w rest

unfoldable pub add_item : Py → PyItems → PyItems
add_item v nil = cons v nil
add_item v (cons w xs) = let rest = add_item v xs in if py_beq w v then cons w xs else cons w rest

-- `{name: item for …}` of an object without a kind
unfoldable pub named_entries : PyFields → PyEntries
named_entries stop = empty
named_entries (attr name v fs) = entry (str (plain name)) v (named_entries fs)

module _ (classes : Registry) where
  -- The comprehensions: an unhashable key or member raises.
  unfoldable pub build_dict : PyEntries → PyEntries → Option PyEntries
  build_dict d empty = some d
  build_dict d (entry k v es) =
      let rest = build_dict (put_entry k v d) es in if is_hashable classes k then rest else none

  unfoldable pub build_set : PyItems → PyItems → Option PyItems
  build_set d nil = some d
  build_set d (cons v xs) =
      let rest = build_set (add_item v d) xs in if is_hashable classes v then rest else none

  -- `data_class(**fields)`
  abbrev pub construct : Text → PyFields → Option ClassInfo → Option Py
  construct name fs none = none
  construct name fs (some c) = if field_names fs == c.names then some (dataclass name fs) else none

  abbrev pub decode_uuid : Option Str → Option Py
  decode_uuid (some (of_uuid n)) = some (uuid n)
  decode_uuid _ = none

  abbrev pub decode_datetime : Option Str → Option Py
  decode_datetime (some (of_datetime n)) = some (datetime n)
  decode_datetime _ = none

  abbrev pub decode_class : Option Str → Option PyFields → Option Py
  decode_class (some (plain name)) (some fs) = construct name fs (classes name)
  decode_class _ _ = none

  -- The tests on `kind`. The arguments are the strings under "__kind__", "value" and "type", the decoded
  -- items, pairs and fields under "items" and "fields", and the decoded object.
  unfoldable pub decode_object :
      (kind value type : Option Str)
      → (items : Option PyItems) → (pairs : Option PyEntries) → (fields whole : Option PyFields)
      → Option Py
  decode_object kind value type items pairs fields whole =
      if is_kind kind (text "uuid")
      then decode_uuid value
      else if is_kind kind (text "datetime")
      then decode_datetime value
      else if is_kind kind (text "dict")
      then then_some pairs (λ es. map_some dict (build_dict empty es))
      else if is_kind kind (text "set")
      then then_some items (λ xs. map_some set (build_set nil xs))
      else if is_kind kind (text "tuple")
      then map_some tuple items
      else if is_kind kind (text "dataclass")
      then decode_class type fields
      else then_some whole (λ fs. map_some dict (build_dict empty (named_entries fs)))

  unfoldable mutual
    pub decode : Json → Option Py
    decode jnull = some null
    decode (jflag b) = some (flag b)
    decode (jnum n) = some (num n)
    decode (jreal n) = some (real n)
    decode (jstr s) = some (str s)
    decode (arr xs) = map_some list (decode_items xs)
    decode (obj fs) =
        decode_object (text_at (text "__kind__") fs) (text_at (text "value") fs)
          (text_at (text "type") fs) (items_at fs) (pairs_at fs) (fields_at fs) (decode_fields fs)

    pub decode_items : JsonItems → Option PyItems
    decode_items jnil = some nil
    decode_items (jcons v xs) = both cons (decode v) (decode_items xs)

    pub decode_fields : JsonFields → Option PyFields
    decode_fields jend = some stop
    decode_fields (field name v fs) = both (attr name) (decode v) (decode_fields fs)

    -- `[… for item in value["items"]]`
    pub items_at : JsonFields → Option PyItems
    items_at jend = none
    items_at (field name v fs) =
        let here = items_in v in
        let rest = items_at fs in if name == text "items" then here else rest

    pub items_in : Json → Option PyItems
    items_in (arr xs) = decode_items xs
    items_in v = none

    -- `for key, item in value["items"]`
    pub pairs_at : JsonFields → Option PyEntries
    pairs_at jend = none
    pairs_at (field name v fs) =
        let here = pairs_in v in
        let rest = pairs_at fs in if name == text "items" then here else rest

    pub pairs_in : Json → Option PyEntries
    pairs_in (arr xs) = decode_pairs xs
    pairs_in v = none

    pub decode_pairs : JsonItems → Option PyEntries
    decode_pairs jnil = some empty
    decode_pairs (jcons (arr (jcons k (jcons v jnil))) xs) =
        then_some (decode k) (λ k'. both (entry k') (decode v) (decode_pairs xs))
    decode_pairs xs = none

    -- `for name, item in value["fields"].items()`
    pub fields_at : JsonFields → Option PyFields
    fields_at jend = none
    fields_at (field name v fs) =
        let here = fields_in v in
        let rest = fields_at fs in if name == text "fields" then here else rest

    pub fields_in : Json → Option PyFields
    fields_in (obj fs) = decode_fields fs
    fields_in v = none

  abbrev pub require_dict : Option Py → Option PyEntries
  require_dict (some (dict es)) = some es
  require_dict _ = none

  unfoldable pub decode_store_state : Json → Option PyEntries
  decode_store_state state = require_dict (decode state)
