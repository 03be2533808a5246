-- ===== src/Persistence/Encoding.antt =====
-- `_encode` (apps/server/app/persistence.py).
use project_digital_twin.Base.{
  List, [], ◌∷◌, Text, text, contains, nat_eq, list_eq, pair_eq, option_eq, if◌then◌else◌,
}
use project_digital_twin.Persistence.Values.{
  plain, of_uuid, of_datetime, Py, null, flag, num, real, str, uuid, datetime, dataclass, dict, set,
  tuple, list, PyItems, nil, cons, PyEntries, empty, entry, PyFields, stop, attr, Json, jnull,
  jflag, jnum, jreal, jstr, arr, obj, JsonItems, jnil, jcons, JsonFields, jend, field,
}

abbrev pub tagged : Text → JsonFields → Json
tagged kind fs = obj (field (text "__kind__") (jstr (plain kind)) fs)

unfoldable mutual
  pub encode : Py → Json
  encode (uuid n) = tagged (text "uuid") (field (text "value") (jstr (of_uuid n)) jend)
  encode (datetime n) = tagged (text "datetime") (field (text "value") (jstr (of_datetime n)) jend)
  encode (dataclass name fs) = tagged (text "dataclass") (
      field (text "type") (jstr (plain name)) (field (text "fields") (obj (encode_fields fs)) jend))
  encode (dict es) = tagged (text "dict") (field (text "items") (arr (encode_entries es)) jend)
  encode (set xs) = tagged (text "set") (field (text "items") (arr (encode_items xs)) jend)
  encode (tuple xs) = tagged (text "tuple") (field (text "items") (arr (encode_items xs)) jend)
  encode (list xs) = arr (encode_items xs)
  encode null = jnull
  encode (flag b) = jflag b
  encode (num n) = jnum n
  encode (real n) = jreal n
  encode (str s) = jstr s

  pub encode_items : PyItems → JsonItems
  encode_items nil = jnil
  encode_items (cons v xs) = jcons (encode v) (encode_items xs)

  pub encode_entries : PyEntries → JsonItems
  encode_entries empty = jnil
  encode_entries (entry k v es) =
      jcons (arr (jcons (encode k) (jcons (encode v) jnil))) (encode_entries es)

  pub encode_fields : PyFields → JsonFields
  encode_fields stop = jend
  encode_fields (attr name v fs) = field name (encode v) (encode_fields fs)

-- `_ADAPTER_STATE_FIELDS`
abbrev pub adapter_state_fields : List Text
adapter_state_fields = text "database_url" ∷ text "store_key" ∷ []

-- `{key: value for key, value in store.__dict__.items() if key not in _ADAPTER_STATE_FIELDS}`
unfoldable pub state_entries : PyFields → PyEntries
state_entries stop = empty
state_entries (attr key v fs) =
    let rest = state_entries fs in
    if contains key adapter_state_fields then rest else entry (str (plain key)) v rest

-- The argument is `store.__dict__`.
unfoldable pub encode_store_state : PyFields → Json
encode_store_state fs = encode (dict (state_entries fs))
