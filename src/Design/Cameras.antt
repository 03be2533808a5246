-- ===== src/Design/Cameras.antt =====
-- A camera and its payload (apps/server/app/domain.py).
use project_digital_twin.Base.{
  ℕ, ◌≡◌, inl, inr, Option, none, some, [], ◌∷◌, arith, text, get, nat_eq, list_eq, pair_eq,
  option_eq, get_or, Option-cases, list_beq, if◌then◌else◌,
}
use project_digital_twin.Store.Values.{
  Value, null, str, uuid, other, Fields, field_of, maybe_uuid, is_truthy, value_eq,
}
use project_digital_twin.Store.Tables.{Camera}
use project_digital_twin.Store.Enums.{representation_eq, item_type_eq, membership_eq}
use project_digital_twin.Store.Actions.{
  Error, key_error, value_error, attribute_error, Result, ok, err,
}

-- `str(x) if x else None` of an optional identifier stands in the payload.
unfoldable pub camera_payload : Camera → Fields
camera_payload c =
    (text "code", c.code)
    ∷ (text "name", c.name)
    ∷ (text "intersection_id", maybe_uuid c.intersection_id)
    ∷ (text "manufacturer", c.manufacturer)
    ∷ (text "model", c.model)
    ∷ (text "ip_address", c.ip_address)
    ∷ (text "status", c.status)
    ∷ (text "properties", c.properties)
    ∷ []

-- `UUID(x)` of a true value: a text that is no identifier raises `ValueError`, what is no text raises
-- `AttributeError`.
abbrev pub uuid_of : Value → Result (Option ℕ)
uuid_of (uuid n) = ok (some n)
uuid_of (str t) = err value_error
uuid_of _ = err attribute_error

-- `UUID(payload["intersection_id"]) if payload.get("intersection_id") else None`
abbrev pub intersection_of : Fields → Result (Option ℕ)
intersection_of payload =
    let x = field_of payload (text "intersection_id") in if is_truthy x then uuid_of x else ok none

-- `payload.get("properties", {})`
abbrev pub properties_of : Fields → Value
properties_of payload = get_or (get payload (text "properties")) (other 0)

-- The fields behind `intersection_id`.
abbrev pub set_details : Camera → Fields → Option ℕ → Camera
set_details c payload intersection_id = record c {
  intersection_id = intersection_id;
  manufacturer = field_of payload (text "manufacturer");
  model = field_of payload (text "model");
  ip_address = field_of payload (text "ip_address");
  status = field_of payload (text "status");
  properties = properties_of payload;
}

abbrev pub finish_payload : Camera → Fields → Result (Option ℕ) → Option Error × Camera
finish_payload c payload (err e) = (some e, c)
finish_payload c payload (ok intersection_id) = (none, set_details c payload intersection_id)

abbrev pub set_name : Camera → Fields → Option Value → Option Error × Camera
set_name c payload none = (some key_error, c)
set_name c payload (some code) =
    finish_payload (record c { code = code; name = field_of payload (text "name") }) payload
      (intersection_of payload)

-- `_apply_camera_payload` assigns field by field: what is assigned before an exception stays.
unfoldable pub apply_camera_payload : Camera → Fields → Option Error × Camera
apply_camera_payload c payload = set_name c payload (get payload (text "code"))

abbrev pub blank_camera : ℕ → ℕ → Camera
blank_camera entity_id project_id = record {
  entity_id = entity_id;
  project_id = project_id;
  code = null;
  name = null;
  intersection_id = none;
  manufacturer = null;
  model = null;
  ip_address = null;
  status = null;
  properties = other 0;
  source = none;
}

-- `_camera_from_payload`: the same fields, on a new camera; there is none when it raises.
unfoldable pub camera_from_payload : ℕ → ℕ → Fields → Result Camera
camera_from_payload entity_id project_id payload =
    let (raised, c) = apply_camera_payload (blank_camera entity_id project_id) payload in
    elim raised [ none ↦ ok c | some e ↦ err e ]

-- A camera's payload, assigned to a camera with its identifier, project and source, gives it back.
pub apply_camera_payload-camera_payload :
    (c d : Camera)
    → d.entity_id ≡ c.entity_id
    → d.project_id ≡ c.project_id
    → d.source ≡ c.source
    → apply_camera_payload d (camera_payload c) ≡ (none, c)
unfolding apply_camera_payload camera_payload get is_truthy list_beq maybe_uuid
apply_camera_payload-camera_payload c d e p s = elim (Option-cases c.intersection_id) [
  | inl absent ↦ rw (e, p, s) (ground (arith, absent))
  | inr (i, present) ↦ rw (e, p, s) (ground (arith, present))
]
