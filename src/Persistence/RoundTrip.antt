-- ===== src/Persistence/RoundTrip.antt =====
-- What was encoded is decoded to the same value (apps/server/app/persistence.py).
use project_digital_twin.Base.{
  ◌≡◌, refl, sym, ap, ◌∙◌, true, false, some, Text, nat_eq, list_eq, pair_eq, option_eq, beq_refl,
  list_beq,
}
use project_digital_twin.Persistence.Values.{
  Py, null, flag, num, real, str, uuid, datetime, dataclass, dict, set, tuple, list, PyItems, nil,
  cons, PyEntries, empty, entry, PyFields, stop, attr, ClassInfo, Registry, field_names,
  is_hashable, py_beq,
}
use project_digital_twin.Persistence.Encoding.{
  encode, encode_items, encode_entries, encode_fields, state_entries, encode_store_state,
}
use project_digital_twin.Persistence.Decoding.{
  decode_store_state, construct, put_entry, add_item, build_dict, build_set, decode_object, text_at,
  decode, decode_items, decode_fields, decode_pairs,
}

abbrev pub append_entries : PyEntries → PyEntries → PyEntries
append_entries empty es = es
append_entries (entry k v d) es = entry k v (append_entries d es)

abbrev pub append_items : PyItems → PyItems → PyItems
append_items nil xs = xs
append_items (cons v d) xs = cons v (append_items d xs)

-- The key is none of those of the dict, the value none of the members of the set.
abbrev pub IsNewKey : Py → PyEntries → Type 0
IsNewKey k empty = Unit
IsNewKey k (entry j w es) = (py_beq j k ≡ false) × IsNewKey k es

abbrev pub IsNewItem : Py → PyItems → Type 0
IsNewItem v nil = Unit
IsNewItem v (cons w xs) = (py_beq w v ≡ false) × IsNewItem v xs

put_entry-new :
    (k v : Py) (d : PyEntries) → IsNewKey k d → put_entry k v d ≡ append_entries d (entry k v empty)
unfolding put_entry
put_entry-new k v empty n = refl
put_entry-new k v (entry j w es) n = rw n.0 (ap (entry j w) (put_entry-new k v es n.1))

add_item-new : (v : Py) (d : PyItems) → IsNewItem v d → add_item v d ≡ append_items d (cons v nil)
unfolding add_item
add_item-new v nil n = refl
add_item-new v (cons w xs) n = rw n.0 (ap (cons w) (add_item-new v xs n.1))

append_entries_assoc :
    (d : PyEntries) (k v : Py) (es : PyEntries)
    → append_entries (append_entries d (entry k v empty)) es ≡ append_entries d (entry k v es)
append_entries_assoc empty k v es = refl
append_entries_assoc (entry j w d) k v es = ap (entry j w) (append_entries_assoc d k v es)

append_items_assoc :
    (d : PyItems) (v : Py) (xs : PyItems)
    → append_items (append_items d (cons v nil)) xs ≡ append_items d (cons v xs)
append_items_assoc nil v xs = refl
append_items_assoc (cons w d) v xs = ap (cons w) (append_items_assoc d v xs)

append-empty : (d : PyEntries) → append_entries d empty ≡ d
append-empty empty = refl
append-empty (entry k v d) = ap (entry k v) (append-empty d)

append-nil_items : (d : PyItems) → append_items d nil ≡ d
append-nil_items nil = refl
append-nil_items (cons v d) = ap (cons v) (append-nil_items d)

module _ (classes : Registry) where
  -- The entries of a dict behind those of `d`: every key is hashable and new, as in every dict.
  abbrev pub AreEntries : PyEntries → PyEntries → Type 0
  AreEntries d empty = Unit
  AreEntries d (entry k v es) =
      (is_hashable classes k ≡ true)
      × (IsNewKey k d × AreEntries (append_entries d (entry k v empty)) es)

  abbrev pub AreMembers : PyItems → PyItems → Type 0
  AreMembers d nil = Unit
  AreMembers d (cons v xs) =
      (is_hashable classes v ≡ true) × (IsNewItem v d × AreMembers (append_items d (cons v nil)) xs)

  build_dict_lem :
      (d es : PyEntries) → AreEntries d es → build_dict classes d es ≡ some (append_entries d es)
  unfolding build_dict
  build_dict_lem d empty h = ap some (sym (append-empty d))
  build_dict_lem d (entry k v es) (hashable, (new, h)) =
      rw (hashable, put_entry-new k v d new)
        (build_dict_lem (append_entries d (entry k v empty)) es h
          ∙ ap some (append_entries_assoc d k v es))

  build_set_lem :
      (d xs : PyItems) → AreMembers d xs → build_set classes d xs ≡ some (append_items d xs)
  unfolding build_set
  build_set_lem d nil h = ap some (sym (append-nil_items d))
  build_set_lem d (cons v xs) (hashable, (new, h)) =
      rw (hashable, add_item-new v d new)
        (build_set_lem (append_items d (cons v nil)) xs h ∙ ap some (append_items_assoc d v xs))

  -- The values that Python can hold and the registry knows: keys and members are hashable and different,
  -- and each dataclass is registered with its fields.
  construct_lem :
      (name : Text) (fs : PyFields) (c : ClassInfo)
      → field_names fs ≡ c.names
      → construct classes name fs (some c) ≡ some (dataclass name fs)
  construct_lem name fs c same = rw (same, beq_refl c.names) refl

  abbrev mutual
    pub IsStorable : Py → Type 0
    IsStorable (dataclass name fs) =
        ((c : ClassInfo) × (classes name ≡ some c) × (field_names fs ≡ c.names))
        × AreStorableFields fs
    IsStorable (dict es) = AreEntries empty es × AreStorableEntries es
    IsStorable (set xs) = AreMembers nil xs × AreStorable xs
    IsStorable (tuple xs) = AreStorable xs
    IsStorable (list xs) = AreStorable xs
    IsStorable v = Unit

    pub AreStorable : PyItems → Type 0
    AreStorable nil = Unit
    AreStorable (cons v xs) = IsStorable v × AreStorable xs

    pub AreStorableEntries : PyEntries → Type 0
    AreStorableEntries empty = Unit
    AreStorableEntries (entry k v es) = IsStorable k × (IsStorable v × AreStorableEntries es)

    pub AreStorableFields : PyFields → Type 0
    AreStorableFields stop = Unit
    AreStorableFields (attr name v fs) = IsStorable v × AreStorableFields fs

  mutual
    unfolding encode decode decode_object text_at is_hashable list_beq

    decode-encode : (v : Py) → IsStorable v → decode classes (encode v) ≡ some v
    decode-encode null h = refl
    decode-encode (flag b) h = refl
    decode-encode (num n) h = refl
    decode-encode (real n) h = refl
    decode-encode (str s) h = refl
    decode-encode (uuid n) h = refl
    decode-encode (datetime n) h = refl
    decode-encode (list xs) h = rw (decode_items-encode_items xs h) refl
    decode-encode (tuple xs) h = rw (decode_items-encode_items xs h) refl
    decode-encode (set xs) h =
        rw (decode_items-encode_items xs h.1) (rw (build_set_lem nil xs h.0) refl)
    decode-encode (dict es) h =
        rw (decode_pairs-encode_entries es h.1) (rw (build_dict_lem empty es h.0) refl)
    decode-encode (dataclass name fs) h =
        rw (decode_fields-encode_fields fs h.1) (rw h.0.1 (construct_lem name fs h.0.0 h.0.2))

    decode_items-encode_items :
        (xs : PyItems) → AreStorable xs → decode_items classes (encode_items xs) ≡ some xs
    decode_items-encode_items nil h = refl
    decode_items-encode_items (cons v xs) h =
        rw (decode-encode v h.0, decode_items-encode_items xs h.1) refl

    decode_pairs-encode_entries :
        (es : PyEntries)
        → AreStorableEntries es
        → decode_pairs classes (encode_entries es) ≡ some es
    decode_pairs-encode_entries empty h = refl
    decode_pairs-encode_entries (entry k v es) h =
        rw (decode-encode k h.0, decode-encode v h.1.0, decode_pairs-encode_entries es h.1.1) refl

    decode_fields-encode_fields :
        (fs : PyFields) → AreStorableFields fs → decode_fields classes (encode_fields fs) ≡ some fs
    decode_fields-encode_fields stop h = refl
    decode_fields-encode_fields (attr name v fs) h =
        rw (decode-encode v h.0, decode_fields-encode_fields fs h.1) refl

  -- A state of the store whose values Python can hold and the registry knows is what decoding its encoding
  -- gives, without the two fields of the adapter.
  pub decode_store_state-encode_store_state :
      (state : PyFields)
      → IsStorable (dict (state_entries state))
      → decode_store_state classes (encode_store_state state) ≡ some (state_entries state)
  unfolding decode_store_state encode_store_state
  decode_store_state-encode_store_state state h =
      rw (decode-encode (dict (state_entries state)) h) refl
