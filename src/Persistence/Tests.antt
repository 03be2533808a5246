-- ===== src/Persistence/Tests.antt =====
-- A small state, encoded and decoded.
use project_digital_twin.Base.{
  ◌≡◌, refl, false, none, some, [], ◌∷◌, text, contains, ◌==◌, nat_eq, list_eq, pair_eq, option_eq,
  list_beq, if◌then◌else◌,
}
use project_digital_twin.Persistence.Values.{
  plain, null, num, str, uuid, dataclass, dict, set, tuple, nil, cons, empty, entry, PyFields, stop,
  attr, Registry, field_names, is_hashable, py_beq, str_beq,
}
use project_digital_twin.Persistence.Encoding.{state_entries, encode_store_state}
use project_digital_twin.Persistence.Decoding.{decode_store_state}
use project_digital_twin.Persistence.RoundTrip.{IsStorable, decode_store_state-encode_store_state}

-- One project, under its identifier, and the two fields that are not written.
abbrev sample : PyFields
sample =
    attr (text "projects")
      (dict (
        entry (uuid 7)
          (dataclass (text "Project") (attr (text "code") (str (plain (text "P-001"))) stop))
          empty))
      (attr (text "codes") (set (cons (tuple (cons (uuid 7) (cons (num 1) nil))) nil)) (
        attr (text "database_url") (str (plain (text "postgres")))
          (attr (text "store_key") null stop)))

abbrev known : Registry
known name =
    if name == text "Project"
    then some (record { names = text "code" ∷ []; frozen = false })
    else none

sample-IsStorable : IsStorable known (dict (state_entries sample))
unfolding state_entries is_hashable py_beq contains str_beq list_beq field_names
sample-IsStorable = (
  (refl, (tt, (refl, ((refl, tt), tt)))),
  (
    tt,
    (
      (
        (refl, (tt, tt)),
        (tt, (((record { names = text "code" ∷ []; frozen = false }, refl, refl), (tt, tt)), tt)),
      ),
      (tt, (((refl, (tt, tt)), ((tt, (tt, tt)), tt)), tt)),
    ),
  ),
)

decode_store_state-encode_store_state_example :
    decode_store_state known (encode_store_state sample) ≡ some (state_entries sample)
decode_store_state-encode_store_state_example =
    decode_store_state-encode_store_state known sample sample-IsStorable
