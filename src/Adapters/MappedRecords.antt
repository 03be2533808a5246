-- ===== src/Adapters/MappedRecords.antt =====
-- `map_record` against what it does with each mapping and each column
-- (apps/server/app/adapters/files/importers/mapping.py).
use project_digital_twin.Base.{
  ℕ, ◌≡◌, refl, sym, ap, ◌∙◌, ◌⊎◌, inl, inr, false, ◌&&◌, Option, none, some, List, [], ◌∷◌, ◌++◌,
  arith, Text, Platform, Dict, get, contains, ◌==◌, nat_eq, list_eq, pair_eq, option_eq, beq_refl,
  is_some, get_or, All, Bool-cases, Option-cases, list_beq_iff, option_beq, option_beq_iff,
  get-empty, if◌then◌else◌,
}
use project_digital_twin.Adapters.Outcomes.{
  Exception, key_error, index_error, overflow_error, pattern_error, type_error, value_error,
  Outcome, done, raised, ValueOps,
}
use project_digital_twin.Adapters.Transforms.{is_nothing, apply_transform, convert}
use project_digital_twin.Adapters.Mapping.{
  SchemaField, FieldMapping, MappingIssue, MappedRecord, MapArgs, Gathered, mapped_columns,
  unmapped_cells, enter_converted, enter_value, enter_field, map_fields, record_of, map_record,
}
use project_digital_twin.Adapters.Settling.{
  Outcome-cases, done_inj, bind_done, id_at, HaveOwnFields, IsRead, Settles, settled, Breaks,
  unknown_field, failed_rule, failed_conversion, later, enter_value-IsStep, enter_field_done,
}
use mathlib.Core.Path.{subst}
use mathlib.Core.List.{append-nil, append_assoc}
use project_digital_twin.Adapters.Cells.{Row}
use project_digital_twin.Store.Values.{value_eq}

beq_sym : (a b : Text) → (a == b) ≡ false → (b == a) ≡ false
beq_sym a b h = ground (arith, list_beq_iff a b, list_beq_iff b a, h)

raised_inj : {A : Type 0} {e e' : Exception} → ◌≡◌ {A = Outcome A} (raised e) (raised e') → e ≡ e'
raised_inj {A} {e} q =
    ap (λ (o : Outcome A). elim o as (λ x. Exception) [ done x ↦ e | raised x ↦ x ]) q

differ :
    (o o' : Option Text) (i j : Text)
    → o ≡ some i
    → o' ≡ some j
    → (o' == o) ≡ false
    → (i == j) ≡ false
unfolding option_beq
differ o o' i j e e' h = beq_sym j i (rw (e, e') at h)

module _ {Cell : Type 0} (fields : Dict Text SchemaField) where
  abbrev AreFresh : Gathered Cell → List (FieldMapping Cell) → Type 0
  AreFresh g mappings =
      All (λ m. (j : Text) → id_at fields m ≡ some j → get g.fields j ≡ none) mappings

  abbrev AreApart : Text → List (FieldMapping Cell) → Type 0
  AreApart j mappings = All (λ m. (id_at fields m == some j) ≡ false) mappings

  AreFresh-step :
      (f : SchemaField) (g g' : Gathered Cell) (mappings : List (FieldMapping Cell))
      → ((j : Text) → (f.id == j) ≡ false → get g'.fields j ≡ get g.fields j)
      → AreApart f.id mappings
      → AreFresh g mappings
      → AreFresh g' mappings
  AreFresh-step f g g' [] keep_others apart fresh = tt
  AreFresh-step f g g' (m ∷ mappings) keep_others apart fresh = (
    λ j e. keep_others j (differ (some f.id) (id_at fields m) f.id j refl e apart.0) ∙ fresh.0 j e,
    AreFresh-step f g g' mappings keep_others apart.1 fresh.1,
  )

  AreFresh-empty :
      (issues : List MappingIssue) (mappings : List (FieldMapping Cell))
      → AreFresh (record { fields = []; issues = issues }) mappings
  AreFresh-empty issues [] = tt
  AreFresh-empty issues (m ∷ mappings) = (λ j e. get-empty j, AreFresh-empty issues mappings)

module _ {Cell : Type 0} (ops : ValueOps Cell) (p : Platform) (raw : Row Cell)
    (fields : Dict Text SchemaField) (row : ℕ) where
  map_fields_settle :
      (mappings : List (FieldMapping Cell)) (g g' : Gathered Cell)
      → map_fields ops p raw fields row mappings g ≡ done g'
      → HaveOwnFields fields mappings
      → AreFresh fields g mappings
      → (new : List MappingIssue) × (g'.issues ≡ g.issues ++ new)
        × Settles ops p raw fields row g'.fields mappings new
        × ((j : Text) → AreApart fields j mappings → get g'.fields j ≡ get g.fields j)
  unfolding map_fields
  map_fields_settle [] g g' h own fresh =
      let e = done_inj h in
      (
        [],
        rw append-nil (ap (λ x. x.issues) (sym e)),
        settled,
        λ j apart. ap (λ x. get x.fields j) (sym e),
      )
  map_fields_settle (m ∷ mappings) g g' h own fresh =
      let (next, entered, rest) =
        bind_done (enter_field ops p m raw row g (get fields m.field_id)) _ g' h in
      let (f, v, there, read, value) = enter_field_done ops p raw fields row m g next entered in
      let at : id_at fields m ≡ some f.id =
        ap (λ o. elim o as (λ x. Option Text) [ none ↦ none | some x ↦ some x.id ]) there in
      let apart : AreApart fields f.id mappings =
        subst (λ o. All (λ m'. (is_some o && id_at fields m' == o) ≡ false) mappings) at own.0 in
      let (one, e, keeps, settles) =
        enter_value-IsStep ops p raw fields row m f v g next (there, read) (fresh.0 f.id at)
          value in
      let (new, e', settled', keeps') =
        map_fields_settle mappings next g' rest own.1
          (AreFresh-step fields f g next mappings keeps apart fresh.1) in
      (
        one ++ new,
        e' ∙ ap (λ l. l ++ new) e ∙ append_assoc g.issues one new,
        settles g'.fields mappings new (keeps' f.id apart) settled',
        λ j free.
            keeps' j free.1
            ∙ keeps j (
                differ (id_at fields m) (some j) f.id j at refl
                  (option_sym (id_at fields m) (some j) free.0)),
      )
    where
      option_sym : (a b : Option Text) → (a == b) ≡ false → (b == a) ≡ false
      option_sym a b h = ground (arith, option_beq_iff a b, option_beq_iff b a, h)

  enter_converted_raised :
      (m : FieldMapping Cell) (mappings : List (FieldMapping Cell)) (f : SchemaField)
      (v : Option Cell) (g : Gathered Cell) (e : Exception)
      → IsRead ops p raw fields row m f v
      → (o : Outcome (Option Cell)) → convert ops p v f.data_type ≡ o
      → enter_converted ops p f m.source_column row g o ≡ raised e
      → Breaks ops p raw fields row (m ∷ mappings) e
  enter_converted_raised m mappings f v g e read (done c) q h = absurd (cc h)
  enter_converted_raised m mappings f v g e read (raised (type_error message)) q h = absurd (cc h)
  enter_converted_raised m mappings f v g e read (raised (value_error message)) q h = absurd (cc h)
  enter_converted_raised m mappings f v g e read (raised key_error) q h =
      subst (Breaks ops p raw fields row (m ∷ mappings)) (raised_inj h)
        (failed_conversion f v read q refl)
  enter_converted_raised m mappings f v g e read (raised index_error) q h =
      subst (Breaks ops p raw fields row (m ∷ mappings)) (raised_inj h)
        (failed_conversion f v read q refl)
  enter_converted_raised m mappings f v g e read (raised overflow_error) q h =
      subst (Breaks ops p raw fields row (m ∷ mappings)) (raised_inj h)
        (failed_conversion f v read q refl)
  enter_converted_raised m mappings f v g e read (raised pattern_error) q h =
      subst (Breaks ops p raw fields row (m ∷ mappings)) (raised_inj h)
        (failed_conversion f v read q refl)

  enter_field_raised :
      (m : FieldMapping Cell) (mappings : List (FieldMapping Cell)) (g : Gathered Cell)
      (e : Exception)
      → enter_field ops p m raw row g (get fields m.field_id) ≡ raised e
      → Breaks ops p raw fields row (m ∷ mappings) e
  enter_field_raised m mappings g e h = elim (Option-cases (get fields m.field_id)) [
    | inl none_there ↦
        subst (Breaks ops p raw fields row (m ∷ mappings)) (raised_inj (rw none_there at h))
          (unknown_field none_there)
    | inr (f, there) ↦
        let h' = rw there at h in
        elim (Outcome-cases
          (apply_transform ops p (get_or (get raw m.source_column) none) m.rules)) [
            | inl (v, read) ↦
                let entered : enter_value ops p f m.source_column row g v ≡ raised e =
                  rw read at h' in
                elim (Bool-cases (is_nothing ops v)) [
                  | inl empty ↦ absurd (cc (rw empty at entered))
                  | inr full ↦
                      enter_converted_raised m mappings f v g e (there, read)
                        (convert ops p v f.data_type) refl (rw full at entered)
                ]
            | inr (e', failed) ↦
                subst (Breaks ops p raw fields row (m ∷ mappings)) (raised_inj (rw failed at h'))
                  (failed_rule failed)
          ]
  ]

  map_fields_raised :
      (mappings : List (FieldMapping Cell)) (g : Gathered Cell) (e : Exception)
      → map_fields ops p raw fields row mappings g ≡ raised e
      → Breaks ops p raw fields row mappings e
  unfolding map_fields
  map_fields_raised [] g e h = absurd (cc h)
  map_fields_raised (m ∷ mappings) g e h =
      elim (Outcome-cases (enter_field ops p m raw row g (get fields m.field_id))) [
        | inl (next, entered) ↦ later (map_fields_raised mappings next e (rw entered at h))
        | inr (e', failed) ↦
            subst (Breaks ops p raw fields row (m ∷ mappings)) (raised_inj (rw failed at h))
              (enter_field_raised m mappings g e' failed)
      ]

get-unmapped_cells :
    {Cell : Type 0} (mappings : List (FieldMapping Cell)) (raw : Row Cell) (k : Text)
    → get (unmapped_cells mappings raw) k
      ≡ (if contains k (mapped_columns mappings) then none else get raw k)
unfolding get
get-unmapped_cells mappings [] k = ground arith
get-unmapped_cells mappings ((j, v) ∷ raw) k = elim (Bool-cases (j == k)) [
  | inl same ↦ elim (Bool-cases (contains k (mapped_columns mappings))) [
    | inl named ↦
        let none_left : get (unmapped_cells mappings raw) k ≡ none =
          rw named at (get-unmapped_cells mappings raw k) in
        rw ((list_beq_iff j k).0 same, named, none_left) refl
    | inr free ↦ rw ((list_beq_iff j k).0 same, free, beq_refl k) refl
  ]
  | inr apart ↦ elim (Bool-cases (contains j (mapped_columns mappings))) [
    | inl named ↦ rw (named, apart) (get-unmapped_cells mappings raw k)
    | inr free ↦ rw (free, apart) (get-unmapped_cells mappings raw k)
  ]
]

-- Where no two mappings that name a field have fields with one identifier, a row either becomes a record or raises. In a
-- record each mapping's field has the converted value of its column; or None where that value is
-- empty, with an issue if the field is required; or it is left out, with an issue, where the
-- conversion raises a `TypeError` or `ValueError`. The issues are these and stand in the order of the
-- mappings, the raw row is kept, and each column that no mapping names is among the unmapped ones. It
-- raises where a mapping names no field, a rule raises, or a conversion raises another exception.
pub map_record_lem :
    {Cell : Type 0} (ops : ValueOps Cell) (p : Platform) (args : MapArgs) (fresh : ℕ)
    (raw : Row Cell) (fields : Dict Text SchemaField) (mappings : List (FieldMapping Cell))
    → HaveOwnFields fields mappings
    → ((r : MappedRecord Cell) × (map_record ops p args fresh raw fields mappings ≡ done r)
        × Settles ops p raw fields args.row r.fields mappings r.issues
        × (r.raw ≡ raw)
        × ((k : Text)
            → get r.unmapped k
              ≡ (if contains k (mapped_columns mappings) then none else get raw k)))
      ⊎ ((e : Exception) × (map_record ops p args fresh raw fields mappings ≡ raised e)
          × Breaks ops p raw fields args.row mappings e)
unfolding map_record
map_record_lem ops p args fresh raw fields mappings own =
    let start : Gathered _ = record { fields = []; issues = [] } in
    elim (Outcome-cases (map_fields ops p raw fields args.row mappings start)) [
      | inl (g, e) ↦
          let (new, issues, settled', _) =
            map_fields_settle ops p raw fields args.row mappings start g e own
              (AreFresh-empty fields [] mappings) in
          inl (
            record_of ops p args fresh raw mappings g,
            rw e refl,
            subst (Settles ops p raw fields args.row g.fields mappings) (sym issues) settled',
            refl,
            get-unmapped_cells mappings raw,
          )
      | inr (exc, e) ↦
          inr (exc, rw e refl, map_fields_raised ops p raw fields args.row mappings start exc e)
    ]
