-- ===== src/Adapters/Settling.antt =====
-- What the loop of `map_record` makes of each mapping
-- (apps/server/app/adapters/files/importers/mapping.py).
use project_digital_twin.Base.{
  ℕ, ◌≡◌, refl, ap, ◌∙◌, ◌⊎◌, inl, inr, true, false, ◌&&◌, Option, none, some, List, [], ◌∷◌, ◌++◌,
  Text, Platform, Dict, get, put, ◌==◌, nat_eq, list_eq, pair_eq, option_eq, is_some, get_or, All,
  Bool-cases, Option-cases, get-put, get-put_self,
}
use project_digital_twin.Adapters.Outcomes.{
  Exception, key_error, index_error, overflow_error, pattern_error, type_error, value_error,
  Outcome, done, raised, ValueOps, ◌>>=◌,
}
use project_digital_twin.Adapters.Transforms.{is_value_error, is_nothing, apply_transform, convert}
use project_digital_twin.Adapters.Mapping.{
  SchemaField, FieldMapping, MappingIssue, Gathered, missing_issue, invalid_issue, enter_converted,
  enter_value, enter_field,
}
use mathlib.Core.Path.{subst}
use mathlib.Core.List.{append-nil}
use project_digital_twin.Adapters.Cells.{Row}
use project_digital_twin.Store.Values.{value_eq}

pub Outcome-cases :
    {A : Type 0} (o : Outcome A) → ((a : A) × (o ≡ done a)) ⊎ ((e : Exception) × (o ≡ raised e))
Outcome-cases (done a) = inl (a, refl)
Outcome-cases (raised e) = inr (e, refl)

pub done_inj : {A : Type 0} {a b : A} → done a ≡ done b → a ≡ b
done_inj {A} {a} e = ap (λ (o : Outcome A). elim o as (λ x. A) [ done x ↦ x | raised x ↦ a ]) e

pub bind_done :
    {A B : Type 0} (o : Outcome A) (k : A → Outcome B) (b : B)
    → (o >>= k) ≡ done b
    → (a : A) × (o ≡ done a) × (k a ≡ done b)
bind_done (done a) k b h = (a, refl, h)
bind_done (raised e) k b h = absurd (cc h)

abbrev pub id_at : {Cell : Type 0} → Dict Text SchemaField → FieldMapping Cell → Option Text
id_at fields m = elim (get fields m.field_id) [ none ↦ none | some f ↦ some f.id ]

-- No two of the mappings that name a field have fields with one identifier.
abbrev pub HaveOwnFields :
    {Cell : Type 0} → Dict Text SchemaField → List (FieldMapping Cell) → Type 0
HaveOwnFields fields [] = Unit
HaveOwnFields fields (m ∷ mappings) =
    All (λ m'. (is_some (id_at fields m) && id_at fields m' == id_at fields m) ≡ false) mappings
    × HaveOwnFields fields mappings

module _ {Cell : Type 0} (ops : ValueOps Cell) (p : Platform) (raw : Row Cell)
    (fields : Dict Text SchemaField) (row : ℕ) where
  -- The value that a mapping takes from the row, and its field.
  abbrev pub IsRead : FieldMapping Cell → SchemaField → Option Cell → Type 0
  IsRead m f v =
      (get fields m.field_id ≡ some f)
      × (apply_transform ops p (get_or (get raw m.source_column) none) m.rules ≡ done v)

  -- None, or a blank value.
  abbrev pub IsNothing : Option Cell → Type 0
  IsNothing v = (v ≡ none) ⊎ ((c : Cell) × (v ≡ some c) × (ops.is_blank c ≡ true))

  abbrev pub IsValue : Option Cell → Type 0
  IsValue v = (c : Cell) × (v ≡ some c) × (ops.is_blank c ≡ false)

  settled-IsNothing : (v : Option Cell) → is_nothing ops v ≡ true → IsNothing v
  settled-IsNothing none e = inl refl
  settled-IsNothing (some c) e = inr (c, refl, e)

  settled-IsValue : (v : Option Cell) → is_nothing ops v ≡ false → IsValue v
  settled-IsValue none e = absurd (cc e)
  settled-IsValue (some c) e = (c, refl, e)

  -- Each mapping gives its field in `final` a value, or leaves it out, and the issues are those of the
  -- mappings, in order.
  pub data Settles (final : Row Cell) : List (FieldMapping Cell) → List MappingIssue → Type 0 where
    settled : Settles final [] []
    converted :
        {m : FieldMapping Cell} {mappings : List (FieldMapping Cell)} {issues : List MappingIssue}
        (f : SchemaField) (v c : Option Cell)
        → IsRead m f v
        → IsValue v
        → convert ops p v f.data_type ≡ done c
        → get final f.id ≡ some c
        → Settles final mappings issues
        → Settles final (m ∷ mappings) issues
    absent :
        {m : FieldMapping Cell} {mappings : List (FieldMapping Cell)} {issues : List MappingIssue}
        (f : SchemaField) (v : Option Cell)
        → IsRead m f v
        → IsNothing v
        → f.required ≡ false
        → get final f.id ≡ some none
        → Settles final mappings issues
        → Settles final (m ∷ mappings) issues
    missing :
        {m : FieldMapping Cell} {mappings : List (FieldMapping Cell)} {issues : List MappingIssue}
        (f : SchemaField) (v : Option Cell)
        → IsRead m f v
        → IsNothing v
        → f.required ≡ true
        → get final f.id ≡ some none
        → Settles final mappings issues
        → Settles final (m ∷ mappings) (missing_issue f m.source_column row ∷ issues)
    refused :
        {m : FieldMapping Cell} {mappings : List (FieldMapping Cell)} {issues : List MappingIssue}
        (f : SchemaField) (v : Option Cell) (message : Text)
        → IsRead m f v
        → IsValue v
        → (convert ops p v f.data_type ≡ raised (type_error message))
          ⊎ (convert ops p v f.data_type ≡ raised (value_error message))
        → get final f.id ≡ none
        → Settles final mappings issues
        → Settles final (m ∷ mappings) (invalid_issue f m.source_column message row ∷ issues)

  -- The first mapping that cannot be gone through, and its exception.
  pub data Breaks : List (FieldMapping Cell) → Exception → Type 0 where
    unknown_field :
        {m : FieldMapping Cell} {mappings : List (FieldMapping Cell)}
        → get fields m.field_id ≡ none
        → Breaks (m ∷ mappings) key_error
    failed_rule :
        {m : FieldMapping Cell} {mappings : List (FieldMapping Cell)} {e : Exception}
        → apply_transform ops p (get_or (get raw m.source_column) none) m.rules ≡ raised e
        → Breaks (m ∷ mappings) e
    failed_conversion :
        {m : FieldMapping Cell} {mappings : List (FieldMapping Cell)} {e : Exception}
        (f : SchemaField) (v : Option Cell)
        → IsRead m f v
        → convert ops p v f.data_type ≡ raised e
        → is_value_error e ≡ false
        → Breaks (m ∷ mappings) e
    later :
        {m : FieldMapping Cell} {mappings : List (FieldMapping Cell)} {e : Exception}
        → Breaks mappings e
        → Breaks (m ∷ mappings) e

  pub enter_field_done :
      (m : FieldMapping Cell) (g g' : Gathered Cell)
      → enter_field ops p m raw row g (get fields m.field_id) ≡ done g'
      → (f : SchemaField) × (v : Option Cell) × (get fields m.field_id ≡ some f)
        × (apply_transform ops p (get_or (get raw m.source_column) none) m.rules ≡ done v)
        × (enter_value ops p f m.source_column row g v ≡ done g')
  enter_field_done m g g' h = elim (Option-cases (get fields m.field_id)) [
    | inl none_there ↦ absurd (cc (rw none_there at h))
    | inr there ↦
        let e = rw there.1 at h in
        let (v, read, entered) =
          bind_done (apply_transform ops p (get_or (get raw m.source_column) none) m.rules) _ g'
            e in
        (there.0, v, there.1, read, entered)
  ]

  -- What one mapping does to what has been gathered.
  abbrev pub IsStep : FieldMapping Cell → SchemaField → Gathered Cell → Gathered Cell → Type 0
  IsStep m f g g' =
      (new : List MappingIssue) × (g'.issues ≡ g.issues ++ new)
      × ((j : Text) → (f.id == j) ≡ false → get g'.fields j ≡ get g.fields j)
      × ((final : Row Cell) (mappings : List (FieldMapping Cell)) (issues : List MappingIssue)
          → get final f.id ≡ get g'.fields f.id
          → Settles final mappings issues
          → Settles final (m ∷ mappings) (new ++ issues))

  kept_apart :
      (d : Row Cell) (k j : Text) (v : Option Cell) → (k == j) ≡ false → get (put d k v) j ≡ get d j
  kept_apart d k j v h = rw (get-put, h) refl

  empty-IsStep :
      (m : FieldMapping Cell) (f : SchemaField) (v : Option Cell) (g g' : Gathered Cell)
      → IsRead m f v
      → is_nothing ops v ≡ true
      → enter_value ops p f m.source_column row g v ≡ done g'
      → IsStep m f g g'
  empty-IsStep m f v g g' read empty h = elim (Bool-cases f.required) [
    | inl needed ↦ subst (IsStep m f g) (done_inj (rw (empty, needed) at h)) (
      missing_issue f m.source_column row ∷ [],
      refl,
      λ j. kept_apart g.fields f.id j none,
      λ final mappings issues e.
          missing f v read (settled-IsNothing v empty) needed (e ∙ get-put_self g.fields f.id none),
    )
    | inr optional ↦ subst (IsStep m f g) (done_inj (rw (empty, optional) at h)) (
      [],
      rw append-nil refl,
      λ j. kept_apart g.fields f.id j none,
      λ final mappings issues e.
          absent f v read (settled-IsNothing v empty) optional
            (e ∙ get-put_self g.fields f.id none),
    )
  ]

  enter_converted-IsStep :
      (m : FieldMapping Cell) (f : SchemaField) (v : Option Cell) (g g' : Gathered Cell)
      → IsRead m f v
      → is_nothing ops v ≡ false
      → get g.fields f.id ≡ none
      → (o : Outcome (Option Cell)) → convert ops p v f.data_type ≡ o
      → enter_converted ops p f m.source_column row g o ≡ done g'
      → IsStep m f g g'
  enter_converted-IsStep m f v g g' read full fresh (done c) e h =
      subst (IsStep m f g) (done_inj h) (
        [],
        rw append-nil refl,
        λ j. kept_apart g.fields f.id j c,
        λ final mappings issues q.
            converted f v c read (settled-IsValue v full) e (q ∙ get-put_self g.fields f.id c),
      )
  enter_converted-IsStep m f v g g' read full fresh (raised (type_error message)) e h =
      subst (IsStep m f g) (done_inj h) (
        invalid_issue f m.source_column message row ∷ [],
        refl,
        λ j apart. refl,
        λ final mappings issues q.
            refused f v message read (settled-IsValue v full) (inl e) (q ∙ fresh),
      )
  enter_converted-IsStep m f v g g' read full fresh (raised (value_error message)) e h =
      subst (IsStep m f g) (done_inj h) (
        invalid_issue f m.source_column message row ∷ [],
        refl,
        λ j apart. refl,
        λ final mappings issues q.
            refused f v message read (settled-IsValue v full) (inr e) (q ∙ fresh),
      )
  enter_converted-IsStep m f v g g' read full fresh (raised key_error) e h = absurd (cc h)
  enter_converted-IsStep m f v g g' read full fresh (raised index_error) e h = absurd (cc h)
  enter_converted-IsStep m f v g g' read full fresh (raised overflow_error) e h = absurd (cc h)
  enter_converted-IsStep m f v g g' read full fresh (raised pattern_error) e h = absurd (cc h)

  pub enter_value-IsStep :
      (m : FieldMapping Cell) (f : SchemaField) (v : Option Cell) (g g' : Gathered Cell)
      → IsRead m f v
      → get g.fields f.id ≡ none
      → enter_value ops p f m.source_column row g v ≡ done g'
      → IsStep m f g g'
  enter_value-IsStep m f v g g' read fresh h = elim (Bool-cases (is_nothing ops v)) [
    | inl empty ↦ empty-IsStep m f v g g' read empty h
    | inr full ↦
        enter_converted-IsStep m f v g g' read full fresh (convert ops p v f.data_type) refl
          (rw full at h)
  ]
