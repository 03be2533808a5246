-- ===== src/Design/Edits.antt =====
-- What an edit of a change set changes (apps/server/app/domain.py, `edit_file_import_changeset`).
use project_digital_twin.Base.{
  ℕ, ◌≡◌, refl, sym, ◌∙◌, ◌≢◌, ◌⊎◌, inl, inr, Bool, true, false, Option, none, some, List, [], ◌∷◌,
  arith, Text, get, ◌==◌, nat_eq, list_eq, pair_eq, option_eq, beq_refl, is_some, Option-cases,
  get-put, list_beq_iff, get-put_self, if◌then◌else◌,
}
use project_digital_twin.Store.Values.{Value, field_of, value_eq}
use project_digital_twin.Store.Contracts.{ChangeItem, ChangeSet}
use project_digital_twin.Store.Enums.{representation_eq, item_type_eq, membership_eq}
use project_digital_twin.Store.State.{Store}
use project_digital_twin.Store.Actions.{
  key_error, value_error, Result, ok, require, require_some, is_ok,
}
use project_digital_twin.Journal.Events.{add_event}
use project_digital_twin.Design.Approval.{
  put_changeset, changeset_in, is_file_import, is_pending_approval,
}
use project_digital_twin.Design.Review.{
  item_with, edit_item, edit_items, edited, edit_event, edit_changeset, edit_file_import_changeset,
}

-- The item of an identity after the edit, given the one before it.
abbrev pub edited_item :
    (identity wanted : Text) (field : Text) (v : Value) → Option ChangeItem → Option ChangeItem
edited_item identity wanted field v none = none
edited_item identity wanted field v (some item) =
    some (if identity == wanted then edit_item field v item else item)

item_with-edit_items :
    (identity wanted : Text) (field : Text) (v : Value) (items : List ChangeItem)
    → item_with wanted (edit_items identity field v items)
      ≡ edited_item identity wanted field v (item_with wanted items)
unfolding edit_items
item_with-edit_items identity wanted field v [] = refl
item_with-edit_items identity wanted field v (item ∷ items) = ground (
  arith,
  item_with-edit_items identity wanted field v items,
  list_beq_iff item.record_identity identity,
  list_beq_iff item.record_identity wanted,
  list_beq_iff identity wanted,
)

module _ (project_id id : ℕ) (identity field : Text) (v : Value) (actor : Text) (s : Store)
    (c : ChangeSet) where
  abbrev pub Edit : Type 0
  Edit = Result ChangeSet × Store

  -- The item after the edit: one field of its patch is set, and nothing else has changed.
  abbrev pub IsAssigned : ChangeItem → ChangeItem → Type 0
  IsAssigned item item' =
      (get item'.patch field ≡ some v)
      × ((g : Text) → g ≢ field → get item'.patch g ≡ get item.patch g)
      × (record item' { patch = item.patch } ≡ item)

  -- One field of one item is set, and the change set is stored as pending.
  abbrev pub IsEdited : Edit → Type 0
  IsEdited (result, s') =
      (item : ChangeItem) × (item' : ChangeItem) × (c' : ChangeSet) × (item_with identity c.items
        ≡ some item)
      × (is_some (get item.patch field) ≡ true)
      × (result ≡ ok c')
      × (get s'.imports.changesets id ≡ some c')
      × (c'.status ≡ c.status)
      × (item_with identity c'.items ≡ some item')
      × IsAssigned item item'
      × ((wanted : Text) → wanted ≢ identity → item_with wanted c'.items ≡ item_with wanted c.items)

  same_item :
      (item : ChangeItem)
      → item_with identity c.items ≡ some item
      → item_with identity (edit_items identity field v c.items) ≡ some (edit_item field v item)
  same_item item found =
      item_with-edit_items identity identity field v c.items
      ∙ rw found (rw (beq_refl identity) refl)

  other_item :
      (wanted : Text)
      → wanted ≢ identity
      → item_with wanted (edit_items identity field v c.items) ≡ item_with wanted c.items
  other_item wanted ne =
      item_with-edit_items identity wanted field v c.items
      ∙ (elim (Option-cases (item_with wanted c.items)) [
        | inl missing ↦ rw missing refl
        | inr (item, there) ↦
            rw there
              (ground (arith, list_beq_iff identity wanted, λ (e : identity ≡ wanted). ne (sym e)))
      ])

  -- There is no such item, or its patch has not the field.
  abbrev pub IsUneditable : Edit → Type 0
  IsUneditable (result, s') =
      ((item : ChangeItem)
        → item_with identity c.items ≡ some item
        → is_some (get item.patch field) ≡ false)
      × (is_ok result ≡ false)
      × (s' ≡ s)

  by_field :
      (item : ChangeItem) (known : Bool)
      → item_with identity c.items ≡ some item
      → is_some (get item.patch field) ≡ known
      → (let out =
            require known value_error
              (λ s.
                let c' = edited c identity field v in
                (
                  ok c',
                  add_event
                      (edit_event project_id c identity field (field_of item.patch field) v actor)
                      (put_changeset s id c'),
                ))
              s in
          IsEdited out ⊎ IsUneditable out)
  unfolding add_event
  by_field item true found known = inl (
    item,
    edit_item field v item,
    edited c identity field v,
    found,
    known,
    refl,
    get-put_self s.imports.changesets id (edited c identity field v),
    refl,
    same_item item found,
    (
      get-put_self item.patch field v,
      λ g ne. ground (arith, get-put item.patch field g v, list_beq_iff field g, ne),
      refl,
    ),
    other_item,
  )
  by_field item false found unknown = inr ((λ x e. ground (arith, found, e, unknown)), refl, refl)

  by_item :
      (o : Option ChangeItem)
      → item_with identity c.items ≡ o
      → (let out =
            require_some o key_error (edit_changeset project_id id c identity field v actor) s in
          IsEdited out ⊎ IsUneditable out)
  by_item none e = inr ((λ x found. absurd (cc (e, found))), refl, refl)
  by_item (some item) e = by_field item (is_some (get item.patch field)) e refl

  -- An edit of a pending file import sets one field of the patch of the first item with the identity,
  -- and leaves its other fields, the first item of every other identity and the status, if it names an item and a field of the item's patch. Otherwise it
  -- raises and leaves the store as it was.
  pub edit_file_import_changeset_lem :
      changeset_in project_id id s ≡ some c
      → is_file_import c.origin ≡ true
      → is_pending_approval c.status ≡ true
      → (let out = edit_file_import_changeset project_id id identity field v actor s in
          IsEdited out ⊎ IsUneditable out)
  unfolding edit_file_import_changeset
  edit_file_import_changeset_lem found imported waits =
      rw (found, imported, waits) (by_item (item_with identity c.items) refl)
