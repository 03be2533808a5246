-- ===== src/Reconciler/Items.antt =====
-- What one mutation does (apps/server/app/shared/reconciler.py, the loop of `reconcile_batch`).
use project_digital_twin.Base.{
  ℕ, ◌≡◌, refl, sym, ◌∙◌, ◌≢◌, ◌⊎◌, inl, inr, Bool, true, false, Option, none, some, List, [],
  arith, Text, get, contains, nat_eq, list_eq, pair_eq, option_eq, List-cases, Bool-cases,
  Option-cases, get-put, list_beq_iff, get-put_self, IsDict,
}
use project_digital_twin.Reconciler.Records.{
  Mutation, synced, staged_for_review, pending_review, StagedConflictRecord, Stamp,
  ReconciliationState, entity_key, conflict_id_of, state_of, stamps_of,
}
use project_digital_twin.Reconciler.Merging.{
  clashes, Merge, stamped, merge_start, merged, staged_record, conclude, reconcile_item,
}
use project_digital_twin.Reconciler.Fields.{
  outcome, refusal, clashing, state-merge_fields, stamps-merge_fields, conflicting-merge_fields,
  conflict_dict-merge_fields, server_dict-merge_fields,
}

module _ {V : Type 0} (same : V → V → Bool) (now : Text) (s : ReconciliationState V)
    (item : Mutation V) where
  abbrev pub item_key : Text
  item_key = entity_key item.entity_type item.entity_id

  abbrev pub after : ReconciliationState V
  after = (reconcile_item same now s item).0

  -- The three results of one mutation, each with what it writes for one field `f`.
  reconcile_item-merged :
      contains item.mutation_id s.processed_mutations ≡ false
      → (state_of after item_key ≡ (merged same s item).state)
        × (stamps_of after item_key ≡ (merged same s item).stamps)
  unfolding reconcile_item conclude
  reconcile_item-merged new = ground (
    arith,
    get-put_self s.entity_states item_key (merged same s item).state,
    get-put_self s.entity_field_timestamps item_key (merged same s item).stamps,
  )

  reconcile_item_outcome :
      (f : Text)
      → IsDict item.field_changes
      → contains item.mutation_id s.processed_mutations ≡ false
      → (get (state_of after item_key) f
          ≡ outcome same item.client_id
              (get item.field_changes f)
              (get (stamps_of s item_key) f)
              (λ v. v)
              (get (state_of s item_key) f))
        × (get (stamps_of after item_key) f
            ≡ outcome same item.client_id
                (get item.field_changes f)
                (get (stamps_of s item_key) f)
                (λ v. (item.client_id, item.timestamp, v))
                (get (stamps_of s item_key) f))
  reconcile_item_outcome f h new =
      let (e, e') = reconcile_item-merged new in
      (
        rw e (
            state-merge_fields same item.client_id item.timestamp (merge_start same s item_key)
              item.field_changes f h),
        rw e' (
            stamps-merge_fields same item.client_id item.timestamp (merge_start same s item_key)
              item.field_changes f h),
      )

  -- Another client has written the field last, and another value.
  abbrev pub IsOvertaken : Option (Stamp V) → V → Type 0
  IsOvertaken stamp value =
      (previous : Text) × (time : ℕ) × (old : V) × (stamp ≡ some (previous, time, old))
      × (previous ≢ item.client_id)
      × (same old value ≡ false)

  clashes-IsOvertaken :
      (value : V) (stamp : Option (Stamp V))
      → clashes same item.client_id value stamp ≡ true
      → IsOvertaken stamp value
  unfolding clashes
  clashes-IsOvertaken value none e = absurd (cc e)
  clashes-IsOvertaken value (some (previous, time, old)) e = (
    previous,
    time,
    old,
    refl,
    λ p. ground (arith, e, p, list_beq_iff previous item.client_id),
    ground (arith, e),
  )

  not_clashes-IsOvertaken :
      (value : V) (stamp : Option (Stamp V))
      → clashes same item.client_id value stamp ≡ false
      → ¬ IsOvertaken stamp value
  unfolding clashes
  not_clashes-IsOvertaken value stamp e (previous, time, old, there, ne, apart) =
      ground (arith, rw there at e, ne, apart, list_beq_iff previous item.client_id)

  -- A mutation that is new leaves a field of its entity alone if it proposes nothing for it, or if
  -- another client wrote the field last with another value; else the field has the proposed
  -- value, stamped with the client, its time and the value.
  pub reconcile_item_field :
      (f : Text)
      → IsDict item.field_changes
      → contains item.mutation_id s.processed_mutations ≡ false
      → (((get item.field_changes f ≡ none)
            ⊎ ((value : V) × (get item.field_changes f ≡ some value)
                × IsOvertaken (get (stamps_of s item_key) f) value))
          × (get (state_of after item_key) f ≡ get (state_of s item_key) f)
          × (get (stamps_of after item_key) f ≡ get (stamps_of s item_key) f))
        ⊎ ((value : V) × (get item.field_changes f ≡ some value)
            × ¬ IsOvertaken (get (stamps_of s item_key) f) value
            × (get (state_of after item_key) f ≡ some value)
            × (get (stamps_of after item_key) f ≡ some (item.client_id, item.timestamp, value)))
  reconcile_item_field f h new =
      let (state, stamps) = reconcile_item_outcome f h new in
      elim (Option-cases (get item.field_changes f)) [
        | inl nothing ↦ inl (inl nothing, rw nothing at state, rw nothing at stamps)
        | inr (value, proposed) ↦
            elim (Bool-cases (clashes same item.client_id value (get (stamps_of s item_key) f))) [
              | inl clash ↦ inl (
                inr (value, proposed, clashes-IsOvertaken value _ clash),
                rw (proposed, clash) at state,
                rw (proposed, clash) at stamps,
              )
              | inr free ↦ inr (
                value,
                proposed,
                not_clashes-IsOvertaken value _ free,
                rw (proposed, free) at state,
                rw (proposed, free) at stamps,
              )
            ]
      ]

  -- No mutation, new or not, touches the fields or the stamps of another entity.
  pub reconcile_item_others :
      (key : Text)
      → item_key ≢ key
      → (get after.entity_states key ≡ get s.entity_states key)
        × (get after.entity_field_timestamps key ≡ get s.entity_field_timestamps key)
  unfolding reconcile_item conclude
  reconcile_item_others key ne = ground (
    arith,
    list_beq_iff item_key key,
    get-put s.entity_states item_key key (merged same s item).state,
    get-put s.entity_field_timestamps item_key key (merged same s item).stamps,
  )

  -- What a record staged for this mutation says: it is pending, it names the client, and for every
  -- field that clashes, and no other, it has the proposed value and the one kept.
  pub record IsReview (r : StagedConflictRecord V) : Type 0 where
    pub pending : r.status ≡ pending_review
    pub client : r.client_id ≡ item.client_id
    pub proposed :
        (f : Text)
        → get r.conflicting_fields f
          ≡ refusal same item.client_id
              (get item.field_changes f)
              (get (stamps_of s item_key) f)
              (λ v. v)
              none
    pub kept :
        (f : Text)
        → get r.server_fields f
          ≡ refusal same item.client_id
              (get item.field_changes f)
              (get (stamps_of s item_key) f)
              (λ v. stamped same v (get (stamps_of s item_key) f))
              none

  abbrev pub clashing_fields : List Text
  clashing_fields = clashing same item.client_id (stamps_of s item_key) item.field_changes

  conclude_review :
      (m : Merge V)
      → let (s', a) = conclude same s item m now in
        ((m.conflicting ≡ []) × (a.status ≡ synced) × (s'.staged_conflicts ≡ s.staged_conflicts))
        ⊎ ((m.conflicting ≢ [])
            × (a.status ≡ staged_for_review)
            × (a.conflicting_fields ≡ m.conflicting)
            × (get s'.staged_conflicts (conflict_id_of item.mutation_id)
                ≡ some (staged_record same item m now)))
  unfolding conclude
  conclude_review m = elim (List-cases m.conflicting) [
    | inl e ↦ inl (ground arith)
    | inr (x, rest, e) ↦ inr (
        ground (
          arith,
          get-put_self s.staged_conflicts (conflict_id_of item.mutation_id)
              (staged_record same item m now),
        ))
  ]

  merged-IsReview :
      IsDict item.field_changes → IsReview (staged_record same item (merged same s item) now)
  unfolding get
  merged-IsReview h = record {
    pending = refl;
    client = refl;
    proposed = λ f.
        conflict_dict-merge_fields same item.client_id item.timestamp (merge_start same s item_key)
          item.field_changes f h;
    kept = λ f.
        server_dict-merge_fields same item.client_id item.timestamp (merge_start same s item_key)
          item.field_changes f h;
  }

  -- A new mutation is staged for review, in a record as `IsReview` says, exactly if some field
  -- clashes, and then its acknowledgement lists the clashing fields; else it is synced, and the
  -- staged records are as before.
  pub reconcile_item-IsReview :
      IsDict item.field_changes
      → contains item.mutation_id s.processed_mutations ≡ false
      → let (s', a) = reconcile_item same now s item in
        ((clashing_fields ≡ []) × (a.status ≡ synced) × (s'.staged_conflicts ≡ s.staged_conflicts))
        ⊎ ((clashing_fields ≢ [])
            × (a.status ≡ staged_for_review)
            × (a.conflicting_fields ≡ clashing_fields)
            × ((r : StagedConflictRecord V) × (get s'.staged_conflicts
                    (conflict_id_of item.mutation_id)
                  ≡ some r)
                × IsReview r))
  unfolding reconcile_item
  reconcile_item-IsReview h new =
      let names =
        conflicting-merge_fields same item.client_id item.timestamp (merge_start same s item_key)
          item.field_changes h in
      rw new (elim (conclude_review (merged same s item)) [
        | inl (e, st, same_staged) ↦ inl (sym names ∙ e, st, same_staged)
        | inr (ne, st, listed, stored) ↦ inr (
          λ e. ne (names ∙ e),
          st,
          listed ∙ names,
          (staged_record same item (merged same s item) now, stored, merged-IsReview h),
        )
      ])
