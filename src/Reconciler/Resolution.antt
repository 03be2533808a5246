-- ===== src/Reconciler/Resolution.antt =====
-- How a staged conflict is settled (apps/server/app/shared/reconciler.py, `resolve_conflict`).
use project_digital_twin.Base.{
  ℕ, ◌≡◌, refl, ◌≢◌, ◌⊎◌, inl, inr, Option, none, some, [], ◌∷◌, arith, Text, Dict, get, put,
  nat_eq, list_eq, pair_eq, option_eq, get-cons, get-put, list_beq_iff, get-put_self, get-empty,
  IsDict,
}
use project_digital_twin.Reconciler.Records.{
  resolved, StagedConflictRecord, Stamp, ReconciliationState, entity_key, state_of, stamps_of,
}
use project_digital_twin.Reconciler.Resolving.{
  not_found, foreign_client, ok, err, target_values, author, write_state, write_stamps, touch,
  resolve_conflict,
}

module _ {V : Type 0} where
  -- The entry of a field after a dictionary of unique names has been written over it.
  abbrev pub overlay {ℓ} : {A : Type ℓ} → Option V → (V → A) → Option A → Option A
  overlay none new old = old
  overlay (some value) new old = some (new value)

  get-write_state :
      (d fields : Dict Text V) (f : Text)
      → IsDict fields
      → get (write_state d fields) f ≡ overlay (get fields f) (λ v. v) (get d f)
  get-write_state d [] f h = simp get-empty
  get-write_state d ((name, value) ∷ fields) f h =
      rw (get-write_state (put d name value) fields f h.1, get-cons)
        (ground (arith, h.0, list_beq_iff name f, get-put d name f value))

  get-write_stamps :
      (client : Text) (now : ℕ) (d : Dict Text (Stamp V)) (fields : Dict Text V) (f : Text)
      → IsDict fields
      → get (write_stamps client now d fields) f
        ≡ overlay (get fields f) (λ v. (client, now, v)) (get d f)
  get-write_stamps client now d [] f h = simp get-empty
  get-write_stamps client now d ((name, value) ∷ fields) f h =
      rw (get-write_stamps client now (put d name (client, now, value)) fields f h.1, get-cons)
        (ground (arith, h.0, list_beq_iff name f, get-put d name f (client, now, value)))

module _ {V : Type 0} (s : ReconciliationState V) (id : Text) (staged : StagedConflictRecord V)
    (now : ℕ) where
  abbrev pub resolved_key : Text
  resolved_key = entity_key staged.entity_type staged.entity_id

  -- The values that settle the conflict: custom ones, if they are given; else those of the record's
  -- client, if it is the one chosen; else, where no client is chosen, none.
  abbrev pub IsChoice : Option Text → Option (Dict Text V) → Dict Text V → Type 0
  IsChoice chosen custom fields =
      (custom ≡ some fields)
      ⊎ ((custom ≡ none)
          × (chosen ≡ some staged.client_id)
          × (staged.client_id ≢ [])
          × (fields ≡ staged.conflicting_fields))
      ⊎ ((custom ≡ none) × (chosen ≡ none) × (fields ≡ []))

  -- The client that the values are stamped with: the chosen one, or that of the record where none is
  -- chosen or its name is empty.
  abbrev pub IsAuthor : Option Text → Text → Type 0
  IsAuthor chosen client =
      ((chosen ≡ some client) × (client ≢ []))
      ⊎ ((client ≡ staged.client_id) × ((chosen ≡ none) ⊎ (chosen ≡ some [])))

  target_values-IsChoice :
      (chosen : Option Text) (custom : Option (Dict Text V)) (fields : Dict Text V)
      → IsChoice chosen custom fields
      → target_values staged chosen custom ≡ ok fields
  unfolding target_values
  target_values-IsChoice chosen custom fields (inl e) = rw e refl
  target_values-IsChoice chosen custom fields (inr (inl (e, c, ne, same))) =
      rw (e, c, same)
        (ground (
          arith,
          ne,
          list_beq_iff staged.client_id [],
          list_beq_iff staged.client_id staged.client_id,
        ))
  target_values-IsChoice chosen custom fields (inr (inr (e, c, same))) = rw (e, c, same) refl

  author-IsAuthor :
      (chosen : Option Text) (client : Text)
      → IsAuthor chosen client
      → author staged chosen ≡ client
  author-IsAuthor chosen client (inl (e, ne)) = rw e (ground (arith, ne, list_beq_iff client []))
  author-IsAuthor chosen client (inr (e, inl c)) = rw (c, e) refl
  author-IsAuthor chosen client (inr (e, inr c)) =
      rw c (ground (arith, e, list_beq_iff {A = ℕ} [] []))

  -- A conflict that is found is settled by custom values, by the values of its client where that client
  -- is chosen, or by none where neither is given: the entity has the values that were chosen, stamped
  -- with the chosen client, or that of the record where none is chosen, its other fields are as before,
  -- and the record is resolved.
  pub resolve_conflict_applies :
      (chosen : Option Text) (custom : Option (Dict Text V)) (fields : Dict Text V)
      (client f : Text)
      → get s.staged_conflicts id ≡ some staged
      → IsChoice chosen custom fields
      → IsAuthor chosen client
      → IsDict fields
      → let (s', r) = resolve_conflict s id chosen custom now in
        (r ≡ ok (record staged { status = resolved }))
        × (get s'.staged_conflicts id ≡ some (record staged { status = resolved }))
        × (get (state_of s' resolved_key) f
            ≡ overlay (get fields f) (λ v. v) (get (state_of s resolved_key) f))
        × (get (stamps_of s' resolved_key) f
            ≡ overlay (get fields f) (λ v. (client, now, v)) (get (stamps_of s resolved_key) f))
  unfolding resolve_conflict
  resolve_conflict_applies chosen custom fields client f found choice by h =
      rw
        (
          found,
          target_values-IsChoice chosen custom fields choice,
          author-IsAuthor chosen client by,
        )
        (
          refl,
          get-put_self s.staged_conflicts id (record staged { status = resolved }),
          rw get-put_self (get-write_state (state_of s resolved_key) fields f h),
          rw get-put_self (get-write_stamps client now (stamps_of s resolved_key) fields f h),
        )

  target_values_foreign :
      (client : Text)
      → client ≢ staged.client_id
      → target_values staged (some client) none ≡ err foreign_client
  unfolding target_values
  target_values_foreign client ne = ground (arith, list_beq_iff client staged.client_id)

  state_of-touch :
      (k key : Text)
      → (state_of (touch s k) key ≡ state_of s key) × (stamps_of (touch s k) key ≡ stamps_of s key)
  state_of-touch k key =
      rw (get-put s.entity_states k key, get-put s.entity_field_timestamps k key)
        (ground (arith, list_beq_iff k key))

  -- A conflict cannot be settled for a client that is not its own: the error leaves every staged
  -- record, and every field of every entity with its stamp, as they were.
  pub resolve_conflict_foreign :
      (client key : Text)
      → get s.staged_conflicts id ≡ some staged
      → client ≢ staged.client_id
      → let (s', r) = resolve_conflict s id (some client) none now in
        (r ≡ err foreign_client)
        × (s'.staged_conflicts ≡ s.staged_conflicts)
        × (state_of s' key ≡ state_of s key)
        × (stamps_of s' key ≡ stamps_of s key)
  unfolding resolve_conflict
  resolve_conflict_foreign client key found ne =
      let (e, e') = state_of-touch resolved_key key in
      rw (found, target_values_foreign client ne) (refl, refl, e, e')

-- An unknown conflict is an error that changes nothing.
resolve_conflict_unknown :
    {V : Type 0} (s : ReconciliationState V) (id : Text) (chosen : Option Text)
    (custom : Option (Dict Text V)) (now : ℕ)
    → get s.staged_conflicts id ≡ none
    → resolve_conflict s id chosen custom now ≡ (s, err not_found)
unfolding resolve_conflict
resolve_conflict_unknown s id chosen custom now e = rw e
