-- ===== src/Reconciler/Coherence.antt =====
-- The values of an entity and the stamps of its fields agree (apps/server/app/shared/reconciler.py).
use project_digital_twin.Base.{
  ℕ, suc, ◌≡◌, refl, inl, inr, Bool, Option, none, some, List, [], ◌∷◌, arith, Text, Dict, get, put,
  contains, ◌==◌, nat_eq, list_eq, pair_eq, option_eq, Bool-cases, get-put, dict_laws,
}
use project_digital_twin.Reconciler.Records.{
  Mutation, StagedConflictRecord, Stamp, ReconciliationState, entity_key, state_of, stamps_of,
}
use project_digital_twin.Reconciler.Merging.{
  Merge, accept, refuse, merge_field, merge_fields, merge_start, merged, conclude, reconcile_item,
  reconcile_from, reconcile_batch,
}
use project_digital_twin.Reconciler.Resolving.{
  Resolved, ok, err, target_values, author, write_state, write_stamps, touch, resolve_staged,
  resolve_found, resolve_conflict,
}

module _ {V : Type 0} where
  abbrev pub stamp_value : Option (Stamp V) → Option V
  stamp_value none = none
  stamp_value (some (_, _, value)) = some value

  -- Every field of every entity has the value that its last stamp says, and a field with no stamp
  -- has no value.
  pub record IsCoherent (s : ReconciliationState V) : Type 0 where
    pub agrees : (key f : Text) → get (state_of s key) f ≡ stamp_value (get (stamps_of s key) f)

  abbrev Agree : Dict Text V → Dict Text (Stamp V) → Type 0
  Agree d stamps = (f : Text) → get d f ≡ stamp_value (get stamps f)

  Agree-write :
      (client : Text) (now : ℕ) (fields d : Dict Text V) (stamps : Dict Text (Stamp V))
      → Agree d stamps
      → Agree (write_state d fields) (write_stamps client now stamps fields)
  Agree-write client now [] d stamps h f = h f
  Agree-write client now ((name, value) ∷ fields) d stamps h f =
      Agree-write client now fields (put d name value) (put stamps name (client, now, value))
        (λ g. simp dict_laws (ground (arith, h g))) f

  -- A state whose dictionaries differ from those of `s` at one entity alone.
  put-IsCoherent :
      (s t : ReconciliationState V) (key : Text) (d : Dict Text V) (stamps : Dict Text (Stamp V))
      → t.entity_states ≡ put s.entity_states key d
      → t.entity_field_timestamps ≡ put s.entity_field_timestamps key stamps
      → IsCoherent s
      → Agree d stamps
      → IsCoherent t
  put-IsCoherent s t key d stamps e e' h agree = record {
    agrees = λ k f.
        rw (e, e', get-put s.entity_states key k d, get-put s.entity_field_timestamps key k stamps)
          (elim (Bool-cases (key == k)) [
            | inl same_key ↦ rw same_key (agree f)
            | inr other ↦ rw other (h.agrees k f)
          ]);
  }

  resolve_staged-IsCoherent :
      (s : ReconciliationState V) (id : Text) (staged : StagedConflictRecord V) (client : Text)
      (now : ℕ) (r : Resolved (Dict Text V))
      → IsCoherent s
      → IsCoherent (resolve_staged s id staged client now r).0
  unfolding resolve_staged
  resolve_staged-IsCoherent s id staged client now (ok fields) h =
      let key = entity_key staged.entity_type staged.entity_id in
      put-IsCoherent s (resolve_staged s id staged client now (ok fields)).0 key
        (write_state (state_of s key) fields) (write_stamps client now (stamps_of s key) fields)
        refl refl h
        (Agree-write client now fields (state_of s key) (stamps_of s key) (h.agrees key))
  resolve_staged-IsCoherent s id staged client now (err e) h =
      let key = entity_key staged.entity_type staged.entity_id in
      put-IsCoherent s (touch s key) key (state_of s key) (stamps_of s key) refl refl h
        (h.agrees key)

  resolve_found-IsCoherent :
      (s : ReconciliationState V) (id : Text) (chosen : Option Text) (custom : Option (Dict Text V))
      (now : ℕ) (found : Option (StagedConflictRecord V))
      → IsCoherent s
      → IsCoherent (resolve_found s id chosen custom now found).0
  unfolding resolve_found
  resolve_found-IsCoherent s id chosen custom now none h = h
  resolve_found-IsCoherent s id chosen custom now (some staged) h =
      resolve_staged-IsCoherent s id staged (author staged chosen) now
        (target_values staged chosen custom) h

  -- Settling a conflict keeps the values and the stamps in agreement, refused or not.
  pub resolve_conflict-IsCoherent :
      (s : ReconciliationState V) (id : Text) (chosen : Option Text) (custom : Option (Dict Text V))
      (now : ℕ)
      → IsCoherent s
      → IsCoherent (resolve_conflict s id chosen custom now).0
  unfolding resolve_conflict
  resolve_conflict-IsCoherent s id chosen custom now h =
      resolve_found-IsCoherent s id chosen custom now (get s.staged_conflicts id) h

module _ {V : Type 0} (same : V → V → Bool) where
  Agree-merge_fields :
      (client : Text) (time : ℕ) (m : Merge V) (changes : Dict Text V)
      → Agree m.state m.stamps
      → Agree
          (merge_fields same client time m changes).state
          (merge_fields same client time m changes).stamps
  unfolding merge_fields merge_field accept refuse
  Agree-merge_fields client time m [] h = h
  Agree-merge_fields client time m ((name, value) ∷ changes) h =
      Agree-merge_fields client time (merge_field same client time m name value) changes λ f.
        ground
          (arith, h f, get-put m.state name f value, get-put m.stamps name f (client, time, value))

  conclude-IsCoherent :
      (s : ReconciliationState V) (item : Mutation V) (now : Text)
      → IsCoherent s
      → IsCoherent (conclude same s item (merged same s item) now).0
  unfolding conclude
  conclude-IsCoherent s item now h =
      let key = entity_key item.entity_type item.entity_id in
      let m = merged same s item in
      put-IsCoherent s (conclude same s item m now).0 key m.state m.stamps (ground arith)
        (ground arith) h
        (Agree-merge_fields item.client_id item.timestamp (merge_start same s key)
          item.field_changes (h.agrees key))

  reconcile_item-IsCoherent :
      (now : Text) (s : ReconciliationState V) (item : Mutation V)
      → IsCoherent s
      → IsCoherent (reconcile_item same now s item).0
  unfolding reconcile_item
  reconcile_item-IsCoherent now s item h =
      elim (Bool-cases (contains item.mutation_id s.processed_mutations)) [
        | inl e ↦ rw e h
        | inr e ↦ rw e (conclude-IsCoherent s item now h)
      ]

  loop-IsCoherent :
      (clock : ℕ → Text) (i : ℕ) (s : ReconciliationState V) (items : List (Mutation V))
      → IsCoherent s
      → IsCoherent (reconcile_from same clock i s items).0
  unfolding reconcile_from
  loop-IsCoherent clock i s [] h = h
  loop-IsCoherent clock i s (item ∷ items) h =
      loop-IsCoherent clock (suc i) (reconcile_item same (clock i) s item).0 items
        (reconcile_item-IsCoherent (clock i) s item h)

  -- A batch keeps the values and the stamps in agreement, whatever it merges, stages or ignores.
  pub reconcile_batch-IsCoherent :
      (clock : ℕ → Text) (s : ReconciliationState V) (items : List (Mutation V))
      → IsCoherent s
      → IsCoherent (reconcile_batch same clock s items).0
  unfolding reconcile_batch
  reconcile_batch-IsCoherent clock s items h = loop-IsCoherent clock 0 s items h
