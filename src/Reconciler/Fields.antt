-- ===== src/Reconciler/Fields.antt =====
-- What a merge makes of each field (apps/server/app/shared/reconciler.py, `reconcile_batch`).
use mathlib.Core.List.{append-nil, append_assoc}
use project_digital_twin.Base.{
  ℕ, ◌+◌, ◌≡◌, refl, inl, inr, Bool, Option, none, some, List, [], ◌∷◌, ◌++◌, arith, Text, Dict,
  get, put, nat_eq, list_eq, pair_eq, option_eq, length, length-append, Bool-cases, get-cons,
  get-put, list_beq_iff, get-empty, IsDict, if◌then◌else◌,
}
use project_digital_twin.Reconciler.Records.{Stamp}
use project_digital_twin.Reconciler.Merging.{
  Merge, accept, refuse, clashes, stamped, merge_field, merge_fields,
}

module _ {V : Type 0} (same : V → V → Bool) where
  -- The entry of a field after a merge, from its entry `old` before, the value proposed for it and
  -- its stamp before: a proposal that clashes, or none, leaves it alone.
  abbrev pub outcome {ℓ} :
      {A : Type ℓ} → Text → Option V → Option (Stamp V) → (V → A) → Option A → Option A
  outcome client none stamp new old = old
  outcome client (some value) stamp new old =
      if clashes same client value stamp then old else some (new value)

  pub state-merge_fields :
      (client : Text) (time : ℕ) (m : Merge V) (changes : Dict Text V) (f : Text)
      → IsDict changes
      → get (merge_fields same client time m changes).state f
        ≡ outcome client (get changes f) (get m.stamps f) (λ v. v) (get m.state f)
  unfolding merge_fields
  state-merge_fields client time m [] f h = simp get-empty
  state-merge_fields client time m ((name, value) ∷ changes) f h =
      rw
        (
          state-merge_fields client time (merge_field same client time m name value) changes f h.1,
          get-cons,
        )
        (unfold merge_field accept refuse in
          ground (
            arith,
            h.0,
            list_beq_iff name f,
            get-put m.state name f value,
            get-put m.stamps name f (client, time, value),
          ))

  pub stamps-merge_fields :
      (client : Text) (time : ℕ) (m : Merge V) (changes : Dict Text V) (f : Text)
      → IsDict changes
      → get (merge_fields same client time m changes).stamps f
        ≡ outcome client (get changes f) (get m.stamps f) (λ v. (client, time, v)) (get m.stamps f)
  unfolding merge_fields
  stamps-merge_fields client time m [] f h = simp get-empty
  stamps-merge_fields client time m ((name, value) ∷ changes) f h =
      rw
        (
          stamps-merge_fields client time (merge_field same client time m name value) changes f h.1,
          get-cons,
        )
        (unfold merge_field accept refuse in
          ground (arith, h.0, list_beq_iff name f, get-put m.stamps name f (client, time, value)))

  -- every field is listed once: accepted or in conflict
  pub length-merge_fields :
      (client : Text) (time : ℕ) (m : Merge V) (changes : Dict Text V)
      → length (merge_fields same client time m changes).applied
          + length (merge_fields same client time m changes).conflicting
        ≡ length m.applied + length m.conflicting + length changes
  unfolding merge_fields merge_field accept refuse
  length-merge_fields client time m [] = omega arith
  length-merge_fields client time m ((name, value) ∷ changes) = ground (
    arith,
    length-merge_fields client time (merge_field same client time m name value) changes,
    length-append m.applied (name ∷ []),
    length-append m.conflicting (name ∷ []),
  )

  -- The proposed fields that another client wrote last, with another value.
  pub clashing : Text → Dict Text (Stamp V) → Dict Text V → List Text
  clashing client stamps [] = []
  clashing client stamps ((name, value) ∷ changes) =
      let rest = clashing client stamps changes in
      if clashes same client value (get stamps name) then name ∷ rest else rest

  clashing-put :
      (client : Text) (stamps : Dict Text (Stamp V)) (name : Text) (p : Stamp V)
      (changes : Dict Text V)
      → get changes name ≡ none
      → clashing client (put stamps name p) changes ≡ clashing client stamps changes
  unfolding clashing
  clashing-put client stamps name p [] h = refl
  clashing-put client stamps name p ((n, v) ∷ changes) h = ground (
    arith,
    get-cons changes n name v,
    get-put stamps name n p,
    list_beq_iff name n,
    list_beq_iff n name,
    clashing-put client stamps name p changes,
  )

  pub conflicting-merge_fields :
      (client : Text) (time : ℕ) (m : Merge V) (changes : Dict Text V)
      → IsDict changes
      → (merge_fields same client time m changes).conflicting
        ≡ m.conflicting ++ clashing client m.stamps changes
  unfolding merge_fields clashing merge_field
  conflicting-merge_fields client time m [] h = rw append-nil
  conflicting-merge_fields client time m ((name, value) ∷ changes) h =
      elim (Bool-cases (clashes same client value (get m.stamps name))) [
        | inl e ↦
            rw
              (
                conflicting-merge_fields client time (merge_field same client time m name value)
                    changes h.1,
                e,
              )
              (unfold refuse in rw append_assoc)
        | inr e ↦
            rw
              (
                conflicting-merge_fields client time (merge_field same client time m name value)
                    changes h.1,
                e,
              )
              (unfold accept in
                rw (clashing-put client m.stamps name (client, time, value) changes h.0))
      ]

  -- The entry of a field in the record of conflicts, likewise.
  abbrev pub refusal {ℓ} :
      {A : Type ℓ} → Text → Option V → Option (Stamp V) → (V → A) → Option A → Option A
  refusal client none stamp new old = old
  refusal client (some value) stamp new old =
      if clashes same client value stamp then some (new value) else old

  pub conflict_dict-merge_fields :
      (client : Text) (time : ℕ) (m : Merge V) (changes : Dict Text V) (f : Text)
      → IsDict changes
      → get (merge_fields same client time m changes).conflict_dict f
        ≡ refusal client (get changes f) (get m.stamps f) (λ v. v) (get m.conflict_dict f)
  unfolding merge_fields
  conflict_dict-merge_fields client time m [] f h = simp get-empty
  conflict_dict-merge_fields client time m ((name, value) ∷ changes) f h =
      rw
        (
          conflict_dict-merge_fields client time (merge_field same client time m name value) changes
              f h.1,
          get-cons,
        )
        (unfold merge_field accept refuse in
          ground (
            arith,
            h.0,
            list_beq_iff name f,
            get-put m.conflict_dict name f value,
            get-put m.stamps name f (client, time, value),
          ))

  pub server_dict-merge_fields :
      (client : Text) (time : ℕ) (m : Merge V) (changes : Dict Text V) (f : Text)
      → IsDict changes
      → get (merge_fields same client time m changes).server_dict f
        ≡ refusal client
            (get changes f)
            (get m.stamps f)
            (λ v. stamped same v (get m.stamps f))
            (get m.server_dict f)
  unfolding merge_fields
  server_dict-merge_fields client time m [] f h = simp get-empty
  server_dict-merge_fields client time m ((name, value) ∷ changes) f h =
      rw
        (
          server_dict-merge_fields client time (merge_field same client time m name value) changes f
              h.1,
          get-cons,
        )
        (unfold merge_field accept refuse in
          ground (
            arith,
            h.0,
            list_beq_iff name f,
            get-put m.server_dict name f (stamped same value (get m.stamps name)),
            get-put m.stamps name f (client, time, value),
          ))
