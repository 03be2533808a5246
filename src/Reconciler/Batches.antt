-- ===== src/Reconciler/Batches.antt =====
-- Batches of mutations (apps/server/app/shared/reconciler.py, `reconcile_batch`).
use project_digital_twin.Base.{
  ℕ, suc, ◌+◌, ◌≡◌, refl, ap, inl, inr, Bool, true, List, [], ◌∷◌, ◌++◌, map, arith, Text, contains,
  Key, nat_eq, list_eq, pair_eq, option_eq, beq_refl, List-cases, length, keep, All, Bool-cases,
}
use project_digital_twin.Reconciler.Records.{Mutation, ignored_duplicate, Ack, ReconciliationState}
use project_digital_twin.Reconciler.Merging.{
  Merge, conclude, reconcile_item, reconcile_from, is_synced, is_staged, is_duplicate, count_item,
  count_from, merged, reconcile_batch,
}

contains-append {ℓ} :
    {A : Type ℓ} ⦃e : Key A⦄ (a : A) (xs ys : List A)
    → contains a xs ≡ true
    → contains a (xs ++ ys) ≡ true
unfolding contains
contains-append a [] ys h = cc
contains-append a (x ∷ xs) ys h = ground (arith, contains-append a xs ys)

contains-append_last {ℓ} :
    {A : Type ℓ} ⦃e : Key A⦄ (a : A) (xs : List A) → contains a (xs ++ a ∷ []) ≡ true
unfolding contains
contains-append_last a [] = rw (beq_refl a)
contains-append_last a (x ∷ xs) = ground (arith, contains-append_last a xs)

-- The acknowledgement of a mutation that was processed before.
abbrev pub duplicate_of : {V : Type 0} → Mutation V → Ack
duplicate_of item = record {
  mutation_id = item.mutation_id;
  status = ignored_duplicate;
  entity_id = item.entity_id;
  applied_fields = [];
  conflicting_fields = [];
}

module _ {V : Type 0} (same : V → V → Bool) where
  abbrev pub IsProcessed : ReconciliationState V → Text → Type 0
  IsProcessed s id = contains id s.processed_mutations ≡ true

  processed-conclude :
      (s : ReconciliationState V) (item : Mutation V) (m : Merge V) (now : Text)
      → (conclude same s item m now).0.processed_mutations
        ≡ s.processed_mutations ++ item.mutation_id ∷ []
  unfolding conclude
  processed-conclude s item m now = ground arith

  item-IsProcessed :
      (now : Text) (s : ReconciliationState V) (item : Mutation V)
      → IsProcessed (reconcile_item same now s item).0 item.mutation_id
  unfolding reconcile_item
  item-IsProcessed now s item =
      elim (Bool-cases (contains item.mutation_id s.processed_mutations)) [
        | inl e ↦ rw e e
        | inr e ↦
            rw (e, processed-conclude) (contains-append_last item.mutation_id s.processed_mutations)
      ]

  item_keeps_IsProcessed :
      (now : Text) (s : ReconciliationState V) (item : Mutation V) (id : Text)
      → IsProcessed s id
      → IsProcessed (reconcile_item same now s item).0 id
  unfolding reconcile_item
  item_keeps_IsProcessed now s item id h =
      elim (Bool-cases (contains item.mutation_id s.processed_mutations)) [
        | inl e ↦ rw e h
        | inr e ↦
            rw (e, processed-conclude)
              (contains-append id s.processed_mutations (item.mutation_id ∷ []) h)
      ]

  loop_keeps_IsProcessed :
      (clock : ℕ → Text) (i : ℕ) (s : ReconciliationState V) (items : List (Mutation V)) (id : Text)
      → IsProcessed s id
      → IsProcessed (reconcile_from same clock i s items).0 id
  unfolding reconcile_from
  loop_keeps_IsProcessed clock i s [] id h = h
  loop_keeps_IsProcessed clock i s (item ∷ items) id h =
      loop_keeps_IsProcessed clock (suc i) (reconcile_item same (clock i) s item).0 items id
        (item_keeps_IsProcessed (clock i) s item id h)

  pub loop_processes :
      (clock : ℕ → Text) (i : ℕ) (s : ReconciliationState V) (items : List (Mutation V))
      → All (λ item. IsProcessed (reconcile_from same clock i s items).0 item.mutation_id) items
  unfolding reconcile_from
  loop_processes clock i s [] = tt
  loop_processes clock i s (item ∷ items) =
      let s' = (reconcile_item same (clock i) s item).0 in
      (
        loop_keeps_IsProcessed clock (suc i) s' items item.mutation_id
            (item-IsProcessed (clock i) s item),
        loop_processes clock (suc i) s' items,
      )

  replay_loop :
      (clock : ℕ → Text) (i : ℕ) (s : ReconciliationState V) (items : List (Mutation V))
      → All (λ item. IsProcessed s item.mutation_id) items
      → ((reconcile_from same clock i s items).0 ≡ s)
        × ((reconcile_from same clock i s items).1 ≡ map duplicate_of items)
  unfolding reconcile_from reconcile_item
  replay_loop clock i s [] h = (refl, refl)
  replay_loop clock i s (item ∷ items) h =
      let (e, acks) = replay_loop clock (suc i) s items h.1 in
      rw h.0 (e, ap (λ l. duplicate_of item ∷ l) acks)

  -- A batch that is sent again, at any later reading of the clock, changes nothing: the state is
  -- the same, and the acknowledgements are one for each mutation, in order, that calls it a duplicate
  -- and lists no fields.
  pub replay_is_ignored :
      (clock clock' : ℕ → Text) (s : ReconciliationState V) (items : List (Mutation V))
      → let s' = (reconcile_batch same clock s items).0 in
        let (s'', response) = reconcile_batch same clock' s' items in
        (s'' ≡ s') × (response.results ≡ map duplicate_of items)
  unfolding reconcile_batch
  replay_is_ignored clock clock' s items =
      replay_loop clock' 0 (reconcile_from same clock 0 s items).0 items
        (loop_processes clock 0 s items)

  length-loop :
      (clock : ℕ → Text) (i : ℕ) (s : ReconciliationState V) (items : List (Mutation V))
      → length (reconcile_from same clock i s items).1 ≡ length items
  unfolding reconcile_from
  length-loop clock i s [] = refl
  length-loop clock i s (item ∷ items) =
      ap suc (length-loop clock (suc i) (reconcile_item same (clock i) s item).0 items)

-- The counters move with the acknowledgement of the round.
abbrev IsCounted : ℕ × ℕ → ℕ × ℕ → List Ack → Type 0
IsCounted before after acks =
    (after.0 ≡ before.0 + length (keep is_synced acks))
    × (after.1 ≡ before.1 + length (keep is_staged acks))

module _ {V : Type 0} (same : V → V → Bool) where
  count_item_lem :
      (now : Text) (s : ReconciliationState V) (item : Mutation V) (counts : ℕ × ℕ)
      → IsCounted counts (count_item same s item counts) ((reconcile_item same now s item).1 ∷ [])
  unfolding count_item reconcile_item conclude
  count_item_lem now s item counts =
      elim (Bool-cases (contains item.mutation_id s.processed_mutations)) [
        | inl e ↦ rw e (omega arith, omega arith)
        | inr e ↦ rw e (elim (List-cases (merged same s item).conflicting) [
          | inl none_left ↦ rw none_left (omega arith, omega arith)
          | inr (x, xs, some_left) ↦ rw some_left (omega arith, omega arith)
        ])
      ]

  count_from_lem :
      (clock : ℕ → Text) (i : ℕ) (s : ReconciliationState V) (counts : ℕ × ℕ)
      (items : List (Mutation V))
      → IsCounted counts
          (count_from same clock i s counts items)
          (reconcile_from same clock i s items).1
  unfolding count_from reconcile_from
  count_from_lem clock i s counts [] = (omega arith, omega arith)
  count_from_lem clock i s counts (item ∷ items) =
      let (s', a) = reconcile_item same (clock i) s item in
      ground (
        arith,
        count_item_lem (clock i) s item counts,
        count_from_lem clock (suc i) s' (count_item same s item counts) items,
      )

partition :
    (acks : List Ack)
    → length (keep is_synced acks) + length (keep is_staged acks) + length (keep is_duplicate acks)
      ≡ length acks
partition [] = omega arith
partition (a ∷ acks) = ground (arith, partition acks)

-- The response has an acknowledgement for every mutation; the counters of the loop end as the numbers of
-- the acknowledgements that say synced and staged, and with the duplicates they add up to the number processed.
pub response_counts :
    {V : Type 0} (same : V → V → Bool) (clock : ℕ → Text) (s : ReconciliationState V)
    (items : List (Mutation V))
    → let r = (reconcile_batch same clock s items).1 in
      (length r.results ≡ length items)
      × (r.synced_count ≡ length (keep is_synced r.results))
      × (r.conflict_count ≡ length (keep is_staged r.results))
      × (r.synced_count + r.conflict_count + r.failed_count + length (keep is_duplicate r.results)
          ≡ r.processed_count)
unfolding reconcile_batch
response_counts same clock s items =
    let acks = (reconcile_from same clock 0 s items).1 in
    omega (
      arith,
      length-loop same clock 0 s items,
      count_from_lem same clock 0 s (0, 0) items,
      partition acks,
    )
