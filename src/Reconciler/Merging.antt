-- ===== src/Reconciler/Merging.antt =====
-- `reconcile_batch` of apps/server/app/shared/reconciler.py, from the loop over fields outwards.
use project_digital_twin.Base.{
  ℕ, suc, ◌+◌, Bool, true, false, ◌&&◌, not, Option, none, some, List, [], ◌∷◌, ◌++◌, Text, Dict,
  get, put, contains, ◌==◌, nat_eq, list_eq, pair_eq, option_eq, length, if◌then◌else◌,
}
use project_digital_twin.Reconciler.Records.{
  Mutation, AckStatus, synced, staged_for_review, ignored_duplicate, Ack, pending_review,
  StagedConflictRecord, Stamp, ReconciliationState, BatchResponse, entity_key, conflict_id_of,
  state_of, stamps_of,
}

-- The variables of the loop over `item.field_changes`.
pub record Merge (V : Type 0) : Type 0 where
  pub state : Dict Text V
  pub stamps : Dict Text (Stamp V)
  pub applied : List Text
  pub conflicting : List Text
  pub conflict_dict : Dict Text V
  pub server_dict : Dict Text V

module _ {V : Type 0} where
  unfoldable pub accept : Text → ℕ → Merge V → Text → V → Merge V
  accept client time m name value = record m {
    state = put m.state name value;
    stamps = put m.stamps name (client, time, value);
    applied = m.applied ++ name ∷ [];
  }

  unfoldable pub refuse : Merge V → Text → V → V → Merge V
  refuse m name value server = record m {
    conflicting = m.conflicting ++ name ∷ [];
    conflict_dict = put m.conflict_dict name value;
    server_dict = put m.server_dict name server;
  }

module _ {V : Type 0} (same : V → V → Bool) where
  -- Another client wrote the field last, and wrote another value.
  unfoldable pub clashes : Text → V → Option (Stamp V) → Bool
  clashes client value none = false
  clashes client value (some (previous_client, _, previous)) =
      not (previous_client == client) && not (same previous value)

  -- The value of a stamp, where there is one.
  abbrev pub stamped : V → Option (Stamp V) → V
  stamped d none = d
  stamped d (some (_, _, value)) = value

  -- One round of the loop.
  unfoldable pub merge_field : Text → ℕ → Merge V → Text → V → Merge V
  merge_field client time m name value =
      if clashes client value (get m.stamps name)
      then refuse m name value (stamped value (get m.stamps name))
      else accept client time m name value

  unfoldable pub merge_fields : Text → ℕ → Merge V → List (Text × V) → Merge V
  merge_fields client time m [] = m
  merge_fields client time m ((name, value) ∷ changes) =
      merge_fields client time (merge_field client time m name value) changes

  abbrev pub merge_start : ReconciliationState V → Text → Merge V
  merge_start s key = record {
    state = state_of s key;
    stamps = stamps_of s key;
    applied = [];
    conflicting = [];
    conflict_dict = [];
    server_dict = [];
  }

  abbrev pub merged : ReconciliationState V → Mutation V → Merge V
  merged s item =
      merge_fields item.client_id item.timestamp
        (merge_start s (entity_key item.entity_type item.entity_id)) item.field_changes

  -- `StagedConflictRecord(...)` of a merge with conflicts
  abbrev pub staged_record : Mutation V → Merge V → Text → StagedConflictRecord V
  staged_record item m now = record {
    conflict_id = conflict_id_of item.mutation_id;
    mutation_id = item.mutation_id;
    client_id = item.client_id;
    workspace_id = item.workspace_id;
    user_id = item.user_id;
    entity_type = item.entity_type;
    entity_id = item.entity_id;
    timestamp = item.timestamp;
    conflicting_fields = m.conflict_dict;
    server_fields = m.server_dict;
    status = pending_review;
    created_at = now;
  }

  -- The dictionaries that the loop updates in place, and the id in the set of processed ones.
  abbrev pub store_merge : ReconciliationState V → Mutation V → Merge V → ReconciliationState V
  store_merge s item m = record s {
    processed_mutations = s.processed_mutations ++ item.mutation_id ∷ [];
    entity_states = put s.entity_states (entity_key item.entity_type item.entity_id) m.state;
    entity_field_timestamps =
        put s.entity_field_timestamps (entity_key item.entity_type item.entity_id) m.stamps;
  }

  abbrev pub ack : Mutation V → AckStatus → List Text → List Text → Ack
  ack item status applied conflicting = record {
    mutation_id = item.mutation_id;
    status = status;
    entity_id = item.entity_id;
    applied_fields = applied;
    conflicting_fields = conflicting;
  }

  -- `if conflicting_fields: … else: …`
  unfoldable pub conclude :
      ReconciliationState V → Mutation V → Merge V → Text → ReconciliationState V × Ack
  conclude s item m now = elim m.conflicting [
    | [] ↦ (store_merge s item m, ack item synced m.applied [])
    | _ ∷ _ ↦ (
      record (store_merge s item m) {
        staged_conflicts =
            put s.staged_conflicts (conflict_id_of item.mutation_id) (staged_record item m now);
      },
      ack item staged_for_review m.applied m.conflicting,
    )
  ]

  -- The body of the loop over `request.mutations`.
  unfoldable pub reconcile_item :
      Text → ReconciliationState V → Mutation V → ReconciliationState V × Ack
  reconcile_item now s item =
      if contains item.mutation_id s.processed_mutations
      then (s, ack item ignored_duplicate [] [])
      else conclude s item (merged s item) now

  -- The counters after one round: `synced_count += 1` and `conflict_count += 1` stand in the branches.
  unfoldable pub count_item : ReconciliationState V → Mutation V → ℕ × ℕ → ℕ × ℕ
  count_item s item (synced_count, conflict_count) =
      if contains item.mutation_id s.processed_mutations
      then (synced_count, conflict_count)
      else elim (merged s item).conflicting [
        | [] ↦ (synced_count + 1, conflict_count)
        | _ ∷ _ ↦ (synced_count, conflict_count + 1)
      ]

  -- The loop; `clock` gives the reading of each round.
  unfoldable pub reconcile_from :
      (ℕ → Text) → ℕ → ReconciliationState V → List (Mutation V) → ReconciliationState V × List Ack
  reconcile_from clock i s [] = (s, [])
  reconcile_from clock i s (item ∷ items) =
      let (s', a) = reconcile_item (clock i) s item in
      let (s'', acks) = reconcile_from clock (suc i) s' items in (s'', a ∷ acks)

  -- The counters of the same loop.
  unfoldable pub count_from :
      (ℕ → Text) → ℕ → ReconciliationState V → ℕ × ℕ → List (Mutation V) → ℕ × ℕ
  count_from clock i s counts [] = counts
  count_from clock i s counts (item ∷ items) =
      count_from clock (suc i) (reconcile_item (clock i) s item).0 (count_item s item counts) items

abbrev pub is_synced : Ack → Bool
is_synced a = elim a.status [ synced ↦ true | _ ↦ false ]

abbrev pub is_staged : Ack → Bool
is_staged a = elim a.status [ staged_for_review ↦ true | _ ↦ false ]

abbrev pub is_duplicate : Ack → Bool
is_duplicate a = elim a.status [ ignored_duplicate ↦ true | _ ↦ false ]

module _ {V : Type 0} (same : V → V → Bool) where
  unfoldable pub reconcile_batch :
      (ℕ → Text) → ReconciliationState V → List (Mutation V) → ReconciliationState V × BatchResponse
  reconcile_batch clock s mutations =
      let (s', acks) = reconcile_from same clock 0 s mutations in
      let (synced_count, conflict_count) = count_from same clock 0 s (0, 0) mutations in
      (
        s',
        record {
          processed_count = length mutations;
          synced_count = synced_count;
          conflict_count = conflict_count;
          failed_count = 0;
          results = acks;
        },
      )
