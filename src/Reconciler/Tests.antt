-- ===== src/Reconciler/Tests.antt =====
-- Runs of the engine, and the theorems at concrete inputs.
use project_digital_twin.Base.{
  ℕ, ◌+◌, ◌≡◌, refl, ◌≢◌, ◌⊎◌, Bool, Option, none, some, List, [], ◌∷◌, Text, text, get, put, keys,
  contains, ◌==◌, nat_eq, list_eq, pair_eq, option_eq, length, keep, map, inl, inr, list_beq,
}
use project_digital_twin.Reconciler.Records.{
  Mutation, synced, staged_for_review, pending_review, resolved, StagedConflictRecord, Stamp,
  ReconciliationState, conflict_id_of, state_of, stamps_of,
}
use project_digital_twin.Reconciler.Merging.{
  accept, refuse, clashes, merge_field, merge_fields, conclude, reconcile_item, reconcile_from,
  is_synced, is_staged, is_duplicate, count_item, count_from, reconcile_batch,
}
use project_digital_twin.Reconciler.Resolving.{ok, resolve_conflict}
use project_digital_twin.Reconciler.Items.{
  IsOvertaken, after, reconcile_item_field, reconcile_item-IsReview, IsReview, clashing_fields,
}
use project_digital_twin.Reconciler.Batches.{duplicate_of, replay_is_ignored, response_counts}
use project_digital_twin.Reconciler.Coherence.{
  IsCoherent, reconcile_batch-IsCoherent, resolve_conflict-IsCoherent,
}
use project_digital_twin.Reconciler.Resolution.{resolve_conflict_applies}

abbrev same_number : ℕ → ℕ → Bool
same_number a b = a == b

abbrev fresh : ReconciliationState ℕ
fresh = record {
  processed_mutations = [];
  entity_states = [];
  entity_field_timestamps = [];
  staged_conflicts = [];
}

abbrev mutation : Text → Text → ℕ → List (Text × ℕ) → Mutation ℕ
mutation id client time changes = record {
  mutation_id = id;
  client_id = client;
  workspace_id = text "default-workspace";
  user_id = text "default-user";
  entity_type = text "camera";
  entity_id = text "7";
  timestamp = time;
  field_changes = changes;
}

abbrev first : Mutation ℕ
first = mutation (text "m1") (text "a") 5 ((text "x", 1) ∷ (text "y", 2) ∷ [])

abbrev second : Mutation ℕ
second = mutation (text "m2") (text "b") 6 ((text "y", 3) ∷ (text "z", 4) ∷ [])

abbrev clock : ℕ → Text
clock n = n ∷ []

abbrev one : ReconciliationState ℕ
one = (reconcile_batch same_number clock fresh (first ∷ [])).0

abbrev two : ReconciliationState ℕ
two = (reconcile_batch same_number clock one (second ∷ [])).0

-- The second client loses `y`, which is staged, and writes `z`.
two_run :
    (get two.entity_states (text "camera:7")
      ≡ some ((text "x", 1) ∷ (text "y", 2) ∷ (text "z", 4) ∷ []))
    × (keys two.staged_conflicts ≡ text "conflict-m2" ∷ [])
unfolding reconcile_batch reconcile_from reconcile_item conclude merge_fields merge_field accept
    refuse clashes get put keys contains list_beq count_from count_item
two_run = (refl, refl)

abbrev field_y : Text
field_y = text "y"

abbrev stamp_y : Option (Stamp ℕ)
stamp_y = get (stamps_of one (text "camera:7")) field_y

reconcile_item_field_example :
    let s' = after same_number (clock 0) one second in
    (((get second.field_changes field_y ≡ none)
        ⊎ ((value : ℕ) × (get second.field_changes field_y ≡ some value)
            × IsOvertaken same_number (clock 0) one second stamp_y value))
      × (get (state_of s' (text "camera:7")) field_y ≡ get (state_of one (text "camera:7")) field_y)
      × (get (stamps_of s' (text "camera:7")) field_y ≡ stamp_y))
    ⊎ ((value : ℕ) × (get second.field_changes field_y ≡ some value)
        × ¬ IsOvertaken same_number (clock 0) one second stamp_y value
        × (get (state_of s' (text "camera:7")) field_y ≡ some value)
        × (get (stamps_of s' (text "camera:7")) field_y ≡ some (text "b", 6, value)))
unfolding reconcile_batch reconcile_from reconcile_item conclude merge_fields merge_field accept
    refuse clashes get put contains list_beq count_from count_item
reconcile_item_field_example =
    reconcile_item_field same_number (clock 0) one second field_y (refl, (refl, tt)) refl

reconcile_item-IsReview_example :
    let (s', a) = reconcile_item same_number (clock 0) one second in
    ((clashing_fields same_number (clock 0) one second ≡ [])
      × (a.status ≡ synced)
      × (s'.staged_conflicts ≡ one.staged_conflicts))
    ⊎ ((clashing_fields same_number (clock 0) one second ≢ [])
        × (a.status ≡ staged_for_review)
        × (a.conflicting_fields ≡ clashing_fields same_number (clock 0) one second)
        × ((r : StagedConflictRecord ℕ) × (get s'.staged_conflicts (conflict_id_of (text "m2"))
              ≡ some r)
            × IsReview same_number (clock 0) one second r))
unfolding reconcile_batch reconcile_from reconcile_item conclude merge_fields merge_field accept
    refuse clashes get put contains list_beq count_from count_item
reconcile_item-IsReview_example =
    reconcile_item-IsReview same_number (clock 0) one second (refl, (refl, tt)) refl

replay_is_ignored_example :
    let (s'', response) = reconcile_batch same_number clock two (second ∷ []) in
    (s'' ≡ two) × (response.results ≡ map duplicate_of (second ∷ []))
replay_is_ignored_example = replay_is_ignored same_number clock clock one (second ∷ [])

response_counts_example :
    let r = (reconcile_batch same_number clock one (first ∷ second ∷ [])).1 in
    (length r.results ≡ 2)
    × (r.synced_count ≡ length (keep is_synced r.results))
    × (r.conflict_count ≡ length (keep is_staged r.results))
    × (r.synced_count + r.conflict_count + r.failed_count + length (keep is_duplicate r.results)
        ≡ r.processed_count)
response_counts_example = response_counts same_number clock one (first ∷ second ∷ [])

fresh-IsCoherent : IsCoherent fresh
unfolding get
fresh-IsCoherent = record { agrees = λ key f. refl }

one-IsCoherent : IsCoherent one
one-IsCoherent = reconcile_batch-IsCoherent same_number clock fresh (first ∷ []) fresh-IsCoherent

two-IsCoherent : IsCoherent two
two-IsCoherent = reconcile_batch-IsCoherent same_number clock one (second ∷ []) one-IsCoherent

reconcile_batch-IsCoherent_example : IsCoherent two
reconcile_batch-IsCoherent_example =
    reconcile_batch-IsCoherent same_number clock one (second ∷ []) one-IsCoherent

resolve_conflict-IsCoherent_example :
    IsCoherent (resolve_conflict two (text "conflict-m2") (some (text "b")) none 9).0
resolve_conflict-IsCoherent_example =
    resolve_conflict-IsCoherent two (text "conflict-m2") (some (text "b")) none 9 two-IsCoherent

abbrev staged_second : StagedConflictRecord ℕ
staged_second = record {
  conflict_id = text "conflict-m2";
  mutation_id = text "m2";
  client_id = text "b";
  workspace_id = text "default-workspace";
  user_id = text "default-user";
  entity_type = text "camera";
  entity_id = text "7";
  timestamp = 6;
  conflicting_fields = (text "y", 3) ∷ [];
  server_fields = (text "y", 2) ∷ [];
  status = pending_review;
  created_at = 0 ∷ [];
}

abbrev staged_only : ReconciliationState ℕ
staged_only = record fresh { staged_conflicts = (text "conflict-m2", staged_second) ∷ [] }

resolve_conflict_applies_example :
    let (s', r) = resolve_conflict staged_only (text "conflict-m2") (some (text "b")) none 9 in
    (r ≡ ok (record staged_second { status = resolved }))
    × (get s'.staged_conflicts (text "conflict-m2")
        ≡ some (record staged_second { status = resolved }))
    × (get (state_of s' (text "camera:7")) field_y ≡ some 3)
    × (get (stamps_of s' (text "camera:7")) field_y ≡ some (text "b", 9, 3))
unfolding get list_beq
resolve_conflict_applies_example =
    resolve_conflict_applies staged_only (text "conflict-m2") staged_second 9 (some (text "b")) none
      ((text "y", 3) ∷ []) (text "b") field_y refl (inr (inl (refl, refl, (λ e. cc e), refl)))
      (inl (refl, λ e. cc e)) (refl, tt)
