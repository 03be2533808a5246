-- ===== src/Reconciler/Resolving.antt =====
-- `list_conflicts`, `get_conflict` and `resolve_conflict` of apps/server/app/shared/reconciler.py.
use project_digital_twin.Base.{
  ℕ, ◌&&◌, not, Option, none, some, List, [], ◌∷◌, Text, text, Dict, get, put, values, ◌==◌, nat_eq,
  list_eq, pair_eq, option_eq, keep, if◌then◌else◌,
}
use project_digital_twin.Reconciler.Records.{
  ReviewStatus, pending_review, resolved, StagedConflictRecord, Stamp, ReconciliationState,
  entity_key, state_of, stamps_of,
}

unfoldable pub status_text : ReviewStatus → Text
status_text pending_review = text "PENDING_REVIEW"
status_text resolved = text "RESOLVED"

module _ {V : Type 0} where
  -- An empty filter is falsy.
  unfoldable pub list_conflicts :
      ReconciliationState V → Option Text → List (StagedConflictRecord V)
  list_conflicts s none = values s.staged_conflicts
  list_conflicts s (some status) =
      if status == []
      then values s.staged_conflicts
      else keep (λ c. status_text c.status == status) (values s.staged_conflicts)

  unfoldable pub get_conflict : ReconciliationState V → Text → Option (StagedConflictRecord V)
  get_conflict s conflict_id = get s.staged_conflicts conflict_id

pub data ResolveError : Type 0 where
  not_found foreign_client : ResolveError

pub data Resolved (A : Type 0) : Type 0 where
  ok : A → Resolved A
  err : ResolveError → Resolved A

module _ {V : Type 0} where
  -- `target_values`; `chosen_client_id` is falsy when it is empty
  unfoldable pub target_values :
      StagedConflictRecord V → Option Text → Option (Dict Text V) → Resolved (Dict Text V)
  target_values staged chosen (some custom) = ok custom
  target_values staged none none = ok []
  target_values staged (some client) none =
      if not (client == []) && client == staged.client_id
      then ok staged.conflicting_fields
      else err foreign_client

  -- `chosen_client_id or staged.client_id`
  abbrev pub author : StagedConflictRecord V → Option Text → Text
  author staged none = staged.client_id
  author staged (some client) = if client == [] then staged.client_id else client

  abbrev pub write_state : Dict Text V → Dict Text V → Dict Text V
  write_state d [] = d
  write_state d ((name, value) ∷ fields) = write_state (put d name value) fields

  abbrev pub write_stamps : Text → ℕ → Dict Text (Stamp V) → Dict Text V → Dict Text (Stamp V)
  write_stamps client now d [] = d
  write_stamps client now d ((name, value) ∷ fields) =
      write_stamps client now (put d name (client, now, value)) fields

  abbrev pub record_resolution :
      ReconciliationState V
      → Text
      → StagedConflictRecord V
      → Text
      → ℕ
      → Dict Text V
      → ReconciliationState V × Resolved (StagedConflictRecord V)
  record_resolution s conflict_id staged client now fields =
      let key = entity_key staged.entity_type staged.entity_id in
      let staged' = record staged { status = resolved } in
      (
        record s {
          entity_states = put s.entity_states key (write_state (state_of s key) fields);
          entity_field_timestamps =
              put s.entity_field_timestamps key (write_stamps client now (stamps_of s key) fields);
          staged_conflicts = put s.staged_conflicts conflict_id staged';
        },
        ok staged',
      )

  -- `setdefault` has made the entity's dictionaries when the choice is refused.
  abbrev pub touch : ReconciliationState V → Text → ReconciliationState V
  touch s key = record s {
    entity_states = put s.entity_states key (state_of s key);
    entity_field_timestamps = put s.entity_field_timestamps key (stamps_of s key);
  }

  unfoldable pub resolve_staged :
      ReconciliationState V
      → Text
      → StagedConflictRecord V
      → Text
      → ℕ
      → Resolved (Dict Text V)
      → ReconciliationState V × Resolved (StagedConflictRecord V)
  resolve_staged s conflict_id staged client now (ok fields) =
      record_resolution s conflict_id staged client now fields
  resolve_staged s conflict_id staged client now (err e) =
      (touch s (entity_key staged.entity_type staged.entity_id), err e)

  unfoldable pub resolve_found :
      ReconciliationState V
      → Text
      → Option Text
      → Option (Dict Text V)
      → ℕ
      → Option (StagedConflictRecord V)
      → ReconciliationState V × Resolved (StagedConflictRecord V)
  resolve_found s conflict_id chosen custom now none = (s, err not_found)
  resolve_found s conflict_id chosen custom now (some staged) =
      resolve_staged s conflict_id staged (author staged chosen) now
        (target_values staged chosen custom)

  -- The staged object is updated in place: the dictionary holds the new one under the same key.
  unfoldable pub resolve_conflict :
      ReconciliationState V
      → Text
      → Option Text
      → Option (Dict Text V)
      → ℕ
      → ReconciliationState V × Resolved (StagedConflictRecord V)
  unfolding resolve_found resolve_staged
  resolve_conflict s conflict_id chosen custom now =
      resolve_found s conflict_id chosen custom now (get s.staged_conflicts conflict_id)
