-- ===== src/Reconciler/Records.antt =====
-- The data of the reconciliation engine (apps/server/app/shared/reconciler.py, schemas.py).
use project_digital_twin.Base.{
  ℕ, List, [], ◌∷◌, ◌++◌, Text, text, Dict, get, nat_eq, list_eq, pair_eq, option_eq, get_or,
}

-- `SyncMutationItem`, without the fields that the engine does not read.
pub record Mutation (V : Type 0) : Type 0 where
  pub mutation_id : Text
  pub client_id : Text
  pub workspace_id : Text
  pub user_id : Text
  pub entity_type : Text
  pub entity_id : Text
  pub timestamp : ℕ
  pub field_changes : List (Text × V)

pub data AckStatus : Type 0 where
  synced staged_for_review ignored_duplicate : AckStatus

-- `SyncMutationAck`
pub record Ack : Type 0 where
  pub mutation_id : Text
  pub status : AckStatus
  pub entity_id : Text
  pub applied_fields : List Text
  pub conflicting_fields : List Text

pub data ReviewStatus : Type 0 where
  pending_review resolved : ReviewStatus

pub record StagedConflictRecord (V : Type 0) : Type 0 where
  pub conflict_id : Text
  pub mutation_id : Text
  pub client_id : Text
  pub workspace_id : Text
  pub user_id : Text
  pub entity_type : Text
  pub entity_id : Text
  pub timestamp : ℕ
  pub conflicting_fields : Dict Text V
  pub server_fields : Dict Text V
  pub status : ReviewStatus
  pub created_at : Text

-- Who wrote a field last, when, and what.
abbrev pub Stamp : Type 0 → Type 0
Stamp V = Text × ℕ × V

pub record ReconciliationState (V : Type 0) : Type 0 where
  pub processed_mutations : List Text
  pub entity_states : Dict Text (Dict Text V)
  pub entity_field_timestamps : Dict Text (Dict Text (Stamp V))
  pub staged_conflicts : Dict Text (StagedConflictRecord V)

-- `SyncBatchResponse`
pub record BatchResponse : Type 0 where
  pub processed_count : ℕ
  pub synced_count : ℕ
  pub conflict_count : ℕ
  pub failed_count : ℕ
  pub results : List Ack

-- f"{entity_type}:{entity_id}"
abbrev pub entity_key : Text → Text → Text
entity_key entity_type entity_id = entity_type ++ b':' ∷ entity_id

-- f"conflict-{mutation_id}"
abbrev pub conflict_id_of : Text → Text
conflict_id_of mutation_id = text "conflict-" ++ mutation_id

module _ {V : Type 0} where
  -- `self.entity_states.setdefault(entity_key, {})`, and the same for the time stamps
  abbrev pub state_of : ReconciliationState V → Text → Dict Text V
  state_of s key = get_or (get s.entity_states key) []

  abbrev pub stamps_of : ReconciliationState V → Text → Dict Text (Stamp V)
  stamps_of s key = get_or (get s.entity_field_timestamps key) []
