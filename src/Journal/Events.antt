-- ===== src/Journal/Events.antt =====
-- `_add_event`, `changes_after` and `query_audit` (apps/server/app/domain.py).
use project_digital_twin.Base.{
  ℕ, ◌+◌, Bool, true, false, ◌&&◌, Option, none, some, List, [], ◌∷◌, ◌++◌, map, Text, text, Dict,
  get, put, keys, ◌==◌, nat_eq, list_eq, pair_eq, option_eq, get_or, length, keep, ltb, leb,
  if◌then◌else◌,
}
use project_digital_twin.Store.Values.{Fields, field_of, value_eq}
use project_digital_twin.Store.Contracts.{OutboxEvent, FieldChange, AuditEvent}
use project_digital_twin.Store.State.{Journal, Store}

-- The arguments of `_add_event`; `quiet` has the defaults of its keyword arguments.
pub record EventArgs : Type 0 where
  pub event_type : Text
  pub aggregate_id : ℕ
  pub project_id : ℕ
  pub version : ℕ
  pub payload : Fields
  pub actor : Text
  pub file_id : Option ℕ
  pub object_id : Option ℕ
  pub profile_id : Option Text
  pub changeset_id : Option ℕ
  pub status : Option Text
  pub before : Fields
  pub after : Fields
  pub correlation_id : Option ℕ
  pub causation_id : Option ℕ
  pub duration_ms : Option ℕ

abbrev pub quiet : Text → ℕ → ℕ → ℕ → Fields → EventArgs
quiet event_type aggregate_id project_id version payload = record {
  event_type = event_type;
  aggregate_id = aggregate_id;
  project_id = project_id;
  version = version;
  payload = payload;
  actor = text "system";
  file_id = none;
  object_id = none;
  profile_id = none;
  changeset_id = none;
  status = none;
  before = [];
  after = [];
  correlation_id = none;
  causation_id = none;
  duration_ms = none;
}

-- Python's order on `str`, by code points.
unfoldable pub text_ltb : Text → Text → Bool
text_ltb [] [] = false
text_ltb [] (y ∷ ys) = true
text_ltb (x ∷ xs) [] = false
text_ltb (x ∷ xs) (y ∷ ys) = let rest = text_ltb xs ys in if x == y then rest else ltb x y

-- A name put into a sorted list without duplicates.
unfoldable pub insert_name : Text → List Text → List Text
insert_name name [] = name ∷ []
insert_name name (first ∷ names) =
    let rest = insert_name name names in
    if name == first
    then first ∷ names
    else if text_ltb name first
    then name ∷ first ∷ names
    else first ∷ rest

-- `sorted(set(before) | set(after))`
unfoldable pub sorted_names : List Text → List Text
unfolding insert_name
sorted_names [] = []
sorted_names (name ∷ names) = insert_name name (sorted_names names)

unfoldable pub field_changes : Fields → Fields → List FieldChange
unfolding sorted_names keys
field_changes before after =
    map
      (λ name. record { field = name; before = field_of before name; after = field_of after name })
      (sorted_names (keys before ++ keys after))

-- `correlation_id or self._correlation_by_aggregate.setdefault(aggregate_id, fresh)`
abbrev pub correlation : Journal → EventArgs → ℕ → ℕ
correlation j args fresh =
    get_or args.correlation_id (get_or (get j.correlation_by_aggregate args.aggregate_id) fresh)

abbrev pub set_correlation : Journal → EventArgs → ℕ → Dict ℕ ℕ
set_correlation j args fresh = elim args.correlation_id [
  | none ↦
      put j.correlation_by_aggregate args.aggregate_id
        (get_or (get j.correlation_by_aggregate args.aggregate_id) fresh)
  | some _ ↦ j.correlation_by_aggregate
]

-- `causation_id or self._last_event_by_aggregate.get(aggregate_id)`
abbrev pub causation : Journal → EventArgs → Option ℕ
causation j args = elim args.causation_id [
  | none ↦ get j.last_event_by_aggregate args.aggregate_id
  | some c ↦ some c
]

abbrev pub outbox_event : Journal → EventArgs → ℕ → ℕ → OutboxEvent
outbox_event j args event_id now = record {
  cursor = length j.outbox + 1;
  event_id = event_id;
  event_type = args.event_type;
  aggregate_id = args.aggregate_id;
  aggregate_version = args.version;
  project_id = args.project_id;
  payload = args.payload;
  occurred_at = now;
}

abbrev pub audit_event : Journal → EventArgs → ℕ → ℕ → ℕ → ℕ → AuditEvent
audit_event j args event_id fresh audit_id now = record {
  id = audit_id;
  project_id = args.project_id;
  event_id = event_id;
  event_type = args.event_type;
  operation = args.event_type;
  actor = args.actor;
  occurred_at = now;
  file_id = args.file_id;
  object_id = get_or args.object_id args.aggregate_id;
  profile_id = args.profile_id;
  changeset_id = args.changeset_id;
  status = args.status;
  correlation_id = correlation j args fresh;
  causation_id = causation j args;
  field_changes = field_changes args.before args.after;
  duration_ms = args.duration_ms;
}

-- What `_add_event` does to its four tables, given the identifiers that it draws and the time.
unfoldable pub log_event : Journal → EventArgs → ℕ → ℕ → ℕ → ℕ → Journal
log_event j args event_id fresh audit_id now = record {
  outbox = j.outbox ++ outbox_event j args event_id now ∷ [];
  audit_events = j.audit_events ++ audit_event j args event_id fresh audit_id now ∷ [];
  correlation_by_aggregate = set_correlation j args fresh;
  last_event_by_aggregate = put j.last_event_by_aggregate args.aggregate_id event_id;
}

-- A fresh correlation is drawn even where the aggregate has one, but not beside an explicit one.
abbrev pub event_draws : EventArgs → ℕ
event_draws args = elim args.correlation_id [ none ↦ 2 | some _ ↦ 1 ]

-- `_add_event`
unfoldable pub add_event : EventArgs → Store → Store
add_event args s = record s {
  supply = record (s.supply) {
    drawn = s.supply.drawn + event_draws args + 1;
    readings = s.supply.readings + 1;
  };
  journal =
      log_event s.journal args (s.supply.uuid s.supply.drawn) (s.supply.uuid (s.supply.drawn + 1))
        (s.supply.uuid (s.supply.drawn + event_draws args)) (s.supply.time s.supply.readings);
}

unfoldable pub changes_after : Store → ℕ → ℕ → List OutboxEvent
changes_after s project_id cursor =
    keep (λ e. e.project_id == project_id && ltb cursor e.cursor) s.journal.outbox

-- The filters of `query_audit`.
pub record AuditQuery : Type 0 where
  pub file_id : Option ℕ
  pub object_id : Option ℕ
  pub actor : Option Text
  pub from_time : Option ℕ
  pub to_time : Option ℕ
  pub profile_id : Option Text
  pub changeset_id : Option ℕ
  pub status : Option Text

-- `wanted is None or test(wanted)`
abbrev pub admits {ℓ} : {A : Type ℓ} → Option A → (A → Bool) → Bool
admits none test = true
admits (some a) test = test a

unfoldable pub audit_matches : ℕ → AuditQuery → AuditEvent → Bool
audit_matches project_id q e =
    e.project_id == project_id
    && admits q.file_id (λ x. e.file_id == some x)
    && admits q.object_id (λ x. e.object_id == x)
    && admits q.actor (λ x. e.actor == x)
    && admits q.from_time (λ x. leb x e.occurred_at)
    && admits q.to_time (λ x. leb e.occurred_at x)
    && admits q.profile_id (λ x. e.profile_id == some x)
    && admits q.changeset_id (λ x. e.changeset_id == some x)
    && admits q.status (λ x. e.status == some x)

unfoldable pub query_audit : Store → ℕ → AuditQuery → List AuditEvent
unfolding audit_matches
query_audit s project_id q = keep (audit_matches project_id q) s.journal.audit_events
