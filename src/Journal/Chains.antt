-- ===== src/Journal/Chains.antt =====
-- How audit records are linked: one correlation for an aggregate, and each cause the event before it
-- (apps/server/app/domain.py, `_add_event`).
use project_digital_twin.Base.{
  ℕ, ◌+◌, ◌≡◌, ◌≢◌, none, some, List, [], ◌∷◌, arith, get, nat_eq, list_eq, pair_eq, option_eq,
  get_or, last?, All, last?-append_single, get-put, get-put_self,
}
use project_digital_twin.Store.Contracts.{AuditEvent}
use project_digital_twin.Store.State.{Store, next_uuid, next_time}
use project_digital_twin.Journal.Events.{EventArgs, audit_event, log_event, event_draws, add_event}
use project_digital_twin.Journal.Cursors.{add_events}

module _ (aggregate c : ℕ) where
  correlation_kept :
      (args : EventArgs) (s : Store)
      → get s.journal.correlation_by_aggregate aggregate ≡ some c
      → get (add_event args s).journal.correlation_by_aggregate aggregate ≡ some c
  unfolding add_event log_event
  correlation_kept args s h = ground (
    arith,
    get-put s.journal.correlation_by_aggregate args.aggregate_id aggregate (
        get_or (get s.journal.correlation_by_aggregate args.aggregate_id)
          (s.supply.uuid (s.supply.drawn + 1))),
  )

  correlation_kept_by :
      (l : List EventArgs) (s : Store)
      → get s.journal.correlation_by_aggregate aggregate ≡ some c
      → get (add_events l s).journal.correlation_by_aggregate aggregate ≡ some c
  unfolding add_events
  correlation_kept_by [] s h = h
  correlation_kept_by (args ∷ l) s h =
      correlation_kept_by l (add_event args s) (correlation_kept args s h)

  last_event_kept :
      (args : EventArgs) (s : Store)
      → args.aggregate_id ≢ aggregate
      → get s.journal.last_event_by_aggregate aggregate ≡ some c
      → get (add_event args s).journal.last_event_by_aggregate aggregate ≡ some c
  unfolding add_event log_event
  last_event_kept args s ne h =
      ground
        (arith, get-put s.journal.last_event_by_aggregate args.aggregate_id aggregate (next_uuid s))

  last_event_kept_by :
      (l : List EventArgs) (s : Store)
      → All (λ b. b.aggregate_id ≢ aggregate) l
      → get s.journal.last_event_by_aggregate aggregate ≡ some c
      → get (add_events l s).journal.last_event_by_aggregate aggregate ≡ some c
  unfolding add_events
  last_event_kept_by [] s ne h = h
  last_event_kept_by (args ∷ l) s ne h =
      last_event_kept_by l (add_event args s) ne.1 (last_event_kept args s ne.0 h)

-- The audit record that an event adds.
abbrev pub audit_of : EventArgs → Store → AuditEvent
audit_of args s =
    audit_event s.journal args (next_uuid s) (s.supply.uuid (s.supply.drawn + 1))
      (s.supply.uuid (s.supply.drawn + event_draws args)) (next_time s)

last_audit :
    (args : EventArgs) (s : Store)
    → last? (add_event args s).journal.audit_events ≡ some (audit_of args s)
unfolding add_event log_event
last_audit args s = last?-append_single s.journal.audit_events (audit_of args s)

correlation_set :
    (args : EventArgs) (s : Store)
    → args.correlation_id ≡ none
    → get (add_event args s).journal.correlation_by_aggregate args.aggregate_id
      ≡ some (audit_of args s).correlation_id
unfolding add_event log_event
correlation_set args s e = rw e (
    get-put_self s.journal.correlation_by_aggregate args.aggregate_id (
      get_or (get s.journal.correlation_by_aggregate args.aggregate_id)
        (s.supply.uuid (s.supply.drawn + 1))))

last_event_set :
    (args : EventArgs) (s : Store)
    → get (add_event args s).journal.last_event_by_aggregate args.aggregate_id
      ≡ some (audit_of args s).event_id
unfolding add_event log_event
last_event_set args s =
    get-put_self s.journal.last_event_by_aggregate args.aggregate_id (next_uuid s)

-- Two events of one aggregate that leave the correlation and the cause to the store, with only events
-- of other aggregates between them: their audit records share the correlation, and the cause of the
-- second is the first.
pub events_are_chained :
    (s : Store) (args args' : EventArgs) (between : List EventArgs)
    → args'.aggregate_id ≡ args.aggregate_id
    → args.correlation_id ≡ none
    → args'.correlation_id ≡ none
    → args'.causation_id ≡ none
    → All (λ b. b.aggregate_id ≢ args.aggregate_id) between
    → let s' = add_event args s in
      (a : AuditEvent) × (a' : AuditEvent) × (last? s'.journal.audit_events ≡ some a)
      × (last? (add_event args' (add_events between s')).journal.audit_events ≡ some a')
      × (a'.correlation_id ≡ a.correlation_id)
      × (a'.causation_id ≡ some a.event_id)
events_are_chained s args args' between same free free' uncaused others =
    let s' = add_event args s in
    let t = add_events between s' in
    (
      audit_of args s,
      audit_of args' t,
      last_audit args s,
      last_audit args' t,
      rw (
        free',
        same,
        correlation_kept_by args.aggregate_id (audit_of args s).correlation_id between s'
            (correlation_set args s free),
      ),
      rw (
        uncaused,
        same,
        last_event_kept_by args.aggregate_id (audit_of args s).event_id between s' others
            (last_event_set args s),
      ),
    )
