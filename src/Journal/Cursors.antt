-- ===== src/Journal/Cursors.antt =====
-- The outbox as a log that clients poll by cursor (apps/server/app/domain.py, `changes_after`).
use mathlib.Core.List.{append-nil, append_assoc}
use project_digital_twin.Base.{
  ℕ, zero, suc, ◌+◌, ◌≤◌, ◌≡◌, refl, ap, ◌∙◌, ◌&&◌, List, [], ◌∷◌, ◌++◌, map, arith, Text, ◌==◌,
  nat_eq, list_eq, pair_eq, option_eq, length, keep, drop, drop-append, ltb,
}
use project_digital_twin.Store.Contracts.{OutboxEvent, AuditEvent}
use project_digital_twin.Store.State.{Journal, Store, next_uuid, next_time}
use project_digital_twin.Journal.Events.{
  EventArgs, outbox_event, log_event, add_event, changes_after,
}

-- The cursors count on from `n`.
abbrev pub NumberedFrom : ℕ → List OutboxEvent → Type 0
NumberedFrom n [] = Unit
NumberedFrom n (e ∷ events) = (e.cursor ≡ n + 1) × NumberedFrom (n + 1) events

-- Each event of the outbox has the audit record of its place.
abbrev pub AuditedBy : List OutboxEvent → List AuditEvent → Type 0
AuditedBy [] [] = Unit
AuditedBy [] (a ∷ audits) = ⊥
AuditedBy (e ∷ events) [] = ⊥
AuditedBy (e ∷ events) (a ∷ audits) =
    ((a.event_id ≡ e.event_id)
      × (a.event_type ≡ e.event_type)
      × (a.project_id ≡ e.project_id)
      × (a.occurred_at ≡ e.occurred_at))
    × AuditedBy events audits

pub record IsConsistent (j : Journal) : Type 0 where
  pub numbered : NumberedFrom 0 j.outbox
  pub audited : AuditedBy j.outbox j.audit_events

NumberedFrom-append :
    (n : ℕ) (events : List OutboxEvent) (e : OutboxEvent)
    → NumberedFrom n events
    → e.cursor ≡ n + length events + 1
    → NumberedFrom n (events ++ e ∷ [])
NumberedFrom-append n [] e h p = (omega arith, tt)
NumberedFrom-append n (x ∷ events) e h p =
    (h.0, NumberedFrom-append (n + 1) events e h.1 (omega arith))

AuditedBy-append :
    (events : List OutboxEvent) (audits : List AuditEvent) (e : OutboxEvent) (a : AuditEvent)
    → AuditedBy events audits
    → AuditedBy (e ∷ []) (a ∷ [])
    → AuditedBy (events ++ e ∷ []) (audits ++ a ∷ [])
AuditedBy-append [] [] e a h k = k
AuditedBy-append [] (x ∷ audits) e a h k = absurd h
AuditedBy-append (x ∷ events) [] e a h k = absurd h
AuditedBy-append (x ∷ events) (y ∷ audits) e a h k = (h.0, AuditedBy-append events audits e a h.1 k)

-- An event gets the next cursor of the outbox and an audit record of its own with the same
-- identifier, type, project and time; the earlier ones stay numbered from 1 and audited.
pub add_event-IsConsistent :
    (args : EventArgs) (s : Store)
    → IsConsistent s.journal
    → IsConsistent (add_event args s).journal
unfolding add_event log_event
add_event-IsConsistent args s h = record {
  numbered = NumberedFrom-append 0 s.journal.outbox _ h.numbered (omega arith);
  audited =
      AuditedBy-append s.journal.outbox s.journal.audit_events _ _ h.audited
        ((refl, refl, refl, refl), tt);
}

keep_all_after :
    (project_id cursor n : ℕ) (events : List OutboxEvent)
    → NumberedFrom n events
    → cursor ≤ n
    → keep (λ e. e.project_id == project_id && ltb cursor e.cursor) events
      ≡ keep (λ e. e.project_id == project_id) events
keep_all_after project_id cursor n [] h le = refl
keep_all_after project_id cursor n (e ∷ events) h le =
    ground (arith, keep_all_after project_id cursor (n + 1) events h.1)

keep_after :
    (project_id cursor k n : ℕ) (events : List OutboxEvent)
    → NumberedFrom n events
    → cursor ≡ n + k
    → keep (λ e. e.project_id == project_id && ltb cursor e.cursor) events
      ≡ keep (λ e. e.project_id == project_id) (drop k events)
keep_after project_id cursor zero n events h p =
    keep_all_after project_id cursor n events h (omega arith)
keep_after project_id cursor (suc k) n [] h p = refl
keep_after project_id cursor (suc k) n (e ∷ events) h p =
    ground (arith, keep_after project_id cursor k (n + 1) events h.1)

-- Polling after a cursor returns exactly the project's events that stand behind that many events
-- of the outbox, in order.
pub changes_after-eq-drop :
    (s : Store) (project_id cursor : ℕ)
    → IsConsistent s.journal
    → changes_after s project_id cursor
      ≡ keep (λ e. e.project_id == project_id) (drop cursor s.journal.outbox)
unfolding changes_after
changes_after-eq-drop s project_id cursor h =
    keep_after project_id cursor cursor 0 s.journal.outbox h.numbered (omega arith)

-- The type and the project of an event, as logged and as asked for.
abbrev pub logged : OutboxEvent → Text × ℕ
logged e = (e.event_type, e.project_id)

abbrev pub requested : EventArgs → Text × ℕ
requested a = (a.event_type, a.project_id)

unfoldable pub add_events : List EventArgs → Store → Store
add_events [] s = s
add_events (args ∷ rest) s = add_events rest (add_event args s)

add_events-IsConsistent :
    (l : List EventArgs) (s : Store)
    → IsConsistent s.journal
    → IsConsistent (add_events l s).journal
unfolding add_events
add_events-IsConsistent [] s h = h
add_events-IsConsistent (args ∷ rest) s h =
    add_events-IsConsistent rest (add_event args s) (add_event-IsConsistent args s h)

outbox-add_events :
    (l : List EventArgs) (s : Store)
    → (new : List OutboxEvent) × ((add_events l s).journal.outbox ≡ s.journal.outbox ++ new)
      × (map logged new ≡ map requested l)
unfolding add_events add_event log_event
outbox-add_events [] s = ([], rw append-nil, refl)
outbox-add_events (args ∷ rest) s =
    let (new, e, types) = outbox-add_events rest (add_event args s) in
    (
      outbox_event s.journal args (next_uuid s) (next_time s) ∷ new,
      e
          ∙ append_assoc s.journal.outbox
              (outbox_event s.journal args (next_uuid s) (next_time s) ∷ []) new,
      ap (λ l. requested args ∷ l) types,
    )

-- A client that has seen the whole outbox and polls from its end after more events misses none of
-- its project's and sees none twice: it gets the new ones, in the order in which they were added.
pub polling_is_complete :
    (s : Store) (l : List EventArgs) (project_id : ℕ)
    → IsConsistent s.journal
    → (new : List OutboxEvent) × ((add_events l s).journal.outbox ≡ s.journal.outbox ++ new)
      × (map logged new ≡ map requested l)
      × (changes_after (add_events l s) project_id (length s.journal.outbox)
          ≡ keep (λ e. e.project_id == project_id) new)
polling_is_complete s l project_id h =
    let (new, e, types) = outbox-add_events l s in
    (
      new,
      e,
      types,
      rw (
        changes_after-eq-drop (add_events l s) project_id (length s.journal.outbox)
            (add_events-IsConsistent l s h),
        e,
        drop-append,
      ),
    )
