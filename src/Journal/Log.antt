-- ===== src/Journal/Log.antt =====
-- The outbox as what it is for: a log that is appended to and read from a position
-- (apps/server/app/domain.py, `_add_event` and `changes_after`).
use project_digital_twin.Base.{
  ℕ, zero, suc, ◌≡◌, refl, ap, ◌∙◌, inl, inr, List, [], ◌∷◌, ◌++◌, map, Text, ◌==◌, nat_eq, list_eq,
  pair_eq, option_eq, keep, drop, Bool-cases,
}
use project_digital_twin.Store.Values.{Fields}
use project_digital_twin.Store.Contracts.{OutboxEvent}
use project_digital_twin.Store.State.{Store}
use project_digital_twin.Journal.Events.{EventArgs, log_event, add_event, changes_after}
use project_digital_twin.Journal.Cursors.{
  IsConsistent, add_event-IsConsistent, changes_after-eq-drop,
}

-- What an event says, without its place, its identifier and its time.
pub record Entry : Type 0 where
  pub event_type : Text
  pub project_id : ℕ
  pub aggregate_id : ℕ
  pub aggregate_version : ℕ
  pub payload : Fields

abbrev pub entry_of : OutboxEvent → Entry
entry_of e = record {
  event_type = e.event_type;
  project_id = e.project_id;
  aggregate_id = e.aggregate_id;
  aggregate_version = e.aggregate_version;
  payload = e.payload;
}

abbrev pub requested_entry : EventArgs → Entry
requested_entry args = record {
  event_type = args.event_type;
  project_id = args.project_id;
  aggregate_id = args.aggregate_id;
  aggregate_version = args.version;
  payload = args.payload;
}

pub data Call : Type 0 where
  publish : EventArgs → Call
  poll : (project_id cursor : ℕ) → Call

-- What the polls of a sequence of calls return.
unfoldable pub answers : List Call → Store → List (List Entry)
answers [] s = []
answers (publish args ∷ calls) s = answers calls (add_event args s)
answers (poll project_id cursor ∷ calls) s =
    map entry_of (changes_after s project_id cursor) ∷ answers calls s

-- What they should: a poll reads the entries of the project behind the first `cursor` of the log.
unfoldable pub log_answers : List Call → (log : List Entry) → List (List Entry)
log_answers [] log = []
log_answers (publish args ∷ calls) log = log_answers calls (log ++ requested_entry args ∷ [])
log_answers (poll project_id cursor ∷ calls) log =
    keep (λ e. e.project_id == project_id) (drop cursor log) ∷ log_answers calls log

keep-entries :
    (project_id : ℕ) (events : List OutboxEvent)
    → map entry_of (keep (λ e. e.project_id == project_id) events)
      ≡ keep (λ e. e.project_id == project_id) (map entry_of events)
keep-entries project_id [] = refl
keep-entries project_id (e ∷ events) = elim (Bool-cases (e.project_id == project_id)) [
  | inl same ↦ rw same (ap (λ l. entry_of e ∷ l) (keep-entries project_id events))
  | inr apart ↦ rw apart (keep-entries project_id events)
]

drop-entries :
    (cursor : ℕ) (events : List OutboxEvent)
    → map entry_of (drop cursor events) ≡ drop cursor (map entry_of events)
drop-entries zero events = refl
drop-entries (suc cursor) [] = refl
drop-entries (suc cursor) (e ∷ events) = drop-entries cursor events

entries-append :
    (events : List OutboxEvent) (e : OutboxEvent)
    → map entry_of (events ++ e ∷ []) ≡ map entry_of events ++ entry_of e ∷ []
entries-append [] e = refl
entries-append (x ∷ events) e = ap (λ l. entry_of x ∷ l) (entries-append events e)

entries-add_event :
    (args : EventArgs) (s : Store)
    → map entry_of (add_event args s).journal.outbox
      ≡ map entry_of s.journal.outbox ++ requested_entry args ∷ []
unfolding add_event log_event
entries-add_event args s = entries-append s.journal.outbox _

-- The journal implements a log. From a consistent one, however events and polls follow each other, the
-- polls return what they would from a plain list of entries that starts with those of the outbox,
-- where adding an event appends its entry and a poll skips as many entries as its cursor says and
-- takes those of its project.
pub answers_refine_log :
    (calls : List Call) (s : Store)
    → IsConsistent s.journal
    → answers calls s ≡ log_answers calls (map entry_of s.journal.outbox)
unfolding answers log_answers
answers_refine_log [] s h = refl
answers_refine_log (publish args ∷ calls) s h =
    answers_refine_log calls (add_event args s) (add_event-IsConsistent args s h)
    ∙ ap (log_answers calls) (entries-add_event args s)
answers_refine_log (poll project_id cursor ∷ calls) s h =
    let here : map entry_of (changes_after s project_id cursor)
        ≡ keep (λ e. e.project_id == project_id) (drop cursor (map entry_of s.journal.outbox)) =
      ap (map entry_of) (changes_after-eq-drop s project_id cursor h)
      ∙ keep-entries project_id (drop cursor s.journal.outbox)
      ∙ ap (keep (λ e. e.project_id == project_id)) (drop-entries cursor s.journal.outbox) in
    λ i. here i ∷ answers_refine_log calls s h i
