-- ===== src/Journal/Tests.antt =====
-- Runs of the journal, and the theorems at concrete inputs.
use project_digital_twin.Base.{
  ℕ, ◌≡◌, refl, List, [], ◌∷◌, ◌++◌, map, text, get, ◌==◌, nat_eq, list_eq, pair_eq, option_eq,
  length, keep, list_beq,
}
use project_digital_twin.Store.Values.{null, num, value_eq}
use project_digital_twin.Store.Contracts.{OutboxEvent}
use project_digital_twin.Store.State.{Store}
use project_digital_twin.Journal.Events.{
  EventArgs, quiet, text_ltb, field_changes, log_event, add_event, changes_after,
}
use project_digital_twin.Journal.Cursors.{
  IsConsistent, add_event-IsConsistent, logged, add_events, polling_is_complete,
}
use project_digital_twin.Journal.Log.{
  Call, publish, poll, entry_of, answers, log_answers, requested_entry, answers_refine_log,
}
use project_digital_twin.Store.Samples.{empty_store}

abbrev noted : ℕ → ℕ → EventArgs
noted aggregate project = record (quiet (text "Noted") aggregate project 1 []) {
  before = (text "status", num 1) ∷ [];
  after = (text "name", num 2) ∷ (text "status", num 3) ∷ [];
}

abbrev three : Store
three = add_events (noted 7 1 ∷ noted 8 2 ∷ noted 7 1 ∷ []) empty_store

-- The fields of the audit record are sorted, and a missing value is `None`.
field_changes_run :
    field_changes (noted 7 1).before (noted 7 1).after
    ≡ record { field = text "name"; before = null; after = num 2 }
      ∷ record { field = text "status"; before = num 1; after = num 3 }
      ∷ []
unfolding field_changes text_ltb get list_beq
field_changes_run = refl

poll_run : map (λ e. e.cursor) (changes_after three 1 1) ≡ 3 ∷ []
unfolding empty_store add_events add_event log_event changes_after
poll_run = refl

empty-IsConsistent : IsConsistent empty_store.journal
unfolding empty_store
empty-IsConsistent = record { numbered = tt; audited = tt }

one-IsConsistent : IsConsistent (add_event (noted 7 1) empty_store).journal
one-IsConsistent = add_event-IsConsistent (noted 7 1) empty_store empty-IsConsistent

abbrev one : Store
one = add_event (noted 7 1) empty_store

polling_is_complete_example :
    let l = noted 8 2 ∷ noted 9 1 ∷ [] in
    (new : List OutboxEvent) × ((add_events l one).journal.outbox ≡ one.journal.outbox ++ new)
    × (map logged new ≡ (text "Noted", 2) ∷ (text "Noted", 1) ∷ [])
    × (changes_after (add_events l one) 1 (length one.journal.outbox)
        ≡ keep (λ e. e.project_id == 1) new)
polling_is_complete_example =
    polling_is_complete one (noted 8 2 ∷ noted 9 1 ∷ []) 1 one-IsConsistent

abbrev calls : List Call
calls = poll 1 1 ∷ publish (noted 8 2) ∷ publish (noted 9 1) ∷ poll 1 1 ∷ []

answers_run : answers calls one ≡ [] ∷ (requested_entry (noted 9 1) ∷ []) ∷ []
unfolding empty_store answers add_event log_event changes_after
answers_run = refl

answers_refine_log_example : answers calls one ≡ log_answers calls (map entry_of one.journal.outbox)
answers_refine_log_example = answers_refine_log calls one one-IsConsistent
